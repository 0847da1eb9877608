-- ===== src/Provider/State.antt =====
-- The load balancer and its specification as the provider reads them, the calls that change
-- something, and the tests of what differs: the reserved address, the shape and the network
-- security groups (load_balancer_util.go, util.go and the head of UpdateLoadBalancer).
use oci_lb_ingress_controlle.Base.Sets.{has, of_list}
use oci_lb_ingress_controlle.Base.Maps.{Map}
use oci_lb_ingress_controlle.LoadBalancer.Types.{
  PortSpec, BackendSet, BackendSetDetails, Listener, ListenerDetails,
}
use oci_lb_ingress_controlle.Provider.Subnets.{Subnet, Node}
use oci_lb_ingress_controlle.Base.{
  ◌==◌, if◌then◌else◌, is_some, int_eq, ℤ, length, is_empty, all, Str, text, str_eq, Bool, true,
  false, not, ◌&&◌, ◌||◌, Option, none, some, List, [], ◌∷◌,
}

-- `reserved_ip` tells whether the address is a reserved one.
pub record IpAddress : Type 0 where
  pub ip_address : Option Str
  pub reserved_ip : Bool
  pub is_public : Bool

pub record ShapeDetails : Type 0 where
  pub minimum_bandwidth_in_mbps : ℤ
  pub maximum_bandwidth_in_mbps : ℤ

pub record LoadBalancer : Type 0 where
  pub id : Str
  pub ip_addresses : List IpAddress
  pub shape_name : Str
  pub shape_details : Option ShapeDetails
  pub network_security_group_ids : List Str
  pub backend_sets : Map BackendSet
  pub listeners : Map Listener

pub record LbSpec : Type 0 where
  pub shape : Str
  pub flex_min : Option ℤ
  pub flex_max : Option ℤ
  pub subnets : List Str
  pub listeners : Map ListenerDetails
  pub backend_sets : Map BackendSetDetails
  pub load_balancer_ip : Str
  pub ports : Map PortSpec
  pub source_cidrs : List Str
  pub network_security_group_ids : List Str
  pub nodes : List Node

-- The subnets of the load balancer and of the nodes
pub record Subnets : Type 0 where
  pub lb_subnets : List Subnet
  pub node_subnets : List Subnet

pub data Call : Type 0 where
  security_lists_update_call : Subnets → List Str → Option PortSpec → PortSpec → Call
  security_lists_delete_call : Subnets → PortSpec → Call
  create_backend_set_call update_backend_set_call : Str → BackendSetDetails → Call
  delete_backend_set_call : Str → Call
  create_listener_call update_listener_call : Str → ListenerDetails → Call
  delete_listener_call : Str → Call
  await_work_request_call : Str → Call
  update_shape_call : Str → Option (Option ℤ × Option ℤ) → Call
  update_network_security_groups_call : List Str → Call

-- The loop that finds the public reserved address.
unfoldable pub actual_public_reserved_ip : List IpAddress → Option Str
actual_public_reserved_ip [] = none
actual_public_reserved_ip (ip ∷ ips) =
    let rest = actual_public_reserved_ip ips in
    if is_some ip.ip_address && (ip.reserved_ip && ip.is_public) then ip.ip_address else rest

abbrev pub differs_from : Str → Option Str → Bool
differs_from ip none = true
differs_from ip (some a) = not (str_eq a ip)

unfoldable pub reserved_ip_changed : LoadBalancer → LbSpec → Bool
reserved_ip_changed lb spec =
    let actual = actual_public_reserved_ip lb.ip_addresses in
    (not (is_empty spec.load_balancer_ip) || is_some actual)
    && differs_from spec.load_balancer_ip actual

abbrev pub flex_changed : Option ShapeDetails → Option ℤ → Option ℤ → Bool
flex_changed none flex_min flex_max = false
flex_changed (some d) none flex_max = false
flex_changed (some d) (some lo) none = false
flex_changed (some d) (some lo) (some hi) =
    not (int_eq d.minimum_bandwidth_in_mbps lo) || not (int_eq d.maximum_bandwidth_in_mbps hi)

unfoldable pub has_loadbalancer_shape_changed : LbSpec → LoadBalancer → Bool
has_loadbalancer_shape_changed spec lb =
    not (str_eq lb.shape_name spec.shape)
    || flex_changed lb.shape_details spec.flex_min spec.flex_max

-- DeepEqualLists: equality as sets
unfoldable pub deep_equal_lists : List Str → List Str → Bool
deep_equal_lists xs ys =
    length (of_list xs) == length (of_list ys) && all (λ x. has x (of_list ys)) (of_list xs)

unfoldable pub has_load_balancer_network_security_groups_changed : List Str → List Str → Bool
has_load_balancer_network_security_groups_changed actual desired =
    if not (length desired == length actual) then true else not (deep_equal_lists actual desired)

abbrev pub flexible : Str
flexible = text "flexible"

-- The conversion that the service does not support.
abbrev pub converts_from_flexible : LoadBalancer → LbSpec → Bool
converts_from_flexible lb spec = str_eq lb.shape_name flexible && not (str_eq spec.shape flexible)
