-- ===== src/Manager/Model.antt =====
-- The load balancer and the specification as the manager reads them, the requests that it makes,
-- and the world that answers. A field that is only passed on is a text.
use oci_lb_ingress_controlle.Base.Maps.{Map}
use oci_lb_ingress_controlle.Base.Effects.{Cloud, Run}
use oci_lb_ingress_controlle.LoadBalancer.Types.{BackendSetDetails, ListenerDetails}
use oci_lb_ingress_controlle.Provider.State.{LoadBalancer, LbSpec, Call}
use oci_lb_ingress_controlle.Provider.Subnets.{Network}
use native.Mathlib.Decide.{ℕ_discrete}
use oci_lb_ingress_controlle.Base.{
  ℤ, Str, text, Error, message, Result, ok, Bool, true, false, ◌≡◌, ◌↔◌, Option, List, [], ◌∷◌,
  ◌++◌, arith,
}

-- `actions` are the backend sets that a request is forwarded to.
pub record RoutingRule : Type 0 where
  pub name : Str
  pub condition : Str
  pub actions : List Str

pub record RoutingPolicy : Type 0 where
  pub name : Str
  pub condition_language_version : Str
  pub rules : List RoutingRule

-- A rule set's items, each as a text.
pub record RuleSet : Type 0 where
  pub items : List Str

pub record HostnameDetails : Type 0 where
  pub name : Str
  pub hostname : Str

-- A certificate may have no chain, which is another than an empty one.
pub record Certificate : Type 0 where
  pub certificate_name : Str
  pub public_certificate : Str
  pub ca_certificate : Option Str

-- What a client sends of a certificate, with the private key.
pub record CertificateDetails : Type 0 where
  pub certificate : Certificate
  pub private_key : Str

-- `balancer` holds the fields that the provider reads.
pub record OciLoadBalancer : Type 0 where
  pub balancer : LoadBalancer
  pub display_name : Str
  pub lifecycle_state : Str
  pub routing_policies : Map RoutingPolicy
  pub rule_sets : Map RuleSet
  pub hostnames : Map HostnameDetails
  pub certificates : Map Certificate

-- The specification of an ingress: `spec` is the embedded LBSpec.
pub record IngressLbSpec : Type 0 where
  pub spec : LbSpec
  pub name : Str
  pub internal : Bool
  pub tags : Map Str
  pub routing_policies : Map RoutingPolicy
  pub rule_sets : Map RuleSet
  pub hostname_details : Map HostnameDetails
  pub certificates : Map CertificateDetails

-- What CreateLoadBalancer is sent, with the reserved address if there is one.
pub record CreateDetails : Type 0 where
  pub compartment_id : Str
  pub display_name : Str
  pub shape_name : Str
  pub shape_details : Option (Option ℤ × Option ℤ)
  pub is_private : Bool
  pub subnet_ids : List Str
  pub listeners : Map ListenerDetails
  pub backend_sets : Map BackendSetDetails
  pub hostnames : Map HostnameDetails
  pub certificates : Map CertificateDetails
  pub network_security_group_ids : List Str
  pub freeform_tags : Map Str
  pub rule_sets : Map RuleSet
  pub reserved_ips : List Str

-- What the client's calls are made with; `provider_request` is a call of the provider, and
-- `patch_lb_info` the change that a finished action makes to the load balancer in memory.
pub data Request : Type 0 where
  create_routing_policy update_routing_policy : Str → RoutingPolicy → Request
  delete_routing_policy : Str → Request
  create_rule_set update_rule_set : Str → RuleSet → Request
  delete_rule_set : Str → Request
  create_hostname : HostnameDetails → Request
  delete_hostname : Str → Request
  create_certificate : CertificateDetails → Request
  delete_certificate : Str → Request
  create_load_balancer : CreateDetails → Request
  delete_load_balancer : Str → Request
  get_load_balancer : Str → Request
  get_load_balancer_by_name : Str → Str → Request
  get_public_ip_by_ip_address : Str → Request
  await_work_request : Str → Request
  update_ingress_status : Str → Request
  patch_lb_info : Str → Str → Bool → Request
  provider_request : Call → Request

-- A reserved address, and whether its state is the available one.
pub record PublicIp : Type 0 where
  pub id : Str
  pub is_available : Bool

-- What answers: the client, whose answer to a wait is the identifier of the load balancer, the
-- load balancers that it reads after the calls so far, and the network.
pub record World : Type 0 where
  pub cloud : Cloud Request
  pub load_balancer : List Request → Str → Result OciLoadBalancer
  pub load_balancer_by_name : List Request → Str → Str → Result OciLoadBalancer
  pub public_ip : List Request → Str → Result PublicIp
  pub network : Network
  pub compartment_id : Str

-- A panic ends the run, as an error with its text does.
abbrev pub panics : Str → Error
panics s = message (text "panic: " ++ s)

-- Something that is done with no answer.
abbrev pub noted : Request → Run Request (Unit {0})
noted request = record { run = λ log. (log ++ (request ∷ []), ok tt) }

RoutingPolicy-discrete : Discrete RoutingPolicy
RoutingPolicy-discrete = hlevel ℕ_discrete

-- reflect.DeepEqual on two routing policies
unfoldable pub policy_eq : RoutingPolicy → RoutingPolicy → Bool
unfolding RoutingPolicy-discrete
policy_eq p q = elim (RoutingPolicy-discrete p q) [ yes e ↦ true | no ne ↦ false ]

pub policy_eq_iff : (p q : RoutingPolicy) → (policy_eq p q ≡ true) ↔ (p ≡ q)
unfolding policy_eq
policy_eq_iff p q = ground arith

RuleSet-discrete : Discrete RuleSet
RuleSet-discrete = hlevel ℕ_discrete

-- StructsAreEqualForKeys on the items of two rule sets
unfoldable pub items_eq : RuleSet → RuleSet → Bool
unfolding RuleSet-discrete
items_eq r s = elim (RuleSet-discrete r s) [ yes e ↦ true | no ne ↦ false ]

items_eq_iff : (r s : RuleSet) → (items_eq r s ≡ true) ↔ (r ≡ s)
unfolding items_eq
items_eq_iff r s = ground arith
