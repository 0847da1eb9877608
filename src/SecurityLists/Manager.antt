-- ===== src/SecurityLists/Manager.antt =====
-- The security list managers of load_balancer_security_lists.go: which list of a subnet is managed,
-- the reads and writes of updateBackendRules and updateLoadBalancerRules, and the three modes.
pub mod Oldest
pub mod Writes
pub mod Tests
use oci_lb_ingress_controlle.Base.Sets.{has, of_list}
use oci_lb_ingress_controlle.Base.Maps.{Map, lookup}
use oci_lb_ingress_controlle.Base.Effects.{
  Cloud, Run, returns, lift, wrapping, perform, reads, ◌>>=◌, ◌>>◌,
}
use oci_lb_ingress_controlle.LoadBalancer.Types.{PortSpec}
use oci_lb_ingress_controlle.Provider.Subnets.{Subnet}
use oci_lb_ingress_controlle.SecurityLists.Types.{SecurityRule, SecurityList}
use oci_lb_ingress_controlle.SecurityLists.Services.{Service}
use oci_lb_ingress_controlle.SecurityLists.Changed.{security_list_rules_changed}
use oci_lb_ingress_controlle.SecurityLists.Frontend.{
  get_load_balancer_ingress_rules, get_load_balancer_egress_rules,
}
use oci_lb_ingress_controlle.SecurityLists.Nodes.{
  get_node_ingress_rules, current_backend_port, current_health_check_port,
}
use oci_lb_ingress_controlle.Base.{
  ltb, if◌then◌else◌, int_eq, ℤ, pos, is_empty, Str, text, message, Result, ok, err, ℕ, Bool, not,
  ◌&&◌, Option, none, some, List, [], ◌∷◌, map,
}

-- GetSecurityListResponse
pub record Response : Type 0 where
  pub security_list : SecurityList
  pub etag : Str
  pub time_created : ℕ

pub data Request : Type 0 where
  get_security_list_request : Str → Request
  update_security_list_request : Str → Str → List SecurityRule → List SecurityRule → Request

-- ManagementModeAll, ManagementModeFrontend and ManagementModeNone
pub data ManagementMode : Type 0 where
  all_lists frontend unmanaged : ManagementMode

-- The networking client, and the service lister's answer.
pub record Networking : Type 0 where
  pub security_list : List Request → Str → Result Response
  pub cloud : Cloud Request
  pub services : Result (List Service)

-- sort.Slice by the time of creation, by insertion; the order among equal times is left open.
unfoldable pub insert_by_time : Response → List Response → List Response
insert_by_time r [] = r ∷ []
insert_by_time r (s ∷ ss) =
    let rest = insert_by_time r ss in
    if ltb s.time_created r.time_created then s ∷ rest else r ∷ s ∷ ss

unfoldable pub sort_by_time : List Response → List Response
sort_by_time [] = []
sort_by_time (r ∷ rs) = insert_by_time r (sort_by_time rs)

-- `responses[0]`, of a list that is not empty
abbrev pub first_response : List Response → Result Response
first_response [] = err (message (text "panic: index out of range"))
first_response (r ∷ rs) = ok r

module _ (net : Networking) where
  abbrev pub read_list : Str → Run Request Response
  read_list id = reads (λ log. net.security_list log id) (get_security_list_request id)

  unfoldable pub read_lists : List Str → Run Request (List Response)
  read_lists [] = returns []
  read_lists (id ∷ ids) = do
    response ← read_list id
    responses ← read_lists ids
    returns (response ∷ responses)

  unfoldable pub read_oldest : List Str → Run Request Response
  read_oldest ids = do responses ← read_lists ids; lift (first_response (sort_by_time responses))

  abbrev pub read_configured : List Str → Option Str → Run Request Response
  read_configured ids none = read_oldest ids
  read_configured ids (some id) = if has id (of_list ids) then read_list id else read_oldest ids

  -- `configured` are the lists that the provider's configuration gives for subnets.
  unfoldable pub get_security_list : Map Str → Subnet → Run Request Response
  get_security_list configured subnet =
      if is_empty subnet.security_list_ids
      then lift (err (message (text "no security lists")))
      else read_configured subnet.security_list_ids (lookup subnet.id configured)

  -- The write of a list, where its rules have changed.
  abbrev pub write_changed :
      Response → List SecurityRule → List SecurityRule → Run Request (Unit {0})
  write_changed r ingress egress =
      if not (security_list_rules_changed r.security_list ingress egress) then returns tt else do
        written ← wrapping (
            perform net.cloud
              (update_security_list_request r.security_list.id r.etag ingress egress))
        returns tt

  abbrev pub node_ingress : List Subnet → Option PortSpec → PortSpec → Response → List SecurityRule
  node_ingress lb_subnets actual desired r =
      get_node_ingress_rules net.services r.security_list.ingress_security_rules
        (map (λ s. s.cidr_block) lb_subnets) actual desired

  unfoldable pub update_backend_rules :
      Map Str → List Subnet → List Subnet → Option PortSpec → PortSpec → Run Request (Unit {0})
  update_backend_rules configured lb_subnets [] actual desired = returns tt
  update_backend_rules configured lb_subnets (subnet ∷ subnets) actual desired = do
    r ← wrapping (get_security_list configured subnet)
    write_changed r (node_ingress lb_subnets actual desired r) r.security_list.egress_security_rules
    update_backend_rules configured lb_subnets subnets actual desired

  -- The egress rules, for the backend port and then for the health check's.
  abbrev pub lb_egress : List Subnet → Option PortSpec → PortSpec → Response → List SecurityRule
  lb_egress node_subnets actual desired r =
      let cidrs = map (λ s. s.cidr_block) node_subnets in
      get_load_balancer_egress_rules net.services
        (get_load_balancer_egress_rules net.services r.security_list.egress_security_rules cidrs
          (current_backend_port actual) desired.backend_port)
        cidrs (current_health_check_port actual) desired.health_checker_port

  abbrev pub lb_ingress : List Str → PortSpec → Response → List SecurityRule
  lb_ingress source_cidrs desired r =
      if int_eq desired.listener_port (pos 0)
      then r.security_list.ingress_security_rules
      else get_load_balancer_ingress_rules net.services r.security_list.ingress_security_rules
          source_cidrs desired.listener_port

  unfoldable pub update_load_balancer_rules :
      Map Str
      → List Subnet
      → List Subnet
      → List Str
      → Option PortSpec
      → PortSpec
      → Run Request (Unit {0})
  update_load_balancer_rules configured [] node_subnets source_cidrs actual desired = returns tt
  update_load_balancer_rules configured (subnet ∷ subnets) node_subnets source_cidrs actual
        desired =
      do
        r ← wrapping (get_security_list configured subnet)
        write_changed r (lb_ingress source_cidrs desired r)
            (lb_egress node_subnets actual desired r)
        update_load_balancer_rules configured subnets node_subnets source_cidrs actual desired

  unfoldable pub update_default :
      Map Str
      → List Subnet
      → List Subnet
      → List Str
      → Option PortSpec
      → PortSpec
      → Run Request (Unit {0})
  update_default configured lb_subnets backend_subnets source_cidrs actual desired = do
    update_load_balancer_rules configured lb_subnets backend_subnets source_cidrs actual desired
    update_backend_rules configured lb_subnets backend_subnets actual desired

  unfoldable pub delete_default :
      Map Str → List Subnet → List Subnet → PortSpec → Run Request (Unit {0})
  delete_default configured lb_subnets backend_subnets ports = do
    update_load_balancer_rules configured lb_subnets [] [] (some ports) ports
    update_backend_rules configured [] backend_subnets (some ports) ports

  -- Update and Delete of the manager that newSecurityListManager makes for a mode; a mode that it
  -- does not know is all.
  unfoldable pub update_by_mode :
      ManagementMode
      → Map Str
      → List Subnet
      → List Subnet
      → List Str
      → Option PortSpec
      → PortSpec
      → Run Request (Unit {0})
  update_by_mode all_lists configured lb_subnets backend_subnets source_cidrs actual desired =
      update_default configured lb_subnets backend_subnets source_cidrs actual desired
  update_by_mode frontend configured lb_subnets backend_subnets source_cidrs actual desired =
      update_load_balancer_rules configured lb_subnets [] source_cidrs actual desired
  update_by_mode unmanaged configured lb_subnets backend_subnets source_cidrs actual desired =
      returns tt

  unfoldable pub delete_by_mode :
      ManagementMode → Map Str → List Subnet → List Subnet → PortSpec → Run Request (Unit {0})
  delete_by_mode all_lists configured lb_subnets backend_subnets ports =
      delete_default configured lb_subnets backend_subnets ports
  delete_by_mode frontend configured lb_subnets backend_subnets ports =
      update_load_balancer_rules configured lb_subnets [] [] (some ports) ports
  delete_by_mode unmanaged configured lb_subnets backend_subnets ports = returns tt
