-- ===== src/SecurityLists/Nodes.antt =====
-- getNodeIngressRules: the ingress rules of a node subnet, from the load balancer's subnets to the
-- backend port and to the health check port.
pub mod Others
pub mod Admit
pub mod Tests
use oci_lb_ingress_controlle.Base.Sets.{has, delete, of_list, sorted}
use oci_lb_ingress_controlle.LoadBalancer.Types.{PortSpec}
use oci_lb_ingress_controlle.SecurityLists.Types.{
  SecurityRule, PortRange, plain_range, destination_range, range_is,
}
use oci_lb_ingress_controlle.SecurityLists.Services.{Service, int32, health_check_port_in_use}
use oci_lb_ingress_controlle.SecurityLists.Additions.{keep_on_use, make_rules}
use oci_lb_ingress_controlle.SecurityLists.Sweep.{sweep}
use oci_lb_ingress_controlle.Base.{
  if◌then◌else◌, int_eq, ℤ, pos, is_empty, Str, Result, Bool, true, false, not, ◌&&◌, ◌||◌, Option,
  none, some, List, [], ◌++◌,
}

-- portRangeMatchesSpec
unfoldable pub port_range_matches_spec : PortRange → Option PortSpec → Bool
port_range_matches_spec r none = false
port_range_matches_spec r (some ports) =
    (int_eq r.min ports.backend_port && int_eq r.max ports.backend_port)
    || (int_eq r.min ports.health_checker_port && int_eq r.max ports.health_checker_port)

-- 0 denotes nil ports.
abbrev pub current_backend_port : Option PortSpec → ℤ
current_backend_port none = pos 0
current_backend_port (some p) = p.backend_port

abbrev pub current_health_check_port : Option PortSpec → ℤ
current_health_check_port none = pos 0
current_health_check_port (some p) = p.health_checker_port

-- The old case: a single port, now or no longer the service's, that is not a desired one.
unfoldable pub is_old_port : Option PortSpec → PortSpec → Option PortRange → Bool
is_old_port actual desired none = false
is_old_port actual desired (some r) =
    (int_eq r.min r.max
      && (not (int_eq r.min desired.backend_port)
          && (not (int_eq r.max desired.backend_port)
              && (not (int_eq r.min desired.health_checker_port)
                  && not (int_eq r.max desired.health_checker_port)))))
    && (int_eq r.min (current_backend_port actual)
        || int_eq r.min (current_health_check_port actual))

-- The rule is about the ports of the service, desired or actual.
unfoldable pub is_service_range : Option PortSpec → PortSpec → Option PortRange → Bool
is_service_range actual desired none = false
is_service_range actual desired (some r) =
    port_range_matches_spec r (some desired) || port_range_matches_spec r actual

abbrev pub max_is : ℤ → Option PortRange → Bool
max_is port none = false
max_is port (some r) = int_eq r.max port

-- The addresses that still want a rule to the backend port, and one to the health check port.
pub record Wanted : Type 0 where
  pub backend : List Str
  pub health_checker : List Str

-- One turn of the loop, by its tests: whether the rule is kept, and what is still wanted.
abbrev pub node_choice : Bool → Bool → Bool → Bool → Result Bool → Str → Wanted → Bool × Wanted
node_choice old service_range is_backend is_health in_use source w =
    if old
    then (false, w)
    else if not service_range
    then (true, w)
    else if is_backend && has source w.backend
    then (true, record w { backend = delete source w.backend })
    else if is_health && has source w.health_checker
    then (true, record w { health_checker = delete source w.health_checker })
    else if is_health
    then (keep_on_use in_use, w)
    else (false, w)

unfoldable pub node_step :
    Result (List Service) → Option PortSpec → PortSpec → SecurityRule → Wanted → Bool × Wanted
node_step services actual desired rule =
    node_choice (is_old_port actual desired (destination_range rule.tcp_options))
      (is_service_range actual desired (plain_range rule.tcp_options))
      (max_is desired.backend_port (plain_range rule.tcp_options))
      (max_is desired.health_checker_port (plain_range rule.tcp_options))
      (health_check_port_in_use services (int32 desired.health_checker_port)) rule.address

-- A port 0 gets no rule: there are no backends, or no health checker.
unfoldable pub rules_unless_zero : ℤ → List Str → List SecurityRule
rules_unless_zero port cidrs = if int_eq port (pos 0) then [] else make_rules port (sorted cidrs)

unfoldable pub add_node_rules : PortSpec → List SecurityRule → Wanted → List SecurityRule
add_node_rules desired kept w =
    if is_empty w.backend && is_empty w.health_checker
    then kept
    else kept
      ++ (rules_unless_zero desired.backend_port w.backend
          ++ rules_unless_zero desired.health_checker_port w.health_checker)

-- `lb_cidrs` are the CIDR blocks of the load balancer's subnets.
unfoldable pub get_node_ingress_rules :
    Result (List Service)
    → List SecurityRule
    → List Str
    → Option PortSpec
    → PortSpec
    → List SecurityRule
get_node_ingress_rules services rules lb_cidrs actual desired =
    let wanted : Wanted = record {
      backend = of_list lb_cidrs;
      health_checker = of_list lb_cidrs;
    } in
    let (kept, left) = sweep (node_step services actual desired) rules wanted in
    add_node_rules desired kept left
