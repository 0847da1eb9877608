-- ===== src/SecurityLists/Frontend.antt =====
-- getLoadBalancerIngressRules and getLoadBalancerEgressRules: the rules of a load balancer's subnet.
pub mod Ingress
pub mod Egress
pub mod Tests
use oci_lb_ingress_controlle.Base.Sets.{has, delete, of_list, sorted}
use oci_lb_ingress_controlle.SecurityLists.Types.{
  SecurityRule, PortRange, make_security_rule, destination_range, on_port,
}
use oci_lb_ingress_controlle.SecurityLists.Services.{
  Service, int32, port_in_use, health_check_port_in_use,
}
use oci_lb_ingress_controlle.SecurityLists.Additions.{keep_on_use, add_rules}
use oci_lb_ingress_controlle.SecurityLists.Sweep.{sweep}
use oci_lb_ingress_controlle.Base.{
  if◌then◌else◌, int_eq, ℤ, Str, Result, Bool, true, false, not, ◌&&◌, Option, none, some, List,
}

-- One turn of the loop over the ingress rules: whether the rule is kept, and the addresses that
-- still want one.
unfoldable pub ingress_step : Result (List Service) → ℤ → SecurityRule → List Str → Bool × List Str
ingress_step services port rule desired =
    if not (on_port port rule)
    then (true, desired)
    else if has rule.address desired
    then (true, delete rule.address desired)
    else (keep_on_use (port_in_use services (int32 port)), desired)

unfoldable pub get_load_balancer_ingress_rules :
    Result (List Service) → List SecurityRule → List Str → ℤ → List SecurityRule
get_load_balancer_ingress_rules services rules source_cidrs port =
    let (kept, left) = sweep (ingress_step services port) rules (of_list source_cidrs) in
    add_rules port kept left

-- The rule stands for the old port alone: it is dropped when the port changes.
abbrev pub stale_range : ℤ → ℤ → Option PortRange → Bool
stale_range actual_port desired_port none = false
stale_range actual_port desired_port (some r) =
    int_eq r.min r.max
    && (not (int_eq r.min desired_port)
        && (not (int_eq r.max desired_port)
            && (int_eq r.min actual_port && int_eq r.max actual_port)))

abbrev pub is_stale : ℤ → ℤ → SecurityRule → Bool
is_stale actual_port desired_port rule =
    stale_range actual_port desired_port (destination_range rule.tcp_options)

unfoldable pub egress_step :
    Result (List Service) → ℤ → ℤ → SecurityRule → List Str → Bool × List Str
egress_step services actual_port desired_port rule node_cidrs =
    if is_stale actual_port desired_port rule
    then (false, node_cidrs)
    else if not (on_port desired_port rule)
    then (true, node_cidrs)
    else if has rule.address node_cidrs
    then (true, delete rule.address node_cidrs)
    else (keep_on_use (health_check_port_in_use services (int32 desired_port)), node_cidrs)

-- `node_cidrs` are the CIDR blocks of the node subnets.
unfoldable pub get_load_balancer_egress_rules :
    Result (List Service) → List SecurityRule → List Str → ℤ → ℤ → List SecurityRule
get_load_balancer_egress_rules services rules node_cidrs actual_port desired_port =
    let (kept, left) =
      sweep (egress_step services actual_port desired_port) rules (of_list node_cidrs) in
    add_rules desired_port kept left
