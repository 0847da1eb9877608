-- ===== src/SecurityLists/Frontend/Ingress.antt =====
-- What getLoadBalancerIngressRules gives: other rules as they were, a rule for each source, and no
-- rule for another source.
use oci_lb_ingress_controlle.Base.Sets.{has, of_list, has-delete, has-of_list}
use oci_lb_ingress_controlle.SecurityLists.Types.{SecurityRule, make_security_rule, on_port}
use oci_lb_ingress_controlle.SecurityLists.Services.{Service, int32, port_in_use}
use oci_lb_ingress_controlle.SecurityLists.Sweep.{filter-sweep, sweep_inv, sweep_meets}
use oci_lb_ingress_controlle.SecurityLists.Additions.{
  off_port, admits, on_port-make, filter-add_rules, any-add_rules, All-add_rules,
}
use oci_lb_ingress_controlle.SecurityLists.Frontend.{ingress_step, get_load_balancer_ingress_rules}
use oci_lb_ingress_controlle.Base.{
  ℤ, filter, any, All, Str, str_eq_iff, Result, ok, ◌≡◌, refl, sym, ◌∙◌, ◌⊎◌, true, false, List,
  arith,
}

module _ (services : Result (List Service)) (port : ℤ) where
  step_keeps_off_port :
      (r : SecurityRule) (s : List Str)
      → off_port port r ≡ true
      → (ingress_step services port r s).0 ≡ true
  unfolding ingress_step
  step_keeps_off_port r s h = rw h refl

  step_meets :
      (cidr : Str) (r : SecurityRule) (s : List Str)
      → has cidr s ≡ true
      → (has cidr (ingress_step services port r s).1 ≡ true)
        ⊎ (((ingress_step services port r s).0 ≡ true) × (admits port cidr r ≡ true))
  unfolding ingress_step
  step_meets cidr r s h =
      ground
        (arith, has-delete r.address cidr s, str_eq_iff cidr r.address, str_eq_iff r.address cidr)

  -- Only addresses of `cidrs` are wanted, and an unused port keeps only such rules.
  step_only :
      (cidrs : List Str)
      → port_in_use services (int32 port) ≡ ok false
      → (r : SecurityRule) (s : List Str) → ((x : Str) → has x s ≡ true → has x cidrs ≡ true)
      → ((x : Str) → has x (ingress_step services port r s).1 ≡ true → has x cidrs ≡ true)
        × ((ingress_step services port r s).0 ≡ true
            → on_port port r ≡ true
            → has r.address cidrs ≡ true)
  unfolding ingress_step
  step_only cidrs unused r s h = (
    λ x m. h x (ground (arith, m, has-delete r.address x s)),
    λ k on. h r.address (ground (arith, k, on, unused)),
  )

-- The rules that do not filter by this port alone are as before, in their order.
pub ingress_rules_keep_others :
    (services : Result (List Service)) (rules : List SecurityRule) (cidrs : List Str) (port : ℤ)
    → filter (off_port port) (get_load_balancer_ingress_rules services rules cidrs port)
      ≡ filter (off_port port) rules
unfolding get_load_balancer_ingress_rules
ingress_rules_keep_others services rules cidrs port =
    filter-add_rules (off_port port) port _ _ (λ c. rw (on_port-make port c) refl)
    ∙ filter-sweep (ingress_step services port) (off_port port) (step_keeps_off_port services port)
        rules (of_list cidrs)

-- Every source address has a rule on the port.
pub ingress_rules_admit :
    (services : Result (List Service)) (rules : List SecurityRule) (cidrs : List Str) (port : ℤ)
    (cidr : Str)
    → has cidr cidrs ≡ true
    → any (admits port cidr) (get_load_balancer_ingress_rules services rules cidrs port) ≡ true
unfolding get_load_balancer_ingress_rules
ingress_rules_admit services rules cidrs port cidr h = any-add_rules port cidr _ _ (
    sweep_meets (ingress_step services port) (λ s. has cidr s) (admits port cidr)
      (step_meets services port cidr) rules (of_list cidrs) (has-of_list cidr cidrs ∙ h))

-- Where the port is known to be unused by other services, no rule on it admits another source.
ingress_rules_only :
    (services : Result (List Service)) (rules : List SecurityRule) (cidrs : List Str) (port : ℤ)
    → port_in_use services (int32 port) ≡ ok false
    → All
        (λ r. on_port port r ≡ true → has r.address cidrs ≡ true)
        (get_load_balancer_ingress_rules services rules cidrs port)
unfolding get_load_balancer_ingress_rules make_security_rule
ingress_rules_only services rules cidrs port unused =
    let both =
      sweep_inv (ingress_step services port) (λ s. (x : Str) → has x s ≡ true → has x cidrs ≡ true)
        (λ r. on_port port r ≡ true → has r.address cidrs ≡ true)
        (step_only services port cidrs unused) rules (of_list cidrs)
        (λ x m. sym (has-of_list x cidrs) ∙ m) in
    All-add_rules (λ r. on_port port r ≡ true → has r.address cidrs ≡ true) port _ _ both.1
      (λ c m on. both.0 c m)
