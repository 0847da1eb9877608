-- ===== src/SecurityLists/Frontend/Egress.antt =====
-- What getLoadBalancerEgressRules gives: other rules as they were, a rule to each node subnet, and
-- no rule for the old port alone.
use oci_lb_ingress_controlle.Base.Sets.{has, delete, of_list, has-delete, has-of_list}
use oci_lb_ingress_controlle.SecurityLists.Types.{SecurityRule, make_security_rule, on_port}
use oci_lb_ingress_controlle.SecurityLists.Services.{Service, int32, health_check_port_in_use}
use oci_lb_ingress_controlle.SecurityLists.Sweep.{filter-sweep, sweep_inv, sweep_meets}
use oci_lb_ingress_controlle.SecurityLists.Additions.{
  keep_on_use, off_port, admits, int_eq_refl, filter-add_rules, any-add_rules, All-add_rules,
}
use oci_lb_ingress_controlle.SecurityLists.Frontend.{
  is_stale, egress_step, get_load_balancer_egress_rules,
}
use oci_lb_ingress_controlle.Base.{
  if◌then◌else◌, ℤ, filter, any, All, Str, str_eq, str_eq_iff, Result, ◌≡◌, refl, ◌∙◌, ◌⊎◌, inl,
  Bool, true, false, not, ◌&&◌, List, arith,
}

-- The rule concerns neither the desired port nor the old one.
abbrev pub unrelated : ℤ → ℤ → SecurityRule → Bool
unrelated actual_port desired_port r =
    not (is_stale actual_port desired_port r) && off_port desired_port r

made_related :
    (actual_port desired_port : ℤ) (c : Str)
    → unrelated actual_port desired_port (make_security_rule c desired_port) ≡ false
unfolding make_security_rule
made_related actual_port desired_port c = rw (int_eq_refl desired_port) refl

made_not_stale :
    (actual_port desired_port : ℤ) (c : Str)
    → is_stale actual_port desired_port (make_security_rule c desired_port) ≡ false
unfolding make_security_rule
made_not_stale actual_port desired_port c = rw (int_eq_refl desired_port) refl

-- The tests of one turn of the loop, as variables.
chosen_keeps :
    (stale off : Bool) (s : List Str) (rest : Bool × List Str)
    → (not stale && off) ≡ true
    → (if stale then (false, s) else if off then (true, s) else rest).0 ≡ true
chosen_keeps true off s rest h = cc
chosen_keeps false true s rest h = refl
chosen_keeps false false s rest h = cc

chosen_not_stale :
    (stale : Bool) (s : List Str) (rest : Bool × List Str)
    → (if stale then (false, s) else rest).0 ≡ true
    → stale ≡ false
chosen_not_stale true s rest h = cc
chosen_not_stale false s rest h = refl

abbrev chosen : Bool → Bool → Bool → Bool → Str → List Str → Bool × List Str
chosen stale on present keep address s =
    if stale
    then (false, s)
    else if not on
    then (true, s)
    else if present
    then (true, delete address s)
    else (keep, s)

chosen_meets :
    (stale on present keep : Bool) (cidr address : Str) (s : List Str)
    → has cidr s ≡ true
    → (has cidr (chosen stale on present keep address s).1 ≡ true)
      ⊎ (((chosen stale on present keep address s).0 ≡ true) × ((on && str_eq address cidr) ≡ true))
chosen_meets true on present keep cidr address s h = inl h
chosen_meets false false present keep cidr address s h = inl h
chosen_meets false true true keep cidr address s h =
    ground (arith, has-delete address cidr s, str_eq_iff cidr address, str_eq_iff address cidr)
chosen_meets false true false keep cidr address s h = inl h

module _ (services : Result (List Service)) (actual_port desired_port : ℤ) where
  step_keeps_unrelated :
      (r : SecurityRule) (s : List Str)
      → unrelated actual_port desired_port r ≡ true
      → (egress_step services actual_port desired_port r s).0 ≡ true
  unfolding egress_step
  step_keeps_unrelated r s h =
      chosen_keeps (is_stale actual_port desired_port r) (off_port desired_port r) s _ h

  step_meets :
      (cidr : Str) (r : SecurityRule) (s : List Str)
      → has cidr s ≡ true
      → (has cidr (egress_step services actual_port desired_port r s).1 ≡ true)
        ⊎ (((egress_step services actual_port desired_port r s).0 ≡ true)
            × (admits desired_port cidr r ≡ true))
  unfolding egress_step
  step_meets cidr r s h =
      chosen_meets (is_stale actual_port desired_port r) (on_port desired_port r) (has r.address s)
        (keep_on_use (health_check_port_in_use services (int32 desired_port))) cidr r.address s h

  step_not_stale :
      (r : SecurityRule) (s : List Str)
      → Unit {0}
      → Unit {0}
        × ((egress_step services actual_port desired_port r s).0 ≡ true
            → is_stale actual_port desired_port r ≡ false)
  unfolding egress_step
  step_not_stale r s u = (tt, λ k. chosen_not_stale (is_stale actual_port desired_port r) s _ k)

-- The rules that concern neither the desired port nor the old port alone are as before, in order.
egress_rules_keep_others :
    (services : Result (List Service)) (rules : List SecurityRule) (cidrs : List Str)
    (actual_port desired_port : ℤ)
    → filter
        (unrelated actual_port desired_port)
        (get_load_balancer_egress_rules services rules cidrs actual_port desired_port)
      ≡ filter (unrelated actual_port desired_port) rules
unfolding get_load_balancer_egress_rules
egress_rules_keep_others services rules cidrs actual_port desired_port =
    filter-add_rules (unrelated actual_port desired_port) desired_port _ _
      (made_related actual_port desired_port)
    ∙ filter-sweep (egress_step services actual_port desired_port)
        (unrelated actual_port desired_port)
        (step_keeps_unrelated services actual_port desired_port) rules (of_list cidrs)

-- Every node subnet has a rule to it on the desired port, and no rule is left for the old port
-- alone where that differs from the desired one.
pub egress_rules_reach :
    (services : Result (List Service)) (rules : List SecurityRule) (cidrs : List Str)
    (actual_port desired_port : ℤ)
    → ((cidr : Str)
        → has cidr cidrs ≡ true
        → any
            (admits desired_port cidr)
            (get_load_balancer_egress_rules services rules cidrs actual_port desired_port)
          ≡ true)
      × All
          (λ r. is_stale actual_port desired_port r ≡ false)
          (get_load_balancer_egress_rules services rules cidrs actual_port desired_port)
unfolding get_load_balancer_egress_rules
egress_rules_reach services rules cidrs actual_port desired_port = (
  λ cidr h. any-add_rules desired_port cidr _ _ (
      sweep_meets (egress_step services actual_port desired_port) (λ s. has cidr s)
        (admits desired_port cidr) (step_meets services actual_port desired_port cidr) rules
        (of_list cidrs) (has-of_list cidr cidrs ∙ h)),
  All-add_rules (λ r. is_stale actual_port desired_port r ≡ false) desired_port _ _
      (sweep_inv (egress_step services actual_port desired_port) (λ s. Unit {0})
        (λ r. is_stale actual_port desired_port r ≡ false)
        (step_not_stale services actual_port desired_port) rules (of_list cidrs) tt).1
      (λ c m. made_not_stale actual_port desired_port c),
)
