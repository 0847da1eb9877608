-- ===== src/SecurityLists/Nodes/Others.antt =====
-- The rules that getNodeIngressRules leaves as they were.
use mathlib.Core.List.{append-nil}
use oci_lb_ingress_controlle.Base.Sets.{sorted}
use oci_lb_ingress_controlle.LoadBalancer.Types.{PortSpec}
use oci_lb_ingress_controlle.SecurityLists.Types.{
  SecurityRule, plain_range, destination_range, make_security_rule,
}
use oci_lb_ingress_controlle.SecurityLists.Services.{Service, int32, health_check_port_in_use}
use oci_lb_ingress_controlle.SecurityLists.Additions.{int_eq_refl, make_rules, filter-make_rules}
use oci_lb_ingress_controlle.SecurityLists.Sweep.{filter-sweep}
use oci_lb_ingress_controlle.SecurityLists.Nodes.{
  port_range_matches_spec, is_old_port, is_service_range, Wanted, node_choice, node_step,
  rules_unless_zero, add_node_rules, get_node_ingress_rules,
}
use oci_lb_ingress_controlle.Base.{
  Bool-cases, int_eq, int_eq_iff, ℤ, pos, filter, filter-append, Str, Result, ◌≡◌, refl, sym, ap,
  ◌∙◌, ◌⊎◌, inl, inr, Bool, true, false, not, ◌&&◌, Option, List, [], ◌∷◌, ◌++◌, arith,
}

-- The rule concerns no port of the service, old or new.
abbrev pub unrelated : Option PortSpec → PortSpec → SecurityRule → Bool
unrelated actual desired r =
    not (is_old_port actual desired (destination_range r.tcp_options))
    && not (is_service_range actual desired (plain_range r.tcp_options))

choice_keeps :
    (old ours is_b is_h : Bool) (u : Result Bool) (source : Str) (w : Wanted)
    → (not old && not ours) ≡ true
    → (node_choice old ours is_b is_h u source w).0 ≡ true
choice_keeps true ours is_b is_h u source w h = cc
choice_keeps false true is_b is_h u source w h = cc
choice_keeps false false is_b is_h u source w h = refl

rules_unless_zero-nil : (port : ℤ) → rules_unless_zero port [] ≡ []
unfolding rules_unless_zero sorted make_rules
rules_unless_zero-nil port = ground arith

-- The early return, where nothing is wanted, is what the loops would give.
pub add_node_rules_lem :
    (desired : PortSpec) (kept : List SecurityRule) (b h : List Str)
    → add_node_rules desired kept (record { backend = b; health_checker = h })
      ≡ kept
        ++ (rules_unless_zero desired.backend_port b
            ++ rules_unless_zero desired.health_checker_port h)
unfolding add_node_rules
add_node_rules_lem desired kept [] [] =
    rw (rules_unless_zero-nil desired.backend_port)
      (rw (rules_unless_zero-nil desired.health_checker_port) (sym (append-nil kept)))
add_node_rules_lem desired kept [] (x ∷ h) = refl
add_node_rules_lem desired kept (x ∷ b) h = refl

filter-rules_unless_zero :
    (p : SecurityRule → Bool) (port : ℤ) (cidrs : List Str)
    → ((c : Str) → p (make_security_rule c port) ≡ false)
    → filter p (rules_unless_zero port cidrs) ≡ []
unfolding rules_unless_zero filter
filter-rules_unless_zero p port cidrs h = elim (Bool-cases (int_eq port (pos 0))) [
  | inl e ↦ rw e refl
  | inr e ↦ rw e (filter-make_rules p port (sorted cidrs) h)
]

made_related :
    (actual : Option PortSpec) (desired : PortSpec) (port : ℤ) (c : Str)
    → (port ≡ desired.backend_port) ⊎ (port ≡ desired.health_checker_port)
    → unrelated actual desired (make_security_rule c port) ≡ false
unfolding make_security_rule is_service_range port_range_matches_spec
made_related actual desired port c h = ground (
  arith,
  h,
  int_eq_refl port,
  int_eq_iff port desired.backend_port,
  int_eq_iff port desired.health_checker_port,
)

filter-add_node_rules :
    (actual : Option PortSpec) (desired : PortSpec) (kept : List SecurityRule) (w : Wanted)
    → filter (unrelated actual desired) (add_node_rules desired kept w)
      ≡ filter (unrelated actual desired) kept
filter-add_node_rules actual desired kept w =
    let p = unrelated actual desired in
    let b = rules_unless_zero desired.backend_port w.backend in
    let h = rules_unless_zero desired.health_checker_port w.health_checker in
    ap (filter p) (add_node_rules_lem desired kept w.backend w.health_checker)
    ∙ cc (
      filter-append p kept (b ++ h),
      filter-append p b h,
      filter-rules_unless_zero p desired.backend_port w.backend
          (λ c. made_related actual desired desired.backend_port c (inl refl)),
      filter-rules_unless_zero p desired.health_checker_port w.health_checker
          (λ c. made_related actual desired desired.health_checker_port c (inr refl)),
      append-nil (filter p kept),
    )

-- The rules that concern no port of the service, old or new, are as before, in their order.
pub node_rules_keep_others :
    (services : Result (List Service)) (rules : List SecurityRule) (lb_cidrs : List Str)
    (actual : Option PortSpec) (desired : PortSpec)
    → filter
        (unrelated actual desired)
        (get_node_ingress_rules services rules lb_cidrs actual desired)
      ≡ filter (unrelated actual desired) rules
unfolding get_node_ingress_rules node_step
node_rules_keep_others services rules lb_cidrs actual desired =
    filter-add_node_rules actual desired _ _
    ∙ filter-sweep (node_step services actual desired) (unrelated actual desired)
        (λ r s h.
          choice_keeps _ _ _ _
            (health_check_port_in_use services (int32 desired.health_checker_port)) r.address s h)
        rules _
