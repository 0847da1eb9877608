-- ===== src/SecurityLists/Nodes/Admit.antt =====
-- What getNodeIngressRules admits, from the subnets of the load balancer.
use oci_lb_ingress_controlle.SecurityLists.Nodes.Others.{add_node_rules_lem}
use oci_lb_ingress_controlle.Base.Sets.{has, sorted, has-delete, has-of_list, has-sorted}
use oci_lb_ingress_controlle.LoadBalancer.Types.{PortSpec}
use oci_lb_ingress_controlle.SecurityLists.Types.{SecurityRule, PortRange, plain_range, range_is}
use oci_lb_ingress_controlle.SecurityLists.Services.{Service, int32, health_check_port_in_use}
use oci_lb_ingress_controlle.SecurityLists.Additions.{admits, any-make_rules}
use oci_lb_ingress_controlle.SecurityLists.Sweep.{sweep_meets}
use oci_lb_ingress_controlle.SecurityLists.Nodes.{
  port_range_matches_spec, is_service_range, max_is, Wanted, node_choice, node_step,
  rules_unless_zero, add_node_rules, get_node_ingress_rules,
}
use oci_lb_ingress_controlle.Base.{
  Bool-cases, int_eq, int_eq_iff, ℤ, pos, any, any-append, Str, str_eq, str_eq_iff, Result, ◌≡◌, ap,
  ◌∙◌, ◌⊎◌, inl, inr, Bool, true, false, ◌&&◌, ◌||◌, Option, none, some, List, [], ◌∷◌, ◌++◌, arith,
}

-- A source that is wanted for the backend stays so, or the kept rule is to the backend port.
choice_meets_backend :
    (old ours is_b is_h : Bool) (u : Result Bool) (cidr source : Str) (w : Wanted)
    → has cidr w.backend ≡ true
    → (has cidr (node_choice old ours is_b is_h u source w).1.backend ≡ true)
      ⊎ (((node_choice old ours is_b is_h u source w).0 ≡ true)
          × ((ours && (is_b && str_eq source cidr)) ≡ true))
choice_meets_backend true ours is_b is_h u cidr source w h = inl h
choice_meets_backend false false is_b is_h u cidr source w h = inl h
choice_meets_backend false true is_b is_h u cidr source w h =
    ground (arith, has-delete source cidr w.backend, str_eq_iff cidr source, str_eq_iff source cidr)

choice_meets_health :
    (old ours is_b is_h : Bool) (u : Result Bool) (cidr source : Str) (w : Wanted)
    → has cidr w.health_checker ≡ true
    → (has cidr (node_choice old ours is_b is_h u source w).1.health_checker ≡ true)
      ⊎ (((node_choice old ours is_b is_h u source w).0 ≡ true)
          × ((ours && (is_h && str_eq source cidr)) ≡ true))
choice_meets_health true ours is_b is_h u cidr source w h = inl h
choice_meets_health false false is_b is_h u cidr source w h = inl h
choice_meets_health false true is_b is_h u cidr source w h =
    ground (
      arith,
      has-delete source cidr w.health_checker,
      str_eq_iff cidr source,
      str_eq_iff source cidr,
    )

-- The rule, of the service and with the port at its end, admits the source on that port: it is
-- kept with a single port, as both specifications match single ports only.
abbrev ends_at : Option PortSpec → PortSpec → ℤ → Str → SecurityRule → Bool
ends_at actual desired port cidr r =
    is_service_range actual desired (plain_range r.tcp_options)
    && (max_is port (plain_range r.tcp_options) && str_eq r.address cidr)

same_ends :
    (min max p q : ℤ)
    → ((int_eq min p && int_eq max p) || (int_eq min q && int_eq max q)) ≡ true
    → min ≡ max
same_ends min max p q h =
    ground (arith, int_eq_iff min p, int_eq_iff max p, int_eq_iff min q, int_eq_iff max q)

service_range_single :
    (actual : Option PortSpec) (desired : PortSpec) (r : PortRange)
    → is_service_range actual desired (some r) ≡ true
    → r.min ≡ r.max
unfolding is_service_range port_range_matches_spec
service_range_single none desired r h =
    same_ends r.min r.max desired.backend_port desired.health_checker_port (ground (arith, h))
service_range_single (some a) desired r h =
    elim (Bool-cases (port_range_matches_spec r (some desired))) [
      | inl e ↦ same_ends r.min r.max desired.backend_port desired.health_checker_port e
      | inr e ↦ same_ends r.min r.max a.backend_port a.health_checker_port (or_right _ _ e h)
    ]
  where
    or_right : (p q : Bool) → p ≡ false → (p || q) ≡ true → q ≡ true
    or_right p q e h = ground arith

single_port :
    (actual : Option PortSpec) (desired : PortSpec) (port : ℤ) (range : Option PortRange)
    → is_service_range actual desired range ≡ true
    → max_is port range ≡ true
    → range_is port range ≡ true
unfolding is_service_range
single_port actual desired port none h k = cc
single_port actual desired port (some r) h k =
    ground
      (arith, service_range_single actual desired r h, int_eq_iff r.max port, int_eq_iff r.min port)

ends_at-admits :
    (actual : Option PortSpec) (desired : PortSpec) (port : ℤ) (cidr : Str) (r : SecurityRule)
    → ends_at actual desired port cidr r ≡ true
    → admits port cidr r ≡ true
ends_at-admits actual desired port cidr r h =
    three _ _ _ _ (single_port actual desired port (plain_range r.tcp_options)) h
  where
    three :
        (p q s t : Bool)
        → (p ≡ true → q ≡ true → t ≡ true)
        → (p && (q && s)) ≡ true
        → (t && s) ≡ true
    three p q s t f h = ground arith

any-ends_at :
    (actual : Option PortSpec) (desired : PortSpec) (port : ℤ) (cidr : Str) (rs : List SecurityRule)
    → any (ends_at actual desired port cidr) rs ≡ true
    → any (admits port cidr) rs ≡ true
unfolding any
any-ends_at actual desired port cidr [] h = cc
any-ends_at actual desired port cidr (r ∷ rs) h =
    either _ _ _ _ (ends_at-admits actual desired port cidr r)
      (any-ends_at actual desired port cidr rs) h
  where
    either :
        (p q s t : Bool)
        → (p ≡ true → s ≡ true)
        → (q ≡ true → t ≡ true)
        → (p || q) ≡ true
        → (s || t) ≡ true
    either p q s t f g h = ground arith

any-rules_unless_zero :
    (port : ℤ) (cidr : Str) (cidrs : List Str)
    → int_eq port (pos 0) ≡ false
    → has cidr cidrs ≡ true
    → any (admits port cidr) (rules_unless_zero port cidrs) ≡ true
unfolding rules_unless_zero
any-rules_unless_zero port cidr cidrs nz h =
    rw nz (any-make_rules port cidr (sorted cidrs) (has-sorted cidr cidrs ∙ h))

any-add_node_rules :
    (q : SecurityRule → Bool) (desired : PortSpec) (kept : List SecurityRule) (w : Wanted)
    → any q (add_node_rules desired kept w) ≡ (
        any q kept
        || (any q (rules_unless_zero desired.backend_port w.backend)
            || any q (rules_unless_zero desired.health_checker_port w.health_checker)))
any-add_node_rules q desired kept w =
    let b = rules_unless_zero desired.backend_port w.backend in
    let h = rules_unless_zero desired.health_checker_port w.health_checker in
    ap (any q) (add_node_rules_lem desired kept w.backend w.health_checker)
    ∙ (any-append q kept (b ++ h) ∙ ap (◌||◌ (any q kept)) (any-append q b h))

met_backend : (p q r : Bool) → (q ≡ true) ⊎ (p ≡ true) → (p || (q || r)) ≡ true
met_backend p q r h = ground arith

met_health : (p q r : Bool) → (r ≡ true) ⊎ (p ≡ true) → (p || (q || r)) ≡ true
met_health p q r h = ground arith

⊎_map : {P P' Q Q' : Type 0} → (P → P') → (Q → Q') → P ⊎ Q → P' ⊎ Q'
⊎_map f g (inl p) = inl (f p)
⊎_map f g (inr q) = inr (g q)

-- Every load balancer subnet is admitted to the backend port and to the health check port, where
-- these are not 0.
pub node_rules_admit :
    (services : Result (List Service)) (rules : List SecurityRule) (lb_cidrs : List Str)
    (actual : Option PortSpec) (desired : PortSpec) (cidr : Str)
    → has cidr lb_cidrs ≡ true
    → (int_eq desired.backend_port (pos 0) ≡ false
        → any
            (admits desired.backend_port cidr)
            (get_node_ingress_rules services rules lb_cidrs actual desired)
          ≡ true)
      × (int_eq desired.health_checker_port (pos 0) ≡ false
          → any
              (admits desired.health_checker_port cidr)
              (get_node_ingress_rules services rules lb_cidrs actual desired)
            ≡ true)
unfolding get_node_ingress_rules node_step
node_rules_admit services rules lb_cidrs actual desired cidr h =
    let step = node_step services actual desired in
    let start = has-of_list cidr lb_cidrs ∙ h in
    (
      λ nz.
          any-add_node_rules (admits desired.backend_port cidr) desired _ _
          ∙ met_backend _ _ _ (
              ⊎_map (any-rules_unless_zero desired.backend_port cidr _ nz)
                (any-ends_at actual desired desired.backend_port cidr _)
                (sweep_meets step (λ w. has cidr w.backend)
                  (ends_at actual desired desired.backend_port cidr)
                  (λ r w.
                    choice_meets_backend _ _ _ _
                      (health_check_port_in_use services (int32 desired.health_checker_port)) cidr
                      r.address w)
                  rules _ start)),
      λ nz.
          any-add_node_rules (admits desired.health_checker_port cidr) desired _ _
          ∙ met_health _ _ _ (
              ⊎_map (any-rules_unless_zero desired.health_checker_port cidr _ nz)
                (any-ends_at actual desired desired.health_checker_port cidr _)
                (sweep_meets step (λ w. has cidr w.health_checker)
                  (ends_at actual desired desired.health_checker_port cidr)
                  (λ r w.
                    choice_meets_health _ _ _ _
                      (health_check_port_in_use services (int32 desired.health_checker_port)) cidr
                      r.address w)
                  rules _ start)),
    )
