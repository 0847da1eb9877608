-- ===== src/Ingress/Spec/Named.antt =====
-- The routing rules of a host's paths stand in the host's policy, and stay there.
use mathlib.Core.Path.{subst}
use oci_lb_ingress_controlle.Base.Maps.{Map, lookup, put, lookup-put}
use oci_lb_ingress_controlle.Ingress.Names.{byte_alpha_numeric_digest}
use oci_lb_ingress_controlle.Ingress.Routing.{
  IngressPath, create_routing_rule, host_conditions, path_conditions,
}
use oci_lb_ingress_controlle.Ingress.Spec.Draft.{
  IngressObject, Surroundings, Draft, policy_named, rules_before, add_rule, append_to_all,
  process_backend_spec,
}
use oci_lb_ingress_controlle.Ingress.Spec.Build.{process_paths}
use oci_lb_ingress_controlle.Ingress.Spec.Additions.{appended, lookup-append_to_all}
use oci_lb_ingress_controlle.Manager.Model.{RoutingRule, RoutingPolicy}
use oci_lb_ingress_controlle.Provider.Subnets.{Node}
use oci_lb_ingress_controlle.Base.{
  Bool-cases, any, Str, str_eq, str_eq_refl, str_eq_iff, any-append, Ensures_self, Result, ok, err,
  wrap, Ensures, Ensures-then, Ensures-after, Ensures-wrap, ◌≡◌, refl, sym, ◌∙◌, ◌⊎◌, inl, inr,
  Bool, true, ◌||◌, Option, none, some, List, [], ◌∷◌, ◌++◌, arith,
}

abbrev pub Among : {A : Type 0} → A → List A → Type 0
Among a [] = ⊥
Among a (b ∷ bs) = (a ≡ b) ⊎ Among a bs

abbrev pub named_rule : Str → List RoutingRule → Bool
named_rule name rules = any (λ r. str_eq r.name name) rules

-- The policy `n` of a draft has a rule of the name.
abbrev pub HasRule : Str → Str → Map RoutingPolicy → Type 0
HasRule n name policies = named_rule name (rules_before (lookup n policies)) ≡ true

abbrev pub Keeps : Map RoutingPolicy → Map RoutingPolicy → Type 0
Keeps m m' = (n name : Str) → HasRule n name m → HasRule n name m'

add_rule-named :
    (name : Str) (rules : List RoutingRule) (r : RoutingRule)
    → named_rule name (add_rule rules r) ≡ (str_eq r.name name || named_rule name rules)
unfolding add_rule any
add_rule-named name rules r = elim (Bool-cases (named_rule r.name rules)) [
  | inl e ↦ rw (e, add_rule) (already name rules r e)
  | inr e ↦ rw (e, add_rule) (any-append (λ q. str_eq q.name name) rules (r ∷ []) ∙ ground arith)
]
  where
    already :
        (name : Str) (rules : List RoutingRule) (r : RoutingRule)
        → named_rule r.name rules ≡ true
        → named_rule name rules ≡ (str_eq r.name name || named_rule name rules)
    already name rules r e = elim (Bool-cases (str_eq r.name name)) [
      | inl f ↦ rw f (subst (λ k. named_rule k rules ≡ true) ((str_eq_iff r.name name).0 f) e)
      | inr f ↦ rw f refl
    ]

pub put-Keeps :
    (pn : Str) (rules : List RoutingRule) (m : Map RoutingPolicy)
    → Keeps m (put pn (policy_named pn (rules_before (lookup pn m) ++ rules)) m)
put-Keeps pn rules m n name h = elim (Bool-cases (str_eq pn n)) [
  | inl e ↦
      rw
        (
          lookup-put pn n (policy_named pn (rules_before (lookup pn m) ++ rules)) m,
          e,
          any-append (λ r. str_eq r.name name) (rules_before (lookup pn m)) rules,
        )
        (at_same e)
  | inr e ↦ rw (lookup-put pn n (policy_named pn (rules_before (lookup pn m) ++ rules)) m, e) h
]
  where
    at_same :
        str_eq pn n ≡ true
        → (named_rule name (rules_before (lookup pn m)) || named_rule name rules) ≡ true
    at_same e =
        let same : HasRule pn name m =
          subst (λ k. HasRule k name m) (sym ((str_eq_iff pn n).0 e)) h in
        rw same refl

pub put-HasRule :
    (pn name : Str) (rules : List RoutingRule) (m : Map RoutingPolicy)
    → named_rule name rules ≡ true
    → HasRule pn name (put pn (policy_named pn (rules_before (lookup pn m) ++ rules)) m)
put-HasRule pn name rules m h =
    rw
      (
        lookup-put pn pn (policy_named pn (rules_before (lookup pn m) ++ rules)) m,
        str_eq_refl pn,
        any-append (λ r. str_eq r.name name) (rules_before (lookup pn m)) rules,
        h,
      )
      (ground arith)

pub append_to_all-Keeps :
    (rule : RoutingRule) (m : Map RoutingPolicy) → Keeps m (append_to_all rule m)
append_to_all-Keeps rule m n name h = rw (lookup-append_to_all n rule m) (after (lookup n m) h)
  where
    after :
        (o : Option RoutingPolicy)
        → named_rule name (rules_before o) ≡ true
        → named_rule name (rules_before (appended rule o)) ≡ true
    after none h = h
    after (some p) h = rw (any-append (λ r. str_eq r.name name) p.rules (rule ∷ []), h) refl

-- The name that a path's rule has
abbrev pub NameOf : Surroundings → IngressPath → Str → Type 0
NameOf around p name = byte_alpha_numeric_digest around.base64_md5 (around.encode p) 22 ≡ ok name

module _ (around : Surroundings) (ing : IngressObject) (nodes : List Node) where
  abbrev pub IsNamed : List IngressPath → List RoutingRule → List RoutingRule × Draft → Type 0
  IsNamed paths rules out =
      ((name : Str) → named_rule name rules ≡ true → named_rule name out.0 ≡ true)
      × ((p : IngressPath)
          → Among p paths
          → (name : Str) × NameOf around p name × (named_rule name out.0 ≡ true))

  rule_is_named :
      (p : IngressPath) (backend_set host : Str)
      → Ensures
          (λ r. NameOf around p r.name)
          (create_routing_rule around.url_parse around.base64_md5 around.encode p backend_set host)
  unfolding create_routing_rule
  rule_is_named p backend_set host =
      Ensures-then (λ name. NameOf around p name) (λ r. NameOf around p r.name)
        (byte_alpha_numeric_digest around.base64_md5 (around.encode p) 22) _
        (Ensures_self (byte_alpha_numeric_digest around.base64_md5 (around.encode p) 22))
        (λ name h.
          Ensures-after (λ r. NameOf around p r.name)
            (path_conditions around.url_parse (host_conditions host) p.path_type p.path) _ (λ c. h))

  next_path :
      (p : IngressPath) (paths : List IngressPath) (rules : List RoutingRule) (r : RoutingRule)
      → NameOf around p r.name
      → (out : Result (List RoutingRule × Draft)) → Ensures (IsNamed paths (add_rule rules r)) out
      → Ensures (IsNamed (p ∷ paths) rules) out
  next_path p paths rules r named (err e) h = tt
  next_path p paths rules r named (ok out) (kept, all_named) = (
    λ name h. kept name (add_rule-named name rules r ∙ rw h (ground arith)),
    λ q m. elim m [
      | inl e ↦ (
        r.name,
        subst (λ t. NameOf around t r.name) (sym e) named,
        kept r.name (add_rule-named r.name rules r ∙ rw (str_eq_refl r.name) refl),
      )
      | inr later ↦ all_named q later
    ],
  )

  pub process_paths-IsNamed :
      (host : Str) (paths : List IngressPath) (rules : List RoutingRule) (d : Draft)
      → Ensures (IsNamed paths rules) (process_paths around ing nodes host paths rules d)
  unfolding process_paths
  process_paths-IsNamed host [] rules d = (λ name h. h, λ p m. absurd m)
  process_paths-IsNamed host (p ∷ paths) rules d =
      Ensures-after (IsNamed (p ∷ paths) rules) (process_backend_spec around ing nodes p.backend d)
        _
        (λ out.
          Ensures-then (λ r. NameOf around p r.name) (IsNamed (p ∷ paths) rules)
            (wrap
              (create_routing_rule around.url_parse around.base64_md5 around.encode p out.0 host))
            _
            (Ensures-wrap (λ r. NameOf around p r.name)
              (create_routing_rule around.url_parse around.base64_md5 around.encode p out.0 host)
              (rule_is_named p out.0 host))
            (λ r named.
              next_path p paths rules r named _
                (process_paths-IsNamed host paths (add_rule rules r) out.1)))
