-- ===== src/Ingress/Spec/Paths.antt =====
-- The routing rules of the paths forward to backend sets of the draft's services.
use mathlib.Core.Path.{subst}
use oci_lb_ingress_controlle.Ingress.Backends.{ServiceObject}
use oci_lb_ingress_controlle.Ingress.Names.{byte_alpha_numeric_digest}
use oci_lb_ingress_controlle.Ingress.Routing.{
  IngressPath, create_routing_rule, host_conditions, path_conditions,
}
use oci_lb_ingress_controlle.Ingress.Spec.Draft.{
  IngressObject, Surroundings, Draft, add_rule, process_backend_spec,
}
use oci_lb_ingress_controlle.Ingress.Spec.Build.{process_paths}
use oci_lb_ingress_controlle.Ingress.Spec.Steps.{IsServed, process_backend_spec-IsServed}
use oci_lb_ingress_controlle.Ingress.Spec.Invariant.{
  Served, Forwards, ServiceNames, Extends, Extends-self, Extends-trans, Forwards-Grows,
}
use oci_lb_ingress_controlle.Manager.Model.{RoutingRule}
use oci_lb_ingress_controlle.Provider.Subnets.{Node}
use oci_lb_ingress_controlle.Base.{
  Bool-cases, All, All-append, any, Str, str_eq, Result, ok, err, wrap, Ensures, Ensures-then,
  Ensures-after, Ensures-wrap, ◌≡◌, refl, sym, inl, inr, List, [], ◌∷◌,
}

module _ (around : Surroundings) (ing : IngressObject)
    (named_as_asked : (ns name : Str) (svc : ServiceObject)
      → around.get_service ns name ≡ ok svc
      → svc.name ≡ name)
    (nodes : List Node) where
  abbrev pub ForwardsIn : Draft → List RoutingRule → Type 0
  ForwardsIn = Forwards around.base64_md5

  abbrev pub IsForwarded : Draft → List RoutingRule × Draft → Type 0
  IsForwarded d out = Extends around.base64_md5 d out.1 × ForwardsIn out.1 out.0

  add_rule-Forwards :
      (d : Draft) (rules : List RoutingRule) (rule : RoutingRule)
      → ForwardsIn d rules
      → All (Served around.base64_md5 d) rule.actions
      → ForwardsIn d (add_rule rules rule)
  unfolding add_rule
  add_rule-Forwards d rules rule h k =
      elim (Bool-cases (any (λ r. str_eq r.name rule.name) rules)) [
        | inl e ↦ rw (e, add_rule) h
        | inr e ↦ rw (e, add_rule) (All-append _ rules (rule ∷ []) h (k, tt))
      ]

  -- The rule that is made forwards to the backend set that it is given.
  forwards_to :
      (p : IngressPath) (backend_set host : Str)
      → Ensures
          (λ r. r.actions ≡ backend_set ∷ [])
          (create_routing_rule around.url_parse around.base64_md5 around.encode p backend_set host)
  unfolding create_routing_rule
  forwards_to p backend_set host =
      Ensures-after (λ r. r.actions ≡ backend_set ∷ [])
        (byte_alpha_numeric_digest around.base64_md5 (around.encode p) 22) _
        (λ name.
          Ensures-after (λ r. r.actions ≡ backend_set ∷ [])
            (path_conditions around.url_parse (host_conditions host) p.path_type p.path) _
            (λ conditions. refl))

  pub process_paths-IsForwarded :
      (host : Str) (paths : List IngressPath) (rules : List RoutingRule) (d : Draft)
      → ServiceNames d
      → ForwardsIn d rules
      → Ensures (IsForwarded d) (process_paths around ing nodes host paths rules d)
  unfolding process_paths
  process_paths-IsForwarded host [] rules d names h = (Extends-self around.base64_md5 d, h)
  process_paths-IsForwarded host (p ∷ paths) rules d names h =
      Ensures-then (IsServed around ing named_as_asked d) (IsForwarded d)
        (process_backend_spec around ing nodes p.backend d) _
        (process_backend_spec-IsServed around ing named_as_asked nodes p.backend d names)
        (λ out served.
          Ensures-then (λ r. r.actions ≡ out.0 ∷ []) (IsForwarded d)
            (wrap
              (create_routing_rule around.url_parse around.base64_md5 around.encode p out.0 host))
            _
            (Ensures-wrap _
              (create_routing_rule around.url_parse around.base64_md5 around.encode p out.0 host)
              (forwards_to p out.0 host))
            (λ rule same. extended out.1 served.0 _ (
              process_paths-IsForwarded host paths (add_rule rules rule) out.1
                (served.0.names_kept names)
                (add_rule-Forwards out.1 rules rule
                  (Forwards-Grows around.base64_md5 d out.1 rules served.0.grows h)
                  (subst (All (Served around.base64_md5 out.1)) (sym same) (served.1, tt))))))
    where
      extended :
          (e : Draft)
          → Extends around.base64_md5 d e
          → (r : Result (List RoutingRule × Draft)) → Ensures (IsForwarded e) r
          → Ensures (IsForwarded d) r
      extended e x (ok out) k = (Extends-trans around.base64_md5 d e out.1 x k.0, k.1)
      extended e x (err p) k = tt
