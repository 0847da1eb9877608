-- ===== src/Ingress/Spec/Last.antt =====
-- What each routing policy ends with, where the ingress has a default backend.
use mathlib.Core.Path.{subst}
use oci_lb_ingress_controlle.Base.Maps.{Map, lookup, has_key, Every}
use oci_lb_ingress_controlle.Ingress.Backends.{ServiceObject}
use oci_lb_ingress_controlle.Ingress.Routing.{IngressBackend, create_default_backend_routing_rule}
use oci_lb_ingress_controlle.Ingress.Spec.Draft.{
  IngressTls, IngressObject, Surroundings, Draft, empty_draft, hosts_with_tls, forces_https,
  process_backend_spec,
}
use oci_lb_ingress_controlle.Ingress.Spec.Build.{
  process_rules, with_default_backend, with_redirection, draft_of, new_ingress_lb_spec,
}
use oci_lb_ingress_controlle.Ingress.Spec.Additions.{append_to_all-Every}
use oci_lb_ingress_controlle.Ingress.Spec.Closed.{policy_is_closed, Comes, Comes-from}
use oci_lb_ingress_controlle.Ingress.Spec.Invariant.{AllNamed}
use oci_lb_ingress_controlle.LoadBalancer.Types.{BackendSetDetails}
use oci_lb_ingress_controlle.Manager.Model.{RoutingRule, RoutingPolicy, IngressLbSpec}
use oci_lb_ingress_controlle.Provider.Subnets.{Node}
use oci_lb_ingress_controlle.Base.{
  Bool-cases, is_empty, not, Ensures-ok, All, Str, ok, Ensures, Ensures-then, Ensures-after, ◌≡◌,
  refl, sym, inl, inr, true, ◌&&◌, some, List, [], ◌∷◌, ◌++◌,
}

module _ (around : Surroundings) (ing : IngressObject) where
  pub redirection_policies :
      (tls : Map IngressTls) (d : Draft) → (with_redirection around ing tls d).policies ≡ d.policies
  unfolding with_redirection
  redirection_policies tls d =
      elim (Bool-cases (
        not (is_empty tls)
        && forces_https around.force_https_redirection_by_default ing.annotations)) [
          | inl e ↦ rw (e, with_redirection) refl
          | inr e ↦ rw (e, with_redirection) refl
        ]

  abbrev EndsWith : Str → Str → RoutingPolicy → Type 0
  EndsWith backend_set n p =
      (rules : List RoutingRule) × (p.rules
        ≡ rules ++ (create_default_backend_routing_rule backend_set ∷ []))

  abbrev AllEnd : Draft → Type 0
  AllEnd d = (backend_set : Str) × Every (EndsWith backend_set) d.policies

  module _ (nodes : List Node) where
    draft_of-AllEnd :
        (backend : IngressBackend)
        → ing.default_backend ≡ some backend
        → Ensures AllEnd (draft_of around ing nodes)
    unfolding draft_of
    draft_of-AllEnd backend e =
        Ensures-after AllEnd
          (process_rules around ing nodes (hosts_with_tls ing.tls []) ing.rules empty_draft) _
          (λ d.
            Ensures-then AllEnd AllEnd (with_default_backend around ing nodes d) _ (ended d) (λ f h.
              (
                h.0,
                subst (Every (EndsWith h.0))
                    (sym (redirection_policies (hosts_with_tls ing.tls []) f)) h.1,
              )))
      where
        ended : (d : Draft) → Ensures AllEnd (with_default_backend around ing nodes d)
        ended d =
            unfold with_default_backend in
            rw (e, with_default_backend)
              (Ensures-after AllEnd (process_backend_spec around ing nodes backend d) _ (λ out. (
                out.0,
                append_to_all-Every (EndsWith out.0) (create_default_backend_routing_rule out.0)
                    out.1.policies (λ n p h. (p.rules, refl)),
              )))

  end_of :
      (sets : Map BackendSetDetails) (backend_set : Str) (rules : List RoutingRule)
      → All
          (λ r. AllNamed sets r.actions)
          (rules ++ (create_default_backend_routing_rule backend_set ∷ []))
      → has_key backend_set sets ≡ true
  end_of sets backend_set [] h = unfold create_default_backend_routing_rule in h.0.0
  end_of sets backend_set (r ∷ rules) h = end_of sets backend_set rules h.1

  -- Where a specification is made of an ingress with a default backend, and the cluster answers a
  -- service of the name it is asked for: each routing policy ends with the rule that forwards all
  -- paths to a backend set of the specification.
  pub default_backend_is_last :
      ((ns name : Str) (svc : ServiceObject)
        → around.get_service ns name ≡ ok svc
        → svc.name ≡ name)
      → (s : IngressLbSpec) (backend : IngressBackend) (name : Str) (p : RoutingPolicy)
      → new_ingress_lb_spec around ing ≡ ok s
      → ing.default_backend ≡ some backend
      → lookup name s.routing_policies ≡ some p
      → (backend_set : Str) × (rules : List RoutingRule) × (p.rules
          ≡ rules ++ (create_default_backend_routing_rule backend_set ∷ []))
        × (has_key backend_set s.spec.backend_sets ≡ true)
  default_backend_is_last named_as_asked s backend name p made e found =
      let (d, (backend_set, ends), covers, listeners, policies, _, _, _) =
        Ensures-ok (Comes around ing AllEnd) (new_ingress_lb_spec around ing) s
          (Comes-from around ing AllEnd (λ nodes. draft_of-AllEnd nodes backend e)) made in
      let (rules, same) = ends name p (subst (λ m. lookup name m ≡ some p) policies found) in
      (
        backend_set,
        rules,
        same,
        end_of s.spec.backend_sets backend_set rules (
            subst (All (λ r. AllNamed s.spec.backend_sets r.actions)) same
              (policy_is_closed around ing named_as_asked s name p made found)),
      )
