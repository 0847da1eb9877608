-- ===== src/Ingress/Spec/Closed.antt =====
-- What a specification names is in it: backend sets, routing policies, certificates, rule sets and
-- hostnames; and what every policy ends with where the ingress has a default backend.
use mathlib.Core.Path.{subst}
use oci_lb_ingress_controlle.Base.Maps.{Map, lookup, has_key}
use oci_lb_ingress_controlle.Ingress.Backends.{ServiceObject, is_internal_lb, get_load_balancer_ip}
use oci_lb_ingress_controlle.Ingress.Listeners.{https_redirector}
use oci_lb_ingress_controlle.Ingress.Shape.{get_lb_shape}
use oci_lb_ingress_controlle.Ingress.Spec.Build.{
  setup_backend_sets_for_spec, spec_of, draft_of, new_ingress_lb_spec,
}
use oci_lb_ingress_controlle.Ingress.Spec.Defaults.{IsDraft, draft_of-IsLinked}
use oci_lb_ingress_controlle.Ingress.Spec.Draft.{IngressObject, Surroundings, Draft}
use oci_lb_ingress_controlle.Ingress.Spec.Invariant.{
  certificate_of, Named, AllNamed, Target, All-weaken,
}
use oci_lb_ingress_controlle.Ingress.Spec.Sets.{setup-has}
use oci_lb_ingress_controlle.Ingress.SubnetIds.{get_load_balancer_subnet_ids}
use oci_lb_ingress_controlle.LoadBalancer.Types.{BackendSetDetails, ListenerDetails}
use oci_lb_ingress_controlle.Manager.Model.{RoutingPolicy, IngressLbSpec}
use oci_lb_ingress_controlle.Provider.Subnets.{Node}
use oci_lb_ingress_controlle.Base.{
  Bool-cases, All, Str, str_eq, ok, wrap, Ensures, Ensures-then, Ensures-after, Ensures-ok, ◌≡◌,
  refl, sym, ◌⊎◌, inl, inr, true, some, List,
}

-- What a listener names; the redirector names the hosts of the TLS entries, whether or not they
-- have a rule.
pub record IsListenerClosed (s : IngressLbSpec) (name : Str) (l : ListenerDetails) : Type 0 where
  pub backend_set : has_key l.default_backend_set_name s.spec.backend_sets ≡ true
  pub policy : Named s.routing_policies l.routing_policy_name
  pub certificate : Named s.certificates (certificate_of l.ssl_configuration)
  pub rule_sets : AllNamed s.rule_sets l.rule_set_names
  pub hostnames :
      (str_eq name https_redirector ≡ true) ⊎ AllNamed s.hostname_details l.hostname_names

-- What a policy's rules forward to
abbrev pub IsPolicyClosed : IngressLbSpec → RoutingPolicy → Type 0
IsPolicyClosed s p = All (λ r. AllNamed s.spec.backend_sets r.actions) p.rules

module _ (around : Surroundings) (ing : IngressObject) where
  abbrev pub Covers : Draft → Map BackendSetDetails → Type 0
  Covers d sets = (n : Str) → Target around.base64_md5 d n → has_key n sets ≡ true

  abbrev pub Comes {κ} : (Draft → Type κ) → IngressLbSpec → Type κ
  Comes P s =
      (d : Draft) × (P d)
      × (Covers d s.spec.backend_sets)
      × (s.spec.listeners ≡ d.listeners)
      × (s.routing_policies ≡ d.policies)
      × (s.certificates ≡ d.certificates)
      × (s.rule_sets ≡ d.rule_sets)
      × (s.hostname_details ≡ d.hostnames)

  -- A specification has the collections of a draft, and the backend sets that cover it.
  pub Comes-from :
      (P : Draft → Type 0)
      → ((nodes : List Node) → Ensures P (draft_of around ing nodes))
      → Ensures (Comes P) (new_ingress_lb_spec around ing)
  unfolding new_ingress_lb_spec spec_of
  Comes-from P drafts = Ensures-after (Comes P) (is_internal_lb ing.annotations) _ (λ internal.
      Ensures-after (Comes P) (get_lb_shape around.shape_defaults ing.annotations) _ (λ shape.
        Ensures-after (Comes P) (wrap around.list_nodes) _ (λ nodes.
          Ensures-then P (Comes P) (draft_of around ing nodes) _ (drafts nodes) (λ d h.
            Ensures-after (Comes P)
              (get_load_balancer_subnet_ids around.subnet_config around.discovery ing.annotations) _
              (λ subnets.
                Ensures-after (Comes P) (get_load_balancer_ip around.parses_ip ing.annotations) _
                  (λ ip.
                    Ensures-then (Covers d) (Comes P) (setup_backend_sets_for_spec around ing d) _
                      (setup-has around ing d)
                      (λ sets k. (d, h, k, refl, refl, refl, refl, refl))))))))

  module _
      (named_as_asked : (ns name : Str) (svc : ServiceObject)
        → around.get_service ns name ≡ ok svc
        → svc.name ≡ name) where
    -- Where a specification is made, and the cluster answers a service of the name it is asked for:
    -- each listener's default backend set, routing policy, certificate and rule sets are in the
    -- specification, and so are its hostnames, but for the listener that redirects to HTTPS.
    pub listener_is_closed :
        (s : IngressLbSpec) (name : Str) (l : ListenerDetails)
        → new_ingress_lb_spec around ing ≡ ok s
        → lookup name s.spec.listeners ≡ some l
        → IsListenerClosed s name l
    listener_is_closed s name l made e =
        let (d, linked, covers, listeners, policies, certificates, rule_sets, hostnames) =
          Ensures-ok (Comes (IsDraft around ing named_as_asked)) (new_ingress_lb_spec around ing) s
            (Comes-from (IsDraft around ing named_as_asked)
              (draft_of-IsLinked around ing named_as_asked))
            made in
        let k = linked.listeners name l (subst (λ m. lookup name m ≡ some l) listeners e) in
        record {
          backend_set = covers l.default_backend_set_name k.backend_set;
          policy = subst (λ m. Named m l.routing_policy_name) (sym policies) k.policy;
          certificate =
              subst (λ m. Named m (certificate_of l.ssl_configuration)) (sym certificates)
                k.certificate;
          rule_sets = subst (λ m. AllNamed m l.rule_set_names) (sym rule_sets) k.rule_sets;
          hostnames = elim (Bool-cases (str_eq name https_redirector)) [
            | inl h ↦ inl h
            | inr h ↦ inr (subst (λ m. AllNamed m l.hostname_names) (sym hostnames) (k.hostnames h))
          ];
        }

    -- Where a specification is made, and the cluster answers a service of the name it is asked for:
    -- each rule of each routing policy forwards to a backend set of the specification.
    pub policy_is_closed :
        (s : IngressLbSpec) (name : Str) (p : RoutingPolicy)
        → new_ingress_lb_spec around ing ≡ ok s
        → lookup name s.routing_policies ≡ some p
        → IsPolicyClosed s p
    policy_is_closed s name p made e =
        let (d, linked, covers, listeners, policies, certificates, rule_sets, hostnames) =
          Ensures-ok (Comes (IsDraft around ing named_as_asked)) (new_ingress_lb_spec around ing) s
            (Comes-from (IsDraft around ing named_as_asked)
              (draft_of-IsLinked around ing named_as_asked))
            made in
        All-weaken _ _ p.rules
          (λ r h. All-weaken _ _ r.actions (λ a served. covers a (inr served)) h)
          (linked.policies name p (subst (λ m. lookup name m ≡ some p) policies e))
