-- ===== src/Ingress/Spec/Routed.antt =====
-- No path of an ingress is lost: its routing rule is in the policy of its host.
use mathlib.Core.Path.{subst}
use oci_lb_ingress_controlle.Base.Maps.{Map, lookup, put, some_inj}
use oci_lb_ingress_controlle.Ingress.Backends.{ServiceObject}
use oci_lb_ingress_controlle.Ingress.Listeners.{create_listener_details}
use oci_lb_ingress_controlle.Ingress.Names.{get_routing_policy_name}
use oci_lb_ingress_controlle.Ingress.Routing.{IngressPath, create_default_backend_routing_rule}
use oci_lb_ingress_controlle.Ingress.Spec.Draft.{
  IngressTls, IngressRule, IngressObject, Surroundings, Draft, policy_named, rules_before,
  empty_draft, hosts_with_tls, get_or_create_hostname_details, process_backend_spec,
}
use oci_lb_ingress_controlle.Ingress.Spec.Build.{
  process_paths, ssl_for, with_listener, paths_of, process_rule, process_rules,
  with_default_backend, draft_of, new_ingress_lb_spec,
}
use oci_lb_ingress_controlle.Ingress.Spec.Details.{
  HasHostname, hostname-HasHostname, HasCertificate, ssl_for-HasCertificate,
}
use oci_lb_ingress_controlle.Ingress.Spec.Steps.{IsServed, process_backend_spec-IsServed}
use oci_lb_ingress_controlle.Ingress.Spec.Paths.{IsForwarded, process_paths-IsForwarded}
use oci_lb_ingress_controlle.Ingress.Spec.Named.{
  Among, named_rule, HasRule, Keeps, put-Keeps, put-HasRule, append_to_all-Keeps, NameOf, IsNamed,
  process_paths-IsNamed,
}
use oci_lb_ingress_controlle.Ingress.Spec.Last.{redirection_policies}
use oci_lb_ingress_controlle.Ingress.Spec.Closed.{Comes, Comes-from}
use oci_lb_ingress_controlle.Ingress.Spec.Rules.{
  IsLinkedDraft, process_rule-IsLinked, process_rules-IsLinked,
}
use oci_lb_ingress_controlle.Ingress.Spec.Defaults.{empty-IsLinked}
use oci_lb_ingress_controlle.LoadBalancer.Types.{SslConfigurationDetails}
use oci_lb_ingress_controlle.Manager.Model.{
  RoutingRule, RoutingPolicy, HostnameDetails, IngressLbSpec,
}
use oci_lb_ingress_controlle.Provider.Subnets.{Node}
use oci_lb_ingress_controlle.Base.{
  Option-cases, Ensures-ok, Str, Ensures_self, Result, ok, err, ◌>>=◌, Ensures, Ensures-both,
  Ensures-then, Ensures-after, ◌≡◌, refl, sym, ◌∙◌, inl, inr, true, Option, none, some, List, [],
  ◌∷◌, ◌++◌,
}

module _ (around : Surroundings) (ing : IngressObject)
    (named_as_asked : (ns name : Str) (svc : ServiceObject)
      → around.get_service ns name ≡ ok svc
      → svc.name ≡ name) where
  -- Each path of the rule, where it has an HTTP section, has its routing rule in the host's policy.
  abbrev pub IsRouted : Map RoutingPolicy → IngressRule → IngressPath → Type 0
  IsRouted policies rule p =
      (policy : Str) × (name : Str) × (get_routing_policy_name around.base64_md5 rule.host
        ≡ ok policy)
      × NameOf around p name
      × HasRule policy name policies

  abbrev pub AllRouted : Map RoutingPolicy → IngressRule → Type 0
  AllRouted policies rule =
      (paths : List IngressPath) × (rule.http ≡ some paths)
      × ((p : IngressPath) → Among p paths → IsRouted policies rule p)

  AllRouted-Keeps :
      (m m' : Map RoutingPolicy) (rule : IngressRule)
      → Keeps m m'
      → AllRouted m rule
      → AllRouted m' rule
  AllRouted-Keeps m m' rule k (paths, e, routed) = (
    paths,
    e,
    λ p a.
        let (policy, name, named, digest, has) = routed p a in
        (policy, name, named, digest, k policy name has),
  )

  abbrev Routes : Draft → IngressRule → Draft → Type 0
  Routes d rule e = Keeps d.policies e.policies × AllRouted e.policies rule

  module _ (nodes : List Node) where
    abbrev LinkedDraft : Draft → Type 0
    LinkedDraft = IsLinkedDraft around ing named_as_asked

    rule_done-Routes :
        (rule : IngressRule) (paths : List IngressPath) (d : Draft) (a : List RoutingRule × Draft)
        (ssl : Option SslConfigurationDetails) (hostname : Option HostnameDetails) (e : Draft)
        → rule.http ≡ some paths
        → e.policies ≡ d.policies
        → ((p : IngressPath)
            → Among p paths
            → (name : Str) × NameOf around p name × (named_rule name a.0 ≡ true))
        → Ensures (Routes d rule) (
            create_listener_details around.base64_md5 hostname ssl >>= λ out.
            get_routing_policy_name around.base64_md5 rule.host >>= λ policy_name.
            ok (with_listener around ing policy_name out.0 out.1 a.0 e))
    unfolding with_listener
    rule_done-Routes rule paths d a ssl hostname e http same named =
        Ensures-after (Routes d rule) (create_listener_details around.base64_md5 hostname ssl) _
          (λ out.
            Ensures-then (λ n. get_routing_policy_name around.base64_md5 rule.host ≡ ok n)
              (Routes d rule) (get_routing_policy_name around.base64_md5 rule.host) _
              (Ensures_self (get_routing_policy_name around.base64_md5 rule.host))
              (λ policy h. (
                subst
                    (λ m. Keeps m (
                      put policy
                        (policy_named policy (rules_before (lookup policy e.policies) ++ a.0))
                        e.policies))
                    same (put-Keeps policy a.0 e.policies),
                (
                  paths,
                  http,
                  λ p m.
                      let (name, digest, has) = named p m in
                      (policy, name, h, digest, put-HasRule policy name a.0 e.policies has),
                ),
              )))

    process_rule-Routes :
        (tls : Map IngressTls) (rule : IngressRule) (d : Draft)
        → LinkedDraft d
        → Ensures (Routes d rule) (process_rule around ing nodes tls rule d)
    unfolding process_rule
    process_rule-Routes tls rule d linked =
        Ensures-then (λ paths. rule.http ≡ some paths) (Routes d rule)
          (paths_of around ing rule.http) _ (paths_there rule.http)
          (λ paths http.
            Ensures-then
              (λ a.
                IsForwarded around ing named_as_asked nodes d a
                × IsNamed around ing nodes paths [] a)
              (Routes d rule) (process_paths around ing nodes rule.host paths [] d) _
              (Ensures-both _ _ (process_paths around ing nodes rule.host paths [] d)
                (process_paths-IsForwarded around ing named_as_asked nodes rule.host paths [] d
                  linked.services tt)
                (process_paths-IsNamed around ing nodes rule.host paths [] d))
              (λ a pa.
                Ensures-then (HasCertificate around ing a.1) (Routes d rule)
                  (ssl_for around ing tls rule.host a.1) _
                  (ssl_for-HasCertificate around ing tls rule.host a.1)
                  (λ b pb.
                    Ensures-then (HasHostname around ing b.1) (Routes d rule)
                      (get_or_create_hostname_details around ing rule.host b.1) _
                      (hostname-HasHostname around ing rule.host b.1
                        (pb.0.hostnames_kept (pa.0.0.hostnames_kept linked.hostnames)))
                      (λ c pc.
                        rule_done-Routes rule paths d a b.0 c.0 c.1 http
                          (pc.0.same_policies ∙ (pb.0.same_policies ∙ pa.0.0.same_policies))
                          pa.1.1))))
      where
        paths_there :
            (http : Option (List IngressPath))
            → Ensures (λ paths. http ≡ some paths) (paths_of around ing http)
        paths_there none = tt
        paths_there (some paths) = refl

    abbrev IsRoutedDraft : List IngressRule → Draft → Type 0
    IsRoutedDraft rules e = (rule : IngressRule) → Among rule rules → AllRouted e.policies rule

    next_rule :
        (rule : IngressRule) (rules : List IngressRule) (d next : Draft)
        → Routes d rule next
        → (r : Result Draft)
        → Ensures (λ e. Keeps next.policies e.policies × IsRoutedDraft rules e) r
        → Ensures (λ e. Keeps d.policies e.policies × IsRoutedDraft (rule ∷ rules) e) r
    next_rule rule rules d next h (err p) k = tt
    next_rule rule rules d next h (ok e) k = (
      λ n name has. k.0 n name (h.0 n name has),
      λ q m. elim m [
        | inl same ↦
            subst (AllRouted e.policies) (sym same)
              (AllRouted-Keeps next.policies e.policies rule k.0 h.1)
        | inr later ↦ k.1 q later
      ],
    )

    process_rules-IsRouted :
        (tls : Map IngressTls) (rules : List IngressRule) (d : Draft)
        → LinkedDraft d
        → Ensures
            (λ e. Keeps d.policies e.policies × IsRoutedDraft rules e)
            (process_rules around ing nodes tls rules d)
    unfolding process_rules
    process_rules-IsRouted tls [] d linked = (λ n name h. h, λ q m. absurd m)
    process_rules-IsRouted tls (rule ∷ rules) d linked =
        Ensures-then (λ next. Routes d rule next × LinkedDraft next)
          (λ e. Keeps d.policies e.policies × IsRoutedDraft (rule ∷ rules) e)
          (process_rule around ing nodes tls rule d) _
          (Ensures-both _ _ (process_rule around ing nodes tls rule d)
            (process_rule-Routes tls rule d linked)
            (process_rule-IsLinked around ing named_as_asked nodes tls rule d linked))
          (λ next h. next_rule rule rules d next h.0 _ (process_rules-IsRouted tls rules next h.1))

    with_default_backend-Keeps :
        (d : Draft)
        → LinkedDraft d
        → Ensures (λ e. Keeps d.policies e.policies) (with_default_backend around ing nodes d)
    unfolding with_default_backend
    with_default_backend-Keeps d linked = elim (Option-cases ing.default_backend) [
      | inl e ↦ rw (e, with_default_backend) (λ n name h. h)
      | inr (backend, e) ↦
          rw (e, with_default_backend)
            (Ensures-then (IsServed around ing named_as_asked d) (λ e. Keeps d.policies e.policies)
              (process_backend_spec around ing nodes backend d) _
              (process_backend_spec-IsServed around ing named_as_asked nodes backend d
                linked.services)
              (λ out h n name has.
                append_to_all-Keeps (create_default_backend_routing_rule out.0) out.1.policies n
                  name (subst (HasRule n name) (sym h.0.same_policies) has)))
    ]

    draft_of-IsRouted : Ensures (IsRoutedDraft ing.rules) (draft_of around ing nodes)
    unfolding draft_of
    draft_of-IsRouted =
        Ensures-then
          (λ d. (Keeps empty_draft.policies d.policies × IsRoutedDraft ing.rules d) × LinkedDraft d)
          (IsRoutedDraft ing.rules)
          (process_rules around ing nodes (hosts_with_tls ing.tls []) ing.rules empty_draft) _
          (Ensures-both _ _
            (process_rules around ing nodes (hosts_with_tls ing.tls []) ing.rules empty_draft)
            (process_rules-IsRouted (hosts_with_tls ing.tls []) ing.rules empty_draft
              (empty-IsLinked around ing named_as_asked))
            (process_rules-IsLinked around ing named_as_asked nodes (hosts_with_tls ing.tls [])
              ing.rules empty_draft (empty-IsLinked around ing named_as_asked)))
          (λ d h.
            Ensures-then (λ e. Keeps d.policies e.policies) (IsRoutedDraft ing.rules)
              (with_default_backend around ing nodes d) _ (with_default_backend-Keeps d h.1)
              (λ e k rule m.
                subst (λ q. AllRouted q rule)
                  (sym (redirection_policies around ing (hosts_with_tls ing.tls []) e))
                  (AllRouted-Keeps d.policies e.policies rule k (h.0.1 rule m))))

  paths_of_rule :
      (policies : Map RoutingPolicy) (rule : IngressRule) (paths : List IngressPath)
      (p : IngressPath)
      → AllRouted policies rule
      → rule.http ≡ some paths
      → Among p paths
      → IsRouted policies rule p
  paths_of_rule policies rule paths p (there, e, routed) http m =
      routed p (subst (Among p) (some_inj (sym http ∙ e)) m)

  -- Where a specification is made, and the cluster answers a service of the name it is asked for:
  -- for each path of each rule of the ingress, a routing rule of the path's name stands in the
  -- routing policy of the rule's host.
  pub path-IsRouted :
      (s : IngressLbSpec) (rule : IngressRule) (paths : List IngressPath) (p : IngressPath)
      → new_ingress_lb_spec around ing ≡ ok s
      → Among rule ing.rules
      → rule.http ≡ some paths
      → Among p paths
      → IsRouted s.routing_policies rule p
  path-IsRouted s rule paths p made m http n =
      let (d, routed, covers, listeners, policies, _, _, _) =
        Ensures-ok
          (Comes around ing (λ d. (r : IngressRule) → Among r ing.rules → AllRouted d.policies r))
          (new_ingress_lb_spec around ing) s
          (Comes-from around ing
            (λ d. (r : IngressRule) → Among r ing.rules → AllRouted d.policies r)
            (λ nodes. draft_of-IsRouted nodes))
          made in
      paths_of_rule s.routing_policies rule paths p
        (subst (λ q. AllRouted q rule) (sym policies) (routed rule m)) http n
