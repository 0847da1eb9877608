-- ===== src/Ingress/Spec/Rules.antt =====
-- Every rule, the default backend and the redirection keep what the collections say of one another.
use mathlib.Core.Path.{subst}
use oci_lb_ingress_controlle.Base.Maps.{Map, lookup, has_key-put_kept, has_key-put_self, Every-put}
use oci_lb_ingress_controlle.Ingress.Backends.{ServiceObject}
use oci_lb_ingress_controlle.Ingress.Listeners.{create_listener_details, listener_for, names_of}
use oci_lb_ingress_controlle.Ingress.Names.{get_listener_name, get_routing_policy_name}
use oci_lb_ingress_controlle.Ingress.Spec.Draft.{
  IngressTls, IngressRule, IngressObject, Surroundings, Draft, policy_named, rules_before,
  get_or_create_hostname_details,
}
use oci_lb_ingress_controlle.Ingress.Spec.Build.{
  process_paths, ssl_for, with_listener, paths_of, process_rule, process_rules,
}
use oci_lb_ingress_controlle.Ingress.Spec.Details.{
  HasHostname, hostname-HasHostname, HasCertificate, ssl_for-HasCertificate,
}
use oci_lb_ingress_controlle.Ingress.Spec.Paths.{IsForwarded, process_paths-IsForwarded}
use oci_lb_ingress_controlle.Ingress.Spec.Additions.{put_listener, rules_before-Forwards}
use oci_lb_ingress_controlle.Ingress.Spec.Invariant.{
  Named-weaken, certificate_of, Named, AllNamed, Linked, Forwards, Grows, IsLinked, Extends,
  Extends-trans, Forwards-Grows, Linked-Grows, Extends-IsLinked,
}
use oci_lb_ingress_controlle.LoadBalancer.Types.{ListenerDetails, SslConfigurationDetails}
use oci_lb_ingress_controlle.Manager.Model.{RoutingRule, RoutingPolicy, HostnameDetails}
use oci_lb_ingress_controlle.Provider.Subnets.{Node}
use oci_lb_ingress_controlle.Base.{
  All-append, Str, ok, ◌>>=◌, Ensures, Ensures-then, Ensures-after, ◌≡◌, refl, sym, inl, Option,
  none, some, List, [], ◌∷◌, ◌++◌,
}

module _ (around : Surroundings) (ing : IngressObject)
    (named_as_asked : (ns name : Str) (svc : ServiceObject)
      → around.get_service ns name ≡ ok svc
      → svc.name ≡ name) where
  abbrev pub IsLinkedDraft : Draft → Type 0
  IsLinkedDraft = IsLinked around.base64_md5

  with_listener-IsLinked :
      (policy_name name : Str) (l : ListenerDetails) (rules : List RoutingRule) (d : Draft)
      → IsLinkedDraft d
      → Linked around.base64_md5 d name l
      → Forwards around.base64_md5 d rules
      → IsLinkedDraft (with_listener around ing policy_name name l rules d)
  unfolding with_listener
  with_listener-IsLinked policy_name name l rules d linked of_listener forwards =
      put_listener around.base64_md5 d e linked grows refl refl name
        (record l { routing_policy_name = some policy_name }) refl
        (with_policy (Linked-Grows around.base64_md5 d e name l grows of_listener))
        (Every-put (λ (n : Str) (p : RoutingPolicy). Forwards around.base64_md5 e p.rules)
          policy_name policy d.policies
          (Forwards-Grows around.base64_md5 d e _ grows (
            All-append _ (rules_before (lookup policy_name d.policies)) rules
              (rules_before-Forwards around.base64_md5 d policy_name (lookup policy_name d.policies)
                linked refl)
              forwards))
          (λ n p h. Forwards-Grows around.base64_md5 d e p.rules grows (linked.policies n p h)))
    where
      policy : RoutingPolicy
      policy = policy_named policy_name (rules_before (lookup policy_name d.policies) ++ rules)

      e : Draft
      e = with_listener around ing policy_name name l rules d

      grows : Grows around.base64_md5 d e
      grows = record {
        policies = λ n h. has_key-put_kept policy_name n policy d.policies h;
        certificates = λ n h. h;
        rule_sets = λ n h. h;
        hostnames = λ n h. h;
        services = λ n s h. h;
      }

      with_policy :
          Linked around.base64_md5 e name l
          → Linked around.base64_md5 e name (record l { routing_policy_name = some policy_name })
      with_policy k = record {
        backend_set = k.backend_set;
        policy = has_key-put_self policy_name policy d.policies;
        certificate = k.certificate;
        rule_sets = k.rule_sets;
        hostnames = k.hostnames;
      }

  module _ (nodes : List Node) where
    listener_for-Linked :
        (d : Draft) (name : Str) (hostname : Option HostnameDetails)
        (ssl : Option SslConfigurationDetails)
        → AllNamed d.hostnames (names_of hostname)
        → Named d.certificates (certificate_of ssl)
        → Linked around.base64_md5 d name (listener_for hostname ssl)
    unfolding listener_for
    listener_for-Linked d name hostname none h c = record {
      backend_set = inl refl;
      policy = tt;
      certificate = tt;
      rule_sets = tt;
      hostnames = λ k. h;
    }
    listener_for-Linked d name hostname (some ssl) h c = record {
      backend_set = inl refl;
      policy = tt;
      certificate = c;
      rule_sets = tt;
      hostnames = λ k. h;
    }

    made_listener :
        (hostname : Option HostnameDetails) (ssl : Option SslConfigurationDetails)
        → Ensures
            (λ out. out.1 ≡ listener_for hostname ssl)
            (create_listener_details around.base64_md5 hostname ssl)
    unfolding create_listener_details
    made_listener hostname ssl =
        Ensures-after (λ out. out.1 ≡ listener_for hostname ssl)
          (get_listener_name around.base64_md5 _) _ (λ name. refl)

    rule_done-IsLinked :
        (rule : IngressRule) (d : Draft) (a : List RoutingRule × Draft)
        (b : Option SslConfigurationDetails × Draft) (c : Option HostnameDetails × Draft)
        → IsLinkedDraft d
        → IsForwarded around ing named_as_asked nodes d a
        → HasCertificate around ing a.1 b
        → HasHostname around ing b.1 c
        → Ensures IsLinkedDraft (
            create_listener_details around.base64_md5 c.0 b.0 >>= λ out.
            get_routing_policy_name around.base64_md5 rule.host >>= λ policy_name.
            ok (with_listener around ing policy_name out.0 out.1 a.0 c.1))
    rule_done-IsLinked rule d a b c linked pa pb pc =
        Ensures-then (λ out. out.1 ≡ listener_for c.0 b.0) IsLinkedDraft
          (create_listener_details around.base64_md5 c.0 b.0) _ (made_listener c.0 b.0)
          (λ out same.
            Ensures-after IsLinkedDraft (get_routing_policy_name around.base64_md5 rule.host) _
              (λ policy_name.
                with_listener-IsLinked policy_name out.0 out.1 a.0 c.1
                  (Extends-IsLinked around.base64_md5 d c.1 whole linked)
                  (subst (Linked around.base64_md5 c.1 out.0) (sym same) (
                    listener_for-Linked c.1 out.0 c.0 b.0 pc.1 (
                      Named-weaken b.1.certificates c.1.certificates (certificate_of b.0)
                        pc.0.grows.certificates pb.1)))
                  (Forwards-Grows around.base64_md5 a.1 c.1 a.0 after.grows pa.1)))
      where
        after : Extends around.base64_md5 a.1 c.1
        after = Extends-trans around.base64_md5 a.1 b.1 c.1 pb.0 pc.0

        whole : Extends around.base64_md5 d c.1
        whole = Extends-trans around.base64_md5 d a.1 c.1 pa.0 after

    pub process_rule-IsLinked :
        (tls : Map IngressTls) (rule : IngressRule) (d : Draft)
        → IsLinkedDraft d
        → Ensures IsLinkedDraft (process_rule around ing nodes tls rule d)
    unfolding process_rule
    process_rule-IsLinked tls rule d linked =
        Ensures-after IsLinkedDraft (paths_of around ing rule.http) _ (λ paths.
          Ensures-then (IsForwarded around ing named_as_asked nodes d) IsLinkedDraft
            (process_paths around ing nodes rule.host paths [] d) _
            (process_paths-IsForwarded around ing named_as_asked nodes rule.host paths [] d
              linked.services tt)
            (λ a pa.
              Ensures-then (HasCertificate around ing a.1) IsLinkedDraft
                (ssl_for around ing tls rule.host a.1) _
                (ssl_for-HasCertificate around ing tls rule.host a.1)
                (λ b pb.
                  Ensures-then (HasHostname around ing b.1) IsLinkedDraft
                    (get_or_create_hostname_details around ing rule.host b.1) _
                    (hostname-HasHostname around ing rule.host b.1
                      (pb.0.hostnames_kept (pa.0.hostnames_kept linked.hostnames)))
                    (λ c pc. rule_done-IsLinked rule d a b c linked pa pb pc))))

    pub process_rules-IsLinked :
        (tls : Map IngressTls) (rules : List IngressRule) (d : Draft)
        → IsLinkedDraft d
        → Ensures IsLinkedDraft (process_rules around ing nodes tls rules d)
    unfolding process_rules
    process_rules-IsLinked tls [] d linked = linked
    process_rules-IsLinked tls (rule ∷ rules) d linked =
        Ensures-then IsLinkedDraft IsLinkedDraft (process_rule around ing nodes tls rule d) _
          (process_rule-IsLinked tls rule d linked)
          (λ next h. process_rules-IsLinked tls rules next h)
