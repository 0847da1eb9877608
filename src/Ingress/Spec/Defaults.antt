-- ===== src/Ingress/Spec/Defaults.antt =====
-- The default backend and the redirection keep what the collections say of one another, and so
-- does the whole draft of an ingress.
use oci_lb_ingress_controlle.Base.Maps.{Map, lookup, put, has_key-put_kept, has_key-put_self}
use oci_lb_ingress_controlle.Ingress.Backends.{ServiceObject}
use oci_lb_ingress_controlle.Ingress.Listeners.{
  https_redirector, https_redirection, https_redirect_rule_set, https_redirect_listener,
  create_default_backend_listener_details, create_sans_virtual_host_listener_details,
}
use oci_lb_ingress_controlle.Ingress.Routing.{create_default_backend_routing_rule}
use oci_lb_ingress_controlle.Ingress.Spec.Draft.{
  IngressTls, IngressObject, Surroundings, Draft, append_to_all, empty_draft, hosts_with_tls,
  forces_https, process_backend_spec,
}
use oci_lb_ingress_controlle.Ingress.Spec.Build.{
  process_rules, with_default_backend, with_redirection, draft_of,
}
use oci_lb_ingress_controlle.Ingress.Spec.Steps.{IsServed, process_backend_spec-IsServed}
use oci_lb_ingress_controlle.Ingress.Spec.Additions.{
  put_listener, has_key-append_to_all, append_to_all-Every,
}
use oci_lb_ingress_controlle.Ingress.Spec.Rules.{IsLinkedDraft, process_rules-IsLinked}
use oci_lb_ingress_controlle.Ingress.Spec.Invariant.{
  Served, Served-Grows, Linked, Forwards, Grows, Forwards-Grows, Linked-Grows, Extends-IsLinked,
}
use oci_lb_ingress_controlle.LoadBalancer.Types.{ListenerDetails}
use oci_lb_ingress_controlle.Manager.Model.{RoutingRule, RoutingPolicy}
use oci_lb_ingress_controlle.Provider.Subnets.{Node}
use oci_lb_ingress_controlle.Base.{
  Bool-cases, Option-cases, is_empty, not, All-append, Str, text, str_eq_refl, ok, Ensures,
  Ensures-then, ◌≡◌, refl, ◌∙◌, inl, inr, ◌&&◌, List, [], ◌∷◌, arith,
}

abbrev set_listeners : Map ListenerDetails → Draft → Draft
set_listeners m d = record d { listeners = m }

listeners-Grows :
    (base64_md5 : Str → Str) (d : Draft) (m : Map ListenerDetails)
    → Grows base64_md5 d (set_listeners m d)
listeners-Grows base64_md5 d m = record {
  policies = λ n h. h;
  certificates = λ n h. h;
  rule_sets = λ n h. h;
  hostnames = λ n h. h;
  services = λ n s h. h;
}

module _ (around : Surroundings) (ing : IngressObject)
    (named_as_asked : (ns name : Str) (svc : ServiceObject)
      → around.get_service ns name ≡ ok svc
      → svc.name ≡ name) where
  abbrev pub IsDraft : Draft → Type 0
  IsDraft = IsLinkedDraft around ing named_as_asked

  -- A listener with nothing but its backend set
  plain-IsLinked :
      (name : Str) (l : ListenerDetails) (d : Draft)
      → IsDraft d
      → Linked around.base64_md5 d name l
      → IsDraft (set_listeners (put name l d.listeners) d)
  plain-IsLinked name l d linked h =
      put_listener around.base64_md5 d e linked grows refl refl name l refl
        (Linked-Grows around.base64_md5 d e name l grows h)
        (λ n p k. Forwards-Grows around.base64_md5 d e p.rules grows (linked.policies n p k))
    where
      e : Draft
      e = set_listeners (put name l d.listeners) d

      grows : Grows around.base64_md5 d e
      grows = listeners-Grows around.base64_md5 d (put name l d.listeners)

  appended-IsLinked :
      (backend_set : Str) (d : Draft)
      → IsDraft d
      → Served around.base64_md5 d backend_set
      → IsDraft (record d {
        policies = append_to_all (create_default_backend_routing_rule backend_set) d.policies;
      })
  unfolding create_default_backend_routing_rule
  appended-IsLinked backend_set d linked served = record {
    listeners = λ n l h. Linked-Grows around.base64_md5 d e n l grows (linked.listeners n l h);
    policies =
        append_to_all-Every (λ (n : Str) (p : RoutingPolicy). Forwards around.base64_md5 e p.rules)
          rule d.policies
          (λ n p h.
            All-append _ p.rules (rule ∷ [])
              (Forwards-Grows around.base64_md5 d e p.rules grows (linked.policies n p h))
              ((Served-Grows around.base64_md5 d e backend_set grows served, tt), tt));
    services = linked.services;
    hostnames = linked.hostnames;
  }
    where
      rule : RoutingRule
      rule = create_default_backend_routing_rule backend_set

      e : Draft
      e = record d { policies = append_to_all rule d.policies }

      grows : Grows around.base64_md5 d e
      grows = record {
        policies = λ n h. has_key-append_to_all n rule d.policies ∙ h;
        certificates = λ n h. h;
        rule_sets = λ n h. h;
        hostnames = λ n h. h;
        services = λ n s h. h;
      }

  with_default_backend-IsLinked :
      (nodes : List Node) (d : Draft)
      → IsDraft d
      → Ensures IsDraft (with_default_backend around ing nodes d)
  unfolding with_default_backend create_sans_virtual_host_listener_details
      create_default_backend_listener_details
  with_default_backend-IsLinked nodes d linked = elim (Option-cases ing.default_backend) [
    | inl e ↦
        rw (e, with_default_backend)
          (plain-IsLinked (text "Sans-VirtualHost-HTTP") _ d linked (record {
            backend_set = inl refl;
            policy = tt;
            certificate = tt;
            rule_sets = tt;
            hostnames = λ k. tt;
          }))
    | inr (backend, e) ↦
        rw (e, with_default_backend)
          (Ensures-then (IsServed around ing named_as_asked d) IsDraft
            (process_backend_spec around ing nodes backend d) _
            (process_backend_spec-IsServed around ing named_as_asked nodes backend d
              linked.services)
            (λ out h.
              appended-IsLinked out.0 _
                (plain-IsLinked (text "DefaultBackend-http") _ out.1
                  (Extends-IsLinked around.base64_md5 d out.1 h.0 linked)
                  (record {
                    backend_set = inr h.1;
                    policy = tt;
                    certificate = tt;
                    rule_sets = tt;
                    hostnames = λ k. tt;
                  }))
                (Served-Grows around.base64_md5 out.1 _ out.0
                  (listeners-Grows around.base64_md5 out.1 _) h.1)))
  ]

  redirected-IsLinked :
      (hosts : List Str) (d : Draft)
      → IsDraft d
      → IsDraft (record d {
        rule_sets = put https_redirection https_redirect_rule_set d.rule_sets;
        listeners = put https_redirector (https_redirect_listener hosts) d.listeners;
      })
  unfolding https_redirect_listener
  redirected-IsLinked hosts d linked =
      put_listener around.base64_md5 d e linked grows refl refl https_redirector _ refl
        (record {
          backend_set = inl refl;
          policy = tt;
          certificate = tt;
          rule_sets = (has_key-put_self https_redirection https_redirect_rule_set d.rule_sets, tt);
          hostnames = λ k. absurd (ground (arith, k, str_eq_refl https_redirector));
        })
        (λ n p k. Forwards-Grows around.base64_md5 d e p.rules grows (linked.policies n p k))
    where
      e : Draft
      e = record d {
        rule_sets = put https_redirection https_redirect_rule_set d.rule_sets;
        listeners = put https_redirector (https_redirect_listener hosts) d.listeners;
      }

      grows : Grows around.base64_md5 d e
      grows = record {
        policies = λ n h. h;
        certificates = λ n h. h;
        rule_sets =
            λ n h. has_key-put_kept https_redirection n https_redirect_rule_set d.rule_sets h;
        hostnames = λ n h. h;
        services = λ n s h. h;
      }

  with_redirection-IsLinked :
      (tls : Map IngressTls) (d : Draft) → IsDraft d → IsDraft (with_redirection around ing tls d)
  unfolding with_redirection
  with_redirection-IsLinked tls d linked =
      elim (Bool-cases (
        not (is_empty tls)
        && forces_https around.force_https_redirection_by_default ing.annotations)) [
          | inl e ↦ rw (e, with_redirection) (redirected-IsLinked _ d linked)
          | inr e ↦ rw (e, with_redirection) linked
        ]

  pub empty-IsLinked : IsDraft empty_draft
  unfolding lookup
  empty-IsLinked = record {
    listeners = λ n l h. absurd (cc);
    policies = λ n p h. absurd (cc);
    services = λ n s h. absurd (cc);
    hostnames = λ n i h. absurd (cc);
  }

  pub draft_of-IsLinked : (nodes : List Node) → Ensures IsDraft (draft_of around ing nodes)
  unfolding draft_of
  draft_of-IsLinked nodes =
      Ensures-then IsDraft IsDraft
        (process_rules around ing nodes (hosts_with_tls ing.tls []) ing.rules empty_draft) _
        (process_rules-IsLinked around ing named_as_asked nodes (hosts_with_tls ing.tls [])
          ing.rules empty_draft empty-IsLinked)
        (λ d linked.
          Ensures-then IsDraft IsDraft (with_default_backend around ing nodes d) _
            (with_default_backend-IsLinked nodes d linked)
            (λ e h. with_redirection-IsLinked (hosts_with_tls ing.tls []) e h))
