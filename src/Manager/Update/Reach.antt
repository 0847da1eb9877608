-- ===== src/Manager/Update/Reach.antt =====
-- What an update makes of the routing policies.
use oci_lb_ingress_controlle.Base.Maps.{lookup, lookup-put, lookup-remove}
use oci_lb_ingress_controlle.Base.Sets.{has}
use oci_lb_ingress_controlle.Manager.Compare.Keys.{differs_at, has-extra, has-missing, has-changed}
use oci_lb_ingress_controlle.Manager.Update.Plan.{
  action_calls, routing_policy_calls, rule_set_calls, hostname_calls, certificate_calls, phase,
  update_plan,
}
use oci_lb_ingress_controlle.Manager.Update.Carried.{update_load_balancer-Shows}
use oci_lb_ingress_controlle.Manager.Update.Effect.{
  Held, after_request, after_requests, after_requests-seen, Effect, Effect-append, Effect-none,
  Effect-each,
}
use oci_lb_ingress_controlle.Base.Effects.{is_ok}
use oci_lb_ingress_controlle.Base.Shows.{seen}
use oci_lb_ingress_controlle.Manager.Model.{
  RoutingPolicy, OciLoadBalancer, IngressLbSpec, create_routing_policy, update_routing_policy,
  delete_routing_policy, create_rule_set, update_rule_set, delete_rule_set, create_hostname,
  delete_hostname, create_certificate, delete_certificate, patch_lb_info, World, policy_eq,
  policy_eq_iff, items_eq,
}
use oci_lb_ingress_controlle.Manager.Compare.{Compared, map_compare}
use oci_lb_ingress_controlle.Manager.Dispatch.{
  ActionVerb, create_action, update_action, delete_action,
}
use oci_lb_ingress_controlle.Manager.Update.{
  routingpolicy, rule_set, hostname, certificate, named_policy, required_policy, required_rule_set,
  required_hostname, required_certificate, same_certificate, update_load_balancer, or_zero,
  no_policy,
}
use mathlib.Core.List.{append-nil}
use oci_lb_ingress_controlle.Base.{
  if◌then◌else◌, Bool-cases, is_some, not, Str, ◌≡◌, refl, sym, ap, ◌∙◌, inl, inr, true, false,
  ◌&&◌, Option, none, some, [], ◌++◌,
}

-- All of a plan is made where a run returns no error.
pub all_made :
    (world : World) (lb : OciLoadBalancer) (spec : IngressLbSpec) (h : Held)
    → is_ok ((update_load_balancer world lb spec).run []).1 ≡ true
    → after_requests ((update_load_balancer world lb spec).run []).0 h
      ≡ after_requests (update_plan lb spec) h
unfolding seen
all_made world lb spec h done =
    let shows = update_load_balancer-Shows world lb spec [] in
    sym (after_requests-seen ((update_load_balancer world lb spec).run []).0 h)
    ∙ ap (λ l. after_requests l h)
        (shows.calls
          ∙ (sym (append-nil shows.made)
              ∙ (ap (λ l. shows.made ++ l) (sym (shows.complete done)) ∙ shows.planned)))

module _ (lb : OciLoadBalancer) (spec : IngressLbSpec) (k : Str) where
  rule_set_calls_leave :
      (verb : ActionVerb)
      → Effect (λ h. h.routing_policies) k (rule_set_calls lb spec verb) (λ o. o)
  unfolding rule_set_calls after_requests after_request
  rule_set_calls_leave create_action =
      Effect-none (λ h. h.routing_policies) k
        (λ name.
          action_calls (create_rule_set name (required_rule_set spec name))
            (patch_lb_info rule_set name true))
        (λ name h. refl) (map_compare (some items_eq) spec.rule_sets lb.rule_sets).extra
  rule_set_calls_leave update_action =
      Effect-none (λ h. h.routing_policies) k
        (λ name.
          action_calls (update_rule_set name (required_rule_set spec name))
            (patch_lb_info rule_set name true))
        (λ name h. refl) (map_compare (some items_eq) spec.rule_sets lb.rule_sets).intersection
  rule_set_calls_leave delete_action =
      Effect-none (λ h. h.routing_policies) k
        (λ name. action_calls (delete_rule_set name) (patch_lb_info rule_set name false))
        (λ name h. refl) (map_compare (some items_eq) spec.rule_sets lb.rule_sets).missing

  hostname_calls_leave :
      (verb : ActionVerb)
      → Effect (λ h. h.routing_policies) k (hostname_calls lb spec verb) (λ o. o)
  unfolding hostname_calls after_requests after_request
  hostname_calls_leave create_action =
      Effect-none (λ h. h.routing_policies) k
        (λ name.
          action_calls (create_hostname (required_hostname spec name))
            (patch_lb_info hostname name true))
        (λ name h. refl) (map_compare none spec.hostname_details lb.hostnames).extra
  hostname_calls_leave update_action = λ h. refl
  hostname_calls_leave delete_action =
      Effect-none (λ h. h.routing_policies) k
        (λ name. action_calls (delete_hostname name) (patch_lb_info hostname name false))
        (λ name h. refl) (map_compare none spec.hostname_details lb.hostnames).missing

  certificate_calls_leave :
      (verb : ActionVerb)
      → Effect (λ h. h.routing_policies) k (certificate_calls lb spec verb) (λ o. o)
  unfolding certificate_calls after_requests after_request
  certificate_calls_leave create_action =
      Effect-none (λ h. h.routing_policies) k
        (λ name.
          action_calls (create_certificate (required_certificate spec name))
            (patch_lb_info certificate name true))
        (λ name h. refl)
        (map_compare (some same_certificate) spec.certificates lb.certificates).extra
  certificate_calls_leave update_action = λ h. refl
  certificate_calls_leave delete_action =
      Effect-none (λ h. h.routing_policies) k
        (λ name. action_calls (delete_certificate name) (patch_lb_info certificate name false))
        (λ name h. refl)
        (map_compare (some same_certificate) spec.certificates lb.certificates).missing

  abbrev compared : Compared
  compared = map_compare (some policy_eq) spec.routing_policies lb.routing_policies

  abbrev created : Option RoutingPolicy → Option RoutingPolicy
  created o = if has k compared.extra then some (named_policy k (required_policy spec k)) else o

  abbrev changed : Option RoutingPolicy → Option RoutingPolicy
  changed o = if has k compared.intersection then some (required_policy spec k) else o

  abbrev dropped : Option RoutingPolicy → Option RoutingPolicy
  dropped o = if has k compared.missing then none else o

  abbrev by : ActionVerb → Option RoutingPolicy → Option RoutingPolicy
  by create_action o = created o
  by update_action o = changed o
  by delete_action o = dropped o

  routing_policy_calls_set :
      (verb : ActionVerb)
      → Effect (λ h. h.routing_policies) k (routing_policy_calls lb spec verb) (by verb)
  unfolding routing_policy_calls after_requests after_request
  routing_policy_calls_set create_action =
      Effect-each (λ h. h.routing_policies) k
        (λ name.
          action_calls (create_routing_policy name (named_policy name (required_policy spec name)))
            (patch_lb_info routingpolicy name true))
        (λ name. some (named_policy name (required_policy spec name)))
        (λ name h.
          lookup-put name k (named_policy name (required_policy spec name)) h.routing_policies)
        compared.extra
  routing_policy_calls_set update_action =
      Effect-each (λ h. h.routing_policies) k
        (λ name.
          action_calls (update_routing_policy name (required_policy spec name))
            (patch_lb_info routingpolicy name true))
        (λ name. some (required_policy spec name))
        (λ name h. lookup-put name k (required_policy spec name) h.routing_policies)
        compared.intersection
  routing_policy_calls_set delete_action =
      Effect-each (λ h. h.routing_policies) k
        (λ name. action_calls (delete_routing_policy name) (patch_lb_info routingpolicy name false))
        (λ name. none) (λ name h. lookup-remove name k h.routing_policies) compared.missing

  phase_sets :
      (verb : ActionVerb) → Effect (λ h. h.routing_policies) k (phase lb spec verb) (by verb)
  unfolding phase after_requests
  phase_sets verb =
      Effect-append (λ h. h.routing_policies) k (routing_policy_calls lb spec verb)
        (rule_set_calls lb spec verb
          ++ (hostname_calls lb spec verb ++ (certificate_calls lb spec verb ++ [])))
        (by verb) (λ o. o) (routing_policy_calls_set verb)
        (Effect-append (λ h. h.routing_policies) k (rule_set_calls lb spec verb)
          (hostname_calls lb spec verb ++ (certificate_calls lb spec verb ++ [])) (λ o. o) (λ o. o)
          (rule_set_calls_leave verb)
          (Effect-append (λ h. h.routing_policies) k (hostname_calls lb spec verb)
            (certificate_calls lb spec verb ++ []) (λ o. o) (λ o. o) (hostname_calls_leave verb)
            (Effect-append (λ h. h.routing_policies) k (certificate_calls lb spec verb) [] (λ o. o)
              (λ o. o) (certificate_calls_leave verb) (λ h. refl))))

  plan_sets :
      Effect
        (λ h. h.routing_policies)
        k
        (update_plan lb spec)
        (λ o. dropped (changed (changed (created o))))
  unfolding update_plan after_requests after_request
  plan_sets h =
      Effect-append (λ h. h.routing_policies) k (phase lb spec create_action)
        (routing_policy_calls lb spec update_action
          ++ (phase lb spec update_action ++ phase lb spec delete_action))
        created (λ o. dropped (changed (changed o))) (phase_sets create_action)
        (Effect-append (λ h. h.routing_policies) k (routing_policy_calls lb spec update_action)
          (phase lb spec update_action ++ phase lb spec delete_action) changed
          (λ o. dropped (changed o)) (routing_policy_calls_set update_action)
          (Effect-append (λ h. h.routing_policies) k (phase lb spec update_action)
            (phase lb spec delete_action) changed dropped (phase_sets update_action)
            (phase_sets delete_action)))
        h

-- What the steps make of an entry that was `b`, where `a` is wanted.
settled :
    (k : Str) (a b : Option RoutingPolicy)
    → ((p : RoutingPolicy) → a ≡ some p → p.name ≡ k)
    → (if is_some b && not (is_some a)
        then none
        else if differs_at policy_eq a b
        then some (or_zero no_policy a)
        else if differs_at policy_eq a b
        then some (or_zero no_policy a)
        else if is_some a && not (is_some b)
        then some (named_policy k (or_zero no_policy a))
        else b)
      ≡ a
settled k none none h = refl
settled k none (some q) h = refl
settled k (some p) none h = ap (λ n. some (record p { name = n })) (sym (h p refl))
settled k (some p) (some q) h = elim (Bool-cases (policy_eq p q)) [
  | inl e ↦ rw e (ap some (sym ((policy_eq_iff p q).0 e)))
  | inr e ↦ rw e refl
]

-- Where an update returns no error, and the service does what each call asks for, the service holds
-- each routing policy as the specification has it, and no other: it began with those that the load
-- balancer was read with, and each policy of the specification has its key as its name.
pub routing_policies-Reached :
    (world : World) (lb : OciLoadBalancer) (spec : IngressLbSpec) (held : Held) (k : Str)
    → ((p : RoutingPolicy) → lookup k spec.routing_policies ≡ some p → p.name ≡ k)
    → held.routing_policies ≡ lb.routing_policies
    → is_ok ((update_load_balancer world lb spec).run []).1 ≡ true
    → lookup k
        (after_requests ((update_load_balancer world lb spec).run []).0 held).routing_policies
      ≡ lookup k spec.routing_policies
routing_policies-Reached world lb spec held k named same done =
    ap (λ h. lookup k h.routing_policies) (all_made world lb spec held done)
    ∙ (plan_sets lb spec k held
        ∙ (ap
              (λ m.
                dropped lb spec k
                  (changed lb spec k (changed lb spec k (created lb spec k (lookup k m)))))
              same
            ∙ rw (has-missing (some policy_eq) k spec.routing_policies lb.routing_policies) (
                rw (has-changed policy_eq k spec.routing_policies lb.routing_policies) (
                  rw (has-extra (some policy_eq) k spec.routing_policies lb.routing_policies) (
                    settled k (lookup k spec.routing_policies) (lookup k lb.routing_policies)
                      named)))))
