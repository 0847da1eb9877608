-- ===== src/Manager/Update/Success.antt =====
-- Where an update returns no error.
use oci_lb_ingress_controlle.Base.Effects.{is_ok-bind, is_ok-wrapping}
use oci_lb_ingress_controlle.Provider.State.{
  LbSpec, actual_public_reserved_ip, converts_from_flexible,
}
use oci_lb_ingress_controlle.Provider.Update.{read_subnets}
use oci_lb_ingress_controlle.Provider.Update.Success
use oci_lb_ingress_controlle.Manager.Update.Plan.{own_request}
use oci_lb_ingress_controlle.Manager.Update.Carried.{creates, policies, provided, updates, deletes}
use oci_lb_ingress_controlle.Manager.Update.Blocks.{
  queue, blocks, enqueued_lem, routing_policy_block, rule_set_block, hostname_block,
  certificate_block,
}
use oci_lb_ingress_controlle.LoadBalancer.Types.{to_string}
use oci_lb_ingress_controlle.Manager.Dispatch.{run_subject, run_subjects, do_action, all_subjects}
use oci_lb_ingress_controlle.Base.Effects.{
  Run, returns, ◌>>=◌, wrapping, perform, and_then_on, ignoring_error, tries, is_ok,
}
use oci_lb_ingress_controlle.Manager.Model.{
  OciLoadBalancer, IngressLbSpec, Request, create_routing_policy, update_routing_policy,
  delete_routing_policy, create_rule_set, update_rule_set, delete_rule_set, create_hostname,
  delete_hostname, create_certificate, delete_certificate, get_load_balancer, await_work_request,
  patch_lb_info, provider_request, World, noted, policy_eq, items_eq,
}
use oci_lb_ingress_controlle.Manager.Compare.{map_compare}
use oci_lb_ingress_controlle.Manager.Dispatch.{
  ActionVerb, create_action, update_action, delete_action, verb_eq, Action, add_func, run_verb,
}
use oci_lb_ingress_controlle.Manager.Dispatch.Subjects.{Block, all_actions}
use oci_lb_ingress_controlle.Manager.Update.{
  routingpolicy, rule_set, hostname, certificate, named_policy, required_policy, required_rule_set,
  required_hostname, required_certificate, same_certificate, await_request,
  enqueue_certificate_actions, enqueued, update_by_provider, read_load_balancer,
  update_load_balancer,
}
use mathlib.Core.Path.{subst}
use oci_lb_ingress_controlle.Base.{
  if◌then◌else◌, Bool-cases, is_empty, All, All-append, Result-cases, Str, str_eq, ok, ◌≡◌, refl,
  sym, arith, inl, inr, Bool, true, false, not, ◌||◌, none, some, List, [], ◌∷◌, ◌++◌, map,
}

-- A run that returns no error after any calls.
abbrev pub Succeeds : {A : Type 0} → Run Request A → Type 0
Succeeds r = (log : List Request) → is_ok (r.run log).1 ≡ true

run_subject-Succeeds :
    (verb : ActionVerb) (sub : Str) (actions : List Action)
    → All (λ a. Succeeds a.fn) actions
    → Succeeds (run_subject verb sub actions)
unfolding run_subject do_action
run_subject-Succeeds verb sub [] h log = refl
run_subject-Succeeds verb sub (a ∷ as') h log =
    elim (Bool-cases (a.done || (not (verb_eq a.verb verb) || not (str_eq a.subject sub)))) [
      | inl e ↦ rw e (run_subject-Succeeds verb sub as' h.1 log)
      | inr e ↦
          let fresh : a.done ≡ false = ground arith in
          rw e (
            rw fresh (
              is_ok-bind a.fn (λ _. run_subject verb sub as') log (h.0 log)
                (λ _ later. run_subject-Succeeds verb sub as' h.1 later)))
    ]

run_subjects-Succeeds :
    (verb : ActionVerb) (subs : List Str) (actions : List Action)
    → All (λ a. Succeeds a.fn) actions
    → Succeeds (run_subjects verb subs actions)
unfolding run_subjects
run_subjects-Succeeds verb [] actions h log = refl
run_subjects-Succeeds verb (s ∷ subs) actions h log =
    is_ok-bind (run_subject verb s actions) (λ _. run_subjects verb subs actions) log
      (run_subject-Succeeds verb s actions h log)
      (λ _ later. run_subjects-Succeeds verb subs actions h later)

run_verb-Succeeds :
    (verb : ActionVerb) (subs : List Str) (actions : List Action)
    → All (λ a. Succeeds a.fn) actions
    → Succeeds (run_verb verb subs actions)
unfolding run_verb
run_verb-Succeeds verb subs actions h =
    run_subjects-Succeeds verb (if is_empty subs then all_subjects actions else subs) actions h

module _ (world : World)
    (willing : (log : List Request) (request : Request)
      → is_ok (world.cloud log request) ≡ true) where
  call-Succeeds : (request : Request) → Succeeds (wrapping (perform world.cloud request))
  call-Succeeds request log =
      is_ok-wrapping ((perform world.cloud request).run log) (willing log request)

  await_request-Succeeds : (request patch : Request) → Succeeds (await_request world request patch)
  unfolding await_request
  await_request-Succeeds request patch log =
      let awaited = λ (id : Str). wrapping (perform world.cloud (await_work_request id)) in
      is_ok-bind (wrapping (perform world.cloud request)) (λ id. awaited id >>= λ _. noted patch)
        log (call-Succeeds request log)
        (λ id later.
          is_ok-bind (awaited id) (λ _. noted patch) later
            (call-Succeeds (await_work_request id) later) (λ _ last. refl))

  queue-Succeeds :
      (v : ActionVerb) (s : Str) (request patch : Str → Request) (names : List Str)
      → All
          (λ a. Succeeds a.fn)
          (map (λ name. add_func v s (await_request world (request name) (patch name))) names)
  unfolding add_func
  queue-Succeeds v s request patch [] = tt
  queue-Succeeds v s request patch (name ∷ names) =
      (await_request-Succeeds (request name) (patch name), queue-Succeeds v s request patch names)

  block-Succeeds :
      (s : Str) (to_create to_update to_delete : List Str) (c u d : Str → Request)
      → All (λ a. Succeeds a.fn) (queue world s to_create to_update to_delete c u d)
  block-Succeeds s to_create to_update to_delete c u d =
      let group = λ (v : ActionVerb) (request : Str → Request) (b : Bool).
        map (λ name. add_func v s (await_request world (request name) (patch_lb_info s name b))) in
      let updates = group update_action u true to_update in
      let deletes = group delete_action d false to_delete in
      All-append (λ a. Succeeds a.fn) (group create_action c true to_create) (updates ++ deletes)
        (queue-Succeeds create_action s c (λ name. patch_lb_info s name true) to_create)
        (All-append (λ a. Succeeds a.fn) updates deletes
          (queue-Succeeds update_action s u (λ name. patch_lb_info s name true) to_update)
          (queue-Succeeds delete_action s d (λ name. patch_lb_info s name false) to_delete))

  blocks-Succeed :
      (verb : ActionVerb) (bs : List (Block own_request verb))
      → All (λ b. All (λ a. Succeeds a.fn) b.actions) bs
      → All (λ a. Succeeds a.fn) (all_actions own_request verb bs)
  blocks-Succeed verb [] h = tt
  blocks-Succeed verb (b ∷ bs) h =
      All-append (λ a. Succeeds a.fn) b.actions (all_actions own_request verb bs) h.0
        (blocks-Succeed verb bs h.1)

  enqueued-Succeeds :
      (lb : OciLoadBalancer) (spec : IngressLbSpec) (actions : List Action)
      → enqueued world lb spec ≡ ok actions
      → All (λ a. Succeeds a.fn) actions
  unfolding routing_policy_block rule_set_block hostname_block certificate_block
  enqueued-Succeeds lb spec actions h =
      let policies = map_compare (some policy_eq) spec.routing_policies lb.routing_policies in
      let sets = map_compare (some items_eq) spec.rule_sets lb.rule_sets in
      let names = map_compare none spec.hostname_details lb.hostnames in
      let certificates = map_compare (some same_certificate) spec.certificates lb.certificates in
      subst (All (λ a. Succeeds a.fn)) (sym (enqueued_lem world lb spec create_action actions h)) (
        blocks-Succeed create_action (blocks world lb spec create_action) (
          block-Succeeds routingpolicy policies.extra policies.intersection policies.missing
              (λ name. create_routing_policy name (named_policy name (required_policy spec name)))
              (λ name. update_routing_policy name (required_policy spec name))
              (λ name. delete_routing_policy name),
          (
            block-Succeeds rule_set sets.extra sets.intersection sets.missing
                (λ name. create_rule_set name (required_rule_set spec name))
                (λ name. update_rule_set name (required_rule_set spec name))
                (λ name. delete_rule_set name),
            (
              block-Succeeds hostname names.extra [] names.missing
                  (λ name. create_hostname (required_hostname spec name))
                  (λ name. create_hostname (required_hostname spec name))
                  (λ name. delete_hostname name),
              (
                block-Succeeds certificate certificates.extra [] certificates.missing
                    (λ name. create_certificate (required_certificate spec name))
                    (λ name. create_certificate (required_certificate spec name))
                    (λ name. delete_certificate name),
                tt,
              ),
            ),
          ),
        ))

  -- What the provider's update of a load balancer needs.
  abbrev pub Fits : OciLoadBalancer → LbSpec → Type 0
  Fits held spec =
      (to_string (actual_public_reserved_ip held.balancer.ip_addresses) ≡ spec.load_balancer_ip)
      × (converts_from_flexible held.balancer spec ≡ false)

  provider-Succeeds :
      (held : OciLoadBalancer) (spec : IngressLbSpec)
      → is_ok (read_subnets world.network spec.spec) ≡ true
      → Fits held spec.spec
      → Succeeds (update_by_provider world (some held) spec)
  unfolding update_by_provider
  provider-Succeeds held spec h fits log =
      Success.update_load_balancer-is_ok
        (λ l d. world.cloud (log ++ map provider_request l) (provider_request d))
        (λ l d. willing (log ++ map provider_request l) (provider_request d)) world.network
        held.balancer spec.spec [] h fits.0 fits.1

  module _ (lb : OciLoadBalancer) (spec : IngressLbSpec) (reread : List Request → OciLoadBalancer)
      (reads_back : (log : List Request) → world.load_balancer log lb.balancer.id ≡ ok (reread log))
      (fits : (log : List Request) → Fits (reread log) spec.spec)
      (readable : is_ok (read_subnets world.network spec.spec) ≡ true) where
    creates-Succeeds :
        (actions : List Action) (held : OciLoadBalancer)
        → All (λ a. Succeeds a.fn) actions
        → Fits held spec.spec
        → Succeeds (creates world lb spec actions (some held))
    creates-Succeeds actions held h fit log =
        let runs = λ (verb : ActionVerb) (subs : List Str). run_verb-Succeeds verb subs actions h in
        is_ok-bind (run_verb create_action [] actions)
          (λ _. policies world lb spec actions (some held)) log (runs create_action [] log)
          (λ _ l1.
            is_ok-bind (run_verb update_action (routingpolicy ∷ []) actions)
              (λ _. provided world lb spec actions (some held)) l1
              (runs update_action (routingpolicy ∷ []) l1)
              (λ _ l2.
                is_ok-bind (update_by_provider world (some held) spec)
                  (λ _. updates world lb spec actions (some held)) l2
                  (provider-Succeeds held spec readable fit l2)
                  (λ _ l3.
                    is_ok-bind (run_verb update_action [] actions)
                      (λ _. deletes world lb spec actions (some held)) l3 (runs update_action [] l3)
                      (λ _ l4.
                        is_ok-bind (run_verb delete_action [] actions) (λ _. returns (some held)) l4
                          (runs delete_action [] l4) (λ _ l5. refl)))))

    known-Succeeds :
        (actions : List Action)
        → All (λ a. Succeeds a.fn) actions
        → (log : List Request)
        → is_ok
            (and_then_on
              (creates world lb spec actions)
              ((tries (read_load_balancer world lb.balancer.id)).run log)).1
          ≡ true
    known-Succeeds actions h log = rw (reads_back log) (
        creates-Succeeds actions (reread log) h (fits log)
          (log ++ (get_load_balancer lb.balancer.id ∷ [])))

    enqueued-is_ok :
        is_empty
            (map_compare (some same_certificate) spec.certificates lb.certificates).intersection
          ≡ true
        → is_ok (enqueued world lb spec) ≡ true
    unfolding enqueued enqueue_certificate_actions
    enqueued-is_ok clash = rw clash refl

    -- An update returns no error where the cloud answers every request, the load balancer is read
    -- back with the reserved address that is asked for and without a flexible shape that is to
    -- become another, the subnets can be read, and no certificate of the specification has the name
    -- of one of the load balancer's with other contents, where no chain is other than an empty one.
    pub manager_update-is_ok :
        is_empty
            (map_compare (some same_certificate) spec.certificates lb.certificates).intersection
          ≡ true
        → (log : List Request) → is_ok ((update_load_balancer world lb spec).run log).1 ≡ true
    unfolding update_load_balancer
    manager_update-is_ok clash log = elim (Result-cases (enqueued world lb spec)) [
      | inl (actions, e) ↦ rw e (
          known-Succeeds actions (enqueued-Succeeds lb spec actions e)
            ((ignoring_error (update_by_provider world (some lb) spec)).run log).0)
      | inr (p, e) ↦ let no_error = enqueued-is_ok clash in cc
    ]
