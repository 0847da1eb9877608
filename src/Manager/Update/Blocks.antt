-- ===== src/Manager/Update/Blocks.antt =====
-- The queued actions as blocks of the dispatcher.
use oci_lb_ingress_controlle.Base.Effects.{Run, ◌>>=◌, wrapping, perform}
use oci_lb_ingress_controlle.Base.Shows.{Shows, RunShows, Shows-one, Shows-then, Shows-wrapping}
use oci_lb_ingress_controlle.Manager.Model.{
  OciLoadBalancer, IngressLbSpec, Request, create_routing_policy, update_routing_policy,
  delete_routing_policy, create_rule_set, update_rule_set, delete_rule_set, create_hostname,
  delete_hostname, create_certificate, delete_certificate, await_work_request, patch_lb_info, World,
  panics, noted, policy_eq, items_eq,
}
use oci_lb_ingress_controlle.Manager.Compare.{map_compare}
use oci_lb_ingress_controlle.Manager.Dispatch.{
  ActionVerb, create_action, update_action, delete_action, verb_eq, Action, add_func,
}
use oci_lb_ingress_controlle.Manager.Dispatch.Blocks.{
  when_on, calls_for, RunsAs, RunsAs-append, RunsAs-map,
}
use oci_lb_ingress_controlle.Manager.Dispatch.Subjects.{Block, all_actions, all_calls, Apart}
use oci_lb_ingress_controlle.Manager.Update.{
  routingpolicy, rule_set, hostname, certificate, named_policy, required_policy, required_rule_set,
  required_hostname, required_certificate, same_certificate, await_request, before,
  enqueue_routing_policies_actions, enqueue_rule_sets_actions, enqueue_hostname_actions,
  enqueue_certificate_actions, enqueued,
}
use mathlib.Core.Path.{subst}
use mathlib.Core.List.{append-nil}
use oci_lb_ingress_controlle.Base.{
  Bool-cases, is_empty, All, All-append, Str, text, str_eq, Error, Result, ok, err, ◌≡◌, refl, sym,
  ap, ◌∙◌, inl, inr, Bool, true, false, ◌&&◌, none, some, List, [], ◌∷◌, ◌++◌, map,
}
use oci_lb_ingress_controlle.Manager.Update.Plan.{
  own_request, action_calls, by_verb, routing_policy_calls, rule_set_calls, hostname_calls,
  certificate_calls, phase,
}

-- The parts of a block that one subject runs are those of the verb.
by_verb-when_on :
    (verb : ActionVerb) (t : Bool) (c u d : List Request)
    → when_on (verb_eq create_action verb && t) c
        ++ (when_on (verb_eq update_action verb && t) u
            ++ when_on (verb_eq delete_action verb && t) d)
      ≡ when_on t (by_verb verb c u d)
by_verb-when_on create_action true c u d = append-nil c
by_verb-when_on update_action true c u d = append-nil u
by_verb-when_on delete_action true c u d = refl
by_verb-when_on create_action false c u d = refl
by_verb-when_on update_action false c u d = refl
by_verb-when_on delete_action false c u d = refl

All-own :
    (v : ActionVerb) (s : Str) (fn : Str → Run Request (Unit {0})) (names : List Str)
    → All (λ a. a.subject ≡ s) (map (λ name. add_func v s (fn name)) names)
unfolding add_func
All-own v s fn [] = tt
All-own v s fn (name ∷ names) = (refl, All-own v s fn names)

module _ (world : World) where
  shown :
      (c : Request) (log : List Request)
      → own_request c ≡ c ∷ []
      → Shows own_request (c ∷ []) log ((wrapping (perform world.cloud c)).run log)
  shown c log h = Shows-wrapping own_request (c ∷ []) log ((perform world.cloud c).run log) (
      subst (λ l. Shows own_request l log ((perform world.cloud c).run log)) h
        (Shows-one own_request c log (world.cloud log c)))

  await_request-Shows :
      (request patch : Request)
      → own_request request ≡ request ∷ []
      → own_request patch ≡ patch ∷ []
      → RunShows own_request (action_calls request patch) (await_request world request patch)
  unfolding await_request own_request
  await_request-Shows request patch h k log =
      let awaited = λ (id : Str). wrapping (perform world.cloud (await_work_request id)) in
      Shows-then own_request (λ id. awaited id >>= λ _. noted patch) (request ∷ [])
        (await_work_request [] ∷ patch ∷ []) log ((wrapping (perform world.cloud request)).run log)
        (shown request log h)
        (λ id later.
          Shows-then own_request (λ _. noted patch) (await_work_request [] ∷ []) (patch ∷ []) later
            ((awaited id).run later)
            (Shows-wrapping own_request (await_work_request [] ∷ []) later
              ((perform world.cloud (await_work_request id)).run later)
              (Shows-one own_request (await_work_request id) later
                (world.cloud later (await_work_request id))))
            (λ _ last.
              subst (λ l. Shows own_request l last ((noted patch).run last)) k
                (Shows-one own_request patch last (ok tt))))

-- The actions that create, update and delete the things of one subject.
module _ (world : World) (s : Str) (to_create to_update to_delete : List Str)
    (c u d : Str → Request) where
  abbrev group : ActionVerb → (Str → Request) → Bool → List Str → List Action
  group v request present names =
      map (λ name. add_func v s (await_request world (request name) (patch_lb_info s name present)))
        names

  abbrev calls_of : (Str → Request) → Bool → List Str → List Request
  calls_of request present names =
      calls_for (λ name. action_calls (request name) (patch_lb_info s name present)) names

  abbrev pub queue : List Action
  queue =
      group create_action c true to_create
      ++ (group update_action u true to_update ++ group delete_action d false to_delete)

  group_own :
      (v : ActionVerb) (request : Str → Request) (present : Bool) (names : List Str)
      → All (λ a. a.subject ≡ s) (group v request present names)
  group_own v request present names =
      All-own v s (λ name. await_request world (request name) (patch_lb_info s name present)) names

  pub queue_own : All (λ a. a.subject ≡ s) queue
  queue_own =
      All-append (λ a. a.subject ≡ s) (group create_action c true to_create)
        (group update_action u true to_update ++ group delete_action d false to_delete)
        (group_own create_action c true to_create)
        (All-append (λ a. a.subject ≡ s) (group update_action u true to_update)
          (group delete_action d false to_delete) (group_own update_action u true to_update)
          (group_own delete_action d false to_delete))

  module _ (own_c : (name : Str) → own_request (c name) ≡ c name ∷ [])
      (own_u : (name : Str) → own_request (u name) ≡ u name ∷ [])
      (own_d : (name : Str) → own_request (d name) ≡ d name ∷ []) (verb : ActionVerb) where
    group_runs :
        (sub : Str) (v : ActionVerb) (request : Str → Request) (present : Bool) (names : List Str)
        → ((name : Str) → own_request (request name) ≡ request name ∷ [])
        → RunsAs own_request verb sub
            (when_on (verb_eq v verb && str_eq s sub) (calls_of request present names))
            (group v request present names)
    unfolding own_request
    group_runs sub v request present names own =
        RunsAs-map own_request verb v sub s
          (λ name. await_request world (request name) (patch_lb_info s name present))
          (λ name. action_calls (request name) (patch_lb_info s name present))
          (λ name.
            await_request-Shows world (request name) (patch_lb_info s name present) (own name) refl)
          names

    pub queue_runs :
        (sub : Str)
        → RunsAs own_request verb sub
            (when_on (str_eq s sub) (
              by_verb verb
                (calls_of c true to_create)
                (calls_of u true to_update)
                (calls_of d false to_delete)))
            queue
    queue_runs sub =
        let t = str_eq s sub in
        let created = calls_of c true to_create in
        let updated = calls_of u true to_update in
        let deleted = calls_of d false to_delete in
        subst (λ l. RunsAs own_request verb sub l queue)
          (by_verb-when_on verb t created updated deleted)
          (RunsAs-append own_request verb sub (when_on (verb_eq create_action verb && t) created)
            (when_on (verb_eq update_action verb && t) updated
              ++ when_on (verb_eq delete_action verb && t) deleted)
            (group create_action c true to_create)
            (group update_action u true to_update ++ group delete_action d false to_delete)
            (group_runs sub create_action c true to_create own_c)
            (RunsAs-append own_request verb sub (when_on (verb_eq update_action verb && t) updated)
              (when_on (verb_eq delete_action verb && t) deleted)
              (group update_action u true to_update) (group delete_action d false to_delete)
              (group_runs sub update_action u true to_update own_u)
              (group_runs sub delete_action d false to_delete own_d)))

    abbrev pub queue_block : Block own_request verb
    queue_block = record {
      subject = s;
      actions = queue;
      calls =
          by_verb verb (calls_of c true to_create) (calls_of u true to_update)
            (calls_of d false to_delete);
      own = queue_own;
      runs = queue_runs;
    }

after_certificates :
    (a b c : List Action) (r : Result (List Action)) (certificates actions : List Action)
    → r ≡ ok certificates
    → before a (before b (before c r)) ≡ ok actions
    → actions ≡ a ++ (b ++ (c ++ certificates))
after_certificates a b c (ok l) certificates actions e h = cc
after_certificates a b c (err p) certificates actions e h = cc

after_panic :
    (a b c : List Action) (r : Result (List Action)) (actions wanted : List Action) (p : Error)
    → r ≡ err p
    → before a (before b (before c r)) ≡ ok actions
    → actions ≡ wanted
after_panic a b c (ok l) actions wanted p e h = cc
after_panic a b c (err q) actions wanted p e h = cc

module _ (world : World) (lb : OciLoadBalancer) (spec : IngressLbSpec) (verb : ActionVerb) where
  unfoldable pub routing_policy_block : Block own_request verb
  unfolding own_request
  routing_policy_block =
      let compared = map_compare (some policy_eq) spec.routing_policies lb.routing_policies in
      queue_block world routingpolicy compared.extra compared.intersection compared.missing
        (λ name. create_routing_policy name (named_policy name (required_policy spec name)))
        (λ name. update_routing_policy name (required_policy spec name))
        (λ name. delete_routing_policy name) (λ name. refl) (λ name. refl) (λ name. refl) verb

  unfoldable pub rule_set_block : Block own_request verb
  unfolding own_request
  rule_set_block =
      let compared = map_compare (some items_eq) spec.rule_sets lb.rule_sets in
      queue_block world rule_set compared.extra compared.intersection compared.missing
        (λ name. create_rule_set name (required_rule_set spec name))
        (λ name. update_rule_set name (required_rule_set spec name)) (λ name. delete_rule_set name)
        (λ name. refl) (λ name. refl) (λ name. refl) verb

  unfoldable pub hostname_block : Block own_request verb
  unfolding own_request
  hostname_block =
      let compared = map_compare none spec.hostname_details lb.hostnames in
      queue_block world hostname compared.extra [] compared.missing
        (λ name. create_hostname (required_hostname spec name))
        (λ name. create_hostname (required_hostname spec name)) (λ name. delete_hostname name)
        (λ name. refl) (λ name. refl) (λ name. refl) verb

  unfoldable pub certificate_block : Block own_request verb
  unfolding own_request
  certificate_block =
      let compared = map_compare (some same_certificate) spec.certificates lb.certificates in
      queue_block world certificate compared.extra [] compared.missing
        (λ name. create_certificate (required_certificate spec name))
        (λ name. create_certificate (required_certificate spec name))
        (λ name. delete_certificate name) (λ name. refl) (λ name. refl) (λ name. refl) verb

  abbrev pub blocks : List (Block own_request verb)
  blocks = routing_policy_block ∷ rule_set_block ∷ hostname_block ∷ certificate_block ∷ []

  pub blocks-Apart : Apart own_request verb blocks
  unfolding str_eq routing_policy_block rule_set_block hostname_block certificate_block
  blocks-Apart = ((refl, (refl, (refl, tt))), ((refl, (refl, tt)), ((refl, tt), (tt, tt))))

  pub phase_lem : all_calls own_request verb blocks ≡ phase lb spec verb
  unfolding phase routing_policy_calls rule_set_calls hostname_calls certificate_calls calls_for
      routing_policy_block rule_set_block hostname_block certificate_block
  phase_lem = refl

  -- The certificates of the two maps do not clash, and the four functions queue the blocks.
  pub enqueued_lem :
      (actions : List Action)
      → enqueued world lb spec ≡ ok actions
      → actions ≡ all_actions own_request verb blocks
  unfolding enqueued enqueue_routing_policies_actions enqueue_rule_sets_actions
      enqueue_hostname_actions enqueue_certificate_actions routing_policy_block rule_set_block
      hostname_block certificate_block
  enqueued_lem actions h =
      let compared = map_compare (some same_certificate) spec.certificates lb.certificates in
      let certificates : Result (List Action) = enqueue_certificate_actions world lb spec in
      elim (Bool-cases (is_empty compared.intersection)) [
        | inl e ↦
            after_certificates routing_policy_block.actions rule_set_block.actions
              hostname_block.actions certificates certificate_block.actions actions (rw e refl) h
            ∙ ap
                (λ l.
                  routing_policy_block.actions
                  ++ (rule_set_block.actions ++ (hostname_block.actions ++ l)))
                (sym (append-nil certificate_block.actions))
        | inr e ↦
            after_panic routing_policy_block.actions rule_set_block.actions hostname_block.actions
              certificates actions (all_actions own_request verb blocks)
              (panics (text "Update to existing certificate is not possible")) (rw e refl) h
      ]
