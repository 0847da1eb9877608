-- ===== src/Manager/Update/Carried.antt =====
-- An update carries out its plan.
use oci_lb_ingress_controlle.Base.Effects.{Run, returns, ◌>>=◌, ◌>>◌, ignoring_error, tries}
use oci_lb_ingress_controlle.Base.Shows.{
  seen, Shows, RunShows, RunShows-then, Shows-nothing, Shows-one, Shows-unseen,
}
use oci_lb_ingress_controlle.Provider.State.{Call}
use oci_lb_ingress_controlle.Manager.Model.{
  OciLoadBalancer, IngressLbSpec, Request, get_load_balancer, provider_request, World, panics,
}
use oci_lb_ingress_controlle.Manager.Dispatch.{
  ActionVerb, create_action, update_action, delete_action, Action, run_verb,
}
use oci_lb_ingress_controlle.Manager.Dispatch.Subjects.{
  all_actions, calls_on, Shows-all_subjects, Shows-one_subject,
}
use oci_lb_ingress_controlle.Manager.Update.{
  routingpolicy, enqueued, update_by_provider, read_load_balancer, update_load_balancer,
}
use mathlib.Core.Path.{subst}
use mathlib.Core.List.{append-nil}
use oci_lb_ingress_controlle.Base.{
  text, str_eq, Result-cases, Result, ok, err, ◌≡◌, refl, sym, ◌∙◌, inl, inr, Option, none, some,
  List, [], ◌∷◌, ◌++◌, map,
}
use oci_lb_ingress_controlle.Manager.Update.Plan.{
  own_request, routing_policy_calls, phase, update_plan,
}
use oci_lb_ingress_controlle.Manager.Update.Blocks.{
  blocks, blocks-Apart, phase_lem, enqueued_lem, routing_policy_block, rule_set_block,
  hostname_block, certificate_block,
}

provider_unseen : (calls : List Call) → seen own_request (map provider_request calls) ≡ []
unfolding seen own_request
provider_unseen [] = refl
provider_unseen (c ∷ cs) = provider_unseen cs

module _ (world : World) (lb : OciLoadBalancer) (spec : IngressLbSpec) where
  -- The calls of the provider, after those of the log.
  abbrev provider_run : List Request → OciLoadBalancer → List Call × Result (Unit {0})
  provider_run log held =
      (oci_lb_ingress_controlle.Provider.Update.update_load_balancer
          (λ l d. world.cloud (log ++ map provider_request l) (provider_request d)) world.network
          held.balancer spec.spec).run
        []

  provider_shows :
      (held : Option OciLoadBalancer) → RunShows own_request [] (update_by_provider world held spec)
  unfolding update_by_provider
  provider_shows none log =
      Shows-nothing own_request log (err (panics (text "nil pointer dereference")))
  provider_shows (some held) log =
      Shows-unseen own_request log (map provider_request (provider_run log held).0)
        (provider_run log held).1 (provider_unseen (provider_run log held).0)

  suppressed_shows :
      RunShows own_request [] (ignoring_error (update_by_provider world (some lb) spec))
  unfolding update_by_provider
  suppressed_shows log =
      Shows-unseen own_request log (map provider_request (provider_run log lb).0) (ok tt)
        (provider_unseen (provider_run log lb).0)

  reread_shows :
      RunShows own_request
        (get_load_balancer lb.balancer.id ∷ [])
        (tries (read_load_balancer world lb.balancer.id))
  unfolding own_request
  reread_shows log =
      Shows-one own_request (get_load_balancer lb.balancer.id) log
        ((tries (read_load_balancer world lb.balancer.id)).run log).1

  phase_shows :
      (verb : ActionVerb) (actions : List Action)
      → enqueued world lb spec ≡ ok actions
      → RunShows own_request (phase lb spec verb) (run_verb verb [] actions)
  phase_shows verb actions h = rw (enqueued_lem world lb spec verb actions h) (
      subst
        (λ l.
          RunShows own_request l
            (run_verb verb [] (all_actions own_request verb (blocks world lb spec verb))))
        (phase_lem world lb spec verb)
        (Shows-all_subjects own_request verb (blocks world lb spec verb)
          (blocks-Apart world lb spec verb)))

  routing_policies_only :
      (verb : ActionVerb)
      → calls_on own_request verb routingpolicy (blocks world lb spec verb) ++ []
        ≡ routing_policy_calls lb spec verb
  unfolding str_eq routing_policy_block rule_set_block hostname_block certificate_block
      routing_policy_calls
  routing_policies_only verb =
      append-nil (routing_policy_calls lb spec verb ++ [])
      ∙ append-nil (routing_policy_calls lb spec verb)

  routing_policies_shows :
      (verb : ActionVerb) (actions : List Action)
      → enqueued world lb spec ≡ ok actions
      → RunShows own_request
          (routing_policy_calls lb spec verb)
          (run_verb verb (routingpolicy ∷ []) actions)
  routing_policies_shows verb actions h = rw (enqueued_lem world lb spec verb actions h) (
      subst
        (λ l. RunShows own_request l (
          run_verb verb (routingpolicy ∷ [])
            (all_actions own_request verb (blocks world lb spec verb))))
        (routing_policies_only verb)
        (Shows-one_subject own_request verb routingpolicy (blocks world lb spec verb)))

  -- The parts of the run, from the last one on.
  abbrev pub deletes : List Action → Option OciLoadBalancer → Run Request (Option OciLoadBalancer)
  deletes actions reread = run_verb delete_action [] actions >> returns reread

  abbrev pub updates : List Action → Option OciLoadBalancer → Run Request (Option OciLoadBalancer)
  updates actions reread = run_verb update_action [] actions >> deletes actions reread

  abbrev pub provided : List Action → Option OciLoadBalancer → Run Request (Option OciLoadBalancer)
  provided actions reread = update_by_provider world reread spec >> updates actions reread

  abbrev pub policies : List Action → Option OciLoadBalancer → Run Request (Option OciLoadBalancer)
  policies actions reread =
      run_verb update_action (routingpolicy ∷ []) actions >> provided actions reread

  abbrev pub creates : List Action → Option OciLoadBalancer → Run Request (Option OciLoadBalancer)
  creates actions reread = run_verb create_action [] actions >> policies actions reread

  abbrev known : List Action → Run Request (Option OciLoadBalancer)
  known actions =
      ignoring_error (update_by_provider world (some lb) spec)
      >> (tries (read_load_balancer world lb.balancer.id) >>= creates actions)

  abbrev last_plan : List Request
  last_plan = phase lb spec update_action ++ phase lb spec delete_action

  deletes-Shows :
      (actions : List Action) (reread : Option OciLoadBalancer)
      → enqueued world lb spec ≡ ok actions
      → RunShows own_request (phase lb spec delete_action) (deletes actions reread)
  deletes-Shows actions reread h =
      subst (λ l. RunShows own_request l (deletes actions reread))
        (append-nil (phase lb spec delete_action))
        (RunShows-then own_request (phase lb spec delete_action) []
          (run_verb delete_action [] actions) (λ _. returns reread)
          (phase_shows delete_action actions h)
          (λ _ log. Shows-nothing own_request log (ok reread)))

  provided-Shows :
      (actions : List Action) (reread : Option OciLoadBalancer)
      → enqueued world lb spec ≡ ok actions
      → RunShows own_request last_plan (provided actions reread)
  provided-Shows actions reread h =
      RunShows-then own_request [] last_plan (update_by_provider world reread spec)
        (λ _. updates actions reread) (provider_shows reread)
        (λ _.
          RunShows-then own_request (phase lb spec update_action) (phase lb spec delete_action)
            (run_verb update_action [] actions) (λ _. deletes actions reread)
            (phase_shows update_action actions h) (λ _. deletes-Shows actions reread h))

  creates-Shows :
      (actions : List Action) (reread : Option OciLoadBalancer)
      → enqueued world lb spec ≡ ok actions
      → RunShows own_request
          (phase lb spec create_action ++ (routing_policy_calls lb spec update_action ++ last_plan))
          (creates actions reread)
  creates-Shows actions reread h =
      RunShows-then own_request (phase lb spec create_action)
        (routing_policy_calls lb spec update_action ++ last_plan)
        (run_verb create_action [] actions) (λ _. policies actions reread)
        (phase_shows create_action actions h)
        (λ _.
          RunShows-then own_request (routing_policy_calls lb spec update_action) last_plan
            (run_verb update_action (routingpolicy ∷ []) actions) (λ _. provided actions reread)
            (routing_policies_shows update_action actions h) (λ _. provided-Shows actions reread h))

  known-Shows :
      (actions : List Action)
      → enqueued world lb spec ≡ ok actions
      → RunShows own_request (update_plan lb spec) (known actions)
  unfolding update_plan
  known-Shows actions h =
      RunShows-then own_request [] (update_plan lb spec)
        (ignoring_error (update_by_provider world (some lb) spec))
        (λ _. tries (read_load_balancer world lb.balancer.id) >>= creates actions) suppressed_shows
        (λ _.
          RunShows-then own_request (get_load_balancer lb.balancer.id ∷ [])
            (phase lb spec create_action
              ++ (routing_policy_calls lb spec update_action ++ last_plan))
            (tries (read_load_balancer world lb.balancer.id)) (creates actions) reread_shows
            (λ reread. creates-Shows actions reread h))

  -- An update makes its calls, but for the provider's, in the order of its plan: the load balancer
  -- is read again; then come the creations, the updates of routing policies, all updates (those of
  -- routing policies once more) and the deletions, each a request, a wait and the change in memory.
  -- What an error stops is a beginning of the plan, and without an error the plan is complete.
  pub update_load_balancer-Shows :
      (log : List Request)
      → Shows own_request (update_plan lb spec) log ((update_load_balancer world lb spec).run log)
  unfolding update_load_balancer
  update_load_balancer-Shows log = elim (Result-cases (enqueued world lb spec)) [
    | inl (actions, e) ↦ rw e (known-Shows actions e log)
    | inr (p, e) ↦ rw e (record {
      made = [];
      rest = update_plan lb spec;
      calls = sym (append-nil (seen own_request log));
      planned = refl;
      complete = λ h. cc;
    })
  ]
