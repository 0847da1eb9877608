-- ===== src/Manager/Operations/Laws.antt =====
-- What becomes of a load balancer that is deleted, that cannot be updated, or that is new.
use oci_lb_ingress_controlle.Base.Maps.{Map, lookup}
use oci_lb_ingress_controlle.Base.Effects.{is_ok, and_then_on, wrap_on, returns}
use oci_lb_ingress_controlle.LoadBalancer.Types.{Listener, ListenerDetails, to_string}
use oci_lb_ingress_controlle.LoadBalancer.Listeners.{has_listener_changed}
use oci_lb_ingress_controlle.LoadBalancer.Listeners.InSync.{listener_in_sync}
use oci_lb_ingress_controlle.Controller.Errors.{cause, is_not_found}
use oci_lb_ingress_controlle.Manager.Model.{
  OciLoadBalancer, IngressLbSpec, Request, delete_load_balancer, get_load_balancer_by_name,
  await_work_request, World,
}
use oci_lb_ingress_controlle.Manager.Operations.{
  says_not_found, absent_or, await_deletion, deletion_answered, without_routing_policies,
  create_details, try_get_load_balancer, delete_existing, delete_ingress, update_or_create_ingress,
}
use oci_lb_ingress_controlle.Base.{
  Bool-cases, Str, text, str_eq, Result, ok, err, ◌≡◌, ◌≢◌, refl, sym, ap, ◌∙◌, ◌⊎◌, inl, inr, Bool,
  true, false, Option, none, some, List, [], ◌∷◌, ◌++◌,
}

-- Whether a run returns no error, and its calls.
abbrev pub outcome : {A : Type 0} → List Request × Result A → Bool × List Request
outcome out = (is_ok out.1, out.0)

module _ (world : World) (name : Str) (log : List Request) where
  abbrev lookup_call : Request
  lookup_call = get_load_balancer_by_name world.compartment_id name

  -- Whether a deletion is to return no error, and the calls that it is to make: the three things
  -- that can be known already, and the wait for what was begun.
  abbrev pub awaited : List Request → Str → Bool × List Request
  awaited calls work_request_id = (
    is_ok (world.cloud calls (await_work_request work_request_id)),
    calls ++ (await_work_request work_request_id ∷ []),
  )

  abbrev pub requested : List Request → Result Str → Bool × List Request
  requested calls (err e) = (is_not_found e, calls)
  requested calls (ok work_request_id) = awaited calls work_request_id

  abbrev pub deletion : Result OciLoadBalancer → Bool × List Request
  deletion (err e) = (says_not_found (cause e), log ++ (lookup_call ∷ []))
  deletion (ok lb) =
      let calls = log ++ (lookup_call ∷ []) in
      requested (calls ++ (delete_load_balancer lb.balancer.id ∷ []))
        (world.cloud calls (delete_load_balancer lb.balancer.id))

  by_wait :
      (calls : List Request) (r : Result Str)
      → outcome (and_then_on (λ _. returns tt) (wrap_on (calls, r))) ≡ (is_ok r, calls)
  by_wait calls (ok s) = refl
  by_wait calls (err e) = refl

  by_answer :
      (calls : List Request) (r : Result Str)
      → outcome (and_then_on (await_deletion world) (calls, deletion_answered r))
        ≡ requested calls r
  by_answer calls (ok id) =
      by_wait (calls ++ (await_work_request id ∷ [])) (world.cloud calls (await_work_request id))
  by_answer calls (err e) = elim (Bool-cases (is_not_found e)) [
    | inl h ↦ rw h refl
    | inr h ↦ rw h refl
  ]

  -- A deletion looks the load balancer up by its name. It returns no error where there is none, where
  -- the request to delete it is answered that there is none, or where the wait for the deletion is
  -- answered, and an error in every other case; it waits for a deletion that was begun, and only then.
  pub delete_ingress-outcome :
      outcome ((delete_ingress world name).run log)
      ≡ deletion (world.load_balancer_by_name log world.compartment_id name)
  unfolding delete_ingress try_get_load_balancer
  delete_ingress-outcome = by_lookup (world.load_balancer_by_name log world.compartment_id name)
    where
      by_lookup :
          (r : Result OciLoadBalancer)
          → outcome (and_then_on (delete_existing world) (log ++ (lookup_call ∷ []), absent_or r))
            ≡ deletion r
      by_lookup (err e) = elim (Bool-cases (says_not_found (cause e))) [
        | inl h ↦ rw h refl
        | inr h ↦ rw h refl
      ]
      by_lookup (ok lb) =
          let calls = log ++ (lookup_call ∷ []) in
          by_answer (calls ++ (delete_load_balancer lb.balancer.id ∷ []))
            (world.cloud calls (delete_load_balancer lb.balancer.id))

  -- A load balancer in the state FAILED or DELETING is not touched: the lookup is the only call, and
  -- the run is an error.
  update_or_create_ingress_refuses :
      (spec : IngressLbSpec) (lb : OciLoadBalancer)
      → world.load_balancer_by_name log world.compartment_id name ≡ ok lb
      → (lb.lifecycle_state ≡ text "FAILED") ⊎ (lb.lifecycle_state ≡ text "DELETING")
      → (((update_or_create_ingress world (ok spec) name).run log).0 ≡ log ++ (lookup_call ∷ []))
        × (is_ok ((update_or_create_ingress world (ok spec) name).run log).1 ≡ false)
  unfolding update_or_create_ingress try_get_load_balancer str_eq
  update_or_create_ingress_refuses spec lb found (inl failed) = rw found (rw failed (refl, refl))
  update_or_create_ingress_refuses spec lb found (inr deleting) =
      rw found (rw deleting (refl, refl))

abbrev pub without_policy : Option ListenerDetails → Option ListenerDetails
without_policy none = none
without_policy (some d) = some (record d { routing_policy_name = none })

pub lookup-without_routing_policies :
    (n : Str) (m : Map ListenerDetails)
    → lookup n (without_routing_policies m) ≡ without_policy (lookup n m)
unfolding lookup without_routing_policies
lookup-without_routing_policies n [] = refl
lookup-without_routing_policies n ((j, d) ∷ m) = elim (Bool-cases (str_eq j n)) [
  | inl e ↦ rw e refl
  | inr e ↦ rw e (lookup-without_routing_policies n m)
]

abbrev policy_of : Option ListenerDetails → Option Str
policy_of none = none
policy_of (some d) = d.routing_policy_name

created_with_none :
    (o : Option ListenerDetails) (c : ListenerDetails)
    → without_policy o ≡ some c
    → c.routing_policy_name ≡ none
created_with_none none c h = cc
created_with_none (some d) c h = sym (ap policy_of h)

-- A listener is created with no routing policy: where the specification gives it one, the listener
-- as it was created is found to differ from it, so that the update which follows sends the policy.
created_listener_is_updated :
    (compartment_id n : Str) (spec : IngressLbSpec) (ips : List Str) (c d : ListenerDetails)
    (a : Listener)
    → lookup n spec.spec.listeners ≡ some d
    → to_string d.routing_policy_name ≢ []
    → lookup n (create_details compartment_id spec ips).listeners ≡ some c
    → a.routing_policy_name ≡ c.routing_policy_name
    → has_listener_changed a d ≡ true
unfolding create_details
created_listener_is_updated compartment_id n spec ips c d a wanted policy created same =
    let no_policy : a.routing_policy_name ≡ none =
      same
      ∙ created_with_none (lookup n spec.spec.listeners) c
          (sym (lookup-without_routing_policies n spec.spec.listeners) ∙ created) in
    elim (Bool-cases (has_listener_changed a d)) [
      | inl e ↦ e
      | inr e ↦
          absurd
            (policy (sym (((listener_in_sync a d).0 e).routing_policy) ∙ ap to_string no_policy))
    ]
