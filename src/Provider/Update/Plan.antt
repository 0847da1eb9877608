-- ===== src/Provider/Update/Plan.antt =====
-- The calls that UpdateLoadBalancer makes, against a plan that is read off the load balancer and
-- its specification.
use oci_lb_ingress_controlle.Base.Effects.{
  Cloud, Follows, Follows-nothing, Follows-call, Follows-then, Follows-wrapping, and_then_on, Run,
  ◌>>◌,
}
use mathlib.Core.Path.{subst}
use oci_lb_ingress_controlle.LoadBalancer.BackendSets.{
  ActionType, create, update, delete, BackendSetAction,
}
use oci_lb_ingress_controlle.LoadBalancer.Listeners.{ListenerAction}
use oci_lb_ingress_controlle.LoadBalancer.Actions.{Action, on_backend_set, on_listener}
use oci_lb_ingress_controlle.LoadBalancer.Types.{PortSpec}
use oci_lb_ingress_controlle.Provider.Subnets.{Network}
use oci_lb_ingress_controlle.Provider.State.{
  LoadBalancer, LbSpec, Subnets, Call, security_lists_update_call, security_lists_delete_call,
  create_backend_set_call, update_backend_set_call, delete_backend_set_call, create_listener_call,
  update_listener_call, delete_listener_call, await_work_request_call,
  update_network_security_groups_call, reserved_ip_changed, has_loadbalancer_shape_changed,
  has_load_balancer_network_security_groups_changed, converts_from_flexible,
}
use oci_lb_ingress_controlle.Provider.Update.{
  shape_call, listener_ports, update_loadbalancer_shape,
  update_load_balancer_network_security_groups, request_and_await, update_backend_set_as,
  update_backend_set, update_listener_as, update_listener, when, run_action, run_actions,
  read_subnets, planned_actions, update_load_balancer, update_in_subnets,
}
use oci_lb_ingress_controlle.Base.{
  if◌then◌else◌, Bool-cases, Str, Result, ok, err, ◌≡◌, refl, inl, inr, Bool, true, false, not,
  ◌&&◌, none, List, [], ◌∷◌, ◌++◌, arith,
}

-- A wait, whatever the work request.
abbrev wait : Call
wait = await_work_request_call []

abbrev pub any_work_request : Call → Call
any_work_request (await_work_request_call id) = wait
any_work_request c = c

-- The calls of an action on a backend set: the security lists first, then the load balancer.
abbrev backend_set_calls : ActionType → Subnets → BackendSetAction → List Call
backend_set_calls create nets a =
    security_lists_update_call nets [] none a.ports
    ∷ create_backend_set_call a.name a.backend_set
    ∷ wait
    ∷ []
backend_set_calls update nets a =
    security_lists_update_call nets [] a.old_ports a.ports
    ∷ update_backend_set_call a.name a.backend_set
    ∷ wait
    ∷ []
backend_set_calls delete nets a =
    security_lists_delete_call nets a.ports ∷ delete_backend_set_call a.name ∷ wait ∷ []

abbrev listener_calls : ActionType → Subnets → List Str → PortSpec → ListenerAction → List Call
listener_calls create nets cidrs ports a =
    security_lists_update_call nets cidrs none ports
    ∷ create_listener_call a.name a.listener
    ∷ wait
    ∷ []
listener_calls update nets cidrs ports a =
    security_lists_update_call nets cidrs none ports
    ∷ update_listener_call a.name a.listener
    ∷ wait
    ∷ []
listener_calls delete nets cidrs ports a =
    security_lists_delete_call nets ports ∷ delete_listener_call a.name ∷ wait ∷ []

abbrev action_calls : LoadBalancer → LbSpec → Subnets → Action → List Call
action_calls lb spec nets (on_backend_set a) = backend_set_calls a.action_type nets a
action_calls lb spec nets (on_listener a) =
    listener_calls a.action_type nets spec.source_cidrs (listener_ports lb spec a) a

abbrev pub actions_calls : LoadBalancer → LbSpec → Subnets → List Action → List Call
actions_calls lb spec nets [] = []
actions_calls lb spec nets (a ∷ as') = action_calls lb spec nets a ++ actions_calls lb spec nets as'

abbrev pub shape_calls : LoadBalancer → LbSpec → List Call
shape_calls lb spec =
    if has_loadbalancer_shape_changed spec lb && not (converts_from_flexible lb spec)
    then shape_call spec ∷ []
    else []

abbrev pub security_group_calls : LoadBalancer → LbSpec → List Call
security_group_calls lb spec =
    if has_load_balancer_network_security_groups_changed lb.network_security_group_ids
      spec.network_security_group_ids
    then update_network_security_groups_call spec.network_security_group_ids ∷ []
    else []

-- The plan: the shape, the security groups, and then action after action.
abbrev pub calls_of_subnets : LoadBalancer → LbSpec → Result Subnets → List Call
calls_of_subnets lb spec (err e) = []
calls_of_subnets lb spec (ok nets) =
    shape_calls lb spec
    ++ (security_group_calls lb spec ++ actions_calls lb spec nets (planned_actions lb spec))

abbrev pub update_calls : Network → LoadBalancer → LbSpec → List Call
update_calls net lb spec =
    if reserved_ip_changed lb spec then [] else calls_of_subnets lb spec (read_subnets net spec)

module _ (cloud : Cloud Call) where
  request_and_await-Follows :
      (first request : Call) (log : List Call)
      → Follows any_work_request
          (any_work_request first ∷ any_work_request request ∷ wait ∷ [])
          log
          ((request_and_await cloud first request).run log)
  unfolding request_and_await
  request_and_await-Follows first request log =
      Follows-then any_work_request _ (any_work_request first ∷ []) _ log _
        (Follows-call any_work_request cloud first _ log refl)
        (λ done l.
          Follows-then any_work_request _ (any_work_request request ∷ []) _ l _
            (Follows-call any_work_request cloud request _ l refl)
            (λ id l'.
              Follows-then any_work_request _ (wait ∷ []) [] l' _
                (Follows-call any_work_request cloud (await_work_request_call id) wait l' refl)
                (λ awaited l''. Follows-nothing any_work_request l'' (ok tt))))

  update_backend_set-Follows :
      (nets : Subnets) (t : ActionType) (a : BackendSetAction) (log : List Call)
      → Follows any_work_request
          (backend_set_calls t nets a)
          log
          ((update_backend_set_as cloud t nets a).run log)
  update_backend_set-Follows nets create a log = request_and_await-Follows _ _ log
  update_backend_set-Follows nets update a log = request_and_await-Follows _ _ log
  update_backend_set-Follows nets delete a log = request_and_await-Follows _ _ log

  update_listener-Follows :
      (nets : Subnets) (cidrs : List Str) (ports : PortSpec) (t : ActionType) (a : ListenerAction)
      (log : List Call)
      → Follows any_work_request
          (listener_calls t nets cidrs ports a)
          log
          ((update_listener_as cloud t nets cidrs ports a).run log)
  update_listener-Follows nets cidrs ports create a log = request_and_await-Follows _ _ log
  update_listener-Follows nets cidrs ports update a log = request_and_await-Follows _ _ log
  update_listener-Follows nets cidrs ports delete a log = request_and_await-Follows _ _ log

  run_action-Follows :
      (lb : LoadBalancer) (spec : LbSpec) (nets : Subnets) (a : Action) (log : List Call)
      → Follows any_work_request
          (action_calls lb spec nets a)
          log
          ((run_action cloud lb spec nets a).run log)
  unfolding run_action update_backend_set update_listener
  run_action-Follows lb spec nets (on_backend_set a) log =
      Follows-wrapping any_work_request _ log _
        (update_backend_set-Follows nets a.action_type a log)
  run_action-Follows lb spec nets (on_listener a) log = Follows-wrapping any_work_request _ log _ (
      update_listener-Follows nets spec.source_cidrs (listener_ports lb spec a) a.action_type a log)

  run_actions-Follows :
      (lb : LoadBalancer) (spec : LbSpec) (nets : Subnets) (as' : List Action) (log : List Call)
      → Follows any_work_request
          (actions_calls lb spec nets as')
          log
          ((run_actions cloud lb spec nets as').run log)
  unfolding run_actions
  run_actions-Follows lb spec nets [] log = Follows-nothing any_work_request log (ok tt)
  run_actions-Follows lb spec nets (a ∷ as') log =
      Follows-then any_work_request _ _ _ log _ (run_action-Follows lb spec nets a log)
        (λ u l. run_actions-Follows lb spec nets as' l)

  when-Follows :
      (b : Bool) (plan : List Call) (r : Run Call (Unit {0})) (log : List Call)
      → Follows any_work_request plan log (r.run log)
      → Follows any_work_request (if b then plan else []) log ((when cloud b r).run log)
  when-Follows true plan r log f = f
  when-Follows false plan r log f = Follows-nothing any_work_request log (ok tt)

  shape_call-kept : (spec : LbSpec) → any_work_request (shape_call spec) ≡ shape_call spec
  unfolding shape_call
  shape_call-kept spec = refl

  update_loadbalancer_shape-Follows :
      (lb : LoadBalancer) (spec : LbSpec) (log : List Call)
      → Follows any_work_request
          (if not (converts_from_flexible lb spec) then shape_call spec ∷ [] else [])
          log
          ((update_loadbalancer_shape cloud lb spec).run log)
  unfolding update_loadbalancer_shape
  update_loadbalancer_shape-Follows lb spec log =
      elim (Bool-cases (converts_from_flexible lb spec)) [
        | inl e ↦ rw e (Follows-nothing any_work_request log _)
        | inr e ↦ rw e (
            Follows-then any_work_request _ (shape_call spec ∷ []) [] log _
              (Follows-wrapping any_work_request _ log _ (
                Follows-call any_work_request cloud (shape_call spec) _ log (shape_call-kept spec)))
              (λ id l. Follows-nothing any_work_request l (ok tt)))
      ]

  security_groups-Follows :
      (spec : LbSpec) (log : List Call)
      → Follows any_work_request
          (update_network_security_groups_call spec.network_security_group_ids ∷ [])
          log
          ((update_load_balancer_network_security_groups cloud spec).run log)
  unfolding update_load_balancer_network_security_groups
  security_groups-Follows spec log =
      Follows-then any_work_request _ _ [] log _
        (Follows-wrapping any_work_request _ log _
          (Follows-call any_work_request cloud _ _ log refl))
        (λ id l. Follows-nothing any_work_request l (ok tt))

  when_both :
      (p q : Bool) (c : Call)
      → (if p then (if q then c ∷ [] else []) else []) ≡ (if p && q then c ∷ [] else [])
  when_both p q c = ground arith

  update_in_subnets-Follows :
      (lb : LoadBalancer) (spec : LbSpec) (nets : Subnets) (log : List Call)
      → Follows any_work_request
          (calls_of_subnets lb spec (ok nets))
          log
          ((update_in_subnets cloud lb spec nets).run log)
  unfolding update_in_subnets
  update_in_subnets-Follows lb spec nets log =
      let shape =
        when cloud (has_loadbalancer_shape_changed spec lb)
          (update_loadbalancer_shape cloud lb spec) in
      let groups =
        when cloud
          (has_load_balancer_network_security_groups_changed lb.network_security_group_ids
            spec.network_security_group_ids)
          (update_load_balancer_network_security_groups cloud spec) in
      let actions = run_actions cloud lb spec nets (planned_actions lb spec) in
      Follows-then any_work_request (λ u. groups >> actions) (shape_calls lb spec) _ log
        (shape.run log)
        (subst (λ p. Follows any_work_request p log (shape.run log))
          (when_both (has_loadbalancer_shape_changed spec lb) (not (converts_from_flexible lb spec))
            (shape_call spec))
          (when-Follows (has_loadbalancer_shape_changed spec lb) _
            (update_loadbalancer_shape cloud lb spec) log
            (update_loadbalancer_shape-Follows lb spec log)))
        (λ u l.
          Follows-then any_work_request (λ v. actions) (security_group_calls lb spec) _ l
            (groups.run l)
            (when-Follows _ _ (update_load_balancer_network_security_groups cloud spec) l
              (security_groups-Follows spec l))
            (λ v l'. run_actions-Follows lb spec nets (planned_actions lb spec) l'))

  with_subnets-Follows :
      (lb : LoadBalancer) (spec : LbSpec) (r : Result Subnets) (log : List Call)
      → Follows any_work_request
          (calls_of_subnets lb spec r)
          log
          (and_then_on (update_in_subnets cloud lb spec) (log, r))
  with_subnets-Follows lb spec (ok nets) log = update_in_subnets-Follows lb spec nets log
  with_subnets-Follows lb spec (err e) log = Follows-nothing any_work_request log (err e)

  -- The calls made are, but for the work requests waited for, a beginning of the plan, whatever the
  -- cloud answers, and the whole plan where no error is returned.
  pub update_load_balancer-Follows :
      (net : Network) (lb : LoadBalancer) (spec : LbSpec) (log : List Call)
      → Follows any_work_request
          (update_calls net lb spec)
          log
          ((update_load_balancer cloud net lb spec).run log)
  unfolding update_load_balancer
  update_load_balancer-Follows net lb spec log = elim (Bool-cases (reserved_ip_changed lb spec)) [
    | inl e ↦ rw e (Follows-nothing any_work_request log _)
    | inr e ↦ rw e (with_subnets-Follows lb spec (read_subnets net spec) log)
  ]
