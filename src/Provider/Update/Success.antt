-- ===== src/Provider/Update/Success.antt =====
-- When UpdateLoadBalancer returns no error.
use oci_lb_ingress_controlle.Base.Effects.{
  Cloud, Run, and_then_on, is_ok, is_ok-bind, is_ok-wrapping, perform, wrapping, returns, ◌>>=◌,
  ◌>>◌,
}
use oci_lb_ingress_controlle.LoadBalancer.BackendSets.{
  ActionType, create, update, delete, BackendSetAction,
}
use oci_lb_ingress_controlle.LoadBalancer.Listeners.{ListenerAction}
use oci_lb_ingress_controlle.LoadBalancer.Actions.{Action, on_backend_set, on_listener}
use oci_lb_ingress_controlle.LoadBalancer.Types.{PortSpec, to_string}
use oci_lb_ingress_controlle.Provider.Subnets.{Network}
use oci_lb_ingress_controlle.Provider.State.{
  LoadBalancer, LbSpec, Subnets, Call, await_work_request_call, update_network_security_groups_call,
  actual_public_reserved_ip, differs_from, reserved_ip_changed, has_loadbalancer_shape_changed,
  has_load_balancer_network_security_groups_changed, converts_from_flexible,
}
use oci_lb_ingress_controlle.Provider.Update.{
  shape_call, listener_ports, update_loadbalancer_shape,
  update_load_balancer_network_security_groups, request_and_await, update_backend_set_as,
  update_backend_set, update_listener_as, update_listener, when, run_action, run_actions,
  read_subnets, planned_actions, update_in_subnets, update_load_balancer,
}
use oci_lb_ingress_controlle.Base.{
  is_some, is_empty, Str, str_eq, str_eq_iff, str_eq_refl, Result, ok, err, ◌≡◌, refl, ◌≢◌, Bool,
  true, false, not, ◌&&◌, ◌||◌, Option, none, some, List, [], ◌∷◌, arith,
}

-- The guard compares the reserved address in use, or none, with the one asked for, or none.
reserved_ip_changed_lem :
    (lb : LoadBalancer) (spec : LbSpec)
    → reserved_ip_changed lb spec
      ≡ not (str_eq (to_string (actual_public_reserved_ip lb.ip_addresses)) spec.load_balancer_ip)
unfolding reserved_ip_changed str_eq
reserved_ip_changed_lem lb spec =
    guard (actual_public_reserved_ip lb.ip_addresses) spec.load_balancer_ip
  where
    guard :
        (o : Option Str) (ip : Str)
        → ((not (is_empty ip) || is_some o) && differs_from ip o) ≡ not (str_eq (to_string o) ip)
    guard none [] = refl
    guard none (c ∷ ip) = refl
    guard (some a) ip = ground arith

module _ (cloud : Cloud Call)
    (answers : (log : List Call) (c : Call) → is_ok (cloud log c) ≡ true) where
  request_and_await-is_ok :
      (first request : Call) (log : List Call)
      → is_ok ((request_and_await cloud first request).run log).1 ≡ true
  unfolding request_and_await
  request_and_await-is_ok first request log =
      let waits : Str → Run Call (Unit {0}) =
        λ id. perform cloud (await_work_request_call id) >>= λ awaited. returns tt in
      let requests : Str → Run Call (Unit {0}) = λ done. perform cloud request >>= waits in
      is_ok-bind (perform cloud first) requests log (answers log first) (λ done l.
        is_ok-bind (perform cloud request) waits l (answers l request) (λ id l'.
          is_ok-bind (perform cloud (await_work_request_call id)) (λ awaited. returns tt) l'
            (answers l' (await_work_request_call id)) (λ awaited l''. refl)))

  update_backend_set-is_ok :
      (nets : Subnets) (t : ActionType) (a : BackendSetAction) (log : List Call)
      → is_ok ((update_backend_set_as cloud t nets a).run log).1 ≡ true
  update_backend_set-is_ok nets create a log = request_and_await-is_ok _ _ log
  update_backend_set-is_ok nets update a log = request_and_await-is_ok _ _ log
  update_backend_set-is_ok nets delete a log = request_and_await-is_ok _ _ log

  update_listener-is_ok :
      (nets : Subnets) (cidrs : List Str) (ports : PortSpec) (t : ActionType) (a : ListenerAction)
      (log : List Call)
      → is_ok ((update_listener_as cloud t nets cidrs ports a).run log).1 ≡ true
  update_listener-is_ok nets cidrs ports create a log = request_and_await-is_ok _ _ log
  update_listener-is_ok nets cidrs ports update a log = request_and_await-is_ok _ _ log
  update_listener-is_ok nets cidrs ports delete a log = request_and_await-is_ok _ _ log

  run_action-is_ok :
      (lb : LoadBalancer) (spec : LbSpec) (nets : Subnets) (a : Action) (log : List Call)
      → is_ok ((run_action cloud lb spec nets a).run log).1 ≡ true
  unfolding run_action update_backend_set update_listener
  run_action-is_ok lb spec nets (on_backend_set a) log =
      is_ok-wrapping _ (update_backend_set-is_ok nets a.action_type a log)
  run_action-is_ok lb spec nets (on_listener a) log =
      is_ok-wrapping _ (
        update_listener-is_ok nets spec.source_cidrs (listener_ports lb spec a) a.action_type a log)

  run_actions-is_ok :
      (lb : LoadBalancer) (spec : LbSpec) (nets : Subnets) (as' : List Action) (log : List Call)
      → is_ok ((run_actions cloud lb spec nets as').run log).1 ≡ true
  unfolding run_actions
  run_actions-is_ok lb spec nets [] log = refl
  run_actions-is_ok lb spec nets (a ∷ as') log =
      is_ok-bind (run_action cloud lb spec nets a) (λ u. run_actions cloud lb spec nets as') log
        (run_action-is_ok lb spec nets a log) (λ u l. run_actions-is_ok lb spec nets as' l)

  when-is_ok :
      (b : Bool) (r : Run Call (Unit {0})) (log : List Call)
      → is_ok (r.run log).1 ≡ true
      → is_ok ((when cloud b r).run log).1 ≡ true
  when-is_ok true r log h = h
  when-is_ok false r log h = refl

  one_call-is_ok :
      (c : Call) (log : List Call)
      → is_ok ((wrapping (perform cloud c) >>= λ id. returns tt).run log).1 ≡ true
  one_call-is_ok c log =
      is_ok-bind (wrapping (perform cloud c)) (λ id. returns tt) log
        (is_ok-wrapping ((perform cloud c).run log) (answers log c)) (λ id l. refl)

  shape-is_ok :
      (lb : LoadBalancer) (spec : LbSpec) (log : List Call)
      → converts_from_flexible lb spec ≡ false
      → is_ok ((update_loadbalancer_shape cloud lb spec).run log).1 ≡ true
  unfolding update_loadbalancer_shape
  shape-is_ok lb spec log h = rw h (one_call-is_ok (shape_call spec) log)

  security_groups-is_ok :
      (spec : LbSpec) (log : List Call)
      → is_ok ((update_load_balancer_network_security_groups cloud spec).run log).1 ≡ true
  unfolding update_load_balancer_network_security_groups
  security_groups-is_ok spec log =
      one_call-is_ok (update_network_security_groups_call spec.network_security_group_ids) log

  update_in_subnets-is_ok :
      (lb : LoadBalancer) (spec : LbSpec) (nets : Subnets) (log : List Call)
      → converts_from_flexible lb spec ≡ false
      → is_ok ((update_in_subnets cloud lb spec nets).run log).1 ≡ true
  unfolding update_in_subnets
  update_in_subnets-is_ok lb spec nets log h =
      let shape =
        when cloud (has_loadbalancer_shape_changed spec lb)
          (update_loadbalancer_shape cloud lb spec) in
      let groups =
        when cloud
          (has_load_balancer_network_security_groups_changed lb.network_security_group_ids
            spec.network_security_group_ids)
          (update_load_balancer_network_security_groups cloud spec) in
      let actions = run_actions cloud lb spec nets (planned_actions lb spec) in
      is_ok-bind shape (λ u. groups >> actions) log
        (when-is_ok _ (update_loadbalancer_shape cloud lb spec) log (shape-is_ok lb spec log h))
        (λ u l.
          is_ok-bind groups (λ v. actions) l
            (when-is_ok _ (update_load_balancer_network_security_groups cloud spec) l
              (security_groups-is_ok spec l))
            (λ v l'. run_actions-is_ok lb spec nets (planned_actions lb spec) l'))

  with_subnets-is_ok :
      (lb : LoadBalancer) (spec : LbSpec) (r : Result Subnets) (log : List Call)
      → is_ok r ≡ true
      → converts_from_flexible lb spec ≡ false
      → is_ok (and_then_on (update_in_subnets cloud lb spec) (log, r)).1 ≡ true
  with_subnets-is_ok lb spec (ok nets) log h k = update_in_subnets-is_ok lb spec nets log k
  with_subnets-is_ok lb spec (err e) log h k = cc

  -- No error is returned where the cloud answers every call, the subnets can be read, the reserved
  -- address in use is the one asked for, none for none, and no flexible shape is to become another.
  pub update_load_balancer-is_ok :
      (net : Network) (lb : LoadBalancer) (spec : LbSpec) (log : List Call)
      → is_ok (read_subnets net spec) ≡ true
      → to_string (actual_public_reserved_ip lb.ip_addresses) ≡ spec.load_balancer_ip
      → converts_from_flexible lb spec ≡ false
      → is_ok ((update_load_balancer cloud net lb spec).run log).1 ≡ true
  unfolding update_load_balancer
  update_load_balancer-is_ok net lb spec log h r k = rw (reserved_ip_changed_lem lb spec) (
      rw r (
        rw (str_eq_refl spec.load_balancer_ip)
          (with_subnets-is_ok lb spec (read_subnets net spec) log h k)))

-- Where the reserved address in use is not the one asked for, none for none, the run is an error
-- and makes no call.
pub update_load_balancer_guards_reserved_ip :
    (cloud : Cloud Call) (net : Network) (lb : LoadBalancer) (spec : LbSpec) (log : List Call)
    → to_string (actual_public_reserved_ip lb.ip_addresses) ≢ spec.load_balancer_ip
    → (((update_load_balancer cloud net lb spec).run log).0 ≡ log)
      × (is_ok ((update_load_balancer cloud net lb spec).run log).1 ≡ false)
unfolding update_load_balancer
update_load_balancer_guards_reserved_ip cloud net lb spec log h =
    rw (reserved_ip_changed_lem lb spec) (rw (differ _ _ h) (refl, refl))
  where
    differ : (s t : Str) → s ≢ t → str_eq s t ≡ false
    differ s t h = ground (arith, str_eq_iff s t)
