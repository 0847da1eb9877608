-- ===== src/Provider/Update.antt =====
-- CloudProvider.UpdateLoadBalancer, updateBackendSet, updateListener, updateLoadbalancerShape and
-- updateLoadBalancerNetworkSecurityGroups.
-- The calls that change anything go to the cloud; the security list manager's two are among them.
pub mod Plan
pub mod Success
pub mod Tests
use oci_lb_ingress_controlle.Base.Sets.{has, of_list}
use oci_lb_ingress_controlle.Base.Maps.{Map, lookup}
use oci_lb_ingress_controlle.Base.Effects.{
  Cloud, Run, returns, lift, wrapping, perform, ◌>>=◌, ◌>>◌,
}
use oci_lb_ingress_controlle.LoadBalancer.Types.{
  PortSpec, BackendSet, BackendSetDetails, Listener, ListenerDetails, to_string,
  ports_from_backend_set,
}
use oci_lb_ingress_controlle.LoadBalancer.BackendSets.{
  ActionType, create, update, delete, BackendSetAction, get_backend_set_changes,
}
use oci_lb_ingress_controlle.LoadBalancer.Listeners.{ListenerAction, get_listener_changes}
use oci_lb_ingress_controlle.LoadBalancer.Actions.{
  Action, on_backend_set, on_listener, sort_and_combine_actions,
}
use oci_lb_ingress_controlle.Provider.State.{
  IpAddress, ShapeDetails, LoadBalancer, LbSpec, Subnets, Call, security_lists_update_call,
  security_lists_delete_call, create_backend_set_call, update_backend_set_call,
  delete_backend_set_call, create_listener_call, update_listener_call, delete_listener_call,
  await_work_request_call, update_shape_call, update_network_security_groups_call,
  reserved_ip_changed, has_loadbalancer_shape_changed,
  has_load_balancer_network_security_groups_changed, flexible, converts_from_flexible,
}
use oci_lb_ingress_controlle.Provider.Subnets.{
  Subnet, Node, Network, get_subnets, get_subnets_for_nodes,
}
use oci_lb_ingress_controlle.Base.{
  if◌then◌else◌, pos, Str, text, str_eq, message, wrapped, service, Result, ok, err, Bool, Option,
  none, some, List, [], ◌∷◌, map,
}

unfoldable pub shape_call : LbSpec → Call
shape_call spec =
    update_shape_call spec.shape
      (if str_eq spec.shape flexible then some (spec.flex_min, spec.flex_max) else none)

-- The zero values of the maps' entries
abbrev no_ports : PortSpec
no_ports = record { listener_port = pos 0; backend_port = pos 0; health_checker_port = pos 0 }

abbrev no_backend_set : BackendSet
no_backend_set = record {
  name = [];
  policy = none;
  backends = [];
  health_checker = none;
  session_persistence = none;
  ssl_configuration = none;
}

abbrev or_zero {ℓ} : {A : Type ℓ} → A → Option A → A
or_zero default none = default
or_zero default (some a) = a

-- The ports of a listener's action: those of the load balancer's backend set where the listener
-- goes, those of the spec else, with the listener's own port.
unfoldable pub listener_ports : LoadBalancer → LbSpec → ListenerAction → PortSpec
listener_ports lb spec action =
    let name = action.listener.default_backend_set_name in
    let of_deleted =
      ports_from_backend_set (or_zero no_backend_set (lookup name lb.backend_sets)) in
    let of_spec = or_zero no_ports (lookup name spec.ports) in
    let by_type : PortSpec = elim action.action_type [
      | create ↦ of_spec
      | update ↦ of_spec
      | delete ↦ of_deleted
    ] in
    record by_type { listener_port = action.listener.port }

unfoldable pub read_subnets : Network → LbSpec → Result Subnets
read_subnets net spec = elim (get_subnets net spec.subnets) [
  | err e ↦ err (wrapped e)
  | ok lb_subnets ↦ elim (get_subnets_for_nodes net spec.nodes) [
    | err e ↦ err (wrapped e)
    | ok node_subnets ↦ ok (record { lb_subnets = lb_subnets; node_subnets = node_subnets })
  ]
]

unfoldable pub planned_actions : LoadBalancer → LbSpec → List Action
planned_actions lb spec =
    sort_and_combine_actions
      (map on_backend_set (get_backend_set_changes lb.backend_sets spec.backend_sets))
      (map on_listener (get_listener_changes lb.listeners spec.listeners))

module _ (cloud : Cloud Call) where
  unfoldable pub update_loadbalancer_shape : LoadBalancer → LbSpec → Run Call (Unit {0})
  update_loadbalancer_shape lb spec =
      if converts_from_flexible lb spec
      then lift (err (message (text "cannot convert LB shape from flexible to fixed shape")))
      else do opc_request_id ← wrapping (perform cloud (shape_call spec)); returns tt

  unfoldable pub update_load_balancer_network_security_groups : LbSpec → Run Call (Unit {0})
  update_load_balancer_network_security_groups spec = do
    opc_request_id ←
        wrapping
          (perform cloud (update_network_security_groups_call spec.network_security_group_ids))
    returns tt

  -- The three requests of an action: the security lists, the load balancer, and the wait.
  unfoldable pub request_and_await : Call → Call → Run Call (Unit {0})
  request_and_await security_lists request = do
    done ← perform cloud security_lists
    work_request_id ← perform cloud request
    awaited ← perform cloud (await_work_request_call work_request_id)
    returns tt

  abbrev pub update_backend_set_as : ActionType → Subnets → BackendSetAction → Run Call (Unit {0})
  update_backend_set_as create nets a =
      request_and_await (security_lists_update_call nets [] none a.ports)
        (create_backend_set_call a.name a.backend_set)
  update_backend_set_as update nets a =
      request_and_await (security_lists_update_call nets [] a.old_ports a.ports)
        (update_backend_set_call a.name a.backend_set)
  update_backend_set_as delete nets a =
      request_and_await (security_lists_delete_call nets a.ports) (delete_backend_set_call a.name)

  unfoldable pub update_backend_set : Subnets → BackendSetAction → Run Call (Unit {0})
  update_backend_set nets a = update_backend_set_as a.action_type nets a

  abbrev pub update_listener_as :
      ActionType → Subnets → List Str → PortSpec → ListenerAction → Run Call (Unit {0})
  update_listener_as create nets cidrs ports a =
      request_and_await (security_lists_update_call nets cidrs none ports)
        (create_listener_call a.name a.listener)
  update_listener_as update nets cidrs ports a =
      request_and_await (security_lists_update_call nets cidrs none ports)
        (update_listener_call a.name a.listener)
  update_listener_as delete nets cidrs ports a =
      request_and_await (security_lists_delete_call nets ports) (delete_listener_call a.name)

  unfoldable pub update_listener :
      Subnets → List Str → PortSpec → ListenerAction → Run Call (Unit {0})
  update_listener nets cidrs ports a = update_listener_as a.action_type nets cidrs ports a

  unfoldable pub run_action : LoadBalancer → LbSpec → Subnets → Action → Run Call (Unit {0})
  run_action lb spec nets (on_backend_set a) = wrapping (update_backend_set nets a)
  run_action lb spec nets (on_listener a) =
      wrapping (update_listener nets spec.source_cidrs (listener_ports lb spec a) a)

  unfoldable pub run_actions : LoadBalancer → LbSpec → Subnets → List Action → Run Call (Unit {0})
  run_actions lb spec nets [] = returns tt
  run_actions lb spec nets (a ∷ as') = run_action lb spec nets a >> run_actions lb spec nets as'

  abbrev pub when : Bool → Run Call (Unit {0}) → Run Call (Unit {0})
  when b r = if b then r else returns tt

  -- What follows when the subnets are known.
  unfoldable pub update_in_subnets : LoadBalancer → LbSpec → Subnets → Run Call (Unit {0})
  update_in_subnets lb spec nets = do
    when (has_loadbalancer_shape_changed spec lb) (update_loadbalancer_shape lb spec)
    when
        (has_load_balancer_network_security_groups_changed lb.network_security_group_ids
          spec.network_security_group_ids)
        (update_load_balancer_network_security_groups spec)
    run_actions lb spec nets (planned_actions lb spec)

  unfoldable pub update_load_balancer : Network → LoadBalancer → LbSpec → Run Call (Unit {0})
  update_load_balancer net lb spec =
      if reserved_ip_changed lb spec
      then lift (
          err (
            message (
              text
                "The Load Balancer service reserved IP cannot be updated after the Load Balancer is created.")))
      else lift (read_subnets net spec) >>= update_in_subnets lb spec
