-- ===== src/Manager/Operations.antt =====
-- The manager's DeleteIngress, UpdateOrCreateIngress, createLoadBalancer and updateIngressStatus.
-- The lock of UpdateOrCreateIngress makes each call one run; the specification that is derived from
-- the ingress is an argument.
pub mod Laws
use oci_lb_ingress_controlle.Base.Maps.{Map}
use oci_lb_ingress_controlle.Base.Effects.{
  Run, returns, lift, wrapping, perform, reads, ◌>>=◌, ◌>>◌,
}
use oci_lb_ingress_controlle.LoadBalancer.Types.{ListenerDetails}
use oci_lb_ingress_controlle.Provider.State.{IpAddress, flexible}
use oci_lb_ingress_controlle.Controller.Errors.{cause, is_not_found}
use oci_lb_ingress_controlle.Manager.Model.{
  OciLoadBalancer, IngressLbSpec, CreateDetails, Request, create_load_balancer,
  delete_load_balancer, get_load_balancer_by_name, get_public_ip_by_ip_address, await_work_request,
  update_ingress_status, PublicIp, World, panics,
}
use oci_lb_ingress_controlle.Manager.Update.{read_load_balancer, update_load_balancer}
use oci_lb_ingress_controlle.Base.{
  if◌then◌else◌, is_empty, Str, text, str_eq, Error, message, wrapped, service, not_found, Result,
  ok, err, wrap, Bool, true, false, Option, none, some, List, [], ◌∷◌, ◌++◌,
}

-- `errors.Cause(err).Error() == "not found"`
abbrev pub says_not_found : Error → Bool
says_not_found (message m) = str_eq m (text "not found")
says_not_found not_found = true
says_not_found _ = false

abbrev pub absent_or : Result OciLoadBalancer → Result (Option OciLoadBalancer)
absent_or (ok lb) = ok (some lb)
absent_or (err e) = if says_not_found (cause e) then ok none else err e

abbrev pub available : Result PublicIp → Result Str
available (err e) = err e
available (ok ip) =
    if ip.is_available
    then ok ip.id
    else err (message (text "The IP address provided is not available for use."))

-- The listeners as they are created, with no routing policy.
unfoldable pub without_routing_policies : Map ListenerDetails → Map ListenerDetails
without_routing_policies [] = []
without_routing_policies ((name, l) ∷ m) =
    (name, record l { routing_policy_name = none }) ∷ without_routing_policies m

unfoldable pub create_details : Str → IngressLbSpec → List Str → CreateDetails
create_details compartment_id spec reserved_ips = record {
  compartment_id = compartment_id;
  display_name = spec.name;
  shape_name = spec.spec.shape;
  shape_details =
      if str_eq spec.spec.shape flexible
      then some (spec.spec.flex_min, spec.spec.flex_max)
      else none;
  is_private = spec.internal;
  subnet_ids = spec.spec.subnets;
  listeners = without_routing_policies spec.spec.listeners;
  backend_sets = spec.spec.backend_sets;
  hostnames = spec.hostname_details;
  certificates = spec.certificates;
  network_security_group_ids = spec.spec.network_security_group_ids;
  freeform_tags = spec.tags;
  rule_sets = spec.rule_sets;
  reserved_ips = reserved_ips;
}

-- What became of the request to delete a load balancer: one that is gone already is well deleted.
abbrev pub deletion_answered : Result Str → Result (Option Str)
deletion_answered (ok work_request_id) = ok (some work_request_id)
deletion_answered (err e) = if is_not_found e then ok none else err (wrapped e)

abbrev first_ip : List IpAddress → Option Str
first_ip [] = none
first_ip (ip ∷ ips) = ip.ip_address

abbrev status_error : Result Str → Result (Unit {0})
status_error (ok s) = ok tt
status_error (err e) = err (message (text "could not update Ingres status"))

module _ (world : World) where
  unfoldable pub try_get_load_balancer : Str → Run Request (Option OciLoadBalancer)
  try_get_load_balancer name =
      reads (λ log. absent_or (world.load_balancer_by_name log world.compartment_id name))
        (get_load_balancer_by_name world.compartment_id name)

  abbrev pub await_deletion : Option Str → Run Request (Unit {0})
  await_deletion none = returns tt
  await_deletion (some work_request_id) = do
    awaited ← wrapping (perform world.cloud (await_work_request work_request_id))
    returns tt

  abbrev pub delete_existing : Option OciLoadBalancer → Run Request (Unit {0})
  delete_existing none = returns tt
  delete_existing (some lb) = do
    work_request_id ←
        reads (λ log. deletion_answered (world.cloud log (delete_load_balancer lb.balancer.id)))
          (delete_load_balancer lb.balancer.id)
    await_deletion work_request_id

  -- DeleteIngress, by the load balancer's name
  unfoldable pub delete_ingress : Str → Run Request (Unit {0})
  delete_ingress name = try_get_load_balancer name >>= delete_existing

  abbrev pub reserved_ips : Str → Run Request (List Str)
  reserved_ips ip = if is_empty ip then returns [] else do
    id ← reads (λ log. available (world.public_ip log ip)) (get_public_ip_by_ip_address ip)
    returns (id ∷ [])

  unfoldable pub create_by_manager : IngressLbSpec → Run Request OciLoadBalancer
  create_by_manager spec = do
    ips ← reserved_ips spec.spec.load_balancer_ip
    work_request_id ←
        perform world.cloud (create_load_balancer (create_details world.compartment_id spec ips))
    lb_id ← wrapping (perform world.cloud (await_work_request work_request_id))
    wrapping (read_load_balancer world lb_id)

  abbrev pub send_status : Option Str → Run Request (Unit {0})
  send_status none = lift (err (message (text "could not update Ingres status: No IP found")))
  send_status (some ip) =
      reads (λ log. status_error (world.cloud log (update_ingress_status ip)))
        (update_ingress_status ip)

  -- updateIngressStatus; the nil load balancer is dereferenced.
  abbrev pub update_status : Option OciLoadBalancer → Run Request (Unit {0})
  update_status none = lift (err (panics (text "nil pointer dereference")))
  update_status (some lb) = send_status (first_ip lb.balancer.ip_addresses)

  abbrev pub create_and_update : IngressLbSpec → Run Request (Option OciLoadBalancer)
  create_and_update spec = do
    lb ← wrapping (create_by_manager spec)
    wrapping (update_load_balancer world lb spec)

  abbrev pub update_existing :
      OciLoadBalancer → IngressLbSpec → Run Request (Option OciLoadBalancer)
  update_existing lb spec =
      if str_eq lb.lifecycle_state (text "FAILED")
      then lift (err (message (text "Lb is in FAILED state. Cant update. Need to delete manually")))
      else if str_eq lb.lifecycle_state (text "DELETING")
      then lift (err (message (text "Lb is being deleted. Cant update it")))
      else wrapping (update_load_balancer world lb spec)

  abbrev pub create_or_update :
      Option OciLoadBalancer → IngressLbSpec → Run Request (Option OciLoadBalancer)
  create_or_update none spec = create_and_update spec
  create_or_update (some lb) spec = update_existing lb spec

  unfoldable pub update_or_create_ingress : Result IngressLbSpec → Str → Run Request (Unit {0})
  update_or_create_ingress derived name = do
    spec ← lift (wrap derived)
    lb ← try_get_load_balancer name
    updated ← create_or_update lb spec
    wrapping (update_status updated)
