-- ===== src/Provider/Update/Tests.antt =====
-- Runs of UpdateLoadBalancer at a small load balancer and specification.
use oci_lb_ingress_controlle.Base.Sets.{of_list}
use oci_lb_ingress_controlle.Base.Effects.{Cloud, Follows, is_ok}
use oci_lb_ingress_controlle.LoadBalancer.Samples.{
  backend_set, backend_set_details, listener, listener_details,
}
use oci_lb_ingress_controlle.Provider.Subnets.{get_subnets, get_subnets_for_nodes, gather_nodes}
use oci_lb_ingress_controlle.Provider.Subnets.Tests.{cached_network}
use oci_lb_ingress_controlle.Provider.State.{LoadBalancer, LbSpec, Call, actual_public_reserved_ip}
use oci_lb_ingress_controlle.Provider.Update.{read_subnets, update_load_balancer}
use oci_lb_ingress_controlle.Provider.Update.Plan.{
  any_work_request, update_calls, update_load_balancer-Follows,
}
use oci_lb_ingress_controlle.Provider.Update.Success.{
  update_load_balancer-is_ok, update_load_balancer_guards_reserved_ip,
}
use oci_lb_ingress_controlle.Base.{
  pos, Str, text, str_eq, not_found, ok, err, ◌≡◌, refl, true, false, none, some, [], ◌∷◌,
}

-- A cloud that answers every call, and one that refuses every call.
abbrev willing : Cloud Call
willing log c = ok (text "request")

abbrev refusing : Cloud Call
refusing log c = err not_found

abbrev lb : LoadBalancer
lb = record {
  id = text "lb";
  ip_addresses =
      record { ip_address = some (text "129.0.0.1"); reserved_ip = true; is_public = true } ∷ [];
  shape_name = text "flexible";
  shape_details = none;
  network_security_group_ids = [];
  backend_sets = (text "a", backend_set "a") ∷ [];
  listeners = (text "web", listener (pos 80)) ∷ [];
}

abbrev spec_at : Str → LbSpec
spec_at ip = record {
  shape = text "flexible";
  flex_min = some (pos 10);
  flex_max = some (pos 100);
  subnets = text "subnet" ∷ [];
  listeners = (text "web", listener_details (pos 443)) ∷ [];
  backend_sets = (text "b", backend_set_details (pos 80)) ∷ [];
  load_balancer_ip = ip;
  ports = [];
  source_cidrs = text "0.0.0.0/0" ∷ [];
  network_security_group_ids = text "group" ∷ [];
  nodes = [];
}

abbrev spec : LbSpec
spec = spec_at (text "129.0.0.1")

update_load_balancer-Follows_example :
    Follows any_work_request
      (update_calls cached_network lb spec)
      []
      ((update_load_balancer refusing cached_network lb spec).run [])
update_load_balancer-Follows_example =
    update_load_balancer-Follows refusing cached_network lb spec []

can_read_subnets : is_ok (read_subnets cached_network spec) ≡ true
unfolding read_subnets get_subnets get_subnets_for_nodes gather_nodes of_list
can_read_subnets = refl

update_load_balancer-is_ok_example :
    is_ok ((update_load_balancer willing cached_network lb spec).run []).1 ≡ true
unfolding actual_public_reserved_ip str_eq
update_load_balancer-is_ok_example =
    update_load_balancer-is_ok willing (λ log c. refl) cached_network lb spec [] can_read_subnets
      refl refl

update_load_balancer_guards_reserved_ip_example :
    (((update_load_balancer willing cached_network lb (spec_at [])).run []).0 ≡ [])
    × (is_ok ((update_load_balancer willing cached_network lb (spec_at [])).run []).1 ≡ false)
unfolding actual_public_reserved_ip
update_load_balancer_guards_reserved_ip_example =
    update_load_balancer_guards_reserved_ip willing cached_network lb (spec_at []) [] (λ h. cc)
