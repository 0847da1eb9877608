-- ===== src/Manager/Tests.antt =====
-- Runs of the manager at small load balancers.
use oci_lb_ingress_controlle.Base.Maps.{lookup, keys}
use oci_lb_ingress_controlle.Base.Effects.{Cloud, is_ok}
use oci_lb_ingress_controlle.Base.Shows.{Shows}
use oci_lb_ingress_controlle.Provider.State.{LoadBalancer, LbSpec, actual_public_reserved_ip}
use oci_lb_ingress_controlle.Provider.Subnets.Tests.{cached_network}
use oci_lb_ingress_controlle.Manager.Model.{
  RoutingPolicy, OciLoadBalancer, IngressLbSpec, Request, World,
}
use oci_lb_ingress_controlle.Manager.Compare.{map_compare, drop_same}
use oci_lb_ingress_controlle.Manager.Update.{update_load_balancer, same_certificate}
use oci_lb_ingress_controlle.Manager.Update.Success.{manager_update-is_ok}
use oci_lb_ingress_controlle.LoadBalancer.Types.{to_string}
use oci_lb_ingress_controlle.Provider.Update.{read_subnets}
use oci_lb_ingress_controlle.Provider.Subnets.{get_subnets, get_subnets_for_nodes, gather_nodes}
use oci_lb_ingress_controlle.Manager.Model.{delete_load_balancer, get_load_balancer_by_name}
use oci_lb_ingress_controlle.Manager.Operations.{delete_ingress}
use oci_lb_ingress_controlle.Manager.Operations.Laws.{outcome, delete_ingress-outcome}
use oci_lb_ingress_controlle.LoadBalancer.Types.{ListenerDetails}
use oci_lb_ingress_controlle.LoadBalancer.Samples.{listener_details}
use oci_lb_ingress_controlle.Controller.Errors.{cause, is_not_found}
use oci_lb_ingress_controlle.Base.Sets.{of_list, intersection, sorted}
use oci_lb_ingress_controlle.Manager.Update.Plan.{own_request, update_plan}
use oci_lb_ingress_controlle.Manager.Update.Carried.{update_load_balancer-Shows}
use oci_lb_ingress_controlle.Manager.Update.Effect.{Held, after_requests}
use oci_lb_ingress_controlle.Manager.Update.Reach.{routing_policies-Reached}
use oci_lb_ingress_controlle.Base.{
  is_empty, filter, Str, pos, text, not_found, str_eq, ok, err, ◌≡◌, refl, Bool, true, false, List,
  none, some, [], ◌∷◌,
}

abbrev balancer : LoadBalancer
balancer = record {
  id = text "lb";
  ip_addresses =
      record { ip_address = some (text "129.0.0.1"); reserved_ip = false; is_public = true } ∷ [];
  shape_name = text "100Mbps";
  shape_details = none;
  network_security_group_ids = [];
  backend_sets = [];
  listeners = [];
}

abbrev base_spec : LbSpec
base_spec = record {
  shape = text "100Mbps";
  flex_min = none;
  flex_max = none;
  subnets = [];
  listeners = [];
  backend_sets = [];
  load_balancer_ip = [];
  ports = [];
  source_cidrs = [];
  network_security_group_ids = [];
  nodes = [];
}

abbrev policy : Str → Str → RoutingPolicy
policy name version = record { name = name; condition_language_version = version; rules = [] }

abbrev lb : OciLoadBalancer
lb = record {
  balancer = balancer;
  display_name = text "blue_web";
  lifecycle_state = text "ACTIVE";
  routing_policies =
      (text "a", policy (text "a") (text "V0")) ∷ (text "b", policy (text "b") (text "V1")) ∷ [];
  rule_sets = [];
  hostnames = [];
  certificates = [];
}

abbrev wanted : IngressLbSpec
wanted = record {
  spec = base_spec;
  name = text "blue_web";
  internal = false;
  tags = [];
  routing_policies =
      (text "a", policy (text "a") (text "V1")) ∷ (text "c", policy (text "c") (text "V1")) ∷ [];
  rule_sets = [];
  hostname_details = [];
  certificates = [];
}

abbrev world_of : Cloud Request → World
world_of cloud = record {
  cloud = cloud;
  load_balancer = λ log id. ok lb;
  load_balancer_by_name = λ log compartment name. ok lb;
  public_ip = λ log ip. ok (record { id = text "ip"; is_available = true });
  network = cached_network;
  compartment_id = text "compartment";
}

abbrev willing : World
willing = world_of (λ log request. ok (text "lb"))

abbrev refusing : World
refusing = world_of (λ log request. err not_found)

abbrev held : Held
held = record {
  routing_policies = lb.routing_policies;
  rule_sets = [];
  hostnames = [];
  certificates = [];
}

update_load_balancer-Shows_example :
    Shows own_request (update_plan lb wanted) [] ((update_load_balancer refusing lb wanted).run [])
update_load_balancer-Shows_example = update_load_balancer-Shows refusing lb wanted []

named_a : (p : RoutingPolicy) → some (policy (text "a") (text "V1")) ≡ some p → p.name ≡ text "a"
named_a p e = cc

can_read_subnets : is_ok (read_subnets cached_network base_spec) ≡ true
unfolding read_subnets get_subnets get_subnets_for_nodes gather_nodes of_list
can_read_subnets = refl

no_address : to_string (actual_public_reserved_ip balancer.ip_addresses) ≡ []
unfolding actual_public_reserved_ip
no_address = refl

no_clash :
    is_empty (map_compare (some same_certificate) wanted.certificates lb.certificates).intersection
    ≡ true
unfolding map_compare drop_same intersection sorted filter of_list keys
no_clash = refl

updated : is_ok ((update_load_balancer willing lb wanted).run []).1 ≡ true
unfolding str_eq
updated =
    manager_update-is_ok willing (λ log request. refl) lb wanted (λ log. lb) (λ log. refl)
      (λ log. (no_address, refl)) can_read_subnets no_clash []

manager_update-is_ok_example : is_ok ((update_load_balancer willing lb wanted).run []).1 ≡ true
unfolding str_eq
manager_update-is_ok_example =
    manager_update-is_ok willing (λ log request. refl) lb wanted (λ log. lb) (λ log. refl)
      (λ log. (no_address, refl)) can_read_subnets no_clash []

routing_policies-Reached_example :
    lookup
      (text "a")
      (after_requests ((update_load_balancer willing lb wanted).run []).0 held).routing_policies
    ≡ some (policy (text "a") (text "V1"))
unfolding lookup str_eq
routing_policies-Reached_example =
    routing_policies-Reached willing lb wanted held (text "a") named_a refl updated

abbrev deleted_already : Bool × List Request
deleted_already = (
  true,
  get_load_balancer_by_name (text "compartment") (text "blue_web")
      ∷ delete_load_balancer (text "lb")
      ∷ [],
)

-- The cloud answers that there is nothing to delete.
delete_ingress-outcome_example :
    outcome ((delete_ingress refusing (text "blue_web")).run []) ≡ deleted_already
unfolding is_not_found cause
delete_ingress-outcome_example = delete_ingress-outcome refusing (text "blue_web") []

abbrev failed_lb : OciLoadBalancer
failed_lb = record lb { lifecycle_state = text "FAILED" }

abbrev failed_world : World
failed_world = record willing { load_balancer_by_name = λ log compartment name. ok failed_lb }

abbrev with_policy : ListenerDetails
with_policy = record (listener_details (pos 80)) { routing_policy_name = some (text "p") }

abbrev as_created : ListenerDetails
as_created = record with_policy { routing_policy_name = none }

abbrev wanted_listener : IngressLbSpec
wanted_listener = record wanted {
  spec = record base_spec { listeners = (text "web", with_policy) ∷ [] };
}
