-- ===== src/Ingress/Spec/Tests.antt =====
-- A run of NewIngressLBSpec.
use oci_lb_ingress_controlle.Base.Maps.{lookup, has_key, put, keys}
use oci_lb_ingress_controlle.Ingress.Annotations.{get_annotation}
use oci_lb_ingress_controlle.Ingress.Backends.{
  ServiceObject, get_backends, get_health_checker, get_ssl_configuration, is_internal_lb,
  get_load_balancer_ip, backend_set_name_of, get_backend_set_name, backend_set_details_of,
  backend_sets_from, get_backend_sets,
}
use oci_lb_ingress_controlle.Ingress.Listeners.{
  listener_for, create_listener_details, create_default_backend_listener_details,
}
use oci_lb_ingress_controlle.Ingress.Names.{
  safe_slice, replace_byte, replace_pair, trim_right_byte, name_prefix, get_load_balancer_name,
  is_routing_policy_name, policy_base, is_listener_name, listener_base, gen, letter_first, extend,
  byte_alpha_numeric_digest, get_routing_policy_name, get_hostname_name, get_listener_name,
}
use oci_lb_ingress_controlle.Ingress.Routing.{
  create_default_backend_routing_rule, path_test, host_header_match, create_hostname_condition,
  combined, host_conditions, path_conditions, create_routing_rule,
}
use oci_lb_ingress_controlle.Ingress.Shape.{
  atoi, flex_limits, get_lb_shape, get_load_balancer_policy,
}
use oci_lb_ingress_controlle.Ingress.SubnetIds.{
  config_subnet_ids, annotated_subnet_ids, get_load_balancer_subnet_ids,
}
use oci_lb_ingress_controlle.Ingress.Tls.{
  certificates_from, parse_certificates_from_pem, bundle_from, get_certificate_bundle, unique_id,
}
use oci_lb_ingress_controlle.Ingress.Spec.Draft.{
  hosts_with_tls, nodes_by_name, find_node_port, forces_https, add_rule, append_to_all, put_all,
  nodes_for_service, get_or_create_hostname_details, get_or_create_ssl_config_details, find_service,
  backend_of_service, process_backend_spec,
}
use oci_lb_ingress_controlle.Ingress.Spec.Build.{
  process_paths, ssl_for, with_listener, process_rule, process_rules, with_default_backend,
  with_redirection, service_backend_sets, setup_backend_sets_for_spec, spec_of, draft_of,
  new_ingress_lb_spec,
}
use oci_lb_ingress_controlle.Controller.Handlers.{as_namespaced_name}
use oci_lb_ingress_controlle.Provider.Subnets.{first_internal, node_internal_ip_of}
use oci_lb_ingress_controlle.SecurityLists.Services.{
  get_service_health_check_path_port, lb_nodes_health_check_port,
}
use oci_lb_ingress_controlle.Ingress.Spec.Samples.{
  shop, cluster, empty_spec, web_backend, example_rule, root_path,
}
use oci_lb_ingress_controlle.Ingress.Spec.Closed.{
  IsListenerClosed, listener_is_closed, IsPolicyClosed, policy_is_closed,
}
use oci_lb_ingress_controlle.Ingress.Spec.Last.{default_backend_is_last}
use oci_lb_ingress_controlle.Ingress.Spec.Routed.{IsRouted, path-IsRouted}
use oci_lb_ingress_controlle.LoadBalancer.Types.{ListenerDetails}
use oci_lb_ingress_controlle.Ingress.Spec.Created.{
  IsSelfContained, created_listener-IsSelfContained,
}
use oci_lb_ingress_controlle.Manager.Operations.{create_details}
use oci_lb_ingress_controlle.Manager.Operations.Laws.{
  without_policy, lookup-without_routing_policies,
}
use oci_lb_ingress_controlle.Manager.Model.{IngressLbSpec, RoutingPolicy, RoutingRule}
use oci_lb_ingress_controlle.Base.{
  str_eq, to_lower, lower_byte, has_prefix, contains_byte, trim_space, trim_left, trim_right,
  is_space, filter, any, all, join, itoa, split_at, Str, text, Result, ok, err, Option, none, some,
  ◌≡◌, refl, sym, ap, ◌∙◌, inl, true, List, [], ◌∷◌, ◌++◌,
}

abbrev made_of : Result IngressLbSpec → IngressLbSpec
made_of (ok s) = s
made_of (err e) = empty_spec

abbrev shop_spec : IngressLbSpec
shop_spec = made_of (new_ingress_lb_spec cluster shop)

abbrev listener_in : Option ListenerDetails → ListenerDetails
listener_in (some l) = l
listener_in none = listener_for none none

abbrev policy_in : Option RoutingPolicy → RoutingPolicy
policy_in (some p) = p
policy_in none = record { name = []; condition_language_version = []; rules = [] }

abbrev shop_listener : ListenerDetails
shop_listener = listener_in (lookup (text "exampleDOTcom") shop_spec.spec.listeners)

abbrev policy_name : Str
policy_name = text "example_com_Zm9vYmFyYmF6cXV4MTIz"

abbrev shop_policy : RoutingPolicy
shop_policy = policy_in (lookup policy_name shop_spec.routing_policies)

shop_run :
    (new_ingress_lb_spec cluster shop ≡ ok shop_spec)
    × (lookup (text "exampleDOTcom") shop_spec.spec.listeners ≡ some shop_listener)
    × (lookup policy_name shop_spec.routing_policies ≡ some shop_policy)
unfolding lookup put keys get_annotation get_backends get_health_checker get_ssl_configuration
    is_internal_lb get_load_balancer_ip backend_set_name_of get_backend_set_name
    backend_set_details_of backend_sets_from get_backend_sets listener_for create_listener_details
    create_default_backend_listener_details safe_slice replace_byte replace_pair trim_right_byte
    name_prefix get_load_balancer_name is_routing_policy_name policy_base is_listener_name
    listener_base gen letter_first extend byte_alpha_numeric_digest get_routing_policy_name
    get_hostname_name get_listener_name create_default_backend_routing_rule path_test
    host_header_match create_hostname_condition combined host_conditions path_conditions
    create_routing_rule atoi flex_limits get_lb_shape get_load_balancer_policy config_subnet_ids
    annotated_subnet_ids get_load_balancer_subnet_ids certificates_from parse_certificates_from_pem
    bundle_from get_certificate_bundle unique_id hosts_with_tls nodes_by_name find_node_port
    forces_https add_rule append_to_all put_all nodes_for_service get_or_create_hostname_details
    get_or_create_ssl_config_details find_service backend_of_service process_backend_spec
    process_paths ssl_for with_listener process_rule process_rules with_default_backend
    with_redirection service_backend_sets setup_backend_sets_for_spec spec_of draft_of
    new_ingress_lb_spec as_namespaced_name first_internal node_internal_ip_of
    get_service_health_check_path_port lb_nodes_health_check_port str_eq to_lower lower_byte
    has_prefix contains_byte trim_space trim_left trim_right is_space filter any all join itoa
    split_at
shop_run = (refl, refl, refl)

as_asked :
    (ns name : Str) (svc : ServiceObject) → cluster.get_service ns name ≡ ok svc → svc.name ≡ name
as_asked ns name svc e = sym (ap name_of e)
  where
    name_of : Result ServiceObject → Str
    name_of (ok svc) = svc.name
    name_of (err p) = []

listener_is_closed_example : IsListenerClosed shop_spec (text "exampleDOTcom") shop_listener
listener_is_closed_example =
    listener_is_closed cluster shop as_asked shop_spec (text "exampleDOTcom") shop_listener
      shop_run.0 shop_run.1

policy_is_closed_example : IsPolicyClosed shop_spec shop_policy
policy_is_closed_example =
    policy_is_closed cluster shop as_asked shop_spec policy_name shop_policy shop_run.0 shop_run.2

default_backend_is_last_example :
    (backend_set : Str) × (rules : List RoutingRule) × (shop_policy.rules
      ≡ rules ++ (create_default_backend_routing_rule backend_set ∷ []))
    × (has_key backend_set shop_spec.spec.backend_sets ≡ true)
default_backend_is_last_example =
    default_backend_is_last cluster shop as_asked shop_spec web_backend policy_name shop_policy
      shop_run.0 refl shop_run.2

path-IsRouted_example :
    IsRouted cluster shop as_asked shop_spec.routing_policies example_rule root_path
path-IsRouted_example =
    path-IsRouted cluster shop as_asked shop_spec example_rule (root_path ∷ []) root_path shop_run.0
      (inl refl) refl (inl refl)

abbrev created_listener : ListenerDetails
created_listener = record shop_listener { routing_policy_name = none }

created_listener-IsSelfContained_example :
    IsSelfContained
      (create_details (text "compartment") shop_spec [])
      (text "exampleDOTcom")
      created_listener
unfolding create_details
created_listener-IsSelfContained_example =
    created_listener-IsSelfContained cluster shop as_asked shop_spec (text "compartment") []
      (text "exampleDOTcom") created_listener shop_run.0
      (lookup-without_routing_policies (text "exampleDOTcom") shop_spec.spec.listeners
        ∙ ap without_policy shop_run.1)
