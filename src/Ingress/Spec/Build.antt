-- ===== src/Ingress/Spec/Build.antt =====
-- NewIngressLBSpec: the rules of the ingress, its default backend, the redirection to HTTPS, and the
-- specification that they give.
use oci_lb_ingress_controlle.Base.Maps.{Map, lookup, put, keys}
use oci_lb_ingress_controlle.Base.Sets.{of_list, sorted}
use oci_lb_ingress_controlle.Ingress.Backends.{
  ServiceObject, get_backend_sets, is_internal_lb, get_load_balancer_ip,
}
use oci_lb_ingress_controlle.Ingress.Listeners.{
  dummy_backend_set_name, https_redirector, create_listener_details, https_redirection,
  https_redirect_rule_set, https_redirect_listener, create_default_backend_listener_details,
  create_sans_virtual_host_listener_details,
}
use oci_lb_ingress_controlle.Ingress.Names.{get_routing_policy_name, get_load_balancer_name}
use oci_lb_ingress_controlle.Ingress.Routing.{
  IngressPath, create_default_backend_routing_rule, create_routing_rule,
}
use oci_lb_ingress_controlle.Ingress.Shape.{get_lb_shape, get_load_balancer_policy}
use oci_lb_ingress_controlle.Ingress.Spec.Draft.{
  IngressTls, IngressRule, IngressObject, Surroundings, Draft, empty_draft, hosts_with_tls,
  forces_https, policy_named, rules_before, add_rule, append_to_all, dummy_backend_set, put_all,
  nodes_for_service, flex_min, flex_max, get_or_create_hostname_details,
  get_or_create_ssl_config_details, process_backend_spec,
}
use oci_lb_ingress_controlle.Ingress.SubnetIds.{get_load_balancer_subnet_ids}
use oci_lb_ingress_controlle.LoadBalancer.Types.{
  BackendSetDetails, ListenerDetails, SslConfigurationDetails,
}
use oci_lb_ingress_controlle.Manager.Model.{RoutingRule, IngressLbSpec, panics}
use oci_lb_ingress_controlle.Provider.Subnets.{Node}
use oci_lb_ingress_controlle.Base.{
  if◌then◌else◌, ℤ, is_empty, Str, text, wrap, Result, ok, err, ◌>>=◌, Bool, not, ◌&&◌, Option,
  none, some, List, [], ◌∷◌, ◌++◌,
}

module _ (around : Surroundings) (ing : IngressObject) where
  unfoldable pub ssl_for :
      Map IngressTls → Str → Draft → Result (Option SslConfigurationDetails × Draft)
  ssl_for tls host draft = elim (lookup host tls) [
    | none ↦ ok (none, draft)
    | some entry ↦ wrap (get_or_create_ssl_config_details around ing host entry.secret_name draft)
  ]

  -- A policy of the same name is merged; a listener of the same name is replaced.
  unfoldable pub with_listener : Str → Str → ListenerDetails → List RoutingRule → Draft → Draft
  with_listener policy_name name listener rules draft = record draft {
    policies =
        put policy_name
          (policy_named policy_name (rules_before (lookup policy_name draft.policies) ++ rules))
          draft.policies;
    listeners =
        put name (record listener { routing_policy_name = some policy_name }) draft.listeners;
  }

  -- A rule with no HTTP section is dereferenced.
  abbrev pub paths_of : Option (List IngressPath) → Result (List IngressPath)
  paths_of none = err (panics (text "invalid memory address or nil pointer dereference"))
  paths_of (some paths) = ok paths

  module _ (nodes : List Node) where
    -- The loop over the paths of a rule
    unfoldable pub process_paths :
        Str → List IngressPath → List RoutingRule → Draft → Result (List RoutingRule × Draft)
    process_paths host [] rules draft = ok (rules, draft)
    process_paths host (p ∷ paths) rules draft = do
      (backend_set, next) ← process_backend_spec around ing nodes p.backend draft
      rule ←
          wrap (
            create_routing_rule around.url_parse around.base64_md5 around.encode p backend_set host)
      process_paths host paths (add_rule rules rule) next

    unfoldable pub process_rule : Map IngressTls → IngressRule → Draft → Result Draft
    process_rule tls rule draft = do
      paths ← paths_of rule.http
      (rules, with_rules) ← process_paths rule.host paths [] draft
      (ssl, with_ssl) ← ssl_for tls rule.host with_rules
      (hostname, with_hostname) ← get_or_create_hostname_details around ing rule.host with_ssl
      (name, listener) ← create_listener_details around.base64_md5 hostname ssl
      policy_name ← get_routing_policy_name around.base64_md5 rule.host
      ok (with_listener policy_name name listener rules with_hostname)

    unfoldable pub process_rules : Map IngressTls → List IngressRule → Draft → Result Draft
    process_rules tls [] draft = ok draft
    process_rules tls (rule ∷ rules) draft = do
      next ← process_rule tls rule draft
      process_rules tls rules next

    -- The default backend, or the listener that takes its place
    unfoldable pub with_default_backend : Draft → Result Draft
    with_default_backend draft = elim ing.default_backend [
      | none ↦
          let (name, listener) = create_sans_virtual_host_listener_details in
          ok (record draft { listeners = put name listener draft.listeners })
      | some backend ↦ do
        (backend_set, next) ← process_backend_spec around ing nodes backend draft
        let (name, listener) = create_default_backend_listener_details backend_set
        ok (record next {
          listeners = put name listener next.listeners;
          policies = append_to_all (create_default_backend_routing_rule backend_set) next.policies;
        })
    ]

  unfoldable pub with_redirection : Map IngressTls → Draft → Draft
  with_redirection tls draft =
      if not (is_empty tls)
        && forces_https around.force_https_redirection_by_default ing.annotations
      then record draft {
        rule_sets = put https_redirection https_redirect_rule_set draft.rule_sets;
        listeners =
            put https_redirector (https_redirect_listener (sorted (of_list (keys tls))))
              draft.listeners;
      }
      else draft

  -- The loop over the services: `sslConfig` is nil.
  unfoldable pub service_backend_sets :
      Str
      → Map (Map Node)
      → Map ServiceObject
      → Map BackendSetDetails
      → Result (Map BackendSetDetails)
  service_backend_sets policy service_nodes [] sets = ok sets
  service_backend_sets policy service_nodes ((name, svc) ∷ services) sets = do
    made ←
        get_backend_sets around.base64_md5 svc (nodes_for_service service_nodes svc.name) none
          policy
    service_backend_sets policy service_nodes services (put_all made sets)

  unfoldable pub setup_backend_sets_for_spec : Draft → Result (Map BackendSetDetails)
  setup_backend_sets_for_spec draft = do
    policy ← get_load_balancer_policy ing.annotations
    sets ← service_backend_sets policy draft.service_nodes draft.services []
    ok (put dummy_backend_set_name (dummy_backend_set policy) sets)

  abbrev tags_of : Map Str
  tags_of =
      (text "IngressName", ing.name)
      ∷ (text "IngressNamespace", ing.namespace)
      ∷ (text "IngressUID", ing.uid)
      ∷ []

  unfoldable pub spec_of :
      Bool → Str × Option (ℤ × ℤ) → List Str → Str → Draft → Map BackendSetDetails → IngressLbSpec
  spec_of internal shape subnets ip draft sets = record {
    spec = record {
      shape = shape.0;
      flex_min = flex_min shape.1;
      flex_max = flex_max shape.1;
      subnets = subnets;
      listeners = draft.listeners;
      backend_sets = sets;
      load_balancer_ip = ip;
      ports = [];
      source_cidrs = [];
      network_security_group_ids = [];
      nodes = [];
    };
    name = get_load_balancer_name around.name_prefix ing.namespace ing.name;
    internal = internal;
    tags = tags_of;
    routing_policies = draft.policies;
    rule_sets = draft.rule_sets;
    hostname_details = draft.hostnames;
    certificates = draft.certificates;
  }

  -- What the ingress alone and the services give
  unfoldable pub draft_of : List Node → Result Draft
  draft_of nodes = do
    let tls = hosts_with_tls ing.tls []
    with_rules ← process_rules nodes tls ing.rules empty_draft
    with_default ← with_default_backend nodes with_rules
    ok (with_redirection tls with_default)

  unfoldable pub new_ingress_lb_spec : Result IngressLbSpec
  new_ingress_lb_spec = do
    internal ← is_internal_lb ing.annotations
    shape ← get_lb_shape around.shape_defaults ing.annotations
    nodes ← wrap around.list_nodes
    draft ← draft_of nodes
    subnets ← get_load_balancer_subnet_ids around.subnet_config around.discovery ing.annotations
    ip ← get_load_balancer_ip around.parses_ip ing.annotations
    sets ← setup_backend_sets_for_spec draft
    ok (spec_of internal shape subnets ip draft sets)
