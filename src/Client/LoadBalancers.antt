-- ===== src/Client/LoadBalancers.antt =====
-- loadbalancer.go and loadbalancer_extra.go: one request for each call.
use oci_lb_ingress_controlle.Base.Effects.{Run, lift, ◌>>=◌}
use oci_lb_ingress_controlle.Client.Sdk.{
  CreateListenerDetails, UpdateListenerDetails, SdkRequest, create_load_balancer_request,
  get_load_balancer_request, delete_load_balancer_request, list_certificates_request,
  get_work_request_request, create_certificate_request, create_backend_set_request,
  update_backend_set_request, create_listener_request, update_listener_request,
  update_load_balancer_shape_request, update_network_security_groups_request,
  create_routing_policy_request, update_routing_policy_request, create_rule_set_request,
  update_rule_set_request, create_hostname_request, delete_backend_set_request,
  delete_listener_request, delete_routing_policy_request, delete_rule_set_request,
  delete_hostname_request, delete_certificate_request, WorkRequest, Sdk, read, write,
}
use oci_lb_ingress_controlle.LoadBalancer.Types.{BackendSetDetails, ListenerDetails}
use oci_lb_ingress_controlle.Manager.Model.{
  RoutingPolicy, RuleSet, HostnameDetails, Certificate, CertificateDetails, OciLoadBalancer,
  CreateDetails,
}
use oci_lb_ingress_controlle.Base.{
  if◌then◌else◌, ℤ, Str, str_eq, not_found, with_stack, Result, ok, err, Option, List, [], ◌∷◌,
}

unfoldable pub create_listener_details_of : Str → ListenerDetails → CreateListenerDetails
create_listener_details_of name l = record {
  name = name;
  default_backend_set_name = l.default_backend_set_name;
  port = l.port;
  protocol = l.protocol;
  ssl_configuration = l.ssl_configuration;
  connection_configuration = l.connection_configuration;
  hostname_names = l.hostname_names;
  routing_policy_name = l.routing_policy_name;
}

unfoldable pub update_listener_details_of : ListenerDetails → UpdateListenerDetails
update_listener_details_of l = record {
  default_backend_set_name = l.default_backend_set_name;
  port = l.port;
  protocol = l.protocol;
  ssl_configuration = l.ssl_configuration;
  connection_configuration = l.connection_configuration;
  hostname_names = l.hostname_names;
  routing_policy_name = l.routing_policy_name;
  rule_set_names = l.rule_set_names;
}

-- The loop of GetCertificateByName
unfoldable pub certificate_named : Str → List Certificate → Result Certificate
certificate_named name [] = err (with_stack not_found)
certificate_named name (c ∷ certs) =
    let rest = certificate_named name certs in if str_eq c.certificate_name name then ok c else rest

module _ (sdk : Sdk) where
  unfoldable pub get_load_balancer : Str → Run SdkRequest OciLoadBalancer
  get_load_balancer id = read sdk (λ log. sdk.load_balancer log id) (get_load_balancer_request id)

  unfoldable pub create_load_balancer : CreateDetails → Run SdkRequest Str
  create_load_balancer details = write sdk (create_load_balancer_request details)

  unfoldable pub delete_load_balancer : Str → Run SdkRequest Str
  delete_load_balancer id = write sdk (delete_load_balancer_request id)

  unfoldable pub get_certificate_by_name : Str → Str → Run SdkRequest Certificate
  get_certificate_by_name lb name = do
    certs ← read sdk (λ log. sdk.certificates log lb) (list_certificates_request lb)
    lift (certificate_named name certs)

  unfoldable pub create_certificate : Str → CertificateDetails → Run SdkRequest Str
  create_certificate lb cert = write sdk (create_certificate_request lb cert)

  unfoldable pub get_work_request : Str → Run SdkRequest WorkRequest
  get_work_request id = read sdk (λ log. sdk.work_request log id) (get_work_request_request id)

  unfoldable pub create_backend_set : Str → Str → BackendSetDetails → Run SdkRequest Str
  create_backend_set lb name details =
      write sdk (create_backend_set_request lb (record { name = name; details = details }))

  unfoldable pub update_backend_set : Str → Str → BackendSetDetails → Run SdkRequest Str
  update_backend_set lb name details = write sdk (update_backend_set_request lb name details)

  unfoldable pub delete_backend_set : Str → Str → Run SdkRequest Str
  delete_backend_set lb name = write sdk (delete_backend_set_request lb name)

  unfoldable pub create_listener : Str → Str → ListenerDetails → Run SdkRequest Str
  create_listener lb name details =
      write sdk (create_listener_request lb (create_listener_details_of name details))

  unfoldable pub update_listener : Str → Str → ListenerDetails → Run SdkRequest Str
  update_listener lb name details =
      write sdk (update_listener_request lb name (update_listener_details_of details))

  unfoldable pub delete_listener : Str → Str → Run SdkRequest Str
  delete_listener lb name = write sdk (delete_listener_request lb name)

  unfoldable pub update_load_balancer_shape :
      Str → Str → Option (Option ℤ × Option ℤ) → Run SdkRequest Str
  update_load_balancer_shape lb shape limits =
      write sdk (update_load_balancer_shape_request lb shape limits)

  unfoldable pub update_network_security_groups : Str → List Str → Run SdkRequest Str
  update_network_security_groups lb ids = write sdk (update_network_security_groups_request lb ids)

  unfoldable pub create_routing_policy : Str → RoutingPolicy → Run SdkRequest Str
  create_routing_policy lb details = write sdk (create_routing_policy_request lb details)

  unfoldable pub update_routing_policy : Str → Str → RoutingPolicy → Run SdkRequest Str
  update_routing_policy lb name details = write sdk (update_routing_policy_request lb name details)

  unfoldable pub delete_routing_policy : Str → Str → Run SdkRequest Str
  delete_routing_policy lb name = write sdk (delete_routing_policy_request lb name)

  unfoldable pub create_rule_set : Str → Str → RuleSet → Run SdkRequest Str
  create_rule_set lb name details = write sdk (create_rule_set_request lb name details)

  unfoldable pub update_rule_set : Str → Str → RuleSet → Run SdkRequest Str
  update_rule_set lb name details = write sdk (update_rule_set_request lb name details)

  unfoldable pub delete_rule_set : Str → Str → Run SdkRequest Str
  delete_rule_set lb name = write sdk (delete_rule_set_request lb name)

  unfoldable pub create_hostname : Str → HostnameDetails → Run SdkRequest Str
  create_hostname lb details = write sdk (create_hostname_request lb details)

  unfoldable pub delete_hostname : Str → Str → Run SdkRequest Str
  delete_hostname lb name = write sdk (delete_hostname_request lb name)

  unfoldable pub delete_certificate : Str → Str → Run SdkRequest Str
  delete_certificate lb name = write sdk (delete_certificate_request lb name)
