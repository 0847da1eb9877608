-- ===== src/Ingress/Spec/Draft.antt =====
-- src/ingress/spec.go: the collections that NewIngressLBSpec fills, and the closures that fill
-- them. What the cluster answers, MD5 in base64, url.Parse, gob's encoding of a path and net.ParseIP are parameters.
mod Collections
unfoldable pub use Collections.*
use oci_lb_ingress_controlle.Base.Maps.{Map, lookup, put}
use oci_lb_ingress_controlle.Ingress.Annotations.{get_annotation}
use oci_lb_ingress_controlle.Ingress.Backends.{ServicePort, ServiceObject, get_backend_set_name}
use oci_lb_ingress_controlle.Ingress.Names.{get_hostname_name}
use oci_lb_ingress_controlle.Ingress.Routing.{IngressBackend, IngressPath, Url}
use oci_lb_ingress_controlle.Ingress.SubnetIds.{SubnetConfig, Discovery}
use oci_lb_ingress_controlle.Ingress.Tls.{
  Secret, Crypto, CertificateBundle, get_certificate_bundle, unique_id,
}
use oci_lb_ingress_controlle.LoadBalancer.Types.{
  BackendSetDetails, ListenerDetails, SslConfigurationDetails,
}
use oci_lb_ingress_controlle.Manager.Model.{
  RoutingRule, RoutingPolicy, RuleSet, HostnameDetails, CertificateDetails,
}
use oci_lb_ingress_controlle.Provider.Subnets.{Node}
use oci_lb_ingress_controlle.Base.{
  if◌then◌else◌, int_eq, int_lt, ℤ, pos, negsuc, is_empty, any, Str, text, str_eq, to_lower,
  message, wrap, Result, ok, err, ◌>>=◌, Bool, ◌&&◌, ◌||◌, Option, none, some, List, [], ◌∷◌, ◌++◌,
  map,
}

module _ (around : Surroundings) (ing : IngressObject) where
  -- getOrCreateHostnameDetails
  unfoldable pub get_or_create_hostname_details :
      Str → Draft → Result (Option HostnameDetails × Draft)
  get_or_create_hostname_details host draft = if is_empty host then ok (none, draft) else (do
    name ← get_hostname_name around.base64_md5 host
    ok (hostname_at (lookup name draft.hostnames) name host draft))

  -- getOrCreateSSLConfigDetails
  unfoldable pub get_or_create_ssl_config_details :
      Str → Str → Draft → Result (Option SslConfigurationDetails × Draft)
  get_or_create_ssl_config_details host secret_name draft =
      if is_empty host || is_empty secret_name
      then err (message (text "empty hostname or secretName"))
      else (do
        crt ← get_certificate_bundle around.crypto around.get_secret ing.namespace secret_name
        id ← unique_id around.base64_md5 crt
        let name = ing.namespace ++ (b'_' ∷ (secret_name ++ (b'_' ∷ id)))
        ok (
          some (ssl_details name),
          certificate_at (lookup name draft.certificates) name crt draft,
        ))

  unfoldable pub find_service : Str → Draft → Result (ServiceObject × Draft)
  find_service name draft = elim (lookup name draft.services) [
    | some svc ↦ ok (svc, draft)
    | none ↦ do
      svc ← wrap (around.get_service ing.namespace name)
      ok (svc, record draft { services = put name svc draft.services })
  ]

  module _ (nodes : List Node) where
    -- The node port is looked for, and the backend set is named.
    unfoldable pub backend_of_service :
        IngressBackend → ServiceObject × Draft → Result (Str × Draft)
    backend_of_service backend found =
        let port = find_node_port found.0.ports backend.port_name backend.port_number no_port in
        if int_eq port.1 no_port
        then err (message (text "Could not find NodePort for service"))
        else (do
          name ← get_backend_set_name around.base64_md5 backend.service_name (text "TCP") port.0
          ok (
            name,
            record found.1 {
              service_nodes =
                  put backend.service_name (nodes_by_name nodes []) found.1.service_nodes;
            },
          ))

    -- processBackendSpec: the name of the backend set
    unfoldable pub process_backend_spec : IngressBackend → Draft → Result (Str × Draft)
    process_backend_spec backend draft =
        if backend.has_resource
        then err (message (text "Backend.Resource not supported"))
        else (find_service backend.service_name draft >>= backend_of_service backend)
