-- ===== src/Ingress/Backends.antt =====
-- What load_balancer_spec.go and modified__.go of pkg/cloudprovider/providers/oci make of a service
-- and of the annotations: backend sets, their names and health checks, network security groups.
-- net.ParseIP is a parameter, as what it accepts.
use oci_lb_ingress_controlle.Base.Maps.{Map, put}
use oci_lb_ingress_controlle.Base.Sets.{of_list, sorted}
use oci_lb_ingress_controlle.Ingress.Annotations.{get_annotation}
use oci_lb_ingress_controlle.Ingress.Names.{safe_slice, replace_byte, byte_alpha_numeric_digest}
use oci_lb_ingress_controlle.Ingress.Shape.{atoi}
use oci_lb_ingress_controlle.LoadBalancer.Types.{
  BackendDetails, BackendSetDetails, HealthCheckerDetails, SslConfigurationDetails,
}
use oci_lb_ingress_controlle.Manager.Model.{panics}
use oci_lb_ingress_controlle.Provider.Subnets.{Node, node_internal_ip_of}
use oci_lb_ingress_controlle.SecurityLists.Services.{
  Service, get_service_health_check_path_port, lb_nodes_health_check_port,
}
use oci_lb_ingress_controlle.Base.{
  if◌then◌else◌, int_eq, ℤ, pos, length, take, is_empty, any, leb, Str, text, str_eq, itoa,
  contains_byte, split, message, wrap, Result, ok, err, ◌>>=◌, ℕ, ◌-◌, Bool, true, false, not, ◌||◌,
  Option, none, some, List, [], ◌∷◌, ◌++◌,
}

pub record ServicePort : Type 0 where
  pub name : Str
  pub protocol : Str
  pub port : ℤ
  pub node_port : ℤ

-- A service: `traffic` has the fields that its health check depends on.
pub record ServiceObject : Type 0 where
  pub name : Str
  pub namespace : Str
  pub annotations : Map Str
  pub traffic : Service
  pub ports : List ServicePort

pub record SslConfig : Type 0 where
  pub ports : List ℤ
  pub listener_ssl_secret_name : Str
  pub backend_set_ssl_secret_name : Str

unfoldable pub get_backends : List Node → ℤ → List BackendDetails
get_backends [] node_port = []
get_backends (node ∷ nodes) node_port =
    let rest = get_backends nodes node_port in
    if is_empty (node_internal_ip_of node)
    then rest
    else record {
      ip_address = node_internal_ip_of node;
      port = node_port;
      weight = some (pos 1);
      backup = none;
      drain = none;
      offline = none;
    }
      ∷ rest

-- An annotation that is to be a number, or its default where it is missing.
abbrev number_or : ℤ → Str → Result ℤ
number_or default_value [] = ok default_value
number_or default_value (c ∷ s) = elim (atoi (c ∷ s)) [
  | ok n ↦ ok n
  | err e ↦ err (message (text "invalid value provided for annotation"))
]

abbrev http_check : Str → ℤ → ℤ → ℤ → ℤ → HealthCheckerDetails
http_check path port retries interval timeout = record {
  protocol = some (text "HTTP");
  url_path = some path;
  port = port;
  return_code = none;
  retries = some retries;
  timeout_in_millis = some timeout;
  interval_in_millis = some interval;
  response_body_regex = none;
}

unfoldable pub get_health_checker : ServiceObject → Result HealthCheckerDetails
unfolding lb_nodes_health_check_port
get_health_checker svc = do
  retries ←
      number_or (pos 3)
        (get_annotation svc.annotations (text "oci-load-balancer-health-check-retries"))
  interval ←
      number_or (pos 10000)
        (get_annotation svc.annotations (text "oci-load-balancer-health-check-interval"))
  timeout ←
      number_or (pos 3000)
        (get_annotation svc.annotations (text "oci-load-balancer-health-check-timeout"))
  let (path, port) = get_service_health_check_path_port svc.traffic
  ok (
      if is_empty path
      then http_check (text "/healthz") lb_nodes_health_check_port retries interval timeout
      else http_check path port retries interval timeout)

unfoldable pub get_ssl_configuration : Option SslConfig → Str → ℤ → Option SslConfigurationDetails
get_ssl_configuration none name port = none
get_ssl_configuration (some cfg) name port =
    if not (any (int_eq port) cfg.ports) || is_empty name
    then none
    else some (record {
      certificate_name = some name;
      verify_depth = some (pos 0);
      verify_peer_certificate = some false;
      cipher_suite_name = none;
    })

abbrev backend_secret : Option SslConfig → Str
backend_secret none = []
backend_secret (some cfg) = cfg.backend_set_ssl_secret_name

-- getSecretParts: the name and the namespace
unfoldable pub get_secret_parts : Str → Str → Str × Str
get_secret_parts secret namespace =
    if is_empty secret
    then ([], [])
    else if not (contains_byte b'/' secret)
    then (secret, namespace)
    else elim (split b'/' secret) [ ns ∷ (n ∷ _) ↦ (n, ns) | _ ↦ ([], []) ]

unfoldable pub new_ssl_config : Str → Str → Str → List ℤ → SslConfig
new_ssl_config listener_secret backend_set_secret namespace ports = record {
  ports = ports;
  listener_ssl_secret_name = (get_secret_parts listener_secret namespace).0;
  backend_set_ssl_secret_name = (get_secret_parts backend_set_secret namespace).0;
}

abbrev security_groups_error : Result (List Str)
security_groups_error = err (message (text "invalid NetworkSecurityGroups OCID"))

-- The loop over the groups, of which `seen` have been counted.
checked_groups : ℕ → List Str → Result (List Str)
checked_groups seen [] = ok []
checked_groups seen (group ∷ groups) =
    let rest = checked_groups (seen - 1) groups in
    if leb seen 0
    then err (message (text "invalid number of Network Security Groups (Max: 5)"))
    else if is_empty group
    then security_groups_error
    else (do kept ← rest; ok (group ∷ kept))

unfoldable pub get_network_security_group_ids : Map Str → Result (List Str)
unfolding checked_groups
get_network_security_group_ids annotations =
    let groups = get_annotation annotations (text "oci-network-security-groups") in
    if is_empty groups
    then ok []
    else checked_groups 5 (sorted (of_list (split b',' (replace_byte b' ' [] groups))))

-- strconv.ParseBool
abbrev spelled : List Str → Str → Bool
spelled names s = any (str_eq s) names

parse_bool : Str → Result Bool
parse_bool s =
    if spelled (text "1" ∷ text "t" ∷ text "T" ∷ text "TRUE" ∷ text "true" ∷ text "True" ∷ []) s
    then ok true
    else if spelled
        (text "0" ∷ text "f" ∷ text "F" ∷ text "FALSE" ∷ text "false" ∷ text "False" ∷ []) s
    then ok false
    else err (message (text "invalid syntax"))

unfoldable pub is_internal_lb : Map Str → Result Bool
unfolding parse_bool
is_internal_lb annotations =
    let private = get_annotation annotations (text "oci-load-balancer-internal") in
    if is_empty private then ok false else wrap (parse_bool private)

abbrev is_true : Result Bool → Bool
is_true (ok b) = b
is_true (err e) = false

abbrev with_error : Str → Result Bool → Result Str
with_error ip (ok b) = ok ip
with_error ip (err e) = err e

-- `parses` is `net.ParseIP(…) != nil`.
unfoldable pub get_load_balancer_ip : (Str → Bool) → Map Str → Result Str
get_load_balancer_ip parses annotations =
    let ip = get_annotation annotations (text "oci-load-balancer-reserved-ip") in
    if is_empty ip
    then ok []
    else if not (parses ip)
    then err (message (text "invalid value provided for LoadBalancerIP"))
    else if is_true (is_internal_lb annotations)
    then err
        (message (text "invalid service: cannot create a private load balancer with Reserved IP"))
    else with_error ip (is_internal_lb annotations)

module _ (base64_md5 : Str → Str) where
  -- The length left for the service is not negative for any port: the port's part has 12 bytes at
  -- most.
  unfoldable pub backend_set_name_of : Str → Str → Result Str
  backend_set_name_of service_name port_text = do
    digest ← byte_alpha_numeric_digest base64_md5 service_name 32
    ok (
        safe_slice
          (safe_slice service_name 0 (24 - length port_text)
            ++ (b'_' ∷ (port_text ++ (b'_' ∷ digest))))
          0 32)

  unfoldable pub get_backend_set_name : Str → Str → ℤ → Result Str
  get_backend_set_name service_name protocol port =
      if is_empty protocol
      then err (panics (text "slice bounds out of range"))
      else backend_set_name_of service_name (take 1 protocol ++ itoa port)

  unfoldable pub backend_set_details_of :
      ServiceObject
      → List Node
      → Option SslConfig
      → Str
      → HealthCheckerDetails
      → ServicePort
      → BackendSetDetails
  backend_set_details_of svc nodes ssl_cfg policy checker p = record {
    policy = some policy;
    backends = get_backends nodes p.node_port;
    health_checker = some checker;
    session_persistence = none;
    ssl_configuration = get_ssl_configuration ssl_cfg (backend_secret ssl_cfg) p.port;
  }

  module _ (svc : ServiceObject) (nodes : List Node) (ssl_cfg : Option SslConfig)
      (policy : Str) where
    -- The loop over the service's ports
    unfoldable pub backend_sets_from :
        List ServicePort → Map BackendSetDetails → Result (Map BackendSetDetails)
    backend_sets_from [] sets = ok sets
    backend_sets_from (p ∷ ports) sets = do
      name ← get_backend_set_name svc.name p.protocol p.port
      checker ← get_health_checker svc
      backend_sets_from ports
          (put name (backend_set_details_of svc nodes ssl_cfg policy checker p) sets)

    unfoldable pub get_backend_sets : Result (Map BackendSetDetails)
    get_backend_sets = backend_sets_from svc.ports []
