-- ===== src/LoadBalancer/Types.antt =====
-- The records of the OCI SDK's loadbalancer package that the program reads and builds, and the
-- conversions of load_balancer_util.go. A pointer field is an Option, but for the fields that the
-- code dereferences with no test (the SDK's mandatory ones), which are plain values.
use oci_lb_ingress_controlle.Base.{ℤ, pos, Str, Bool, false, Option, none, some, List, [], ◌∷◌}

pub record PortSpec : Type 0 where
  pub listener_port : ℤ
  pub backend_port : ℤ
  pub health_checker_port : ℤ

pub record Backend : Type 0 where
  pub ip_address : Str
  pub port : ℤ
  pub weight : Option ℤ
  pub backup : Option Bool
  pub drain : Option Bool
  pub offline : Option Bool

-- BackendDetails, what a client sends, has the fields of Backend.
pub record BackendDetails : Type 0 where
  pub ip_address : Str
  pub port : ℤ
  pub weight : Option ℤ
  pub backup : Option Bool
  pub drain : Option Bool
  pub offline : Option Bool

pub record HealthChecker : Type 0 where
  pub protocol : Option Str
  pub url_path : Option Str
  pub port : ℤ
  pub return_code : Option ℤ
  pub retries : Option ℤ
  pub timeout_in_millis : Option ℤ
  pub interval_in_millis : Option ℤ
  pub response_body_regex : Option Str

pub record HealthCheckerDetails : Type 0 where
  pub protocol : Option Str
  pub url_path : Option Str
  pub port : ℤ
  pub return_code : Option ℤ
  pub retries : Option ℤ
  pub timeout_in_millis : Option ℤ
  pub interval_in_millis : Option ℤ
  pub response_body_regex : Option Str

pub record SslConfiguration : Type 0 where
  pub certificate_name : Option Str
  pub verify_depth : Option ℤ
  pub verify_peer_certificate : Option Bool

pub record SslConfigurationDetails : Type 0 where
  pub certificate_name : Option Str
  pub verify_depth : Option ℤ
  pub verify_peer_certificate : Option Bool
  pub cipher_suite_name : Option Str

-- `session_persistence` is only passed on; a text stands for it.
pub record BackendSet : Type 0 where
  pub name : Str
  pub policy : Option Str
  pub backends : List Backend
  pub health_checker : Option HealthChecker
  pub session_persistence : Option Str
  pub ssl_configuration : Option SslConfiguration

pub record BackendSetDetails : Type 0 where
  pub policy : Option Str
  pub backends : List BackendDetails
  pub health_checker : Option HealthCheckerDetails
  pub session_persistence : Option Str
  pub ssl_configuration : Option SslConfigurationDetails

pub record ConnectionConfiguration : Type 0 where
  pub idle_timeout : Option ℤ
  pub backend_tcp_proxy_protocol_version : Option ℤ

pub record Listener : Type 0 where
  pub name : Option Str
  pub default_backend_set_name : Str
  pub port : ℤ
  pub protocol : Option Str
  pub hostname_names : List Str
  pub ssl_configuration : Option SslConfiguration
  pub connection_configuration : Option ConnectionConfiguration
  pub routing_policy_name : Option Str
  pub rule_set_names : List Str

pub record ListenerDetails : Type 0 where
  pub default_backend_set_name : Str
  pub port : ℤ
  pub protocol : Option Str
  pub hostname_names : List Str
  pub ssl_configuration : Option SslConfigurationDetails
  pub connection_configuration : Option ConnectionConfiguration
  pub routing_policy_name : Option Str
  pub rule_set_names : List Str

abbrev pub to_bool : Option Bool → Bool
to_bool none = false
to_bool (some b) = b

abbrev pub to_string : Option Str → Str
to_string none = []
to_string (some s) = s

abbrev pub to_int : Option ℤ → ℤ
to_int none = pos 0
to_int (some i) = i

unfoldable pub health_checker_to_details : Option HealthChecker → Option HealthCheckerDetails
health_checker_to_details none = none
health_checker_to_details (some hc) = some (record {
  protocol = hc.protocol;
  url_path = hc.url_path;
  port = hc.port;
  return_code = hc.return_code;
  retries = hc.retries;
  timeout_in_millis = hc.timeout_in_millis;
  interval_in_millis = hc.interval_in_millis;
  response_body_regex = hc.response_body_regex;
})

unfoldable pub ssl_configuration_to_details :
    Option SslConfiguration → Option SslConfigurationDetails
ssl_configuration_to_details none = none
ssl_configuration_to_details (some sc) = some (record {
  certificate_name = sc.certificate_name;
  verify_depth = sc.verify_depth;
  verify_peer_certificate = sc.verify_peer_certificate;
  cipher_suite_name = none;
})

unfoldable pub backends_to_backend_details : List Backend → List BackendDetails
backends_to_backend_details [] = []
backends_to_backend_details (b ∷ bs) =
    record {
      ip_address = b.ip_address;
      port = b.port;
      weight = b.weight;
      backup = b.backup;
      drain = b.drain;
      offline = b.offline;
    }
    ∷ backends_to_backend_details bs

-- The port of the first backend, 0 where there is none.
first_port : List Backend → ℤ
first_port [] = pos 0
first_port (b ∷ bs) = b.port

first_port_details : List BackendDetails → ℤ
first_port_details [] = pos 0
first_port_details (b ∷ bs) = b.port

checker_port : Option HealthChecker → ℤ
checker_port none = pos 0
checker_port (some hc) = hc.port

checker_port_details : Option HealthCheckerDetails → ℤ
checker_port_details none = pos 0
checker_port_details (some hc) = hc.port

unfoldable pub ports_from_backend_set_details : BackendSetDetails → PortSpec
unfolding first_port_details checker_port_details
ports_from_backend_set_details bs = record {
  listener_port = pos 0;
  backend_port = first_port_details bs.backends;
  health_checker_port = checker_port_details bs.health_checker;
}

unfoldable pub ports_from_backend_set : BackendSet → PortSpec
unfolding first_port checker_port
ports_from_backend_set bs = record {
  listener_port = pos 0;
  backend_port = first_port bs.backends;
  health_checker_port = checker_port bs.health_checker;
}
