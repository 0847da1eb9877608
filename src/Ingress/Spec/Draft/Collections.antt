-- ===== src/Ingress/Spec/Draft/Collections.antt =====
-- src/ingress/spec.go: what NewIngressLBSpec is given, the collections that it fills, and the loops
-- and the literals of its closures.
use oci_lb_ingress_controlle.Base.Maps.{Map, lookup, put}
use oci_lb_ingress_controlle.Ingress.Annotations.{get_annotation}
use oci_lb_ingress_controlle.Ingress.Backends.{ServicePort, ServiceObject}
use oci_lb_ingress_controlle.Ingress.Routing.{IngressBackend, IngressPath, Url}
use oci_lb_ingress_controlle.Ingress.Shape.{ShapeDefaults}
use oci_lb_ingress_controlle.Ingress.SubnetIds.{SubnetConfig, Discovery}
use oci_lb_ingress_controlle.Ingress.Tls.{Secret, Crypto, CertificateBundle}
use oci_lb_ingress_controlle.LoadBalancer.Types.{
  BackendSetDetails, ListenerDetails, SslConfigurationDetails,
}
use oci_lb_ingress_controlle.Manager.Model.{
  RoutingRule, RoutingPolicy, RuleSet, HostnameDetails, CertificateDetails,
}
use oci_lb_ingress_controlle.Provider.Subnets.{Node}
use oci_lb_ingress_controlle.Base.{
  if◌then◌else◌, int_eq, int_lt, ℤ, pos, negsuc, is_empty, any, Str, text, str_eq, to_lower, Result,
  Bool, ◌&&◌, ◌||◌, Option, none, some, List, [], ◌∷◌, ◌++◌, map,
}

pub record IngressTls : Type 0 where
  pub hosts : List Str
  pub secret_name : Str

-- A rule may have no HTTP section.
pub record IngressRule : Type 0 where
  pub host : Str
  pub http : Option (List IngressPath)

pub record IngressObject : Type 0 where
  pub namespace : Str
  pub name : Str
  pub uid : Str
  pub annotations : Map Str
  pub tls : List IngressTls
  pub rules : List IngressRule
  pub default_backend : Option IngressBackend

-- What the cluster and the cloud answer, and the configuration.
pub record Surroundings : Type 0 where
  pub list_nodes : Result (List Node)
  pub get_service : Str → Str → Result ServiceObject
  pub get_secret : Str → Str → Result Secret
  pub crypto : Crypto
  pub subnet_config : SubnetConfig
  pub discovery : Discovery
  pub base64_md5 : Str → Str
  pub url_parse : Str → Result Url
  pub encode : IngressPath → Str
  pub parses_ip : Str → Bool
  pub name_prefix : Str
  pub force_https_redirection_by_default : Bool
  pub shape_defaults : ShapeDefaults

-- The collections that NewIngressLBSpec fills.
pub record Draft : Type 0 where
  pub hostnames : Map HostnameDetails
  pub certificates : Map CertificateDetails
  pub services : Map ServiceObject
  pub service_nodes : Map (Map Node)
  pub policies : Map RoutingPolicy
  pub rule_sets : Map RuleSet
  pub listeners : Map ListenerDetails

abbrev pub empty_draft : Draft
empty_draft = record {
  hostnames = [];
  certificates = [];
  services = [];
  service_nodes = [];
  policies = [];
  rule_sets = [];
  listeners = [];
}

-- hostsWithTLS: a later entry for a host takes the place of an earlier one.
hosts_of : List Str → IngressTls → Map IngressTls → Map IngressTls
hosts_of [] tls m = m
hosts_of (host ∷ hosts) tls m = hosts_of hosts tls (put host tls m)

unfoldable pub hosts_with_tls : List IngressTls → Map IngressTls → Map IngressTls
unfolding hosts_of
hosts_with_tls [] m = m
hosts_with_tls (tls ∷ rest) m = hosts_with_tls rest (hosts_of tls.hosts tls m)

unfoldable pub nodes_by_name : List Node → Map Node → Map Node
nodes_by_name [] m = m
nodes_by_name (node ∷ nodes) m = nodes_by_name nodes (put node.name node m)

-- The test of one port of a service, and what it leaves of svcPort and nodePort.
abbrev pub is_tcp : ServicePort → Bool
is_tcp p = str_eq p.protocol (text "TCP")

abbrev pub is_wanted : ServicePort → ℤ → Str → Bool
is_wanted p port name = if int_eq port (pos 0) then str_eq p.name name else int_eq p.port port

unfoldable pub find_node_port : List ServicePort → Str → ℤ → ℤ → ℤ × ℤ
find_node_port [] name port node_port = (port, node_port)
find_node_port (p ∷ ports) name port node_port =
    let found = is_tcp p && is_wanted p port name in
    find_node_port ports name (if found then p.port else port)
      (if found && int_lt (pos 0) p.node_port then p.node_port else node_port)

abbrev pub no_port : ℤ
no_port = negsuc 0

-- `GetAnnotationWithLowercase(ing, AnnotationForceHTTPSRedirect)`
unfoldable pub forces_https : Bool → Map Str → Bool
forces_https by_default annotations =
    let force = to_lower (get_annotation annotations (text "force-https-redirect")) in
    str_eq force (text "true") || (is_empty force && by_default)

abbrev pub policy_named : Str → List RoutingRule → RoutingPolicy
policy_named name rules = record {
  name = name;
  condition_language_version = text "V1";
  rules = rules;
}

abbrev pub rules_before : Option RoutingPolicy → List RoutingRule
rules_before none = []
rules_before (some policy) = policy.rules

-- `utils.ContainsMatching`: a rule of a name that is there is left out.
unfoldable pub add_rule : List RoutingRule → RoutingRule → List RoutingRule
add_rule rules rule =
    if any (λ r. str_eq r.name rule.name) rules then rules else rules ++ (rule ∷ [])

unfoldable pub append_to_all : RoutingRule → Map RoutingPolicy → Map RoutingPolicy
append_to_all rule [] = []
append_to_all rule ((name, policy) ∷ policies) =
    (name, record policy { rules = policy.rules ++ (rule ∷ []) }) ∷ append_to_all rule policies

abbrev pub dummy_backend_set : Str → BackendSetDetails
dummy_backend_set policy = record {
  policy = some policy;
  backends = [];
  health_checker = some (record {
    protocol = some (text "HTTP");
    url_path = some (text "/");
    port = pos 0;
    return_code = none;
    retries = some (pos 3);
    timeout_in_millis = some (pos 3000);
    interval_in_millis = some (pos 10000);
    response_body_regex = none;
  });
  session_persistence = none;
  ssl_configuration = none;
}

unfoldable pub put_all : Map BackendSetDetails → Map BackendSetDetails → Map BackendSetDetails
put_all [] sets = sets
put_all ((name, details) ∷ rest) sets = put_all rest (put name details sets)

abbrev values : Map Node → List Node
values m = map (λ e. e.1) m

unfoldable pub nodes_for_service : Map (Map Node) → Str → List Node
nodes_for_service service_nodes name = elim (lookup name service_nodes) [
  | none ↦ []
  | some nodes ↦ values nodes
]

abbrev pub flex_min : Option (ℤ × ℤ) → Option ℤ
flex_min none = none
flex_min (some l) = some l.0

abbrev pub flex_max : Option (ℤ × ℤ) → Option ℤ
flex_max none = none
flex_max (some l) = some l.1

-- What is there of the name, or a new entry
abbrev pub hostname_at : Option HostnameDetails → Str → Str → Draft → Option HostnameDetails × Draft
hostname_at (some details) name host draft = (some details, draft)
hostname_at none name host draft = (
  some (record { name = name; hostname = host }),
  record draft { hostnames = put name (record { name = name; hostname = host }) draft.hostnames },
)

abbrev pub certificate_details : Str → CertificateBundle → CertificateDetails
certificate_details name crt = record {
  certificate = record {
    certificate_name = name;
    public_certificate = crt.certificate_pem;
    ca_certificate = crt.ca_certificate_chain_pem;
  };
  private_key = crt.private_key_pem;
}

abbrev pub certificate_at : Option CertificateDetails → Str → CertificateBundle → Draft → Draft
certificate_at (some c) name crt draft = draft
certificate_at none name crt draft = record draft {
  certificates = put name (certificate_details name crt) draft.certificates;
}

abbrev pub ssl_details : Str → SslConfigurationDetails
ssl_details certificate_name = record {
  certificate_name = some certificate_name;
  verify_depth = some (pos 1);
  verify_peer_certificate = none;
  cipher_suite_name = none;
}
