-- ===== src/Ingress/Spec/Samples.antt =====
-- A cluster with one service and one node, and an ingress with a rule for a host with TLS.
use oci_lb_ingress_controlle.Ingress.Backends.{ServiceObject}
use oci_lb_ingress_controlle.Ingress.Routing.{prefix, IngressBackend, IngressPath}
use oci_lb_ingress_controlle.Ingress.Routing.Patterns.{plain_url}
use oci_lb_ingress_controlle.Ingress.Spec.Draft.{IngressRule, IngressObject, Surroundings}
use oci_lb_ingress_controlle.Ingress.SubnetIds.{Discovery}
use oci_lb_ingress_controlle.Ingress.Tls.{Crypto}
use oci_lb_ingress_controlle.Manager.Model.{IngressLbSpec}
use oci_lb_ingress_controlle.Provider.Subnets.{node_internal_ip, Node}
use oci_lb_ingress_controlle.SecurityLists.Services.{node_port, unset}
use oci_lb_ingress_controlle.Base.{pos, Str, text, message, ok, err, false, none, some, [], ◌∷◌}

abbrev pub fixed_md5 : Str → Str
fixed_md5 s = text "Zm9vYmFyYmF6cXV4MTIzNA=="

abbrev pub web_backend : IngressBackend
web_backend = record {
  has_resource = false;
  service_name = text "web";
  port_number = pos 80;
  port_name = [];
}

abbrev pub root_path : IngressPath
root_path = record { path = text "/"; path_type = prefix; backend = web_backend }

abbrev pub example_rule : IngressRule
example_rule = record { host = text "example.com"; http = some (root_path ∷ []) }

abbrev pub shop : IngressObject
shop = record {
  namespace = text "default";
  name = text "shop";
  uid = text "1";
  annotations = [];
  tls = record { hosts = text "example.com" ∷ []; secret_name = text "tls" } ∷ [];
  rules = example_rule ∷ [];
  default_backend = some web_backend;
}

-- The cluster answers for every name a service of that name.
abbrev service_named : Str → ServiceObject
service_named name = record {
  name = name;
  namespace = text "default";
  annotations = [];
  traffic = record {
    type = node_port;
    external_traffic_policy = unset;
    health_check_node_port = pos 0;
    ports = pos 80 ∷ [];
  };
  ports = record { name = []; protocol = text "TCP"; port = pos 80; node_port = pos 30080 } ∷ [];
}

abbrev worker : Node
worker = record {
  name = text "w1";
  provider_id = [];
  annotations = [];
  addresses = record { type = node_internal_ip; address = text "10.0.0.1" } ∷ [];
}

abbrev discovery : Discovery
discovery = record {
  metadata = err (message (text "no metadata"));
  get_primary_vnic_subnet = λ c i. err (message (text "no VNIC"));
  get_subnet = λ i. err (message (text "no subnet"));
  list_subnets = λ c i. ok [];
}

-- One block is read of any text, and it is the whole.
abbrev crypto : Crypto
crypto = record {
  decode = λ s. some (record { type = text "CERTIFICATE"; bytes = s }, []);
  parse_certificate = λ s. ok (record { signature = s; raw = s });
}

abbrev pub cluster : Surroundings
cluster = record {
  list_nodes = ok (worker ∷ []);
  get_service = λ ns name. ok (service_named name);
  get_secret = λ ns name. ok (record { tls_crt = text "pem"; tls_key = text "key"; ca_crt = [] });
  crypto = crypto;
  subnet_config = record { load_balancer = some (text "subnet", []); default_subnet_ids = [] };
  discovery = discovery;
  base64_md5 = fixed_md5;
  url_parse = λ s. ok (plain_url s);
  encode = λ p. p.path;
  parses_ip = λ s. false;
  name_prefix = [];
  force_https_redirection_by_default = false;
  shape_defaults = record { shape = text "flexible"; min_mbps = pos 10; max_mbps = pos 10 };
}

-- What stands for the specification of a run that fails
abbrev pub empty_spec : IngressLbSpec
empty_spec = record {
  spec = record {
    shape = [];
    flex_min = none;
    flex_max = none;
    subnets = [];
    listeners = [];
    backend_sets = [];
    load_balancer_ip = [];
    ports = [];
    source_cidrs = [];
    network_security_group_ids = [];
    nodes = [];
  };
  name = [];
  internal = false;
  tags = [];
  routing_policies = [];
  rule_sets = [];
  hostname_details = [];
  certificates = [];
}
