-- ===== src/SecurityLists/Samples.antt =====
-- The rules that the tests of the security list modules share.
use oci_lb_ingress_controlle.LoadBalancer.Types.{PortSpec}
use oci_lb_ingress_controlle.SecurityLists.Types.{SecurityRule, SecurityList, make_security_rule}
use oci_lb_ingress_controlle.Base.{pos, Str, text, none, List, [], ◌∷◌}

-- A rule for one address and port, and one that admits anything on any port.
abbrev pub http_rule : SecurityRule
http_rule = make_security_rule (text "10.0.1.0/24") (pos 80)

abbrev pub open_rule : SecurityRule
open_rule = record {
  address = text "0.0.0.0/0";
  protocol = text "all";
  tcp_options = none;
  is_stateless = none;
  others = [];
}

abbrev pub rules : List SecurityRule
rules = http_rule ∷ open_rule ∷ []

abbrev pub node_cidrs : List Str
node_cidrs = text "10.0.2.0/24" ∷ []

abbrev pub security_list : SecurityList
security_list = record {
  id = text "list";
  ingress_security_rules = rules;
  egress_security_rules = [];
}

abbrev pub ports : PortSpec
ports = record { listener_port = pos 80; backend_port = pos 30080; health_checker_port = pos 10256 }
