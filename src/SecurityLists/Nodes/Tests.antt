-- ===== src/SecurityLists/Nodes/Tests.antt =====
-- Runs of the ingress rules of a node subnet.
use oci_lb_ingress_controlle.Base.Sets.{has}
use oci_lb_ingress_controlle.SecurityLists.Types.{make_security_rule}
use oci_lb_ingress_controlle.SecurityLists.Additions.{admits}
use oci_lb_ingress_controlle.SecurityLists.Nodes.{
  port_range_matches_spec, is_old_port, is_service_range, get_node_ingress_rules,
}
use oci_lb_ingress_controlle.SecurityLists.Nodes.Others.{unrelated, node_rules_keep_others}
use oci_lb_ingress_controlle.SecurityLists.Nodes.Admit.{node_rules_admit}
use oci_lb_ingress_controlle.SecurityLists.Samples.{rules, node_cidrs, ports}
use oci_lb_ingress_controlle.Base.{
  int_eq, pos, filter, any, text, str_eq, ok, ◌≡◌, refl, true, false, none, [],
}

node_rules_keep_others_example :
    filter (unrelated none ports) (get_node_ingress_rules (ok []) rules node_cidrs none ports)
    ≡ rules
unfolding filter make_security_rule is_old_port is_service_range port_range_matches_spec
node_rules_keep_others_example = node_rules_keep_others (ok []) rules node_cidrs none ports

node_rules_admit_example :
    (int_eq (pos 30080) (pos 0) ≡ false
      → any
          (admits (pos 30080) (text "10.0.2.0/24"))
          (get_node_ingress_rules (ok []) rules node_cidrs none ports)
        ≡ true)
    × (int_eq (pos 10256) (pos 0) ≡ false
        → any
            (admits (pos 10256) (text "10.0.2.0/24"))
            (get_node_ingress_rules (ok []) rules node_cidrs none ports)
          ≡ true)
unfolding has str_eq
node_rules_admit_example =
    node_rules_admit (ok []) rules node_cidrs none ports (text "10.0.2.0/24") refl
