-- ===== src/SecurityLists/Frontend/Tests.antt =====
-- Runs of the rules of a load balancer's subnet.
use oci_lb_ingress_controlle.Base.Sets.{has}
use oci_lb_ingress_controlle.SecurityLists.Types.{make_security_rule}
use oci_lb_ingress_controlle.SecurityLists.Additions.{off_port, admits}
use oci_lb_ingress_controlle.SecurityLists.Frontend.{
  is_stale, get_load_balancer_ingress_rules, get_load_balancer_egress_rules,
}
use oci_lb_ingress_controlle.SecurityLists.Frontend.Ingress.{
  ingress_rules_keep_others, ingress_rules_admit,
}
use oci_lb_ingress_controlle.SecurityLists.Frontend.Egress.{egress_rules_reach}
use oci_lb_ingress_controlle.SecurityLists.Types.{make_security_rule}
use oci_lb_ingress_controlle.SecurityLists.Samples.{rules, open_rule, node_cidrs}
use oci_lb_ingress_controlle.Base.{
  pos, filter, any, All, Str, text, str_eq, ok, ◌≡◌, refl, true, false, [], ◌∷◌,
}

ingress_rules_keep_others_example :
    filter (off_port (pos 80)) (get_load_balancer_ingress_rules (ok []) rules node_cidrs (pos 80))
    ≡ open_rule ∷ []
unfolding filter make_security_rule
ingress_rules_keep_others_example = ingress_rules_keep_others (ok []) rules node_cidrs (pos 80)

ingress_rules_admit_example :
    any
      (admits (pos 80) (text "10.0.2.0/24"))
      (get_load_balancer_ingress_rules (ok []) rules node_cidrs (pos 80))
    ≡ true
unfolding has str_eq
ingress_rules_admit_example =
    ingress_rules_admit (ok []) rules node_cidrs (pos 80) (text "10.0.2.0/24") refl

egress_rules_reach_example :
    ((cidr : Str)
      → has cidr node_cidrs ≡ true
      → any
          (admits (pos 30080) cidr)
          (get_load_balancer_egress_rules (ok []) rules node_cidrs (pos 80) (pos 30080))
        ≡ true)
    × All
        (λ r. is_stale (pos 80) (pos 30080) r ≡ false)
        (get_load_balancer_egress_rules (ok []) rules node_cidrs (pos 80) (pos 30080))
egress_rules_reach_example = egress_rules_reach (ok []) rules node_cidrs (pos 80) (pos 30080)
