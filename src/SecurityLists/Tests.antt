-- ===== src/SecurityLists/Tests.antt =====
-- Runs of the comparison of security lists.
use oci_lb_ingress_controlle.SecurityLists.Types.{SecurityRule}
use oci_lb_ingress_controlle.SecurityLists.Changed.{
  security_list_rules_changed, In, rules_unchanged_iff,
}
use oci_lb_ingress_controlle.SecurityLists.Samples.{rules, security_list}
use oci_lb_ingress_controlle.Base.{length, All, ◌≡◌, ◌↔◌, false, []}

rules_unchanged_iff_example : (security_list_rules_changed security_list rules [] ≡ false) ↔ (
    (length rules ≡ length rules)
    × (length {A = SecurityRule} [] ≡ length {A = SecurityRule} [])
    × All (λ r. In r rules) rules
    × All (λ r. In r []) [])
rules_unchanged_iff_example = rules_unchanged_iff security_list rules []
