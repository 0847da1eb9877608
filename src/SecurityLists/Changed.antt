-- ===== src/SecurityLists/Changed.antt =====
-- securityListRulesChanged: whether the rules that are wanted are the rules of the list.
use oci_lb_ingress_controlle.SecurityLists.Types.{SecurityRule, SecurityList, rule_eq, rule_eq_iff}
use oci_lb_ingress_controlle.Base.{
  ◌==◌, if◌then◌else◌, length, any, All, ◌≡◌, refl, ◌↔◌, ◌⊎◌, Bool, true, false, not, ◌||◌, List,
  [], ◌∷◌, arith,
}

-- The inner loop: the rule stands among the existing ones.
found : SecurityRule → List SecurityRule → Bool
found rule existing = any (λ r. rule_eq r rule) existing

-- The outer loop: some rule is not found.
some_missing : List SecurityRule → List SecurityRule → Bool
unfolding found
some_missing existing [] = false
some_missing existing (rule ∷ rules) = not (found rule existing) || some_missing existing rules

pub security_list_rules_changed : SecurityList → List SecurityRule → List SecurityRule → Bool
unfolding some_missing
security_list_rules_changed l ingress egress =
    if not (length ingress == length l.ingress_security_rules)
      || not (length egress == length l.egress_security_rules)
    then true
    else if some_missing l.ingress_security_rules ingress
    then true
    else some_missing l.egress_security_rules egress

-- Membership by equality.
abbrev pub In : SecurityRule → List SecurityRule → Type 0
In r [] = ⊥
In r (x ∷ xs) = (x ≡ r) ⊎ In r xs

found-In :
    (rule : SecurityRule) (existing : List SecurityRule)
    → (found rule existing ≡ true) ↔ In rule existing
unfolding found any
found-In rule [] = (λ h. cc, λ h. absurd h)
found-In rule (x ∷ xs) = (
  λ h. ground (arith, rule_eq_iff x rule, (found-In rule xs).0),
  λ h. ground (arith, rule_eq_iff x rule, (found-In rule xs).1),
)

some_missing-All :
    (existing rules : List SecurityRule)
    → (some_missing existing rules ≡ false) ↔ All (λ r. In r existing) rules
unfolding some_missing
some_missing-All existing [] = (λ h. tt, λ h. refl)
some_missing-All existing (r ∷ rules) = (
  λ h. ((found-In r existing).0 (ground arith), (some_missing-All existing rules).0 (ground arith)),
  λ h. ground (arith, (found-In r existing).1 h.0, (some_missing-All existing rules).1 h.1),
)

-- No change is found exactly when both lists are as long as those of the security list, and each
-- of their rules is one of its rules.
pub rules_unchanged_iff :
    (l : SecurityList) (ingress egress : List SecurityRule)
    → (security_list_rules_changed l ingress egress ≡ false) ↔ (
        (length ingress ≡ length l.ingress_security_rules)
        × (length egress ≡ length l.egress_security_rules)
        × All (λ r. In r l.ingress_security_rules) ingress
        × All (λ r. In r l.egress_security_rules) egress)
unfolding security_list_rules_changed
rules_unchanged_iff l ingress egress = (
  λ h. (
    ground arith,
    ground arith,
    (some_missing-All l.ingress_security_rules ingress).0 (ground arith),
    (some_missing-All l.egress_security_rules egress).0 (ground arith),
  ),
  λ h. ground (
    arith,
    h,
    (some_missing-All l.ingress_security_rules ingress).1 h.2,
    (some_missing-All l.egress_security_rules egress).1 h.3,
  ),
)
