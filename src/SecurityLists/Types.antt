-- ===== src/SecurityLists/Types.antt =====
-- Security rules as the program reads and makes them. One record stands for ingress and egress
-- rules: `address` is the source of the one and the destination of the other, and `others` the
-- fields that the program neither reads nor sets.
use native.Mathlib.Decide.{ℕ_discrete}
use oci_lb_ingress_controlle.Base.{
  if◌then◌else◌, is_some, int_eq, ℤ, Str, text, ◌≡◌, ◌↔◌, Bool, true, false, ◌&&◌, Option, none,
  some, List, [], arith,
}

pub record PortRange : Type 0 where
  pub min : ℤ
  pub max : ℤ

pub record TcpOptions : Type 0 where
  pub source_port_range : Option PortRange
  pub destination_port_range : Option PortRange

pub record SecurityRule : Type 0 where
  pub address : Str
  pub protocol : Str
  pub tcp_options : Option TcpOptions
  pub is_stateless : Option Bool
  pub others : Str

pub record SecurityList : Type 0 where
  pub id : Str
  pub ingress_security_rules : List SecurityRule
  pub egress_security_rules : List SecurityRule

SecurityRule-discrete : Discrete SecurityRule
SecurityRule-discrete = hlevel ℕ_discrete

-- reflect.DeepEqual on two rules
unfoldable pub rule_eq : SecurityRule → SecurityRule → Bool
unfolding SecurityRule-discrete
rule_eq r s = elim (SecurityRule-discrete r s) [ yes e ↦ true | no ne ↦ false ]

pub rule_eq_iff : (r s : SecurityRule) → (rule_eq r s ≡ true) ↔ (r ≡ s)
unfolding rule_eq
rule_eq_iff r s = ground arith

-- The rule that makeIngressSecurityRule and makeEgressSecurityRule build, for TCP (6).
unfoldable pub make_security_rule : Str → ℤ → SecurityRule
make_security_rule cidr_block port = record {
  address = cidr_block;
  protocol = text "6";
  tcp_options = some (record {
    source_port_range = none;
    destination_port_range = some (record { min = port; max = port });
  });
  is_stateless = some false;
  others = [];
}

-- The destination range of a rule that filters by it alone: TCP options with no source range.
abbrev pub plain_range : Option TcpOptions → Option PortRange
plain_range none = none
plain_range (some o) = if is_some o.source_port_range then none else o.destination_port_range

abbrev pub destination_range : Option TcpOptions → Option PortRange
destination_range none = none
destination_range (some o) = o.destination_port_range

-- The rule filters by the destination port `port` alone.
abbrev pub range_is : ℤ → Option PortRange → Bool
range_is port none = false
range_is port (some r) = int_eq r.min port && int_eq r.max port

abbrev pub on_port : ℤ → SecurityRule → Bool
on_port port r = range_is port (plain_range r.tcp_options)
