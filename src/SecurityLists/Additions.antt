-- ===== src/SecurityLists/Additions.antt =====
-- The rules that the functions append, one for each address that no kept rule serves.
use mathlib.Core.List.{append-nil}
use oci_lb_ingress_controlle.Base.Sets.{has, sorted, has-sorted}
use oci_lb_ingress_controlle.SecurityLists.Types.{SecurityRule, make_security_rule, on_port}
use oci_lb_ingress_controlle.Base.{
  if◌then◌else◌, int_eq, int_eq_iff, ℤ, is_empty, filter, any, All, filter-append, any-append,
  All-append, Str, str_eq, str_eq_iff, str_eq_refl, Result, ok, err, ◌≡◌, refl, sym, ◌∙◌, ◌⊎◌, inl,
  inr, Bool, true, false, not, ◌&&◌, List, [], ◌∷◌, ◌++◌, arith,
}

-- A rule that is no longer wanted is kept where the port is in use or that is not known.
abbrev pub keep_on_use : Result Bool → Bool
keep_on_use (ok in_use) = in_use
keep_on_use (err e) = true

-- The loops that append a rule for each address left, in increasing order.
unfoldable pub make_rules : ℤ → List Str → List SecurityRule
make_rules port [] = []
make_rules port (cidr ∷ cidrs) = make_security_rule cidr port ∷ make_rules port cidrs

unfoldable pub add_rules : ℤ → List SecurityRule → List Str → List SecurityRule
add_rules port kept left = if is_empty left then kept else kept ++ make_rules port (sorted left)

-- The rule does not filter by this port alone.
abbrev pub off_port : ℤ → SecurityRule → Bool
off_port port r = not (on_port port r)

-- The rule admits `cidr` on `port`.
abbrev pub admits : ℤ → Str → SecurityRule → Bool
admits port cidr r = on_port port r && str_eq r.address cidr

pub int_eq_refl : (i : ℤ) → int_eq i i ≡ true
int_eq_refl i = (int_eq_iff i i).1 refl

pub on_port-make : (port : ℤ) (cidr : Str) → on_port port (make_security_rule cidr port) ≡ true
unfolding make_security_rule
on_port-make port cidr = rw (int_eq_refl port) refl

pub filter-make_rules :
    (p : SecurityRule → Bool) (port : ℤ) (cidrs : List Str)
    → ((c : Str) → p (make_security_rule c port) ≡ false)
    → filter p (make_rules port cidrs) ≡ []
unfolding filter make_rules
filter-make_rules p port [] h = refl
filter-make_rules p port (c ∷ cs) h = ground (arith, h c, filter-make_rules p port cs h)

pub any-make_rules :
    (port : ℤ) (cidr : Str) (cidrs : List Str)
    → has cidr cidrs ≡ true
    → any (admits port cidr) (make_rules port cidrs) ≡ true
unfolding any make_rules has make_security_rule
any-make_rules port cidr [] h = cc
any-make_rules port cidr (c ∷ cs) h =
    ground
      (arith, int_eq_refl port, str_eq_iff cidr c, str_eq_iff c cidr, any-make_rules port cidr cs)

pub filter-add_rules :
    (p : SecurityRule → Bool) (port : ℤ) (kept : List SecurityRule) (left : List Str)
    → ((c : Str) → p (make_security_rule c port) ≡ false)
    → filter p (add_rules port kept left) ≡ filter p kept
unfolding add_rules
filter-add_rules p port kept [] h = refl
filter-add_rules p port kept (c ∷ cs) h =
    rw filter-append
      (rw (filter-make_rules p port (sorted (c ∷ cs)) h) (append-nil (filter p kept)))

pub any-add_rules :
    (port : ℤ) (cidr : Str) (kept : List SecurityRule) (left : List Str)
    → (has cidr left ≡ true) ⊎ (any (admits port cidr) kept ≡ true)
    → any (admits port cidr) (add_rules port kept left) ≡ true
unfolding add_rules has
any-add_rules port cidr kept [] (inl h) = cc
any-add_rules port cidr kept [] (inr h) = h
any-add_rules port cidr kept (c ∷ cs) (inl h) = ground (
  arith,
  any-append (admits port cidr) kept (make_rules port (sorted (c ∷ cs))),
  any-make_rules port cidr (sorted (c ∷ cs)) (has-sorted cidr (c ∷ cs) ∙ h),
)
any-add_rules port cidr kept (c ∷ cs) (inr h) =
    ground (arith, any-append (admits port cidr) kept (make_rules port (sorted (c ∷ cs))), h)

All-make_rules :
    (P : SecurityRule → Type 0) (port : ℤ) (cidrs : List Str)
    → ((c : Str) → has c cidrs ≡ true → P (make_security_rule c port))
    → All P (make_rules port cidrs)
unfolding make_rules has
All-make_rules P port [] h = tt
All-make_rules P port (c ∷ cs) h =
    (h c (ground (arith, str_eq_refl c)), All-make_rules P port cs (λ d m. h d (ground (arith, m))))

pub All-add_rules :
    (P : SecurityRule → Type 0) (port : ℤ) (kept : List SecurityRule) (left : List Str)
    → All P kept
    → ((c : Str) → has c left ≡ true → P (make_security_rule c port))
    → All P (add_rules port kept left)
unfolding add_rules
All-add_rules P port kept [] k h = k
All-add_rules P port kept (c ∷ cs) k h =
    All-append P kept (make_rules port (sorted (c ∷ cs))) k
      (All-make_rules P port (sorted (c ∷ cs)) (λ d m. h d (sym (has-sorted d (c ∷ cs)) ∙ m)))
