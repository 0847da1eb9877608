-- ===== src/Ingress/Shape.antt =====
-- getLBShape and getLoadBalancerPolicy of src/ingress/sharable_helpers.go.
use oci_lb_ingress_controlle.Base.Maps.{Map}
use mathlib.Core.Path.{subst}
use oci_lb_ingress_controlle.Ingress.Annotations.{get_annotation}
use oci_lb_ingress_controlle.Base.{
  ltb, leb, ◌==◌, if◌then◌else◌, Bool-cases, int_lt, ℤ, pos, negsuc, is_empty, any, Str, text,
  str_eq, itoa, to_lower, ◌>>=◌, wrap, message, Result, ok, err, ℕ, zero, suc, ◌+◌, ◌-◌, ◌*◌, ◌^◌,
  ◌≤◌, ◌≡◌, refl, sym, ◌∙◌, inl, inr, Bool, true, false, not, ◌&&◌, ◌||◌, Option, none, some, List,
  [], ◌∷◌, arith,
}

abbrev two_63 : ℕ
two_63 = 2 ^ 63

-- The decimal digits of a text, after those read.
digits_value : ℕ → Str → Option ℕ
digits_value read [] = some read
digits_value read (c ∷ s) =
    let rest = digits_value (read * 10 + (c - b'0')) s in
    if leb b'0' c && leb c b'9' then rest else none

unsigned_value : Str → Option ℕ
unfolding digits_value
unsigned_value [] = none
unsigned_value (c ∷ s) = digits_value 0 (c ∷ s)

abbrev negated : ℕ → ℤ
negated zero = pos 0
negated (suc n) = negsuc n

-- strconv.Atoi where an int has 64 bits: a sign or none, at least one digit, and the range.
unfoldable pub atoi : Str → Result ℤ
unfolding unsigned_value
atoi [] = err (message (text "invalid syntax"))
atoi (c ∷ s) =
    let negative = c == b'-' in
    let value = if negative || c == b'+' then unsigned_value s else unsigned_value (c ∷ s) in
    elim value [
      | none ↦ err (message (text "invalid syntax"))
      | some n ↦
          if negative && leb n two_63
          then ok (negated n)
          else if not negative && ltb n two_63
          then ok (pos n)
          else err (message (text "value out of range"))
    ]

abbrev pub flexible_shape_name : Str
flexible_shape_name = text "flexible"

abbrev pub absolute_min_mbps : ℤ
absolute_min_mbps = pos 10

abbrev pub absolute_max_mbps : ℤ
absolute_max_mbps = pos 8192

abbrev at_least : ℤ → ℤ → ℤ
at_least low x = if int_lt x low then low else x

abbrev at_most : ℤ → ℤ → ℤ
at_most high x = if int_lt high x then high else x

-- The five corrections of the limits, in their order.
unfoldable pub flex_limits : ℤ → ℤ → ℤ × ℤ
flex_limits min max =
    let min1 = at_least absolute_min_mbps min in
    let max1 = at_least absolute_min_mbps max in
    let min2 = at_most absolute_max_mbps min1 in
    let max2 = at_most absolute_max_mbps max1 in (min2, if int_lt max2 min2 then min2 else max2)

-- DefaultLBShape, DefaultFlexShapeMinMbps and DefaultFlexShapeMaxMbps, which flags set.
pub record ShapeDefaults : Type 0 where
  pub shape : Str
  pub min_mbps : ℤ
  pub max_mbps : ℤ

abbrev or_default : Bool → ℤ → Str → Str
or_default use_default n s = if use_default then itoa n else s

-- The shape's name, and its limits where it is flexible.
unfoldable pub get_lb_shape : ShapeDefaults → Map Str → Result (Str × Option (ℤ × ℤ))
get_lb_shape defaults annotations =
    let set_shape = get_annotation annotations (text "oci-load-balancer-shape") in
    let named = if is_empty set_shape then defaults.shape else set_shape in
    let min = get_annotation annotations (text "oci-load-balancer-shape-flex-min") in
    let max = get_annotation annotations (text "oci-load-balancer-shape-flex-max") in
    let use_default = is_empty max && is_empty min in
    let min_s = or_default use_default defaults.min_mbps min in
    let max_s = or_default use_default defaults.max_mbps max in
    if not (str_eq (to_lower named) flexible_shape_name)
    then ok (named, none)
    else if is_empty min_s || is_empty max_s
    then err (message (text "error parsing service annotation: both limits are to be set"))
    else (do
      min_mbps ← wrap (atoi min_s)
      max_mbps ← wrap (atoi max_s)
      ok (flexible_shape_name, some (flex_limits min_mbps max_mbps)))

-- Within the absolute limits, and in order.
abbrev pub InLimits : ℤ × ℤ → Type 0
InLimits (min, max) =
    (int_lt min absolute_min_mbps ≡ false)
    × ((int_lt max min ≡ false) × (int_lt absolute_max_mbps max ≡ false))

clamped :
    (x : ℤ)
    → (n : ℕ) × (at_most absolute_max_mbps (at_least absolute_min_mbps x) ≡ pos n)
      × (10 ≤ n)
      × (n ≤ 8192)
clamped (negsuc n) = (10, refl, omega arith, omega arith)
clamped (pos n) = elim (Bool-cases (ltb n 10)) [
  | inl e ↦ (10, rw e refl, omega arith, omega arith)
  | inr e ↦ elim (Bool-cases (ltb 8192 n)) [
    | inl f ↦ (8192, rw e (rw f refl), omega arith, omega arith)
    | inr f ↦ (n, rw e (rw f refl), ground arith, ground arith)
  ]
]

limits-InLimits : (min max : ℤ) → InLimits (flex_limits min max)
unfolding flex_limits
limits-InLimits min max =
    let (a, ea, la, ha) = clamped min in
    let (b, eb, lb, hb) = clamped max in rw (ea, eb) (ordered a b la ha hb)
  where
    ordered :
        (a b : ℕ)
        → 10 ≤ a
        → a ≤ 8192
        → b ≤ 8192
        → InLimits (pos a, if ltb b a then pos a else pos b)
    ordered a b la ha hb = elim (Bool-cases (ltb b a)) [
      | inl e ↦ rw e (ground arith, (ground arith, ground arith))
      | inr e ↦ rw e (ground arith, (ground arith, ground arith))
    ]

-- The shape that the annotation names, or the default
abbrev pub chosen_shape : ShapeDefaults → Str → Str
chosen_shape defaults [] = defaults.shape
chosen_shape defaults (c ∷ s) = c ∷ s

abbrev pub ShapeIs : ShapeDefaults → Map Str → Str → Option (ℤ × ℤ) → Type 0
ShapeIs defaults annotations shape none =
    (shape ≡ chosen_shape defaults (get_annotation annotations (text "oci-load-balancer-shape")))
    × (str_eq (to_lower shape) flexible_shape_name ≡ false)
ShapeIs defaults annotations shape (some limits) = (shape ≡ flexible_shape_name) × InLimits limits

abbrev with_limits : Result ℤ → Result ℤ → Result (Str × Option (ℤ × ℤ))
with_limits min max = do
  min_mbps ← wrap min
  max_mbps ← wrap max
  ok (flexible_shape_name, some (flex_limits min_mbps max_mbps))

abbrev by_tests : Bool → Bool → Str → Result ℤ → Result ℤ → Result (Str × Option (ℤ × ℤ))
by_tests flexible missing named min max =
    if not flexible
    then ok (named, none)
    else if missing
    then err (message (text "error parsing service annotation: both limits are to be set"))
    else with_limits min max

without_limits :
    (flexible missing : Bool) (named shape : Str) (min max : Result ℤ)
    → by_tests flexible missing named min max ≡ ok (shape, none)
    → (flexible ≡ false) × (named ≡ shape)
without_limits false missing named shape min max h = (refl, cc)
without_limits true true named shape min max h = cc
without_limits true false named shape (ok x) (ok y) h = cc
without_limits true false named shape (ok x) (err e) h = cc
without_limits true false named shape (err e) max h = cc

same_limits :
    {u v : Str} {l m : ℤ × ℤ}
    → ◌≡◌ {A = Result (Str × Option (ℤ × ℤ))} (ok (u, some l)) (ok (v, some m))
    → l ≡ m
same_limits h = cc

having_limits :
    (flexible missing : Bool) (named shape : Str) (min max : Result ℤ) (limits : ℤ × ℤ)
    → by_tests flexible missing named min max ≡ ok (shape, some limits)
    → (shape ≡ flexible_shape_name) × InLimits limits
having_limits false missing named shape min max limits h = cc
having_limits true true named shape min max limits h = cc
having_limits true false named shape (ok x) (ok y) limits h =
    (cc, subst InLimits (same_limits h) (limits-InLimits x y))
having_limits true false named shape (ok x) (err e) limits h = cc
having_limits true false named shape (err e) max limits h = cc

chosen_shape_lem :
    (defaults : ShapeDefaults) (s : Str)
    → (if is_empty s then defaults.shape else s) ≡ chosen_shape defaults s
chosen_shape_lem defaults [] = refl
chosen_shape_lem defaults (c ∷ s) = refl

-- Whatever the defaults: where a shape has limits it is the flexible one, and they are in order and
-- between 10 and 8192; where it has none it is what the annotation names, or the default where it
-- names nothing, and this is no spelling of `flexible`.
pub get_lb_shape-InLimits :
    (defaults : ShapeDefaults) (annotations : Map Str) (shape : Str) (limits : Option (ℤ × ℤ))
    → get_lb_shape defaults annotations ≡ ok (shape, limits)
    → ShapeIs defaults annotations shape limits
unfolding get_lb_shape
get_lb_shape-InLimits defaults annotations shape none h =
    let (fixed, same) = without_limits _ _ _ shape _ _ h in
    (
      sym same
          ∙ chosen_shape_lem defaults (get_annotation annotations (text "oci-load-balancer-shape")),
      subst (λ s. str_eq (to_lower s) flexible_shape_name ≡ false) same fixed,
    )
get_lb_shape-InLimits defaults annotations shape (some limits) h =
    having_limits _ _ _ shape _ _ limits h

abbrev pub known_policies : List Str
known_policies = text "IP_HASH" ∷ text "LEAST_CONNECTIONS" ∷ text "ROUND_ROBIN" ∷ []

unfoldable pub get_load_balancer_policy : Map Str → Result Str
get_load_balancer_policy annotations =
    let policy = get_annotation annotations (text "oci-load-balancer-policy") in
    if is_empty policy
    then ok (text "ROUND_ROBIN")
    else if any (str_eq policy) known_policies
    then ok policy
    else err (message (text "loadbalancer policy is not valid"))
