-- ===== src/Ingress/Routing/Patterns/Conditions.antt =====
-- The condition that the program makes of each pattern.
use oci_lb_ingress_controlle.Ingress.Routing.Patterns.Language.{
  Pattern, exactly, starting, ending, containing, between, pattern_text, IsPattern, eq, sw, ew, cw,
  tests, all_text,
}
use oci_lb_ingress_controlle.Ingress.Names.{ends_with, trim_right_byte}
use oci_lb_ingress_controlle.Ingress.Routing.{
  path_test, starts_with, is_plain, middle_parts, trim_left_byte, path_condition,
}
use oci_lb_ingress_controlle.Ingress.Routing.Bytes.{
  plain-star_free, plain-not_empty, contains-append, split_at-free, split_at-append,
  ends_with-append, take-append, take_but_last, trim_right-star,
}
use oci_lb_ingress_controlle.Base.{
  ◌==◌, length, take, is_empty, length-append, Str, has_prefix, contains_byte, split_at, split, ok,
  ℕ, ◌-◌, ◌≡◌, refl, true, false, none, some, [], ◌∷◌, ◌++◌, arith,
}

starred : (s : Str) → contains_byte b'*' (s ++ (b'*' ∷ [])) ≡ true
unfolding contains_byte
starred s = rw (contains-append b'*' s (b'*' ∷ [])) (ground arith)

-- A plain text does not begin with a star.
plain-starts : (s t : Str) → is_plain s ≡ true → starts_with b'*' (s ++ t) ≡ false
unfolding has_prefix contains_byte
plain-starts [] t h = ground arith
plain-starts (c ∷ s) t h = ground arith

plain-ends : (s : Str) → is_plain s ≡ true → ends_with b'*' s ≡ false
unfolding ends_with contains_byte
plain-ends [] h = refl
plain-ends (c ∷ []) h = ground arith
plain-ends (c ∷ d ∷ s) h = ground (arith, plain-ends (d ∷ s))

condition-exactly : (s : Str) → is_plain s ≡ true → path_condition s ≡ ok (all_text (eq s ∷ []))
unfolding path_condition path_test
condition-exactly s h = rw (plain-star_free s h) refl

middle-starting :
    (s : Str) → is_plain s ≡ true → middle_parts (split b'*' (s ++ (b'*' ∷ []))) ≡ none
unfolding split_at
middle-starting s h = rw (split_at-append b'*' s [] (plain-star_free s h)) (ground arith)

condition-starting :
    (s : Str) → is_plain s ≡ true → path_condition (s ++ (b'*' ∷ [])) ≡ ok (all_text (sw s ∷ []))
unfolding path_condition path_test
condition-starting s h =
    rw
      (
        starred s,
        middle-starting s h,
        plain-starts s (b'*' ∷ []) h,
        ends_with-append b'*' b'*' s,
        take_but_last s b'*',
        h,
      )
      refl

middle-ending : (s : Str) → is_plain s ≡ true → middle_parts (split b'*' (b'*' ∷ s)) ≡ none
unfolding split_at
middle-ending s h = rw (split_at-free b'*' s (plain-star_free s h)) (ground arith)

condition-ending :
    (s : Str) → is_plain s ≡ true → path_condition (b'*' ∷ s) ≡ ok (all_text (ew s ∷ []))
unfolding path_condition path_test contains_byte has_prefix
condition-ending s h = rw (middle-ending s h, h) refl

middle-containing :
    (s : Str) → is_plain s ≡ true → middle_parts (split b'*' (b'*' ∷ (s ++ (b'*' ∷ [])))) ≡ none
unfolding split_at
middle-containing s h = rw (split_at-append b'*' s [] (plain-star_free s h)) refl

-- What is between the first byte and the last
inner_text : (s : Str) → take (length (b'*' ∷ (s ++ (b'*' ∷ []))) - 2) (s ++ (b'*' ∷ [])) ≡ s
inner_text s =
    let e : length (b'*' ∷ (s ++ (b'*' ∷ []))) - 2 ≡ length s =
      omega (arith, length-append s (b'*' ∷ [])) in
    rw e (take-append s (b'*' ∷ []))

append-not_empty : (s : Str) → is_empty (s ++ (b'*' ∷ [])) ≡ false
append-not_empty [] = refl
append-not_empty (c ∷ s) = refl

init_star_free :
    (s : Str)
    → is_plain (take (length (b'*' ∷ (s ++ (b'*' ∷ []))) - 1) (b'*' ∷ (s ++ (b'*' ∷ [])))) ≡ false
unfolding contains_byte
init_star_free s = rw (take_but_last (b'*' ∷ s) b'*') refl

core_text :
    (s : Str)
    → is_plain s ≡ true
    → trim_right_byte b'*' (trim_left_byte b'*' (b'*' ∷ (s ++ (b'*' ∷ [])))) ≡ s
unfolding trim_left_byte
core_text [] h = absurd (ground arith)
core_text (c ∷ s) h =
    let plain = plain-star_free (c ∷ s) h in
    let other : (c == b'*') ≡ false = first_other c s plain in
    rw other (trim_right-star (c ∷ s) plain)
  where
    first_other : (c : ℕ) (s : Str) → contains_byte b'*' (c ∷ s) ≡ false → (c == b'*') ≡ false
    first_other c s h = unfold contains_byte in ground arith

condition-containing :
    (s : Str)
    → is_plain s ≡ true
    → path_condition (b'*' ∷ (s ++ (b'*' ∷ []))) ≡ ok (all_text (cw s ∷ []))
unfolding path_condition path_test contains_byte has_prefix
condition-containing s h =
    rw
      (
        middle-containing s h,
        starred s,
        append-not_empty s,
        init_star_free s,
        ends_with-append b'*' b'*' (b'*' ∷ s),
        core_text s h,
        h,
        inner_text s,
      )
      refl

middle-between :
    (a b : Str)
    → is_plain a ≡ true
    → is_plain b ≡ true
    → middle_parts (split b'*' (a ++ (b'*' ∷ b))) ≡ some (a, b)
middle-between a b ha hb =
    rw
      (
        split_at-append b'*' a b (plain-star_free a ha),
        split_at-free b'*' b (plain-star_free b hb),
        plain-not_empty a ha,
        plain-not_empty b hb,
      )
      refl

condition-between :
    (a b : Str)
    → is_plain a ≡ true
    → is_plain b ≡ true
    → path_condition (a ++ (b'*' ∷ b)) ≡ ok (all_text (sw a ∷ ew b ∷ []))
unfolding path_condition path_test contains_byte
condition-between a b ha hb =
    rw (contains-append b'*' a (b'*' ∷ b), middle-between a b ha hb) (ground arith)

pub condition-pattern :
    (p : Pattern) → IsPattern p → path_condition (pattern_text p) ≡ ok (all_text (tests p))
unfolding pattern_text
condition-pattern (exactly s) h = condition-exactly s h.0
condition-pattern (starting s) h = condition-starting s h.0
condition-pattern (ending s) h = condition-ending s h.0
condition-pattern (containing s) h = condition-containing s h.0
condition-pattern (between a b) (ha, hb) = condition-between a b ha.0 hb.0

pub pattern-not_empty : (p : Pattern) → IsPattern p → is_empty (pattern_text p) ≡ false
unfolding pattern_text
pattern-not_empty (exactly s) h = plain-not_empty s h.0
pattern-not_empty (starting []) h = refl
pattern-not_empty (starting (c ∷ s)) h = refl
pattern-not_empty (ending s) h = refl
pattern-not_empty (containing s) h = refl
pattern-not_empty (between [] b) h = refl
pattern-not_empty (between (c ∷ a) b) h = refl
