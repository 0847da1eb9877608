-- ===== src/Ingress/Routing/Bytes.antt =====
-- Texts with and without a byte: where they are split and what is trimmed off them.
use oci_lb_ingress_controlle.Ingress.Names.{ends_with, trim_right_byte}
use oci_lb_ingress_controlle.Ingress.Routing.{is_plain, trim_left_byte}
use oci_lb_ingress_controlle.Base.{
  ◌==◌, length, take, is_empty, length-append, Str, contains_byte, split_at, ℕ, ◌-◌, ◌≡◌, refl, ap,
  true, false, ◌||◌, [], ◌∷◌, ◌++◌, arith,
}

pub plain-star_free : (s : Str) → is_plain s ≡ true → contains_byte b'*' s ≡ false
plain-star_free s h = ground arith

pub plain-not_empty : (s : Str) → is_plain s ≡ true → is_empty s ≡ false
plain-not_empty s h = ground arith

pub contains-append :
    (b : ℕ) (s t : Str) → contains_byte b (s ++ t) ≡ (contains_byte b s || contains_byte b t)
unfolding contains_byte
contains-append b [] t = refl
contains-append b (c ∷ s) t = ground (arith, contains-append b s t)

pub split_at-free : (b : ℕ) (s : Str) → contains_byte b s ≡ false → split_at b s ≡ (s, [])
unfolding split_at contains_byte
split_at-free b [] h = refl
split_at-free b (c ∷ s) h = ground (arith, split_at-free b s)

pub split_at-append :
    (b : ℕ) (s t : Str)
    → contains_byte b s ≡ false
    → split_at b (s ++ (b ∷ t)) ≡ (s, (split_at b t).0 ∷ (split_at b t).1)
unfolding split_at contains_byte
split_at-append b [] t h = ground arith
split_at-append b (c ∷ s) t h = ground (arith, split_at-append b s t)

pub ends_with-append : (b c : ℕ) (s : Str) → ends_with b (s ++ (c ∷ [])) ≡ (c == b)
unfolding ends_with
ends_with-append b c [] = refl
ends_with-append b c (d ∷ []) = refl
ends_with-append b c (d ∷ e ∷ s) = ends_with-append b c (e ∷ s)

pub take-append : (s t : Str) → take (length s) (s ++ t) ≡ s
take-append [] t = refl
take-append (c ∷ s) t = ap (λ r. c ∷ r) (take-append s t)

pub take_but_last : (s : Str) (c : ℕ) → take (length (s ++ (c ∷ [])) - 1) (s ++ (c ∷ [])) ≡ s
take_but_last s c =
    let e : length (s ++ (c ∷ [])) - 1 ≡ length s = omega (arith, length-append s (c ∷ [])) in
    rw e (take-append s (c ∷ []))

trim_left-free : (s : Str) → contains_byte b'*' s ≡ false → trim_left_byte b'*' s ≡ s
unfolding trim_left_byte contains_byte
trim_left-free [] h = refl
trim_left-free (c ∷ s) h = ground arith

trim_right-free : (s : Str) → contains_byte b'*' s ≡ false → trim_right_byte b'*' s ≡ s
unfolding trim_right_byte contains_byte
trim_right-free [] h = refl
trim_right-free (c ∷ s) h = ground (arith, trim_right-free s)

pub trim_right-star :
    (s : Str) → contains_byte b'*' s ≡ false → trim_right_byte b'*' (s ++ (b'*' ∷ [])) ≡ s
unfolding trim_right_byte contains_byte
trim_right-star [] h = refl
trim_right-star (c ∷ s) h = ground (arith, trim_right-star s)
