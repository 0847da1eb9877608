-- ===== src/Ingress/Names/Digest.antt =====
-- The digest has the length that is asked for, of letters and digits with a letter first.
use oci_lb_ingress_controlle.Ingress.Names.{
  replace_byte, trim_right_byte, is_letter, is_digit, gen, letter_first, extend, extended,
  byte_alpha_numeric_digest,
}
use oci_lb_ingress_controlle.Base.{
  leb, ◌==◌, if◌then◌else◌, Bool-cases, is_empty, length, length-append, length-take, take, All,
  All-append, Str, text, Result, ok, ℕ, zero, suc, ◌+◌, ◌-◌, ◌≤◌, ◌≡◌, refl, ap, ◌∙◌, inl, inr,
  Bool, true, false, ◌&&◌, ◌||◌, [], ◌∷◌, ◌++◌, arith,
}

abbrev pub is_alnum : ℕ → Bool
is_alnum c = is_letter c || is_digit c

-- Letters and digits, of a byte
abbrev pub Alnum : Str → Type 0
Alnum s = All (λ c. is_alnum c ≡ true) s

-- A byte of the standard base64 alphabet
abbrev pub is_base64 : ℕ → Bool
is_base64 c = is_alnum c || (c == b'+' || c == b'/')

-- 16 bytes in base64: 22 bytes of the alphabet, and the padding.
pub record Encoded (s : Str) : Type 0 where
  pub body : Str
  pub size : length body ≡ 22
  pub alphabet : All (λ c. is_base64 c ≡ true) body
  pub padded : s ≡ body ++ text "=="

Alnum-take : (n : ℕ) (s : Str) → Alnum s → Alnum (take n s)
Alnum-take zero s h = tt
Alnum-take (suc n) [] h = tt
Alnum-take (suc n) (c ∷ s) h = (h.0, Alnum-take n s h.1)

at_most : (n m : ℕ) → n ≤ m → leb n m ≡ true
at_most n m h = ground arith

below : (n m : ℕ) → leb n m ≡ true → n ≤ m
below n m h = ground arith

pub replace_byte-All :
    (P Q : ℕ → Bool) (old new : ℕ)
    → Q new ≡ true
    → ((c : ℕ) → P c ≡ true → (c == old) ≡ false → Q c ≡ true)
    → (s : Str) → All (λ c. P c ≡ true) s
    → All (λ c. Q c ≡ true) (replace_byte old (new ∷ []) s)
unfolding replace_byte
replace_byte-All P Q old new n h [] k = tt
replace_byte-All P Q old new n h (c ∷ s) k = elim (Bool-cases (c == old)) [
  | inl e ↦ rw e (n, replace_byte-All P Q old new n h s k.1)
  | inr e ↦ rw e (h c k.0 e, replace_byte-All P Q old new n h s k.1)
]

length-replace_byte : (old new : ℕ) (s : Str) → length (replace_byte old (new ∷ []) s) ≡ length s
unfolding replace_byte
length-replace_byte old new [] = refl
length-replace_byte old new (c ∷ s) = elim (Bool-cases (c == old)) [
  | inl e ↦ rw e (ap suc (length-replace_byte old new s))
  | inr e ↦ rw e (ap suc (length-replace_byte old new s))
]

no_padding : (c : ℕ) → is_base64 c ≡ true → (c == b'=') ≡ false
no_padding c h = ground arith

kept : (b : Bool) (s : Str) → (if b && false then [] else s) ≡ s
kept true s = refl
kept false s = refl

trim-padded :
    (s : Str) → All (λ c. is_base64 c ≡ true) s → trim_right_byte b'=' (s ++ text "==") ≡ s
unfolding trim_right_byte
trim-padded [] h = refl
trim-padded (c ∷ s) h = rw (trim-padded s h.1) (rw (no_padding c h.0) (kept (is_empty s) (c ∷ s)))

-- What is returned: a digest of the length asked for.
abbrev pub IsDigest : ℕ → Result Str → Type 0
IsDigest len r = (d : Str) × (r ≡ ok d) × (length d ≡ len) × Alnum d

module _ (base64_md5 : Str → Str) (encodes : (bytes : Str) → Encoded (base64_md5 bytes)) where
  gen-lem : (bytes : Str) → Alnum (gen base64_md5 bytes) × (length (gen base64_md5 bytes) ≡ 22)
  unfolding gen
  gen-lem bytes =
      let e = encodes bytes in
      let trimmed : trim_right_byte b'=' (base64_md5 bytes) ≡ e.body =
        ap (trim_right_byte b'=') e.padded ∙ trim-padded e.body e.alphabet in
      rw trimmed (
        replace_byte-All (λ c. is_alnum c || c == b'+') is_alnum b'+' b'b' refl
            (λ c h k. ground arith) (replace_byte b'/' (text "a") e.body)
            (replace_byte-All is_base64 (λ c. is_alnum c || c == b'+') b'/' b'a' refl
              (λ c h k. ground arith) e.body e.alphabet),
        length-replace_byte b'+' b'b' (replace_byte b'/' (text "a") e.body)
            ∙ (length-replace_byte b'/' b'a' e.body ∙ e.size),
      )

  cut :
      (digest : Str) (len : ℕ)
      → Alnum digest
      → len ≤ length digest
      → IsDigest len (ok (take len digest))
  cut digest len h k =
      (take len digest, refl, omega (arith, length-take len digest), Alnum-take len digest h)

  extend-IsDigest :
      (fuel : ℕ) (digest : Str) (len : ℕ)
      → Alnum digest
      → len ≤ length digest + fuel
      → IsDigest len (extend base64_md5 fuel digest len)
  unfolding extend
  extend-IsDigest zero digest len h k =
      let enough : leb len (length digest) ≡ true =
        at_most len (length digest) (omega (arith, k)) in
      rw enough (cut digest len h (omega (arith, k)))
  extend-IsDigest (suc fuel) digest len h k = elim (Bool-cases (leb len (length digest))) [
    | inl e ↦ rw e (cut digest len h (below len (length digest) e))
    | inr e ↦
        let more = gen-lem digest in
        rw e (
          extend-IsDigest fuel (digest ++ gen base64_md5 digest) len
            (All-append (λ c. is_alnum c ≡ true) digest (gen base64_md5 digest) h more.0)
            (omega (arith, length-append digest (gen base64_md5 digest), more.1, k)))
  ]

  moved : (c : ℕ) → is_alnum c ≡ true → leb c b'9' ≡ true → is_alnum (b'a' + b'9' - c) ≡ true
  moved c h k = ground arith

  Alnum-letter_first : (c : ℕ) (s : Str) → Alnum (c ∷ s) → Alnum (letter_first base64_md5 c s)
  unfolding letter_first
  Alnum-letter_first c s h = elim (Bool-cases (leb c b'9')) [
    | inl e ↦
        rw e
          (All-append (λ d. is_alnum d ≡ true) s ((b'a' + b'9' - c) ∷ []) h.1 (moved c h.0 e, tt))
    | inr e ↦ rw e h
  ]

  extended-IsDigest :
      (g : Str) (len : ℕ) → Alnum g → length g ≡ 22 → IsDigest len (extended base64_md5 g len)
  extended-IsDigest [] len h k = absurd (omega (arith, k))
  extended-IsDigest (c ∷ s) len h k =
      extend-IsDigest len (letter_first base64_md5 c s) len (Alnum-letter_first c s h) (omega arith)

  -- The digest of any bytes is returned, with no panic and within `len` rounds of the loop: it has
  -- the length that is asked for and consists of letters and digits. The parameter is MD5 in base64,
  -- of 22 bytes of the alphabet and two of padding.
  pub byte_alpha_numeric_digest-IsDigest :
      (bytes : Str) (len : ℕ) → IsDigest len (byte_alpha_numeric_digest base64_md5 bytes len)
  unfolding byte_alpha_numeric_digest
  byte_alpha_numeric_digest-IsDigest bytes len =
      extended-IsDigest (gen base64_md5 bytes) len (gen-lem bytes).0 (gen-lem bytes).1
