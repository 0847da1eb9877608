-- ===== src/Ingress/Names/Valid.antt =====
-- The names of routing policies are ones that the service accepts.
use oci_lb_ingress_controlle.Ingress.Names.{
  safe_slice, replace_byte, replace_pair, is_letter, is_digit, is_word, is_routing_policy_name,
  starts_with_digit, policy_base, checked, get_routing_policy_name,
}
use oci_lb_ingress_controlle.Ingress.Names.Digest.{
  is_alnum, Alnum, Encoded, replace_byte-All, byte_alpha_numeric_digest-IsDigest,
}
use oci_lb_ingress_controlle.Base.{
  leb, ltb, ◌==◌, if◌then◌else◌, Bool-cases, length, length-append, length-take, take, all, All,
  All-append, Str, text, lower_byte, to_lower, Result, ok, ℕ, zero, suc, ◌-◌, ◌≡◌, refl, sym, ap,
  ◌⊎◌, inl, inr, Bool, true, false, ◌&&◌, ◌||◌, [], ◌∷◌, ◌++◌, arith,
}

-- A byte of a DNS name
abbrev pub is_host_byte : ℕ → Bool
is_host_byte c = is_alnum c || (c == b'.' || c == b'-')

abbrev pub HostBytes : Str → Type 0
HostBytes s = All (λ c. is_host_byte c ≡ true) s

-- A host of an ingress: a DNS name, a wildcard before one, or nothing.
abbrev pub Host : Str → Type 0
Host s = HostBytes s ⊎ ((rest : Str) × (s ≡ b'*' ∷ b'.' ∷ rest) × HostBytes rest)

module _ (P : ℕ → Bool) where
  abbrev pub Every : Str → Type 0
  Every s = All (λ c. P c ≡ true) s

  pub replace_pair-All :
      (a b : ℕ) (new : Str) → Every new → (s : Str) → Every s → Every (replace_pair a b new s)
  unfolding replace_pair
  replace_pair-All a b new n [] h = tt
  replace_pair-All a b new n (c ∷ []) h = h
  replace_pair-All a b new n (c ∷ d ∷ s) h = elim (Bool-cases (c == a && d == b)) [
    | inl e ↦ rw e (
        All-append (λ x. P x ≡ true) new (replace_pair a b new s) n
          (replace_pair-All a b new n s h.1.1))
    | inr e ↦ rw e (h.0, replace_pair-All a b new n (d ∷ s) h.1)
  ]

  pub Every-take : (n : ℕ) (s : Str) → Every s → Every (take n s)
  Every-take zero s h = tt
  Every-take (suc n) [] h = tt
  Every-take (suc n) (c ∷ s) h = (h.0, Every-take n s h.1)

pub Every-weaken :
    (P Q : ℕ → Bool) → ((c : ℕ) → P c ≡ true → Q c ≡ true) → (s : Str) → Every P s → Every Q s
Every-weaken P Q w [] h = tt
Every-weaken P Q w (c ∷ s) h = (w c h.0, Every-weaken P Q w s h.1)

pub all-Every : (P : ℕ → Bool) (s : Str) → Every P s → all P s ≡ true
unfolding all
all-Every P [] h = refl
all-Every P (c ∷ s) h = ground (arith, h.0, all-Every P s h.1)

lower_host_byte : (c : ℕ) → is_host_byte c ≡ true → is_host_byte (lower_byte c) ≡ true
unfolding lower_byte
lower_host_byte c h = ground arith

pub HostBytes-to_lower : (s : Str) → HostBytes s → HostBytes (to_lower s)
unfolding to_lower
HostBytes-to_lower [] h = tt
HostBytes-to_lower (c ∷ s) h = (lower_host_byte c h.0, HostBytes-to_lower s h.1)

-- After the wildcard is replaced
abbrev is_dotted : ℕ → Bool
is_dotted c = is_word c || (c == b'.' || c == b'-')

dotted_pair :
    (hostname : Str)
    → Host hostname
    → Every is_dotted (replace_pair b'*' b'.' (text "S_") (to_lower hostname))
unfolding to_lower lower_byte replace_pair
dotted_pair s (inl h) =
    replace_pair-All is_dotted b'*' b'.' (text "S_") (refl, (refl, tt)) (to_lower s)
      (Every-weaken is_host_byte is_dotted (λ c h. ground arith) (to_lower s)
        (HostBytes-to_lower s h))
dotted_pair s (inr (rest, e, h)) = rw e (
  refl,
  (
    refl,
    replace_pair-All is_dotted b'*' b'.' (text "S_") (refl, (refl, tt)) (to_lower rest)
        (Every-weaken is_host_byte is_dotted (λ c h. ground arith) (to_lower rest)
          (HostBytes-to_lower rest h)),
  ),
)

abbrev is_dashed : ℕ → Bool
is_dashed c = is_word c || c == b'-'

words :
    (s : Str)
    → Every is_dotted s
    → Every is_word (
        replace_pair b'_' b'_'
          (text "_")
          (replace_byte b'-' (text "_") (replace_byte b'.' (text "_") s)))
words s h =
    let dashed = replace_byte b'.' (text "_") s in
    replace_pair-All is_word b'_' b'_' (text "_") (refl, tt) (replace_byte b'-' (text "_") dashed)
      (replace_byte-All is_dashed is_word b'-' b'_' refl (λ c h k. ground arith) dashed
        (replace_byte-All is_dotted is_dashed b'.' b'_' refl (λ c h k. ground arith) s h))

-- A name that may begin a routing policy's name: words, and no digit first.
abbrev Begins : Str → Type 0
Begins s = Every is_word s × (starts_with_digit s ≡ false)

prefixed : (s : Str) → Every is_word s → Begins (if starts_with_digit s then text "X_" ++ s else s)
prefixed s h = elim (Bool-cases (starts_with_digit s)) [
  | inl e ↦ rw e ((refl, (refl, h)), refl)
  | inr e ↦ rw e (h, e)
]

policy_base-Begins : (hostname : Str) → Host hostname → Begins (policy_base hostname)
unfolding policy_base
policy_base-Begins hostname h =
    let replaced = replace_pair b'*' b'.' (text "S_") (to_lower hostname) in
    let joined =
      replace_pair b'_' b'_' (text "_")
        (replace_byte b'-' (text "_") (replace_byte b'.' (text "_") replaced)) in
    prefixed joined (words replaced (dotted_pair hostname h))

not_below : (n : ℕ) → ltb n 0 ≡ false
not_below n = ground arith

length-positive : (n : ℕ) (s : Str) → leb (length s) 0 ≡ true → take n s ≡ []
length-positive zero s h = refl
length-positive (suc n) [] h = refl
length-positive (suc n) (c ∷ s) h = absurd (ground arith)

take_all : (n : ℕ) (s : Str) → ltb (length s) n ≡ true → take n s ≡ s
take_all zero s h = absurd (ground arith)
take_all (suc n) [] h = refl
take_all (suc n) (c ∷ s) h = ap (λ l. c ∷ l) (take_all n s (ground arith))

minus_zero : (n : ℕ) → n - 0 ≡ n
minus_zero n = omega arith

pub safe_slice-take : (n : ℕ) (s : Str) → safe_slice s 0 n ≡ take n s
unfolding safe_slice
safe_slice-take n s = elim (Bool-cases (leb (length s) 0)) [
  | inl e ↦ rw e (sym (length-positive n s e))
  | inr e ↦ elim (Bool-cases (ltb (length s) n)) [
    | inl f ↦ rw e (rw (not_below n) (rw f (sym (take_all n s f))))
    | inr f ↦ rw e (rw (not_below n) (rw f (ap (λ k. take k s) (minus_zero n))))
  ]
]

-- A name that is long enough, begins well and has no other bytes
valid :
    (c : ℕ) (s : Str)
    → Every is_word (c ∷ s)
    → is_digit c ≡ false
    → length (c ∷ s) ≡ 32
    → is_routing_policy_name (c ∷ s) ≡ true
unfolding is_routing_policy_name
valid c s h k l =
    let first : (is_letter c || c == b'_') ≡ true = ground (arith, h.0, k) in
    let behind : length s ≡ 31 = omega (arith, l) in
    rw first (rw (all-Every is_word s h.1) (rw behind refl))

-- What is returned: a name of 32 bytes that the service accepts.
abbrev pub IsPolicyName : Result Str → Type 0
IsPolicyName r =
    (name : Str) × (r ≡ ok name) × (is_routing_policy_name name ≡ true) × (length name ≡ 32)

checked-IsPolicyName :
    (name : Str)
    → is_routing_policy_name name ≡ true
    → length name ≡ 32
    → IsPolicyName (checked name)
checked-IsPolicyName name h l = (name, rw h refl, h, l)

joined-IsPolicyName :
    (base digest : Str)
    → Begins base
    → Alnum digest
    → length digest ≡ 32
    → IsPolicyName (checked (take 32 (take 25 base ++ (b'_' ∷ digest))))
joined-IsPolicyName [] digest b d l =
    let rest = take 31 digest in
    let named : is_routing_policy_name (b'_' ∷ rest) ≡ true =
      valid b'_' rest
        (
          refl,
          Every-take is_word 31 digest
              (Every-weaken is_alnum is_word (λ c h. ground arith) digest d),
        )
        refl (omega (arith, length-take 31 digest, l)) in
    checked-IsPolicyName (b'_' ∷ rest) named (omega (arith, length-take 31 digest, l))
joined-IsPolicyName (c ∷ t) digest b d l =
    let whole = take 24 t ++ (b'_' ∷ digest) in
    let rest = take 31 whole in
    let long_enough : length (c ∷ rest) ≡ 32 =
      omega (arith, length-take 31 whole, length-append (take 24 t) (b'_' ∷ digest), l) in
    let every : Every is_word whole =
      All-append (λ x. is_word x ≡ true) (take 24 t) (b'_' ∷ digest) (Every-take is_word 24 t b.0.1)
        (refl, Every-weaken is_alnum is_word (λ x h. ground arith) digest d) in
    checked-IsPolicyName (c ∷ rest)
      (valid c rest (b.0.0, Every-take is_word 31 whole every) b.1 long_enough) long_enough

-- A routing policy's name is made of every host that an ingress can have, with no panic: it has 32
-- bytes and is one that the service accepts. The parameter is MD5 in base64, of 22 bytes of the
-- alphabet and two of padding.
pub get_routing_policy_name-IsPolicyName :
    (base64_md5 : Str → Str)
    → ((bytes : Str) → Encoded (base64_md5 bytes))
    → (hostname : Str) → Host hostname
    → IsPolicyName (get_routing_policy_name base64_md5 hostname)
unfolding get_routing_policy_name
get_routing_policy_name-IsPolicyName base64_md5 encodes hostname h =
    let (digest, e, l, d) = byte_alpha_numeric_digest-IsDigest base64_md5 encodes hostname 32 in
    let base = policy_base hostname in
    rw e (
      rw (safe_slice-take 25 base) (
        rw (safe_slice-take 32 (take 25 base ++ (b'_' ∷ digest)))
          (joined-IsPolicyName base digest (policy_base-Begins hostname h) d l)))
