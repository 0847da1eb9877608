-- ===== src/Ingress/Names/Listener.antt =====
-- The names of listeners are ones that the service accepts.
use oci_lb_ingress_controlle.Ingress.Names.{
  replace_byte, replace_pair, is_listener_byte, is_listener_name, listener_base, checked_listener,
  bounded_listener_name, get_listener_name,
}
use oci_lb_ingress_controlle.Ingress.Names.Digest.{
  is_alnum, Encoded, byte_alpha_numeric_digest-IsDigest,
}
use oci_lb_ingress_controlle.Ingress.Names.Valid.{
  is_host_byte, Host, Every, replace_pair-All, Every-take, Every-weaken, all-Every,
  HostBytes-to_lower, safe_slice-take,
}
use oci_lb_ingress_controlle.Base.{
  ltb, ◌==◌, Bool-cases, is_empty, length, length-append, length-take, take, all, All-append, Str,
  text, lower_byte, to_lower, Result, ok, ◌>>=◌, ℕ, ◌≤◌, ◌<◌, ◌≡◌, refl, inl, inr, Bool, true,
  false, ◌&&◌, ◌||◌, [], ◌∷◌, ◌++◌, arith,
}

-- A byte once the wildcard is replaced
abbrev is_dotted : ℕ → Bool
is_dotted c = is_listener_byte c || c == b'.'

dots_replaced :
    (s : Str) → Every is_dotted s → Every is_listener_byte (replace_byte b'.' (text "DOT") s)
unfolding replace_byte
dots_replaced [] h = tt
dots_replaced (c ∷ s) h = elim (Bool-cases (c == b'.')) [
  | inl e ↦ rw e (refl, (refl, (refl, dots_replaced s h.1)))
  | inr e ↦ rw e (ground (arith, h.0, e), dots_replaced s h.1)
]

dotted :
    (hostname : Str)
    → Host hostname
    → Every is_dotted (replace_pair b'*' b'.' (text "STAR") (to_lower hostname))
unfolding to_lower lower_byte replace_pair
dotted s (inl h) =
    replace_pair-All is_dotted b'*' b'.' (text "STAR") (refl, (refl, (refl, (refl, tt))))
      (to_lower s)
      (Every-weaken is_host_byte is_dotted (λ c h. ground arith) (to_lower s)
        (HostBytes-to_lower s h))
dotted s (inr (rest, e, h)) = rw e (
  refl,
  (
    refl,
    (
      refl,
      (
        refl,
        replace_pair-All is_dotted b'*' b'.' (text "STAR") (refl, (refl, (refl, (refl, tt))))
            (to_lower rest)
            (Every-weaken is_host_byte is_dotted (λ c h. ground arith) (to_lower rest)
              (HostBytes-to_lower rest h)),
      ),
    ),
  ),
)

positive_dots : (s : Str) → is_empty s ≡ false → is_empty (replace_byte b'.' (text "DOT") s) ≡ false
unfolding replace_byte
positive_dots [] h = h
positive_dots (c ∷ s) h = elim (Bool-cases (c == b'.')) [ inl e ↦ rw e refl | inr e ↦ rw e refl ]

positive_pair :
    (s : Str) → is_empty s ≡ false → is_empty (replace_pair b'*' b'.' (text "STAR") s) ≡ false
unfolding replace_pair
positive_pair [] h = h
positive_pair (c ∷ []) h = refl
positive_pair (c ∷ d ∷ s) h = elim (Bool-cases (c == b'*' && d == b'.')) [
  | inl e ↦ rw e refl
  | inr e ↦ rw e refl
]

positive_lower : (s : Str) → is_empty s ≡ false → is_empty (to_lower s) ≡ false
unfolding to_lower
positive_lower [] h = h
positive_lower (c ∷ s) h = refl

-- What is returned: a name that the service accepts.
abbrev pub IsListenerName : Result Str → Type 0
IsListenerName r = (name : Str) × (r ≡ ok name) × (is_listener_name name ≡ true)

accepted :
    (name : Str)
    → Every is_listener_byte name
    → 1 ≤ length name
    → length name ≤ 255
    → is_listener_name name ≡ true
unfolding is_listener_name
accepted name h low high =
    let each = all-Every is_listener_byte name h in ground (arith, each, low, high)

length-nonempty : (s : Str) → is_empty s ≡ false → 1 ≤ length s
length-nonempty [] h = absurd (ground arith)
length-nonempty (c ∷ s) h = omega arith

below : (n m : ℕ) → ltb n m ≡ false → m ≤ n
below n m h = ground arith

above : (n m : ℕ) → ltb n m ≡ true → n < m
above n m h = ground arith

module _ (base64_md5 : Str → Str) (encodes : (bytes : Str) → Encoded (base64_md5 bytes)) where
  bounded :
      (hostname name : Str)
      → Every is_listener_byte name
      → is_empty name ≡ false
      → IsListenerName (bounded_listener_name base64_md5 hostname name >>= checked_listener)
  bounded hostname name h k = elim (Bool-cases (ltb 240 (length name))) [
    | inl e ↦
        let (digest, f, l, d) = byte_alpha_numeric_digest-IsDigest base64_md5 encodes hostname 15 in
        let whole = take 240 name ++ digest in
        let every : Every is_listener_byte whole =
          All-append (λ c. is_listener_byte c ≡ true) (take 240 name) digest
            (Every-take is_listener_byte 240 name h)
            (Every-weaken is_alnum is_listener_byte (λ c h. ground arith) digest d) in
        let size : length whole ≡ 255 = omega (
          arith,
          length-append (take 240 name) digest,
          length-take 240 name,
          l,
          above 240 (length name) e,
        ) in
        let cut : length (take 255 whole) ≡ 255 = omega (arith, length-take 255 whole, size) in
        let good : is_listener_name (take 255 whole) ≡ true =
          accepted (take 255 whole) (Every-take is_listener_byte 255 whole every)
            (omega (arith, cut)) (omega (arith, cut)) in
        rw e (rw f (rw (safe_slice-take 255 whole) (rw good (take 255 whole, refl, good))))
    | inr e ↦
        let good : is_listener_name name ≡ true =
          accepted name h (length-nonempty name k) (omega (arith, below 240 (length name) e)) in
        rw e (rw good (name, refl, good))
  ]

  -- A listener's name is made of every host that an ingress can have, with no panic, and is one that
  -- the service accepts. The parameter is MD5 in base64, of 22 bytes of the alphabet and two of
  -- padding.
  pub get_listener_name-IsListenerName :
      (hostname : Str) → Host hostname → IsListenerName (get_listener_name base64_md5 hostname)
  unfolding get_listener_name listener_base is_listener_name all
  get_listener_name-IsListenerName hostname h = elim (Bool-cases (is_empty hostname)) [
    | inl e ↦ rw e (text "any-host", refl, refl)
    | inr e ↦
        let lowered = to_lower hostname in
        let paired = replace_pair b'*' b'.' (text "STAR") lowered in
        rw e (
          bounded hostname (replace_byte b'.' (text "DOT") paired)
            (dots_replaced paired (dotted hostname h))
            (positive_dots paired (positive_pair lowered (positive_lower hostname e))))
  ]
