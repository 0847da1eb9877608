-- ===== src/Ingress/Tls/Parsed.antt =====
-- ParseCertificatesFromPEM: the certificates of a text, and that its loop ends.
use mathlib.Core.List.{append-nil, append_assoc}
use oci_lb_ingress_controlle.Ingress.Tls.{
  PemBlock, X509Certificate, Crypto, certificates_from, parse_certificates_from_pem, parsed,
}
use oci_lb_ingress_controlle.Base.{
  if◌then◌else◌, Bool-cases, Option-cases, length, is_empty, Str, text, str_eq, trim_space,
  trim_left, trim_right, is_space, Error, message, ok, err, ℕ, zero, suc, ◌≤◌, some, List, [], ◌∷◌,
  ◌++◌, ◌≡◌, ◌↔◌, ◌⊎◌, refl, sym, ap, ◌∙◌, inl, inr, true, false, arith, Result-cases,
}

length-trim_left : (s : Str) → length (trim_left s) ≤ length s
unfolding trim_left
length-trim_left [] = omega arith
length-trim_left (c ∷ s) = elim (Bool-cases (is_space c)) [
  | inl e ↦ rw e (omega (arith, length-trim_left s))
  | inr e ↦ rw e (omega arith)
]

kept_after :
    (c : ℕ) (n : ℕ) (r : Str)
    → length r ≤ n
    → length {A = ℕ}
        (elim r as (λ x. Str) [ [] ↦ if is_space c then [] else c ∷ [] | d ∷ more ↦ c ∷ d ∷ more ])
      ≤ suc n
kept_after c n [] h = elim (Bool-cases (is_space c)) [
  | inl e ↦ rw e (omega arith)
  | inr e ↦ rw e (omega arith)
]
kept_after c n (d ∷ more) h = omega arith

length-trim_right : (s : Str) → length (trim_right s) ≤ length s
unfolding trim_right
length-trim_right [] = omega arith
length-trim_right (c ∷ s) = kept_after c (length s) (trim_right s) (length-trim_right s)

length-trim_space : (s : Str) → length (trim_space s) ≤ length s
unfolding trim_space
length-trim_space s = omega (arith, length-trim_right (trim_left s), length-trim_left s)

module _ (crypto : Crypto) where
  -- What is read of a block
  pub record IsRead (content rest : Str) (x : X509Certificate) : Type 0 where
    pub text_of : Str
    pub first : ℕ
    pub block : PemBlock
    pub trimmed : trim_space content ≡ first ∷ text_of
    pub decoded : crypto.decode (first ∷ text_of) ≡ some (block, rest)
    pub certificate : str_eq block.type (text "CERTIFICATE") ≡ true
    pub parses : crypto.parse_certificate block.bytes ≡ ok x

  -- As decode finds them, each after the white space of what the one before it leaves: a block for
  -- each of these certificates, and then nothing but white space.
  abbrev pub HasCertificates : Str → List X509Certificate → Type 0
  HasCertificates content [] = trim_space content ≡ []
  HasCertificates content (x ∷ certs) =
      (rest : Str) × IsRead content rest x × HasCertificates rest certs

  -- The rest of a block is shorter than the text.
  abbrev pub Progresses : Type 0
  Progresses =
      (s rest : Str) (block : PemBlock)
      → crypto.decode s ≡ some (block, rest)
      → suc (length rest) ≤ length s

  module _ (fuel : ℕ) (content : Str) (acc : List X509Certificate) where
    at_end : trim_space content ≡ [] → certificates_from crypto (suc fuel) content acc ≡ parsed acc
    unfolding certificates_from
    at_end e = rw (e, certificates_from) refl

    after_block :
        (rest : Str) (x : X509Certificate)
        → IsRead content rest x
        → certificates_from crypto (suc fuel) content acc
          ≡ certificates_from crypto fuel rest (acc ++ (x ∷ []))
    unfolding certificates_from
    after_block rest x h =
        rw (h.trimmed, h.decoded, h.certificate, h.parses, certificates_from) refl

  read-Shorter :
      Progresses
      → (content rest : Str) (x : X509Certificate) → IsRead content rest x
      → suc (length rest) ≤ length content
  read-Shorter progress content rest x h =
      let k = ap length h.trimmed in
      omega
        (arith, progress (h.first ∷ h.text_of) rest h.block h.decoded, length-trim_space content)

  read_all :
      Progresses
      → (certs acc : List X509Certificate) (fuel : ℕ) (content : Str)
      → HasCertificates content certs
      → suc (length content) ≤ fuel
      → certificates_from crypto fuel content acc ≡ parsed (acc ++ certs)
  read_all progress [] acc zero content h le = absurd (omega arith)
  read_all progress (x ∷ certs) acc zero content h le = absurd (omega arith)
  read_all progress [] acc (suc fuel) content h le =
      at_end fuel content acc h ∙ ap parsed (sym (append-nil acc))
  read_all progress (x ∷ certs) acc (suc fuel) content (rest, h, more) le =
      after_block fuel content acc rest x h
      ∙ read_all progress certs (acc ++ (x ∷ [])) fuel rest more
          (omega (arith, read-Shorter progress content rest x h))
      ∙ ap parsed (append_assoc acc (x ∷ []) certs)

  -- What a round of the loop does
  Round : Str → List X509Certificate → Type 0
  Round content acc =
      (trim_space content ≡ [])
      ⊎ (((rest : Str) × (x : X509Certificate) × IsRead content rest x)
          ⊎ ((e : Error) × ((fuel : ℕ) → certificates_from crypto (suc fuel) content acc ≡ err e)))

  round : (content : Str) (acc : List X509Certificate) → Round content acc
  unfolding Round certificates_from
  round content acc = from (trim_space content) refl
    where
      parsing :
          (c : ℕ) (s : Str)
          → trim_space content ≡ c ∷ s
          → (block : PemBlock) (rest : Str) → crypto.decode (c ∷ s) ≡ some (block, rest)
          → str_eq block.type (text "CERTIFICATE") ≡ true
          → Round content acc
      parsing c s e block rest d t = elim (Result-cases (crypto.parse_certificate block.bytes)) [
        | inl (x, p) ↦ inr (
            inl (
              rest,
              x,
              record {
                text_of = s;
                first = c;
                block = block;
                trimmed = e;
                decoded = d;
                certificate = t;
                parses = p;
              },
            ))
        | inr (problem, p) ↦ inr (inr (problem, λ fuel. rw (e, d, t, p, certificates_from) refl))
      ]

      from : (t : Str) → trim_space content ≡ t → Round content acc
      from [] e = inl e
      from (c ∷ s) e = elim (Option-cases (crypto.decode (c ∷ s))) [
        | inl d ↦ inr (
            inr (
              message (text "no certificate PEM data found"),
              λ fuel. rw (e, d, certificates_from) refl,
            ))
        | inr ((block, rest), d) ↦ elim (Bool-cases (str_eq block.type (text "CERTIFICATE"))) [
          | inl t ↦ parsing c s e block rest d t
          | inr t ↦ inr (
              inr (message (text "invalid PEM type"), λ fuel. rw (e, d, t, certificates_from) refl))
        ]
      ]

  enough_fuel :
      Progresses
      → (fuel more : ℕ) (content : Str) (acc : List X509Certificate) → suc (length content) ≤ fuel
      → suc (length content) ≤ more
      → certificates_from crypto fuel content acc ≡ certificates_from crypto more content acc
  unfolding Round
  enough_fuel progress zero more content acc le le' = absurd (omega arith)
  enough_fuel progress (suc fuel) zero content acc le le' = absurd (omega arith)
  enough_fuel progress (suc fuel) (suc more) content acc le le' = elim (round content acc) [
    | inl ended ↦ at_end fuel content acc ended ∙ sym (at_end more content acc ended)
    | inr (inl (rest, x, h)) ↦
        after_block fuel content acc rest x h
        ∙ enough_fuel progress fuel more rest (acc ++ (x ∷ []))
            (omega (arith, read-Shorter progress content rest x h))
            (omega (arith, read-Shorter progress content rest x h))
        ∙ sym (after_block more content acc rest x h)
    | inr (inr (problem, failed)) ↦ failed fuel ∙ sym (failed more)
  ]

  parsed-same :
      (acc certs : List X509Certificate)
      → parsed acc ≡ ok certs
      → (is_empty certs ≡ false) × (certs ≡ acc)
  parsed-same [] certs e = absurd (ground arith)
  parsed-same (c ∷ acc) certs e = let same : certs ≡ c ∷ acc = cc in (rw same refl, same)

  blocks_only :
      (fuel : ℕ) (content : Str) (acc certs : List X509Certificate)
      → certificates_from crypto fuel content acc ≡ ok certs
      → (is_empty certs ≡ false)
        × (more : List X509Certificate) × (certs ≡ acc ++ more)
        × HasCertificates content more
  unfolding certificates_from Round
  blocks_only zero content acc certs e = absurd (ground arith)
  blocks_only (suc fuel) content acc certs e = elim (round content acc) [
    | inl ended ↦
        let (full, same) = parsed-same acc certs (sym (at_end fuel content acc ended) ∙ e) in
        (full, [], same ∙ sym (append-nil acc), ended)
    | inr (inl (rest, x, h)) ↦
        let (full, more, same, has) =
          blocks_only fuel rest (acc ++ (x ∷ [])) certs
            (sym (after_block fuel content acc rest x h) ∙ e) in
        (full, x ∷ more, same ∙ append_assoc acc (x ∷ []) more, (rest, h, has))
    | inr (inr (problem, failed)) ↦ absurd (let k = sym (failed fuel) ∙ e in ground arith)
  ]

  -- Where what decode leaves after a block is shorter than the text that it is given: the loop of
  -- ParseCertificatesFromPEM ends within a round for each byte and one more, since more fuel does
  -- not change its result; and it returns certificates exactly where decode, given the text and
  -- then what it left, with white space off both ends, finds blocks of the type CERTIFICATE that
  -- parse to these certificates, in their order, until nothing is left, and there is at least one.
  -- What decode makes of text between blocks is its own.
  pub parse_certificates_from_pem-exact :
      Progresses
      → (content : Str) (certs : List X509Certificate) (fuel : ℕ) → suc (length content) ≤ fuel
      → (certificates_from crypto fuel content [] ≡ parse_certificates_from_pem crypto content)
        × ((parse_certificates_from_pem crypto content ≡ ok certs)
            ↔ (HasCertificates content certs × (is_empty certs ≡ false)))
  unfolding parse_certificates_from_pem
  parse_certificates_from_pem-exact progress content certs fuel le = (
    enough_fuel progress fuel (suc (length content)) content [] le (omega arith),
    (
      (λ e. (has e, (blocks_only (suc (length content)) content [] certs e).0)),
      λ h.
          read_all progress certs [] (suc (length content)) content h.0 (omega arith)
          ∙ returned certs h.1,
    ),
  )
    where
      has :
          certificates_from crypto (suc (length content)) content [] ≡ ok certs
          → HasCertificates content certs
      has e =
          let (full, more, same, h) = blocks_only (suc (length content)) content [] certs e in
          rw same h

      returned : (certs : List X509Certificate) → is_empty certs ≡ false → parsed certs ≡ ok certs
      returned [] h = absurd (ground arith)
      returned (c ∷ certs) h = refl
