-- ===== src/Ingress/Tls/Tests.antt =====
-- A run on a text whose bytes each stand for a block.
use oci_lb_ingress_controlle.Ingress.Tls.{
  PemBlock, X509Certificate, Crypto, certificates_from, parse_certificates_from_pem,
}
use oci_lb_ingress_controlle.Ingress.Tls.Parsed.{
  Progresses, HasCertificates, parse_certificates_from_pem-exact,
}
use oci_lb_ingress_controlle.Base.{
  length, is_empty, Str, text, str_eq, trim_space, trim_left, trim_right, is_space, ok, Option,
  none, some, List, [], ◌∷◌, ◌≡◌, ◌↔◌, refl, ap, false, arith,
}

abbrev decode_byte : Str → Option (PemBlock × Str)
decode_byte [] = none
decode_byte (c ∷ s) = some (record { type = text "CERTIFICATE"; bytes = c ∷ [] }, s)

abbrev certificate_of : Str → X509Certificate
certificate_of bytes = record { signature = bytes; raw = bytes }

abbrev bytewise : Crypto
bytewise = record { decode = decode_byte; parse_certificate = λ bytes. ok (certificate_of bytes) }

decode_byte-Progresses : Progresses bytewise
decode_byte-Progresses [] rest block e = absurd (ground arith)
decode_byte-Progresses (c ∷ s) rest block e = let same = ap left e in omega (arith, ap length same)
  where
    left : Option (PemBlock × Str) → Str
    left none = []
    left (some (b, r)) = r

abbrev two_certificates : List X509Certificate
two_certificates = certificate_of (text "a") ∷ certificate_of (text "b") ∷ []

two_blocks_run : parse_certificates_from_pem bytewise (text "a b") ≡ ok two_certificates
unfolding parse_certificates_from_pem certificates_from trim_space trim_left trim_right is_space
    str_eq
two_blocks_run = refl

parse_certificates_from_pem-exact_example :
    (certificates_from bytewise 9 (text "a b") []
      ≡ parse_certificates_from_pem bytewise (text "a b"))
    × ((parse_certificates_from_pem bytewise (text "a b") ≡ ok two_certificates) ↔ (
        HasCertificates bytewise (text "a b") two_certificates
        × (is_empty two_certificates ≡ false)))
parse_certificates_from_pem-exact_example =
    parse_certificates_from_pem-exact bytewise decode_byte-Progresses (text "a b") two_certificates
      9 (omega arith)
