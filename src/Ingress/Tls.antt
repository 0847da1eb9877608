-- ===== src/Ingress/Tls.antt =====
-- src/ingress/tls.go: the certificates of a secret. Package pem's decoding and encoding and
-- package x509's ParseCertificate are parameters. The domains of a bundle, which only the log
-- shows, are left out.
pub mod Parsed
mod Tests
use oci_lb_ingress_controlle.Controller.Handlers.{as_namespaced_name}
use oci_lb_ingress_controlle.Ingress.Names.{byte_alpha_numeric_digest}
use oci_lb_ingress_controlle.Manager.Model.{panics}
use oci_lb_ingress_controlle.Base.{
  if◌then◌else◌, length, is_empty, Str, text, str_eq, trim_space, message, wrap, Result, ok, err,
  ◌>>=◌, ℕ, zero, suc, not, Option, none, some, List, [], ◌∷◌, ◌++◌,
}

-- A missing key of a secret reads as the empty text.
pub record Secret : Type 0 where
  pub tls_crt : Str
  pub tls_key : Str
  pub ca_crt : Str

pub record PemBlock : Type 0 where
  pub type : Str
  pub bytes : Str

pub record X509Certificate : Type 0 where
  pub signature : Str
  pub raw : Str

pub record Crypto : Type 0 where
  pub decode : Str → Option (PemBlock × Str)
  pub parse_certificate : Str → Result X509Certificate

pub record CertificateBundle : Type 0 where
  pub certificate_pem : Str
  pub certificate_x509 : X509Certificate
  pub private_key_pem : Str
  pub ca_certificate_chain_pem : Option Str
  pub ca_certificate_chain_x509 : List X509Certificate

abbrev pub parsed : List X509Certificate → Result (List X509Certificate)
parsed [] = err (message (text "no certificates parsed"))
parsed (c ∷ certs) = ok (c ∷ certs)

module _ (crypto : Crypto) where
  -- The loop, on fuel: what is left after a block is shorter than the text that it is read from.
  unfoldable pub certificates_from : ℕ → Str → List X509Certificate → Result (List X509Certificate)
  certificates_from zero content certs = err (message (text "out of fuel"))
  certificates_from (suc fuel) content certs = elim (trim_space content) [
    | [] ↦ parsed certs
    | c ∷ s ↦ elim (crypto.decode (c ∷ s)) [
      | none ↦ err (message (text "no certificate PEM data found"))
      | some (block, rest) ↦
          if not (str_eq block.type (text "CERTIFICATE"))
          then err (message (text "invalid PEM type"))
          else (do
            cert ← crypto.parse_certificate block.bytes
            certificates_from fuel rest (certs ++ (cert ∷ [])))
    ]
  ]

  unfoldable pub parse_certificates_from_pem : Str → Result (List X509Certificate)
  parse_certificates_from_pem content = certificates_from (suc (length content)) content []

  abbrev bundle_of :
      Secret → X509Certificate → List X509Certificate → Option Str → CertificateBundle
  bundle_of secret cert chain ca = record {
    certificate_pem = secret.tls_crt;
    certificate_x509 = cert;
    private_key_pem = secret.tls_key;
    ca_certificate_chain_pem = ca;
    ca_certificate_chain_x509 = chain;
  }

  -- With no ca.crt the chain is what follows the first certificate; its PEM text is not kept.
  unfoldable pub bundle_from : Secret → Result (List X509Certificate) → Result CertificateBundle
  bundle_from secret (err e) = err (panics (text "index out of range"))
  bundle_from secret (ok []) = err (panics (text "index out of range"))
  bundle_from secret (ok (cert ∷ chain)) =
      if is_empty secret.ca_crt then ok (bundle_of secret cert chain none) else (do
        ca ← wrap (parse_certificates_from_pem secret.ca_crt)
        ok (bundle_of secret cert ca (some secret.ca_crt)))

  unfoldable pub get_certificate_bundle :
      (Str → Str → Result Secret) → Str → Str → Result CertificateBundle
  get_certificate_bundle get_secret namespace secret_name = do
    let key = as_namespaced_name secret_name namespace
    secret ← wrap (get_secret key.namespace key.name)
    bundle_from secret (parse_certificates_from_pem secret.tls_crt)

signatures : List X509Certificate → Str
signatures [] = []
signatures (c ∷ certs) = c.signature ++ signatures certs

unfoldable pub unique_id : (Str → Str) → CertificateBundle → Result Str
unfolding signatures
unique_id base64_md5 crt =
    byte_alpha_numeric_digest base64_md5
      (crt.certificate_x509.signature ++ signatures crt.ca_certificate_chain_x509) 24
