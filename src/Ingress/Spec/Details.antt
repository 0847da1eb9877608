-- ===== src/Ingress/Spec/Details.antt =====
-- The hostname and the certificate of a rule are in the draft once they are returned.
use mathlib.Core.Path.{subst}
use oci_lb_ingress_controlle.Base.Maps.{
  Map, lookup, put, has_key, has_key-put_kept, has_key-put_self, has_key-lookup, Every-put,
}
use oci_lb_ingress_controlle.Ingress.Listeners.{names_of}
use oci_lb_ingress_controlle.Ingress.Names.{get_hostname_name}
use oci_lb_ingress_controlle.Ingress.Spec.Draft.{
  IngressTls, IngressObject, Surroundings, Draft, get_or_create_hostname_details,
  get_or_create_ssl_config_details, hostname_at, certificate_at, certificate_details, ssl_details,
}
use oci_lb_ingress_controlle.Ingress.Spec.Build.{ssl_for}
use oci_lb_ingress_controlle.Ingress.Spec.Invariant.{
  HostnameNames, certificate_of, Named, AllNamed, Extends, Extends-self,
}
use oci_lb_ingress_controlle.Ingress.Tls.{CertificateBundle, get_certificate_bundle, unique_id}
use oci_lb_ingress_controlle.LoadBalancer.Types.{SslConfigurationDetails}
use oci_lb_ingress_controlle.Manager.Model.{HostnameDetails, CertificateDetails}
use oci_lb_ingress_controlle.Base.{
  Bool-cases, Option-cases, is_empty, Str, Ensures, Ensures-after, Ensures-wrap, ◌≡◌, refl, sym,
  inl, inr, true, ◌||◌, Option, none, some, [], ◌∷◌,
}

module _ (around : Surroundings) (ing : IngressObject) where
  abbrev pub HasHostname : Draft → Option HostnameDetails × Draft → Type 0
  HasHostname d out = Extends around.base64_md5 d out.1 × AllNamed out.1.hostnames (names_of out.0)

  added_hostname :
      (name : Str) (details : HostnameDetails) (d : Draft)
      → details.name ≡ name
      → HasHostname d (some details, record d { hostnames = put name details d.hostnames })
  added_hostname name details d same = (
    record {
      grows = record {
        policies = λ n h. h;
        certificates = λ n h. h;
        rule_sets = λ n h. h;
        hostnames = λ n h. has_key-put_kept name n details d.hostnames h;
        services = λ n s h. h;
      };
      same_listeners = refl;
      same_policies = refl;
      names_kept = λ h. h;
      hostnames_kept = λ h.
          Every-put (λ (n : Str) (i : HostnameDetails). i.name ≡ n) name details d.hostnames same h;
    },
    (
      subst (λ n. has_key n (put name details d.hostnames) ≡ true) (sym same)
          (has_key-put_self name details d.hostnames),
      tt,
    ),
  )

  hostname_at-HasHostname :
      (o : Option HostnameDetails) (name host : Str) (d : Draft)
      → HostnameNames d
      → lookup name d.hostnames ≡ o
      → HasHostname d (hostname_at o name host d)
  hostname_at-HasHostname none name host d names e =
      added_hostname name (record { name = name; hostname = host }) d refl
  hostname_at-HasHostname (some details) name host d names e = (
    Extends-self around.base64_md5 d,
    (
      subst (λ n. has_key n d.hostnames ≡ true) (sym (names name details e))
          (has_key-lookup name details d.hostnames e),
      tt,
    ),
  )

  pub hostname-HasHostname :
      (host : Str) (d : Draft)
      → HostnameNames d
      → Ensures (HasHostname d) (get_or_create_hostname_details around ing host d)
  unfolding get_or_create_hostname_details
  hostname-HasHostname [] d names = (Extends-self around.base64_md5 d, tt)
  hostname-HasHostname (c ∷ s) d names =
      Ensures-after (HasHostname d) (get_hostname_name around.base64_md5 (c ∷ s)) _
        (λ name. hostname_at-HasHostname (lookup name d.hostnames) name (c ∷ s) d names refl)

  abbrev pub HasCertificate : Draft → Option SslConfigurationDetails × Draft → Type 0
  HasCertificate d out =
      Extends around.base64_md5 d out.1 × Named out.1.certificates (certificate_of out.0)

  certificate_at-HasCertificate :
      (o : Option CertificateDetails) (name : Str) (crt : CertificateBundle) (d : Draft)
      → lookup name d.certificates ≡ o
      → HasCertificate d (some (ssl_details name), certificate_at o name crt d)
  certificate_at-HasCertificate none name crt d e = (
    record {
      grows = record {
        policies = λ n h. h;
        certificates =
            λ n h. has_key-put_kept name n (certificate_details name crt) d.certificates h;
        rule_sets = λ n h. h;
        hostnames = λ n h. h;
        services = λ n s h. h;
      };
      same_listeners = refl;
      same_policies = refl;
      names_kept = λ h. h;
      hostnames_kept = λ h. h;
    },
    has_key-put_self name (certificate_details name crt) d.certificates,
  )
  certificate_at-HasCertificate (some c) name crt d e =
      (Extends-self around.base64_md5 d, has_key-lookup name c d.certificates e)

  ssl-HasCertificate :
      (host secret : Str) (d : Draft)
      → Ensures (HasCertificate d) (get_or_create_ssl_config_details around ing host secret d)
  unfolding get_or_create_ssl_config_details
  ssl-HasCertificate host secret d = elim (Bool-cases (is_empty host || is_empty secret)) [
    | inl e ↦ rw e tt
    | inr e ↦ rw e (
        Ensures-after (HasCertificate d)
          (get_certificate_bundle around.crypto around.get_secret ing.namespace secret) _
          (λ crt.
            Ensures-after (HasCertificate d) (unique_id around.base64_md5 crt) _
              (λ id. certificate_at-HasCertificate _ _ crt d refl)))
  ]

  pub ssl_for-HasCertificate :
      (tls : Map IngressTls) (host : Str) (d : Draft)
      → Ensures (HasCertificate d) (ssl_for around ing tls host d)
  unfolding ssl_for
  ssl_for-HasCertificate tls host d = elim (Option-cases (lookup host tls)) [
    | inl e ↦ rw (e, ssl_for) (Extends-self around.base64_md5 d, tt)
    | inr (entry, e) ↦
        rw (e, ssl_for)
          (Ensures-wrap (HasCertificate d)
            (get_or_create_ssl_config_details around ing host entry.secret_name d)
            (ssl-HasCertificate host entry.secret_name d))
  ]
