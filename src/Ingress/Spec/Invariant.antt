-- ===== src/Ingress/Spec/Invariant.antt =====
-- What the collections of a draft say of one another, and that a draft that is added to keeps it.
use mathlib.Core.Path.{subst}
use oci_lb_ingress_controlle.Base.Maps.{lookup, has_key, Every}
use oci_lb_ingress_controlle.Ingress.Backends.{ServicePort, ServiceObject, get_backend_set_name}
use oci_lb_ingress_controlle.Ingress.Listeners.{dummy_backend_set_name, https_redirector}
use oci_lb_ingress_controlle.Ingress.Spec.Draft.{Draft}
use oci_lb_ingress_controlle.LoadBalancer.Types.{ListenerDetails, SslConfigurationDetails}
use oci_lb_ingress_controlle.Manager.Model.{RoutingRule, RoutingPolicy, HostnameDetails}
use oci_lb_ingress_controlle.Base.{
  All, Str, str_eq, ok, ◌≡◌, refl, ◌∙◌, ◌⊎◌, inl, inr, true, false, Option, none, some, List, [],
  ◌∷◌,
}

abbrev pub Member : ServicePort → List ServicePort → Type 0
Member p [] = ⊥
Member p (q ∷ ports) = (p ≡ q) ⊎ Member p ports

abbrev pub ServiceNames : Draft → Type 0
ServiceNames d = Every (λ (n : Str) (svc : ServiceObject). svc.name ≡ n) d.services

abbrev pub HostnameNames : Draft → Type 0
HostnameNames d = Every (λ (n : Str) (h : HostnameDetails). h.name ≡ n) d.hostnames

-- The certificate that a listener names
abbrev pub certificate_of : Option SslConfigurationDetails → Option Str
certificate_of none = none
certificate_of (some ssl) = ssl.certificate_name

abbrev pub Named {ℓ} : {V : Type ℓ} → List (Str × V) → Option Str → Type 0
Named m none = Unit
Named m (some name) = has_key name m ≡ true

-- The names are those of entries.
abbrev pub AllNamed {ℓ} : {V : Type ℓ} → List (Str × V) → List Str → Type 0
AllNamed m names = All (λ n. has_key n m ≡ true) names

pub Named-weaken {ℓ κ} :
    {V : Type ℓ} {W : Type κ} (m : List (Str × V)) (m' : List (Str × W)) (o : Option Str)
    → ((n : Str) → has_key n m ≡ true → has_key n m' ≡ true)
    → Named m o
    → Named m' o
Named-weaken m m' none k h = tt
Named-weaken m m' (some n) k h = k n h

pub All-weaken {ℓ κ₁ κ₂} :
    {A : Type ℓ} (P : A → Type κ₁) (Q : A → Type κ₂) (xs : List A)
    → ((a : A) → P a → Q a)
    → All P xs
    → All Q xs
All-weaken P Q [] k h = tt
All-weaken P Q (x ∷ xs) k h = (k x h.0, All-weaken P Q xs k h.1)

module _ (base64_md5 : Str → Str) where
  -- A backend set that one of the services has for one of its ports
  pub record Served (d : Draft) (name : Str) : Type 0 where
    pub svc : ServiceObject
    pub port : ServicePort
    pub known : lookup svc.name d.services ≡ some svc
    pub member : Member port svc.ports
    pub named : get_backend_set_name base64_md5 svc.name port.protocol port.port ≡ ok name

  abbrev pub Target : Draft → Str → Type 0
  Target d name = (name ≡ dummy_backend_set_name) ⊎ Served d name

  pub record Linked (d : Draft) (name : Str) (l : ListenerDetails) : Type 0 where
    pub backend_set : Target d l.default_backend_set_name
    pub policy : Named d.policies l.routing_policy_name
    pub certificate : Named d.certificates (certificate_of l.ssl_configuration)
    pub rule_sets : AllNamed d.rule_sets l.rule_set_names
    pub hostnames : str_eq name https_redirector ≡ false → AllNamed d.hostnames l.hostname_names

  abbrev pub Forwards : Draft → List RoutingRule → Type 0
  Forwards d rules = All (λ r. All (Served d) r.actions) rules

  pub record Grows (d e : Draft) : Type 0 where
    pub policies : (n : Str) → has_key n d.policies ≡ true → has_key n e.policies ≡ true
    pub certificates : (n : Str) → has_key n d.certificates ≡ true → has_key n e.certificates ≡ true
    pub rule_sets : (n : Str) → has_key n d.rule_sets ≡ true → has_key n e.rule_sets ≡ true
    pub hostnames : (n : Str) → has_key n d.hostnames ≡ true → has_key n e.hostnames ≡ true
    pub services :
        (n : Str) (svc : ServiceObject)
        → lookup n d.services ≡ some svc
        → lookup n e.services ≡ some svc

  pub record IsLinked (d : Draft) : Type 0 where
    pub listeners : Every (Linked d) d.listeners
    pub policies : Every (λ (n : Str) (p : RoutingPolicy). Forwards d p.rules) d.policies
    pub services : ServiceNames d
    pub hostnames : HostnameNames d

  -- An addition to what listeners and policies refer to
  pub record Extends (d e : Draft) : Type 0 where
    pub grows : Grows d e
    pub same_listeners : e.listeners ≡ d.listeners
    pub same_policies : e.policies ≡ d.policies
    pub names_kept : ServiceNames d → ServiceNames e
    pub hostnames_kept : HostnameNames d → HostnameNames e

  Grows-self : (d : Draft) → Grows d d
  Grows-self d = record {
    policies = λ n h. h;
    certificates = λ n h. h;
    rule_sets = λ n h. h;
    hostnames = λ n h. h;
    services = λ n svc h. h;
  }

  Grows-trans : (d e f : Draft) → Grows d e → Grows e f → Grows d f
  Grows-trans d e f g h = record {
    policies = λ n k. h.policies n (g.policies n k);
    certificates = λ n k. h.certificates n (g.certificates n k);
    rule_sets = λ n k. h.rule_sets n (g.rule_sets n k);
    hostnames = λ n k. h.hostnames n (g.hostnames n k);
    services = λ n svc k. h.services n svc (g.services n svc k);
  }

  pub Extends-self : (d : Draft) → Extends d d
  Extends-self d = record {
    grows = Grows-self d;
    same_listeners = refl;
    same_policies = refl;
    names_kept = λ h. h;
    hostnames_kept = λ h. h;
  }

  pub Extends-trans : (d e f : Draft) → Extends d e → Extends e f → Extends d f
  Extends-trans d e f g h = record {
    grows = Grows-trans d e f g.grows h.grows;
    same_listeners = h.same_listeners ∙ g.same_listeners;
    same_policies = h.same_policies ∙ g.same_policies;
    names_kept = λ k. h.names_kept (g.names_kept k);
    hostnames_kept = λ k. h.hostnames_kept (g.hostnames_kept k);
  }

  pub Served-Grows : (d e : Draft) (name : Str) → Grows d e → Served d name → Served e name
  Served-Grows d e name g s = record {
    svc = s.svc;
    port = s.port;
    known = g.services s.svc.name s.svc s.known;
    member = s.member;
    named = s.named;
  }

  pub Forwards-Grows :
      (d e : Draft) (rules : List RoutingRule) → Grows d e → Forwards d rules → Forwards e rules
  Forwards-Grows d e rules g h =
      All-weaken _ _ rules (λ r k. All-weaken _ _ r.actions (λ a s. Served-Grows d e a g s) k) h

  Target-Grows : (d e : Draft) (name : Str) → Grows d e → Target d name → Target e name
  Target-Grows d e name g (inl h) = inl h
  Target-Grows d e name g (inr s) = inr (Served-Grows d e name g s)

  pub Linked-Grows :
      (d e : Draft) (name : Str) (l : ListenerDetails)
      → Grows d e
      → Linked d name l
      → Linked e name l
  Linked-Grows d e name l g h = record {
    backend_set = Target-Grows d e l.default_backend_set_name g h.backend_set;
    policy = Named-weaken d.policies e.policies l.routing_policy_name g.policies h.policy;
    certificate =
        Named-weaken d.certificates e.certificates (certificate_of l.ssl_configuration)
          g.certificates h.certificate;
    rule_sets = All-weaken _ _ l.rule_set_names g.rule_sets h.rule_sets;
    hostnames = λ k. All-weaken _ _ l.hostname_names g.hostnames (h.hostnames k);
  }

  pub Extends-IsLinked : (d e : Draft) → Extends d e → IsLinked d → IsLinked e
  Extends-IsLinked d e x h = record {
    listeners = λ n l k.
        Linked-Grows d e n l x.grows
          (h.listeners n l (subst (λ m. lookup n m ≡ some l) x.same_listeners k));
    policies = λ n p k.
        Forwards-Grows d e p.rules x.grows
          (h.policies n p (subst (λ m. lookup n m ≡ some p) x.same_policies k));
    services = x.names_kept h.services;
    hostnames = x.hostnames_kept h.hostnames;
  }
