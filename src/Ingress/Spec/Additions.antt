-- ===== src/Ingress/Spec/Additions.antt =====
-- A listener, and a rule of each policy, that are put into a draft.
use mathlib.Core.Path.{subst}
use oci_lb_ingress_controlle.Base.Maps.{Map, lookup, put, has_key, Every, Every-put, some_inj}
use oci_lb_ingress_controlle.Ingress.Backends.{ServiceObject}
use oci_lb_ingress_controlle.Ingress.Spec.Draft.{Draft, rules_before, append_to_all}
use oci_lb_ingress_controlle.Ingress.Spec.Invariant.{
  Linked, Forwards, Grows, IsLinked, Linked-Grows,
}
use oci_lb_ingress_controlle.LoadBalancer.Types.{ListenerDetails}
use oci_lb_ingress_controlle.Manager.Model.{RoutingRule, RoutingPolicy, HostnameDetails}
use oci_lb_ingress_controlle.Base.{
  Bool-cases, Str, str_eq, ◌≡◌, refl, sym, ap, ◌∙◌, inl, inr, ◌||◌, Option, none, some, [], ◌∷◌,
  ◌++◌,
}

-- A listener that is put in place of another, where the draft grows by it
module _ (base64_md5 : Str → Str) (d e : Draft) (linked : IsLinked base64_md5 d)
    (grows : Grows base64_md5 d e) (same_services : e.services ≡ d.services)
    (same_hostnames : e.hostnames ≡ d.hostnames) where
  pub put_listener :
      (name : Str) (l : ListenerDetails)
      → e.listeners ≡ put name l d.listeners
      → Linked base64_md5 e name l
      → Every (λ (n : Str) (p : RoutingPolicy). Forwards base64_md5 e p.rules) e.policies
      → IsLinked base64_md5 e
  put_listener name l added ok_listener ok_policies = record {
    listeners =
        subst (λ m. Every (Linked base64_md5 e) m) (sym added)
          (Every-put (Linked base64_md5 e) name l d.listeners ok_listener
            (λ n k h. Linked-Grows base64_md5 d e n k grows (linked.listeners n k h)));
    policies = ok_policies;
    services =
        subst (λ m. Every (λ (n : Str) (svc : ServiceObject). svc.name ≡ n) m) (sym same_services)
          linked.services;
    hostnames =
        subst (λ m. Every (λ (n : Str) (h : HostnameDetails). h.name ≡ n) m) (sym same_hostnames)
          linked.hostnames;
  }

pub rules_before-Forwards :
    (base64_md5 : Str → Str) (d : Draft) (name : Str) (o : Option RoutingPolicy)
    → IsLinked base64_md5 d
    → lookup name d.policies ≡ o
    → Forwards base64_md5 d (rules_before o)
rules_before-Forwards base64_md5 d name none linked e = tt
rules_before-Forwards base64_md5 d name (some p) linked e = linked.policies name p e

-- What is appended to each policy is found at the key of that policy.
abbrev pub appended : RoutingRule → Option RoutingPolicy → Option RoutingPolicy
appended rule none = none
appended rule (some p) = some (record p { rules = p.rules ++ (rule ∷ []) })

pub lookup-append_to_all :
    (n : Str) (rule : RoutingRule) (m : Map RoutingPolicy)
    → lookup n (append_to_all rule m) ≡ appended rule (lookup n m)
unfolding lookup append_to_all
lookup-append_to_all n rule [] = refl
lookup-append_to_all n rule ((j, p) ∷ m) = elim (Bool-cases (str_eq j n)) [
  | inl e ↦ rw e refl
  | inr e ↦ rw e (lookup-append_to_all n rule m)
]

pub has_key-append_to_all :
    (n : Str) (rule : RoutingRule) (m : Map RoutingPolicy)
    → has_key n (append_to_all rule m) ≡ has_key n m
unfolding has_key append_to_all
has_key-append_to_all n rule [] = refl
has_key-append_to_all n rule ((j, p) ∷ m) =
    ap (λ b. str_eq j n || b) (has_key-append_to_all n rule m)

pub append_to_all-Every :
    (P : Str → RoutingPolicy → Type 0) (rule : RoutingRule) (m : Map RoutingPolicy)
    → Every (λ (n : Str) (p : RoutingPolicy). P n (record p { rules = p.rules ++ (rule ∷ []) })) m
    → Every P (append_to_all rule m)
append_to_all-Every P rule m h n q e =
    found (lookup n m) refl (sym (lookup-append_to_all n rule m) ∙ e)
  where
    found : (o : Option RoutingPolicy) → lookup n m ≡ o → appended rule o ≡ some q → P n q
    found none k f = absurd (cc)
    found (some p) k f = subst (P n) (some_inj f) (h n p k)
