-- ===== src/Ingress/Spec/Steps.antt =====
-- Each part of a rule's work adds to the draft what it returns a name of.
use mathlib.Core.Path.{subst}
use oci_lb_ingress_controlle.Base.Maps.{Map, lookup, put, lookup-put, Every-put}
use oci_lb_ingress_controlle.Ingress.Backends.{ServicePort, ServiceObject, get_backend_set_name}
use oci_lb_ingress_controlle.Ingress.Routing.{IngressBackend}
use oci_lb_ingress_controlle.Ingress.Spec.Draft.{
  IngressObject, Surroundings, Draft, is_tcp, is_wanted, find_node_port, find_service,
  backend_of_service, process_backend_spec,
}
use oci_lb_ingress_controlle.Ingress.Spec.Invariant.{
  Member, ServiceNames, Served, Extends, Extends-self, Extends-trans,
}
use oci_lb_ingress_controlle.Provider.Subnets.{Node}
use oci_lb_ingress_controlle.Base.{
  Bool-cases, Option-cases, int_eq, int_eq_iff, ℤ, negsuc, Str, text, str_eq_iff, Result, ok, err,
  wrap, Ensures, Ensures-then, Ensures-wrap, Ensures_self, ◌≡◌, refl, sym, ◌⊎◌, inl, inr, true,
  false, ◌&&◌, none, some, List, [], ◌∷◌, arith,
}

-- A port that the search leaves: TCP, and of the number that is left.
abbrev FoundIn : List ServicePort → ℤ → Type 0
FoundIn ports port =
    (p : ServicePort) × Member p ports × (p.protocol ≡ text "TCP") × (p.port ≡ port)

abbrev Search : List ServicePort → ℤ → ℤ × ℤ → Type 0
Search ports start out = (out.1 ≡ start) ⊎ FoundIn ports out.0

tested :
    (p : ServicePort) (port : ℤ) (name : Str)
    → (is_tcp p && is_wanted p port name) ≡ true
    → p.protocol ≡ text "TCP"
tested p port name e = (str_eq_iff p.protocol (text "TCP")).0 (ground arith)

later :
    (p : ServicePort) (ports : List ServicePort) (port : ℤ)
    → FoundIn ports port
    → FoundIn (p ∷ ports) port
later p ports port (q, m, t, e) = (q, inr m, t, e)

-- Once a port has been found, one is found in the end; `first` holds what has been found.
found_after :
    (ports : List ServicePort) (name : Str) (port node_port : ℤ) (all : List ServicePort)
    → ((p : ServicePort) → Member p ports → Member p all)
    → FoundIn all port
    → FoundIn all (find_node_port ports name port node_port).0
unfolding find_node_port
found_after [] name port node_port all sub f = f
found_after (p ∷ ports) name port node_port all sub f =
    elim (Bool-cases (is_tcp p && is_wanted p port name)) [
      | inl e ↦
          rw (e, find_node_port)
            (found_after ports name p.port _ all (λ q m. sub q (inr m))
              (p, sub p (inl refl), tested p port name e, refl))
      | inr e ↦ rw (e, find_node_port) (found_after ports name port _ all (λ q m. sub q (inr m)) f)
    ]

find_node_port-Search :
    (ports : List ServicePort) (name : Str) (port node_port : ℤ) (all : List ServicePort)
    → ((p : ServicePort) → Member p ports → Member p all)
    → Search all node_port (find_node_port ports name port node_port)
unfolding find_node_port
find_node_port-Search [] name port node_port all sub = inl refl
find_node_port-Search (p ∷ ports) name port node_port all sub =
    elim (Bool-cases (is_tcp p && is_wanted p port name)) [
      | inl e ↦
          rw (e, find_node_port)
            (inr (
              found_after ports name p.port _ all (λ q m. sub q (inr m))
                (p, sub p (inl refl), tested p port name e, refl)))
      | inr e ↦
          rw (e, find_node_port)
            (find_node_port-Search ports name port node_port all (λ q m. sub q (inr m)))
    ]

module _ (around : Surroundings) (ing : IngressObject)
    (named_as_asked : (ns name : Str) (svc : ServiceObject)
      → around.get_service ns name ≡ ok svc
      → svc.name ≡ name) where
  abbrev IsKnown : Str → Draft → ServiceObject × Draft → Type 0
  IsKnown name d out = Extends around.base64_md5 d out.1 × (lookup name out.1.services ≡ some out.0)

  added_service :
      (name : Str) (d : Draft) (svc : ServiceObject)
      → lookup name d.services ≡ none
      → svc.name ≡ name
      → IsKnown name d (svc, record d { services = put name svc d.services })
  added_service name d svc absent same = (
    record {
      grows = record {
        policies = λ n h. h;
        certificates = λ n h. h;
        rule_sets = λ n h. h;
        hostnames = λ n h. h;
        services = λ n s h. ground (arith, lookup-put name n svc d.services, str_eq_iff name n);
      };
      same_listeners = refl;
      same_policies = refl;
      names_kept =
          λ h. Every-put (λ (n : Str) (s : ServiceObject). s.name ≡ n) name svc d.services same h;
      hostnames_kept = λ h. h;
    },
    ground (arith, lookup-put name name svc d.services, str_eq_iff name name),
  )

  find_service-IsKnown :
      (name : Str) (d : Draft) → Ensures (IsKnown name d) (find_service around ing name d)
  unfolding find_service
  find_service-IsKnown name d = elim (Option-cases (lookup name d.services)) [
    | inl absent ↦
        rw (absent, find_service)
          (Ensures-then (λ svc. svc.name ≡ name) (IsKnown name d)
            (wrap (around.get_service ing.namespace name)) _
            (Ensures-wrap (λ svc. svc.name ≡ name) (around.get_service ing.namespace name)
              (answered name))
            (λ svc same. added_service name d svc absent same))
    | inr (svc, e) ↦ rw (e, find_service) (Extends-self around.base64_md5 d, e)
  ]
    where
      as_named :
          (name : Str) (r : Result ServiceObject)
          → ((svc : ServiceObject) → r ≡ ok svc → svc.name ≡ name)
          → Ensures (λ svc. svc.name ≡ name) r
      as_named name (ok svc) h = h svc refl
      as_named name (err e) h = tt

      answered :
          (name : Str) → Ensures (λ svc. svc.name ≡ name) (around.get_service ing.namespace name)
      answered name =
          as_named name (around.get_service ing.namespace name) (named_as_asked ing.namespace name)

  -- A backend set's name is returned, of a port that one of the draft's services has.
  abbrev pub IsServed : Draft → Str × Draft → Type 0
  IsServed d out = Extends around.base64_md5 d out.1 × Served around.base64_md5 out.1 out.0

  abbrev at_nodes : Str → Map Node → Draft → Draft
  at_nodes name nodes d = record d { service_nodes = put name nodes d.service_nodes }

  nodes-Extends :
      (name : Str) (nodes : Map Node) (d : Draft)
      → Extends around.base64_md5 d (at_nodes name nodes d)
  nodes-Extends name nodes d = record {
    grows = record {
      policies = λ n h. h;
      certificates = λ n h. h;
      rule_sets = λ n h. h;
      hostnames = λ n h. h;
      services = λ n s h. h;
    };
    same_listeners = refl;
    same_policies = refl;
    names_kept = λ h. h;
    hostnames_kept = λ h. h;
  }

  Served-at :
      (svc : ServiceObject) (d : Draft) (service_name name : Str) (port : ℤ) (nodes : Map Node)
      → svc.name ≡ service_name
      → lookup service_name d.services ≡ some svc
      → FoundIn svc.ports port
      → get_backend_set_name around.base64_md5 service_name (text "TCP") port ≡ ok name
      → Served around.base64_md5 (at_nodes service_name nodes d) name
  Served-at svc d service_name name port nodes same known (p, member, tcp, number) e = record {
    svc = svc;
    port = p;
    known = subst (λ n. lookup n d.services ≡ some svc) (sym same) known;
    member = member;
    named = rw (same, tcp, number) e;
  }

  found-Search :
      (ports : List ServicePort) (name : Str) (port : ℤ)
      → int_eq (find_node_port ports name port (negsuc 0)).1 (negsuc 0) ≡ false
      → FoundIn ports (find_node_port ports name port (negsuc 0)).0
  found-Search ports name port h =
      decided (find_node_port-Search ports name port (negsuc 0) ports (λ p m. m))
    where
      decided :
          Search ports (negsuc 0) (find_node_port ports name port (negsuc 0))
          → FoundIn ports (find_node_port ports name port (negsuc 0)).0
      decided (inl e) =
          absurd
            (ground (arith, h, int_eq_iff (find_node_port ports name port (negsuc 0)).1 (negsuc 0)))
      decided (inr f) = f

  backend_of_service-IsServed :
      (nodes : List Node) (backend : IngressBackend) (d : Draft) (out : ServiceObject × Draft)
      → ServiceNames d
      → IsKnown backend.service_name d out
      → Ensures (IsServed d) (backend_of_service around ing nodes backend out)
  unfolding backend_of_service
  backend_of_service-IsServed nodes backend d (svc, e) names (x, known) =
      elim (Bool-cases (
        int_eq (find_node_port svc.ports backend.port_name backend.port_number (negsuc 0)).1
          (negsuc 0))) [
            | inl missing ↦ rw (missing, backend_of_service) tt
            | inr there ↦
                rw (there, backend_of_service)
                  (Ensures-then _ (IsServed d)
                    (get_backend_set_name around.base64_md5 backend.service_name (text "TCP") port)
                    _
                    (Ensures_self (
                      get_backend_set_name around.base64_md5 backend.service_name (text "TCP")
                        port))
                    (λ name h. (
                      Extends-trans around.base64_md5 d e _ x
                          (nodes-Extends backend.service_name _ e),
                      Served-at svc e backend.service_name name port _
                          (x.names_kept names backend.service_name svc known) known
                          (found-Search svc.ports backend.port_name backend.port_number there) h,
                    )))
          ]
    where
      port : ℤ
      port = (find_node_port svc.ports backend.port_name backend.port_number (negsuc 0)).0

  pub process_backend_spec-IsServed :
      (nodes : List Node) (backend : IngressBackend) (d : Draft)
      → ServiceNames d
      → Ensures (IsServed d) (process_backend_spec around ing nodes backend d)
  unfolding process_backend_spec
  process_backend_spec-IsServed nodes backend d names = elim (Bool-cases backend.has_resource) [
    | inl e ↦ simp (e) tt
    | inr e ↦ simp (e) (
        Ensures-then (IsKnown backend.service_name d) (IsServed d)
          (find_service around ing backend.service_name d)
          (backend_of_service around ing nodes backend)
          (find_service-IsKnown backend.service_name d)
          (λ out known. backend_of_service-IsServed nodes backend d out names known))
  ]
