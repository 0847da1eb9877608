-- ===== src/Ingress/Spec/Sets.antt =====
-- The backend sets of the specification are those of the services' ports, and the dummy.
use mathlib.Core.Path.{subst}
use oci_lb_ingress_controlle.Base.Maps.{
  some_inj, Map, lookup, put, has_key, has_key-put_kept, has_key-put_self,
}
use oci_lb_ingress_controlle.Ingress.Backends.{
  ServicePort, ServiceObject, get_backend_set_name, get_health_checker, backend_sets_from,
  get_backend_sets, backend_set_details_of, SslConfig,
}
use oci_lb_ingress_controlle.Ingress.Listeners.{dummy_backend_set_name}
use oci_lb_ingress_controlle.Ingress.Shape.{get_load_balancer_policy}
use oci_lb_ingress_controlle.Ingress.Spec.Draft.{
  IngressObject, Surroundings, Draft, dummy_backend_set, put_all, nodes_for_service,
}
use oci_lb_ingress_controlle.Ingress.Spec.Build.{service_backend_sets, setup_backend_sets_for_spec}
use oci_lb_ingress_controlle.Ingress.Spec.Invariant.{Member, Target}
use oci_lb_ingress_controlle.LoadBalancer.Types.{BackendSetDetails}
use oci_lb_ingress_controlle.Provider.Subnets.{Node}
use oci_lb_ingress_controlle.Base.{
  Bool-cases, if◌then◌else◌, Str, str_eq, str_eq_iff, Result, ok, err, Ensures, Ensures-then,
  Ensures-after, Ensures_self, ◌≡◌, sym, ap, ◌∙◌, inl, inr, true, Option, none, some, List, [], ◌∷◌,
}

ok_inj : {A : Type 0} {a b : A} → ok a ≡ ok b → a ≡ b
ok_inj e = cc

abbrev Keeps : Map BackendSetDetails → Map BackendSetDetails → Type 0
Keeps sets out = (n : Str) → has_key n sets ≡ true → has_key n out ≡ true

put_all-Keeps : (made sets : Map BackendSetDetails) → Keeps sets (put_all made sets)
unfolding put_all
put_all-Keeps [] sets n h = h
put_all-Keeps ((k, v) ∷ made) sets n h =
    put_all-Keeps made (put k v sets) n (has_key-put_kept k n v sets h)

put_all-has :
    (made sets : Map BackendSetDetails) (n : Str)
    → has_key n made ≡ true
    → has_key n (put_all made sets) ≡ true
unfolding put_all has_key
put_all-has [] sets n h = absurd (cc)
put_all-has ((k, v) ∷ made) sets n h = elim (Bool-cases (str_eq k n)) [
  | inl e ↦ put_all-Keeps made (put k v sets) n (put_here k n v sets e)
  | inr e ↦ put_all-has made (put k v sets) n (rw e at h)
]
  where
    put_here :
        (k n : Str) (v : BackendSetDetails) (sets : Map BackendSetDetails)
        → str_eq k n ≡ true
        → has_key n (put k v sets) ≡ true
    put_here k n v sets e = rw (← (str_eq_iff k n).0 e) (has_key-put_self k v sets)

module _ (base64_md5 : Str → Str) where
  -- Every port that can be named has its backend set.
  abbrev HasSets : ServiceObject → List ServicePort → Map BackendSetDetails → Type 0
  HasSets svc ports out =
      (p : ServicePort) (n : Str)
      → Member p ports
      → get_backend_set_name base64_md5 svc.name p.protocol p.port ≡ ok n
      → has_key n out ≡ true

  module _ (svc : ServiceObject) (nodes : List Node) (ssl_cfg : Option SslConfig)
      (policy : Str) where
    abbrev Filled : List ServicePort → Map BackendSetDetails → Map BackendSetDetails → Type 0
    Filled ports sets out = Keeps sets out × HasSets svc ports out

    at_port :
        (p q : ServicePort) (ports : List ServicePort) (name n : Str) (details : BackendSetDetails)
        (sets out : Map BackendSetDetails)
        → get_backend_set_name base64_md5 svc.name p.protocol p.port ≡ ok name
        → Filled ports (put name details sets) out
        → Member q (p ∷ ports)
        → get_backend_set_name base64_md5 svc.name q.protocol q.port ≡ ok n
        → has_key n out ≡ true
    at_port p q ports name n details sets out named f (inr m) e = f.1 q n m e
    at_port p q ports name n details sets out named f (inl same) e =
        subst (λ k. has_key k out ≡ true)
          (ok_inj (
            sym named
            ∙ (ap (λ r. get_backend_set_name base64_md5 svc.name r.protocol r.port) (sym same)
                ∙ e)))
          (f.0 name (has_key-put_self name details sets))

    extended :
        (p : ServicePort) (ports : List ServicePort) (name : Str) (details : BackendSetDetails)
        (sets : Map BackendSetDetails)
        → get_backend_set_name base64_md5 svc.name p.protocol p.port ≡ ok name
        → (r : Result (Map BackendSetDetails)) → Ensures (Filled ports (put name details sets)) r
        → Ensures (Filled (p ∷ ports) sets) r
    extended p ports name details sets named (err e) h = tt
    extended p ports name details sets named (ok out) f = (
      λ n k. f.0 n (has_key-put_kept name n details sets k),
      λ q n m e. at_port p q ports name n details sets out named f m e,
    )

    backend_sets_from-Filled :
        (ports : List ServicePort) (sets : Map BackendSetDetails)
        → Ensures
            (Filled ports sets)
            (backend_sets_from base64_md5 svc nodes ssl_cfg policy ports sets)
    unfolding backend_sets_from
    backend_sets_from-Filled [] sets = (λ n h. h, λ p n m e. absurd m)
    backend_sets_from-Filled (p ∷ ports) sets =
        Ensures-then (λ name. get_backend_set_name base64_md5 svc.name p.protocol p.port ≡ ok name)
          (Filled (p ∷ ports) sets) (get_backend_set_name base64_md5 svc.name p.protocol p.port) _
          (Ensures_self (get_backend_set_name base64_md5 svc.name p.protocol p.port))
          (λ name named.
            Ensures-after (Filled (p ∷ ports) sets) (get_health_checker svc) _ (λ checker.
              extended p ports name
                (backend_set_details_of base64_md5 svc nodes ssl_cfg policy checker p) sets named _
                (backend_sets_from-Filled ports (
                  put name (backend_set_details_of base64_md5 svc nodes ssl_cfg policy checker p)
                    sets))))

  abbrev AllFilled : Map ServiceObject → Map BackendSetDetails → Map BackendSetDetails → Type 0
  AllFilled services sets out =
      Keeps sets out
      × ((k : Str) (svc : ServiceObject) → lookup k services ≡ some svc → HasSets svc svc.ports out)

  next_service :
      (name : Str) (svc : ServiceObject) (services : Map ServiceObject)
      (made sets : Map BackendSetDetails)
      → HasSets svc svc.ports made
      → (r : Result (Map BackendSetDetails)) → Ensures (AllFilled services (put_all made sets)) r
      → Ensures (AllFilled ((name, svc) ∷ services) sets) r
  unfolding lookup
  next_service name svc services made sets has (err e) h = tt
  next_service name svc services made sets has (ok out) f = (
    λ n k. f.0 n (put_all-Keeps made sets n k),
    λ k s e p n m named. elim (Bool-cases (str_eq name k)) [
      | inl same ↦ f.0 n (
          put_all-has made sets n (has p n (here k s e p m same) (named_here k s e p n named same)))
      | inr other ↦ f.1 k s (rw other at e) p n m named
    ],
  )
    where
      found :
          (k : Str) (s : ServiceObject)
          → (if str_eq name k then some svc else lookup k services) ≡ some s
          → str_eq name k ≡ true
          → s ≡ svc
      found k s e same = some_inj (sym (rw same at e))

      here :
          (k : Str) (s : ServiceObject)
          → (if str_eq name k then some svc else lookup k services) ≡ some s
          → (p : ServicePort) → Member p s.ports
          → str_eq name k ≡ true
          → Member p svc.ports
      here k s e p m same = subst (λ (t : ServiceObject). Member p t.ports) (found k s e same) m

      named_here :
          (k : Str) (s : ServiceObject)
          → (if str_eq name k then some svc else lookup k services) ≡ some s
          → (p : ServicePort) (n : Str)
          → get_backend_set_name base64_md5 s.name p.protocol p.port ≡ ok n
          → str_eq name k ≡ true
          → get_backend_set_name base64_md5 svc.name p.protocol p.port ≡ ok n
      named_here k s e p n named same =
          subst
            (λ (t : ServiceObject). get_backend_set_name base64_md5 t.name p.protocol p.port ≡ ok n)
            (found k s e same) named

module _ (around : Surroundings) (ing : IngressObject) where
  service_backend_sets-AllFilled :
      (policy : Str) (service_nodes : Map (Map Node)) (services : Map ServiceObject)
      (sets : Map BackendSetDetails)
      → Ensures
          (AllFilled around.base64_md5 services sets)
          (service_backend_sets around ing policy service_nodes services sets)
  unfolding service_backend_sets lookup
  service_backend_sets-AllFilled policy service_nodes [] sets = (λ n h. h, λ k s e. absurd (cc))
  service_backend_sets-AllFilled policy service_nodes ((name, svc) ∷ services) sets =
      Ensures-then
        (Filled around.base64_md5 svc (nodes_for_service service_nodes svc.name) none policy
          svc.ports [])
        (AllFilled around.base64_md5 ((name, svc) ∷ services) sets)
        (get_backend_sets around.base64_md5 svc (nodes_for_service service_nodes svc.name) none
          policy)
        _
        (unfold get_backend_sets in
          backend_sets_from-Filled around.base64_md5 svc (nodes_for_service service_nodes svc.name)
            none policy svc.ports [])
        (λ made f.
          next_service around.base64_md5 name svc services made sets f.1 _
            (service_backend_sets-AllFilled policy service_nodes services (put_all made sets)))

  -- A backend set that the draft refers to is there.
  pub setup-has :
      (d : Draft)
      → Ensures
          (λ out. (n : Str) → Target around.base64_md5 d n → has_key n out ≡ true)
          (setup_backend_sets_for_spec around ing d)
  unfolding setup_backend_sets_for_spec
  setup-has d =
      Ensures-after (λ out. (n : Str) → Target around.base64_md5 d n → has_key n out ≡ true)
        (get_load_balancer_policy ing.annotations) _
        (λ policy.
          Ensures-then (AllFilled around.base64_md5 d.services [])
            (λ out. (n : Str) → Target around.base64_md5 d n → has_key n out ≡ true)
            (service_backend_sets around ing policy d.service_nodes d.services []) _
            (service_backend_sets-AllFilled policy d.service_nodes d.services [])
            (λ sets f n t. target policy sets f n t))
    where
      target :
          (policy : Str) (sets : Map BackendSetDetails)
          → AllFilled around.base64_md5 d.services [] sets
          → (n : Str) → Target around.base64_md5 d n
          → has_key n (put dummy_backend_set_name (dummy_backend_set policy) sets) ≡ true
      target policy sets f n (inl e) =
          subst (λ k. has_key k (put dummy_backend_set_name (dummy_backend_set policy) sets) ≡ true)
            (sym e) (has_key-put_self dummy_backend_set_name (dummy_backend_set policy) sets)
      target policy sets f n (inr s) =
          has_key-put_kept dummy_backend_set_name n (dummy_backend_set policy) sets
            (f.1 s.svc.name s.svc s.known s.port n s.member s.named)
