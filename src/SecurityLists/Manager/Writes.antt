-- ===== src/SecurityLists/Manager/Writes.antt =====
-- What the managers write to the lists of the nodes' subnets.
use mathlib.Core.Path.{subst}
use mathlib.Core.List.{append-nil, append_assoc}
use oci_lb_ingress_controlle.Base.Maps.{Map, lookup}
use oci_lb_ingress_controlle.Base.Sets.{has, of_list}
use oci_lb_ingress_controlle.Base.Effects.{
  Run, returns, lift, wrapping, wrap_on, perform, and_then_on, ◌>>=◌, ◌>>◌,
}
use oci_lb_ingress_controlle.LoadBalancer.Types.{PortSpec}
use oci_lb_ingress_controlle.Provider.Subnets.{Subnet}
use oci_lb_ingress_controlle.SecurityLists.Changed.{security_list_rules_changed}
use oci_lb_ingress_controlle.SecurityLists.Nodes.Others.{unrelated, node_rules_keep_others}
use oci_lb_ingress_controlle.SecurityLists.Manager.{
  Response, Request, get_security_list_request, update_security_list_request, Networking,
  sort_by_time, first_response, read_list, read_lists, read_oldest, read_configured,
  get_security_list, write_changed, node_ingress, update_backend_rules,
}
use oci_lb_ingress_controlle.SecurityLists.Manager.Oldest.{All-sort_by_time}
use oci_lb_ingress_controlle.Base.{
  Bool-cases, is_empty, filter, All, Str, Result, ok, err, ◌≡◌, refl, sym, ap, ◌∙◌, ◌++◌, inl, inr,
  true, Option, none, some, List, [], ◌∷◌, map,
}

-- The one run goes on after the other.
abbrev Extends : List Request → List Request → Type 0
Extends log later = (made : List Request) × (later ≡ log ++ made)

Extends-self : (log : List Request) → Extends log log
Extends-self log = ([], sym (append-nil log))

Extends-trans : (a b c : List Request) → Extends a b → Extends b c → Extends a c
Extends-trans a b c (m, e) (n, f) = (m ++ n, f ∙ ap (λ l. l ++ n) e ∙ append_assoc a m n)

module _ (net : Networking) (actual : Option PortSpec) (desired : PortSpec) where
  -- Among the calls there is a read that the client answered with this list.
  abbrev pub WasRead : List Request → Response → Type 0
  WasRead log r =
      (before : List Request) × (id : Str) × (rest : List Request) × (log
        ≡ before ++ (get_security_list_request id ∷ rest))
      × (net.security_list before id ≡ ok r)

  -- After the calls `log`, a write is of a list that was read by one of them, under its etag; it
  -- changes something, leaves the egress rules alone, and keeps the ingress rules that concern no
  -- port of the service.
  abbrev pub Careful : List Request → Request → Type 0
  Careful log (get_security_list_request id) = Unit
  Careful log (update_security_list_request id etag ingress egress) =
      (r : Response) × WasRead log r
      × (id ≡ r.security_list.id)
      × (etag ≡ r.etag)
      × (security_list_rules_changed r.security_list ingress egress ≡ true)
      × (egress ≡ r.security_list.egress_security_rules)
      × (filter (unrelated actual desired) ingress
          ≡ filter (unrelated actual desired) r.security_list.ingress_security_rules)

  -- Each call is careful after those before it.
  abbrev pub AllCareful : List Request → List Request → Type 0
  AllCareful done [] = Unit
  AllCareful done (q ∷ qs) = Careful done q × AllCareful (done ++ (q ∷ [])) qs

  AllCareful-add :
      (done log : List Request) (q : Request)
      → AllCareful done log
      → Careful (done ++ log) q
      → AllCareful done (log ++ (q ∷ []))
  AllCareful-add done [] q h c = (subst (λ l. Careful l q) (append-nil done) c, tt)
  AllCareful-add done (x ∷ log) q h c = (
    h.0,
    AllCareful-add (done ++ (x ∷ [])) log q h.1
        (subst (λ l. Careful l q) (sym (append_assoc done (x ∷ []) log)) c),
  )

  WasRead-later :
      (log later : List Request) (r : Response)
      → Extends log later
      → WasRead log r
      → WasRead later r
  WasRead-later log later r (made, e) (before, id, rest, f, answered) = (
    before,
    id,
    rest ++ made,
    e ∙ ap (λ l. l ++ made) f ∙ append_assoc before (get_security_list_request id ∷ rest) made,
    answered,
  )

  abbrev OnOk : {A : Type 0} → (A → Type 0) → Result A → Type 0
  OnOk P (ok a) = P a
  OnOk P (err e) = Unit

  abbrev Done :
      {A : Type 0} → List Request → (List Request → A → Type 0) → List Request × Result A → Type 0
  Done log P out = AllCareful [] out.0 × Extends log out.0 × OnOk (P out.0) out.1

  -- After careful calls, the run makes careful calls, and what it returns satisfies P.
  abbrev Yields : {A : Type 0} → (List Request → A → Type 0) → Run Request A → Type 0
  Yields P r = (log : List Request) → AllCareful [] log → Done log P (r.run log)

  Done-then :
      {A B : Type 0} (P : List Request → A → Type 0) (Q : List Request → B → Type 0)
      (k : A → Run Request B) (log : List Request) (out : List Request × Result A)
      → Done log P out
      → ((a : A) (later : List Request)
          → P later a
          → AllCareful [] later
          → Done later Q ((k a).run later))
      → Done log Q (and_then_on k out)
  Done-then P Q k log (later, ok a) h f =
      let d = f a later h.2 h.0 in (d.0, Extends-trans log later (((k a).run later).0) h.1 d.1, d.2)
  Done-then P Q k log (later, err e) h f = (h.0, h.1, tt)

  Done-wrapping :
      {A : Type 0} (P : List Request → A → Type 0) (log : List Request)
      (out : List Request × Result A)
      → Done log P out
      → Done log P (wrap_on out)
  Done-wrapping P log (later, ok a) h = h
  Done-wrapping P log (later, err e) h = (h.0, h.1, tt)

  read_list-Yields : (id : Str) → Yields WasRead (read_list net id)
  read_list-Yields id log h = (
    AllCareful-add [] log (get_security_list_request id) h tt,
    (get_security_list_request id ∷ [], refl),
    answer (net.security_list log id) refl,
  )
    where
      answer :
          (r : Result Response)
          → net.security_list log id ≡ r
          → OnOk (WasRead (log ++ (get_security_list_request id ∷ []))) r
      answer (ok r) e = (log, id, [], refl, e)
      answer (err p) e = tt

  abbrev WereRead : List Request → List Response → Type 0
  WereRead log rs = All (WasRead log) rs

  read_lists-Yields : (ids : List Str) → Yields WereRead (read_lists net ids)
  unfolding read_lists
  read_lists-Yields [] log h = (h, Extends-self log, tt)
  read_lists-Yields (id ∷ ids) log h =
      Done-then WasRead WereRead (λ r. read_lists net ids >>= λ rs. returns (r ∷ rs)) log
        ((read_list net id).run log) (read_list-Yields id log h)
        (λ r later p k.
          let others = read_lists-Yields ids later k in
          with_first r later p ((read_lists net ids).run later) others)
    where
      with_first :
          (r : Response) (later : List Request) (p : WasRead later r)
          (out : List Request × Result (List Response))
          → Done later WereRead out
          → Done later WereRead (and_then_on (λ rs. returns (r ∷ rs)) out)
      with_first r later p (last, ok rs) d = (d.0, d.1, (WasRead-later later last r d.1 p, d.2))
      with_first r later p (last, err e) d = (d.0, d.1, tt)

  first-OnOk :
      (log : List Request) (rs : List Response)
      → WereRead log rs
      → OnOk (WasRead log) (first_response rs)
  first-OnOk log [] h = tt
  first-OnOk log (r ∷ rs) h = h.0

  read_oldest-Yields : (ids : List Str) → Yields WasRead (read_oldest net ids)
  unfolding read_oldest
  read_oldest-Yields ids log h =
      Done-then WereRead WasRead (λ rs. lift (first_response (sort_by_time rs))) log
        ((read_lists net ids).run log) (read_lists-Yields ids log h)
        (λ rs later p k. (
          k,
          Extends-self later,
          first-OnOk later (sort_by_time rs) (All-sort_by_time (WasRead later) rs p),
        ))

  configured-Yields : (ids : List Str) (o : Option Str) → Yields WasRead (read_configured net ids o)
  configured-Yields ids none = read_oldest-Yields ids
  configured-Yields ids (some id) = elim (Bool-cases (has id (of_list ids))) [
    | inl e ↦ rw e (read_list-Yields id)
    | inr e ↦ rw e (read_oldest-Yields ids)
  ]

  get_security_list-Yields :
      (configured : Map Str) (subnet : Subnet)
      → Yields WasRead (get_security_list net configured subnet)
  unfolding get_security_list
  get_security_list-Yields configured subnet =
      elim (Bool-cases (is_empty subnet.security_list_ids)) [
        | inl e ↦ rw e (λ log h. (h, Extends-self log, tt))
        | inr e ↦ rw e (configured-Yields subnet.security_list_ids (lookup subnet.id configured))
      ]

  any_answer : {A : Type 0} (r : Result A) → OnOk (λ s. Unit) r
  any_answer (ok s) = tt
  any_answer (err e) = tt

  abbrev Any : {A : Type 0} → List Request → A → Type 0
  Any log a = Unit

  write-Yields :
      (lb_subnets : List Subnet) (r : Response) (log : List Request)
      → WasRead log r
      → AllCareful [] log
      → Done log (Any {A = Unit}) (
          (write_changed net r
              (node_ingress net lb_subnets actual desired r)
              r.security_list.egress_security_rules).run
            log)
  write-Yields lb_subnets r log p h =
      let ingress = node_ingress net lb_subnets actual desired r in
      let egress = r.security_list.egress_security_rules in
      let request = update_security_list_request r.security_list.id r.etag ingress egress in
      elim (Bool-cases (security_list_rules_changed r.security_list ingress egress)) [
        | inl e ↦
            let careful : Careful log request = (
              r,
              p,
              refl,
              refl,
              e,
              refl,
              node_rules_keep_others net.services r.security_list.ingress_security_rules
                  (map (λ s. s.cidr_block) lb_subnets) actual desired,
            ) in
            rw e (
              Done-then (Any {A = Str}) (Any {A = Unit}) (λ _. returns tt) log
                ((wrapping (perform net.cloud request)).run log)
                (Done-wrapping (Any {A = Str}) log ((perform net.cloud request).run log) (
                  AllCareful-add [] log request h careful,
                  (request ∷ [], refl),
                  any_answer (net.cloud log request),
                ))
                (λ _ later u k. (k, Extends-self later, tt)))
        | inr e ↦ rw e (h, Extends-self log, tt)
      ]

  backend-Yields :
      (configured : Map Str) (lb_subnets subnets : List Subnet)
      → Yields
          (Any {A = Unit})
          (update_backend_rules net configured lb_subnets subnets actual desired)
  unfolding update_backend_rules
  backend-Yields configured lb_subnets [] log h = (h, Extends-self log, tt)
  backend-Yields configured lb_subnets (subnet ∷ subnets) log h =
      let written = λ (r : Response).
        write_changed net r (node_ingress net lb_subnets actual desired r)
          r.security_list.egress_security_rules in
      let behind = update_backend_rules net configured lb_subnets subnets actual desired in
      Done-then WasRead (Any {A = Unit}) (λ r. written r >> behind) log
        ((wrapping (get_security_list net configured subnet)).run log)
        (Done-wrapping WasRead log ((get_security_list net configured subnet).run log)
          (get_security_list-Yields configured subnet log h))
        (λ r later p k.
          Done-then (Any {A = Unit}) (Any {A = Unit}) (λ _. behind) later ((written r).run later)
            (write-Yields lb_subnets r later p k)
            (λ _ last u l. backend-Yields configured lb_subnets subnets last l))

  -- Whatever the client answers and wherever it fails, every write that updateBackendRules makes is of
  -- a list that an earlier call of the run read, as the client answered that call, under its etag; it
  -- changes something, leaves the egress rules as they were, and keeps the ingress rules that concern
  -- no port of the service, old or new.
  pub update_backend_rules-Careful :
      (configured : Map Str) (lb_subnets subnets : List Subnet)
      → AllCareful []
          ((update_backend_rules net configured lb_subnets subnets actual desired).run []).0
  update_backend_rules-Careful configured lb_subnets subnets =
      (backend-Yields configured lb_subnets subnets [] tt).0
