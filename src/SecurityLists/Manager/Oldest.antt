-- ===== src/SecurityLists/Manager/Oldest.antt =====
-- Which of the lists that were read is managed.
use mathlib.Core.Path.{subst}
use oci_lb_ingress_controlle.Base.Maps.{Map, lookup}
use oci_lb_ingress_controlle.Base.Effects.{returns, lift, and_then_on, ◌>>=◌}
use oci_lb_ingress_controlle.Provider.Subnets.{Subnet}
use oci_lb_ingress_controlle.SecurityLists.Manager.{
  Response, Request, get_security_list_request, Networking, insert_by_time, sort_by_time,
  first_response, read_lists, read_oldest, get_security_list,
}
use oci_lb_ingress_controlle.Base.{
  ltb, if◌then◌else◌, Bool-cases, is_empty, All, Str, Result, ok, err, ℕ, ◌≤◌, ◌≡◌, refl, sym, inl,
  inr, Bool, true, false, none, List, [], ◌∷◌, ◌++◌, arith,
}

module _ (P : Response → Type 0) where
  All-insert_by_time :
      (r : Response) (rs : List Response) → P r → All P rs → All P (insert_by_time r rs)
  unfolding insert_by_time
  All-insert_by_time r [] p h = (p, tt)
  All-insert_by_time r (s ∷ ss) p h = elim (Bool-cases (ltb s.time_created r.time_created)) [
    | inl e ↦ rw e (h.0, All-insert_by_time r ss p h.1)
    | inr e ↦ rw e (p, h)
  ]

  pub All-sort_by_time : (rs : List Response) → All P rs → All P (sort_by_time rs)
  unfolding sort_by_time
  All-sort_by_time [] h = tt
  All-sort_by_time (r ∷ rs) h = All-insert_by_time r (sort_by_time rs) h.0 (All-sort_by_time rs h.1)

-- No list of these is older.
abbrev pub NotAfter : ℕ → List Response → Type 0
NotAfter t rs = All (λ s. t ≤ s.time_created) rs

-- The first of the lists is the oldest one.
abbrev pub FirstIsOldest : List Response → Type 0
FirstIsOldest [] = Unit
FirstIsOldest (r ∷ rs) = NotAfter r.time_created rs

NotAfter-weaken : (t u : ℕ) → t ≤ u → (rs : List Response) → NotAfter u rs → NotAfter t rs
NotAfter-weaken t u h [] k = tt
NotAfter-weaken t u h (r ∷ rs) k = (omega (arith, h, k.0), NotAfter-weaken t u h rs k.1)

later : (s r : ℕ) → ltb s r ≡ false → r ≤ s
later s r h = ground arith

earlier : (s r : ℕ) → ltb s r ≡ true → s ≤ r
earlier s r h = ground arith

FirstIsOldest-insert_by_time :
    (r : Response) (rs : List Response) → FirstIsOldest rs → FirstIsOldest (insert_by_time r rs)
unfolding insert_by_time
FirstIsOldest-insert_by_time r [] h = tt
FirstIsOldest-insert_by_time r (s ∷ ss) h = elim (Bool-cases (ltb s.time_created r.time_created)) [
  | inl e ↦ rw e (
      All-insert_by_time (λ x. s.time_created ≤ x.time_created) r ss
        (earlier s.time_created r.time_created e) h)
  | inr e ↦
      let before = later s.time_created r.time_created e in
      rw e (before, NotAfter-weaken r.time_created s.time_created before ss h)
]

FirstIsOldest-sort_by_time : (rs : List Response) → FirstIsOldest (sort_by_time rs)
unfolding sort_by_time
FirstIsOldest-sort_by_time [] = tt
FirstIsOldest-sort_by_time (r ∷ rs) =
    FirstIsOldest-insert_by_time r (sort_by_time rs) (FirstIsOldest-sort_by_time rs)

-- What is true of the sorted lists is true of the lists.
module _ (P : Response → Type 0) where
  All-of_insert_by_time :
      (r : Response) (rs : List Response) → All P (insert_by_time r rs) → P r × All P rs
  unfolding insert_by_time
  All-of_insert_by_time r [] h = h
  All-of_insert_by_time r (s ∷ ss) h =
      pick (ltb s.time_created r.time_created) h (λ k. All-of_insert_by_time r ss k)
    where
      pick :
          (b : Bool)
          → All P (if b then s ∷ insert_by_time r ss else r ∷ s ∷ ss)
          → (All P (insert_by_time r ss) → P r × All P ss)
          → P r × All P (s ∷ ss)
      pick true k back = ((back k.1).0, (k.0, (back k.1).1))
      pick false k back = k

  All-of_sort_by_time : (rs : List Response) → All P (sort_by_time rs) → All P rs
  unfolding sort_by_time
  All-of_sort_by_time [] h = tt
  All-of_sort_by_time (r ∷ rs) h =
      let both = All-of_insert_by_time r (sort_by_time rs) h in
      (both.0, All-of_sort_by_time rs both.1)

first-NotAfter :
    (rs : List Response) (r : Response)
    → FirstIsOldest rs
    → first_response rs ≡ ok r
    → NotAfter r.time_created rs
first-NotAfter [] r h e = cc
first-NotAfter (s ∷ ss) r h e =
    let same : s ≡ r = cc in subst (λ x. NotAfter x.time_created (s ∷ ss)) same (omega arith, h)

-- No answer for the identifiers is older.
abbrev pub NoneOlder : (Str → Result Response) → ℕ → List Str → Type 0
NoneOlder answers t ids = All (λ id. (s : Response) → answers id ≡ ok s → t ≤ s.time_created) ids

module _ (net : Networking) (answers : Str → Result Response)
    (steady : (log : List Request) (id : Str) → net.security_list log id ≡ answers id) where
  -- The responses are the answers for the identifiers.
  abbrev Answered : List Str → List Response → Type 0
  Answered [] rs = rs ≡ []
  Answered (id ∷ ids) [] = ⊥
  Answered (id ∷ ids) (r ∷ rs) = (answers id ≡ ok r) × Answered ids rs

  abbrev AnsweredOn : List Str → Result (List Response) → Type 0
  AnsweredOn ids (ok rs) = Answered ids rs
  AnsweredOn ids (err e) = Unit

  one_more :
      (id : Str) (ids : List Str) (log : List Request) (a : Result Response)
      → answers id ≡ a
      → ((later : List Request) → AnsweredOn ids ((read_lists net ids).run later).1)
      → AnsweredOn
          (id ∷ ids)
          (and_then_on (λ r. read_lists net ids >>= λ rs. returns (r ∷ rs)) (log, a)).1
  one_more id ids log (err e) h k = tt
  one_more id ids log (ok r) h k = rest ((read_lists net ids).run log) (k log)
    where
      rest :
          (out : List Request × Result (List Response))
          → AnsweredOn ids out.1
          → AnsweredOn (id ∷ ids) (and_then_on (λ rs. returns (r ∷ rs)) out).1
      rest (later, ok rs) g = (h, g)
      rest (later, err e) g = tt

  lists_answered :
      (ids : List Str) (log : List Request) → AnsweredOn ids ((read_lists net ids).run log).1
  unfolding read_lists
  lists_answered [] log = refl
  lists_answered (id ∷ ids) log =
      one_more id ids (log ++ (get_security_list_request id ∷ [])) (net.security_list log id)
        (sym (steady log id)) (lists_answered ids)

  none_older :
      (t : ℕ) (ids : List Str) (rs : List Response)
      → Answered ids rs
      → NotAfter t rs
      → NoneOlder answers t ids
  none_older t [] rs a h = tt
  none_older t (id ∷ ids) [] a h = absurd a
  none_older t (id ∷ ids) (r ∷ rs) a h = (
    λ s e. let same : r ≡ s = cc in subst (λ x. t ≤ x.time_created) same h.0,
    none_older t ids rs a.1 h.1,
  )

  oldest_of :
      (ids : List Str) (out : List Request × Result (List Response)) (r : Response)
      → AnsweredOn ids out.1
      → (and_then_on (λ rs. lift (first_response (sort_by_time rs))) out).1 ≡ ok r
      → NoneOlder answers r.time_created ids
  oldest_of ids (log, err e) r a h = cc
  oldest_of ids (log, ok rs) r a h = none_older r.time_created ids rs a (
      All-of_sort_by_time (λ s. r.time_created ≤ s.time_created) rs
        (first-NotAfter (sort_by_time rs) r (FirstIsOldest-sort_by_time rs) h))

  -- Of a subnet that the configuration gives no list for, the list that is managed is an oldest one of
  -- the subnet's, where the client's answers do not change while they are read.
  get_security_list-NoneOlder :
      (configured : Map Str) (subnet : Subnet) (log : List Request) (r : Response)
      → lookup subnet.id configured ≡ none
      → ((get_security_list net configured subnet).run log).1 ≡ ok r
      → NoneOlder answers r.time_created subnet.security_list_ids
  unfolding get_security_list read_oldest
  get_security_list-NoneOlder configured subnet log r free =
      elim (Bool-cases (is_empty subnet.security_list_ids)) [
        | inl e ↦ rw e (λ h. cc)
        | inr e ↦ rw e (
            rw free (λ h.
              oldest_of subnet.security_list_ids ((read_lists net subnet.security_list_ids).run log)
                r (lists_answered subnet.security_list_ids log) h))
      ]
