-- ===== src/LoadBalancer/Actions/Phases.antt =====
-- The six phases of a plan, and why the sort gives them in order.
use oci_lb_ingress_controlle.LoadBalancer.BackendSets.{ActionType, create, update, delete}
use oci_lb_ingress_controlle.LoadBalancer.Actions.{
  Action, on_backend_set, on_listener, action_order, index_from, action_index, stable_insert,
  stable_sort, sort_and_combine_actions, type_name, index_less,
}
use oci_lb_ingress_controlle.Base.{
  ltb, ◌==◌, Bool-cases, pos, filter, All, All-append, text, str_eq, ℕ, zero, suc, ◌+◌, ◌≤◌, ◌<◌,
  ◌≡◌, refl, sym, ap, ◌∙◌, inl, inr, Bool, List, [], ◌∷◌, ◌++◌, arith,
}

-- Backend sets are created and updated, then listeners created, updated and deleted, and last
-- backend sets deleted.
abbrev pub backend_set_phase : ActionType → ℕ
backend_set_phase create = 0
backend_set_phase update = 1
backend_set_phase delete = 5

abbrev pub listener_phase : ActionType → ℕ
listener_phase create = 2
listener_phase update = 3
listener_phase delete = 4

abbrev pub phase : Action → ℕ
phase (on_backend_set a) = backend_set_phase a.action_type
phase (on_listener a) = listener_phase a.action_type

backend_set_index :
    (t : ActionType)
    → index_from 0 (text "BackendSet" ++ (b':' ∷ type_name t)) action_order
      ≡ pos (backend_set_phase t)
unfolding index_from action_order str_eq
backend_set_index create = refl
backend_set_index update = refl
backend_set_index delete = refl

listener_index :
    (t : ActionType)
    → index_from 0 (text "Listener" ++ (b':' ∷ type_name t)) action_order ≡ pos (listener_phase t)
unfolding index_from action_order str_eq
listener_index create = refl
listener_index update = refl
listener_index delete = refl

-- Every action is in the table, so no index is -1.
index_of_phase : (a : Action) → action_index a ≡ pos (phase a)
unfolding action_index
index_of_phase (on_backend_set a) = backend_set_index a.action_type
index_of_phase (on_listener a) = listener_index a.action_type

module _ {A : Type 0} (less : A → A → Bool) (rank : A → ℕ)
    (by_rank : (a b : A) → less a b ≡ ltb (rank a) (rank b)) where
  abbrev at_rank : ℕ → List A → List A
  at_rank i = filter (λ a. rank a == i)

  -- The elements of rank lo, then those of rank lo + 1, and so on, `count` ranks in all.
  buckets : ℕ → ℕ → List A → List A
  buckets zero lo xs = []
  buckets (suc count) lo xs = at_rank lo xs ++ buckets count (suc lo) xs

  insert_front :
      (x : A) (ys : List A) → All (λ y. rank x ≤ rank y) ys → stable_insert less x ys ≡ x ∷ ys
  unfolding stable_insert
  insert_front x [] h = refl
  insert_front x (y ∷ ys) h = ground (arith, by_rank y x, h.0)

  insert_behind :
      (x : A) (ys zs : List A)
      → All (λ y. rank y < rank x) ys
      → stable_insert less x (ys ++ zs) ≡ ys ++ stable_insert less x zs
  unfolding stable_insert
  insert_behind x [] zs h = refl
  insert_behind x (y ∷ ys) zs h = ground (arith, by_rank y x, h.0, insert_behind x ys zs h.1)

  All-at_rank :
      (P : A → Type 0) (i : ℕ) → ((a : A) → rank a ≡ i → P a) → (xs : List A) → All P (at_rank i xs)
  unfolding filter
  All-at_rank P i f [] = tt
  All-at_rank P i f (x ∷ xs) = elim (Bool-cases (rank x == i)) [
    | inl e ↦ rw e (f x (ground arith), All-at_rank P i f xs)
    | inr e ↦ rw e (All-at_rank P i f xs)
  ]

  All-buckets :
      (x : A) (count lo : ℕ) (xs : List A)
      → rank x ≤ lo
      → All (λ y. rank x ≤ rank y) (buckets count lo xs)
  unfolding buckets
  All-buckets x zero lo xs h = tt
  All-buckets x (suc count) lo xs h =
      All-append (λ y. rank x ≤ rank y) (at_rank lo xs) (buckets count (suc lo) xs)
        (All-at_rank (λ y. rank x ≤ rank y) lo (λ a e. omega arith) xs)
        (All-buckets x count (suc lo) xs (omega arith))

  buckets_above :
      (x : A) (count lo : ℕ) (xs : List A)
      → rank x < lo
      → buckets count lo (x ∷ xs) ≡ buckets count lo xs
  unfolding buckets filter
  buckets_above x zero lo xs h = refl
  buckets_above x (suc count) lo xs h = ground (arith, buckets_above x count (suc lo) xs)

  insert_in_buckets :
      (x : A) (count lo : ℕ) (xs : List A)
      → lo ≤ rank x
      → rank x < lo + count
      → stable_insert less x (buckets count lo xs) ≡ buckets count lo (x ∷ xs)
  unfolding buckets filter
  insert_in_buckets x zero lo xs h k = absurd (omega arith)
  insert_in_buckets x (suc count) lo xs h k = elim (Bool-cases (rank x == lo)) [
    | inl e ↦ rw e (
        rw (buckets_above x count (suc lo) xs (ground arith)) (
          insert_front x (buckets (suc count) lo xs)
            (All-buckets x (suc count) lo xs (ground arith))))
    | inr e ↦ rw e (
        insert_behind x (at_rank lo xs) (buckets count (suc lo) xs)
          (All-at_rank (λ y. rank y < rank x) lo (λ a q. ground arith) xs)
        ∙ ap (◌++◌ (at_rank lo xs))
            (insert_in_buckets x count (suc lo) xs (ground arith) (omega arith)))
  ]

  buckets-nil : (count lo : ℕ) → buckets count lo [] ≡ []
  unfolding buckets filter
  buckets-nil zero lo = refl
  buckets-nil (suc count) lo = buckets-nil count (suc lo)

  -- A stable sort lists the elements rank by rank, in their own order within a rank.
  sort_by_rank :
      (bound : ℕ) (xs : List A)
      → All (λ x. rank x < bound) xs
      → stable_sort less xs ≡ buckets bound 0 xs
  unfolding stable_sort
  sort_by_rank bound [] h = sym (buckets-nil bound 0)
  sort_by_rank bound (x ∷ xs) h =
      ap (stable_insert less x) (sort_by_rank bound xs h.1)
      ∙ insert_in_buckets x bound 0 xs (omega arith) (omega (arith, h.0))

-- The actions of one phase, in the order in which they stand.
abbrev pub in_phase : ℕ → List Action → List Action
in_phase i = filter (λ a. phase a == i)

phase-lt : (a : Action) → phase a < 6
phase-lt (on_backend_set a) = backend_set_phase-lt a.action_type
  where
    backend_set_phase-lt : (t : ActionType) → backend_set_phase t < 6
    backend_set_phase-lt create = omega arith
    backend_set_phase-lt update = omega arith
    backend_set_phase-lt delete = omega arith
phase-lt (on_listener a) = listener_phase-lt a.action_type
  where
    listener_phase-lt : (t : ActionType) → listener_phase t < 6
    listener_phase-lt create = omega arith
    listener_phase-lt update = omega arith
    listener_phase-lt delete = omega arith

All-phase-lt : (xs : List Action) → All (λ a. phase a < 6) xs
All-phase-lt [] = tt
All-phase-lt (a ∷ xs) = (phase-lt a, All-phase-lt xs)

-- The actions run phase by phase: creations and updates of backend sets, creations, updates and
-- deletions of listeners, deletions of backend sets. None is lost or made up, and within a phase
-- they keep their order. So a backend set exists before a listener refers to it, and goes only
-- when every listener to be deleted is gone.
pub sort_and_combine_actions-phases :
    (bs ls : List Action)
    → sort_and_combine_actions bs ls
      ≡ in_phase 0 (bs ++ ls)
        ++ (in_phase 1 (bs ++ ls)
            ++ (in_phase 2 (bs ++ ls)
                ++ (in_phase 3 (bs ++ ls)
                    ++ (in_phase 4 (bs ++ ls) ++ (in_phase 5 (bs ++ ls) ++ [])))))
unfolding sort_and_combine_actions buckets
sort_and_combine_actions-phases bs ls =
    sort_by_rank index_less phase by_phase 6 (bs ++ ls) (All-phase-lt (bs ++ ls))
  where
    by_phase : (a b : Action) → index_less a b ≡ ltb (phase a) (phase b)
    by_phase a b = rw (index_of_phase a, index_of_phase b) refl
