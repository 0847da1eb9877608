-- ===== src/SecurityLists/Sweep.antt =====
-- The loop that the three rule functions share: each rule is kept or dropped, and a state (the
-- addresses that still want a rule) is passed on.
use oci_lb_ingress_controlle.Base.{
  if◌then◌else◌, Bool-cases, filter, any, All, ◌≡◌, refl, ◌⊎◌, inl, inr, Bool, true, List, [], ◌∷◌,
  arith,
}
use oci_lb_ingress_controlle.SecurityLists.Types.{SecurityRule}

module _ {S : Type 0} (step : SecurityRule → S → Bool × S) where
  unfoldable pub sweep : List SecurityRule → S → List SecurityRule × S
  sweep [] s = ([], s)
  sweep (r ∷ rs) s =
      let (kept, s') = step r s in
      let (rest, s'') = sweep rs s' in (if kept then r ∷ rest else rest, s'')

  -- The rules that no state makes the step drop stay, in order.
  pub filter-sweep :
      (p : SecurityRule → Bool)
      → ((r : SecurityRule) (s : S) → p r ≡ true → (step r s).0 ≡ true)
      → (rs : List SecurityRule) (s : S) → filter p (sweep rs s).0 ≡ filter p rs
  unfolding sweep filter
  filter-sweep p keeps [] s = refl
  filter-sweep p keeps (r ∷ rs) s = ground (arith, keeps r s, filter-sweep p keeps rs (step r s).1)

  -- An invariant of the state, and what it says of the rules that are kept.
  pub sweep_inv :
      (I : S → Type 0) (P : SecurityRule → Type 0)
      → ((r : SecurityRule) (s : S) → I s → I (step r s).1 × ((step r s).0 ≡ true → P r))
      → (rs : List SecurityRule) (s : S) → I s
      → I (sweep rs s).1 × All P (sweep rs s).0
  unfolding sweep
  sweep_inv I P ind [] s h = (h, tt)
  sweep_inv I P ind (r ∷ rs) s h =
      let one = ind r s h in
      let more = sweep_inv I P ind rs (step r s).1 one.0 in
      elim (Bool-cases (step r s).0) [
        | inl e ↦ rw e (more.0, (one.1 e, more.1))
        | inr e ↦ rw e more
      ]

  -- A wish of the state stays, or a kept rule meets it.
  pub sweep_meets :
      (wish : S → Bool) (meets : SecurityRule → Bool)
      → ((r : SecurityRule) (s : S)
          → wish s ≡ true
          → (wish (step r s).1 ≡ true) ⊎ (((step r s).0 ≡ true) × (meets r ≡ true)))
      → (rs : List SecurityRule) (s : S) → wish s ≡ true
      → (wish (sweep rs s).1 ≡ true) ⊎ (any meets (sweep rs s).0 ≡ true)
  unfolding sweep any
  sweep_meets wish meets ind [] s h = inl h
  sweep_meets wish meets ind (r ∷ rs) s h = elim (ind r s h) [
    | inl still ↦ elim (sweep_meets wish meets ind rs (step r s).1 still) [
      | inl w ↦ inl w
      | inr m ↦ inr (ground (arith, m))
    ]
    | inr met ↦ inr (ground (arith, met))
  ]
