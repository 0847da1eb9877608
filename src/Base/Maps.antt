-- ===== src/Base/Maps.antt =====
-- A Go map with string keys is an association list; its order is the order of an iteration, which
-- Go leaves open, so what holds for every such list holds for every order.
use oci_lb_ingress_controlle.Base.Tests.{if◌then◌else◌, Bool-cases, is_some}
use oci_lb_ingress_controlle.Base.Text.{Str, str_eq, str_eq_iff}
use mathlib.Core.Path.{◌≡◌, refl, subst}
use mathlib.Core.Logic.{inl, inr}
use mathlib.Core.Bool.{Bool, true, false, ◌||◌}
use mathlib.Core.Option.{Option, none, some}
use mathlib.Core.List.{List, [], ◌∷◌}
use native.Mathlib.Omega.{arith}

abbrev pub Map {ℓ} : Type ℓ → Type ℓ
Map V = List (Str × V)

pub some_inj {ℓ} : {A : Type ℓ} {a b : A} → some a ≡ some b → a ≡ b
some_inj e = cc

module _ {ℓ} {V : Type ℓ} where
  unfoldable pub lookup : Str → Map V → Option V
  lookup k [] = none
  lookup k ((j, v) ∷ m) = if str_eq j k then some v else lookup k m

  -- m[k] = v
  unfoldable pub put : Str → V → Map V → Map V
  put k v [] = (k, v) ∷ []
  put k v ((j, w) ∷ m) = if str_eq j k then (k, v) ∷ m else (j, w) ∷ put k v m

  -- delete(m, k)
  unfoldable pub remove : Str → Map V → Map V
  remove k [] = []
  remove k ((j, w) ∷ m) = let rest = remove k m in if str_eq j k then rest else (j, w) ∷ rest

  unfoldable pub keys : Map V → List Str
  keys [] = []
  keys ((k, v) ∷ m) = k ∷ keys m

  unfoldable pub has_key : Str → Map V → Bool
  has_key k [] = false
  has_key k ((j, v) ∷ m) = str_eq j k || has_key k m

  -- No key occurs twice, as in every Go map.
  abbrev pub Distinct : Map V → Type 0
  Distinct [] = Unit
  Distinct ((k, v) ∷ m) = (has_key k m ≡ false) × Distinct m

  pub lookup-put :
      (k j : Str) (v : V) (m : Map V)
      → lookup j (put k v m) ≡ (if str_eq k j then some v else lookup j m)
  unfolding lookup put
  lookup-put k j v [] = refl
  lookup-put k j v ((i, w) ∷ m) =
      ground (arith, str_eq_iff k j, str_eq_iff i k, str_eq_iff i j, lookup-put k j v m)

  pub lookup-remove :
      (k j : Str) (m : Map V) → lookup j (remove k m) ≡ (if str_eq k j then none else lookup j m)
  unfolding lookup remove
  lookup-remove k j [] = ground arith
  lookup-remove k j ((i, w) ∷ m) =
      ground (arith, str_eq_iff k j, str_eq_iff i k, str_eq_iff i j, lookup-remove k j m)

  pub lookup-absent : (k : Str) (m : Map V) → has_key k m ≡ false → lookup k m ≡ none
  unfolding lookup has_key
  lookup-absent k [] h = refl
  lookup-absent k ((j, v) ∷ m) h = ground (arith, lookup-absent k m)

  pub lookup-has_key : (k : Str) (m : Map V) → has_key k m ≡ is_some (lookup k m)
  unfolding lookup has_key
  lookup-has_key k [] = refl
  lookup-has_key k ((j, v) ∷ m) = ground (arith, lookup-has_key k m)

  has_key-put :
      (k j : Str) (v : V) (m : Map V) → has_key j (put k v m) ≡ (str_eq k j || has_key j m)
  has_key-put k j v m =
      rw (lookup-has_key j (put k v m), lookup-has_key j m, lookup-put k j v m) (ground arith)

  pub has_key-put_kept :
      (k j : Str) (v : V) (m : Map V) → has_key j m ≡ true → has_key j (put k v m) ≡ true
  has_key-put_kept k j v m h = ground (arith, has_key-put k j v m)

  pub has_key-put_self : (k : Str) (v : V) (m : Map V) → has_key k (put k v m) ≡ true
  has_key-put_self k v m = ground (arith, has_key-put k k v m, str_eq_iff k k)

  pub has_key-lookup : (k : Str) (v : V) (m : Map V) → lookup k m ≡ some v → has_key k m ≡ true
  has_key-lookup k v m h = ground (arith, lookup-has_key k m)

  -- What holds of every entry that a lookup finds
  abbrev pub Every {κ} : (Str → V → Type κ) → Map V → Type (ℓ ⊔ κ)
  Every P m = (k : Str) (v : V) → lookup k m ≡ some v → P k v

  pub Every-put {κ} :
      (P : Str → V → Type κ) (k : Str) (v : V) (m : Map V) → P k v → Every P m → Every P (put k v m)
  Every-put P k v m p h j w e = elim (Bool-cases (str_eq k j)) [
    | inl same ↦
        let key : k ≡ j = (str_eq_iff k j).0 same in
        let value : v ≡ w = replaced same in subst (λ i. P i w) key (subst (P k) value p)
    | inr other ↦ h j w (kept other)
  ]
    where
      replaced : str_eq k j ≡ true → v ≡ w
      replaced same = some_inj (rw (lookup-put k j v m, same) at e)

      kept : str_eq k j ≡ false → lookup j m ≡ some w
      kept other = rw (lookup-put k j v m, other) at e
