-- ===== src/Manager/Compare/Keys.antt =====
-- Which keys MapCompare finds.
use oci_lb_ingress_controlle.Base.Maps.{Map, lookup, keys}
use oci_lb_ingress_controlle.Base.Sets.{
  has, delete, of_list, sorted, difference, intersection, has-delete, has-of_list, has-sorted,
}
use oci_lb_ingress_controlle.Manager.Compare.{same_at, drop_same, map_compare}
use oci_lb_ingress_controlle.Base.{
  Bool-cases, is_some, filter, Str, str_eq, str_eq_iff, ◌≡◌, refl, ap, ◌∙◌, inl, inr, Bool, true,
  false, not, ◌&&◌, Option, none, some, List, [], ◌∷◌, arith,
}

has-filter : (p : Str → Bool) (x : Str) (s : List Str) → has x (filter p s) ≡ (has x s && p x)
unfolding has filter
has-filter p x [] = refl
has-filter p x (y ∷ s) = elim (Bool-cases (str_eq x y)) [
  | inl e ↦ let same = ap p ((str_eq_iff x y).0 e) in ground (arith, has-filter p x s, same)
  | inr e ↦ ground (arith, has-filter p x s)
]

module _ {V : Type 0} where
  has-keys : (k : Str) (m : Map V) → has k (keys m) ≡ is_some (lookup k m)
  unfolding has keys lookup
  has-keys k [] = refl
  has-keys k ((j, v) ∷ m) = ground (arith, str_eq_iff k j, str_eq_iff j k, has-keys k m)

  has-key_set : (k : Str) (m : Map V) → has k (of_list (keys m)) ≡ is_some (lookup k m)
  has-key_set k m = has-of_list k (keys m) ∙ has-keys k m

module _ {A B : Type 0} where
  -- Both values are there, and the test tells them apart.
  abbrev pub differs_at : (A → B → Bool) → Option A → Option B → Bool
  differs_at same (some a) (some b) = not (same a b)
  differs_at same _ _ = false

  pub has-extra :
      (same : Option (A → B → Bool)) (k : Str) (a : Map A) (b : Map B)
      → has k (map_compare same a b).extra ≡ (is_some (lookup k a) && not (is_some (lookup k b)))
  unfolding map_compare difference
  has-extra same k a b =
      has-filter (λ x. not (has x (of_list (keys b)))) k (of_list (keys a))
      ∙ rw (has-key_set k a) (rw (has-key_set k b) refl)

  pub has-missing :
      (same : Option (A → B → Bool)) (k : Str) (a : Map A) (b : Map B)
      → has k (map_compare same a b).missing ≡ (is_some (lookup k b) && not (is_some (lookup k a)))
  unfolding map_compare difference
  has-missing same k a b =
      has-filter (λ x. not (has x (of_list (keys a)))) k (of_list (keys b))
      ∙ rw (has-key_set k a) (rw (has-key_set k b) refl)

  has-drop_same :
      (same : A → B → Bool) (a : Map A) (b : Map B) (k : Str) (ks common : List Str)
      → has k (drop_same same a b ks common)
        ≡ (has k common && not (has k ks && same_at same (lookup k a) (lookup k b)))
  unfolding drop_same has
  has-drop_same same a b k [] common = ground arith
  has-drop_same same a b k (j ∷ ks) common = elim (Bool-cases (str_eq k j)) [
    | inl e ↦
        let here = (str_eq_iff k j).0 e in
        elim (Bool-cases (same_at same (lookup j a) (lookup j b))) [
          | inl s ↦
              let there : same_at same (lookup k a) (lookup k b) ≡ true =
                ap (λ x. same_at same (lookup x a) (lookup x b)) here ∙ s in
              rw s (
                ground (
                  arith,
                  has-drop_same same a b k ks (delete j common),
                  has-delete j k common,
                  there,
                ))
          | inr s ↦
              let there : same_at same (lookup k a) (lookup k b) ≡ false =
                ap (λ x. same_at same (lookup x a) (lookup x b)) here ∙ s in
              rw s (ground (arith, has-drop_same same a b k ks common, there))
        ]
    | inr e ↦ elim (Bool-cases (same_at same (lookup j a) (lookup j b))) [
      | inl s ↦
          rw s
            (ground (arith, has-drop_same same a b k ks (delete j common), has-delete j k common))
      | inr s ↦ rw s (ground (arith, has-drop_same same a b k ks common))
    ]
  ]

  differs_at_lem :
      (same : A → B → Bool) (a : Option A) (b : Option B)
      → ((is_some b && is_some a) && not ((is_some b && is_some a) && same_at same a b))
        ≡ differs_at same a b
  differs_at_lem same none b = ground arith
  differs_at_lem same (some a) none = refl
  differs_at_lem same (some a) (some b) = refl

  has-common :
      (k : Str) (a : Map A) (b : Map B)
      → has k (intersection (of_list (keys b)) (of_list (keys a)))
        ≡ (is_some (lookup k b) && is_some (lookup k a))
  unfolding intersection
  has-common k a b =
      has-filter (λ x. has x (of_list (keys a))) k (of_list (keys b))
      ∙ rw (has-key_set k a) (rw (has-key_set k b) refl)

  pub has-changed :
      (same : A → B → Bool) (k : Str) (a : Map A) (b : Map B)
      → has k (map_compare (some same) a b).intersection ≡ differs_at same (lookup k a) (lookup k b)
  unfolding map_compare
  has-changed same k a b =
      let common = intersection (of_list (keys b)) (of_list (keys a)) in
      has-drop_same same a b k (sorted common) common
      ∙ rw (has-sorted k common)
          (rw (has-common k a b) (differs_at_lem same (lookup k a) (lookup k b)))

  -- The extra keys are those of the first map alone, the missing ones those of the second map alone,
  -- and the intersection those of both where the test tells the values apart.
  map_compare-keys :
      (same : A → B → Bool) (k : Str) (a : Map A) (b : Map B)
      → (has k (map_compare (some same) a b).extra
          ≡ (is_some (lookup k a) && not (is_some (lookup k b))))
        × (has k (map_compare (some same) a b).missing
            ≡ (is_some (lookup k b) && not (is_some (lookup k a))))
        × (has k (map_compare (some same) a b).intersection
            ≡ differs_at same (lookup k a) (lookup k b))
  map_compare-keys same k a b =
      (has-extra (some same) k a b, has-missing (some same) k a b, has-changed same k a b)
