-- ===== src/Base/Sets.antt =====
-- sets.String of k8s.io/apimachinery: a list without repetitions.
use oci_lb_ingress_controlle.Base.Tests.{if◌then◌else◌}
use oci_lb_ingress_controlle.Base.Text.{Str, str_eq, str_eq_iff, str_le}
use oci_lb_ingress_controlle.Base.Lists.{filter}
use mathlib.Core.Path.{◌≡◌, refl}
use mathlib.Core.Bool.{Bool, false, not, ◌&&◌, ◌||◌}
use mathlib.Core.List.{List, [], ◌∷◌, ◌++◌}
use native.Mathlib.Omega.{arith}

unfoldable pub has : Str → List Str → Bool
has x [] = false
has x (y ∷ s) = str_eq x y || has x s

unfoldable pub insert : Str → List Str → List Str
insert x s = if has x s then s else x ∷ s

unfoldable pub delete : Str → List Str → List Str
delete x [] = []
delete x (y ∷ s) = let rest = delete x s in if str_eq x y then rest else y ∷ rest

-- sets.NewString(xs...)
unfoldable pub of_list : List Str → List Str
of_list [] = []
of_list (x ∷ xs) = insert x (of_list xs)

sort_insert : Str → List Str → List Str
sort_insert x [] = x ∷ []
sort_insert x (y ∷ s) = let rest = sort_insert x s in if str_le x y then x ∷ y ∷ s else y ∷ rest

-- s.List(): the elements in increasing order.
unfoldable pub sorted : List Str → List Str
unfolding sort_insert
sorted [] = []
sorted (x ∷ s) = sort_insert x (sorted s)

-- s1.Difference(s2)
unfoldable pub difference : List Str → List Str → List Str
difference s t = filter (λ x. not (has x t)) s

-- s1.Intersection(s2)
unfoldable pub intersection : List Str → List Str → List Str
intersection s t = filter (λ x. has x t) s

pub has-insert : (x y : Str) (s : List Str) → has y (insert x s) ≡ (str_eq y x || has y s)
unfolding has insert
has-insert x y s = ground (arith, str_eq_iff x y, str_eq_iff y x)

pub has-delete : (x y : Str) (s : List Str) → has y (delete x s) ≡ (not (str_eq y x) && has y s)
unfolding has delete
has-delete x y [] = ground arith
has-delete x y (z ∷ s) =
    ground (arith, has-delete x y s, str_eq_iff x y, str_eq_iff y x, str_eq_iff x z, str_eq_iff y z)

pub has-of_list : (x : Str) (xs : List Str) → has x (of_list xs) ≡ has x xs
unfolding of_list has
has-of_list x [] = refl
has-of_list x (y ∷ xs) = ground (arith, has-insert y x (of_list xs), has-of_list x xs)

has-sort_insert : (x y : Str) (s : List Str) → has y (sort_insert x s) ≡ (str_eq y x || has y s)
unfolding has sort_insert
has-sort_insert x y [] = refl
has-sort_insert x y (z ∷ s) = ground (arith, has-sort_insert x y s)

pub has-sorted : (x : Str) (s : List Str) → has x (sorted s) ≡ has x s
unfolding has sorted
has-sorted x [] = refl
has-sorted x (y ∷ s) = ground (arith, has-sort_insert y x (sorted s), has-sorted x s)

pub has-append : (x : Str) (xs ys : List Str) → has x (xs ++ ys) ≡ (has x xs || has x ys)
unfolding has
has-append x [] ys = refl
has-append x (y ∷ xs) ys = ground (arith, has-append x xs ys)
