-- ===== src/Manager/Compare.antt =====
-- utils.MapCompare: the keys that one map has and the other lacks, and those of both whose values
-- differ.
pub mod Keys
use oci_lb_ingress_controlle.Base.Maps.{Map, lookup, keys}
use oci_lb_ingress_controlle.Base.Sets.{delete, of_list, sorted, difference, intersection}
use oci_lb_ingress_controlle.Base.{
  if◌then◌else◌, Str, Bool, false, Option, none, some, List, [], ◌∷◌,
}

pub record Compared : Type 0 where
  pub extra : List Str
  pub missing : List Str
  pub intersection : List Str

module _ {A B : Type 0} where
  -- Both values, where both maps have one, are the same by the test.
  abbrev pub same_at : (A → B → Bool) → Option A → Option B → Bool
  same_at same (some a) (some b) = same a b
  same_at same _ _ = false

  -- The loop that takes the equal ones out of the intersection.
  unfoldable pub drop_same : (A → B → Bool) → Map A → Map B → List Str → List Str → List Str
  drop_same same a b [] common = common
  drop_same same a b (k ∷ ks) common =
      drop_same same a b ks
        (if same_at same (lookup k a) (lookup k b) then delete k common else common)

  abbrev filtered : Option (A → B → Bool) → Map A → Map B → List Str → List Str
  filtered none a b common = common
  filtered (some same) a b common = drop_same same a b (sorted common) common

  -- `none` stands for the nil function.
  unfoldable pub map_compare : Option (A → B → Bool) → Map A → Map B → Compared
  map_compare same a b =
      let keyset_a = of_list (keys a) in
      let keyset_b = of_list (keys b) in
      record {
        extra = difference keyset_a keyset_b;
        missing = difference keyset_b keyset_a;
        intersection = filtered same a b (intersection keyset_b keyset_a);
      }
