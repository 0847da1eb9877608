-- ===== src/Controller/Reconciler.antt =====
-- reconciler.Reconcile: one request, against the cache and the manager. The counter of the calls
-- for each ingress is the state; the log's lines are left out.
pub mod Laws
pub mod Tests
use oci_lb_ingress_controlle.Base.Maps.{Map, lookup, put, remove}
use oci_lb_ingress_controlle.Ingress.Annotations.{Ingress}
use oci_lb_ingress_controlle.Controller.Errors.{ignore_non_retriable_error}
use oci_lb_ingress_controlle.Base.{
  Str, Error, Result, ok, err, ℕ, ◌+◌, Option, none, some, List, [], ◌∷◌,
}

-- What the cache answers: the ingress, that there is none, or another error.
pub data CacheAnswer : Type 0 where
  found : Ingress → CacheAnswer
  absent : CacheAnswer
  failed : Error → CacheAnswer

pub data ManagerCall : Type 0 where
  update_or_create_ingress : Ingress → ManagerCall
  delete_ingress : Str → ManagerCall

pub record Reconciled : Type 0 where
  pub counter : Map ℕ
  pub calls : List ManagerCall
  pub result : Result (Unit {0})

abbrev pub count : Option ℕ → ℕ
count none = 0
count (some n) = n

abbrev pub counted : Str → Map ℕ → Map ℕ
counted request counter = put request (count (lookup request counter) + 1) counter

abbrev pub after_delete : Str → Map ℕ → Result (Unit {0}) → Reconciled
after_delete request counter (ok u) = record {
  counter = remove request counter;
  calls = delete_ingress request ∷ [];
  result = ok tt;
}
after_delete request counter (err e) = record {
  counter = counter;
  calls = delete_ingress request ∷ [];
  result = ignore_non_retriable_error e;
}

abbrev pub after_update : Ingress → Map ℕ → Result (Unit {0}) → Reconciled
after_update ing counter (ok u) = record {
  counter = counter;
  calls = update_or_create_ingress ing ∷ [];
  result = ok tt;
}
after_update ing counter (err e) = record {
  counter = counter;
  calls = update_or_create_ingress ing ∷ [];
  result = ignore_non_retriable_error e;
}

abbrev pub by_cache : (ManagerCall → Result (Unit {0})) → CacheAnswer → Map ℕ → Str → Reconciled
by_cache manager (failed e) counter request = record {
  counter = counter;
  calls = [];
  result = ignore_non_retriable_error e;
}
by_cache manager absent counter request =
    after_delete request counter (manager (delete_ingress request))
by_cache manager (found ing) counter request =
    after_update ing counter (manager (update_or_create_ingress ing))

unfoldable pub reconcile :
    (ManagerCall → Result (Unit {0})) → CacheAnswer → Map ℕ → Str → Reconciled
reconcile manager cache counter request = by_cache manager cache (counted request counter) request
