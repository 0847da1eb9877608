-- ===== src/Controller/Reconciler/Laws.antt =====
-- What a reconciliation calls, returns and counts.
use oci_lb_ingress_controlle.Base.Maps.{Map, lookup, lookup-put, lookup-remove}
use oci_lb_ingress_controlle.Controller.Errors.{is_retriable_error, ignore_non_retriable_error}
use oci_lb_ingress_controlle.Controller.Errors.Transient.{IsTransient, is_retriable_error_iff}
use oci_lb_ingress_controlle.Controller.Reconciler.{
  CacheAnswer, found, absent, failed, ManagerCall, update_or_create_ingress, delete_ingress, count,
  counted, after_delete, after_update, reconcile,
}
use oci_lb_ingress_controlle.Base.{
  if◌then◌else◌, Bool-cases, Str, str_eq, str_eq_iff, Error, Result, ok, err, ℕ, ◌+◌, ◌≡◌, refl, ap,
  ◌∙◌, ◌⊎◌, inl, inr, Bool, true, false, Option, none, some, List, [], ◌∷◌, arith,
}

-- The call that a request comes to, if any.
abbrev pub call_for : CacheAnswer → Str → Option ManagerCall
call_for (failed e) request = none
call_for absent request = some (delete_ingress request)
call_for (found ing) request = some (update_or_create_ingress ing)

abbrev to_list : {A : Type 0} → Option A → List A
to_list none = []
to_list (some a) = a ∷ []

-- The error met, by the cache or by the manager.
abbrev pub met : (ManagerCall → Result (Unit {0})) → CacheAnswer → Str → Result (Unit {0})
met manager (failed e) request = err e
met manager absent request = manager (delete_ingress request)
met manager (found ing) request = manager (update_or_create_ingress ing)

-- What is returned for what was met: the same error where another try may help, no error else.
abbrev pub Returned : Result (Unit {0}) → Result (Unit {0}) → Type 0
Returned (ok u) r = r ≡ ok tt
Returned (err e) r = (IsTransient e × (r ≡ err e)) ⊎ ((IsTransient e → ⊥) × (r ≡ ok tt))

ignored : (e : Error) → Returned (err e) (ignore_non_retriable_error e)
unfolding ignore_non_retriable_error
ignored e = elim (Bool-cases (is_retriable_error e)) [
  | inl h ↦ inl ((is_retriable_error_iff e).0 h, rw h refl)
  | inr h ↦ inr (λ t. let k = (is_retriable_error_iff e).1 t in ground arith, rw h refl)
]

reconcile-calls :
    (manager : ManagerCall → Result (Unit {0})) (cache : CacheAnswer) (counter : Map ℕ)
    (request : Str)
    → ((reconcile manager cache counter request).calls ≡ to_list (call_for cache request))
      × Returned (met manager cache request) ((reconcile manager cache counter request).result)
unfolding reconcile
reconcile-calls manager (failed e) counter request = (refl, ignored e)
reconcile-calls manager absent counter request = after (manager (delete_ingress request))
  where
    after :
        (r : Result (Unit {0}))
        → ((after_delete request (counted request counter) r).calls ≡ delete_ingress request ∷ [])
          × Returned r (after_delete request (counted request counter) r).result
    after (ok u) = (refl, refl)
    after (err e) = (refl, ignored e)
reconcile-calls manager (found ing) counter request = after (manager (update_or_create_ingress ing))
  where
    after :
        (r : Result (Unit {0}))
        → ((after_update ing (counted request counter) r).calls ≡ update_or_create_ingress ing ∷ [])
          × Returned r (after_update ing (counted request counter) r).result
    after (ok u) = (refl, refl)
    after (err e) = (refl, ignored e)

abbrev deleted : CacheAnswer → Result (Unit {0}) → Bool
deleted absent (ok u) = true
deleted _ _ = false

lookup-counted :
    (request n : Str) (counter : Map ℕ)
    → lookup n (counted request counter)
      ≡ (if str_eq request n then some (count (lookup n counter) + 1) else lookup n counter)
lookup-counted request n counter = elim (Bool-cases (str_eq request n)) [
  | inl e ↦
      lookup-put request n (count (lookup request counter) + 1) counter
      ∙ rw e (ap (λ k. some (count (lookup k counter) + 1)) ((str_eq_iff request n).0 e))
  | inr e ↦ lookup-put request n (count (lookup request counter) + 1) counter ∙ rw e refl
]

reconcile-counter :
    (manager : ManagerCall → Result (Unit {0})) (cache : CacheAnswer) (counter : Map ℕ)
    (request n : Str)
    → lookup n (reconcile manager cache counter request).counter ≡ (
        if str_eq request n
        then (if deleted cache (met manager cache request)
            then none
            else some (count (lookup n counter) + 1))
        else lookup n counter)
unfolding reconcile
reconcile-counter manager (failed e) counter request n = lookup-counted request n counter
reconcile-counter manager absent counter request n = after (manager (delete_ingress request))
  where
    after :
        (r : Result (Unit {0}))
        → lookup n (after_delete request (counted request counter) r).counter ≡ (
            if str_eq request n
            then (if deleted absent r then none else some (count (lookup n counter) + 1))
            else lookup n counter)
    after (ok u) =
        ground (
          arith,
          lookup-remove request n (counted request counter),
          lookup-counted request n counter,
        )
    after (err e) = lookup-counted request n counter
reconcile-counter manager (found ing) counter request n =
    after (manager (update_or_create_ingress ing))
  where
    after :
        (r : Result (Unit {0}))
        → lookup n (after_update ing (counted request counter) r).counter ≡ (
            if str_eq request n
            then (if deleted (found ing) r then none else some (count (lookup n counter) + 1))
            else lookup n counter)
    after (ok u) = lookup-counted request n counter
    after (err e) = lookup-counted request n counter

-- One call at most: a deletion where the cache has no such ingress, an update where it has one,
-- and none where it fails. The error met is returned where it is an error of the service with one
-- of eight statuses and codes, wrapped or not, or has the text `Retry`, and no error otherwise. The
-- counter grows by one for this request, unless the ingress was deleted, which clears it, and is as
-- before for every other.
pub reconcile-outcome :
    (manager : ManagerCall → Result (Unit {0})) (cache : CacheAnswer) (counter : Map ℕ)
    (request n : Str)
    → ((reconcile manager cache counter request).calls ≡ to_list (call_for cache request))
      × Returned (met manager cache request) ((reconcile manager cache counter request).result)
      × (lookup n (reconcile manager cache counter request).counter ≡ (
          if str_eq request n
          then (if deleted cache (met manager cache request)
              then none
              else some (count (lookup n counter) + 1))
          else lookup n counter))
reconcile-outcome manager cache counter request n =
    let (calls, returned) = reconcile-calls manager cache counter request in
    (calls, returned, reconcile-counter manager cache counter request n)
