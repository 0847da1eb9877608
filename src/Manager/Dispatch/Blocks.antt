-- ===== src/Manager/Dispatch/Blocks.antt =====
-- What a run of the dispatcher calls for one subject.
use mathlib.Core.Path.{subst}
use oci_lb_ingress_controlle.Base.Effects.{Run, and_then_on}
use oci_lb_ingress_controlle.Base.Shows.{Shows, RunShows, Shows-nothing, Shows-then}
use oci_lb_ingress_controlle.Manager.Model.{Request}
use oci_lb_ingress_controlle.Manager.Dispatch.{
  ActionVerb, verb_eq, Action, do_action, run_subject, add_func,
}
use oci_lb_ingress_controlle.Base.{
  if◌then◌else◌, Bool-cases, Str, str_eq, ◌≡◌, refl, sym, inl, inr, Result, ok, err, Bool, true,
  false, not, ◌&&◌, ◌||◌, List, [], ◌∷◌, ◌++◌, map, arith,
}

abbrev pub when_on : Bool → List Request → List Request
when_on b calls = if b then calls else []

-- The calls of one action for each name.
unfoldable pub calls_for : (Str → List Request) → List Str → List Request
calls_for calls [] = []
calls_for calls (name ∷ names) = calls name ++ calls_for calls names

then_assoc :
    (whole xs ys : Run Request (Unit {0}))
    → ((log : List Request) → whole.run log ≡ and_then_on (λ _. ys) (xs.run log))
    → (out : List Request × Result (Unit {0}))
    → and_then_on (λ _. whole) out ≡ and_then_on (λ _. ys) (and_then_on (λ _. xs) out)
then_assoc whole xs ys h (log, ok tt) = h log
then_assoc whole xs ys h (log, err e) = refl

run_subject-append :
    (verb : ActionVerb) (sub : Str) (xs ys : List Action) (log : List Request)
    → (run_subject verb sub (xs ++ ys)).run log
      ≡ and_then_on (λ _. run_subject verb sub ys) ((run_subject verb sub xs).run log)
unfolding run_subject
run_subject-append verb sub [] ys log = refl
run_subject-append verb sub (x ∷ xs) ys log =
    elim (Bool-cases (x.done || (not (verb_eq x.verb verb) || not (str_eq x.subject sub)))) [
      | inl e ↦ rw e (run_subject-append verb sub xs ys log)
      | inr e ↦ rw e (
          then_assoc (run_subject verb sub (xs ++ ys)) (run_subject verb sub xs)
            (run_subject verb sub ys) (run_subject-append verb sub xs ys) ((do_action x).run log))
    ]

module _ (view : Request → List Request) where
  abbrev pub RunsAs : ActionVerb → Str → List Request → List Action → Type 0
  RunsAs verb sub plan actions = RunShows view plan (run_subject verb sub actions)

  pub RunsAs-nil : (verb : ActionVerb) (sub : Str) → RunsAs verb sub [] []
  unfolding run_subject
  RunsAs-nil verb sub log = Shows-nothing view log (ok tt)

  pub RunsAs-append :
      (verb : ActionVerb) (sub : Str) (p q : List Request) (xs ys : List Action)
      → RunsAs verb sub p xs
      → RunsAs verb sub q ys
      → RunsAs verb sub (p ++ q) (xs ++ ys)
  RunsAs-append verb sub p q xs ys f g log =
      subst (Shows view (p ++ q) log) (sym (run_subject-append verb sub xs ys log)) (
        Shows-then view (λ _. run_subject verb sub ys) p q log ((run_subject verb sub xs).run log)
          (f log) (λ _. g))

  RunsAs-chosen :
      (verb v : ActionVerb) (sub s : Str) (fn : Str → Run Request (Unit {0}))
      (calls : Str → List Request)
      → verb_eq v verb ≡ true
      → str_eq s sub ≡ true
      → ((name : Str) → RunShows view (calls name) (fn name))
      → (names : List Str)
      → RunsAs verb sub (calls_for calls names) (map (λ name. add_func v s (fn name)) names)
  unfolding run_subject add_func do_action calls_for
  RunsAs-chosen verb v sub s fn calls e f shown [] log = Shows-nothing view log (ok tt)
  RunsAs-chosen verb v sub s fn calls e f shown (name ∷ names) log =
      let later = RunsAs-chosen verb v sub s fn calls e f shown names in
      rw e (
        rw f (
          Shows-then view (λ _. run_subject verb sub (map (λ n. add_func v s (fn n)) names))
            (calls name) (calls_for calls names) log ((fn name).run log) (shown name log)
            (λ _. later)))

  RunsAs-passed :
      (verb v : ActionVerb) (sub s : Str) (fn : Str → Run Request (Unit {0}))
      → (verb_eq v verb && str_eq s sub) ≡ false
      → (names : List Str) → RunsAs verb sub [] (map (λ name. add_func v s (fn name)) names)
  unfolding run_subject add_func
  RunsAs-passed verb v sub s fn h [] log = Shows-nothing view log (ok tt)
  RunsAs-passed verb v sub s fn h (name ∷ names) log =
      let passed : (not (verb_eq v verb) || not (str_eq s sub)) ≡ true = ground arith in
      rw passed (RunsAs-passed verb v sub s fn h names log)

  -- One action for each name: it is run where the verb and the subject are those of the run.
  pub RunsAs-map :
      (verb v : ActionVerb) (sub s : Str) (fn : Str → Run Request (Unit {0}))
      (calls : Str → List Request)
      → ((name : Str) → RunShows view (calls name) (fn name))
      → (names : List Str)
      → RunsAs verb sub
          (when_on (verb_eq v verb && str_eq s sub) (calls_for calls names))
          (map (λ name. add_func v s (fn name)) names)
  RunsAs-map verb v sub s fn calls shown names =
      elim (Bool-cases (verb_eq v verb && str_eq s sub)) [
        | inl e ↦
            rw e (RunsAs-chosen verb v sub s fn calls (ground arith) (ground arith) shown names)
        | inr e ↦ rw e (RunsAs-passed verb v sub s fn e names)
      ]
