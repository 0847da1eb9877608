-- ===== src/Base/Effects.antt =====
-- Code that calls the cloud: a run takes the calls made so far to those made after it and its
-- result. The cloud is a parameter, the answer it gives to a call after the calls before it.
use mathlib.Core.Path.{◌≡◌, refl, sym, ap, ◌∙◌}
use mathlib.Core.Bool.{Bool, true, false}
use mathlib.Core.Option.{Option, none, some}
use mathlib.Core.List.{List, [], ◌∷◌, ◌++◌, map, append-nil, append_assoc, map-append}
use oci_lb_ingress_controlle.Base.Text.{Str}
use oci_lb_ingress_controlle.Base.Results.{wrapped, Result, ok, err}

-- The texts answered are identifiers: of a work request, of what was made, or empty.
abbrev pub Cloud : Type 0 → Type 0
Cloud C = List C → C → Result Str

pub record Run (C A : Type 0) : Type 0 where
  pub run : List C → List C × Result A

module _ {C A : Type 0} where
  abbrev pub returns : A → Run C A
  returns a = record { run = λ log. (log, ok a) }

  -- What is known without a call
  abbrev pub lift : Result A → Run C A
  lift r = record { run = λ log. (log, r) }

  -- `if err != nil { return err }` between two parts
  abbrev pub and_then_on : {B : Type 0} → (A → Run C B) → List C × Result A → List C × Result B
  and_then_on k (log, ok a) = (k a).run log
  and_then_on k (log, err e) = (log, err e)

  abbrev pub wrap_on : List C × Result A → List C × Result A
  wrap_on (log, ok a) = (log, ok a)
  wrap_on (log, err e) = (log, err (wrapped e))

  -- errors.Wrap of what a part returns
  abbrev pub wrapping : Run C A → Run C A
  wrapping r = record { run = λ log. wrap_on (r.run log) }

infixl 5 ◌>>=◌ ◌>>◌
abbrev pub ◌>>=◌ : {C A B : Type 0} → Run C A → (A → Run C B) → Run C B
r >>= k = record { run = λ log. and_then_on k (r.run log) }

abbrev pub ◌>>◌ : {C B : Type 0} → Run C (Unit {0}) → Run C B → Run C B
r >> s = r >>= λ _. s

abbrev pub perform : {C : Type 0} → Cloud C → C → Run C Str
perform cloud c = record { run = λ log. (log ++ (c ∷ []), cloud log c) }

abbrev pub is_ok {ℓ} : {A : Type ℓ} → Result A → Bool
is_ok (ok a) = true
is_ok (err e) = false

-- The calls of a run, read by `erase`, are a beginning of the plan, and all of it where the run
-- returns no error.
pub record Follows {C A : Type 0} (erase : C → C) (plan : List C) (log : List C)
    (out : List C × Result A) : Type 0 where
  pub made : List C
  pub rest : List C
  pub calls : out.0 ≡ log ++ made
  pub planned : map erase made ++ rest ≡ plan
  pub complete : is_ok out.1 ≡ true → rest ≡ []

module _ {C : Type 0} (erase : C → C) where
  pub Follows-nothing : {A : Type 0} (log : List C) (r : Result A) → Follows erase [] log (log, r)
  Follows-nothing log r = record {
    made = [];
    rest = [];
    calls = sym (append-nil log);
    planned = refl;
    complete = λ h. refl;
  }

  pub Follows-call :
      (cloud : Cloud C) (c planned_call : C) (log : List C)
      → erase c ≡ planned_call
      → Follows erase (planned_call ∷ []) log ((perform cloud c).run log)
  Follows-call cloud c planned_call log e = record {
    made = c ∷ [];
    rest = [];
    calls = refl;
    planned = ap (λ x. x ∷ []) e;
    complete = λ h. refl;
  }

  -- A part that fails ends the run; one that succeeds has made all its calls.
  pub Follows-then :
      {A B : Type 0} (k : A → Run C B) (p q log : List C) (out : List C × Result A)
      → Follows erase p log out
      → ((a : A) (later : List C) → Follows erase q later ((k a).run later))
      → Follows erase (p ++ q) log (and_then_on k out)
  Follows-then k p q log (later, err e) f g = record {
    made = f.made;
    rest = f.rest ++ q;
    calls = f.calls;
    planned = sym (append_assoc (map erase f.made) f.rest q) ∙ ap (λ l. l ++ q) f.planned;
    complete = λ h. cc;
  }
  Follows-then k p q log (later, ok a) f g =
      let next = g a later in
      let all_made : map erase f.made ≡ p =
        sym (append-nil (map erase f.made))
        ∙ (ap (λ l. map erase f.made ++ l) (sym (f.complete refl)) ∙ f.planned) in
      record {
        made = f.made ++ next.made;
        rest = next.rest;
        calls = next.calls ∙ (ap (λ l. l ++ next.made) f.calls ∙ append_assoc log f.made next.made);
        planned =
            ap (λ l. l ++ next.rest) (map-append erase f.made next.made)
            ∙ (append_assoc (map erase f.made) (map erase next.made) next.rest
                ∙ (ap (λ l. map erase f.made ++ l) next.planned ∙ ap (λ l. l ++ q) all_made));
        complete = next.complete;
      }

  pub Follows-wrapping :
      {A : Type 0} (plan log : List C) (out : List C × Result A)
      → Follows erase plan log out
      → Follows erase plan log (wrap_on out)
  Follows-wrapping plan log (later, ok a) f = f
  Follows-wrapping plan log (later, err e) f = record {
    made = f.made;
    rest = f.rest;
    calls = f.calls;
    planned = f.planned;
    complete = λ h. cc;
  }

-- Where both parts succeed, so does the whole.
is_ok-then :
    {C A B : Type 0} (k : A → Run C B) (out : List C × Result A)
    → is_ok out.1 ≡ true
    → ((a : A) (later : List C) → is_ok ((k a).run later).1 ≡ true)
    → is_ok (and_then_on k out).1 ≡ true
is_ok-then k (later, ok a) h g = g a later
is_ok-then k (later, err e) h g = cc

pub is_ok-wrapping :
    {C A : Type 0} (out : List C × Result A) → is_ok out.1 ≡ true → is_ok (wrap_on out).1 ≡ true
is_ok-wrapping (later, ok a) h = refl
is_ok-wrapping (later, err e) h = cc

pub is_ok-bind :
    {C A B : Type 0} (r : Run C A) (k : A → Run C B) (log : List C)
    → is_ok (r.run log).1 ≡ true
    → ((a : A) (later : List C) → is_ok ((k a).run later).1 ≡ true)
    → is_ok ((r >>= k).run log).1 ≡ true
is_ok-bind r k log = is_ok-then k (r.run log)

-- A part that calls a cloud of its own kind of calls, each one a call of the whole.
abbrev pub embed : {C D A : Type 0} → (D → C) → Cloud C → (Cloud D → Run D A) → Run C A
embed inject cloud part = record {
  run = λ log.
      let (made, r) = (part (λ l d. cloud (log ++ map inject l) (inject d))).run [] in
      (log ++ map inject made, r);
}

-- `_ = f()`: what is called, without its error.
abbrev pub ignoring_error : {C : Type 0} → Run C (Unit {0}) → Run C (Unit {0})
ignoring_error r = record { run = λ log. ((r.run log).0, ok tt) }

-- A call that is read for a value of its own, or for nothing where it fails.
abbrev pub reads : {C A : Type 0} → (List C → Result A) → C → Run C A
reads answer c = record { run = λ log. (log ++ (c ∷ []), answer log) }

abbrev value_of : {A : Type 0} → Result A → Option A
value_of (ok a) = some a
value_of (err e) = none

abbrev pub tries : {C A : Type 0} → Run C A → Run C (Option A)
tries r = record { run = λ log. ((r.run log).0, ok (value_of (r.run log).1)) }
