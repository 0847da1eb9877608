-- ===== src/Base/Shows.antt =====
-- What a run shows of its calls: each call is read as the calls of a plan that it stands for, none
-- where the plan leaves it out.
use mathlib.Core.Path.{◌≡◌, refl, sym, ap, ◌∙◌}
use mathlib.Core.Bool.{true}
use mathlib.Core.List.{List, [], ◌∷◌, ◌++◌, append-nil, append_assoc}
use oci_lb_ingress_controlle.Base.Results.{Result, ok, err}
use oci_lb_ingress_controlle.Base.Effects.{Run, ◌>>=◌, and_then_on, wrap_on, is_ok}

module _ {C D : Type 0} where
  unfoldable pub seen : (C → List D) → List C → List D
  seen view [] = []
  seen view (c ∷ cs) = view c ++ seen view cs

  seen-append :
      (view : C → List D) (xs ys : List C) → seen view (xs ++ ys) ≡ seen view xs ++ seen view ys
  unfolding seen
  seen-append view [] ys = refl
  seen-append view (x ∷ xs) ys =
      ap (λ l. view x ++ l) (seen-append view xs ys)
      ∙ sym (append_assoc (view x) (seen view xs) (seen view ys))

-- What is shown is a beginning of the plan, and all of it where the run returns no error.
pub record Shows {C D A : Type 0} (view : C → List D) (plan : List D) (log : List C)
    (out : List C × Result A) : Type 0 where
  pub made : List D
  pub rest : List D
  pub calls : seen view out.0 ≡ seen view log ++ made
  pub planned : made ++ rest ≡ plan
  pub complete : is_ok out.1 ≡ true → rest ≡ []

module _ {C D : Type 0} (view : C → List D) where
  -- A run is a part of a plan where this holds after every beginning.
  abbrev pub RunShows : {A : Type 0} → List D → Run C A → Type 0
  RunShows plan r = (log : List C) → Shows view plan log (r.run log)

  pub Shows-nothing : {A : Type 0} (log : List C) (r : Result A) → Shows view [] log (log, r)
  Shows-nothing log r = record {
    made = [];
    rest = [];
    calls = sym (append-nil (seen view log));
    planned = refl;
    complete = λ h. refl;
  }

  pub Shows-one :
      {A : Type 0} (c : C) (log : List C) (r : Result A)
      → Shows view (view c) log (log ++ (c ∷ []), r)
  unfolding seen
  Shows-one c log r = record {
    made = view c;
    rest = [];
    calls = seen-append view log (c ∷ []) ∙ ap (λ l. seen view log ++ l) (append-nil (view c));
    planned = append-nil (view c);
    complete = λ h. refl;
  }

  pub Shows-then :
      {A B : Type 0} (k : A → Run C B) (p q : List D) (log : List C) (out : List C × Result A)
      → Shows view p log out
      → ((a : A) → RunShows q (k a))
      → Shows view (p ++ q) log (and_then_on k out)
  Shows-then k p q log (later, err e) f g = record {
    made = f.made;
    rest = f.rest ++ q;
    calls = f.calls;
    planned = sym (append_assoc f.made f.rest q) ∙ ap (λ l. l ++ q) f.planned;
    complete = λ h. cc;
  }
  Shows-then k p q log (later, ok a) f g =
      let next = g a later in
      let all_made : f.made ≡ p =
        sym (append-nil f.made) ∙ (ap (λ l. f.made ++ l) (sym (f.complete refl)) ∙ f.planned) in
      record {
        made = f.made ++ next.made;
        rest = next.rest;
        calls =
            next.calls
            ∙ (ap (λ l. l ++ next.made) f.calls ∙ append_assoc (seen view log) f.made next.made);
        planned =
            append_assoc f.made next.made next.rest
            ∙ (ap (λ l. f.made ++ l) next.planned ∙ ap (λ l. l ++ q) all_made);
        complete = next.complete;
      }

  pub Shows-wrapping :
      {A : Type 0} (plan : List D) (log : List C) (out : List C × Result A)
      → Shows view plan log out
      → Shows view plan log (wrap_on out)
  Shows-wrapping plan log (later, ok a) f = f
  Shows-wrapping plan log (later, err e) f = record {
    made = f.made;
    rest = f.rest;
    calls = f.calls;
    planned = f.planned;
    complete = λ h. cc;
  }

  -- A run that makes no call of the plan.
  pub Shows-unseen :
      {A : Type 0} (log made : List C) (r : Result A)
      → seen view made ≡ []
      → Shows view [] log (log ++ made, r)
  Shows-unseen log made r h = record {
    made = [];
    rest = [];
    calls = seen-append view log made ∙ ap (λ l. seen view log ++ l) h;
    planned = refl;
    complete = λ e. refl;
  }

  -- A run that does nothing is no part of a plan but the empty one.
  pub Shows-nil : {A : Type 0} (plan : List D) (a : A) → Shows view plan [] ([], ok a) → plan ≡ []
  unfolding seen
  Shows-nil plan a f = sym f.planned ∙ (ap (λ l. l ++ f.rest) (sym f.calls) ∙ f.complete refl)

  pub RunShows-then :
      {A B : Type 0} (p q : List D) (r : Run C A) (k : A → Run C B)
      → RunShows p r
      → ((a : A) → RunShows q (k a))
      → RunShows (p ++ q) (r >>= k)
  RunShows-then p q r k f g log = Shows-then k p q log (r.run log) (f log) g
