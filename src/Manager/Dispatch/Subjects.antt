-- ===== src/Manager/Dispatch/Subjects.antt =====
-- What a run of the dispatcher calls for all subjects, where the actions are queued one subject
-- after another.
use oci_lb_ingress_controlle.Base.Sets.{has, has-append}
use oci_lb_ingress_controlle.Base.Effects.{returns}
use oci_lb_ingress_controlle.Base.Shows.{RunShows, Shows-nothing, Shows-then, Shows-nil}
use oci_lb_ingress_controlle.Manager.Model.{Request}
use oci_lb_ingress_controlle.Manager.Dispatch.{
  ActionVerb, Action, subjects_after, all_subjects, run_subject, run_subjects, run_verb,
}
use oci_lb_ingress_controlle.Manager.Dispatch.Blocks.{when_on, RunsAs, RunsAs-nil, RunsAs-append}
use mathlib.Core.Path.{subst}
use mathlib.Core.List.{append-nil, append_assoc}
use oci_lb_ingress_controlle.Base.{
  if◌then◌else◌, Bool-cases, is_empty, All, Str, str_eq, str_eq_iff, str_eq_refl, ◌≡◌, refl, sym,
  ap, ◌∙◌, inl, inr, ok, true, false, List, [], ◌∷◌, ◌++◌, arith,
}

-- The actions of one subject, and what they show in a run of a verb.
pub record Block (view : Request → List Request) (verb : ActionVerb) : Type 0 where
  pub subject : Str
  pub actions : List Action
  pub calls : List Request
  pub own : All (λ a. a.subject ≡ subject) actions
  pub runs : (sub : Str) → RunsAs view verb sub (when_on (str_eq subject sub) calls) actions

module _ (view : Request → List Request) (verb : ActionVerb) where
  abbrev pub all_actions : List (Block view verb) → List Action
  all_actions [] = []
  all_actions (b ∷ bs) = b.actions ++ all_actions bs

  abbrev pub all_calls : List (Block view verb) → List Request
  all_calls [] = []
  all_calls (b ∷ bs) = b.calls ++ all_calls bs

  -- The calls of one subject, of all the blocks.
  abbrev pub calls_on : Str → List (Block view verb) → List Request
  calls_on sub [] = []
  calls_on sub (b ∷ bs) = when_on (str_eq b.subject sub) b.calls ++ calls_on sub bs

  together_runs :
      (sub : Str) (bs : List (Block view verb))
      → RunsAs view verb sub (calls_on sub bs) (all_actions bs)
  together_runs sub [] = RunsAs-nil view verb sub
  together_runs sub (b ∷ bs) =
      RunsAs-append view verb sub (when_on (str_eq b.subject sub) b.calls) (calls_on sub bs)
        b.actions (all_actions bs) (b.runs sub) (together_runs sub bs)

  -- The subjects that have actions.
  abbrev present : List (Block view verb) → List Str
  present [] = []
  present (b ∷ bs) = if is_empty b.actions then present bs else b.subject ∷ present bs

  -- Every block has a subject of its own.
  abbrev pub Apart : List (Block view verb) → Type 0
  Apart [] = Unit
  Apart (b ∷ bs) = All (λ c. str_eq c.subject b.subject ≡ false) bs × Apart bs

subjects_seen :
    (s : Str) (seen : List Str) (xs rest : List Action)
    → has s seen ≡ true
    → All (λ a. a.subject ≡ s) xs
    → subjects_after seen (xs ++ rest) ≡ subjects_after seen rest
subjects_seen s seen [] rest h own = refl
subjects_seen s seen (x ∷ xs) rest h own =
    let here : has x.subject seen ≡ true = ap (λ t. has t seen) own.0 ∙ h in
    rw (here, subjects_after) (subjects_seen s seen xs rest h own.1)

subjects_new :
    (s : Str) (seen : List Str) (xs rest : List Action)
    → has s seen ≡ false
    → All (λ a. a.subject ≡ s) xs
    → subjects_after seen (xs ++ rest)
      ≡ subjects_after (if is_empty xs then seen else seen ++ (s ∷ [])) rest
unfolding has
subjects_new s seen [] rest h own = refl
subjects_new s seen (x ∷ xs) rest h own =
    let here : has x.subject seen ≡ false = ap (λ t. has t seen) own.0 ∙ h in
    let there : has s (seen ++ (s ∷ [])) ≡ true =
      ground (arith, has-append s seen (s ∷ []), str_eq_refl s) in
    rw (here, subjects_after)
      (ap (λ t. subjects_after (seen ++ (t ∷ [])) (xs ++ rest)) own.0
        ∙ subjects_seen s (seen ++ (s ∷ [])) xs rest there own.1)

module _ (view : Request → List Request) (verb : ActionVerb) where
  still_new :
      (s : Str) (seen : List Str) (bs : List (Block view verb))
      → All (λ b. has b.subject seen ≡ false) bs
      → All (λ b. str_eq b.subject s ≡ false) bs
      → All (λ b. has b.subject (seen ++ (s ∷ [])) ≡ false) bs
  unfolding has
  still_new s seen [] h k = tt
  still_new s seen (b ∷ bs) h k =
      (ground (arith, has-append b.subject seen (s ∷ []), h.0, k.0), still_new s seen bs h.1 k.1)

  subjects_present :
      (seen : List Str) (bs : List (Block view verb))
      → All (λ b. has b.subject seen ≡ false) bs
      → Apart view verb bs
      → subjects_after seen (all_actions view verb bs) ≡ seen ++ present view verb bs
  subjects_present seen [] h apart = sym (append-nil seen)
  subjects_present seen (b ∷ bs) h apart =
      subjects_new b.subject seen b.actions (all_actions view verb bs) h.0 b.own
      ∙ elim (Bool-cases (is_empty b.actions)) [
        | inl e ↦ rw e (subjects_present seen bs h.1 apart.1)
        | inr e ↦ rw e (
            subjects_present (seen ++ (b.subject ∷ [])) bs (still_new b.subject seen bs h.1 apart.0)
              apart.1
            ∙ append_assoc seen (b.subject ∷ []) (present view verb bs))
      ]

  none_on :
      (s : Str) (bs : List (Block view verb))
      → All (λ b. str_eq b.subject s ≡ false) bs
      → calls_on view verb s bs ≡ []
  none_on s [] h = refl
  none_on s (b ∷ bs) h = rw h.0 (none_on s bs h.1)

  own_behind :
      (b : Block view verb) (bs cs : List (Block view verb))
      → All (λ c. str_eq c.subject b.subject ≡ false) cs
      → All (λ c. calls_on view verb c.subject bs ≡ c.calls) cs
      → All (λ c. calls_on view verb c.subject (b ∷ bs) ≡ c.calls) cs
  own_behind b bs [] h k = tt
  own_behind b bs (c ∷ cs) h k =
      let other : str_eq b.subject c.subject ≡ false =
        ground (arith, h.0, str_eq_iff b.subject c.subject, str_eq_iff c.subject b.subject) in
      (rw other k.0, own_behind b bs cs h.1 k.1)

  own_calls :
      (bs : List (Block view verb))
      → Apart view verb bs
      → All (λ b. calls_on view verb b.subject bs ≡ b.calls) bs
  own_calls [] apart = tt
  own_calls (b ∷ bs) apart = (
    rw (str_eq_refl b.subject)
        (ap (λ l. b.calls ++ l) (none_on b.subject bs apart.0) ∙ append-nil b.calls),
    own_behind b bs bs apart.0 (own_calls bs apart.1),
  )

  is_nil : (xs : List Action) → is_empty xs ≡ true → xs ≡ []
  is_nil [] h = refl
  is_nil (x ∷ xs) h = cc

  own_runs : (b : Block view verb) → RunsAs view verb b.subject b.calls b.actions
  own_runs b =
      subst (λ t. RunsAs view verb b.subject (when_on t b.calls) b.actions) (str_eq_refl b.subject)
        (b.runs b.subject)

  nothing_of : (b : Block view verb) → is_empty b.actions ≡ true → b.calls ≡ []
  unfolding run_subject
  nothing_of b h =
      let runs_nil : RunsAs view verb b.subject b.calls [] =
        subst (λ l. RunsAs view verb b.subject b.calls l) (is_nil b.actions h) (own_runs b) in
      Shows-nil view b.calls tt (runs_nil [])

  run_present :
      (actions : List Action) (bs : List (Block view verb))
      → All (λ b. RunsAs view verb b.subject b.calls actions) bs
      → RunShows view (all_calls view verb bs) (run_subjects verb (present view verb bs) actions)
  unfolding run_subjects
  run_present actions [] h log = Shows-nothing view log (ok tt)
  run_present actions (b ∷ bs) h log = elim (Bool-cases (is_empty b.actions)) [
    | inl e ↦ rw e (rw (nothing_of b e) (run_present actions bs h.1 log))
    | inr e ↦ rw e (
        Shows-then view (λ _. run_subjects verb (present view verb bs) actions) b.calls
          (all_calls view verb bs) log ((run_subject verb b.subject actions).run log) (h.0 log)
          (λ _. run_present actions bs h.1))
  ]

  none_seen : (bs : List (Block view verb)) → All (λ b. has b.subject [] ≡ false) bs
  unfolding has
  none_seen [] = tt
  none_seen (b ∷ bs) = (refl, none_seen bs)

  each_runs :
      (whole bs : List (Block view verb))
      → All (λ b. calls_on view verb b.subject whole ≡ b.calls) bs
      → All (λ b. RunsAs view verb b.subject b.calls (all_actions view verb whole)) bs
  each_runs whole [] h = tt
  each_runs whole (b ∷ bs) h = (
    subst (λ l. RunsAs view verb b.subject l (all_actions view verb whole)) h.0
        (together_runs view verb b.subject whole),
    each_runs whole bs h.1,
  )

  -- A run for all subjects shows the calls of each block, block after block.
  pub Shows-all_subjects :
      (bs : List (Block view verb))
      → Apart view verb bs
      → RunShows view (all_calls view verb bs) (run_verb verb [] (all_actions view verb bs))
  unfolding run_verb all_subjects has
  Shows-all_subjects bs apart =
      rw (subjects_present [] bs (none_seen bs) apart)
        (run_present (all_actions view verb bs) bs (each_runs bs bs (own_calls bs apart)))

  -- A run for one subject shows the calls of its block.
  pub Shows-one_subject :
      (sub : Str) (bs : List (Block view verb))
      → RunShows view
          (calls_on view verb sub bs ++ [])
          (run_verb verb (sub ∷ []) (all_actions view verb bs))
  unfolding run_verb run_subjects
  Shows-one_subject sub bs log =
      Shows-then view (λ _. returns tt) (calls_on view verb sub bs) [] log
        ((run_subject verb sub (all_actions view verb bs)).run log)
        (together_runs view verb sub bs log) (λ _ later. Shows-nothing view later (ok tt))
