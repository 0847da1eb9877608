-- ===== src/Manager/Dispatch.antt =====
-- src/manager/actions.go: the actions that are queued for a load balancer, and the runs of them.
-- `do` marks the copy that its receiver is, and `Run` ranges over copies, so no run changes a queued
-- action; what a run does besides is its calls.
pub mod Blocks
pub mod Subjects
use oci_lb_ingress_controlle.Base.Effects.{Run, returns, lift, ◌>>◌}
use oci_lb_ingress_controlle.Base.Sets.{has}
use oci_lb_ingress_controlle.Manager.Model.{Request, panics}
use oci_lb_ingress_controlle.Base.{
  if◌then◌else◌, is_empty, Str, text, str_eq, err, Bool, true, false, not, ◌||◌, List, [], ◌∷◌,
  ◌++◌,
}

pub data ActionVerb : Type 0 where
  create_action update_action delete_action : ActionVerb

abbrev pub verb_eq : ActionVerb → ActionVerb → Bool
verb_eq create_action create_action = true
verb_eq update_action update_action = true
verb_eq delete_action delete_action = true
verb_eq _ _ = false

pub record Action : Type 0 where
  pub done : Bool
  pub verb : ActionVerb
  pub subject : Str
  pub fn : Run Request (Unit {0})

-- do
unfoldable pub do_action : Action → Run Request (Unit {0})
do_action a =
    if a.done
    then lift (err (panics (text "shouldn't be called a finished action twice")))
    else a.fn

-- The subjects, each once, in the order of their first actions.
abbrev subjects_after : List Str → List Action → List Str
subjects_after subjects [] = subjects
subjects_after subjects (a ∷ as') =
    subjects_after (if has a.subject subjects then subjects else subjects ++ (a.subject ∷ [])) as'

unfoldable pub all_subjects : List Action → List Str
all_subjects actions = subjects_after [] actions

-- The inner loop of Run
unfoldable pub run_subject : ActionVerb → Str → List Action → Run Request (Unit {0})
run_subject verb sub [] = returns tt
run_subject verb sub (a ∷ as') =
    if a.done || (not (verb_eq a.verb verb) || not (str_eq a.subject sub))
    then run_subject verb sub as'
    else (do_action a >> run_subject verb sub as')

unfoldable pub run_subjects : ActionVerb → List Str → List Action → Run Request (Unit {0})
run_subjects verb [] actions = returns tt
run_subjects verb (sub ∷ subs) actions =
    run_subject verb sub actions >> run_subjects verb subs actions

-- Run; no subjects stand for all of them.
unfoldable pub run_verb : ActionVerb → List Str → List Action → Run Request (Unit {0})
run_verb verb subjects actions =
    let chosen = if is_empty subjects then all_subjects actions else subjects in
    run_subjects verb chosen actions

-- AddFunc
unfoldable pub add_func : ActionVerb → Str → Run Request (Unit {0}) → Action
add_func verb subject fn = record { done = false; verb = verb; subject = subject; fn = fn }
