-- ===== src/LoadBalancer/BackendSets/Plan.antt =====
-- What getBackendSetChanges plans, name by name.
use mathlib.Core.List.{append-nil}
use oci_lb_ingress_controlle.Base.Maps.{Map, Distinct, lookup, has_key, lookup-absent}
use oci_lb_ingress_controlle.LoadBalancer.Types.{BackendSet, BackendSetDetails}
use oci_lb_ingress_controlle.LoadBalancer.BackendSets.{
  BackendSetAction, delete_backend_set, update_backend_set, create_backend_set,
  has_backend_set_changed, existing_backend_set_actions, new_backend_set_actions,
  get_backend_set_changes,
}
use oci_lb_ingress_controlle.Base.{
  if◌then◌else◌, filter, All, filter-append, Str, str_eq, str_eq_iff, ◌≡◌, refl, Option, none, some,
  List, [], ◌∷◌, ◌++◌, arith,
}

-- The API keeps each backend set under its own name.
abbrev pub Named : Map BackendSet → Type 0
Named = All (λ e. e.1.name ≡ e.0)

-- The actions on one name, in the order of the plan.
abbrev pub actions_on : Str → List BackendSetAction → List BackendSetAction
actions_on n = filter (λ act. str_eq act.name n)

-- One action at most: create what is missing, delete what is not desired, update what has changed.
abbrev pub due : Str → Option BackendSet → Option BackendSetDetails → List BackendSetAction
due n none none = []
due n none (some d) = create_backend_set n d ∷ []
due n (some a) none = delete_backend_set a ∷ []
due n (some a) (some d) = if has_backend_set_changed a d then update_backend_set n a d ∷ [] else []

-- What the first loop contributes for a name.
abbrev due_existing : Str → Option BackendSet → Option BackendSetDetails → List BackendSetAction
due_existing n none d = []
due_existing n (some a) d = due n (some a) d

abbrev due_new : Str → Option BackendSet → Option BackendSetDetails → List BackendSetAction
due_new n none d = due n none d
due_new n (some a) d = []

existing-due :
    (n : Str) (desired : Map BackendSetDetails) (m : Map BackendSet)
    → Distinct m
    → Named m
    → actions_on n (existing_backend_set_actions desired m)
      ≡ due_existing n (lookup n m) (lookup n desired)
unfolding existing_backend_set_actions lookup has_key filter delete_backend_set update_backend_set
existing-due n desired [] h k = refl
existing-due n desired ((j, a) ∷ m) h k = ground (
  arith,
  existing-due n desired m h.1 k.1,
  lookup-absent j m h.0,
  str_eq_iff j n,
  str_eq_iff a.name n,
  k.0,
)

new-due :
    (n : Str) (actual : Map BackendSet) (m : Map BackendSetDetails)
    → Distinct m
    → actions_on n (new_backend_set_actions actual m) ≡ due_new n (lookup n actual) (lookup n m)
unfolding new_backend_set_actions lookup has_key filter create_backend_set
new-due n actual [] h = ground arith
new-due n actual ((j, d) ∷ m) h =
    ground (arith, new-due n actual m h.1, lookup-absent j m h.0, str_eq_iff j n)

due_split :
    (n : Str) (a : Option BackendSet) (d : Option BackendSetDetails)
    → due_existing n a d ++ due_new n a d ≡ due n a d
due_split n none d = refl
due_split n (some a) d = append-nil (due n (some a) d)

-- For every name, whatever the order of the two maps: the plan has one action if the name is
-- desired and missing, present and not desired, or present and changed, and none otherwise.
pub get_backend_set_changes-due :
    (n : Str) (actual : Map BackendSet) (desired : Map BackendSetDetails)
    → Distinct actual
    → Distinct desired
    → Named actual
    → actions_on n (get_backend_set_changes actual desired)
      ≡ due n (lookup n actual) (lookup n desired)
unfolding get_backend_set_changes
get_backend_set_changes-due n actual desired ha hd k = rw filter-append (
    rw (existing-due n desired actual ha k)
      (rw (new-due n actual desired hd) (due_split n (lookup n actual) (lookup n desired))))
