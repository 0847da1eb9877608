-- ===== src/LoadBalancer/BackendSets/Reach.antt =====
-- What the service holds after the planned actions on backend sets.
use oci_lb_ingress_controlle.Base.Maps.{
  Map, Distinct, lookup, put, remove, lookup-put, lookup-remove,
}
use oci_lb_ingress_controlle.LoadBalancer.Types.{BackendSet, BackendSetDetails}
use oci_lb_ingress_controlle.LoadBalancer.BackendSets.{
  ActionType, create, update, delete, BackendSetAction, delete_backend_set, update_backend_set,
  create_backend_set, has_backend_set_changed, get_backend_set_changes,
}
use oci_lb_ingress_controlle.LoadBalancer.BackendSets.InSync.{BackendSetInSync, backend_set_in_sync}
use oci_lb_ingress_controlle.LoadBalancer.BackendSets.Plan.{
  Named, actions_on, due, get_backend_set_changes-due,
}
use oci_lb_ingress_controlle.Base.{
  if◌then◌else◌, Bool-cases, filter, Str, str_eq, ◌≡◌, refl, ◌⊎◌, inl, inr, Option, none, some,
  List, [], ◌∷◌,
}

-- The service, by what it does on an action: the specification of the three calls.
abbrev apply_as : ActionType → BackendSetAction → Map BackendSetDetails → Map BackendSetDetails
apply_as create act m = put act.name act.backend_set m
apply_as update act m = put act.name act.backend_set m
apply_as delete act m = remove act.name m

unfoldable pub apply_all : List BackendSetAction → Map BackendSetDetails → Map BackendSetDetails
apply_all [] m = m
apply_all (act ∷ acts) m = apply_all acts (apply_as act.action_type act m)

-- The same on the entry of one name.
abbrev entry_after_as : ActionType → BackendSetAction → Option BackendSetDetails
entry_after_as create act = some act.backend_set
entry_after_as update act = some act.backend_set
entry_after_as delete act = none

entry_after : List BackendSetAction → Option BackendSetDetails → Option BackendSetDetails
entry_after [] o = o
entry_after (act ∷ acts) o = entry_after acts (entry_after_as act.action_type act)

lookup-apply_as :
    (n : Str) (t : ActionType) (act : BackendSetAction) (m : Map BackendSetDetails)
    → lookup n (apply_as t act m) ≡ (if str_eq act.name n then entry_after_as t act else lookup n m)
lookup-apply_as n create act m = lookup-put act.name n act.backend_set m
lookup-apply_as n update act m = lookup-put act.name n act.backend_set m
lookup-apply_as n delete act m = lookup-remove act.name n m

-- An entry changes by the actions on its own name only.
lookup-apply_all :
    (n : Str) (acts : List BackendSetAction) (m : Map BackendSetDetails)
    → lookup n (apply_all acts m) ≡ entry_after (actions_on n acts) (lookup n m)
unfolding apply_all entry_after filter
lookup-apply_all n [] m = refl
lookup-apply_all n (act ∷ acts) m = elim (Bool-cases (str_eq act.name n)) [
  | inl e ↦
      rw (lookup-apply_all n acts (apply_as act.action_type act m))
        (rw (lookup-apply_as n act.action_type act m) (rw e refl))
  | inr e ↦
      rw (lookup-apply_all n acts (apply_as act.action_type act m))
        (rw (lookup-apply_as n act.action_type act m) (rw e refl))
]

-- What is right for a name that is to have the details `d`, or to be absent.
abbrev pub Reached :
    Option BackendSet
    → Option BackendSetDetails
    → Option BackendSetDetails
    → Option BackendSetDetails
    → Type 0
Reached a none before after = after ≡ none
Reached none (some d) before after = after ≡ some d
Reached (some a) (some d) before after =
    (after ≡ some d) ⊎ (BackendSetInSync a d × (after ≡ before))

due-Reached :
    (n : Str) (a : Option BackendSet) (d before : Option BackendSetDetails)
    → (a ≡ none → before ≡ none)
    → Reached a d before (entry_after (due n a d) before)
unfolding entry_after create_backend_set delete_backend_set update_backend_set
due-Reached n none none before h = h refl
due-Reached n none (some d) before h = refl
due-Reached n (some a) none before h = refl
due-Reached n (some a) (some d) before h = elim (Bool-cases (has_backend_set_changed a d)) [
  | inl e ↦ inl (rw e refl)
  | inr e ↦ inr ((backend_set_in_sync a d).0 e, rw e refl)
]

-- Applied to a service that holds no other names than `actual`, the plan removes every name that
-- is not desired, and gives every desired name its details, unless these are in sync already.
pub plan-Reached :
    (n : Str) (actual : Map BackendSet) (desired held : Map BackendSetDetails)
    → Distinct actual
    → Distinct desired
    → Named actual
    → (lookup n actual ≡ none → lookup n held ≡ none)
    → Reached
        (lookup n actual)
        (lookup n desired)
        (lookup n held)
        (lookup n (apply_all (get_backend_set_changes actual desired) held))
plan-Reached n actual desired held ha hd k absent =
    rw (lookup-apply_all n (get_backend_set_changes actual desired) held) (
      rw (get_backend_set_changes-due n actual desired ha hd k)
        (due-Reached n (lookup n actual) (lookup n desired) (lookup n held) absent))
