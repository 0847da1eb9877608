-- ===== src/LoadBalancer/Listeners/Plan.antt =====
-- What getListenerChanges plans for a name that shares its sanitized name with no other.
use mathlib.Core.List.{append-nil}
use oci_lb_ingress_controlle.Base.Sets.{has, insert, has-insert}
use oci_lb_ingress_controlle.Base.Maps.{
  Map, Distinct, lookup, put, has_key, lookup-absent, lookup-put, lookup-has_key,
}
use oci_lb_ingress_controlle.LoadBalancer.Types.{Listener, ListenerDetails}
use oci_lb_ingress_controlle.LoadBalancer.Listeners.{
  ListenerAction, has_listener_changed, get_sanitized_name, sanitize_listeners, delete_listener,
  update_listener, create_listener, existing_listener_actions, matched_names, new_listener_actions,
  get_listener_changes,
}
use oci_lb_ingress_controlle.Base.{
  if◌then◌else◌, is_some, filter, All, filter-append, Str, str_eq, str_eq_iff, ◌≡◌, refl, Bool,
  false, ◌&&◌, ◌||◌, Option, none, some, List, [], ◌∷◌, ◌++◌, arith,
}

-- No other name of the map has the sanitized name of `n`.
abbrev pub Apart : {V : Type 0} → Str → Map V → Type 0
Apart n = All (λ e. get_sanitized_name e.0 ≡ get_sanitized_name n → e.0 ≡ n)

abbrev pub actions_on : Str → List ListenerAction → List ListenerAction
actions_on n = filter (λ act. str_eq act.name n)

abbrev pub due : Str → Option Listener → Option ListenerDetails → List ListenerAction
due n none none = []
due n none (some d) = create_listener n d ∷ []
due n (some a) none = delete_listener n a ∷ []
due n (some a) (some d) = if has_listener_changed a d then update_listener n d ∷ [] else []

abbrev pub due_existing : Str → Option Listener → Option ListenerDetails → List ListenerAction
due_existing n none d = []
due_existing n (some a) d = due n (some a) d

abbrev due_new : Str → Option Listener → Option ListenerDetails → List ListenerAction
due_new n none d = due n none d
due_new n (some a) d = []

abbrev or_else : Option ListenerDetails → Option ListenerDetails → Option ListenerDetails
or_else none o = o
or_else (some d) o = some d

lookup-sanitize_listeners :
    (n : Str) (done m : Map ListenerDetails)
    → Distinct m
    → Apart n m
    → lookup (get_sanitized_name n) (sanitize_listeners done m)
      ≡ or_else (lookup n m) (lookup (get_sanitized_name n) done)
unfolding sanitize_listeners lookup
lookup-sanitize_listeners n done [] h p = refl
lookup-sanitize_listeners n done ((j, d) ∷ m) h p = ground (
  arith,
  lookup-sanitize_listeners n (put (get_sanitized_name j) d done) m h.1 p.1,
  lookup-put (get_sanitized_name j) (get_sanitized_name n) d done,
  lookup-absent j m h.0,
  str_eq_iff j n,
  str_eq_iff (get_sanitized_name j) (get_sanitized_name n),
  p.0,
)

has-matched_names :
    (n : Str) (sanitized : Map ListenerDetails) (m : Map Listener) (exists : List Str)
    → Apart n m
    → has (get_sanitized_name n) (matched_names sanitized m exists) ≡ (
        has (get_sanitized_name n) exists
        || (is_some (lookup (get_sanitized_name n) sanitized) && has_key n m))
unfolding matched_names has_key
has-matched_names n sanitized [] exists p = ground arith
has-matched_names n sanitized ((j, a) ∷ m) exists p = ground (
  arith,
  has-matched_names n sanitized m
      (if is_some (lookup (get_sanitized_name j) sanitized)
        then insert (get_sanitized_name j) exists
        else exists)
      p.1,
  has-insert (get_sanitized_name j) (get_sanitized_name n) exists,
  str_eq_iff (get_sanitized_name n) (get_sanitized_name j),
  str_eq_iff j n,
  p.0,
)

pub existing-due :
    (n : Str) (sanitized : Map ListenerDetails) (m : Map Listener)
    → Distinct m
    → actions_on n (existing_listener_actions sanitized m)
      ≡ due_existing n (lookup n m) (lookup (get_sanitized_name n) sanitized)
unfolding existing_listener_actions lookup filter delete_listener update_listener
existing-due n sanitized [] h = refl
existing-due n sanitized ((j, a) ∷ m) h =
    ground (arith, existing-due n sanitized m h.1, lookup-absent j m h.0, str_eq_iff j n)

abbrev pub create_unless : Bool → Str → Option ListenerDetails → List ListenerAction
create_unless b n none = []
create_unless b n (some d) = if b then [] else create_listener n d ∷ []

pub new-due :
    (n : Str) (exists : List Str) (m : Map ListenerDetails)
    → Distinct m
    → actions_on n (new_listener_actions exists m)
      ≡ create_unless (has (get_sanitized_name n) exists) n (lookup n m)
unfolding new_listener_actions lookup filter create_listener
new-due n exists [] h = refl
new-due n exists ((j, d) ∷ m) h =
    ground (arith, new-due n exists m h.1, lookup-absent j m h.0, str_eq_iff j n)

due_split :
    (n : Str) (a : Option Listener) (d : Option ListenerDetails)
    → due_existing n a d ++ create_unless (is_some d && is_some a) n d ≡ due n a d
due_split n none none = refl
due_split n none (some d) = refl
due_split n (some a) none = refl
due_split n (some a) (some d) = append-nil (due n (some a) (some d))

-- For a name whose sanitized name no other listener has, desired or actual, and whatever the order
-- of the maps: the plan has one action if the name is desired and missing, present and not
-- desired, or present and changed, and none otherwise.
pub get_listener_changes-due :
    (n : Str) (actual : Map Listener) (desired : Map ListenerDetails)
    → Distinct actual
    → Distinct desired
    → Apart n actual
    → Apart n desired
    → actions_on n (get_listener_changes actual desired)
      ≡ due n (lookup n actual) (lookup n desired)
unfolding get_listener_changes has lookup
get_listener_changes-due n actual desired ha hd pa pd =
    let S = sanitize_listeners [] desired in
    let e = lookup-sanitize_listeners n [] desired hd pd in
    rw filter-append (
      rw (existing-due n S actual ha) (
        rw (new-due n (matched_names S actual []) desired hd) (
          rw (has-matched_names n S actual [] pa)
            (rw (e, lookup-has_key n actual) (split_case (lookup n actual) (lookup n desired))))))
  where
    split_case :
        (a : Option Listener) (d : Option ListenerDetails)
        → due_existing n a (or_else d none)
            ++ create_unless (false || (is_some (or_else d none) && is_some a)) n d
          ≡ due n a d
    split_case a none = due_split n a none
    split_case a (some d) = due_split n a (some d)
