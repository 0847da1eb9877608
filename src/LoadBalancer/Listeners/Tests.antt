-- ===== src/LoadBalancer/Listeners/Tests.antt =====
-- Runs of the functions on listeners at concrete records.
use oci_lb_ingress_controlle.Base.Maps.{has_key, Map, Distinct, has_key, lookup}
use oci_lb_ingress_controlle.LoadBalancer.Types.{Listener, ListenerDetails}
use oci_lb_ingress_controlle.LoadBalancer.Samples.{listener, listener_details}
use oci_lb_ingress_controlle.LoadBalancer.Listeners.{
  get_listener_changes, has_listener_changed, get_sanitized_name,
}
use oci_lb_ingress_controlle.LoadBalancer.Listeners.InSync.{ListenerInSync, listener_in_sync}
use oci_lb_ingress_controlle.LoadBalancer.Listeners.Plan.{actions_on, due, get_listener_changes-due}
use oci_lb_ingress_controlle.LoadBalancer.Listeners.Collision.{collision_never_created}
use oci_lb_ingress_controlle.Base.{
  pos, Str, text, str_eq, split_at, join, lower_byte, to_lower, equal_fold, ◌≡◌, refl, ◌↔◌, false,
  some, [], ◌∷◌,
}

-- The names that two hosts of one application get: the dashes cut them to `my-app`.
abbrev foo : Str
foo = text "my-app-foo"

abbrev bar : Str
bar = text "my-app-bar"

abbrev held_listeners : Map Listener
held_listeners = (foo, listener (pos 80)) ∷ []

abbrev wanted_listeners : Map ListenerDetails
wanted_listeners = (foo, listener_details (pos 81)) ∷ []

abbrev wanted_pair : Map ListenerDetails
wanted_pair = (foo, listener_details (pos 80)) ∷ (bar, listener_details (pos 81)) ∷ []

held_listeners-Distinct : Distinct held_listeners
unfolding has_key
held_listeners-Distinct = (refl, tt)

wanted_listeners-Distinct : Distinct wanted_listeners
unfolding has_key
wanted_listeners-Distinct = (refl, tt)

wanted_pair-Distinct : Distinct wanted_pair
unfolding has_key str_eq
wanted_pair-Distinct = (refl, (refl, tt))

same_sanitized_name : get_sanitized_name foo ≡ get_sanitized_name bar
unfolding get_sanitized_name split_at equal_fold to_lower lower_byte str_eq join
same_sanitized_name = refl

listener_in_sync_example :
    (has_listener_changed (listener (pos 80)) (listener_details (pos 80)) ≡ false)
    ↔ ListenerInSync (listener (pos 80)) (listener_details (pos 80))
listener_in_sync_example = listener_in_sync (listener (pos 80)) (listener_details (pos 80))

get_listener_changes-due_example :
    actions_on foo (get_listener_changes held_listeners wanted_listeners)
    ≡ due foo (some (listener (pos 80))) (some (listener_details (pos 81)))
unfolding lookup str_eq
get_listener_changes-due_example =
    get_listener_changes-due foo held_listeners wanted_listeners held_listeners-Distinct
      wanted_listeners-Distinct (λ e. refl, tt) (λ e. refl, tt)

collision_never_created_example :
    actions_on bar (get_listener_changes held_listeners wanted_pair) ≡ []
unfolding lookup str_eq has_key
collision_never_created_example =
    collision_never_created bar foo (listener_details (pos 81)) held_listeners wanted_pair
      held_listeners-Distinct wanted_pair-Distinct refl refl refl same_sanitized_name
