-- ===== src/LoadBalancer/BackendSets/Tests.antt =====
-- Runs of the functions on backend sets at concrete records.
use oci_lb_ingress_controlle.Base.Maps.{Map, Distinct, has_key, lookup}
use oci_lb_ingress_controlle.LoadBalancer.Types.{BackendSet, BackendSetDetails}
use oci_lb_ingress_controlle.LoadBalancer.Samples.{backend_set, backend_set_details}
use oci_lb_ingress_controlle.LoadBalancer.BackendSets.{
  get_backend_set_changes, has_backend_set_changed,
}
use oci_lb_ingress_controlle.LoadBalancer.BackendSets.InSync.{BackendSetInSync, backend_set_in_sync}
use oci_lb_ingress_controlle.LoadBalancer.BackendSets.Plan.{
  Named, actions_on, due, get_backend_set_changes-due,
}
use oci_lb_ingress_controlle.LoadBalancer.BackendSets.Reach.{Reached, apply_all, plan-Reached}
use oci_lb_ingress_controlle.Base.{
  pos, Str, text, str_eq, ◌≡◌, refl, ◌↔◌, false, none, some, [], ◌∷◌,
}

abbrev a_name : Str
a_name = text "a"

abbrev held_sets : Map BackendSet
held_sets = (a_name, backend_set "a") ∷ (text "b", backend_set "b") ∷ []

-- `a` gets another health check port, and `b` goes.
abbrev wanted_sets : Map BackendSetDetails
wanted_sets = (a_name, backend_set_details (pos 81)) ∷ []

abbrev service_sets : Map BackendSetDetails
service_sets =
    (a_name, backend_set_details (pos 80)) ∷ (text "b", backend_set_details (pos 80)) ∷ []

held_sets-Distinct : Distinct held_sets
unfolding has_key str_eq
held_sets-Distinct = (refl, (refl, tt))

wanted_sets-Distinct : Distinct wanted_sets
unfolding has_key
wanted_sets-Distinct = (refl, tt)

held_sets-Named : Named held_sets
held_sets-Named = (refl, (refl, tt))

backend_set_in_sync_example :
    (has_backend_set_changed (backend_set "a") (backend_set_details (pos 80)) ≡ false)
    ↔ BackendSetInSync (backend_set "a") (backend_set_details (pos 80))
backend_set_in_sync_example = backend_set_in_sync (backend_set "a") (backend_set_details (pos 80))

get_backend_set_changes-due_example :
    actions_on a_name (get_backend_set_changes held_sets wanted_sets)
    ≡ due a_name (some (backend_set "a")) (some (backend_set_details (pos 81)))
unfolding lookup str_eq
get_backend_set_changes-due_example =
    get_backend_set_changes-due a_name held_sets wanted_sets held_sets-Distinct wanted_sets-Distinct
      held_sets-Named

plan-Reached_example :
    Reached
      (some (backend_set "b"))
      none
      (some (backend_set_details (pos 80)))
      (lookup (text "b") (apply_all (get_backend_set_changes held_sets wanted_sets) service_sets))
unfolding lookup str_eq
plan-Reached_example =
    plan-Reached (text "b") held_sets wanted_sets service_sets held_sets-Distinct
      wanted_sets-Distinct held_sets-Named (λ e. cc)
