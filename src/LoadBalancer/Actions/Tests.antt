-- ===== src/LoadBalancer/Actions/Tests.antt =====
-- The order of a small plan.
use oci_lb_ingress_controlle.LoadBalancer.BackendSets.{delete_backend_set, create_backend_set}
use oci_lb_ingress_controlle.LoadBalancer.Listeners.{update_listener}
use oci_lb_ingress_controlle.LoadBalancer.Samples.{
  backend_set, backend_set_details, listener_details,
}
use oci_lb_ingress_controlle.LoadBalancer.Actions.{
  Action, on_backend_set, on_listener, sort_and_combine_actions,
}
use oci_lb_ingress_controlle.LoadBalancer.Actions.Phases.{sort_and_combine_actions-phases}
use oci_lb_ingress_controlle.Base.{pos, filter, text, ◌≡◌, [], ◌∷◌}

abbrev drop_old : Action
drop_old = on_backend_set (delete_backend_set (backend_set "old"))

abbrev make_new : Action
make_new = on_backend_set (create_backend_set (text "new") (backend_set_details (pos 80)))

abbrev move_listener : Action
move_listener = on_listener (update_listener (text "l") (listener_details (pos 80)))

sort_and_combine_actions-phases_example :
    sort_and_combine_actions (drop_old ∷ make_new ∷ []) (move_listener ∷ [])
    ≡ make_new ∷ move_listener ∷ drop_old ∷ []
unfolding delete_backend_set create_backend_set update_listener filter
sort_and_combine_actions-phases_example =
    sort_and_combine_actions-phases (drop_old ∷ make_new ∷ []) (move_listener ∷ [])
