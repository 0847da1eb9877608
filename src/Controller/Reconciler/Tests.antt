-- ===== src/Controller/Reconciler/Tests.antt =====
-- Reconciliations of one request.
use oci_lb_ingress_controlle.Base.Maps.{Map, lookup}
use oci_lb_ingress_controlle.Controller.Reconciler.{ManagerCall, delete_ingress, absent, reconcile}
use oci_lb_ingress_controlle.Controller.Reconciler.Laws.{Returned, reconcile-outcome}
use oci_lb_ingress_controlle.Base.{str_eq, some, text, service, Result, ok, err, ℕ, ◌≡◌, [], ◌∷◌}

abbrev busy : ManagerCall → Result (Unit {0})
busy call = err (service 429 (text "TooManyRequests"))

abbrev done : ManagerCall → Result (Unit {0})
done call = ok tt

abbrev counter : Map ℕ
counter = (text "blue/web", 2) ∷ []

reconcile-outcome_example :
    ((reconcile busy absent counter (text "blue/web")).calls
      ≡ delete_ingress (text "blue/web") ∷ [])
    × Returned
        (err (service 429 (text "TooManyRequests")))
        ((reconcile busy absent counter (text "blue/web")).result)
    × (lookup (text "blue/web") (reconcile busy absent counter (text "blue/web")).counter ≡ some 3)
unfolding lookup str_eq
reconcile-outcome_example =
    reconcile-outcome busy absent counter (text "blue/web") (text "blue/web")
