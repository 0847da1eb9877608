-- ===== src/Client/Tests.antt =====
-- Runs of the client: a list in two pages, and a wait with an error that is tried again.
use oci_lb_ingress_controlle.Client.Lookup.{
  IsFirstNamed, lookup_from, balancer_named, get_load_balancer_by_name,
  get_load_balancer_by_name-found,
}
use oci_lb_ingress_controlle.Client.Polling.{
  Tick, await_work_request, await_work_request-exact, SucceedsWith, poll_condition,
}
use oci_lb_ingress_controlle.Client.Sdk.{
  LoadBalancerPage, Sdk, WorkRequest, succeeded, rate_limit_error,
}
use oci_lb_ingress_controlle.Controller.Errors.{
  is_retryable_error, is_retryable_service_error, cause, retryable,
}
use oci_lb_ingress_controlle.Manager.Model.{OciLoadBalancer}
use oci_lb_ingress_controlle.Base.{
  any, str_eq, Str, text, service, with_stack, message, Result, ok, err, ◌≡◌, ◌↔◌, refl, true,
  false, Option, none, some, List, [], ◌∷◌, arith,
}

abbrev balancer : Str → OciLoadBalancer
balancer name = record {
  balancer = record {
    id = name;
    ip_addresses = [];
    shape_name = text "100Mbps";
    shape_details = none;
    network_security_group_ids = [];
    backend_sets = [];
    listeners = [];
  };
  display_name = name;
  lifecycle_state = text "ACTIVE";
  routing_policies = [];
  rule_sets = [];
  hostnames = [];
  certificates = [];
}

abbrev two_pages : Option Str → Result LoadBalancerPage
two_pages none = ok (record { items = balancer (text "a") ∷ []; opc_next_page = some (text "2") })
two_pages (some token) = ok (record { items = balancer (text "b") ∷ []; opc_next_page = none })

abbrev steady_sdk : Sdk
steady_sdk = record {
  reader_accepts = λ log. true;
  writer_accepts = λ log. true;
  work_request_id = λ log c. ok (text "work");
  load_balancer = λ log id. err (message (text "none"));
  load_balancers = λ log compartment name page. two_pages page;
  certificates = λ log id. ok [];
  work_request = λ log id. err (message (text "none"));
}

get_load_balancer_by_name-found_example :
    IsFirstNamed
      (text "b")
      (balancer (text "a") ∷ balancer (text "b") ∷ [])
      (ok (balancer (text "b")))
unfolding get_load_balancer_by_name lookup_from balancer_named str_eq
get_load_balancer_by_name-found_example =
    get_load_balancer_by_name-found steady_sdk (text "shop") (text "b") two_pages
      ((λ log. refl), (λ log page. refl)) 2 2 (balancer (text "a") ∷ balancer (text "b") ∷ []) []
      (
        record { items = balancer (text "a") ∷ []; opc_next_page = some (text "2") },
        refl,
        (
          balancer (text "b") ∷ [],
          refl,
          (record { items = balancer (text "b") ∷ []; opc_next_page = none }, refl, refl),
        ),
      )
      (omega arith)

abbrev made : WorkRequest
made = record { lifecycle_state = succeeded; error_message = none; load_balancer_id = text "lb" }

abbrev busy_then_made : List Tick
busy_then_made = (true, err (service 429 (text "TooManyRequests"))) ∷ (true, ok made) ∷ []

await_work_request-exact_example :
    (await_work_request busy_then_made ≡ ok made) ↔ SucceedsWith made busy_then_made
await_work_request-exact_example = await_work_request-exact made busy_then_made

busy_run : await_work_request busy_then_made ≡ ok made
unfolding await_work_request poll_condition is_retryable_error is_retryable_service_error cause
    retryable any str_eq
busy_run = refl

-- The client's own limiter refuses the first poll of a request that goes on.
refused_run :
    await_work_request ((false, ok made) ∷ (true, ok made) ∷ []) ≡ err (with_stack rate_limit_error)
unfolding await_work_request poll_condition is_retryable_error cause rate_limit_error
refused_run = refl
