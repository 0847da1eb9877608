-- ===== src/LoadBalancer/Samples.antt =====
-- The records that the tests of the load balancer modules share.
use oci_lb_ingress_controlle.LoadBalancer.Types.{
  HealthChecker, HealthCheckerDetails, BackendSet, BackendSetDetails, Listener, ListenerDetails,
}
use Prim.Native.String.{String}
use oci_lb_ingress_controlle.Base.{ℤ, pos, text, none, some, [], ◌∷◌}

abbrev checker : HealthChecker
checker = record {
  protocol = some (text "HTTP");
  url_path = some (text "/");
  port = pos 80;
  return_code = some (pos 200);
  retries = some (pos 3);
  timeout_in_millis = some (pos 3000);
  interval_in_millis = some (pos 10000);
  response_body_regex = none;
}

abbrev checker_details : ℤ → HealthCheckerDetails
checker_details port = record {
  protocol = some (text "HTTP");
  url_path = some (text "/");
  port = port;
  return_code = none;
  retries = some (pos 3);
  timeout_in_millis = some (pos 3000);
  interval_in_millis = some (pos 10000);
  response_body_regex = none;
}

abbrev pub backend_set : String → BackendSet
backend_set name = record {
  name = text name;
  policy = some (text "ROUND_ROBIN");
  backends =
      record {
        ip_address = text "10.0.0.1";
        port = pos 30080;
        weight = none;
        backup = none;
        drain = none;
        offline = none;
      }
      ∷ [];
  health_checker = some checker;
  session_persistence = none;
  ssl_configuration = none;
}

-- The details of `backend_set`, with the port of the health check left open.
abbrev pub backend_set_details : ℤ → BackendSetDetails
backend_set_details port = record {
  policy = some (text "ROUND_ROBIN");
  backends =
      record {
        ip_address = text "10.0.0.1";
        port = pos 30080;
        weight = none;
        backup = none;
        drain = none;
        offline = none;
      }
      ∷ [];
  health_checker = some (checker_details port);
  session_persistence = none;
  ssl_configuration = none;
}

abbrev pub listener : ℤ → Listener
listener port = record {
  name = none;
  default_backend_set_name = text "default";
  port = port;
  protocol = some (text "HTTP");
  hostname_names = [];
  ssl_configuration = none;
  connection_configuration = none;
  routing_policy_name = none;
  rule_set_names = [];
}

abbrev pub listener_details : ℤ → ListenerDetails
listener_details port = record {
  default_backend_set_name = text "default";
  port = port;
  protocol = some (text "HTTP");
  hostname_names = [];
  ssl_configuration = none;
  connection_configuration = none;
  routing_policy_name = none;
  rule_set_names = [];
}
