-- ===== src/LoadBalancer/Listeners.antt =====
-- The listeners of load_balancer_util.go: what has changed in one, and the actions that bring the
-- actual ones to the desired ones, matched by sanitized name.
pub mod InSync
pub mod Plan
pub mod Collision
pub mod Tests
use oci_lb_ingress_controlle.Base.Sets.{has, insert}
use oci_lb_ingress_controlle.Base.Maps.{Map, lookup, put}
use oci_lb_ingress_controlle.LoadBalancer.Types.{
  SslConfiguration, SslConfigurationDetails, ConnectionConfiguration, Listener, ListenerDetails,
  to_bool, to_string, to_int, ssl_configuration_to_details,
}
use oci_lb_ingress_controlle.LoadBalancer.BackendSets.{ActionType, create, update, delete}
use oci_lb_ingress_controlle.LoadBalancer.Report.{
  report, change_line, show_bool, show_list, int_ne, str_ne, bool_ne,
}
use oci_lb_ingress_controlle.Base.{
  if◌then◌else◌, is_some, is_empty, Str, text, itoa, split_at, join, equal_fold, ◌-◌, Bool, not,
  Option, none, some, List, [], ◌∷◌, ◌++◌,
}

pub record ListenerAction : Type 0 where
  pub action_type : ActionType
  pub name : Str
  pub listener : ListenerDetails

unfoldable pub get_ssl_configuration_changes :
    Option SslConfiguration → Option SslConfigurationDetails → List Str
get_ssl_configuration_changes none none = []
get_ssl_configuration_changes none (some d) =
    change_line (text "Listener:SSLConfiguration") (text "NOT_PRESENT") (text "PRESENT") ∷ []
get_ssl_configuration_changes (some a) none =
    change_line (text "Listener:SSLConfiguration") (text "PRESENT") (text "NOT_PRESENT") ∷ []
get_ssl_configuration_changes (some a) (some d) = report (
    (
      str_ne (to_string a.certificate_name) (to_string d.certificate_name),
      change_line (text "Listener:SSLConfiguration:CertificateName") (to_string a.certificate_name)
          (to_string d.certificate_name),
    )
    ∷ (
      int_ne (to_int a.verify_depth) (to_int d.verify_depth),
      change_line (text "Listener:SSLConfiguration:VerifyDepth") (itoa (to_int a.verify_depth))
          (itoa (to_int d.verify_depth)),
    )
    ∷ (
      bool_ne (to_bool a.verify_peer_certificate) (to_bool d.verify_peer_certificate),
      change_line (text "Listener:SSLConfiguration:VerifyPeerCertificate")
          (show_bool (to_bool a.verify_peer_certificate))
          (show_bool (to_bool d.verify_peer_certificate)),
    )
    ∷ [])

unfoldable pub get_connection_configuration_changes :
    Option ConnectionConfiguration → Option ConnectionConfiguration → List Str
get_connection_configuration_changes actual none = []
get_connection_configuration_changes none (some d) =
    change_line (text "Listener:ConnectionConfiguration") (text "NOT_PRESENT") (text "PRESENT") ∷ []
get_connection_configuration_changes (some a) (some d) = report (
    (
      int_ne (to_int a.idle_timeout) (to_int d.idle_timeout),
      change_line (text "Listener:ConnectionConfiguration:IdleTimeout")
          (itoa (to_int a.idle_timeout)) (itoa (to_int d.idle_timeout)),
    )
    ∷ (
      int_ne (to_int a.backend_tcp_proxy_protocol_version)
          (to_int d.backend_tcp_proxy_protocol_version),
      change_line (text "Listener:ConnectionConfiguration:BackendTcpProxyProtocolVersion")
          (itoa (to_int a.backend_tcp_proxy_protocol_version))
          (itoa (to_int d.backend_tcp_proxy_protocol_version)),
    )
    ∷ [])

-- The lines that the function collects.
unfoldable pub listener_changes : Listener → ListenerDetails → List Str
listener_changes a d =
    report (
      (
        str_ne a.default_backend_set_name d.default_backend_set_name,
        change_line (text "Listener:DefaultBackendSetName") a.default_backend_set_name
            d.default_backend_set_name,
      )
      ∷ (int_ne a.port d.port, change_line (text "Listener:Port") (itoa a.port) (itoa d.port))
      ∷ (
        str_ne (to_string a.protocol) (to_string d.protocol),
        change_line (text "Listener:Protocol") (to_string a.protocol) (to_string d.protocol),
      )
      ∷ [])
    ++ (get_ssl_configuration_changes a.ssl_configuration d.ssl_configuration
        ++ (get_connection_configuration_changes a.connection_configuration
              d.connection_configuration
            ++ report (
                (
                  str_ne (show_list a.hostname_names) (show_list d.hostname_names),
                  change_line (text "Listener:HostnameNames") (show_list a.hostname_names)
                      (show_list d.hostname_names),
                )
                ∷ (
                  str_ne (to_string a.routing_policy_name) (to_string d.routing_policy_name),
                  change_line (text "Listener:RoutingPolicyName") (to_string a.routing_policy_name)
                      (to_string d.routing_policy_name),
                )
                ∷ (
                  str_ne (show_list a.rule_set_names) (show_list d.rule_set_names),
                  change_line (text "Listener:RuleSetNames") (show_list a.rule_set_names)
                      (show_list d.rule_set_names),
                )
                ∷ [])))

unfoldable pub has_listener_changed : Listener → ListenerDetails → Bool
has_listener_changed a d = not (is_empty (listener_changes a d))

-- The first two fields of a name, the first being TCP where it reads HTTP in any case. Names hold
-- no %, so that the code's Sprintf over them returns its argument.
sanitize_fields : Str → List Str → Str
sanitize_fields first [] = first
sanitize_fields first (second ∷ rest) = join (text "-") (first ∷ second ∷ [])

unfoldable pub get_sanitized_name : Str → Str
unfolding sanitize_fields
get_sanitized_name name =
    let (first, rest) = split_at b'-' name in
    sanitize_fields (if equal_fold first (text "HTTP") then text "TCP" else first) rest

-- The loop that fills sanitizedDesiredListeners: of two with one sanitized name the later stays.
unfoldable pub sanitize_listeners : Map ListenerDetails → Map ListenerDetails → Map ListenerDetails
sanitize_listeners done [] = done
sanitize_listeners done ((name, d) ∷ m) =
    sanitize_listeners (put (get_sanitized_name name) d done) m

unfoldable pub delete_listener : Str → Listener → ListenerAction
delete_listener name a = record {
  action_type = delete;
  name = name;
  listener = record {
    default_backend_set_name = a.default_backend_set_name;
    port = a.port;
    protocol = a.protocol;
    hostname_names = [];
    ssl_configuration = ssl_configuration_to_details a.ssl_configuration;
    connection_configuration = none;
    routing_policy_name = none;
    rule_set_names = [];
  };
}

unfoldable pub update_listener : Str → ListenerDetails → ListenerAction
update_listener name d = record { action_type = update; name = name; listener = d }

unfoldable pub create_listener : Str → ListenerDetails → ListenerAction
create_listener name d = record { action_type = create; name = name; listener = d }

-- The first loop: the actions on what exists, and the set of sanitized names that are matched.
unfoldable pub existing_listener_actions : Map ListenerDetails → Map Listener → List ListenerAction
existing_listener_actions sanitized [] = []
existing_listener_actions sanitized ((name, a) ∷ m) =
    let rest = existing_listener_actions sanitized m in
    elim (lookup (get_sanitized_name name) sanitized) [
      | none ↦ delete_listener name a ∷ rest
      | some d ↦ if has_listener_changed a d then update_listener name d ∷ rest else rest
    ]

unfoldable pub matched_names : Map ListenerDetails → Map Listener → List Str → List Str
matched_names sanitized [] exists = exists
matched_names sanitized ((name, a) ∷ m) exists = matched_names sanitized m (
    if is_some (lookup (get_sanitized_name name) sanitized)
    then insert (get_sanitized_name name) exists
    else exists)

-- The second loop: what is desired and not matched.
unfoldable pub new_listener_actions : List Str → Map ListenerDetails → List ListenerAction
new_listener_actions exists [] = []
new_listener_actions exists ((name, d) ∷ m) =
    let rest = new_listener_actions exists m in
    if has (get_sanitized_name name) exists then rest else create_listener name d ∷ rest

unfoldable pub get_listener_changes : Map Listener → Map ListenerDetails → List ListenerAction
get_listener_changes actual desired =
    let sanitized = sanitize_listeners [] desired in
    existing_listener_actions sanitized actual
    ++ new_listener_actions (matched_names sanitized actual []) desired
