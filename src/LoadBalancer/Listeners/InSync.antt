-- ===== src/LoadBalancer/Listeners/InSync.antt =====
-- When hasListenerChanged reports nothing, as equations between the two sides.
use oci_lb_ingress_controlle.LoadBalancer.Types.{
  SslConfiguration, SslConfigurationDetails, ConnectionConfiguration, Listener, ListenerDetails,
  to_bool, to_string, to_int,
}
use oci_lb_ingress_controlle.LoadBalancer.Report.{
  report, show_list, report-empty, append-eq-nil, int_ne-false, str_ne-false, bool_ne-false,
}
use oci_lb_ingress_controlle.LoadBalancer.BackendSets.InSync.{nonempty-false}
use oci_lb_ingress_controlle.LoadBalancer.Listeners.{
  get_ssl_configuration_changes, get_connection_configuration_changes, listener_changes,
  has_listener_changed,
}
use oci_lb_ingress_controlle.Base.{Str, ◌≡◌, refl, ◌↔◌, false, Option, none, some, List, [], ◌++◌}

-- The cipher suite is not compared.
pub record SslFieldsInSync (a : SslConfiguration) (d : SslConfigurationDetails) : Type 0 where
  pub certificate_name : to_string a.certificate_name ≡ to_string d.certificate_name
  pub verify_depth : to_int a.verify_depth ≡ to_int d.verify_depth
  pub verify_peer : to_bool a.verify_peer_certificate ≡ to_bool d.verify_peer_certificate

abbrev pub SslInSync : Option SslConfiguration → Option SslConfigurationDetails → Type 0
SslInSync none none = Unit
SslInSync none (some d) = ⊥
SslInSync (some a) none = ⊥
SslInSync (some a) (some d) = SslFieldsInSync a d

-- A connection configuration that is left unset is the service's to choose.
abbrev pub ConnectionInSync :
    Option ConnectionConfiguration → Option ConnectionConfiguration → Type 0
ConnectionInSync actual none = Unit
ConnectionInSync none (some d) = ⊥
ConnectionInSync (some a) (some d) =
    (to_int a.idle_timeout ≡ to_int d.idle_timeout)
    × (to_int a.backend_tcp_proxy_protocol_version ≡ to_int d.backend_tcp_proxy_protocol_version)

-- Lists of names are compared as they print.
pub record ListenerInSync (a : Listener) (d : ListenerDetails) : Type 0 where
  pub backend_set : a.default_backend_set_name ≡ d.default_backend_set_name
  pub port : a.port ≡ d.port
  pub protocol : to_string a.protocol ≡ to_string d.protocol
  pub ssl : SslInSync a.ssl_configuration d.ssl_configuration
  pub connection : ConnectionInSync a.connection_configuration d.connection_configuration
  pub hostnames : show_list a.hostname_names ≡ show_list d.hostname_names
  pub routing_policy : to_string a.routing_policy_name ≡ to_string d.routing_policy_name
  pub rule_sets : show_list a.rule_set_names ≡ show_list d.rule_set_names

ssl_in_sync :
    (a : Option SslConfiguration) (d : Option SslConfigurationDetails)
    → (get_ssl_configuration_changes a d ≡ []) ↔ SslInSync a d
unfolding get_ssl_configuration_changes
ssl_in_sync none none = (λ e. tt, λ s. refl)
ssl_in_sync none (some d) = (λ e. cc, λ s. absurd s)
ssl_in_sync (some a) none = (λ e. cc, λ s. absurd s)
ssl_in_sync (some a) (some d) = (
  λ e.
      let t = (report-empty _).0 e in
      record {
        certificate_name = (str_ne-false _ _).0 t.0;
        verify_depth = (int_ne-false _ _).0 t.1.0;
        verify_peer = (bool_ne-false _ _).0 t.1.1.0;
      },
  λ s. (report-empty _).1 (
    (str_ne-false _ _).1 s.certificate_name,
    ((int_ne-false _ _).1 s.verify_depth, ((bool_ne-false _ _).1 s.verify_peer, tt)),
  ),
)

connection_in_sync :
    (a d : Option ConnectionConfiguration)
    → (get_connection_configuration_changes a d ≡ []) ↔ ConnectionInSync a d
unfolding get_connection_configuration_changes
connection_in_sync none none = (λ e. tt, λ s. refl)
connection_in_sync (some a) none = (λ e. tt, λ s. refl)
connection_in_sync none (some d) = (λ e. cc, λ s. absurd s)
connection_in_sync (some a) (some d) = (
  λ e. let t = (report-empty _).0 e in ((int_ne-false _ _).0 t.0, (int_ne-false _ _).0 t.1.0),
  λ s. (report-empty _).1 ((int_ne-false _ _).1 s.0, ((int_ne-false _ _).1 s.1, tt)),
)

append-nils : {xs ys : List Str} → xs ≡ [] → ys ≡ [] → xs ++ ys ≡ []
append-nils h k = rw (h, k)

-- hasListenerChanged answers false exactly when the listener is in sync with its details.
pub listener_in_sync :
    (a : Listener) (d : ListenerDetails) → (has_listener_changed a d ≡ false) ↔ ListenerInSync a d
unfolding has_listener_changed listener_changes
listener_in_sync a d = (
  λ e.
      let h = append-eq-nil (report _) _ ((nonempty-false _).0 e) in
      let k = append-eq-nil (get_ssl_configuration_changes _ _) _ h.1 in
      let l = append-eq-nil (get_connection_configuration_changes _ _) (report _) k.1 in
      let t = (report-empty _).0 h.0 in
      let u = (report-empty _).0 l.1 in
      record {
        backend_set = (str_ne-false _ _).0 t.0;
        port = (int_ne-false _ _).0 t.1.0;
        protocol = (str_ne-false _ _).0 t.1.1.0;
        ssl = (ssl_in_sync _ _).0 k.0;
        connection = (connection_in_sync _ _).0 l.0;
        hostnames = (str_ne-false _ _).0 u.0;
        routing_policy = (str_ne-false _ _).0 u.1.0;
        rule_sets = (str_ne-false _ _).0 u.1.1.0;
      },
  λ s. (nonempty-false _).1 (
      append-nils
        ((report-empty _).1 (
          (str_ne-false _ _).1 s.backend_set,
          ((int_ne-false _ _).1 s.port, ((str_ne-false _ _).1 s.protocol, tt)),
        ))
        (append-nils ((ssl_in_sync _ _).1 s.ssl) (
          append-nils ((connection_in_sync _ _).1 s.connection) (
            (report-empty _).1 (
              (str_ne-false _ _).1 s.hostnames,
              ((str_ne-false _ _).1 s.routing_policy, ((str_ne-false _ _).1 s.rule_sets, tt)),
            ))))),
)
