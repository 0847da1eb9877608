-- ===== src/LoadBalancer/BackendSets.antt =====
-- The backend sets of load_balancer_util.go: what has changed in one, and the actions that bring the
-- actual ones to the desired ones. The logger's lines are left out, but the messages are built.
pub mod InSync
pub mod Plan
pub mod Reach
pub mod Tests
use oci_lb_ingress_controlle.Base.Sets.{has, of_list}
use oci_lb_ingress_controlle.Base.Maps.{Map, lookup}
use oci_lb_ingress_controlle.LoadBalancer.Types.{
  PortSpec, Backend, BackendDetails, HealthChecker, HealthCheckerDetails, BackendSet,
  BackendSetDetails, to_string, to_int, health_checker_to_details, ssl_configuration_to_details,
  backends_to_backend_details, ports_from_backend_set, ports_from_backend_set_details,
}
use oci_lb_ingress_controlle.LoadBalancer.Report.{
  report, change_line, backend_change_line, int_ne, str_ne,
}
use oci_lb_ingress_controlle.Base.{
  if◌then◌else◌, is_some, ℤ, pos, is_empty, Str, text, itoa, Bool, not, ◌&&◌, Option, none, some,
  List, [], ◌∷◌, ◌++◌,
}

-- `type ActionType string` and its three constants
pub data ActionType : Type 0 where
  create update delete : ActionType

pub record BackendSetAction : Type 0 where
  pub action_type : ActionType
  pub name : Str
  pub backend_set : BackendSetDetails
  pub ports : PortSpec
  pub old_ports : Option PortSpec

unfoldable pub get_health_checker_changes :
    Option HealthChecker → Option HealthCheckerDetails → List Str
get_health_checker_changes actual none = []
get_health_checker_changes none (some d) =
    change_line (text "BackendSet:HealthChecker") (text "NOT_PRESENT") (text "PRESENT") ∷ []
get_health_checker_changes (some a) (some d) = report (
    (
      int_ne a.port d.port,
      change_line (text "BackendSet:HealthChecker:Port") (itoa a.port) (itoa d.port),
    )
    ∷ (
      str_ne (to_string d.response_body_regex) []
          && str_ne (to_string a.response_body_regex) (to_string d.response_body_regex),
      change_line (text "BackendSet:HealthChecker:ResponseBodyRegex")
          (to_string a.response_body_regex) (to_string d.response_body_regex),
    )
    ∷ (
      int_ne (to_int a.retries) (to_int d.retries),
      change_line (text "BackendSet:HealthChecker:Retries") (itoa (to_int a.retries))
          (itoa (to_int d.retries)),
    )
    ∷ (
      int_ne (to_int d.return_code) (pos 0) && int_ne (to_int a.return_code) (to_int d.return_code),
      change_line (text "BackendSet:HealthChecker:ReturnCode") (itoa (to_int a.return_code))
          (itoa (to_int d.return_code)),
    )
    ∷ (
      int_ne (to_int a.timeout_in_millis) (to_int d.timeout_in_millis),
      change_line (text "BackendSet:HealthChecker:TimeoutInMillis")
          (itoa (to_int a.timeout_in_millis)) (itoa (to_int d.timeout_in_millis)),
    )
    ∷ (
      int_ne (to_int a.interval_in_millis) (to_int d.interval_in_millis),
      change_line (text "BackendSet:HealthChecker:IntervalInMillis")
          (itoa (to_int a.interval_in_millis)) (itoa (to_int d.interval_in_millis)),
    )
    ∷ (
      str_ne (to_string a.url_path) (to_string d.url_path),
      change_line (text "BackendSet:HealthChecker:UrlPath") (to_string a.url_path)
          (to_string d.url_path),
    )
    ∷ (
      str_ne (to_string a.protocol) (to_string d.protocol),
      change_line (text "BackendSet:HealthChecker:Protocol") (to_string a.protocol)
          (to_string d.protocol),
    )
    ∷ [])

-- fmt.Sprintf("%s:%d", ip, port)
unfoldable pub endpoint : Str → ℤ → Str
endpoint ip port = ip ++ (b':' ∷ itoa port)

unfoldable pub actual_endpoints : List Backend → List Str
actual_endpoints [] = []
actual_endpoints (b ∷ bs) = endpoint b.ip_address b.port ∷ actual_endpoints bs

unfoldable pub desired_endpoints : List BackendDetails → List Str
desired_endpoints [] = []
desired_endpoints (b ∷ bs) = endpoint b.ip_address b.port ∷ desired_endpoints bs

-- `len(actual.Backends) > 0 && len(desired.Backends) > 0 && ports differ`
first_port_changes : List Backend → List BackendDetails → List Str
first_port_changes (a ∷ as') (d ∷ ds) = report (
    (int_ne a.port d.port, change_line (text "BackEndSet:BackendPort") (itoa a.port) (itoa d.port))
    ∷ [])
first_port_changes _ _ = []

-- The two loops over the backends: a line for each name of the one list that the other lacks.
missing_lines : Str → List Str → List Str → List Str
missing_lines what others [] = []
missing_lines what others (x ∷ xs) =
    let rest = missing_lines what others xs in
    if has x others then rest else backend_change_line what x ∷ rest

unfoldable pub backend_changes : List Backend → List BackendDetails → List Str
unfolding missing_lines
backend_changes actual desired =
    let desired_set = of_list (desired_endpoints desired) in
    let actual_set = of_list (actual_endpoints actual) in
    missing_lines (text "BackEndSet:Backend Remove") desired_set (actual_endpoints actual)
    ++ missing_lines (text "BackEndSet:Backend Add") actual_set (desired_endpoints desired)

-- The lines that the function collects; where backends differ, their lines replace the others.
unfoldable pub backend_set_changes : BackendSet → BackendSetDetails → List Str
unfolding first_port_changes
backend_set_changes actual desired =
    let changes =
      get_health_checker_changes actual.health_checker desired.health_checker
      ++ (first_port_changes actual.backends desired.backends
          ++ report (
              (
                str_ne (to_string actual.policy) (to_string desired.policy),
                change_line (text "BackEndSet:Policy") (to_string actual.policy)
                    (to_string desired.policy),
              )
              ∷ [])) in
    let others = backend_changes actual.backends desired.backends in
    if is_empty others then changes else others

unfoldable pub has_backend_set_changed : BackendSet → BackendSetDetails → Bool
has_backend_set_changed actual desired = not (is_empty (backend_set_changes actual desired))

-- The three action literals of getBackendSetChanges.
unfoldable pub delete_backend_set : BackendSet → BackendSetAction
delete_backend_set a = record {
  action_type = delete;
  name = a.name;
  backend_set = record {
    policy = a.policy;
    backends = backends_to_backend_details a.backends;
    health_checker = health_checker_to_details a.health_checker;
    session_persistence = a.session_persistence;
    ssl_configuration = ssl_configuration_to_details a.ssl_configuration;
  };
  ports = ports_from_backend_set a;
  old_ports = none;
}

unfoldable pub update_backend_set : Str → BackendSet → BackendSetDetails → BackendSetAction
update_backend_set name a d = record {
  action_type = update;
  name = name;
  backend_set = d;
  ports = ports_from_backend_set_details d;
  old_ports = some (ports_from_backend_set a);
}

unfoldable pub create_backend_set : Str → BackendSetDetails → BackendSetAction
create_backend_set name d = record {
  action_type = create;
  name = name;
  backend_set = d;
  ports = ports_from_backend_set_details d;
  old_ports = none;
}

-- The first loop: what exists and is no longer desired, or has changed.
unfoldable pub existing_backend_set_actions :
    Map BackendSetDetails → Map BackendSet → List BackendSetAction
existing_backend_set_actions desired [] = []
existing_backend_set_actions desired ((name, a) ∷ m) =
    let rest = existing_backend_set_actions desired m in
    elim (lookup name desired) [
      | none ↦ delete_backend_set a ∷ rest
      | some d ↦ if has_backend_set_changed a d then update_backend_set name a d ∷ rest else rest
    ]

-- The second loop: what is desired and does not exist.
unfoldable pub new_backend_set_actions :
    Map BackendSet → Map BackendSetDetails → List BackendSetAction
new_backend_set_actions actual [] = []
new_backend_set_actions actual ((name, d) ∷ m) =
    let rest = new_backend_set_actions actual m in
    if is_some (lookup name actual) then rest else create_backend_set name d ∷ rest

unfoldable pub get_backend_set_changes :
    Map BackendSet → Map BackendSetDetails → List BackendSetAction
get_backend_set_changes actual desired =
    existing_backend_set_actions desired actual ++ new_backend_set_actions actual desired
