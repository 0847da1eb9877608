-- ===== src/SecurityLists/Services.antt =====
-- Whether another service uses a port: src/helpers/api.go and the end of
-- load_balancer_security_lists.go. The service lister is its answer: an error or the services.
use oci_lb_ingress_controlle.Base.{
  ltb, if◌then◌else◌, int_eq, ℤ, pos, negsuc, is_empty, any, Str, text, ◌>>=◌, Result, ok, ℕ, ◌-◌,
  ◌%◌, ◌^◌, Bool, true, false, not, ◌&&◌, ◌||◌, List, [], ◌∷◌,
}

pub data ServiceType : Type 0 where
  cluster_ip node_port load_balancer external_name : ServiceType

pub data ExternalTrafficPolicy : Type 0 where
  unset cluster local : ExternalTrafficPolicy

pub record Service : Type 0 where
  pub type : ServiceType
  pub external_traffic_policy : ExternalTrafficPolicy
  pub health_check_node_port : ℤ
  pub ports : List ℤ

abbrev is_load_balancer : ServiceType → Bool
is_load_balancer load_balancer = true
is_load_balancer _ = false

abbrev is_node_port : ServiceType → Bool
is_node_port node_port = true
is_node_port _ = false

abbrev is_local : ExternalTrafficPolicy → Bool
is_local local = true
is_local _ = false

requests_only_local_traffic : Service → Bool
requests_only_local_traffic s =
    if not (is_load_balancer s.type) && not (is_node_port s.type)
    then false
    else is_local s.external_traffic_policy

needs_health_check : Service → Bool
unfolding requests_only_local_traffic
needs_health_check s =
    if not (is_load_balancer s.type) then false else requests_only_local_traffic s

-- The path and port of the health check, empty and 0 for a service that has none of its own.
unfoldable pub get_service_health_check_path_port : Service → Str × ℤ
unfolding needs_health_check
get_service_health_check_path_port s =
    if not (needs_health_check s)
    then ([], pos 0)
    else if int_eq s.health_check_node_port (pos 0)
    then ([], pos 0)
    else (text "/healthz", s.health_check_node_port)

abbrev two_31 : ℕ
two_31 = 2 ^ 31

abbrev two_32 : ℕ
two_32 = 2 ^ 32

-- int32(i): the low 32 bits, read as a signed number.
unfoldable pub int32 : ℤ → ℤ
int32 (pos n) = let m = n % two_32 in if ltb m two_31 then pos m else negsuc (two_32 - 1 - m)
int32 (negsuc n) = let m = n % two_32 in if ltb m two_31 then negsuc m else pos (two_32 - 1 - m)

unfoldable pub lb_nodes_health_check_port : ℤ
lb_nodes_health_check_port = pos 10256

uses_port : ℤ → List Service → Bool
uses_port port [] = false
uses_port port (s ∷ rest) =
    (is_load_balancer s.type && any (λ p. int_eq p port) s.ports) || uses_port port rest

unfoldable pub port_in_use : Result (List Service) → ℤ → Result Bool
unfolding uses_port
port_in_use services port = do list ← services; ok (uses_port port list)

uses_default_check : List Service → Bool
uses_default_check [] = false
uses_default_check (s ∷ rest) =
    (is_load_balancer s.type && is_empty (get_service_health_check_path_port s).0)
    || uses_default_check rest

unfoldable pub health_check_port_in_use : Result (List Service) → ℤ → Result Bool
unfolding uses_default_check lb_nodes_health_check_port
health_check_port_in_use services port =
    if not (int_eq port lb_nodes_health_check_port)
    then ok false
    else do list ← services; ok (uses_default_check list)
