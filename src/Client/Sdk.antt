-- ===== src/Client/Sdk.antt =====
-- The requests that the client makes of the SDK, and what answers: the SDK and the two rate
-- limiters, which may refuse after any requests made so far.
use oci_lb_ingress_controlle.Base.Effects.{Cloud, Run}
use oci_lb_ingress_controlle.LoadBalancer.Types.{
  BackendSetDetails, SslConfigurationDetails, ConnectionConfiguration,
}
use oci_lb_ingress_controlle.Manager.Model.{
  RoutingPolicy, RuleSet, HostnameDetails, Certificate, CertificateDetails, OciLoadBalancer,
  CreateDetails,
}
use oci_lb_ingress_controlle.Base.{
  ℤ, Str, text, Error, message, Result, err, stack, Bool, true, false, Option, List, [], ◌∷◌, ◌++◌,
}

-- What CreateBackendSet is sent: the details with the name.
pub record CreateBackendSetDetails : Type 0 where
  pub name : Str
  pub details : BackendSetDetails

-- What CreateListener is sent: it has no rule set names.
pub record CreateListenerDetails : Type 0 where
  pub name : Str
  pub default_backend_set_name : Str
  pub port : ℤ
  pub protocol : Option Str
  pub ssl_configuration : Option SslConfigurationDetails
  pub connection_configuration : Option ConnectionConfiguration
  pub hostname_names : List Str
  pub routing_policy_name : Option Str

pub record UpdateListenerDetails : Type 0 where
  pub default_backend_set_name : Str
  pub port : ℤ
  pub protocol : Option Str
  pub ssl_configuration : Option SslConfigurationDetails
  pub connection_configuration : Option ConnectionConfiguration
  pub hostname_names : List Str
  pub routing_policy_name : Option Str
  pub rule_set_names : List Str

-- The first text of a request is the identifier of the load balancer.
pub data SdkRequest : Type 0 where
  create_load_balancer_request : CreateDetails → SdkRequest
  get_load_balancer_request delete_load_balancer_request list_certificates_request
        get_work_request_request :
      Str → SdkRequest
  list_load_balancers_request : Str → Str → Option Str → SdkRequest
  create_certificate_request : Str → CertificateDetails → SdkRequest
  create_backend_set_request : Str → CreateBackendSetDetails → SdkRequest
  update_backend_set_request : Str → Str → BackendSetDetails → SdkRequest
  create_listener_request : Str → CreateListenerDetails → SdkRequest
  update_listener_request : Str → Str → UpdateListenerDetails → SdkRequest
  update_load_balancer_shape_request : Str → Str → Option (Option ℤ × Option ℤ) → SdkRequest
  update_network_security_groups_request : Str → List Str → SdkRequest
  create_routing_policy_request : Str → RoutingPolicy → SdkRequest
  update_routing_policy_request : Str → Str → RoutingPolicy → SdkRequest
  create_rule_set_request update_rule_set_request : Str → Str → RuleSet → SdkRequest
  create_hostname_request : Str → HostnameDetails → SdkRequest
  delete_backend_set_request delete_listener_request delete_routing_policy_request
        delete_rule_set_request delete_hostname_request delete_certificate_request :
      Str → Str → SdkRequest

pub record LoadBalancerPage : Type 0 where
  pub items : List OciLoadBalancer
  pub opc_next_page : Option Str

pub data LifecycleState : Type 0 where
  accepted in_progress succeeded failed : LifecycleState

pub record WorkRequest : Type 0 where
  pub lifecycle_state : LifecycleState
  pub error_message : Option Str
  pub load_balancer_id : Str

-- `work_request_id` answers every request that changes something.
pub record Sdk : Type 0 where
  pub reader_accepts : List SdkRequest → Bool
  pub writer_accepts : List SdkRequest → Bool
  pub work_request_id : Cloud SdkRequest
  pub load_balancer : List SdkRequest → Str → Result OciLoadBalancer
  pub load_balancers : List SdkRequest → Str → Str → Option Str → Result LoadBalancerPage
  pub certificates : List SdkRequest → Str → Result (List Certificate)
  pub work_request : List SdkRequest → Str → Result WorkRequest

unfoldable pub rate_limit_error : Error
rate_limit_error = message (text "rate limited for operation")

-- `if !limiter.TryAccept()`, the request, and errors.WithStack of its error
abbrev pub limited {ℓ} :
    {A : Type ℓ} → Bool → List SdkRequest → SdkRequest → Result A → List SdkRequest × Result A
limited true log request answer = (log ++ (request ∷ []), stack answer)
limited false log request answer = (log, err rate_limit_error)

abbrev pub read : {A : Type 0} → Sdk → (List SdkRequest → Result A) → SdkRequest → Run SdkRequest A
read sdk answer request = record {
  run = λ log. limited (sdk.reader_accepts log) log request (answer log);
}

abbrev pub write : Sdk → SdkRequest → Run SdkRequest Str
write sdk request = record {
  run = λ log. limited (sdk.writer_accepts log) log request (sdk.work_request_id log request);
}
