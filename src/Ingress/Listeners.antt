-- ===== src/Ingress/Listeners.antt =====
-- The listeners that src/ingress/helpers.go makes, and their rule set.
use oci_lb_ingress_controlle.Ingress.Names.{get_listener_name}
use oci_lb_ingress_controlle.LoadBalancer.Types.{ListenerDetails, SslConfigurationDetails}
use oci_lb_ingress_controlle.Manager.Model.{RuleSet, HostnameDetails}
use oci_lb_ingress_controlle.Base.{
  ℤ, pos, Str, text, Result, ok, ◌>>=◌, Option, none, some, List, [], ◌∷◌,
}

abbrev pub dummy_backend_set_name : Str
dummy_backend_set_name = text "dummy"

abbrev pub https_redirector : Str
https_redirector = text "http-to-https-redirector"

abbrev or_default_suite : Option Str → Option Str
or_default_suite none = some (text "oci-default-http2-ssl-cipher-suite-v1")
or_default_suite (some suite) = some suite

abbrev with_suite : SslConfigurationDetails → SslConfigurationDetails
with_suite ssl = record ssl { cipher_suite_name = or_default_suite ssl.cipher_suite_name }

abbrev ssl_with_suite : Option SslConfigurationDetails → Option SslConfigurationDetails
ssl_with_suite none = none
ssl_with_suite (some ssl) = some (with_suite ssl)

abbrev ssl_protocol : Option SslConfigurationDetails → Str
ssl_protocol none = text "HTTP"
ssl_protocol (some ssl) = text "HTTP2"

abbrev ssl_port : Option SslConfigurationDetails → ℤ
ssl_port none = pos 80
ssl_port (some ssl) = pos 443

abbrev hostname_of : Option HostnameDetails → Str
hostname_of none = []
hostname_of (some h) = h.hostname

abbrev pub names_of : Option HostnameDetails → List Str
names_of none = []
names_of (some h) = h.name ∷ []

abbrev plain_listener : Str → List Str → List Str → ListenerDetails
plain_listener backend_set hostnames rule_sets = record {
  default_backend_set_name = backend_set;
  port = pos 80;
  protocol = some (text "HTTP");
  hostname_names = hostnames;
  ssl_configuration = none;
  connection_configuration = none;
  routing_policy_name = none;
  rule_set_names = rule_sets;
}

unfoldable pub listener_for :
    Option HostnameDetails → Option SslConfigurationDetails → ListenerDetails
listener_for hostname ssl = record {
  default_backend_set_name = dummy_backend_set_name;
  port = ssl_port ssl;
  protocol = some (ssl_protocol ssl);
  hostname_names = names_of hostname;
  ssl_configuration = ssl_with_suite ssl;
  connection_configuration = none;
  routing_policy_name = none;
  rule_set_names = [];
}

unfoldable pub create_listener_details :
    (Str → Str)
    → Option HostnameDetails
    → Option SslConfigurationDetails
    → Result (Str × ListenerDetails)
create_listener_details base64_md5 hostname ssl = do
  name ← get_listener_name base64_md5 (hostname_of hostname)
  ok (name, listener_for hostname ssl)

abbrev pub https_redirection : Str
https_redirection = text "https_redirection"

-- The one rule: every path is redirected to HTTPS with the status 308.
unfoldable pub https_redirect_rule_set : RuleSet
https_redirect_rule_set = record {
  items =
      text "redirect of paths with the prefix / to https://{host}:443/{path}?{query} with 308" ∷ [];
}

unfoldable pub https_redirect_listener : List Str → ListenerDetails
https_redirect_listener hostname_names =
    plain_listener dummy_backend_set_name hostname_names (https_redirection ∷ [])

unfoldable pub create_default_backend_listener_details : Str → Str × ListenerDetails
create_default_backend_listener_details backend_set =
    (text "DefaultBackend-http", plain_listener backend_set [] [])

unfoldable pub create_sans_virtual_host_listener_details : Str × ListenerDetails
create_sans_virtual_host_listener_details =
    (text "Sans-VirtualHost-HTTP", plain_listener dummy_backend_set_name [] [])
