-- ===== src/Ingress/Spec/Created.antt =====
-- The request that creates a load balancer (createLoadBalancer of src/manager), for a specification
-- that NewIngressLBSpec makes.
use mathlib.Core.Path.{subst}
use oci_lb_ingress_controlle.Base.Maps.{lookup, has_key, some_inj}
use oci_lb_ingress_controlle.Ingress.Backends.{ServiceObject}
use oci_lb_ingress_controlle.Ingress.Listeners.{https_redirector}
use oci_lb_ingress_controlle.Ingress.Spec.Build.{new_ingress_lb_spec}
use oci_lb_ingress_controlle.Ingress.Spec.Closed.{IsListenerClosed, listener_is_closed}
use oci_lb_ingress_controlle.Ingress.Spec.Draft.{IngressObject, Surroundings}
use oci_lb_ingress_controlle.Ingress.Spec.Invariant.{certificate_of, Named, AllNamed}
use oci_lb_ingress_controlle.LoadBalancer.Types.{ListenerDetails}
use oci_lb_ingress_controlle.Manager.Model.{CreateDetails, IngressLbSpec}
use oci_lb_ingress_controlle.Manager.Operations.{create_details}
use oci_lb_ingress_controlle.Manager.Operations.Laws.{
  without_policy, lookup-without_routing_policies,
}
use oci_lb_ingress_controlle.Base.{
  Str, str_eq, ok, ◌≡◌, refl, sym, ◌∙◌, ◌⊎◌, true, Option, none, some, List, arith,
}

-- A listener of a request names nothing outside of the request.
pub record IsSelfContained (request : CreateDetails) (name : Str) (l : ListenerDetails)
    : Type 0 where
  pub backend_set : has_key l.default_backend_set_name request.backend_sets ≡ true
  pub certificate : Named request.certificates (certificate_of l.ssl_configuration)
  pub rule_sets : AllNamed request.rule_sets l.rule_set_names
  pub hostnames :
      (str_eq name https_redirector ≡ true) ⊎ AllNamed request.hostnames l.hostname_names
  pub no_policy : l.routing_policy_name ≡ none

module _ (compartment_id : Str) (reserved_ips : List Str) (s : IngressLbSpec) (name : Str) where
  created_closed :
      (l : ListenerDetails)
      → IsListenerClosed s name l
      → IsSelfContained
          (create_details compartment_id s reserved_ips)
          name
          (record l { routing_policy_name = none })
  unfolding create_details
  created_closed l h = record {
    backend_set = h.backend_set;
    certificate = h.certificate;
    rule_sets = h.rule_sets;
    hostnames = h.hostnames;
    no_policy = refl;
  }

  created_entry :
      (o : Option ListenerDetails) (l : ListenerDetails)
      → lookup name s.spec.listeners ≡ o
      → without_policy o ≡ some l
      → (k : ListenerDetails) × (lookup name s.spec.listeners ≡ some k)
        × (record k { routing_policy_name = none } ≡ l)
  created_entry none l found e = absurd (ground arith)
  created_entry (some k) l found e = (k, found, some_inj e)

module _ (around : Surroundings) (ing : IngressObject)
    (named_as_asked : (ns name : Str) (svc : ServiceObject)
      → around.get_service ns name ≡ ok svc
      → svc.name ≡ name) where
  -- Where a specification is made, and the cluster answers a service of the name it is asked for:
  -- each listener of the request that creates the load balancer has no routing policy, and its
  -- default backend set, certificate and rule sets are in the request, and so are its hostnames, but
  -- for the listener that redirects to HTTPS.
  pub created_listener-IsSelfContained :
      (s : IngressLbSpec) (compartment_id : Str) (reserved_ips : List Str) (name : Str)
      (l : ListenerDetails)
      → new_ingress_lb_spec around ing ≡ ok s
      → lookup name (create_details compartment_id s reserved_ips).listeners ≡ some l
      → IsSelfContained (create_details compartment_id s reserved_ips) name l
  unfolding create_details
  created_listener-IsSelfContained s compartment_id reserved_ips name l made e =
      let (k, found, same) =
        created_entry compartment_id reserved_ips s name (lookup name s.spec.listeners) l refl
          (sym (lookup-without_routing_policies name s.spec.listeners) ∙ e) in
      subst (IsSelfContained (create_details compartment_id s reserved_ips) name) same (
        created_closed compartment_id reserved_ips s name k
          (listener_is_closed around ing named_as_asked s name k made found))
