-- ===== src/Manager/Update.antt =====
-- The manager's updateLoadBalancer, awaitRequest and the four functions that queue actions.
pub mod Plan
pub mod Blocks
pub mod Carried
pub mod Effect
pub mod Reach
pub mod Success
use oci_lb_ingress_controlle.Base.Maps.{Map, lookup}
use oci_lb_ingress_controlle.Base.Effects.{
  Run, returns, lift, wrapping, perform, embed, ignoring_error, reads, tries, ◌>>=◌, ◌>>◌,
}
use oci_lb_ingress_controlle.Provider.State.{Call}
use oci_lb_ingress_controlle.Provider.Update
use oci_lb_ingress_controlle.Manager.Model.{
  RoutingPolicy, RuleSet, HostnameDetails, Certificate, CertificateDetails, OciLoadBalancer,
  IngressLbSpec, Request, create_routing_policy, update_routing_policy, delete_routing_policy,
  create_rule_set, update_rule_set, delete_rule_set, create_hostname, delete_hostname,
  create_certificate, delete_certificate, get_load_balancer, await_work_request, patch_lb_info,
  provider_request, World, panics, noted, policy_eq, items_eq,
}
use oci_lb_ingress_controlle.Manager.Compare.{map_compare}
use oci_lb_ingress_controlle.Manager.Dispatch.{
  create_action, update_action, delete_action, Action, add_func, run_verb,
}
use oci_lb_ingress_controlle.Base.{
  if◌then◌else◌, is_empty, Str, text, str_eq, Result, ok, err, Bool, true, false, not, ◌&&◌, Option,
  none, some, List, [], ◌∷◌, ◌++◌, map,
}

abbrev pub or_zero : {V : Type 0} → V → Option V → V
or_zero zero_value none = zero_value
or_zero zero_value (some v) = v

abbrev pub no_policy : RoutingPolicy
no_policy = record { name = []; condition_language_version = []; rules = [] }

abbrev pub no_rule_set : RuleSet
no_rule_set = record { items = [] }

abbrev pub no_hostname : HostnameDetails
no_hostname = record { name = []; hostname = [] }

abbrev pub no_certificate : CertificateDetails
no_certificate = record {
  certificate = record { certificate_name = []; public_certificate = []; ca_certificate = none };
  private_key = [];
}

abbrev pub routingpolicy : Str
routingpolicy = text "routingpolicy"

abbrev pub rule_set : Str
rule_set = text "ruleSet"

abbrev pub hostname : Str
hostname = text "hostname"

abbrev pub certificate : Str
certificate = text "certificate"

-- The names are those of `required` policies, of the loop's copy of the specification.
abbrev pub required_policy : IngressLbSpec → Str → RoutingPolicy
required_policy spec name = or_zero no_policy (lookup name spec.routing_policies)

abbrev pub required_rule_set : IngressLbSpec → Str → RuleSet
required_rule_set spec name = or_zero no_rule_set (lookup name spec.rule_sets)

abbrev pub required_hostname : IngressLbSpec → Str → HostnameDetails
required_hostname spec name = or_zero no_hostname (lookup name spec.hostname_details)

abbrev pub required_certificate : IngressLbSpec → Str → CertificateDetails
required_certificate spec name = or_zero no_certificate (lookup name spec.certificates)

-- The details of a new policy carry its key as their name; an update keeps the name.
abbrev pub named_policy : Str → RoutingPolicy → RoutingPolicy
named_policy name policy = record policy { name = name }

-- reflect.DeepEqual of two pointers to texts
abbrev pub same_optional : Option Str → Option Str → Bool
same_optional none none = true
same_optional none (some t) = false
same_optional (some s) none = false
same_optional (some s) (some t) = str_eq s t

-- StructsAreEqualForKeys on the two public fields of a certificate
abbrev pub same_certificate : CertificateDetails → Certificate → Bool
same_certificate wanted held =
    str_eq wanted.certificate.public_certificate held.public_certificate
    && same_optional wanted.certificate.ca_certificate held.ca_certificate

-- The actions queued already, before those that are queued next.
abbrev pub before : List Action → Result (List Action) → Result (List Action)
before actions (ok more) = ok (actions ++ more)
before actions (err e) = err e

module _ (world : World) where
  -- awaitRequest; `patch` is the closure that is called on success.
  unfoldable pub await_request : Request → Request → Run Request (Unit {0})
  await_request request patch = do
    work_request_id ← wrapping (perform world.cloud request)
    awaited ← wrapping (perform world.cloud (await_work_request work_request_id))
    noted patch

  unfoldable pub enqueue_routing_policies_actions : OciLoadBalancer → IngressLbSpec → List Action
  enqueue_routing_policies_actions lb spec =
      let compared = map_compare (some policy_eq) spec.routing_policies lb.routing_policies in
      map
        (λ name. add_func create_action routingpolicy (
          await_request (create_routing_policy name (named_policy name (required_policy spec name)))
            (patch_lb_info routingpolicy name true)))
        compared.extra
      ++ (map
            (λ name. add_func update_action routingpolicy (
              await_request (update_routing_policy name (required_policy spec name))
                (patch_lb_info routingpolicy name true)))
            compared.intersection
          ++ map
              (λ name. add_func delete_action routingpolicy (
                await_request (delete_routing_policy name)
                  (patch_lb_info routingpolicy name false)))
              compared.missing)

  unfoldable pub enqueue_rule_sets_actions : OciLoadBalancer → IngressLbSpec → List Action
  enqueue_rule_sets_actions lb spec =
      let compared = map_compare (some items_eq) spec.rule_sets lb.rule_sets in
      map
        (λ name. add_func create_action rule_set (
          await_request (create_rule_set name (required_rule_set spec name))
            (patch_lb_info rule_set name true)))
        compared.extra
      ++ (map
            (λ name. add_func update_action rule_set (
              await_request (update_rule_set name (required_rule_set spec name))
                (patch_lb_info rule_set name true)))
            compared.intersection
          ++ map
              (λ name.
                add_func delete_action rule_set
                  (await_request (delete_rule_set name) (patch_lb_info rule_set name false)))
              compared.missing)

  unfoldable pub enqueue_hostname_actions : OciLoadBalancer → IngressLbSpec → List Action
  enqueue_hostname_actions lb spec =
      let compared = map_compare none spec.hostname_details lb.hostnames in
      map
        (λ name. add_func create_action hostname (
          await_request (create_hostname (required_hostname spec name))
            (patch_lb_info hostname name true)))
        compared.extra
      ++ map
          (λ name.
            add_func delete_action hostname
              (await_request (delete_hostname name) (patch_lb_info hostname name false)))
          compared.missing

  unfoldable pub enqueue_certificate_actions :
      OciLoadBalancer → IngressLbSpec → Result (List Action)
  enqueue_certificate_actions lb spec =
      let compared = map_compare (some same_certificate) spec.certificates lb.certificates in
      if not (is_empty compared.intersection)
      then err (panics (text "Update to existing certificate is not possible"))
      else ok (
          map
            (λ name. add_func create_action certificate (
              await_request (create_certificate (required_certificate spec name))
                (patch_lb_info certificate name true)))
            compared.extra
          ++ map
              (λ name.
                add_func delete_action certificate
                  (await_request (delete_certificate name) (patch_lb_info certificate name false)))
              compared.missing)

  -- The four functions, one after another; the last one may panic.
  unfoldable pub enqueued : OciLoadBalancer → IngressLbSpec → Result (List Action)
  enqueued lb spec = before (enqueue_routing_policies_actions lb spec) (
      before (enqueue_rule_sets_actions lb spec)
        (before (enqueue_hostname_actions lb spec) (enqueue_certificate_actions lb spec)))

  -- dummyCp.UpdateLoadBalancer, which dereferences the load balancer first.
  unfoldable pub update_by_provider :
      Option OciLoadBalancer → IngressLbSpec → Run Request (Unit {0})
  update_by_provider none spec = lift (err (panics (text "nil pointer dereference")))
  update_by_provider (some lb) spec =
      embed provider_request world.cloud
        (λ cloud. Update.update_load_balancer cloud world.network lb.balancer spec.spec)

  abbrev pub read_load_balancer : Str → Run Request OciLoadBalancer
  read_load_balancer id = reads (λ log. world.load_balancer log id) (get_load_balancer id)

  -- `none` is the nil load balancer, of a read whose error is dropped.
  unfoldable pub update_load_balancer :
      OciLoadBalancer → IngressLbSpec → Run Request (Option OciLoadBalancer)
  update_load_balancer lb spec = do
    actions ← lift (enqueued lb spec)
    ignoring_error (update_by_provider (some lb) spec)
    reread ← tries (read_load_balancer lb.balancer.id)
    run_verb create_action [] actions
    run_verb update_action (routingpolicy ∷ []) actions
    update_by_provider reread spec
    run_verb update_action [] actions
    run_verb delete_action [] actions
    returns reread
