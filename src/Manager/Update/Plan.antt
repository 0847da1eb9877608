-- ===== src/Manager/Update/Plan.antt =====
-- The plan that an update of a load balancer carries out, of all calls but the provider's.
use oci_lb_ingress_controlle.Manager.Model.{
  OciLoadBalancer, IngressLbSpec, Request, create_routing_policy, update_routing_policy,
  delete_routing_policy, create_rule_set, update_rule_set, delete_rule_set, create_hostname,
  delete_hostname, create_certificate, delete_certificate, get_load_balancer, await_work_request,
  patch_lb_info, provider_request, policy_eq, items_eq,
}
use oci_lb_ingress_controlle.Manager.Compare.{map_compare}
use oci_lb_ingress_controlle.Manager.Dispatch.{
  ActionVerb, create_action, update_action, delete_action,
}
use oci_lb_ingress_controlle.Manager.Dispatch.Blocks.{calls_for}
use oci_lb_ingress_controlle.Manager.Update.{
  routingpolicy, rule_set, hostname, certificate, named_policy, required_policy, required_rule_set,
  required_hostname, required_certificate, same_certificate,
}
use oci_lb_ingress_controlle.Base.{true, false, none, some, List, [], ◌∷◌, ◌++◌}

-- A call as the plan names it: a wait for some work request, and no call of the provider.
unfoldable pub own_request : Request → List Request
own_request (await_work_request id) = await_work_request [] ∷ []
own_request (provider_request c) = []
own_request r = r ∷ []

-- What each action does: its request, the wait, and the change in memory.
abbrev pub action_calls : Request → Request → List Request
action_calls request patch = request ∷ await_work_request [] ∷ patch ∷ []

abbrev pub by_verb : ActionVerb → List Request → List Request → List Request → List Request
by_verb create_action created updated deleted = created
by_verb update_action created updated deleted = updated
by_verb delete_action created updated deleted = deleted

module _ (lb : OciLoadBalancer) (spec : IngressLbSpec) where
  unfoldable pub routing_policy_calls : ActionVerb → List Request
  routing_policy_calls verb =
      let compared = map_compare (some policy_eq) spec.routing_policies lb.routing_policies in
      by_verb verb
        (calls_for
          (λ name.
            action_calls
              (create_routing_policy name (named_policy name (required_policy spec name)))
              (patch_lb_info routingpolicy name true))
          compared.extra)
        (calls_for
          (λ name.
            action_calls (update_routing_policy name (required_policy spec name))
              (patch_lb_info routingpolicy name true))
          compared.intersection)
        (calls_for
          (λ name.
            action_calls (delete_routing_policy name) (patch_lb_info routingpolicy name false))
          compared.missing)

  unfoldable pub rule_set_calls : ActionVerb → List Request
  rule_set_calls verb =
      let compared = map_compare (some items_eq) spec.rule_sets lb.rule_sets in
      by_verb verb
        (calls_for
          (λ name.
            action_calls (create_rule_set name (required_rule_set spec name))
              (patch_lb_info rule_set name true))
          compared.extra)
        (calls_for
          (λ name.
            action_calls (update_rule_set name (required_rule_set spec name))
              (patch_lb_info rule_set name true))
          compared.intersection)
        (calls_for (λ name. action_calls (delete_rule_set name) (patch_lb_info rule_set name false))
          compared.missing)

  unfoldable pub hostname_calls : ActionVerb → List Request
  hostname_calls verb =
      let compared = map_compare none spec.hostname_details lb.hostnames in
      by_verb verb
        (calls_for
          (λ name.
            action_calls (create_hostname (required_hostname spec name))
              (patch_lb_info hostname name true))
          compared.extra)
        []
        (calls_for (λ name. action_calls (delete_hostname name) (patch_lb_info hostname name false))
          compared.missing)

  unfoldable pub certificate_calls : ActionVerb → List Request
  certificate_calls verb =
      let compared = map_compare (some same_certificate) spec.certificates lb.certificates in
      by_verb verb
        (calls_for
          (λ name.
            action_calls (create_certificate (required_certificate spec name))
              (patch_lb_info certificate name true))
          compared.extra)
        []
        (calls_for
          (λ name. action_calls (delete_certificate name) (patch_lb_info certificate name false))
          compared.missing)

  -- The calls of one verb, subject after subject.
  unfoldable pub phase : ActionVerb → List Request
  phase verb =
      routing_policy_calls verb
      ++ (rule_set_calls verb ++ (hostname_calls verb ++ (certificate_calls verb ++ [])))

  -- The load balancer is read again, then comes what is new, what has changed, where the routing
  -- policies come twice, and at last what is to go.
  unfoldable pub update_plan : List Request
  update_plan =
      (get_load_balancer lb.balancer.id ∷ [])
      ++ (phase create_action
          ++ (routing_policy_calls update_action ++ (phase update_action ++ phase delete_action)))
