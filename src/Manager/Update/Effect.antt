-- ===== src/Manager/Update/Effect.antt =====
-- What the requests make of the things that the service holds for a load balancer: the service is
-- taken to do what each call asks for.
use oci_lb_ingress_controlle.Base.Sets.{has}
use oci_lb_ingress_controlle.Base.Maps.{Map, lookup, put, remove}
use oci_lb_ingress_controlle.Base.Shows.{seen}
use oci_lb_ingress_controlle.Manager.Model.{
  RoutingPolicy, RuleSet, HostnameDetails, CertificateDetails, Request, create_routing_policy,
  update_routing_policy, delete_routing_policy, create_rule_set, update_rule_set, delete_rule_set,
  create_hostname, delete_hostname, create_certificate, delete_certificate, create_load_balancer,
  delete_load_balancer, get_load_balancer, get_load_balancer_by_name, get_public_ip_by_ip_address,
  await_work_request, update_ingress_status, patch_lb_info, provider_request,
}
use oci_lb_ingress_controlle.Manager.Dispatch.Blocks.{calls_for}
use oci_lb_ingress_controlle.Manager.Update.Plan.{own_request}
use oci_lb_ingress_controlle.Base.{
  if◌then◌else◌, Bool-cases, Str, str_eq, str_eq_iff, ◌≡◌, refl, ap, ◌∙◌, inl, inr, ◌||◌, Option,
  List, [], ◌∷◌, ◌++◌, arith,
}

pub record Held : Type 0 where
  pub routing_policies : Map RoutingPolicy
  pub rule_sets : Map RuleSet
  pub hostnames : Map HostnameDetails
  pub certificates : Map CertificateDetails

unfoldable pub after_request : Request → Held → Held
after_request (create_routing_policy name p) h = record h {
  routing_policies = put name p h.routing_policies;
}
after_request (update_routing_policy name p) h = record h {
  routing_policies = put name p h.routing_policies;
}
after_request (delete_routing_policy name) h = record h {
  routing_policies = remove name h.routing_policies;
}
after_request (create_rule_set name r) h = record h { rule_sets = put name r h.rule_sets }
after_request (update_rule_set name r) h = record h { rule_sets = put name r h.rule_sets }
after_request (delete_rule_set name) h = record h { rule_sets = remove name h.rule_sets }
after_request (create_hostname d) h = record h { hostnames = put d.name d h.hostnames }
after_request (delete_hostname name) h = record h { hostnames = remove name h.hostnames }
after_request (create_certificate c) h = record h {
  certificates = put c.certificate.certificate_name c h.certificates;
}
after_request (delete_certificate name) h = record h { certificates = remove name h.certificates }
after_request _ h = h

unfoldable pub after_requests : List Request → Held → Held
after_requests [] h = h
after_requests (r ∷ rs) h = after_requests rs (after_request r h)

after_requests-append :
    (xs ys : List Request) (h : Held)
    → after_requests (xs ++ ys) h ≡ after_requests ys (after_requests xs h)
unfolding after_requests
after_requests-append [] ys h = refl
after_requests-append (x ∷ xs) ys h = after_requests-append xs ys (after_request x h)

-- What the plan leaves out of a call has no effect.
after_own_request : (r : Request) (h : Held) → after_requests (own_request r) h ≡ after_request r h
unfolding after_requests after_request own_request
after_own_request (create_routing_policy name p) h = refl
after_own_request (update_routing_policy name p) h = refl
after_own_request (delete_routing_policy name) h = refl
after_own_request (create_rule_set name r) h = refl
after_own_request (update_rule_set name r) h = refl
after_own_request (delete_rule_set name) h = refl
after_own_request (create_hostname d) h = refl
after_own_request (delete_hostname name) h = refl
after_own_request (create_certificate c) h = refl
after_own_request (delete_certificate name) h = refl
after_own_request (create_load_balancer d) h = refl
after_own_request (delete_load_balancer id) h = refl
after_own_request (get_load_balancer id) h = refl
after_own_request (get_load_balancer_by_name c n) h = refl
after_own_request (get_public_ip_by_ip_address ip) h = refl
after_own_request (await_work_request id) h = refl
after_own_request (update_ingress_status ip) h = refl
after_own_request (patch_lb_info s n b) h = refl
after_own_request (provider_request c) h = refl

pub after_requests-seen :
    (calls : List Request) (h : Held)
    → after_requests (seen own_request calls) h ≡ after_requests calls h
unfolding after_requests seen
after_requests-seen [] h = refl
after_requests-seen (c ∷ cs) h =
    after_requests-append (own_request c) (seen own_request cs) h
    ∙ (ap (after_requests (seen own_request cs)) (after_own_request c h)
        ∙ after_requests-seen cs (after_request c h))

-- What calls make of the entry of `k` in one of the maps.
module _ {V : Type 0} (part : Held → Map V) (k : Str) where
  abbrev pub Effect : List Request → (Option V → Option V) → Type 0
  Effect calls f = (h : Held) → lookup k (part (after_requests calls h)) ≡ f (lookup k (part h))

  pub Effect-append :
      (xs ys : List Request) (f g : Option V → Option V)
      → Effect xs f
      → Effect ys g
      → Effect (xs ++ ys) (λ o. g (f o))
  Effect-append xs ys f g ef eg h =
      ap (λ l. lookup k (part l)) (after_requests-append xs ys h)
      ∙ (eg (after_requests xs h) ∙ ap g (ef h))

  pub Effect-none :
      (calls : Str → List Request)
      → ((name : Str) → Effect (calls name) (λ o. o))
      → (names : List Str) → Effect (calls_for calls names) (λ o. o)
  unfolding calls_for after_requests
  Effect-none calls e [] h = refl
  Effect-none calls e (name ∷ names) h =
      Effect-append (calls name) (calls_for calls names) (λ o. o) (λ o. o) (e name)
        (Effect-none calls e names) h

  -- One entry for each name, which is `v k` where `k` is among them.
  pub Effect-each :
      (calls : Str → List Request) (v : Str → Option V)
      → ((name : Str) → Effect (calls name) (λ o. if str_eq name k then v name else o))
      → (names : List Str) → Effect (calls_for calls names) (λ o. if has k names then v k else o)
  unfolding calls_for after_requests has
  Effect-each calls v e [] h = refl
  Effect-each calls v e (name ∷ names) h =
      Effect-append (calls name) (calls_for calls names) (λ o. if str_eq name k then v name else o)
        (λ o. if has k names then v k else o) (e name) (Effect-each calls v e names) h
      ∙ either (lookup k (part h))
    where
      either :
          (o : Option V)
          → (if has k names then v k else (if str_eq name k then v name else o))
            ≡ (if str_eq k name || has k names then v k else o)
      either o = elim (Bool-cases (str_eq name k)) [
        | inl s ↦
            ground
              (arith, str_eq_iff k name, ap v ((str_eq_iff name k).0 s), (str_eq_iff name k).0 s)
        | inr s ↦ ground (arith, str_eq_iff k name, str_eq_iff name k)
      ]
