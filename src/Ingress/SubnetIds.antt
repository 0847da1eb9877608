-- ===== src/Ingress/SubnetIds.antt =====
-- The subnets of a load balancer: getLoadBalancerSubnetIds and tryFindLoadbalancerSubnet of
-- src/ingress/spec.go, and GetSubnetIds of src/configholder. The metadata service and the clients
-- of the compute and network services are what they answer.
use oci_lb_ingress_controlle.Base.Maps.{Map}
use oci_lb_ingress_controlle.Ingress.Annotations.{get_annotation}
use oci_lb_ingress_controlle.Manager.Model.{panics}
use oci_lb_ingress_controlle.Base.{
  ◌==◌, if◌then◌else◌, is_empty, filter, Str, text, trim_space, message, wrap, Result, ok, err,
  ◌>>=◌, Bool, not, Option, none, some, List, [], ◌∷◌, map,
}

pub record VcnSubnet : Type 0 where
  pub id : Str
  pub vcn_id : Str
  pub prohibit_public_ip_on_vnic : Bool

pub record InstanceMetadata : Type 0 where
  pub compartment_id : Str
  pub id : Str

-- `get_primary_vnic_subnet` is the subnet of the VNIC that GetPrimaryVNICForInstance answers.
pub record Discovery : Type 0 where
  pub metadata : Result InstanceMetadata
  pub get_primary_vnic_subnet : Str → Str → Result Str
  pub get_subnet : Str → Result VcnSubnet
  pub list_subnets : Str → Str → Result (List VcnSubnet)

-- The configuration's LoadBalancer section, if any, and DefaultLoadBalancerSubnetIds
pub record SubnetConfig : Type 0 where
  pub load_balancer : Option (Str × Str)
  pub default_subnet_ids : Str

abbrev present : List Str → List Str
present ids = filter (λ s. not (is_empty s)) ids

-- strings.SplitN at a one-byte separator, into two fields at most
split_n_two : Str → Str × List Str
split_n_two [] = ([], [])
split_n_two (c ∷ s) =
    let (field, others) = split_n_two s in if c == b',' then ([], s ∷ []) else (c ∷ field, others)

abbrev two_fields : Str → List Str
two_fields s = let (field, others) = split_n_two s in field ∷ others

unfoldable pub config_subnet_ids : SubnetConfig → List Str
unfolding split_n_two
config_subnet_ids config = elim config.load_balancer [
  | some (subnet1, subnet2) ↦ present (subnet1 ∷ subnet2 ∷ [])
  | none ↦
      if is_empty config.default_subnet_ids
      then []
      else present (map trim_space (two_fields config.default_subnet_ids))
]

-- The first subnet that admits public addresses
unfoldable pub first_public : List VcnSubnet → Option Str
first_public [] = none
first_public (s ∷ subnets) =
    let rest = first_public subnets in if s.prohibit_public_ip_on_vnic then rest else some s.id

-- The answer of ListSubnets: its error is looked at after the loop, over no subnets then.
abbrev choose : Str → Result (List VcnSubnet) → Result Str
choose instance_subnet (err e) = err e
choose instance_subnet (ok subnets) = elim (first_public subnets) [
  | some id ↦ ok id
  | none ↦ ok instance_subnet
]

-- The answer of GetSubnet is dereferenced before its error is looked at. The variable that the
-- discovered subnet would be kept in is never set.
abbrev in_vcn : Discovery → Str → Str → Result VcnSubnet → Result Str
in_vcn d compartment instance_subnet (err e) =
    err (panics (text "invalid memory address or nil pointer dereference"))
in_vcn d compartment instance_subnet (ok s) =
    choose instance_subnet (d.list_subnets compartment s.vcn_id)

unfoldable pub try_find_loadbalancer_subnet : Discovery → Result Str
try_find_loadbalancer_subnet d = do
  meta ← d.metadata
  subnet ← d.get_primary_vnic_subnet meta.compartment_id meta.id
  in_vcn d meta.compartment_id subnet (d.get_subnet subnet)

unfoldable pub annotated_subnet_ids : Map Str → List Str
annotated_subnet_ids annotations = present (
    get_annotation annotations (text "oci-load-balancer-subnet1")
    ∷ get_annotation annotations (text "oci-load-balancer-subnet2")
    ∷ [])

abbrev discovered_ids : Str → Result (List Str)
discovered_ids id =
    if is_empty id then err (message (text "Could not get subnetIds")) else ok (id ∷ [])

unfoldable pub get_load_balancer_subnet_ids : SubnetConfig → Discovery → Map Str → Result (List Str)
get_load_balancer_subnet_ids config discovery annotations =
    if not (is_empty (annotated_subnet_ids annotations))
    then ok (annotated_subnet_ids annotations)
    else if not (is_empty (config_subnet_ids config))
    then ok (config_subnet_ids config)
    else wrap (try_find_loadbalancer_subnet discovery) >>= discovered_ids
