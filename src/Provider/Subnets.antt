-- ===== src/Provider/Subnets.antt =====
-- getSubnets, getSubnetsForNodes and the helpers of util.go that they use. The clients of the
-- network and compute services are the record Network, of what they answer. An error message is its
-- format without the arguments.
pub mod Unique
pub mod Tests
use oci_lb_ingress_controlle.Base.Sets.{has, insert, of_list}
use oci_lb_ingress_controlle.Base.Maps.{Map, lookup}
use oci_lb_ingress_controlle.Base.{
  if◌then◌else◌, is_empty, Str, text, trim_prefix, ◌>>=◌, ◌>>◌, wrap, message, Result, ok, err,
  Bool, true, false, not, ◌&&◌, Option, none, some, List, [], ◌∷◌, ◌++◌, map,
}

pub record Subnet : Type 0 where
  pub id : Str
  pub cidr_block : Str
  pub security_list_ids : List Str

pub record Vnic : Type 0 where
  pub private_ip : Option Str
  pub subnet_id : Str

pub data NodeAddressType : Type 0 where
  node_internal_ip other_address : NodeAddressType

pub record NodeAddress : Type 0 where
  pub type : NodeAddressType
  pub address : Str

pub record Node : Type 0 where
  pub name : Str
  pub provider_id : Str
  pub annotations : Map Str
  pub addresses : List NodeAddress

pub record Network : Type 0 where
  pub get_subnet : Str → Result Subnet
  pub get_subnet_from_cache_by_ip : Str → Result (Option Subnet)
  pub get_primary_vnic_for_instance : Str → Str → Result Vnic

-- MapProviderIDToInstanceID
unfoldable pub map_provider_id_to_instance_id : Str → Result Str
map_provider_id_to_instance_id id =
    if is_empty id
    then err (message (text "provider ID is empty"))
    else ok (trim_prefix id (text "oci://"))

abbrev is_internal : NodeAddressType → Bool
is_internal node_internal_ip = true
is_internal other_address = false

-- The loop of NodeInternalIP
unfoldable pub first_internal : List NodeAddress → Str
first_internal [] = []
first_internal (a ∷ as') =
    let rest = first_internal as' in if is_internal a.type then a.address else rest

unfoldable pub node_internal_ip_of : Node → Str
node_internal_ip_of node = first_internal node.addresses

unfoldable pub get_subnets : Network → List Str → Result (List Subnet)
get_subnets net [] = ok []
get_subnets net (id ∷ ids) = do
  subnet ← net.get_subnet id
  rest ← get_subnets net ids
  ok (subnet ∷ rest)

-- The set of identifiers seen, and the subnets gathered.
pub record Gathered : Type 0 where
  pub subnet_ocids : List Str
  pub subnets : List Subnet

unfoldable pub gather : Str → Subnet → Gathered → Gathered
gather id s g = record { subnet_ocids = insert id g.subnet_ocids; subnets = g.subnets ++ (s ∷ []) }

abbrev pub private_ip_in : List Str → Option Str → Bool
private_ip_in ip_set none = false
private_ip_in ip_set (some ip) = has ip ip_set

-- The part of the loop after a miss: the subnet of the instance's primary VNIC.
unfoldable pub gather_by_vnic : Network → List Str → Vnic → Gathered → Result Gathered
gather_by_vnic net ip_set vnic g =
    if private_ip_in ip_set vnic.private_ip && not (has vnic.subnet_id g.subnet_ocids)
    then (wrap (net.get_subnet vnic.subnet_id) >>= λ s. ok (gather vnic.subnet_id s g))
    else ok g

abbrev pub compartment_id_annotation : Str
compartment_id_annotation = text "oci.oraclecloud.com/compartment-id"

unfoldable pub compartment_of : Node → Result Str
compartment_of node = elim (lookup compartment_id_annotation node.annotations) [
  | none ↦ err (message (text "annotation not present on node"))
  | some c ↦ ok c
]

unfoldable pub gather_by_instance : Network → List Str → Node → Gathered → Result Gathered
gather_by_instance net ip_set node g =
    if is_empty node.provider_id
    then err (message (text ".spec.providerID was not present on node"))
    else do
      id ← wrap (map_provider_id_to_instance_id node.provider_id)
      compartment_id ← compartment_of node
      vnic ← net.get_primary_vnic_for_instance compartment_id id
      gather_by_vnic net ip_set vnic g

-- A hit in the cache, or a miss
unfoldable pub gather_cached :
    Network → List Str → Node → Option Subnet → Gathered → Result Gathered
gather_cached net ip_set node (some s) g =
    ok (if has s.id g.subnet_ocids then g else gather s.id s g)
gather_cached net ip_set node none g = gather_by_instance net ip_set node g

unfoldable pub gather_node : Network → List Str → Node → Gathered → Result Gathered
gather_node net ip_set node g = do
  cached ← net.get_subnet_from_cache_by_ip (node_internal_ip_of node)
  gather_cached net ip_set node cached g

unfoldable pub gather_nodes : Network → List Str → List Node → Gathered → Result Gathered
gather_nodes net ip_set [] g = ok g
gather_nodes net ip_set (node ∷ nodes) g = do
  next ← gather_node net ip_set node g
  gather_nodes net ip_set nodes next

unfoldable pub get_subnets_for_nodes : Network → List Node → Result (List Subnet)
get_subnets_for_nodes net nodes = do
  g ←
      gather_nodes net (of_list (map node_internal_ip_of nodes)) nodes
        (record { subnet_ocids = []; subnets = [] })
  ok g.subnets
