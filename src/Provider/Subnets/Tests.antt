-- ===== src/Provider/Subnets/Tests.antt =====
-- A run of getSubnetsForNodes over two nodes in one cached subnet.
use oci_lb_ingress_controlle.Base.Sets.{has, of_list, insert}
use oci_lb_ingress_controlle.Base.Effects.{is_ok}
use oci_lb_ingress_controlle.Provider.Subnets.{
  Subnet, Node, Network, node_internal_ip, get_subnets_for_nodes, first_internal,
  node_internal_ip_of, gather_nodes, gather_node, gather_cached, gather,
}
use oci_lb_ingress_controlle.Provider.Subnets.Unique.{
  ids, Unique, CachedIn, AnswersById, get_subnets_for_nodes-Unique, get_subnets_for_nodes-is_ok,
}
use oci_lb_ingress_controlle.Base.{
  All, Str, text, str_eq, not_found, ok, err, ◌≡◌, refl, true, some, List, [], ◌∷◌,
}

abbrev pub node_subnet : Subnet
node_subnet = record { id = text "subnet"; cidr_block = text "10.0.2.0/24"; security_list_ids = [] }

abbrev pub node_at : Str → Node
node_at ip = record {
  name = text "node";
  provider_id = [];
  annotations = [];
  addresses = record { type = node_internal_ip; address = ip } ∷ [];
}

abbrev pub two_nodes : List Node
two_nodes = node_at (text "10.0.2.1") ∷ node_at (text "10.0.2.2") ∷ []

-- Every address is cached; a request for a subnet gives the subnet of that identifier.
abbrev pub cached_network : Network
cached_network = record {
  get_subnet = λ id. ok (record { id = id; cidr_block = []; security_list_ids = [] });
  get_subnet_from_cache_by_ip = λ ip. ok (some node_subnet);
  get_primary_vnic_for_instance = λ c i. err not_found;
}

cached_network-AnswersById : AnswersById cached_network
cached_network-AnswersById id s h = cc

two_nodes_subnets : get_subnets_for_nodes cached_network two_nodes ≡ ok (node_subnet ∷ [])
unfolding get_subnets_for_nodes gather_nodes gather_node gather_cached gather has insert of_list
    str_eq node_internal_ip_of first_internal
two_nodes_subnets = refl

get_subnets_for_nodes-Unique_example :
    Unique (ids (node_subnet ∷ [])) × All (CachedIn cached_network (node_subnet ∷ [])) two_nodes
get_subnets_for_nodes-Unique_example =
    get_subnets_for_nodes-Unique cached_network two_nodes (node_subnet ∷ [])
      cached_network-AnswersById two_nodes_subnets

get_subnets_for_nodes-is_ok_example : is_ok (get_subnets_for_nodes cached_network two_nodes) ≡ true
get_subnets_for_nodes-is_ok_example =
    get_subnets_for_nodes-is_ok cached_network two_nodes (refl, (refl, tt))
