-- ===== src/SecurityLists/Manager/Tests.antt =====
-- Runs of the managers on one subnet.
use oci_lb_ingress_controlle.Provider.Subnets.{Subnet}
use oci_lb_ingress_controlle.SecurityLists.Samples.{security_list, ports}
use oci_lb_ingress_controlle.SecurityLists.Manager.{Response, Networking, update_backend_rules}
use oci_lb_ingress_controlle.SecurityLists.Manager.Writes.{AllCareful, update_backend_rules-Careful}
use oci_lb_ingress_controlle.Base.{str_eq, if◌then◌else◌, Str, Result, text, ok, none, [], ◌∷◌}

abbrev response : Response
response = record { security_list = security_list; etag = text "1"; time_created = 7 }

abbrev net : Networking
net = record {
  security_list = λ log id. ok response;
  cloud = λ log request. ok (text "done");
  services = ok [];
}

abbrev subnet : Subnet
subnet = record {
  id = text "subnet";
  cidr_block = text "10.0.2.0/24";
  security_list_ids = text "list" ∷ [];
}

update_backend_rules-Careful_example :
    AllCareful net none ports []
      ((update_backend_rules net [] (subnet ∷ []) (subnet ∷ []) none ports).run []).0
update_backend_rules-Careful_example =
    update_backend_rules-Careful net none ports [] (subnet ∷ []) (subnet ∷ [])

-- The second of two lists is the older one.
abbrev by_id : Str → Result Response
by_id id = if str_eq id (text "old") then ok (record response { time_created = 3 }) else ok response

abbrev two_lists : Networking
two_lists = record net { security_list = λ log id. by_id id }

abbrev listed : Subnet
listed = record subnet { security_list_ids = text "new" ∷ text "old" ∷ [] }
