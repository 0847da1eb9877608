-- ===== src/Controller/Handlers/Tests.antt =====
-- Events at a small cache.
use oci_lb_ingress_controlle.Ingress.Annotations.{
  Ingress, get_ingress_class_name, is_oci_loadbalancer_ingress,
}
use oci_lb_ingress_controlle.Controller.Handlers.{NamespacedName, named, updated, secret_event}
use oci_lb_ingress_controlle.Controller.Handlers.Laws.{secret_event-exact}
use oci_lb_ingress_controlle.Base.{
  filter, Str, text, str_eq, ok, ◌≡◌, refl, some, List, [], ◌∷◌, map,
}

abbrev ingress_of : Str → Str → Ingress
ingress_of namespace class = record {
  namespace = namespace;
  name = text "web";
  annotations = [];
  ingress_class_name = some class;
  tls = text "tls" ∷ [] ∷ [];
}

abbrev blue_oci : Ingress
blue_oci = ingress_of (text "blue") (text "oci")

abbrev blue_nginx : Ingress
blue_nginx = ingress_of (text "blue") (text "nginx")

abbrev cache : List Ingress
cache = blue_oci ∷ blue_nginx ∷ ingress_of (text "green") (text "oci") ∷ []

abbrev blue_secret : NamespacedName
blue_secret = record { namespace = text "blue"; name = text "tls" }

secret_event-exact_example :
    secret_event (text "oci") updated blue_secret (ok cache) ≡ named blue_oci ∷ []
unfolding filter is_oci_loadbalancer_ingress get_ingress_class_name str_eq
    oci_lb_ingress_controlle.Base.contains_byte oci_lb_ingress_controlle.Base.Sets.has
secret_event-exact_example =
    secret_event-exact (text "oci") updated blue_secret cache refl refl
      ((refl, (refl, (refl, tt))), ((refl, (refl, (refl, tt))), ((refl, (refl, (refl, tt))), tt)))
