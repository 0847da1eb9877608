-- ===== src/Ingress/Annotations.antt =====
-- The ingress object as the program reads it, its annotations (annotations.go) and its class
-- (src/ingress/object.go).
use oci_lb_ingress_controlle.Base.Maps.{Map, lookup}
use oci_lb_ingress_controlle.Base.{Str, text, str_eq, Bool, Option, none, some, List, [], ◌++◌}

-- `tls` holds the secret names of the TLS entries.
pub record Ingress : Type 0 where
  pub namespace : Str
  pub name : Str
  pub annotations : Map Str
  pub ingress_class_name : Option Str
  pub tls : List Str

-- A missing key reads as the empty text.
abbrev or_empty : Option Str → Str
or_empty none = []
or_empty (some s) = s

unfoldable pub get_annotation : Map Str → Str → Str
get_annotation annotations name =
    or_empty (lookup (text "ingress.beta.kubernetes.io/" ++ name) annotations)

unfoldable pub get_ingress_class_name : Ingress → Str
get_ingress_class_name ing = elim ing.ingress_class_name [
  | some name ↦ name
  | none ↦ or_empty (lookup (text "kubernetes.io/ingress.class") ing.annotations)
]

-- `class` is OCILoadbalancerIngressClass, which a flag sets.
unfoldable pub is_oci_loadbalancer_ingress : Str → Ingress → Bool
is_oci_loadbalancer_ingress class ing = str_eq (get_ingress_class_name ing) class
