-- ===== src/Controller/Handlers.antt =====
-- The event handlers of src/controller/handlers. A handler gives the requests that it adds to the
-- queue, in order; the queue itself is the controller runtime's.
pub mod Laws
pub mod Tests
use oci_lb_ingress_controlle.Ingress.Annotations.{Ingress, is_oci_loadbalancer_ingress}
use oci_lb_ingress_controlle.Base.{
  if◌then◌else◌, is_empty, Str, str_eq, contains_byte, split_at, Result, ok, err, Bool, false, not,
  ◌||◌, Option, none, some, List, [], ◌∷◌, ◌++◌,
}

-- types.NamespacedName
pub record NamespacedName : Type 0 where
  pub namespace : Str
  pub name : Str

-- String()
unfoldable pub to_text : NamespacedName → Str
to_text n = n.namespace ++ (b'/' ∷ n.name)

-- SplitNamespacedNameStr: without a slash the default namespace stands in.
unfoldable pub second_field : List Str → Str
second_field [] = []
second_field (s ∷ rest) = s

unfoldable pub as_namespaced_name : Str → Str → NamespacedName
as_namespaced_name s default_ns =
    let (first, others) = split_at b'/' s in
    if is_empty s
    then record { namespace = []; name = [] }
    else if not (contains_byte b'/' s)
    then record { namespace = default_ns; name = s }
    else record { namespace = first; name = second_field others }

abbrev pub named : Ingress → NamespacedName
named ing = record { namespace = ing.namespace; name = ing.name }

-- The four events that a handler is called on.
pub data Event : Type 0 where
  created updated deleted generic : Event

unfoldable pub has_secret : NamespacedName → Str → List Str → Bool
has_secret secret ns [] = false
has_secret secret ns (name ∷ names) =
    str_eq (to_text (as_namespaced_name name ns)) (to_text secret) || has_secret secret ns names

module _ (class : Str) where
  unfoldable pub enqueue_if_ingress_class_matched : Ingress → List NamespacedName
  enqueue_if_ingress_class_matched ing =
      if not (is_oci_loadbalancer_ingress class ing) then [] else named ing ∷ []

  -- An event's object, where it is an ingress.
  abbrev pub enqueue_object : Option Ingress → List NamespacedName
  enqueue_object none = []
  enqueue_object (some ing) = enqueue_if_ingress_class_matched ing

  unfoldable pub ingress_created : Option Ingress → List NamespacedName
  ingress_created object = enqueue_object object

  -- Both halves of the code read ObjectNew.
  unfoldable pub ingress_updated : Option Ingress → Option Ingress → List NamespacedName
  ingress_updated object_old object_new = enqueue_object object_new ++ enqueue_object object_new

  unfoldable pub ingress_deleted : Option Ingress → List NamespacedName
  ingress_deleted object = enqueue_object object

  unfoldable pub ingress_generic : Option Ingress → List NamespacedName
  ingress_generic object = enqueue_object object

  unfoldable pub all_oci_ingresses : List Ingress → List NamespacedName
  all_oci_ingresses [] = []
  all_oci_ingresses (ing ∷ ings) =
      let rest = all_oci_ingresses ings in
      if not (is_oci_loadbalancer_ingress class ing) then rest else named ing ∷ rest

  -- enqueueImpactedIngresses of the node handler; the cache may fail to list.
  unfoldable pub node_impacts : Result (List Ingress) → List NamespacedName
  node_impacts (err e) = []
  node_impacts (ok ings) = all_oci_ingresses ings

  unfoldable pub node_event : Event → Result (List Ingress) → List NamespacedName
  node_event created cache = node_impacts cache
  node_event deleted cache = node_impacts cache
  node_event updated cache = []
  node_event generic cache = []

  unfoldable pub ingresses_with_secret : NamespacedName → List Ingress → List NamespacedName
  ingresses_with_secret secret [] = []
  ingresses_with_secret secret (ing ∷ ings) =
      let rest = ingresses_with_secret secret ings in
      if not (is_oci_loadbalancer_ingress class ing)
      then rest
      else if not (has_secret secret ing.namespace ing.tls)
      then rest
      else named ing ∷ rest

  -- enqueueImpactedIngresses of the secret handler
  unfoldable pub secret_impacts : NamespacedName → Result (List Ingress) → List NamespacedName
  secret_impacts secret (err e) = []
  secret_impacts secret (ok ings) = ingresses_with_secret secret ings

  unfoldable pub secret_event : Event → NamespacedName → Result (List Ingress) → List NamespacedName
  secret_event created secret cache = secret_impacts secret cache
  secret_event updated secret cache = secret_impacts secret cache
  secret_event deleted secret cache = []
  secret_event generic secret cache = []
