-- ===== src/Controller/Handlers/Laws.antt =====
-- Which ingresses an event of a node, a secret or an ingress enqueues.
use oci_lb_ingress_controlle.Base.Sets.{has}
use oci_lb_ingress_controlle.Ingress.Annotations.{Ingress, is_oci_loadbalancer_ingress}
use oci_lb_ingress_controlle.Controller.Handlers.{
  NamespacedName, to_text, as_namespaced_name, named, enqueue_if_ingress_class_matched,
  ingress_created, ingress_updated, all_oci_ingresses, node_impacts, Event, created, updated,
  deleted, generic, node_event, has_secret, ingresses_with_secret, secret_impacts, secret_event,
}
use oci_lb_ingress_controlle.Base.{
  if◌then◌else◌, is_empty, filter, All, Str, str_eq, str_eq_iff, contains_byte, ok, ◌≡◌, refl, ◌∙◌,
  Bool, true, false, ◌&&◌, some, List, [], ◌∷◌, ◌++◌, map, arith,
}

-- The name of a secret in a TLS entry, which may have none: no slash is in it.
abbrev pub IsName : Str → Type 0
IsName s = contains_byte b'/' s ≡ false

abbrev pub WellNamed : Ingress → Type 0
WellNamed ing = (contains_byte b'/' ing.namespace ≡ false) × All IsName ing.tls

-- The first slash of a text splits it in one way.
slash_unique :
    (a b s t : Str)
    → contains_byte b'/' a ≡ false
    → contains_byte b'/' b ≡ false
    → str_eq (a ++ (b'/' ∷ s)) (b ++ (b'/' ∷ t)) ≡ (str_eq a b && str_eq s t)
unfolding str_eq contains_byte
slash_unique [] [] s t h k = refl
slash_unique [] (y ∷ b) s t h k = ground arith
slash_unique (x ∷ a) [] s t h k = ground arith
slash_unique (x ∷ a) (y ∷ b) s t h k = ground (arith, slash_unique a b s t)

empty_other : (n : Str) → is_empty n ≡ false → str_eq [] n ≡ false
unfolding str_eq
empty_other [] h = ground arith
empty_other (c ∷ n) h = refl

-- An entry with no secret name is for no secret.
same_secret :
    (secret : NamespacedName) (ns s : Str)
    → contains_byte b'/' ns ≡ false
    → contains_byte b'/' secret.namespace ≡ false
    → is_empty secret.name ≡ false
    → IsName s
    → str_eq (to_text (as_namespaced_name s ns)) (to_text secret)
      ≡ (str_eq ns secret.namespace && str_eq s secret.name)
unfolding as_namespaced_name contains_byte to_text
same_secret secret ns [] h k filled slash =
    slash_unique [] secret.namespace [] secret.name refl k
    ∙ rw (empty_other secret.name filled) (ground arith)
same_secret secret ns (c ∷ s) h k filled slash =
    rw slash (slash_unique ns secret.namespace (c ∷ s) secret.name h k)

has_secret-has :
    (secret : NamespacedName) (ns : Str) (names : List Str)
    → contains_byte b'/' ns ≡ false
    → contains_byte b'/' secret.namespace ≡ false
    → is_empty secret.name ≡ false
    → All IsName names
    → has_secret secret ns names ≡ (str_eq ns secret.namespace && has secret.name names)
unfolding has_secret has
has_secret-has secret ns [] h k filled names = ground arith
has_secret-has secret ns (s ∷ ss) h k filled names =
    rw (same_secret secret ns s h k filled names.0) (
      ground (
        arith,
        has_secret-has secret ns ss h k filled names.1,
        str_eq_iff s secret.name,
        str_eq_iff secret.name s,
      ))

module _ (class : Str) where
  ingresses_with_secret_lem :
      (secret : NamespacedName) (ings : List Ingress)
      → contains_byte b'/' secret.namespace ≡ false
      → is_empty secret.name ≡ false
      → All WellNamed ings
      → ingresses_with_secret class secret ings
        ≡ map named (
            filter
              (λ ing.
                is_oci_loadbalancer_ingress class ing
                && (str_eq ing.namespace secret.namespace && has secret.name ing.tls))
              ings)
  unfolding ingresses_with_secret filter
  ingresses_with_secret_lem secret [] k filled h = refl
  ingresses_with_secret_lem secret (ing ∷ ings) k filled h = ground (
    arith,
    has_secret-has secret ing.namespace ing.tls h.0.0 k filled h.0.1,
    ingresses_with_secret_lem secret ings k filled h.1,
  )

  abbrev pub is_create_or_update : Event → Bool
  is_create_or_update created = true
  is_create_or_update updated = true
  is_create_or_update _ = false

  -- A created or updated secret enqueues, in the order of the cache, each OCI ingress of its own
  -- namespace with a TLS entry of its name, and no other; every other event of a secret enqueues
  -- nothing. The names of namespaces and of secrets have no slash, as Kubernetes requires, and the
  -- secret's is not empty; a TLS entry may have no secret name, and is then for no secret.
  pub secret_event-exact :
      (event : Event) (secret : NamespacedName) (ings : List Ingress)
      → contains_byte b'/' secret.namespace ≡ false
      → is_empty secret.name ≡ false
      → All WellNamed ings
      → secret_event class event secret (ok ings) ≡ (
          if is_create_or_update event
          then map named (
              filter
                (λ ing.
                  is_oci_loadbalancer_ingress class ing
                  && (str_eq ing.namespace secret.namespace && has secret.name ing.tls))
                ings)
          else [])
  unfolding secret_event secret_impacts
  secret_event-exact created secret ings k filled h =
      ingresses_with_secret_lem secret ings k filled h
  secret_event-exact updated secret ings k filled h =
      ingresses_with_secret_lem secret ings k filled h
  secret_event-exact deleted secret ings k filled h = refl
  secret_event-exact generic secret ings k filled h = refl

  all_oci_ingresses_lem :
      (ings : List Ingress)
      → all_oci_ingresses class ings ≡ map named (filter (is_oci_loadbalancer_ingress class) ings)
  unfolding all_oci_ingresses filter
  all_oci_ingresses_lem [] = refl
  all_oci_ingresses_lem (ing ∷ ings) = ground (arith, all_oci_ingresses_lem ings)

  abbrev pub is_create_or_delete : Event → Bool
  is_create_or_delete created = true
  is_create_or_delete deleted = true
  is_create_or_delete _ = false

  -- A node that comes or goes enqueues every OCI ingress of the cache, in its order, and no other
  -- ingress; any other event of a node enqueues nothing.
  node_event-exact :
      (event : Event) (ings : List Ingress)
      → node_event class event (ok ings) ≡ (
          if is_create_or_delete event
          then map named (filter (is_oci_loadbalancer_ingress class) ings)
          else [])
  unfolding node_event node_impacts
  node_event-exact created ings = all_oci_ingresses_lem ings
  node_event-exact deleted ings = all_oci_ingresses_lem ings
  node_event-exact updated ings = refl
  node_event-exact generic ings = refl

  -- An update that takes an ingress out of the OCI class enqueues nothing, whatever it was before,
  -- though its creation enqueues it: its load balancer stays.
  ingress_updated_class_lost :
      (old new : Ingress)
      → is_oci_loadbalancer_ingress class old ≡ true
      → is_oci_loadbalancer_ingress class new ≡ false
      → (ingress_created class (some old) ≡ named old ∷ [])
        × (ingress_updated class (some old) (some new) ≡ [])
  unfolding ingress_created ingress_updated enqueue_if_ingress_class_matched
  ingress_updated_class_lost old new h k = (rw h refl, rw k refl)
