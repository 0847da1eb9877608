-- ===== src/Ingress/Routing.antt =====
-- src/ingress/routing_rule.go: the condition under which a path of an ingress is routed to its
-- backend set. net/url's Parse, gob's encoding of a path and MD5 in base64 are parameters.
mod Bytes
pub mod Patterns
pub mod Joined
pub mod Tests
use Prim.Native.String.{String}
use oci_lb_ingress_controlle.Ingress.Names.{ends_with, trim_right_byte, byte_alpha_numeric_digest}
use oci_lb_ingress_controlle.Manager.Model.{RoutingRule}
use oci_lb_ingress_controlle.Base.{
  ltb, ◌==◌, if◌then◌else◌, length, take, drop, is_empty, ℤ, Str, text, has_prefix, trim_prefix,
  contains_byte, split, join, trim_space, message, Result, ok, err, ◌>>=◌, wrap, ℕ, ◌-◌, Bool, not,
  ◌&&◌, ◌||◌, Option, none, some, List, [], ◌∷◌, ◌++◌,
}

pub data PathType : Type 0 where
  exact prefix implementation_specific : PathType
  unknown : Str → PathType

-- A backend is a service's port, by its number or, where that is 0, by its name.
pub record IngressBackend : Type 0 where
  pub has_resource : Bool
  pub service_name : Str
  pub port_number : ℤ
  pub port_name : Str

pub record IngressPath : Type 0 where
  pub path : Str
  pub path_type : PathType
  pub backend : IngressBackend

-- What the program reads of a url.URL
pub record Url : Type 0 where
  pub scheme : Str
  pub host : Str
  pub path : Str
  pub raw_query : Str
  pub fragment : Str

abbrev pub forwarding_rule : Str → Str → Str → RoutingRule
forwarding_rule name condition backend_set = record {
  name = name;
  condition = condition;
  actions = backend_set ∷ [];
}

unfoldable pub create_default_backend_routing_rule : Str → RoutingRule
create_default_backend_routing_rule backend_set =
    forwarding_rule (text "default-backend-route") (text "all(http.request.url.path sw '/')")
      backend_set

-- "http.request.url.path … '%s'"
unfoldable pub path_test : String → Str → Str
path_test operator s =
    text "http.request.url.path " ++ (text operator ++ (text " '" ++ (s ++ text "'")))

abbrev pub all_of : Str → Str
all_of body = text "all(" ++ (body ++ (b')' ∷ []))

-- The closure hostHeaderMatch
unfoldable pub host_header_match : Str → Str
host_header_match h = text "http.request.headers[(i 'Host')] eq (i '" ++ (h ++ text "')")

unfoldable pub create_hostname_condition : Str → Str
create_hostname_condition hostname =
    if has_prefix hostname (text "*.")
    then []
    else text "any("
      ++ (host_header_match hostname
          ++ (text ", "
              ++ (host_header_match (hostname ++ text ":443")
                  ++ (text ", " ++ (host_header_match (hostname ++ text ":80") ++ text ")")))))

abbrev pub invalid_path : Result Str
invalid_path = err (message (text "Invalid path"))

abbrev pub star_free : Str → Bool
star_free s = not (contains_byte b'*' s)

-- "^[^\*]+\*[^\*]+$": the two parts at the one star, where neither is empty.
abbrev pub middle_parts : List Str → Option (Str × Str)
middle_parts (a ∷ b ∷ []) = if not (is_empty a) && not (is_empty b) then some (a, b) else none
middle_parts _ = none

abbrev pub starts_with : ℕ → Str → Bool
starts_with b s = has_prefix s (b ∷ [])

-- A text of one byte or more, with no star
abbrev pub is_plain : Str → Bool
is_plain s = not (is_empty s) && star_free s

unfoldable pub trim_left_byte : ℕ → Str → Str
trim_left_byte b [] = []
trim_left_byte b (c ∷ s) = let rest = trim_left_byte b s in if c == b then rest else c ∷ s

-- Stars at one end or at both: "^\*[^\*]+$", "^[^\*]+\*$" and "^\*+[^\*]+\*+$", in this order.
unfoldable pub edge_condition : Str → Result Str
edge_condition path =
    if starts_with b'*' path && is_plain (drop 1 path)
    then ok (all_of (path_test "ew" (drop 1 path)))
    else if ends_with b'*' path && is_plain (take (length path - 1) path)
    then ok (all_of (path_test "sw" (take (length path - 1) path)))
    else if starts_with b'*' path
        && (ends_with b'*' path && is_plain (trim_right_byte b'*' (trim_left_byte b'*' path)))
    then ok (all_of (path_test "cw" (take (length path - 2) (drop 1 path))))
    else invalid_path

-- The condition of a path that is no condition itself
unfoldable pub path_condition : Str → Result Str
unfolding edge_condition
path_condition path =
    if star_free path
    then ok (all_of (path_test "eq" path))
    else elim (middle_parts (split b'*' path)) [
      | some (a, b) ↦ ok (all_of (path_test "sw" a ++ (text ", " ++ path_test "ew" b)))
      | none ↦ edge_condition path
    ]

unfoldable pub condition_of_url : Url → Result Str
condition_of_url u =
    if not (is_empty u.fragment)
      || (not (is_empty u.scheme) || (not (is_empty u.host) || not (is_empty u.raw_query)))
    then invalid_path
    else path_condition u.path

-- `^(not )?(any|all)\(`
unfoldable pub is_compound : Str → Bool
is_compound s =
    let rest = trim_prefix s (text "not ") in
    has_prefix rest (text "any(") || has_prefix rest (text "all(")

-- `^all\((.*)\)$`: what is between the parentheses, where it has no line break.
unfoldable pub all_body : Str → Option Str
all_body s =
    let inner = drop 4 s in
    let body = take (length inner - 1) inner in
    if has_prefix s (text "all(") && (ends_with b')' inner && not (contains_byte 10 body))
    then some body
    else none

unfoldable pub with_custom : List Str → Str → List Str
with_custom conditions custom =
    if is_compound custom
    then elim (all_body custom) [ some body ↦ conditions ++ split b',' body | none ↦ custom ∷ [] ]
    else conditions ++ (custom ∷ [])

unfoldable pub combined : List Str → Str
combined (c ∷ []) = c
combined conditions = all_of (join (text ",") conditions)

unfoldable pub host_conditions : Str → List Str
host_conditions host =
    let condition = create_hostname_condition host in
    if is_empty host || is_empty condition then [] else condition ∷ []

module _ (url_parse : Str → Result Url) where
  unfoldable pub process_implementation_specific_path : Str → Result Str
  process_implementation_specific_path path_value =
      if is_empty path_value
      then invalid_path
      else if has_prefix path_value (text "condition:")
          && ltb (length (text "condition:")) (length (trim_space path_value))
      then ok (trim_space (trim_prefix path_value (text "condition:")))
      else wrap (url_parse path_value) >>= condition_of_url

  unfoldable pub path_conditions : List Str → PathType → Str → Result (List Str)
  path_conditions conditions exact path = ok (conditions ++ (path_test "eq" path ∷ []))
  path_conditions conditions prefix path = ok (conditions ++ (path_test "sw" path ∷ []))
  path_conditions conditions implementation_specific path = do
    custom ← process_implementation_specific_path path
    ok (with_custom conditions custom)
  path_conditions conditions (unknown t) path = err (message (text "Unknown ingress path type"))

  module _ (base64_md5 : Str → Str) (encode : IngressPath → Str) where
    unfoldable pub create_routing_rule : IngressPath → Str → Str → Result RoutingRule
    create_routing_rule p backend_set host = do
      name ← byte_alpha_numeric_digest base64_md5 (encode p) 22
      conditions ← path_conditions (host_conditions host) p.path_type p.path
      ok (forwarding_rule name (combined conditions) backend_set)
