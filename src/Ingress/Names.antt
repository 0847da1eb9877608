-- ===== src/Ingress/Names.antt =====
-- The names that src/ingress/helpers.go makes of an ingress and of hostnames, and the digest and
-- slices of src/utils that they use. The MD5 sum in base64 is a parameter. A panic is an error.
pub mod Digest
pub mod Valid
pub mod Distinct
pub mod Listener
pub mod Tests
use oci_lb_ingress_controlle.Base.{
  leb, ltb, ◌==◌, if◌then◌else◌, length, take, drop, is_empty, all, Str, text, to_lower, message,
  Result, ok, err, ◌>>=◌, ℕ, zero, suc, ◌+◌, ◌-◌, Bool, true, false, not, ◌&&◌, ◌||◌, List, [], ◌∷◌,
  ◌++◌,
}

-- SafeSlice, of bounds that are not negative
unfoldable pub safe_slice : Str → ℕ → ℕ → Str
safe_slice s start end =
    let l = length s in
    if leb l start || ltb end start
    then []
    else if ltb l end
    then drop start s
    else take (end - start) (drop start s)

-- strings.ReplaceAll of one byte
unfoldable pub replace_byte : ℕ → Str → Str → Str
replace_byte old new [] = []
replace_byte old new (c ∷ s) =
    let rest = replace_byte old new s in if c == old then new ++ rest else c ∷ rest

-- strings.ReplaceAll of two bytes, from the left
unfoldable pub replace_pair : ℕ → ℕ → Str → Str → Str
replace_pair a b new [] = []
replace_pair a b new (c ∷ []) = c ∷ []
replace_pair a b new (c ∷ d ∷ s) =
    let rest = replace_pair a b new s in
    let next = replace_pair a b new (d ∷ s) in if c == a && d == b then new ++ rest else c ∷ next

-- strings.TrimRight of one byte
unfoldable pub trim_right_byte : ℕ → Str → Str
trim_right_byte b [] = []
trim_right_byte b (c ∷ s) =
    let rest = trim_right_byte b s in if is_empty rest && c == b then [] else c ∷ rest

unfoldable pub ends_with : ℕ → Str → Bool
ends_with b [] = false
ends_with b (c ∷ []) = c == b
ends_with b (c ∷ d ∷ s) = ends_with b (d ∷ s)

-- `prefix` is the value of LOAD_BALANCER_PREFIX.
unfoldable pub name_prefix : Str → Str
name_prefix prefix =
    if not (is_empty prefix) && not (ends_with b'_' prefix) then prefix ++ text "_" else prefix

unfoldable pub get_load_balancer_name : Str → Str → Str → Str
get_load_balancer_name prefix namespace ingress_name =
    let name = name_prefix prefix ++ (namespace ++ (b'_' ∷ ingress_name)) in
    if ltb 1024 (length name) then take 1024 name else name

abbrev pub in_range : ℕ → ℕ → ℕ → Bool
in_range low high c = leb low c && leb c high

abbrev pub is_letter : ℕ → Bool
is_letter c = in_range b'a' b'z' c || in_range b'A' b'Z' c

abbrev pub is_digit : ℕ → Bool
is_digit c = in_range b'0' b'9' c

-- [a-zA-Z_0-9]
abbrev pub is_word : ℕ → Bool
is_word c = is_letter c || (is_digit c || c == b'_')

-- "^[a-zA-Z_][a-zA-Z_0-9]{1,31}$"
unfoldable pub is_routing_policy_name : Str → Bool
is_routing_policy_name [] = false
is_routing_policy_name (c ∷ s) =
    (is_letter c || c == b'_') && (all is_word s && (leb 1 (length s) && leb (length s) 31))

-- `name[0] >= '0' && name[0] <= '9'`
abbrev pub starts_with_digit : Str → Bool
starts_with_digit [] = false
starts_with_digit (c ∷ s) = is_digit c

-- The replacements in a routing policy's name
unfoldable pub policy_base : Str → Str
policy_base hostname =
    let replaced = replace_pair b'_' b'_' (text "_") (
      replace_byte b'-' (text "_")
        (replace_byte b'.' (text "_") (replace_pair b'*' b'.' (text "S_") (to_lower hostname)))) in
    if starts_with_digit replaced then text "X_" ++ replaced else replaced

abbrev pub checked : Str → Result Str
checked name =
    if is_routing_policy_name name
    then ok name
    else err (message (text "panic: Invalid Routing policy name."))

-- [a-zA-Z0-9_-]
abbrev pub is_listener_byte : ℕ → Bool
is_listener_byte c = is_word c || c == b'-'

-- "^[a-zA-Z0-9_-]{1,255}$"
unfoldable pub is_listener_name : Str → Bool
is_listener_name s = all is_listener_byte s && (leb 1 (length s) && leb (length s) 255)

-- The replacements in a listener's name
unfoldable pub listener_base : Str → Str
listener_base hostname =
    replace_byte b'.' (text "DOT") (replace_pair b'*' b'.' (text "STAR") (to_lower hostname))

abbrev pub checked_listener : Str → Result Str
checked_listener name =
    if is_listener_name name then ok name else err (message (text "panic: Invalid Listener name."))

module _ (base64_md5 : Str → Str) where
  -- The closure gen
  unfoldable pub gen : Str → Str
  gen bytes =
      replace_byte b'+' (text "b")
        (replace_byte b'/' (text "a") (trim_right_byte b'=' (base64_md5 bytes)))

  -- A digest that begins with a digit has it moved to its end, as a letter.
  unfoldable pub letter_first : ℕ → Str → Str
  letter_first c s = if leb c b'9' then s ++ ((b'a' + b'9' - c) ∷ []) else c ∷ s

  -- The loop, on fuel: `len` rounds are enough, since each one adds a byte.
  unfoldable pub extend : ℕ → Str → ℕ → Result Str
  extend zero digest len =
      if leb len (length digest) then ok (take len digest) else err (message (text "out of fuel"))
  extend (suc fuel) digest len =
      let rest = extend fuel (digest ++ gen digest) len in
      if leb len (length digest) then ok (take len digest) else rest

  abbrev pub extended : Str → ℕ → Result Str
  extended [] len = err (message (text "panic: index out of range"))
  extended (c ∷ s) len = extend len (letter_first c s) len

  unfoldable pub byte_alpha_numeric_digest : Str → ℕ → Result Str
  byte_alpha_numeric_digest bytes len = extended (gen bytes) len

  unfoldable pub get_routing_policy_name : Str → Result Str
  get_routing_policy_name hostname = do
    digest ← byte_alpha_numeric_digest hostname 32
    checked (safe_slice (safe_slice (policy_base hostname) 0 25 ++ (b'_' ∷ digest)) 0 32)

  unfoldable pub get_hostname_name : Str → Result Str
  get_hostname_name hostname =
      if ltb 240 (length hostname)
      then (do
        digest ← byte_alpha_numeric_digest hostname 15
        ok (safe_slice (take 240 hostname ++ digest) 0 255))
      else ok hostname

  abbrev pub bounded_listener_name : Str → Str → Result Str
  bounded_listener_name hostname name =
      if ltb 240 (length name)
      then (do
        digest ← byte_alpha_numeric_digest hostname 15
        ok (safe_slice (take 240 name ++ digest) 0 255))
      else ok name

  unfoldable pub get_listener_name : Str → Result Str
  get_listener_name hostname =
      if is_empty hostname
      then ok (text "any-host")
      else bounded_listener_name hostname (listener_base hostname) >>= checked_listener
