-- ===== src/Ingress/Routing/Joined.antt =====
-- The predicates of an `all(…)` condition that an ingress gives are those of its routing rule.
use oci_lb_ingress_controlle.Ingress.Names.{byte_alpha_numeric_digest}
use oci_lb_ingress_controlle.Ingress.Routing.Bytes.{ends_with-append, take_but_last}
use oci_lb_ingress_controlle.Ingress.Routing.{
  Url, IngressPath, implementation_specific, all_of, is_compound, all_body, with_custom, combined,
  host_conditions, host_header_match, create_hostname_condition,
  process_implementation_specific_path, path_conditions, create_routing_rule,
}
use oci_lb_ingress_controlle.Base.{
  ◌==◌, if◌then◌else◌, Bool-cases, is_empty, Str, text, has_prefix, trim_prefix, contains_byte,
  split_at, split, join, Result, ok, ℕ, ◌≡◌, refl, ap, ◌∙◌, inl, inr, Bool, true, false, not, ◌||◌,
  some, List, [], ◌∷◌, ◌++◌, arith,
}

split_at-here :
    (b c : ℕ) (s : Str)
    → (c == b) ≡ true
    → split_at b (c ∷ s) ≡ ([], (split_at b s).0 ∷ (split_at b s).1)
unfolding split_at
split_at-here b c s e = rw e refl

split_at-later :
    (b c : ℕ) (s : Str)
    → (c == b) ≡ false
    → split_at b (c ∷ s) ≡ (c ∷ (split_at b s).0, (split_at b s).1)
unfolding split_at
split_at-later b c s e = rw e refl

join-longer :
    (b c : ℕ) (field : Str) (others : List Str)
    → join (b ∷ []) ((c ∷ field) ∷ others) ≡ c ∷ join (b ∷ []) (field ∷ others)
unfolding join
join-longer b c field [] = refl
join-longer b c field (o ∷ others) = refl

eq_of_test : (c b : ℕ) → (c == b) ≡ true → b ≡ c
eq_of_test c b e = ground arith

-- Joining what a split gives is the text that was split.
join-split_at : (b : ℕ) (s : Str) → join (b ∷ []) ((split_at b s).0 ∷ (split_at b s).1) ≡ s
unfolding join
join-split_at b [] = unfold split_at in refl
join-split_at b (c ∷ s) = elim (Bool-cases (c == b)) [
  | inl e ↦
      rw (split_at-here b c s e)
        (ap (λ t. b ∷ t) (join-split_at b s) ∙ ap (λ d. d ∷ s) (eq_of_test c b e))
  | inr e ↦
      rw (split_at-later b c s e)
        (join-longer b c (split_at b s).0 (split_at b s).1 ∙ ap (λ t. c ∷ t) (join-split_at b s))
]

contains-split_at : (b : ℕ) (s : Str) → contains_byte b s ≡ not (is_empty (split_at b s).1)
unfolding contains_byte split_at
contains-split_at b [] = refl
contains-split_at b (c ∷ s) = ground (arith, contains-split_at b s)

-- That the host header is a text
abbrev pub header_is : Str → Str
header_is h = text "http.request.headers[(i 'Host')] eq (i '" ++ (h ++ text "')")

-- That it is the host, with no port or with one of the two that are listened on
abbrev pub host_text : Str → Str
host_text host =
    text "any("
    ++ (header_is host
        ++ (text ", "
            ++ (header_is (host ++ text ":443")
                ++ (text ", " ++ (header_is (host ++ text ":80") ++ text ")")))))

-- The condition of a rule: the host's, where there is a host and it is no wildcard, and the body of
-- the custom one.
abbrev pub joined_condition : Str → Str → Str
joined_condition host body =
    if is_empty host || has_prefix host (text "*.")
    then (if contains_byte b',' body then text "all(" ++ (body ++ text ")") else body)
    else text "all(" ++ ((host_text host ++ (text "," ++ body)) ++ text ")")

combined-parts :
    (f : Str) (others : List Str)
    → combined (f ∷ others) ≡ (
        if not (is_empty others)
        then all_of (join (text ",") (f ∷ others))
        else join (text ",") (f ∷ others))
unfolding combined join
combined-parts f [] = refl
combined-parts f (o ∷ others) = refl

combined-split :
    (body : Str)
    → combined (split b',' body) ≡ (if contains_byte b',' body then all_of body else body)
combined-split body =
    combined-parts (split_at b',' body).0 (split_at b',' body).1
    ∙ rw (contains-split_at b',' body, join-split_at b',' body) refl

combined-host :
    (h body : Str) → combined (h ∷ split b',' body) ≡ all_of (join (text ",") (h ∷ body ∷ []))
unfolding combined join
combined-host h body = ap (λ t. all_of (h ++ (b',' ∷ t))) (join-split_at b',' body)

host_conditions_lem :
    (host : Str)
    → host_conditions host
      ≡ (if is_empty host || has_prefix host (text "*.") then [] else host_text host ∷ [])
unfolding host_conditions create_hostname_condition host_header_match
host_conditions_lem host = elim (Bool-cases (has_prefix host (text "*."))) [
  | inl e ↦ rw e (both (is_empty host))
  | inr e ↦ rw e (one (is_empty host))
]
  where
    both :
        (b : Bool)
        → (if b || true then [] else [] ∷ []) ≡ (if b || true then [] else host_text host ∷ [])
    both true = refl
    both false = refl

    one :
        (b : Bool)
        → (if b || false then [] else host_text host ∷ [])
          ≡ (if b || false then [] else host_text host ∷ [])
    one b = refl

combined-conditions :
    (host body : Str)
    → combined (host_conditions host ++ split b',' body) ≡ joined_condition host body
unfolding join
combined-conditions host body =
    rw (host_conditions_lem host)
      (elim (Bool-cases (is_empty host || has_prefix host (text "*."))) [
        | inl e ↦ rw e (combined-split body)
        | inr e ↦ rw e (combined-host (host_text host) body)
      ])

inner_body : (body : Str) → contains_byte 10 body ≡ false → all_body (all_of body) ≡ some body
unfolding all_body has_prefix
inner_body body h = rw (ends_with-append b')' b')' body, take_but_last body b')', h) refl

compound_all : (body : Str) → is_compound (all_of body) ≡ true
unfolding is_compound trim_prefix has_prefix
compound_all body = refl

module _ (url_parse : Str → Result Url) (base64_md5 : Str → Str) (encode : IngressPath → Str) where
  -- A path `condition:all(…)`, once it is read, with no line break between the parentheses, gives a
  -- rule whose condition has the host's condition and all the text between the parentheses, commas
  -- in it included. The host's condition is that the host header is the host, or the host with the
  -- port 443 or 80. Where there is no host or a wildcard, and no comma, it is that text alone.
  pub all_condition_is_kept :
      (p : IngressPath) (backend_set host body name : Str)
      → p.path_type ≡ implementation_specific
      → process_implementation_specific_path url_parse p.path ≡ ok (all_of body)
      → contains_byte 10 body ≡ false
      → byte_alpha_numeric_digest base64_md5 (encode p) 22 ≡ ok name
      → create_routing_rule url_parse base64_md5 encode p backend_set host
        ≡ ok (record {
          name = name;
          condition = joined_condition host body;
          actions = backend_set ∷ [];
        })
  unfolding create_routing_rule path_conditions with_custom
  all_condition_is_kept p backend_set host body name custom processed one_line digest =
      rw
        (
          digest,
          custom,
          processed,
          compound_all body,
          inner_body body one_line,
          combined-conditions host body,
        )
        refl
