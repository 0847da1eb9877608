-- ===== src/Ingress/Routing/Tests.antt =====
-- Runs of the routing rules.
use oci_lb_ingress_controlle.Ingress.Names.{
  ends_with, trim_right_byte, replace_byte, trim_right_byte, gen, letter_first, extend,
  byte_alpha_numeric_digest,
}
use oci_lb_ingress_controlle.Ingress.Routing.Patterns.{
  Pattern, between, pattern_text, pattern_is_kept, all_text, plain_url, Matches, AllHold,
  IsLongEnough, tests,
}
use oci_lb_ingress_controlle.Ingress.Routing.Joined.{all_condition_is_kept, joined_condition}
use oci_lb_ingress_controlle.Ingress.Routing.{
  Url, implementation_specific, IngressPath, path_test, trim_left_byte, edge_condition,
  path_condition, condition_of_url, process_implementation_specific_path, create_routing_rule,
}
use oci_lb_ingress_controlle.Base.{
  pos, has_prefix, trim_prefix, contains_byte, split_at, is_space, trim_left, trim_right,
  trim_space, Str, text, Result, ok, err, message, ◌≡◌, refl, false, [], ◌∷◌,
}

abbrev parse_plain : Str → Result Url
parse_plain s = ok (plain_url s)

test_middle :
    process_implementation_specific_path parse_plain (text "first*last")
    ≡ ok (text "all(http.request.url.path sw 'first', http.request.url.path ew 'last')")
unfolding process_implementation_specific_path condition_of_url path_condition path_test
    contains_byte split_at has_prefix trim_space trim_left trim_right is_space
test_middle = refl

test_two_stars :
    process_implementation_specific_path parse_plain (text "fi*rst*last")
    ≡ err (message (text "Invalid path"))
unfolding process_implementation_specific_path condition_of_url path_condition edge_condition
    path_test contains_byte split_at has_prefix trim_space trim_left trim_right is_space ends_with
    trim_left_byte trim_right_byte
test_two_stars = refl

-- The predicates of the condition keep a star where there are several at one end.
test_doubled_star :
    process_implementation_specific_path parse_plain (text "**x*")
    ≡ ok (text "all(http.request.url.path cw '*x')")
unfolding process_implementation_specific_path condition_of_url path_condition edge_condition
    path_test contains_byte split_at has_prefix trim_space trim_left trim_right is_space ends_with
    trim_left_byte trim_right_byte
test_doubled_star = refl

abbrev api_pattern : Pattern
api_pattern = between (text "/api/") (text "/list")

pattern_is_kept_example :
    (process_implementation_specific_path parse_plain (pattern_text api_pattern)
      ≡ ok (all_text (tests api_pattern)))
    × ((path : Str) → Matches api_pattern path → AllHold path (tests api_pattern))
    × ((path : Str)
        → IsLongEnough api_pattern path
        → AllHold path (tests api_pattern)
        → Matches api_pattern path)
unfolding contains_byte has_prefix pattern_text
pattern_is_kept_example =
    pattern_is_kept parse_plain api_pattern ((refl, refl), (refl, refl)) refl refl

abbrev fixed_md5 : Str → Str
fixed_md5 s = text "Zm9vYmFyYmF6cXV4MTIzNA=="

abbrev raw_path : IngressPath
raw_path = record {
  path = text "condition:all(a eq 'x', b eq 'y')";
  path_type = implementation_specific;
  backend = record {
    has_resource = false;
    service_name = text "web";
    port_number = pos 80;
    port_name = [];
  };
}

all_condition_is_kept_example :
    create_routing_rule parse_plain fixed_md5
      (λ p. p.path)
      raw_path
      (text "web")
      (text "example.com")
    ≡ ok (record {
      name = text "Zm9vYmFyYmF6cXV4MTIzNA";
      condition = joined_condition (text "example.com") (text "a eq 'x', b eq 'y'");
      actions = text "web" ∷ [];
    })
unfolding process_implementation_specific_path contains_byte has_prefix trim_prefix trim_space
    trim_left trim_right is_space byte_alpha_numeric_digest gen replace_byte trim_right_byte
    letter_first extend
all_condition_is_kept_example =
    all_condition_is_kept parse_plain fixed_md5 (λ p. p.path) raw_path (text "web")
      (text "example.com") (text "a eq 'x', b eq 'y'") (text "Zm9vYmFyYmF6cXV4MTIzNA") refl refl
      refl refl
