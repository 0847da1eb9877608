-- ===== src/Ingress/Routing/Patterns.antt =====
-- The patterns that a path of the type ImplementationSpecific can be, and what they match.
mod Language
mod Conditions
unfoldable pub use Language.*
use oci_lb_ingress_controlle.Ingress.Routing.Patterns.Conditions.{
  condition-pattern, pattern-not_empty,
}
use mathlib.Core.List.{append_assoc}
use oci_lb_ingress_controlle.Ingress.Names.{ends_with, trim_right_byte}
use oci_lb_ingress_controlle.Ingress.Routing.{
  Url, path_test, starts_with, is_plain, middle_parts, trim_left_byte, path_condition,
  condition_of_url, process_implementation_specific_path,
}
use oci_lb_ingress_controlle.Ingress.Routing.Bytes.{
  plain-star_free, plain-not_empty, contains-append, split_at-free, split_at-append,
  ends_with-append, take-append, take_but_last, trim_right-star,
}
use oci_lb_ingress_controlle.Base.{
  ◌==◌, length, take, is_empty, length-append, Str, text, has_prefix, contains_byte, split_at,
  split, Result, ok, ℕ, ◌+◌, ◌-◌, ◌≤◌, ◌≡◌, refl, sym, ap, ◌∙◌, true, false, none, some, List, [],
  ◌∷◌, ◌++◌, arith,
}

-- Of a text that begins with `a` and ends with `b` and is as long as both, the rest is between.
middle_of : (a l r b : Str) → a ++ r ≡ l ++ b → length a ≤ length l → (m : Str) × (r ≡ m ++ b)
middle_of [] l r b e h = (l, e)
middle_of (c ∷ a) [] r b e h = absurd (omega arith)
middle_of (c ∷ a) (d ∷ l) r b e h = middle_of a l r b (cc) (omega arith)

between_of :
    (a b path : Str)
    → AllHold path (tests (between a b))
    → length a + length b ≤ length path
    → Matches (between a b) path
between_of a b path ((r, er), ((l, el), u)) h =
    let same : a ++ r ≡ l ++ b = sym er ∙ el in
    let long : length a ≤ length l = omega (arith, ap length el, length-append l b) in
    let (m, em) = middle_of a l r b same long in (m, er ∙ ap (λ t. a ++ t) em)

Matches-AllHold : (p : Pattern) (path : Str) → Matches p path → AllHold path (tests p)
Matches-AllHold (exactly s) path m = (m, tt)
Matches-AllHold (starting s) path m = (m, tt)
Matches-AllHold (ending s) path m = (m, tt)
Matches-AllHold (containing s) path m = (m, tt)
Matches-AllHold (between a b) path (m, e) =
    ((m ++ b, e), ((a ++ m, e ∙ sym (append_assoc a m b)), tt))

AllHold-Matches :
    (p : Pattern) (path : Str) → IsLongEnough p path → AllHold path (tests p) → Matches p path
AllHold-Matches (exactly s) path l h = h.0
AllHold-Matches (starting s) path l h = h.0
AllHold-Matches (ending s) path l h = h.0
AllHold-Matches (containing s) path l h = h.0
AllHold-Matches (between a b) path l h = between_of a b path h l

abbrev pub plain_url : Str → Url
plain_url path = record { scheme = []; host = []; path = path; raw_query = []; fragment = [] }

-- A path that is spelled as a pattern of parts with no star and no quote, is no condition, and is a
-- URL of that path alone, becomes the condition of the pattern's tests; a request's path passes them where the pattern matches it,
-- and, if it is long enough for both parts of a pattern with two, only then.
pub pattern_is_kept :
    (url_parse : Str → Result Url) (p : Pattern)
    → IsPattern p
    → has_prefix (pattern_text p) (text "condition:") ≡ false
    → url_parse (pattern_text p) ≡ ok (plain_url (pattern_text p))
    → (process_implementation_specific_path url_parse (pattern_text p) ≡ ok (all_text (tests p)))
      × ((path : Str) → Matches p path → AllHold path (tests p))
      × ((path : Str) → IsLongEnough p path → AllHold path (tests p) → Matches p path)
unfolding process_implementation_specific_path condition_of_url
pattern_is_kept url_parse p h no_condition parsed = (
  rw (pattern-not_empty p h, no_condition, parsed) (condition-pattern p h),
  Matches-AllHold p,
  AllHold-Matches p,
)
