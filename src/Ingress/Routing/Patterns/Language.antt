-- ===== src/Ingress/Routing/Patterns/Language.antt =====
-- Patterns of paths and what they match; the service's tests of a path, what they hold of, and
-- their texts.
use oci_lb_ingress_controlle.Ingress.Routing.{is_plain}
use oci_lb_ingress_controlle.Base.{
  length, Str, text, contains_byte, ◌+◌, ◌≤◌, ◌≡◌, true, false, List, [], ◌∷◌, ◌++◌,
}

pub data Pattern : Type 0 where
  exactly starting ending containing : Str → Pattern
  between : Str → Str → Pattern

-- How an ingress spells a pattern
unfoldable pub pattern_text : Pattern → Str
pattern_text (exactly s) = s
pattern_text (starting s) = s ++ (b'*' ∷ [])
pattern_text (ending s) = b'*' ∷ s
pattern_text (containing s) = b'*' ∷ (s ++ (b'*' ∷ []))
pattern_text (between a b) = a ++ (b'*' ∷ b)

-- A text of one byte or more, with no star and no quote, which a condition cannot hold.
abbrev pub IsPart : Str → Type 0
IsPart s = (is_plain s ≡ true) × (contains_byte 39 s ≡ false)

-- Its parts are not empty and have no star and no quote.
abbrev pub IsPattern : Pattern → Type 0
IsPattern (exactly s) = IsPart s
IsPattern (starting s) = IsPart s
IsPattern (ending s) = IsPart s
IsPattern (containing s) = IsPart s
IsPattern (between a b) = IsPart a × IsPart b

-- A star stands for any bytes.
abbrev pub Matches : Pattern → Str → Type 0
Matches (exactly s) path = path ≡ s
Matches (starting s) path = (r : Str) × (path ≡ s ++ r)
Matches (ending s) path = (l : Str) × (path ≡ l ++ s)
Matches (containing s) path = (l : Str) × (r : Str) × (path ≡ l ++ (s ++ r))
Matches (between a b) path = (m : Str) × (path ≡ a ++ (m ++ b))

-- A predicate of the service's condition language on the path of a request
pub data PathTest : Type 0 where
  eq sw ew cw : Str → PathTest

-- Their texts in that language, and that of the tests of a list
abbrev pub show_test : PathTest → Str
show_test (eq s) = text "http.request.url.path eq '" ++ (s ++ text "'")
show_test (sw s) = text "http.request.url.path sw '" ++ (s ++ text "'")
show_test (ew s) = text "http.request.url.path ew '" ++ (s ++ text "'")
show_test (cw s) = text "http.request.url.path cw '" ++ (s ++ text "'")

abbrev pub Holds : Str → PathTest → Type 0
Holds path (eq s) = path ≡ s
Holds path (sw s) = (r : Str) × (path ≡ s ++ r)
Holds path (ew s) = (l : Str) × (path ≡ l ++ s)
Holds path (cw s) = (l : Str) × (r : Str) × (path ≡ l ++ (s ++ r))

abbrev pub tests : Pattern → List PathTest
tests (exactly s) = eq s ∷ []
tests (starting s) = sw s ∷ []
tests (ending s) = ew s ∷ []
tests (containing s) = cw s ∷ []
tests (between a b) = sw a ∷ ew b ∷ []

abbrev pub AllHold : Str → List PathTest → Type 0
AllHold path [] = Unit
AllHold path (t ∷ ts) = Holds path t × AllHold path ts

-- The parts of a pattern do not overlap in a path this long.
abbrev pub IsLongEnough : Pattern → Str → Type 0
IsLongEnough (between a b) path = length a + length b ≤ length path
IsLongEnough _ path = Unit

abbrev pub joined_tests : List PathTest → Str
joined_tests [] = []
joined_tests (t ∷ []) = show_test t
joined_tests (t ∷ u ∷ ts) = show_test t ++ (text ", " ++ joined_tests (u ∷ ts))

abbrev pub all_text : List PathTest → Str
all_text ts = text "all(" ++ (joined_tests ts ++ text ")")
