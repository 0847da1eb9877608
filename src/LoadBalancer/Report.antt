-- ===== src/LoadBalancer/Report.antt =====
-- The lists of change messages of load_balancer_util.go: one line for each test that holds.
use oci_lb_ingress_controlle.Base.{
  if◌then◌else◌, bool_eq, int_eq, int_eq_iff, ℤ, is_empty, All, Str, text, str_eq, str_eq_iff, join,
  ◌≡◌, refl, ◌↔◌, Bool, true, false, not, List, [], ◌∷◌, ◌++◌, arith,
}

-- `if test { changes = append(changes, line) }`, test after test.
unfoldable pub report : List (Bool × Str) → List Str
report [] = []
report ((test, line) ∷ rest) = if test then line ∷ report rest else report rest

-- changeFmtStr, "%v -> Actual:%v - Desired:%v"
unfoldable pub change_line : Str → Str → Str → Str
change_line what actual desired =
    what ++ (text " -> Actual:" ++ (actual ++ (text " - Desired:" ++ desired)))

-- backendChangeFmtStr, "%v -> Backend:%v"
unfoldable pub backend_change_line : Str → Str → Str
backend_change_line what backend = what ++ (text " -> Backend:" ++ backend)

-- %v of a bool, and of a string slice
unfoldable pub show_bool : Bool → Str
show_bool true = text "true"
show_bool false = text "false"

unfoldable pub show_list : List Str → Str
show_list xs = b'[' ∷ (join (text " ") xs ++ text "]")

-- Nothing is reported exactly when every test fails.
pub report-empty : (ts : List (Bool × Str)) → report ts ≡ [] ↔ All (λ t. t.0 ≡ false) ts
unfolding report
report-empty [] = (λ e. tt, λ h. refl)
report-empty ((true, line) ∷ rest) = (λ e. cc, λ h. cc h.0)
report-empty ((false, line) ∷ rest) =
    (λ e. (refl, (report-empty rest).0 e), λ h. (report-empty rest).1 h.1)

pub append-eq-nil {ℓ} : {A : Type ℓ} (xs ys : List A) → xs ++ ys ≡ [] → (xs ≡ []) × (ys ≡ [])
append-eq-nil [] ys e = (refl, e)
append-eq-nil (x ∷ xs) ys e = cc

is_empty-nil {ℓ} : {A : Type ℓ} (xs : List A) → (is_empty xs ≡ true) ↔ (xs ≡ [])
is_empty-nil [] = (λ e. refl, λ e. refl)
is_empty-nil (x ∷ xs) = (λ e. cc, λ e. cc)

-- The tests that the code makes, as equations.
abbrev pub int_ne : ℤ → ℤ → Bool
int_ne a b = not (int_eq a b)

abbrev pub str_ne : Str → Str → Bool
str_ne a b = not (str_eq a b)

abbrev pub bool_ne : Bool → Bool → Bool
bool_ne a b = not (bool_eq a b)

pub int_ne-false : (a b : ℤ) → (int_ne a b ≡ false) ↔ (a ≡ b)
int_ne-false a b = (λ h. (int_eq_iff a b).0 (ground arith), λ e. rw ((int_eq_iff a b).1 e))

pub str_ne-false : (a b : Str) → (str_ne a b ≡ false) ↔ (a ≡ b)
str_ne-false a b = (λ h. (str_eq_iff a b).0 (ground arith), λ e. rw ((str_eq_iff a b).1 e))

pub bool_ne-false : (a b : Bool) → (bool_ne a b ≡ false) ↔ (a ≡ b)
bool_ne-false a b = ground arith
