-- ===== src/Base/Results.antt =====
-- Go errors as values: what a call returns beside its result.
use Prim.Native.Nat.{ℕ}
use mathlib.Core.Path.{◌≡◌, refl}
use mathlib.Core.Logic.{◌⊎◌, inl, inr}
use oci_lb_ingress_controlle.Base.Text.{Str}

-- `message` is errors.New and errors.Errorf, `wrapped` errors.Wrap and Wrapf,
-- `with_stack` errors.WithStack, which leaves the text as it is, `service` an error of
-- the OCI service with its HTTP status and code, and `not_found` the client's errNotFound.
pub data Error : Type 0 where
  message : Str → Error
  wrapped with_stack : Error → Error
  service : ℕ → Str → Error
  not_found : Error

pub data Result {ℓ} (A : Type ℓ) : Type ℓ where
  ok : A → Result A
  err : Error → Result A

-- `if err != nil { return err }` before what comes next.
infixl 5 ◌>>=◌ ◌>>◌
abbrev pub ◌>>=◌ {ℓ₁ ℓ₂} : {X : Type ℓ₁} {Y : Type ℓ₂} → Result X → (X → Result Y) → Result Y
err problem >>= next = err problem
ok x >>= next = next x

abbrev pub ◌>>◌ {ℓ} : {Y : Type ℓ} → Result (Unit {0}) → Result Y → Result Y
first >> second = first >>= λ _. second

-- `if err != nil { return errors.Wrap(err, …) }`
abbrev pub wrap {ℓ} : {A : Type ℓ} → Result A → Result A
wrap (ok a) = ok a
wrap (err e) = err (wrapped e)

-- `if err != nil { return errors.WithStack(err) }`
abbrev pub stack {ℓ} : {A : Type ℓ} → Result A → Result A
stack (ok a) = ok a
stack (err e) = err (with_stack e)

pub Result-cases {ℓ} :
    {A : Type ℓ} (r : Result A) → ((a : A) × (r ≡ ok a)) ⊎ ((e : Error) × (r ≡ err e))
Result-cases (ok a) = inl (a, refl)
Result-cases (err e) = inr (e, refl)

-- What is returned with no error satisfies a predicate.
abbrev pub Ensures {ℓ κ} : {A : Type ℓ} → (A → Type κ) → Result A → Type κ
Ensures P (ok a) = P a
Ensures P (err e) = Unit

pub Ensures-then {ℓ₁ ℓ₂ κ₁ κ₂} :
    {X : Type ℓ₁} {Y : Type ℓ₂} (P : X → Type κ₁) (Q : Y → Type κ₂) (r : Result X)
    (next : X → Result Y)
    → Ensures P r
    → ((x : X) → P x → Ensures Q (next x))
    → Ensures Q (r >>= next)
Ensures-then P Q (ok x) next h k = k x h
Ensures-then P Q (err e) next h k = tt

pub Ensures-wrap {ℓ κ} :
    {A : Type ℓ} (P : A → Type κ) (r : Result A) → Ensures P r → Ensures P (wrap r)
Ensures-wrap P (ok a) h = h
Ensures-wrap P (err e) h = tt

pub Ensures_self {ℓ} : {A : Type ℓ} (r : Result A) → Ensures (λ a. r ≡ ok a) r
Ensures_self (ok a) = refl
Ensures_self (err e) = tt

-- Where nothing is to be known of the first part
pub Ensures-after {ℓ₁ ℓ₂ κ} :
    {X : Type ℓ₁} {Y : Type ℓ₂} (Q : Y → Type κ) (r : Result X) (next : X → Result Y)
    → ((x : X) → Ensures Q (next x))
    → Ensures Q (r >>= next)
Ensures-after Q (ok x) next k = k x
Ensures-after Q (err e) next k = tt

pub Ensures-ok {ℓ κ} :
    {A : Type ℓ} (P : A → Type κ) (r : Result A) (a : A) → Ensures P r → r ≡ ok a → P a
Ensures-ok P r a h e = rw e at h

pub Ensures-both {ℓ κ₁ κ₂} :
    {A : Type ℓ} (P : A → Type κ₁) (Q : A → Type κ₂) (r : Result A)
    → Ensures P r
    → Ensures Q r
    → Ensures (λ a. P a × Q a) r
Ensures-both P Q (ok a) h k = (h, k)
Ensures-both P Q (err e) h k = tt
