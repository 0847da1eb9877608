-- ===== src/Controller/Errors/Transient.antt =====
-- The errors that are tried again, described by themselves.
use oci_lb_ingress_controlle.Controller.Errors.{
  cause, retryable, is_retryable_service_error, is_retryable_error, says_retry, is_retriable_error,
}
use oci_lb_ingress_controlle.Base.{
  ◌==◌, any, Str, text, str_eq, str_eq_iff, Error, message, wrapped, with_stack, service, not_found,
  ℕ, ◌≡◌, ◌↔◌, ◌⊎◌, true, ◌&&◌, List, [], ◌∷◌, arith,
}

-- The HTTP status and the code of each error of the service that another try may mend
abbrev pub tried_again : List (ℕ × Str)
tried_again =
    (400, text "RelatedResourceNotAuthorizedOrNotFound")
    ∷ (400, text "LimitExceeded")
    ∷ (401, text "NotAuthenticated")
    ∷ (404, text "NotAuthorizedOrNotFound")
    ∷ (409, text "IncorrectState")
    ∷ (409, text "NotAuthorizedOrResourceAlreadyExists")
    ∷ (429, text "TooManyRequests")
    ∷ (500, text "InternalServerError")
    ∷ []

abbrev pub Listed : ℕ → Str → List (ℕ × Str) → Type 0
Listed status code [] = ⊥
Listed status code ((s, c) ∷ pairs) = ((status ≡ s) × (code ≡ c)) ⊎ Listed status code pairs

-- Such an error of the service, wrapped or not
abbrev pub IsServiceTransient : Error → Type 0
IsServiceTransient (service status code) = Listed status code tried_again
IsServiceTransient (wrapped e) = IsServiceTransient e
IsServiceTransient (with_stack e) = IsServiceTransient e
IsServiceTransient (message m) = ⊥
IsServiceTransient not_found = ⊥

-- An error whose text is `Retry`
abbrev pub SaysRetry : Error → Type 0
SaysRetry (message m) = m ≡ text "Retry"
SaysRetry (with_stack e) = SaysRetry e
SaysRetry (wrapped e) = ⊥
SaysRetry (service status code) = ⊥
SaysRetry not_found = ⊥

abbrev pub IsTransient : Error → Type 0
IsTransient e = IsServiceTransient e ⊎ SaysRetry e

any-Listed :
    (status : ℕ) (code : Str) (pairs : List (ℕ × Str))
    → (any (λ p. status == p.0 && str_eq code p.1) pairs ≡ true) ↔ Listed status code pairs
unfolding any
any-Listed status code [] = (λ h. ground arith, λ h. absurd h)
any-Listed status code ((s, c) ∷ pairs) =
    ground (arith, str_eq_iff code c, any-Listed status code pairs)

service_iff : (e : Error) → (is_retryable_error e ≡ true) ↔ IsServiceTransient e
unfolding is_retryable_error cause is_retryable_service_error retryable
service_iff (service status code) = any-Listed status code tried_again
service_iff (wrapped e) = service_iff e
service_iff (with_stack e) = service_iff e
service_iff (message m) = (λ h. ground arith, λ h. absurd h)
service_iff not_found = (λ h. ground arith, λ h. absurd h)

says_retry_iff : (e : Error) → (says_retry e ≡ true) ↔ SaysRetry e
unfolding says_retry
says_retry_iff (message m) = str_eq_iff m (text "Retry")
says_retry_iff (with_stack e) = says_retry_iff e
says_retry_iff (wrapped e) = (λ h. ground arith, λ h. absurd h)
says_retry_iff (service status code) = (λ h. ground arith, λ h. absurd h)
says_retry_iff not_found = (λ h. ground arith, λ h. absurd h)

pub is_retriable_error_iff : (e : Error) → (is_retriable_error e ≡ true) ↔ IsTransient e
unfolding is_retriable_error
is_retriable_error_iff e = ground (arith, service_iff e, says_retry_iff e)
