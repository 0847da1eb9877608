-- ===== src/Controller/Errors.antt =====
-- pkg/oci/client/errors.go and src/controller/helpers.go: the errors that are tried again.
pub mod Transient
use oci_lb_ingress_controlle.Base.{
  ◌==◌, if◌then◌else◌, any, Str, text, str_eq, Error, message, wrapped, with_stack, service,
  not_found, Result, ok, err, ℕ, Bool, true, false, ◌&&◌, ◌||◌, List, [], ◌∷◌,
}

-- errors.Cause
unfoldable pub cause : Error → Error
cause (wrapped e) = cause e
cause (with_stack e) = cause e
cause (message m) = message m
cause (service status code) = service status code
cause not_found = not_found

-- The pairs of an HTTP status and a code that isRetryableServiceError lists.
unfoldable pub retryable : List (ℕ × Str)
retryable =
    (400, text "RelatedResourceNotAuthorizedOrNotFound")
    ∷ (400, text "LimitExceeded")
    ∷ (401, text "NotAuthenticated")
    ∷ (404, text "NotAuthorizedOrNotFound")
    ∷ (409, text "IncorrectState")
    ∷ (409, text "NotAuthorizedOrResourceAlreadyExists")
    ∷ (429, text "TooManyRequests")
    ∷ (500, text "InternalServerError")
    ∷ []

unfoldable pub is_retryable_service_error : ℕ → Str → Bool
is_retryable_service_error status code = any (λ p. status == p.0 && str_eq code p.1) retryable

abbrev retryable_cause : Error → Bool
retryable_cause (service status code) = is_retryable_service_error status code
retryable_cause _ = false

unfoldable pub is_retryable_error : Error → Bool
is_retryable_error e = retryable_cause (cause e)

abbrev missing_cause : Error → Bool
missing_cause not_found = true
missing_cause (service status code) = status == 404
missing_cause _ = false

unfoldable pub is_not_found : Error → Bool
is_not_found e = missing_cause (cause e)

-- `err.Error() == "Retry"`: errors.Wrap puts a text and a colon before that of the error,
-- errors.WithStack nothing; the text of a service error has a colon too.
unfoldable pub says_retry : Error → Bool
says_retry (message m) = str_eq m (text "Retry")
says_retry (with_stack e) = says_retry e
says_retry _ = false

unfoldable pub is_retriable_error : Error → Bool
is_retriable_error e = is_retryable_error e || says_retry e

unfoldable pub ignore_non_retriable_error : Error → Result (Unit {0})
ignore_non_retriable_error e = if is_retriable_error e then err e else ok tt
