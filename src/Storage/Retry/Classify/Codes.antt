-- ===== src/Storage/Retry/Classify/Codes.antt =====
-- The code that is stored for a failure.
use hookx.Prelude.{◌≡◌, refl, true, Bool-cases, inl, inr, String}
use hookx.Domain.{codes}
use hookx.Exceptions.Draft.{is_reason}
use hookx.Storage.Retry.Classify.{
  Thrown, retryable_error, coded_error, other_error, safe_failure_code, classify_processing_error,
}

safe_is_reason : (code : String) → is_reason (codes (safe_failure_code code)) ≡ true
unfolding safe_failure_code is_reason
safe_is_reason code = elim (Bool-cases (is_reason (codes code))) [
  | inl h ↦ rw (h, safe_failure_code) h
  | inr h ↦ rw (h, safe_failure_code) refl
]

-- Whatever is thrown, the code that is stored has the form of a reason.
pub classify_processing_error-is_reason :
    (thrown : Thrown) → is_reason (codes (classify_processing_error thrown).1) ≡ true
unfolding classify_processing_error
classify_processing_error-is_reason (retryable_error code) = safe_is_reason code
classify_processing_error-is_reason (coded_error code) = safe_is_reason code
classify_processing_error-is_reason other_error = refl
