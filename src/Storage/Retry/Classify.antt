-- ===== src/Storage/Retry/Classify.antt =====
-- packages/storage/src/retry/classify.ts: which failures are worth another try.
pub mod Codes
use text.Mathlib.Text.{◌==◌ as str_eq}
use hookx.Prelude.{String, Bool, true, false, List, [], ◌∷◌, any, if◌then◌else◌}
use hookx.Domain.{codes}
use hookx.Exceptions.Draft.{is_reason}

pub data FailureClass : Type 0 where
  retryable non_retryable : FailureClass

-- The values of `FAILURE_CODE`, and the other members of `NON_RETRYABLE_CODES`.
unfoldable pub non_retryable_codes : List String
non_retryable_codes =
    "INVALID_SIGNATURE" ∷ "MALFORMED_PAYLOAD" ∷ "INVALID_NORMALIZED_EVENT" ∷ "UNSUPPORTED_EVENT"
    ∷ "INVALID_TRANSITION" ∷ "PERMANENT_CONFLICT" ∷ "INVALID_PAYLOAD" ∷ "MISSING_EXTERNAL_ID"
    ∷ "MISSING_PAYMENT_ID" ∷ "INVALID_AMOUNT" ∷ "INVALID_CURRENCY" ∷ "INVALID_TIMESTAMP"
    ∷ "UNSUPPORTED_PROVIDER" ∷ "EXPIRED_SIGNATURE" ∷ "MISSING_SIGNATURE" ∷ "MALFORMED_SIGNATURE"
    ∷ "EVENT_NOT_FOUND" ∷ "INVALID_ROW" ∷ "INCONSISTENT_IDENTITY" ∷ "UNSAFE_DATABASE_NAME"
    ∷ "MISSING_DATABASE_URL" ∷ "PAYMENT_ID_MISMATCH" ∷ "IMPOSSIBLE_AFTER_ORDERING"
    ∷ "MATERIAL_CONFLICT" ∷ []

-- What is thrown: a `RetryableProcessingError` by its code, another object by its `code` as a text,
-- and any other value.
pub data Thrown : Type 0 where
  retryable_error coded_error : String → Thrown
  other_error : Thrown

unfoldable pub safe_failure_code : String → String
unfolding is_reason
safe_failure_code code = if is_reason (codes code) then code else "TRANSIENT_INTERNAL_ERROR"

unfoldable pub classify_failure : String → FailureClass
unfolding non_retryable_codes
classify_failure code =
    if any (λ c. str_eq c code) non_retryable_codes then non_retryable else retryable

unfoldable pub classify_processing_error : Thrown → FailureClass × String
unfolding safe_failure_code classify_failure
classify_processing_error (retryable_error code) = (retryable, safe_failure_code code)
classify_processing_error (coded_error code) =
    (classify_failure (safe_failure_code code), safe_failure_code code)
classify_processing_error other_error = (retryable, "TRANSIENT_INTERNAL_ERROR")
