-- ===== src/Exceptions/Codes.antt =====
-- packages/exceptions/src/codes.ts, severity.ts, status.ts and precedence.ts.
pub mod Ranks
use text.Mathlib.Text.{◌==◌ as str_eq}
use hookx.Prelude.{
  ℕ, String, zero, suc, ◌+◌, ◌<◌, Ordering, compare, Bool, true, false, ◌||◌, List, [], ◌∷◌, any,
  length, if◌then◌else◌,
}

pub data ExceptionCode : Type 0 where
  invalid_signature malformed_webhook unsupported_event conflicting_event invalid_state_transition
        processing_failure retry_exhausted out_of_order_event missing_event duplicate_event :
      ExceptionCode

abbrev pub code_label : ExceptionCode → String
code_label invalid_signature = "INVALID_SIGNATURE"
code_label malformed_webhook = "MALFORMED_WEBHOOK"
code_label unsupported_event = "UNSUPPORTED_EVENT"
code_label conflicting_event = "CONFLICTING_EVENT"
code_label invalid_state_transition = "INVALID_STATE_TRANSITION"
code_label processing_failure = "PROCESSING_FAILURE"
code_label retry_exhausted = "RETRY_EXHAUSTED"
code_label out_of_order_event = "OUT_OF_ORDER_EVENT"
code_label missing_event = "MISSING_EVENT"
code_label duplicate_event = "DUPLICATE_EVENT"

-- `===` on codes.
unfoldable pub code_same : ExceptionCode → ExceptionCode → Bool
code_same a b = str_eq (code_label a) (code_label b)

pub data ExceptionSeverity : Type 0 where
  info warning error critical : ExceptionSeverity

abbrev pub severity_label : ExceptionSeverity → String
severity_label info = "INFO"
severity_label warning = "WARNING"
severity_label error = "ERROR"
severity_label critical = "CRITICAL"

-- `===` on severities.
unfoldable pub severity_same : ExceptionSeverity → ExceptionSeverity → Bool
severity_same a b = str_eq (severity_label a) (severity_label b)

unfoldable pub severity_for_exception_code : ExceptionCode → ExceptionSeverity
severity_for_exception_code duplicate_event = info
severity_for_exception_code out_of_order_event = warning
severity_for_exception_code missing_event = warning
severity_for_exception_code unsupported_event = warning
severity_for_exception_code malformed_webhook = error
severity_for_exception_code invalid_signature = error
severity_for_exception_code conflicting_event = error
severity_for_exception_code invalid_state_transition = error
severity_for_exception_code processing_failure = error
severity_for_exception_code retry_exhausted = critical

pub data ExceptionStatus : Type 0 where
  opened acknowledged resolved : ExceptionStatus

-- The names of `FORWARD` are `OPEN`, `ACKNOWLEDGED` and `RESOLVED`.
abbrev pub status_label : ExceptionStatus → String
status_label opened = "OPEN"
status_label acknowledged = "ACKNOWLEDGED"
status_label resolved = "RESOLVED"

unfoldable pub status_same : ExceptionStatus → ExceptionStatus → Bool
status_same a b = str_eq (status_label a) (status_label b)

forward : ExceptionStatus → List ExceptionStatus
forward opened = acknowledged ∷ resolved ∷ []
forward acknowledged = resolved ∷ []
forward resolved = []

unfoldable pub can_transition_exception_status : ExceptionStatus → ExceptionStatus → Bool
unfolding forward status_same
can_transition_exception_status from to =
    if status_same from to then true else any (λ s. status_same s to) (forward from)

unfoldable pub exception_precedence : List ExceptionCode
exception_precedence =
    invalid_signature ∷ malformed_webhook ∷ unsupported_event ∷ conflicting_event
    ∷ invalid_state_transition ∷ processing_failure ∷ retry_exhausted ∷ out_of_order_event
    ∷ missing_event ∷ duplicate_event ∷ []

-- The index of a code in a list, and else the list's length. Each code is in the list once, so the
-- `Map` has one entry for it.
rank_in : List ExceptionCode → ExceptionCode → ℕ
unfolding code_same
rank_in [] code = 0
rank_in (c ∷ codes) code =
    let later = rank_in codes code in if code_same c code then 0 else suc later

unfoldable pub exception_precedence_rank : ExceptionCode → ℕ
unfolding rank_in exception_precedence
exception_precedence_rank = rank_in exception_precedence

-- The sign of the difference.
unfoldable pub compare_exception_code : ExceptionCode → ExceptionCode → Ordering
unfolding exception_precedence_rank
compare_exception_code left right =
    compare (exception_precedence_rank left) (exception_precedence_rank right)
