-- ===== src/Exceptions/Detect.antt =====
-- packages/exceptions/src/detect.ts: the exceptions that facts give, at most one for a code.
pub mod Outcome
use text.Mathlib.Text.{◌==◌ as str_eq}
use hookx.Prelude.{
  Ordering, ℕ, String, Bool, true, false, not, ◌&&◌, ◌||◌, Option, none, some, List, [], ◌∷◌, ◌++◌,
  any, sort, if◌then◌else◌,
}
use hookx.Domain.{Identity, Instant, Result, ok, err, ◌>>=◌, codes}
use hookx.Webhook.{type_label}
use hookx.StateMachine.Table.{PaymentRecordState, state_label}
use hookx.Audit.Metadata.{Object, string, number, boolean}
use hookx.Exceptions.Codes.{ExceptionCode, code_same, compare_exception_code}
use hookx.Exceptions.Facts.{
  DetectionFact, invalid_signature, malformed_webhook, unsupported_event, duplicate_event,
  conflicting_event, out_of_order_event, invalid_state_transition, processing_failure,
  retry_exhausted, missing_event, code_of,
}
use hookx.Exceptions.Prerequisite.{unique_missing_prerequisite}
use hookx.Exceptions.Draft.{ExceptionDraft, ExceptionDraftInput, create_exception_draft, is_reason}

pub record DetectionContext : Type 0 where
  pub detected_at : Instant
  pub correlation_id : String
  pub provider : Option Identity
  pub payment_id : Option Identity
  pub webhook_event_id : Option String
  pub facts : List DetectionFact

abbrev is_missing : DetectionFact → Bool
is_missing (missing_event t d) = true
is_missing _ = false

-- What the `for` loop pushes for a fact.
implied : DetectionFact → List DetectionFact
implied (out_of_order_event previous_state event_type reason) =
    if str_eq reason "AWAITING_PREREQUISITE" || str_eq reason "OUT_OF_ORDER"
    then elim (unique_missing_prerequisite previous_state event_type) [
      | none ↦ []
      | some missing ↦ missing_event missing event_type ∷ []
    ]
    else []
implied _ = []

implied_by : List DetectionFact → List DetectionFact
unfolding implied
implied_by [] = []
implied_by (f ∷ facts) = implied f ++ implied_by facts

unfoldable pub expand_facts : List DetectionFact → List DetectionFact
unfolding implied_by
expand_facts facts = if any is_missing facts then facts else facts ++ implied_by facts

unfoldable pub draft_input :
    DetectionContext → ExceptionCode → String → Option Object → ExceptionDraftInput
draft_input context exception_code reason metadata = record {
  exception_code = exception_code;
  payment_id = context.payment_id;
  webhook_event_id = context.webhook_event_id;
  provider = context.provider;
  reason = reason;
  detected_at = context.detected_at;
  correlation_id = context.correlation_id;
  metadata = metadata;
}

-- The code, the reason and the metadata with which `draftFromFact` makes the draft of a fact.
unfoldable pub details : DetectionFact → ExceptionCode × String × Option Object
unfolding is_reason
details (invalid_signature reason) = (ExceptionCode.invalid_signature, reason, none)
details (malformed_webhook reason) = (ExceptionCode.malformed_webhook, reason, none)
details (unsupported_event reason) = (ExceptionCode.unsupported_event, reason, none)
details duplicate_event = (ExceptionCode.duplicate_event, "DUPLICATE_EVENT", none)
details conflicting_event = (
  ExceptionCode.conflicting_event,
  "CONFLICTING_EVENT",
  some (("originalAuthoritative", boolean true) ∷ []),
)
details (out_of_order_event previous_state event_type reason) = (
  ExceptionCode.out_of_order_event,
  if str_eq reason "AWAITING_PREREQUISITE" then "AWAITING_PREREQUISITE" else "OUT_OF_ORDER",
  some (
      ("previousState", string (state_label previous_state))
      ∷ ("eventType", string (type_label event_type))
      ∷ []),
)
details (invalid_state_transition previous_state event_type reason) = (
  ExceptionCode.invalid_state_transition,
  reason,
  some (
      (("previousState", string (state_label previous_state)) ∷ [])
      ++ elim event_type [ none ↦ [] | some t ↦ ("eventType", string (type_label t)) ∷ [] ]
      ++ (("reasonCode", string reason) ∷ [])),
)
details (processing_failure failure_code attempt_count) = (
  ExceptionCode.processing_failure,
  if is_reason (codes failure_code) then failure_code else "TEMPORARY_PROCESSING_FAILURE",
  elim attempt_count [ none ↦ none | some n ↦ some (("attempt", number n) ∷ []) ],
)
details (retry_exhausted failure_code attempt_count) = (
  ExceptionCode.retry_exhausted,
  "MAX_RETRIES_EXCEEDED",
  some (("attempt", number attempt_count) ∷ []),
)
details (missing_event missing_event_type delayed_event_type) = (
  ExceptionCode.missing_event,
  "AWAITING_PREREQUISITE",
  some (
      ("missingEventType", string (type_label missing_event_type))
      ∷ ("delayedEventType", string (type_label delayed_event_type))
      ∷ []),
)

-- `draftFromFact`, which is never null.
unfoldable pub draft_from_fact : DetectionContext → DetectionFact → Result ExceptionDraft
unfolding create_exception_draft draft_input details
draft_from_fact context fact =
    let (exception_code, reason, metadata) = details fact in
    create_exception_draft (draft_input context exception_code reason metadata)

-- `byCode.has(code)`: a draft is stored under its code.
unfoldable pub has_code : List ExceptionDraft → ExceptionCode → Bool
has_code drafts code = any (λ (d : ExceptionDraft). code_same d.exception_code code) drafts

-- The `for` loop, from the values of the `Map` in order of insertion.
unfoldable pub collect :
    DetectionContext → List ExceptionDraft → List DetectionFact → Result (List ExceptionDraft)
unfolding has_code draft_from_fact
collect context by_code [] = ok by_code
collect context by_code (fact ∷ facts) =
    let skipped = collect context by_code facts in
    elim (has_code by_code (code_of fact)) [
      | true ↦ skipped
      | false ↦ draft_from_fact context fact >>= (λ d. collect context (by_code ++ d ∷ []) facts)
    ]

-- The comparison that `sort` takes.
abbrev pub by_precedence : ExceptionDraft → ExceptionDraft → Ordering
by_precedence left right = compare_exception_code left.exception_code right.exception_code

unfoldable pub detect_exception : DetectionContext → Result (List ExceptionDraft)
unfolding collect expand_facts
detect_exception context =
    collect context [] (expand_facts context.facts) >>= (λ drafts. ok (sort by_precedence drafts))
