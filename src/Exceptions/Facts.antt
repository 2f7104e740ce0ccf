-- ===== src/Exceptions/Facts.antt =====
-- packages/exceptions/src/facts.ts: what is known of a failure, from what each part reports.
use text.Mathlib.Text.{◌==◌ as str_eq}
use hookx.Prelude.{
  ℕ, String, Bool, false, not, ◌&&◌, ◌||◌, Option, none, some, List, [], ◌∷◌, ◌++◌, any, is_empty,
  if◌then◌else◌,
}
use hookx.Webhook.{WebhookEventType}
use hookx.StateMachine.Table.{PaymentRecordState}
use hookx.StateMachine.Decisions.{
  DecisionKind, ReplayReason, transition, identical_delivery, awaiting_prerequisite, out_of_order,
  material_conflict, impossible_after_ordering, payment_id_mismatch,
}
use hookx.Exceptions.Codes.{ExceptionCode}

-- `invalid_state_transition` has an optional state for `null` in place of a state, which itself is
-- null for a payment with no record; both are printed as "NONE", so `none` stands for the two.
pub data DetectionFact : Type 0 where
  invalid_signature malformed_webhook unsupported_event : String → DetectionFact
  duplicate_event conflicting_event : DetectionFact
  out_of_order_event : PaymentRecordState → WebhookEventType → String → DetectionFact
  invalid_state_transition : PaymentRecordState → Option WebhookEventType → String → DetectionFact
  processing_failure : String → Option ℕ → DetectionFact
  retry_exhausted : String → ℕ → DetectionFact
  missing_event : WebhookEventType → WebhookEventType → DetectionFact

-- `Set.prototype.has`.
abbrev pub has_text : List String → String → Bool
has_text texts value = any (λ t. str_eq t value) texts

malformed_codes : List String
malformed_codes =
    "MALFORMED_SIGNATURE" ∷ "INVALID_PAYLOAD" ∷ "INVALID_AMOUNT" ∷ "INVALID_CURRENCY"
    ∷ "INVALID_TIMESTAMP" ∷ "MISSING_EXTERNAL_ID" ∷ "MISSING_PAYMENT_ID"
    ∷ "INVALID_NORMALIZED_EVENT" ∷ "MALFORMED_PAYLOAD" ∷ []

signature_codes : List String
signature_codes = "INVALID_SIGNATURE" ∷ "MISSING_SIGNATURE" ∷ "EXPIRED_SIGNATURE" ∷ []

unfoldable pub facts_from_verification_status : String → List DetectionFact
unfolding signature_codes
facts_from_verification_status status =
    if has_text signature_codes status
    then invalid_signature status ∷ []
    else (if str_eq status "MALFORMED_SIGNATURE"
        then malformed_webhook status ∷ []
        else (if str_eq status "UNSUPPORTED_PROVIDER" then unsupported_event status ∷ [] else []))

unfoldable pub facts_from_webhook_error_code : String → List DetectionFact
unfolding malformed_codes signature_codes
facts_from_webhook_error_code code =
    if str_eq code "UNSUPPORTED_EVENT" || str_eq code "UNSUPPORTED_PROVIDER"
    then unsupported_event code ∷ []
    else (if has_text malformed_codes code
        then malformed_webhook code ∷ []
        else (if has_text signature_codes code then invalid_signature code ∷ [] else []))

-- `undefined` is `none`.
unfoldable pub facts_from_store_outcome : Option String → List DetectionFact
facts_from_store_outcome none = []
facts_from_store_outcome (some outcome) =
    if str_eq outcome "DUPLICATE"
    then duplicate_event ∷ []
    else (if str_eq outcome "CONFLICT" then conflicting_event ∷ [] else [])

abbrev pub reason_label : ReplayReason → String
reason_label transition = "TRANSITION"
reason_label identical_delivery = "IDENTICAL_DELIVERY"
reason_label awaiting_prerequisite = "AWAITING_PREREQUISITE"
reason_label out_of_order = "OUT_OF_ORDER"
reason_label material_conflict = "MATERIAL_CONFLICT"
reason_label impossible_after_ordering = "IMPOSSIBLE_AFTER_ORDERING"
reason_label payment_id_mismatch = "PAYMENT_ID_MISMATCH"

unfoldable pub facts_from_replay_decision :
    DecisionKind → ReplayReason → PaymentRecordState → WebhookEventType → List DetectionFact
facts_from_replay_decision DecisionKind.delayed reason previous_state event_type =
    out_of_order_event previous_state event_type (reason_label reason) ∷ []
facts_from_replay_decision DecisionKind.rejected payment_id_mismatch previous_state event_type =
    invalid_state_transition previous_state (some event_type) "PAYMENT_ID_MISMATCH" ∷ []
facts_from_replay_decision DecisionKind.rejected _ previous_state event_type =
    invalid_state_transition previous_state (some event_type) "INVALID_TRANSITION" ∷ []
facts_from_replay_decision DecisionKind.conflict material_conflict previous_state event_type =
    conflicting_event ∷ []
facts_from_replay_decision DecisionKind.conflict reason previous_state event_type =
    invalid_state_transition previous_state (some event_type) (reason_label reason) ∷ []
facts_from_replay_decision _ reason previous_state event_type = []

unfoldable pub facts_from_failure_code : String → List DetectionFact
unfolding facts_from_verification_status facts_from_webhook_error_code
facts_from_failure_code code =
    if has_text ("INVALID_TRANSITION" ∷ "IMPOSSIBLE_AFTER_ORDERING" ∷ "PAYMENT_ID_MISMATCH" ∷ [])
      code
    then invalid_state_transition none none code ∷ []
    else (if has_text ("PERMANENT_CONFLICT" ∷ "MATERIAL_CONFLICT" ∷ "CONFLICT" ∷ []) code
        then conflicting_event ∷ []
        else (if not (is_empty (facts_from_verification_status code))
            then facts_from_verification_status code
            else (if not (is_empty (facts_from_webhook_error_code code))
                then facts_from_webhook_error_code code
                else processing_failure code none ∷ [])))

abbrev pub or_else {ℓ} : {A : Type ℓ} → Option A → A → A
or_else none a = a
or_else (some b) a = b

-- The three blocks that push. The last one has a code, or it pushes nothing.
unfoldable pub facts_from_retry_outcome :
    String → ℕ → Option String → Option Bool → List DetectionFact
unfolding facts_from_failure_code
facts_from_retry_outcome status attempt_count failure_code exhausted_by_attempts =
    (if str_eq status "RETRY_SCHEDULED"
      then processing_failure (or_else failure_code "TEMPORARY_PROCESSING_FAILURE")
          (some attempt_count)
        ∷ []
      else [])
    ++ (if str_eq status "DEAD_LETTERED" && or_else exhausted_by_attempts false
        then retry_exhausted (or_else failure_code "MAX_RETRIES_EXCEEDED") attempt_count ∷ []
        else [])
    ++ (if str_eq status "DEAD_LETTERED" && not (or_else exhausted_by_attempts false)
        then elim failure_code [ none ↦ [] | some code ↦ facts_from_failure_code code ]
        else [])

-- `codeOf`: the `kind` of a fact is its code.
unfoldable pub code_of : DetectionFact → ExceptionCode
code_of (invalid_signature r) = ExceptionCode.invalid_signature
code_of (malformed_webhook r) = ExceptionCode.malformed_webhook
code_of (unsupported_event r) = ExceptionCode.unsupported_event
code_of duplicate_event = ExceptionCode.duplicate_event
code_of conflicting_event = ExceptionCode.conflicting_event
code_of (out_of_order_event s t r) = ExceptionCode.out_of_order_event
code_of (invalid_state_transition s t r) = ExceptionCode.invalid_state_transition
code_of (processing_failure c n) = ExceptionCode.processing_failure
code_of (retry_exhausted c n) = ExceptionCode.retry_exhausted
code_of (missing_event t d) = ExceptionCode.missing_event
