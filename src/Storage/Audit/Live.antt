-- ===== src/Storage/Audit/Live.antt =====
-- packages/storage/src/audit/live.ts: the audit events of a delivery, of its outcome and of its
-- retries.
use text.Mathlib.Text.{◌==◌ as str_eq}
use hookx.Prelude.{ℕ, String, Bool, ◌||◌, Option, none, some, List, [], ◌∷◌, if◌then◌else◌}
use hookx.Domain.{PaymentState, Identity, Instant}
use hookx.Webhook.{type_label}
use hookx.StateMachine.Decisions.{
  DecisionKind, accepted, duplicate, delayed, conflict, rejected, ReplayReason,
  awaiting_prerequisite, ReplayDecision,
}
use hookx.Audit.Metadata.{Object, string, number}
use hookx.Audit.Event.{
  AuditActor, system, webhook_provider, AuditEventType, webhook_rejected, payment_state_changed,
  webhook_delayed, webhook_conflict, AuditAppendInput,
}
use hookx.Storage.Events.{StoredWebhookEvent}

pub record LiveAuditContext : Type 0 where
  pub stored : StoredWebhookEvent
  pub now : Instant
  pub correlation_id : String
  pub actor : AuditActor
  pub attempt : ℕ

unfoldable pub ingest_rejection_draft :
    Instant → String → Option Identity → String → Option Instant → AuditAppendInput
ingest_rejection_draft now correlation_id provider reason occurred_at = record {
  event_type = webhook_rejected;
  occurred_at = elim occurred_at [ none ↦ now | some at ↦ at ];
  recorded_at = now;
  provider = provider;
  payment_id = none;
  webhook_event_id = none;
  previous_state = none;
  resulting_state = none;
  actor = system;
  reason = reason;
  correlation_id = correlation_id;
  metadata = none;
}

-- `{ eventType: stored.event.eventType }`.
event_type_of : StoredWebhookEvent → Option Object
event_type_of stored = some (("eventType", string (type_label stored.event.event_type)) ∷ [])

unfoldable pub webhook_receipt_draft :
    StoredWebhookEvent → Instant → String → AuditEventType → String → AuditAppendInput
unfolding event_type_of
webhook_receipt_draft stored now correlation_id event_type reason = record {
  event_type = event_type;
  occurred_at = stored.event.occurred_at;
  recorded_at = now;
  provider = some stored.event.provider;
  payment_id = some stored.event.payment_id;
  webhook_event_id = some stored.id;
  previous_state = none;
  resulting_state = none;
  actor = webhook_provider;
  reason = reason;
  correlation_id = correlation_id;
  metadata = event_type_of stored;
}

unfoldable pub retry_lifecycle_draft : LiveAuditContext → AuditEventType → String → AuditAppendInput
retry_lifecycle_draft context event_type reason = record {
  event_type = event_type;
  occurred_at = context.now;
  recorded_at = context.now;
  provider = some context.stored.event.provider;
  payment_id = some context.stored.event.payment_id;
  webhook_event_id = some context.stored.id;
  previous_state = none;
  resulting_state = none;
  actor = context.actor;
  reason = reason;
  correlation_id = context.correlation_id;
  metadata = some (("attempt", number context.attempt) ∷ []);
}

-- What the four drafts of `outcomeDraftsFromDecision` share.
outcome_draft :
    LiveAuditContext
    → AuditEventType
    → Option PaymentState
    → Option PaymentState
    → String
    → Option Object
    → AuditAppendInput
outcome_draft context event_type previous_state resulting_state reason metadata = record {
  event_type = event_type;
  occurred_at = context.stored.event.occurred_at;
  recorded_at = context.now;
  provider = some context.stored.event.provider;
  payment_id = some context.stored.event.payment_id;
  webhook_event_id = some context.stored.id;
  previous_state = previous_state;
  resulting_state = resulting_state;
  actor = system;
  reason = reason;
  correlation_id = context.correlation_id;
  metadata = metadata;
}

-- `decision.reason === "AWAITING_PREREQUISITE" ? … : …`
delay_reason : ReplayReason → String
delay_reason awaiting_prerequisite = "AWAITING_PREREQUISITE"
delay_reason _ = "OUT_OF_ORDER"

drafts_of_kind : LiveAuditContext → ReplayDecision → DecisionKind → List AuditAppendInput
unfolding outcome_draft event_type_of delay_reason
drafts_of_kind context decision accepted =
    outcome_draft context payment_state_changed decision.previous_state decision.resulting_state
      "ACCEPTED" (event_type_of context.stored)
    ∷ []
drafts_of_kind context decision delayed =
    outcome_draft context webhook_delayed decision.previous_state decision.resulting_state
      (delay_reason decision.reason) (event_type_of context.stored)
    ∷ []
drafts_of_kind context decision rejected =
    outcome_draft context payment_state_changed decision.previous_state decision.previous_state
      "INVALID_TRANSITION" (event_type_of context.stored)
    ∷ []
drafts_of_kind context decision conflict =
    outcome_draft context webhook_conflict decision.previous_state decision.resulting_state
      "CONFLICTING_EVENT" none
    ∷ []
drafts_of_kind context decision duplicate = []

unfoldable pub outcome_drafts_from_decision :
    LiveAuditContext → Option ReplayDecision → List AuditAppendInput
unfolding drafts_of_kind
outcome_drafts_from_decision context none = []
outcome_drafts_from_decision context (some decision) =
    drafts_of_kind context decision decision.decision

unfoldable pub retry_failure_reason : String → Bool → String
retry_failure_reason code exhausted_by_attempts =
    if exhausted_by_attempts
    then "MAX_RETRIES_EXCEEDED"
    else (if str_eq code "TEMPORARY_UNAVAILABLE"
          || str_eq code "TEMPORARY_DATABASE_FAILURE"
          || str_eq code "TRANSIENT_INTERNAL_ERROR"
        then "TEMPORARY_PROCESSING_FAILURE"
        else code)
