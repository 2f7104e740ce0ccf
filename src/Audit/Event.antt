-- ===== src/Audit/Event.antt =====
-- packages/audit/src/actor.ts, event-type.ts, event.ts and reason.ts: the record of an event, and the
-- checks of its constructor.
use hookx.Prelude.{String, Bool, not, Option, if◌then◌else◌}
use hookx.Domain.{PaymentState, Identity, Instant, Result, ok, err, codes, is_identity}
use hookx.Audit.Metadata.{Object, sanitize_audit_metadata}
use hookx.Exceptions.Draft.{is_uuid, optional_uuid, is_reason}

pub data AuditActor : Type 0 where
  system webhook_provider retry_worker operator : AuditActor

pub data AuditEventType : Type 0 where
  webhook_received webhook_rejected webhook_duplicate webhook_conflict payment_state_changed
        webhook_delayed retry_scheduled retry_attempted retry_succeeded retry_dead_lettered
        exception_detected exception_status_changed webhook_conflict_detected
        invalid_transition_detected retry_exhausted investigation_recorded :
      AuditEventType

-- `NewAuditEvent` without its id.
pub record AuditAppendInput : Type 0 where
  pub event_type : AuditEventType
  pub occurred_at : Instant
  pub recorded_at : Instant
  pub provider : Option Identity
  pub payment_id : Option Identity
  pub webhook_event_id : Option String
  pub previous_state : Option PaymentState
  pub resulting_state : Option PaymentState
  pub actor : AuditActor
  pub reason : String
  pub correlation_id : String
  pub metadata : Option Object

pub record AuditEvent : Type 0 where
  pub audit_event_id : String
  pub event_type : AuditEventType
  pub occurred_at : Instant
  pub recorded_at : Instant
  pub provider : Option Identity
  pub payment_id : Option Identity
  pub webhook_event_id : Option String
  pub previous_state : Option PaymentState
  pub resulting_state : Option PaymentState
  pub actor : AuditActor
  pub reason : String
  pub correlation_id : String
  pub metadata : Object

unfoldable pub is_audit_reason_code : String → Bool
unfolding is_reason
is_audit_reason_code value = is_reason (codes value)

unfoldable pub audit_reason_code : String → String
unfolding is_audit_reason_code
audit_reason_code value =
    if is_audit_reason_code value then value else "TEMPORARY_PROCESSING_FAILURE"

-- The event of an input that passes.
unfoldable pub checked_audit_event : String → AuditAppendInput → AuditEvent
unfolding audit_reason_code
checked_audit_event audit_event_id input = record {
  audit_event_id = audit_event_id;
  event_type = input.event_type;
  occurred_at = input.occurred_at;
  recorded_at = input.recorded_at;
  provider = input.provider;
  payment_id = input.payment_id;
  webhook_event_id = input.webhook_event_id;
  previous_state = input.previous_state;
  resulting_state = input.resulting_state;
  actor = input.actor;
  reason = audit_reason_code input.reason;
  correlation_id = input.correlation_id;
  metadata = sanitize_audit_metadata input.metadata;
}

-- The type, the actor, the states, the identities and the instants pass their checks by their types.
unfoldable pub create_audit_event : String → AuditAppendInput → Result AuditEvent
unfolding is_uuid optional_uuid is_identity checked_audit_event
create_audit_event audit_event_id input =
    if not (is_uuid audit_event_id)
    then err "INVALID_IDENTITY"
    else (if not (optional_uuid input.webhook_event_id)
        then err "INVALID_IDENTITY"
        else (if not (is_identity input.correlation_id)
            then err "INVALID_IDENTITY"
            else ok (checked_audit_event audit_event_id input)))
