-- ===== src/Storage/Exceptions/Drafts.antt =====
-- packages/storage/src/exceptions/audit-drafts.ts: the audit events of an exception.
use hookx.Prelude.{none, some, [], ◌∷◌}
use hookx.Domain.{Instant}
use hookx.Audit.Metadata.{string}
use hookx.Audit.Event.{AuditActor, AuditEventType, AuditAppendInput}
use hookx.Exceptions.Codes.{ExceptionCode, code_label, severity_label, status_label}
use hookx.Exceptions.Record.{ExceptionRecord}

unfoldable pub audit_event_type_for_exception : ExceptionCode → AuditEventType
audit_event_type_for_exception ExceptionCode.conflicting_event =
    AuditEventType.webhook_conflict_detected
audit_event_type_for_exception ExceptionCode.invalid_state_transition =
    AuditEventType.invalid_transition_detected
audit_event_type_for_exception ExceptionCode.retry_exhausted = AuditEventType.retry_exhausted
audit_event_type_for_exception _ = AuditEventType.exception_detected

unfoldable pub exception_detected_draft : ExceptionRecord → AuditActor → AuditAppendInput
unfolding audit_event_type_for_exception
exception_detected_draft row actor = record {
  event_type = audit_event_type_for_exception row.exception_code;
  occurred_at = row.detected_at;
  recorded_at = row.detected_at;
  provider = row.provider;
  payment_id = row.payment_id;
  webhook_event_id = row.webhook_event_id;
  previous_state = none;
  resulting_state = none;
  actor = actor;
  reason = code_label row.exception_code;
  correlation_id = row.correlation_id;
  metadata = some (
      ("exceptionId", string row.exception_id)
      ∷ ("exceptionCode", string (code_label row.exception_code))
      ∷ ("severity", string (severity_label row.severity))
      ∷ []);
}

unfoldable pub exception_status_changed_draft :
    ExceptionRecord → AuditActor → Instant → AuditAppendInput
exception_status_changed_draft row actor recorded_at = record {
  event_type = AuditEventType.exception_status_changed;
  occurred_at = row.detected_at;
  recorded_at = recorded_at;
  provider = row.provider;
  payment_id = row.payment_id;
  webhook_event_id = row.webhook_event_id;
  previous_state = none;
  resulting_state = none;
  actor = actor;
  reason = status_label row.status;
  correlation_id = row.correlation_id;
  metadata = some (
      ("exceptionId", string row.exception_id)
      ∷ ("exceptionCode", string (code_label row.exception_code))
      ∷ ("status", string (status_label row.status))
      ∷ []);
}
