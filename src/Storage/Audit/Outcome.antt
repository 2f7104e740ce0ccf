-- ===== src/Storage/Audit/Outcome.antt =====
-- packages/storage/src/audit/persist-outcome.ts and repository.ts: the status, the payment and the
-- audit events of an outcome, one call after the other.
use hookx.Prelude.{String, Option, some, List}
use hookx.Audit.Event.{AuditEvent, AuditAppendInput}
use hookx.Storage.Payments.{StoredPayment}
use hookx.Storage.Action.{Action, pure, ◌>>=◌, ◌>>◌, for_each}
use hookx.Storage.Retry.Attempt.{WebhookEventRepository}

-- The methods of `AuditRepository` that are called here and by the worker.
pub record AuditRepository (S : Type 0) : Type 0 where
  pub append : AuditAppendInput → Action S AuditEvent
  pub list_by_webhook : String → Action S (List AuditEvent)

pub record PaymentRepository (S : Type 0) : Type 0 where
  pub upsert : StoredPayment → Action S StoredPayment

pub data WebhookTerminalStatus : Type 0 where
  processed rejected conflict : WebhookTerminalStatus

abbrev pub PersistOutcomeFn : Type 0 → Type 0
PersistOutcomeFn S =
    String
    → WebhookTerminalStatus
    → List AuditAppendInput
    → Option StoredPayment
    → Action S (Unit {0})

module _ {S : Type 0} where
  unfoldable pub append_audit_drafts :
      AuditRepository S → List AuditAppendInput → Action S (Unit {0})
  unfolding for_each
  append_audit_drafts audit drafts =
      for_each (λ draft. audit.append draft >>= λ created. pure tt) drafts

  write_payment : Option (PaymentRepository S) → Option StoredPayment → Action S (Unit {0})
  write_payment (some payments) (some payment) = payments.upsert payment >>= λ row. pure tt
  write_payment _ _ = pure tt

  mark_terminal : WebhookEventRepository S → String → WebhookTerminalStatus → Action S (Unit {0})
  mark_terminal events id processed = events.mark_processed id >>= λ row. pure tt
  mark_terminal events id rejected = events.mark_rejected id >>= λ row. pure tt
  mark_terminal events id conflict = events.mark_conflict id >>= λ row. pure tt

  unfoldable pub create_sequential_outcome_writer :
      WebhookEventRepository S
      → AuditRepository S
      → Option (PaymentRepository S)
      → PersistOutcomeFn S
  unfolding mark_terminal write_payment append_audit_drafts
  create_sequential_outcome_writer events audit payments webhook_event_id status drafts payment =
      mark_terminal events webhook_event_id status
      >> (write_payment payments payment >> append_audit_drafts audit drafts)
