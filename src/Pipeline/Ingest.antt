-- ===== src/Pipeline/Ingest.antt =====
-- apps/api/src/pipeline/process-incoming-webhook.ts: one delivery, from its verification to the
-- answer.
use hookx.Prelude.{
  ℕ, String, Bool, true, false, not, ◌||◌, Option, none, some, List, [], ◌∷◌, find, length,
}
use hookx.Domain.{label, Identity, Instant, same}
use hookx.Webhook.{NormalizedWebhookEvent, type_label}
use hookx.StateMachine.Decisions.{DecisionKind, ReplayDecision, ReplayResult}
use hookx.Audit.Event.{AuditAppendInput, system}
use hookx.Exceptions.Codes.{ExceptionSeverity, code_label}
use hookx.Exceptions.Facts.{DetectionFact, reason_label}
use hookx.Exceptions.Record.{ExceptionRecord}
use hookx.Storage.Action.{Action, pure, ◌>>=◌, ◌>>◌, try_catch, for_each, when}
use hookx.Storage.Audit.Live.{ingest_rejection_draft}
use hookx.Storage.Audit.Outcome.{AuditRepository}
use hookx.Storage.Exceptions.Recording.{record_exceptions_safely}
use hookx.Storage.Retry.Memory.{RetryStatus}
use hookx.Pipeline.{
  PipelineHttpBody, pipeline_http_body, ProcessingObservation, ProcessIncomingWebhookResult,
  LogLevel, LifecycleEvent, LifecycleLogInput, entry, Delivery, IngestDependencies,
  optional_provider,
}

unfoldable pub kind_label : DecisionKind → String
kind_label DecisionKind.accepted = "ACCEPTED"
kind_label DecisionKind.duplicate = "DUPLICATE"
kind_label DecisionKind.delayed = "DELAYED"
kind_label DecisionKind.conflict = "CONFLICT"
kind_label DecisionKind.rejected = "REJECTED"

unfoldable pub retry_label : RetryStatus → String
retry_label RetryStatus.pending = "PENDING"
retry_label RetryStatus.processing = "PROCESSING"
retry_label RetryStatus.succeeded = "SUCCEEDED"
retry_label RetryStatus.retry_scheduled = "RETRY_SCHEDULED"
retry_label RetryStatus.dead_lettered = "DEAD_LETTERED"

abbrev pub mapped {ℓ κ} : {A : Type ℓ} {B : Type κ} → (A → B) → Option A → Option B
mapped f none = none
mapped f (some a) = some (f a)

is_accepted : DecisionKind → Bool
is_accepted DecisionKind.accepted = true
is_accepted _ = false

-- `record.severity === "INFO" ? "INFO" : "WARN"`.
exception_level : ExceptionSeverity → LogLevel
exception_level ExceptionSeverity.info = LogLevel.info
exception_level _ = LogLevel.warn

-- `addMilliseconds`, which goes through the calendar of `Date`.
module _ {S Body Headers Payload : Type 0} (add_milliseconds : Instant → ℕ → Instant)
    (dependencies : IngestDependencies S Body Headers Payload) (input : Delivery Body Headers) where
  unfoldable pub log : LogLevel → LifecycleEvent → LifecycleLogInput
  log level lifecycle = entry level lifecycle input.now input.request_id input.provider

  unfoldable pub observed : String → ProcessingObservation
  observed verification = record {
    request_id = input.request_id;
    provider = input.provider;
    verification = verification;
    external_event_id = none;
    payment_id = none;
    store_outcome = none;
    retry_status = none;
    decision = none;
  }

  unfoldable pub respond :
      ℕ → PipelineHttpBody → ProcessingObservation → ProcessIncomingWebhookResult
  respond http_status body observation = record {
    http_status = http_status;
    body = body;
    observation = observation;
  }

  unfoldable pub internal_error : String → ProcessIncomingWebhookResult
  unfolding respond observed
  internal_error verification =
      respond 500
        (pipeline_http_body "error" input.request_id (some "TEMPORARY_PROCESSING_FAILURE"))
        (observed verification)

  -- `if (audit !== undefined) try { await audit.append(draft) } catch {}`.
  unfoldable pub append_safely : Option (AuditRepository S) → AuditAppendInput → Action S (Unit {0})
  append_safely none draft = pure tt
  append_safely (some audit) draft =
      try_catch (audit.append draft >>= λ created. pure tt) (λ error. pure tt)

  unfoldable pub record_rejection : String → Action S (Unit {0})
  unfolding append_safely ingest_rejection_draft optional_provider
  record_rejection reason = append_safely dependencies.audit (
      ingest_rejection_draft input.now input.request_id (optional_provider input.provider) reason
        none)

  unfoldable pub exception_entry : Option String → ExceptionRecord → LifecycleLogInput
  unfolding log exception_level
  exception_entry event_type row =
      record (log (exception_level row.severity) LifecycleEvent.exception_created) {
        payment_id = mapped (λ (i : Identity). i.text) row.payment_id;
        event_id = row.webhook_event_id;
        event_type = event_type;
        exception_code = some (code_label row.exception_code);
        processing_decision = some row.reason;
      }

  unfoldable pub record_ingest_exceptions :
      List DetectionFact → Option Identity → Option String → Option String → Action S (Unit {0})
  unfolding record_exceptions_safely for_each exception_entry optional_provider
  record_ingest_exceptions [] payment_id webhook_event_id event_type = pure tt
  record_ingest_exceptions (fact ∷ facts) payment_id webhook_event_id event_type =
      record_exceptions_safely dependencies.exceptions dependencies.audit
        (record {
          detected_at = input.now;
          correlation_id = input.request_id;
          provider = optional_provider input.provider;
          payment_id = payment_id;
          webhook_event_id = webhook_event_id;
          facts = fact ∷ facts;
        })
        system
      >>= λ created. for_each (λ row. dependencies.emit (exception_entry event_type row)) created

  -- An entry on a decision; its provider is the event's.
  unfoldable pub decision_entry :
      NormalizedWebhookEvent → LifecycleEvent → ReplayDecision → LifecycleLogInput
  unfolding kind_label
  decision_entry event lifecycle item =
      record (entry LogLevel.info lifecycle input.now input.request_id event.provider.text) {
        payment_id = some event.payment_id.text;
        event_id = some item.event_id.text;
        processing_decision = some (kind_label item.decision);
        previous_state = mapped label item.previous_state;
        resulting_state = mapped label item.resulting_state;
      }

  unfoldable pub log_incoming :
      NormalizedWebhookEvent → ℕ → ReplayDecision → DecisionKind → Action S (Unit {0})
  unfolding decision_entry
  log_incoming event considered item DecisionKind.delayed =
      dependencies.emit (record (decision_entry event LifecycleEvent.replay_started item) {
        event_id = some event.external_event_id.text;
        event_type = some (type_label event.event_type);
        trigger = some (reason_label item.reason);
        replay_id = some event.external_event_id.text;
        events_considered = some considered;
      })
  log_incoming event considered item DecisionKind.accepted =
      dependencies.emit (record (decision_entry event LifecycleEvent.state_transition item) {
        event_id = some event.external_event_id.text;
        event_type = some (type_label event.event_type);
      })
  log_incoming event considered item _ = pure tt

  unfoldable pub log_found :
      NormalizedWebhookEvent → ℕ → Option ReplayDecision → Action S (Unit {0})
  unfolding log_incoming
  log_found event considered none = pure tt
  log_found event considered (some item) = log_incoming event considered item item.decision

  -- The body of the loop over the other decisions.
  unfoldable pub log_other : NormalizedWebhookEvent → ℕ → ReplayDecision → Action S (Unit {0})
  unfolding decision_entry is_accepted
  log_other event considered item =
      when (not (same item.event_id event.external_event_id || not (is_accepted item.decision))) (
        dependencies.emit (record (decision_entry event LifecycleEvent.replay_completed item) {
          replay_id = some item.event_id.text;
          trigger = some "OUT_OF_ORDER";
          events_considered = some considered;
        }))

  unfoldable pub decision_on : NormalizedWebhookEvent → ReplayResult → Option ReplayDecision
  decision_on event replay =
      find (λ (item : ReplayDecision). same item.event_id event.external_event_id) replay.decisions

  unfoldable pub log_replay_decisions :
      NormalizedWebhookEvent → List ReplayDecision → Action S (Unit {0})
  unfolding log_found log_other for_each
  log_replay_decisions event decisions =
      log_found event (length decisions)
        (find (λ (item : ReplayDecision). same item.event_id event.external_event_id) decisions)
      >> for_each (log_other event (length decisions)) decisions
