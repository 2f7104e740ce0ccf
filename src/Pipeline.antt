-- ===== src/Pipeline.antt =====
-- apps/api/src/pipeline/errors.ts and the types of process-incoming-webhook.ts, and
-- apps/api/src/observability: what a delivery is answered, and the entries that are logged of it.
pub mod Ingest
pub mod Storing
pub mod Handler
pub mod Answers
pub mod Verified
pub mod Metrics
use text.Mathlib.Text.{◌==◌ as str_eq}
use hookx.Prelude.{
  ℕ, String, Bool, true, false, not, ◌&&◌, ◌||◌, Option, none, some, List, [], ◌∷◌, ltb,
  if◌then◌else◌,
}
use hookx.Domain.{Identity, Instant, Result, ok, err, identity}
use hookx.Webhook.{NormalizedWebhookEvent, WebhookEventType, type_label}
use hookx.Storage.Action.{Action, pure, ◌>>=◌, ◌>>◌}
use hookx.Storage.Events.{StoreWebhookEventResult}
use hookx.Storage.Audit.Outcome.{AuditRepository, PersistOutcomeFn}
use hookx.Storage.Exceptions.Recording.{ExceptionRepository}
use hookx.Storage.Retry.Policy.{RetryPolicy}
use hookx.Storage.Retry.Memory.{RetryStatus}
use hookx.Storage.Retry.Attempt.{WebhookEventRepository, ProcessFn}
use hookx.Storage.Retry.Worker.{RetryRepository, RetryLifecycleSink, RetryLifecycleTransition}

pub data VerificationStatus : Type 0 where
  verified invalid_signature missing_signature malformed_signature expired_signature :
      VerificationStatus

abbrev pub verification_label : VerificationStatus → String
verification_label verified = "VERIFIED"
verification_label invalid_signature = "INVALID_SIGNATURE"
verification_label missing_signature = "MISSING_SIGNATURE"
verification_label malformed_signature = "MALFORMED_SIGNATURE"
verification_label expired_signature = "EXPIRED_SIGNATURE"

pub record PipelineHttpBody : Type 0 where
  pub status : String
  pub request_id : String
  pub code : Option String

abbrev pub pipeline_http_body : String → String → Option String → PipelineHttpBody
pipeline_http_body status request_id code = record {
  status = status;
  request_id = request_id;
  code = code;
}

-- Without `durationMs`, which is of the clock.
pub record ProcessingObservation : Type 0 where
  pub request_id : String
  pub provider : String
  pub verification : String
  pub external_event_id : Option String
  pub payment_id : Option String
  pub store_outcome : Option String
  pub retry_status : Option String
  pub decision : Option String

pub record ProcessIncomingWebhookResult : Type 0 where
  pub http_status : ℕ
  pub body : PipelineHttpBody
  pub observation : ProcessingObservation

pub data LogLevel : Type 0 where
  debug info warn error : LogLevel

pub data LifecycleEvent : Type 0 where
  webhook_received signature_verified signature_rejected webhook_normalized event_persisted
        duplicate_detected conflict_detected processing_started state_transition processing_failed
        retry_scheduled retry_attempted retry_succeeded retry_exhausted replay_started
        replay_completed exception_created investigation_available :
      LifecycleEvent

-- A member that is `undefined` or `null` is `none`.
pub record LifecycleLogInput : Type 0 where
  pub level : LogLevel
  pub lifecycle : LifecycleEvent
  pub timestamp : Instant
  pub correlation_id : String
  pub provider : Option String
  pub event_id : Option String
  pub payment_id : Option String
  pub event_type : Option String
  pub processing_decision : Option String
  pub exception_code : Option String
  pub attempt : Option ℕ
  pub store_outcome : Option String
  pub verification : Option String
  pub replay_id : Option String
  pub previous_state : Option String
  pub resulting_state : Option String
  pub failure_class : Option String
  pub trigger : Option String
  pub events_considered : Option ℕ

-- An entry with the members that every entry has.
abbrev pub entry : LogLevel → LifecycleEvent → Instant → String → String → LifecycleLogInput
entry level lifecycle timestamp correlation_id provider = record {
  level = level;
  lifecycle = lifecycle;
  timestamp = timestamp;
  correlation_id = correlation_id;
  provider = some provider;
  event_id = none;
  payment_id = none;
  event_type = none;
  processing_decision = none;
  exception_code = none;
  attempt = none;
  store_outcome = none;
  verification = none;
  replay_id = none;
  previous_state = none;
  resulting_state = none;
  failure_class = none;
  trigger = none;
  events_considered = none;
}

-- What an adapter's `normalize` gives: an event, a `WebhookError` by its code, or another error.
pub data Normalization : Type 0 where
  normalized : NormalizedWebhookEvent → Normalization
  webhook_error : String → Normalization
  other_failure : Normalization

pub record Delivery (Body Headers : Type 0) : Type 0 where
  pub provider : String
  pub raw_body : Body
  pub headers : Headers
  pub request_id : String
  pub now : Instant

-- The verifiers and the adapters are by their interfaces, `parse` is `JSON.parse` of the decoded
-- body, `default_process` is `processPaymentEvents` itself over the repository, and `emit` is `emitLifecycle` with the logger and the metrics of the dependencies.
pub record IngestDependencies (S Body Headers Payload : Type 0) : Type 0 where
  pub verifiers : String → Option (Delivery Body Headers → VerificationStatus)
  pub parse : Body → Option Payload
  pub normalize : String → Payload → Instant → Headers → Normalization
  pub store : NormalizedWebhookEvent → Action S StoreWebhookEventResult
  pub repository : WebhookEventRepository S
  pub retry : Option (RetryRepository S)
  pub process_payment_events : ProcessFn S
  pub default_process : ProcessFn S
  pub retry_policy : RetryPolicy
  pub lease_ms : ℕ
  pub lifecycle : Option (RetryLifecycleSink S)
  pub audit : Option (AuditRepository S)
  pub persist_outcome : Option (PersistOutcomeFn S)
  pub exceptions : Option (ExceptionRepository S)
  pub emit : LifecycleLogInput → Action S (Unit {0})

unfoldable pub optional_provider : String → Option Identity
unfolding identity
optional_provider value = elim (identity value) [ ok provider ↦ some provider | err code ↦ none ]

pub record RetryLogContext : Type 0 where
  pub correlation_id : String
  pub provider : String
  pub payment_id : Option String
  pub event_type : Option String

retry_entry :
    RetryLogContext → RetryLifecycleTransition → LogLevel → LifecycleEvent → LifecycleLogInput
retry_entry context step level lifecycle =
    record (entry level lifecycle step.timestamp context.correlation_id context.provider) {
      payment_id = context.payment_id;
      event_id = some step.webhook_event_id;
      event_type = context.event_type;
      attempt = some step.attempt;
      processing_decision = some step.reason;
    }

-- The entry that a step is logged as, if any.
unfoldable pub retry_log :
    RetryLogContext → RetryLifecycleTransition → RetryStatus → Option LifecycleLogInput
unfolding retry_entry
retry_log context step RetryStatus.processing =
    if ltb 1 step.attempt then some (retry_entry context step info retry_attempted) else none
retry_log context step RetryStatus.retry_scheduled =
    some
      (record (retry_entry context step warn retry_scheduled) { failure_class = some "RETRYABLE" })
retry_log context step RetryStatus.succeeded =
    if ltb 1 step.attempt then some (retry_entry context step info retry_succeeded) else none
retry_log context step RetryStatus.dead_lettered =
    some (retry_entry context step error retry_exhausted)
retry_log context step RetryStatus.pending = none

module _ {S : Type 0} where
  unfoldable pub inner_record :
      Option (RetryLifecycleSink S) → RetryLifecycleTransition → Action S (Unit {0})
  inner_record none step = pure tt
  inner_record (some inner) step = inner step

  unfoldable pub emit_if :
      (LifecycleLogInput → Action S (Unit {0})) → Option LifecycleLogInput → Action S (Unit {0})
  emit_if emit none = pure tt
  emit_if emit (some logged) = emit logged

  unfoldable pub observability_retry_sink :
      Option (RetryLifecycleSink S)
      → (LifecycleLogInput → Action S (Unit {0}))
      → RetryLogContext
      → RetryLifecycleSink S
  unfolding inner_record emit_if retry_log
  observability_retry_sink inner emit context step =
      inner_record inner step >> emit_if emit (retry_log context step step.new_status)
