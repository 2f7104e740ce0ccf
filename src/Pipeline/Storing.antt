-- ===== src/Pipeline/Storing.antt =====
-- apps/api/src/pipeline/process-incoming-webhook.ts: what follows the store of an event.
use hookx.Prelude.{ℕ, String, Bool, true, false, Option, none, some, List, [], if◌then◌else◌}
use hookx.Domain.{Instant}
use hookx.Webhook.{NormalizedWebhookEvent, type_label}
use hookx.StateMachine.Decisions.{ReplayDecision, ReplayResult}
use hookx.Audit.Event.{AuditEventType, AuditAppendInput, system}
use hookx.Exceptions.Facts.{DetectionFact, facts_from_store_outcome, facts_from_replay_decision}
use hookx.Storage.Action.{Settled, returned, threw, Action, pure, ◌>>=◌, ◌>>◌, try_catch, settled}
use hookx.Storage.Events.{StoredWebhookEvent}
use hookx.Storage.Audit.Live.{webhook_receipt_draft}
use hookx.Storage.Retry.Memory.{RetryStatus, RetryRecord}
use hookx.Storage.Retry.Attempt.{kind_of}
use hookx.Storage.Retry.Worker.{RetryRepository, RetryWorkerDependencies}
use hookx.Storage.Retry.Worker.Tick.{process_fresh_event}
use hookx.Pipeline.{
  pipeline_http_body, ProcessingObservation, ProcessIncomingWebhookResult, LogLevel, LifecycleEvent,
  LifecycleLogInput, Delivery, IngestDependencies, observability_retry_sink,
}
use hookx.Pipeline.Ingest.{
  kind_label, retry_label, mapped, log, observed, respond, internal_error, append_safely,
  record_ingest_exceptions, decision_on, log_replay_decisions,
}

module _ {S Body Headers Payload : Type 0} (add_milliseconds : Instant → ℕ → Instant)
    (dependencies : IngestDependencies S Body Headers Payload) (input : Delivery Body Headers) where
  abbrev pub Answer : Type 0
  Answer = Action S ProcessIncomingWebhookResult

  -- An entry on a stored event.
  unfoldable pub event_entry :
      LogLevel → LifecycleEvent → NormalizedWebhookEvent → Option String → LifecycleLogInput
  unfolding log
  event_entry level lifecycle event event_id =
      record (log add_milliseconds dependencies input level lifecycle) {
        payment_id = some event.payment_id.text;
        event_id = event_id;
        event_type = some (type_label event.event_type);
      }

  unfoldable pub failed_entry : NormalizedWebhookEvent → Option String → LifecycleLogInput
  unfolding event_entry
  failed_entry event event_id =
      record (event_entry LogLevel.error LifecycleEvent.processing_failed event event_id) {
        processing_decision = some "TEMPORARY_PROCESSING_FAILURE";
      }

  unfoldable pub observed_event :
      NormalizedWebhookEvent → String → Option String → Option String → ProcessingObservation
  unfolding observed
  observed_event event store_outcome retry_status decision =
      record (observed add_milliseconds dependencies input "VERIFIED") {
        external_event_id = some event.external_event_id.text;
        payment_id = some event.payment_id.text;
        store_outcome = some store_outcome;
        retry_status = retry_status;
        decision = decision;
      }

  unfoldable pub ingest_exceptions :
      List DetectionFact → Option NormalizedWebhookEvent → Option String → Action S (Unit {0})
  unfolding record_ingest_exceptions
  ingest_exceptions facts event webhook_event_id =
      record_ingest_exceptions add_milliseconds dependencies input facts
        (mapped (λ (e : NormalizedWebhookEvent). e.payment_id) event) webhook_event_id
        (mapped (λ (e : NormalizedWebhookEvent). type_label e.event_type) event)

  -- What is stored, and under which outcome.
  unfoldable pub duplicate_facts : Bool → List DetectionFact
  unfolding facts_from_store_outcome
  duplicate_facts true = facts_from_store_outcome (some "DUPLICATE")
  duplicate_facts false = []

  unfoldable pub decision_facts :
      NormalizedWebhookEvent → Option ReplayDecision → List DetectionFact
  unfolding facts_from_replay_decision
  decision_facts event none = []
  decision_facts event (some decision) =
      facts_from_replay_decision decision.decision decision.reason decision.previous_state
        event.event_type

  abbrev outcome_of : Bool → String
  outcome_of true = "DUPLICATE"
  outcome_of false = "STORED"

  abbrev answer_of : Bool → String
  answer_of true = "duplicate"
  answer_of false = "accepted"

  -- The last part, without a retry repository: the `try` block.
  unfoldable pub replay_at_once : NormalizedWebhookEvent → StoredWebhookEvent → Bool → Answer
  unfolding decision_on log_replay_decisions ingest_exceptions duplicate_facts decision_facts
      respond observed_event kind_label
  replay_at_once event row is_duplicate = do
    replay ← dependencies.default_process event.provider event.payment_id
    log_replay_decisions add_milliseconds dependencies input event replay.decisions
    ingest_exceptions
        (if is_duplicate
          then duplicate_facts true
          else decision_facts event (decision_on add_milliseconds dependencies input event replay))
        (some event) (some row.id)
    pure (
        respond add_milliseconds dependencies input 200
          (pipeline_http_body (answer_of is_duplicate) input.request_id none)
          (observed_event event (outcome_of is_duplicate) none (
            mapped kind_label
              (kind_of (decision_on add_milliseconds dependencies input event replay)))))

  unfoldable pub without_retry : NormalizedWebhookEvent → StoredWebhookEvent → Bool → Answer
  unfolding replay_at_once failed_entry internal_error
  without_retry event row is_duplicate = try_catch (replay_at_once event row is_duplicate) (λ error.
      dependencies.emit (failed_entry event (some row.id))
      >> pure (internal_error add_milliseconds dependencies input "VERIFIED"))

  -- The second replay, for the log; what it throws is left out.
  unfoldable pub observe_replay :
      NormalizedWebhookEvent → Settled ReplayResult → Action S (Option String)
  unfolding log_replay_decisions decision_on kind_label
  observe_replay event (threw error) = pure none
  observe_replay event (returned replay) =
      try_catch (log_replay_decisions add_milliseconds dependencies input event replay.decisions)
        (λ error. pure tt)
      >> pure (
          mapped kind_label
            (kind_of (decision_on add_milliseconds dependencies input event replay)))

  unfoldable pub observe_decision : NormalizedWebhookEvent → RetryStatus → Action S (Option String)
  unfolding observe_replay
  observe_decision event RetryStatus.succeeded =
      settled (dependencies.process_payment_events event.provider event.payment_id)
      >>= observe_replay event
  observe_decision event _ = pure none

  -- The answer after the attempt, by the outcome of the store and the status of the retry.
  unfoldable pub answer_fresh :
      NormalizedWebhookEvent → StoredWebhookEvent → RetryStatus → Option String → Answer
  unfolding failed_entry respond observed_event retry_label
  answer_fresh event row RetryStatus.retry_scheduled decision = do
    dependencies.emit (record (failed_entry event (some row.id)) { level = LogLevel.warn })
    pure (
        respond add_milliseconds dependencies input 500
          (pipeline_http_body "error" input.request_id (some "TEMPORARY_PROCESSING_FAILURE"))
          (observed_event event "STORED" (some "RETRY_SCHEDULED") none))
  answer_fresh event row status decision = pure (
      respond add_milliseconds dependencies input 200
        (pipeline_http_body "accepted" input.request_id none)
        (observed_event event "STORED" (some (retry_label status)) decision))

  unfoldable pub answer_attempt :
      Bool → NormalizedWebhookEvent → StoredWebhookEvent → RetryStatus → Option String → Answer
  unfolding ingest_exceptions duplicate_facts respond observed_event retry_label answer_fresh
  answer_attempt true event row status decision = do
    ingest_exceptions (duplicate_facts true) (some event) (some row.id)
    pure (
        respond add_milliseconds dependencies input 200
          (pipeline_http_body "duplicate" input.request_id none)
          (observed_event event "DUPLICATE" (some (retry_label status)) decision))
  answer_attempt false event row status decision = answer_fresh event row status decision

  unfoldable pub fresh_dependencies :
      RetryRepository S → NormalizedWebhookEvent → RetryWorkerDependencies S
  unfolding observability_retry_sink
  fresh_dependencies retry event = record {
    retry = retry;
    events = dependencies.repository;
    policy = dependencies.retry_policy;
    process_payment_events = dependencies.process_payment_events;
    lifecycle = observability_retry_sink dependencies.lifecycle dependencies.emit (record {
      correlation_id = input.request_id;
      provider = input.provider;
      payment_id = some event.payment_id.text;
      event_type = some (type_label event.event_type);
    });
    lease_ms = dependencies.lease_ms;
    limit = none;
    audit = dependencies.audit;
    persist_outcome = dependencies.persist_outcome;
    correlation_id = some input.request_id;
    actor = some system;
    exceptions = dependencies.exceptions;
  }

  unfoldable pub after_attempt :
      NormalizedWebhookEvent → StoredWebhookEvent → Bool → Settled RetryRecord → Answer
  unfolding failed_entry respond observed_event observe_decision answer_attempt
  after_attempt event row is_duplicate (threw error) = do
    dependencies.emit (failed_entry event (some row.id))
    pure (
        respond add_milliseconds dependencies input 500
          (pipeline_http_body "error" input.request_id (some "TEMPORARY_PROCESSING_FAILURE"))
          (observed_event event (outcome_of is_duplicate) none none))
  after_attempt event row is_duplicate (returned retry_row) = do
    decision ← observe_decision event retry_row.status
    answer_attempt is_duplicate event row retry_row.status decision

  unfoldable pub process_stored :
      Option (RetryRepository S) → NormalizedWebhookEvent → StoredWebhookEvent → Bool → Answer
  unfolding fresh_dependencies after_attempt without_retry process_fresh_event
  process_stored none event row is_duplicate = without_retry event row is_duplicate
  process_stored (some retry) event row is_duplicate =
      settled
        (process_fresh_event add_milliseconds (fresh_dependencies retry event) row.id input.now)
      >>= after_attempt event row is_duplicate

  unfoldable pub log_stored :
      NormalizedWebhookEvent → StoredWebhookEvent → Bool → Action S (Unit {0})
  unfolding event_entry
  log_stored event row true =
      dependencies.emit
        (record (event_entry LogLevel.info LifecycleEvent.duplicate_detected event (some row.id)) {
          store_outcome = some "DUPLICATE";
          processing_decision = some "DUPLICATE";
        })
  log_stored event row false =
      dependencies.emit
        (record (event_entry LogLevel.info LifecycleEvent.event_persisted event (some row.id)) {
          store_outcome = some "STORED";
        })
      >> dependencies.emit
          (event_entry LogLevel.debug LifecycleEvent.processing_started event (some row.id))

  unfoldable pub receipt_draft : StoredWebhookEvent → Bool → AuditAppendInput
  unfolding webhook_receipt_draft
  receipt_draft row true =
      webhook_receipt_draft row input.now input.request_id AuditEventType.webhook_duplicate
        "DUPLICATE_EVENT"
  receipt_draft row false =
      webhook_receipt_draft row input.now input.request_id AuditEventType.webhook_received
        "ACCEPTED"

  unfoldable pub accept_stored : NormalizedWebhookEvent → StoredWebhookEvent → Bool → Answer
  unfolding receipt_draft log_stored process_stored append_safely
  accept_stored event row is_duplicate = do
    append_safely add_milliseconds dependencies input dependencies.audit
        (receipt_draft row is_duplicate)
    log_stored event row is_duplicate
    process_stored dependencies.retry event row is_duplicate

  unfoldable pub answer_conflict : NormalizedWebhookEvent → StoredWebhookEvent → Answer
  unfolding append_safely webhook_receipt_draft ingest_exceptions event_entry respond observed_event
      facts_from_store_outcome
  answer_conflict event existing = do
    append_safely add_milliseconds dependencies input dependencies.audit (
        webhook_receipt_draft existing input.now input.request_id AuditEventType.webhook_conflict
          "CONFLICTING_EVENT")
    ingest_exceptions (facts_from_store_outcome (some "CONFLICT")) (some event) (some existing.id)
    dependencies.emit
        (record (event_entry LogLevel.warn LifecycleEvent.conflict_detected event
          (some existing.id)) {
            store_outcome = some "CONFLICT";
            processing_decision = some "CONFLICT";
          })
    pure (
        respond add_milliseconds dependencies input 409
          (pipeline_http_body "conflict" input.request_id (some "CONFLICT"))
          (observed_event event "CONFLICT" none none))
