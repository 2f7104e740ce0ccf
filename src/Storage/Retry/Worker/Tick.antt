-- ===== src/Storage/Retry/Worker/Tick.antt =====
-- packages/storage/src/retry/worker.ts: `finishAttempt`, `runRetryTick` and `processFreshEvent`.
use hookx.Prelude.{
  ℕ, String, suc, Bool, true, false, Option, none, some, List, [], ◌∷◌, ◌++◌, length,
}
use hookx.Domain.{Instant, concat}
use hookx.StateMachine.Decisions.{ReplayDecision, ReplayResult}
use hookx.Audit.Event.{
  AuditActor, system, retry_worker, AuditEventType, AuditEvent, AuditAppendInput,
}
use hookx.Exceptions.Facts.{DetectionFact}
use hookx.Storage.Action.{Action, pure, ◌>>=◌, ◌>>◌}
use hookx.Storage.Audit.Live.{retry_failure_reason}
use hookx.Storage.Audit.Outcome.{AuditRepository, WebhookTerminalStatus, append_audit_drafts}
use hookx.Storage.Exceptions.Recording.{record_exceptions_safely}
use hookx.Storage.Payments.{StoredPayment}
use hookx.Storage.Retry.Policy.{assert_retry_policy, calculate_retry_delay}
use hookx.Storage.Retry.Classify.{safe_failure_code}
use hookx.Storage.Retry.Memory.{RetryStatus, RetryRecord, ScheduleRetryInput}
use hookx.Storage.Retry.Attempt.{
  ProcessingAttemptResult, succeeded, already_processed, retryable, non_retryable, kind_of,
  process_webhook_attempt,
}
use hookx.Storage.Retry.Worker.{
  RetryWorkerDependencies, RetryTickResult, AttemptOutcome, attempt_succeeded, attempt_scheduled,
  attempt_dead_lettered, or_default, is_some, claimed_previous_status, Run, is_retry_claim,
  retry_draft, outcome_drafts, when_list, attempt_facts, detection_context, lifecycle_step,
  terminal_of, payment_of, exhausted_by, is_exhausted, from_result,
}

-- The first event of the list.
first_correlation : String → List AuditEvent → String
first_correlation otherwise [] = otherwise
first_correlation otherwise (first ∷ existing) = first.correlation_id

unfoldable pub count_outcome : AttemptOutcome → RetryTickResult → RetryTickResult
count_outcome attempt_succeeded tally = record tally { succeeded = suc tally.succeeded }
count_outcome attempt_scheduled tally = record tally { scheduled = suc tally.scheduled }
count_outcome attempt_dead_lettered tally = record tally { dead_lettered = suc tally.dead_lettered }

-- The decision of a result that is not retryable.
final_decision_of : ProcessingAttemptResult → Option ReplayDecision
final_decision_of (non_retryable code decision) = decision
final_decision_of _ = none

unfoldable pub append_to :
    {S : Type 0} → Option (AuditRepository S) → List AuditAppendInput → Action S (Unit {0})
unfolding append_audit_drafts
append_to none drafts = pure tt
append_to (some audit) drafts = append_audit_drafts audit drafts

-- `addMilliseconds`, which goes through the calendar of `Date`.
module _ {S : Type 0} (add_milliseconds : Instant → ℕ → Instant)
    (dependencies : RetryWorkerDependencies S) where
  -- With no drafts the loop of `appendAuditDrafts` does nothing, as the early return does.
  unfoldable pub append_if_auditing : List AuditAppendInput → Action S (Unit {0})
  unfolding append_to
  append_if_auditing drafts = append_to dependencies.audit drafts

  unfoldable pub write_terminal :
      Run
      → WebhookTerminalStatus
      → List AuditAppendInput
      → Option StoredPayment
      → Action S (Unit {0})
  unfolding append_if_auditing
  write_terminal run status drafts payment = elim dependencies.persist_outcome [
    | none ↦ append_if_auditing drafts
    | some persist ↦ persist run.row.webhook_event_id status drafts payment
  ]

  unfoldable pub record_facts : Run → List DetectionFact → Action S (Unit {0})
  unfolding record_exceptions_safely detection_context
  record_facts run [] = pure tt
  record_facts run (fact ∷ facts) =
      record_exceptions_safely dependencies.exceptions dependencies.audit
        (detection_context run (fact ∷ facts)) run.actor
      >>= λ saved. pure tt

  unfoldable pub record_attempt_exceptions :
      Run → ProcessingAttemptResult → AttemptOutcome → Option String → Bool → Action S (Unit {0})
  unfolding record_facts attempt_facts
  record_attempt_exceptions run result outcome failure_code exhausted_by_attempts =
      record_facts run (attempt_facts run result outcome failure_code exhausted_by_attempts)

  -- `SUCCEEDED`.
  unfoldable pub finish_succeeded :
      Run → Option ReplayDecision → Option ReplayResult → Action S AttemptOutcome
  unfolding write_terminal outcome_drafts when_list retry_draft payment_of record_attempt_exceptions
      lifecycle_step is_retry_claim
  finish_succeeded run decision replay = do
    write_terminal run WebhookTerminalStatus.processed
        (outcome_drafts run decision
          ++ when_list (is_retry_claim run.row)
              (retry_draft run AuditEventType.retry_succeeded "ACCEPTED"))
        (payment_of run decision replay)
    row ← dependencies.retry.mark_succeeded run.row.id run.now
    dependencies.lifecycle (lifecycle_step run run.row.status RetryStatus.succeeded "SUCCEEDED")
    record_attempt_exceptions run (succeeded decision replay) attempt_succeeded none false
    pure attempt_succeeded

  -- `ALREADY_PROCESSED`.
  unfoldable pub finish_already_processed : Run → Action S AttemptOutcome
  unfolding append_if_auditing when_list retry_draft lifecycle_step is_retry_claim
  finish_already_processed run = do
    append_if_auditing (
        when_list (is_retry_claim run.row)
          (retry_draft run AuditEventType.retry_succeeded "ALREADY_PROCESSED"))
    row ← dependencies.retry.mark_succeeded run.row.id run.now
    dependencies.lifecycle
        (lifecycle_step run run.row.status RetryStatus.succeeded "ALREADY_PROCESSED")
    pure attempt_succeeded

  -- `terminal !== null && defer ? writeTerminal : appendIfAuditing`.
  unfoldable pub write_burial :
      Run → Option WebhookTerminalStatus → Bool → List AuditAppendInput → Action S (Unit {0})
  unfolding write_terminal append_if_auditing
  write_burial run (some terminal) true drafts = write_terminal run terminal drafts none
  write_burial run _ _ drafts = append_if_auditing drafts

  -- `if (exhausted)`.
  unfoldable pub bury : Run → ProcessingAttemptResult → String → String → Action S AttemptOutcome
  unfolding write_burial terminal_of outcome_drafts retry_draft lifecycle_step
      record_attempt_exceptions exhausted_by final_decision_of
  bury run result code reason = do
    write_burial run (terminal_of (kind_of (final_decision_of result)))
        (is_some dependencies.persist_outcome)
        (outcome_drafts run (final_decision_of result)
          ++ retry_draft run AuditEventType.retry_dead_lettered reason)
    dead ← dependencies.retry.dead_letter run.row.id (record { error_code = code; now = run.now })
    dependencies.lifecycle (lifecycle_step run run.row.status RetryStatus.dead_lettered code)
    record_attempt_exceptions run result attempt_dead_lettered (some code)
        (exhausted_by dependencies.policy run.row)
    pure attempt_dead_lettered

  unfoldable pub schedule_input : Run → String → ℕ → ScheduleRetryInput
  schedule_input run code delay_ms = record {
    next_attempt_at = add_milliseconds run.now delay_ms;
    error_code = code;
    failed_at = run.now;
    now = run.now;
  }

  -- What follows `if (exhausted)`.
  unfoldable pub reschedule :
      Run → ProcessingAttemptResult → String → String → Action S AttemptOutcome
  unfolding schedule_input append_if_auditing retry_draft lifecycle_step record_attempt_exceptions
      from_result calculate_retry_delay
  reschedule run result code reason = do
    delay_ms ← from_result (calculate_retry_delay run.row.attempt_count dependencies.policy)
    row ← dependencies.retry.schedule_retry run.row.id (schedule_input run code delay_ms)
    append_if_auditing (retry_draft run AuditEventType.retry_scheduled reason)
    dependencies.lifecycle (lifecycle_step run run.row.status RetryStatus.retry_scheduled code)
    record_attempt_exceptions run result attempt_scheduled (some code) false
    pure attempt_scheduled

  -- `exhausted` is the first argument.
  unfoldable pub bury_or_reschedule :
      Bool → Run → ProcessingAttemptResult → String → Action S AttemptOutcome
  unfolding bury reschedule retry_failure_reason exhausted_by
  bury_or_reschedule true run result code =
      bury run result code (retry_failure_reason code (exhausted_by dependencies.policy run.row))
  bury_or_reschedule false run result code =
      reschedule run result code (retry_failure_reason code false)

  unfoldable pub finish_failed : Run → ProcessingAttemptResult → String → Action S AttemptOutcome
  unfolding bury_or_reschedule is_exhausted
  finish_failed run result code =
      bury_or_reschedule (is_exhausted dependencies.policy run.row result code) run result code

  unfoldable pub finish_result : Run → ProcessingAttemptResult → Action S AttemptOutcome
  unfolding finish_succeeded finish_already_processed finish_failed safe_failure_code
  finish_result run (succeeded decision replay) = finish_succeeded run decision replay
  finish_result run already_processed = finish_already_processed run
  finish_result run (retryable code) = finish_failed run (retryable code) (safe_failure_code code)
  finish_result run (non_retryable code decision) =
      finish_failed run (non_retryable code decision) (safe_failure_code code)

  unfoldable pub finish_attempt :
      RetryRecord → Instant → String → AuditActor → Action S AttemptOutcome
  unfolding append_if_auditing when_list retry_draft finish_result process_webhook_attempt
      claimed_previous_status is_retry_claim
  finish_attempt row now correlation_id actor = do
    dependencies.lifecycle (record {
      webhook_event_id = row.webhook_event_id;
      attempt = row.attempt_count;
      previous_status = some (claimed_previous_status row);
      new_status = RetryStatus.processing;
      reason = "CLAIMED";
      timestamp = now;
    })
    stored ← dependencies.events.find_by_id row.webhook_event_id
    let run : Run = record {
      row = row;
      now = now;
      correlation_id = correlation_id;
      actor = actor;
      stored = stored;
    }
    append_if_auditing
        (when_list (is_retry_claim row) (retry_draft run AuditEventType.retry_attempted "ACCEPTED"))
    result ←
        process_webhook_attempt dependencies.events dependencies.process_payment_events
          (is_some dependencies.persist_outcome) row.webhook_event_id
    finish_result run result

  from_audit : String → Option (AuditRepository S) → Action S String
  unfolding first_correlation concat
  from_audit webhook_event_id none = pure (concat "retry-" webhook_event_id)
  from_audit webhook_event_id (some audit) = audit.list_by_webhook webhook_event_id >>= λ existing.
      pure (first_correlation (concat "retry-" webhook_event_id) existing)

  pub resolve_correlation_id : String → Action S String
  unfolding from_audit
  resolve_correlation_id webhook_event_id = elim dependencies.correlation_id [
    | none ↦ from_audit webhook_event_id dependencies.audit
    | some given ↦ pure given
  ]

  -- The `for` loop of `runRetryTick`, from the counts so far.
  unfoldable pub finish_each :
      Instant → List RetryRecord → RetryTickResult → Action S RetryTickResult
  unfolding resolve_correlation_id finish_attempt count_outcome
  finish_each now [] tally = pure tally
  finish_each now (row ∷ claimed) tally = do
    correlation_id ← resolve_correlation_id row.webhook_event_id
    outcome ← finish_attempt row now correlation_id (or_default dependencies.actor retry_worker)
    finish_each now claimed (count_outcome outcome tally)

  unfoldable pub run_retry_tick : Instant → Action S RetryTickResult
  unfolding from_result finish_each assert_retry_policy
  run_retry_tick now = do
    policy ← from_result (assert_retry_policy dependencies.policy)
    claimed ←
        dependencies.retry.claim_due now (or_default dependencies.limit 10) dependencies.lease_ms
    finish_each now claimed
        (record { claimed = length claimed; succeeded = 0; scheduled = 0; dead_lettered = 0 })

  -- `(await getByWebhookEventId(webhookEventId)) ?? otherwise`.
  latest_or : String → RetryRecord → Action S RetryRecord
  latest_or webhook_event_id otherwise =
      dependencies.retry.get_by_webhook_event_id webhook_event_id >>= λ latest.
      pure (or_default latest otherwise)

  run_fresh : String → Instant → RetryRecord → Option RetryRecord → Action S RetryRecord
  unfolding latest_or finish_attempt resolve_correlation_id
  run_fresh webhook_event_id now pending none = latest_or webhook_event_id pending
  run_fresh webhook_event_id now pending (some started) = do
    correlation_id ← resolve_correlation_id webhook_event_id
    outcome ← finish_attempt started now correlation_id (or_default dependencies.actor system)
    latest_or webhook_event_id started

  begin_fresh : String → Instant → RetryRecord → RetryStatus → Action S RetryRecord
  unfolding run_fresh
  begin_fresh webhook_event_id now pending RetryStatus.pending = do
    started ← dependencies.retry.begin_attempt pending.id now dependencies.lease_ms
    run_fresh webhook_event_id now pending started
  begin_fresh webhook_event_id now pending _ = pure pending

  unfoldable pub process_fresh_event : String → Instant → Action S RetryRecord
  unfolding from_result begin_fresh assert_retry_policy
  process_fresh_event webhook_event_id now = do
    policy ← from_result (assert_retry_policy dependencies.policy)
    pending ← dependencies.retry.ensure_pending webhook_event_id now
    begin_fresh webhook_event_id now pending pending.status
