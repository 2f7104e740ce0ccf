-- ===== src/Storage/Retry/Worker.antt =====
-- packages/storage/src/retry/worker.ts and lifecycle.ts: the attempts of a claimed retry and of a
-- fresh event, over repositories that may throw.
pub mod Tick
pub mod Ends
pub mod Isolation
pub mod Stored
pub mod Memory
use hookx.Prelude.{
  ℕ, String, ◌+◌, Bool, true, false, not, ◌&&◌, ◌||◌, Option, none, some, List, [], ◌∷◌, ◌++◌,
  length, is_empty, leb, ◌==◌, if◌then◌else◌,
}
use hookx.Domain.{Identity, Instant, Result, ok, err}
use hookx.StateMachine.Decisions.{DecisionKind, ReplayDecision, ReplayResult}
use hookx.Audit.Event.{
  AuditActor, system, retry_worker, AuditEventType, AuditEvent, AuditAppendInput,
}
use hookx.Exceptions.Facts.{DetectionFact, facts_from_replay_decision, facts_from_retry_outcome}
use hookx.Exceptions.Detect.{DetectionContext}
use hookx.Storage.Events.{StoredWebhookEvent}
use hookx.Storage.Payments.{StoredPayment, stored_payment_from_replay}
use hookx.Storage.Action.{Action, Settled, returned, threw, pure, throw, ◌>>=◌, ◌>>◌, when}
use hookx.Storage.Audit.Live.{
  LiveAuditContext, retry_lifecycle_draft, outcome_drafts_from_decision, retry_failure_reason,
}
use hookx.Storage.Audit.Outcome.{
  AuditRepository, PersistOutcomeFn, WebhookTerminalStatus, append_audit_drafts,
}
use hookx.Storage.Exceptions.Recording.{ExceptionRepository, record_exceptions_safely}
use hookx.Storage.Retry.Policy.{RetryPolicy, assert_retry_policy, calculate_retry_delay}
use hookx.Storage.Retry.Classify.{FailureClass, other_error, safe_failure_code, classify_failure}
use hookx.Storage.Retry.Memory.{
  RetryStatus, RetryRecord, DeadLetterRecord, ScheduleRetryInput, DeadLetterInput,
}
use hookx.Storage.Retry.Attempt.{
  WebhookEventRepository, ProcessFn, ProcessingAttemptResult, succeeded, already_processed,
  retryable, non_retryable, process_webhook_attempt,
}

-- The methods of `RetryRepository` that the worker calls.
pub record RetryRepository (S : Type 0) : Type 0 where
  pub ensure_pending : String → Instant → Action S RetryRecord
  pub get_by_webhook_event_id : String → Action S (Option RetryRecord)
  pub claim_due : Instant → ℕ → ℕ → Action S (List RetryRecord)
  pub begin_attempt : String → Instant → ℕ → Action S (Option RetryRecord)
  pub mark_succeeded : String → Instant → Action S RetryRecord
  pub schedule_retry : String → ScheduleRetryInput → Action S RetryRecord
  pub dead_letter : String → DeadLetterInput → Action S DeadLetterRecord

pub record RetryLifecycleTransition : Type 0 where
  pub webhook_event_id : String
  pub attempt : ℕ
  pub previous_status : Option RetryStatus
  pub new_status : RetryStatus
  pub reason : String
  pub timestamp : Instant

-- `RetryLifecycleSink`, by its method.
abbrev pub RetryLifecycleSink : Type 0 → Type 0
RetryLifecycleSink S = RetryLifecycleTransition → Action S (Unit {0})

abbrev pub silent_retry_lifecycle_sink : {S : Type 0} → RetryLifecycleSink S
silent_retry_lifecycle_sink step = pure tt

-- The process function and the sink are those that the defaults give.
pub record RetryWorkerDependencies (S : Type 0) : Type 0 where
  pub retry : RetryRepository S
  pub events : WebhookEventRepository S
  pub policy : RetryPolicy
  pub process_payment_events : ProcessFn S
  pub lifecycle : RetryLifecycleSink S
  pub lease_ms : ℕ
  pub limit : Option ℕ
  pub audit : Option (AuditRepository S)
  pub persist_outcome : Option (PersistOutcomeFn S)
  pub correlation_id : Option String
  pub actor : Option AuditActor
  pub exceptions : Option (ExceptionRepository S)

pub record RetryTickResult : Type 0 where
  pub claimed : ℕ
  pub succeeded : ℕ
  pub scheduled : ℕ
  pub dead_lettered : ℕ

pub data AttemptOutcome : Type 0 where
  attempt_succeeded attempt_scheduled attempt_dead_lettered : AttemptOutcome

abbrev pub outcome_label : AttemptOutcome → String
outcome_label attempt_succeeded = "SUCCEEDED"
outcome_label attempt_scheduled = "RETRY_SCHEDULED"
outcome_label attempt_dead_lettered = "DEAD_LETTERED"

abbrev pub or_default {ℓ} : {A : Type ℓ} → Option A → A → A
or_default none a = a
or_default (some b) a = b

abbrev pub is_some {ℓ} : {A : Type ℓ} → Option A → Bool
is_some none = false
is_some (some a) = true

unfoldable pub claimed_previous_status : RetryRecord → RetryStatus
claimed_previous_status row = elim row.last_error_code [
  | none ↦ if row.attempt_count == 1 then RetryStatus.pending else RetryStatus.processing
  | some code ↦ RetryStatus.retry_scheduled
]

-- What `finishAttempt` computes before it calls anything that is not read: the event, the time, the
-- identity of the run, and the claimed record.
pub record Run : Type 0 where
  pub row : RetryRecord
  pub now : Instant
  pub correlation_id : String
  pub actor : AuditActor
  pub stored : Option StoredWebhookEvent

unfoldable pub context_of : Run → Option LiveAuditContext
context_of run = elim run.stored [
  | none ↦ none
  | some stored ↦ some (record {
    stored = stored;
    now = run.now;
    correlation_id = run.correlation_id;
    actor = run.actor;
    attempt = run.row.attempt_count;
  })
]

unfoldable pub is_retry_claim : RetryRecord → Bool
is_retry_claim row = leb 2 row.attempt_count || is_some row.last_error_code

-- `context !== null ? [draft] : []`.
abbrev pub in_context {ℓ} :
    {A : Type ℓ} → Option LiveAuditContext → (LiveAuditContext → List A) → List A
in_context none drafts = []
in_context (some context) drafts = drafts context

retry_draft : Run → AuditEventType → String → List AuditAppendInput
unfolding context_of retry_lifecycle_draft
retry_draft run event_type reason =
    in_context (context_of run) (λ context. retry_lifecycle_draft context event_type reason ∷ [])

outcome_drafts : Run → Option ReplayDecision → List AuditAppendInput
unfolding context_of outcome_drafts_from_decision
outcome_drafts run decision =
    in_context (context_of run) (λ context. outcome_drafts_from_decision context decision)

when_list : {A : Type 0} → Bool → List A → List A
when_list true items = items
when_list false items = []

-- `result.decision`, for the results that have one.
decision_of : ProcessingAttemptResult → Option ReplayDecision
decision_of (succeeded decision replay) = decision
decision_of (non_retryable code decision) = decision
decision_of already_processed = none
decision_of (retryable code) = none

decision_facts : Option ReplayDecision → Option StoredWebhookEvent → List DetectionFact
unfolding facts_from_replay_decision
decision_facts (some decision) (some stored) =
    facts_from_replay_decision decision.decision decision.reason decision.previous_state
      stored.event.event_type
decision_facts _ _ = []

attempt_facts :
    Run → ProcessingAttemptResult → AttemptOutcome → Option String → Bool → List DetectionFact
unfolding decision_of decision_facts facts_from_retry_outcome
attempt_facts run result outcome failure_code exhausted_by_attempts =
    decision_facts (decision_of result) run.stored
    ++ facts_from_retry_outcome (outcome_label outcome) run.row.attempt_count failure_code
        (some exhausted_by_attempts)

detection_context : Run → List DetectionFact → DetectionContext
detection_context run facts = record {
  detected_at = run.now;
  correlation_id = run.correlation_id;
  provider = elim run.stored [ none ↦ none | some stored ↦ some stored.event.provider ];
  payment_id = elim run.stored [ none ↦ none | some stored ↦ some stored.event.payment_id ];
  webhook_event_id =
      some (elim run.stored [ none ↦ run.row.webhook_event_id | some stored ↦ stored.id ]);
  facts = facts;
}

lifecycle_step : Run → RetryStatus → RetryStatus → String → RetryLifecycleTransition
lifecycle_step run previous_status new_status reason = record {
  webhook_event_id = run.row.webhook_event_id;
  attempt = run.row.attempt_count;
  previous_status = some previous_status;
  new_status = new_status;
  reason = reason;
  timestamp = run.now;
}

-- `decision?.decision`, where it has a terminal status.
terminal_of : Option DecisionKind → Option WebhookTerminalStatus
terminal_of (some DecisionKind.conflict) = some WebhookTerminalStatus.conflict
terminal_of (some DecisionKind.rejected) = some WebhookTerminalStatus.rejected
terminal_of _ = none

-- The payment that a success writes.
payment_of : Run → Option ReplayDecision → Option ReplayResult → Option StoredPayment
unfolding stored_payment_from_replay
payment_of run decision replay = elim run.stored [
  | none ↦ none
  | some stored ↦ stored_payment_from_replay replay decision stored.event.provider run.now
]

-- Whether the failure ends the retries, and by its number.
unfoldable pub exhausted_by : RetryPolicy → RetryRecord → Bool
exhausted_by policy row = leb policy.max_attempts row.attempt_count

unfoldable pub is_permanent : FailureClass → Bool
is_permanent FailureClass.non_retryable = true
is_permanent FailureClass.retryable = false

-- `result.outcome === "NON_RETRYABLE"`.
unfoldable pub is_non_retryable : ProcessingAttemptResult → Bool
is_non_retryable (non_retryable code decision) = true
is_non_retryable _ = false

unfoldable pub is_exhausted : RetryPolicy → RetryRecord → ProcessingAttemptResult → String → Bool
unfolding exhausted_by is_permanent classify_failure is_non_retryable
is_exhausted policy row result code =
    is_non_retryable result || is_permanent (classify_failure code) || exhausted_by policy row

from_result : {S A : Type 0} → Result A → Action S A
from_result (ok a) = pure a
from_result (err message) = throw other_error
