-- ===== src/Storage/Retry/Attempt.antt =====
-- packages/storage/src/retry/process-attempt.ts: one attempt to process a stored event, over any
-- repository of events and any replay, each of which may throw.
pub mod Returns
pub mod InMemory
use text.Mathlib.Text.{◌==◌ as str_eq}
use hookx.Prelude.{String, Bool, true, false, not, Option, none, some, List, find}
use hookx.Domain.{Identity, same}
use hookx.StateMachine.Decisions.{
  DecisionKind, accepted, duplicate, delayed, conflict, rejected, ReplayDecision, ReplayResult,
}
use hookx.Storage.Status.{WebhookProcessingStatus, received, processing, processed}
use hookx.Storage.Events.{StoredWebhookEvent}
use hookx.Storage.Retry.Classify.{FailureClass, Thrown, coded_error, classify_processing_error}
use hookx.Storage.Action.{
  Settled, returned, threw, Action, pure, try_catch, settled, ◌>>=◌, ◌>>◌, when,
}

-- The methods of `WebhookEventRepository` that an attempt calls.
pub record WebhookEventRepository (S : Type 0) : Type 0 where
  pub find_by_id : String → Action S (Option StoredWebhookEvent)
  pub mark_processing : String → Action S StoredWebhookEvent
  pub mark_processed : String → Action S StoredWebhookEvent
  pub mark_rejected : String → Action S StoredWebhookEvent
  pub mark_conflict : String → Action S StoredWebhookEvent

-- A `ProcessPaymentEventsFn` with its repository.
abbrev pub ProcessFn : Type 0 → Type 0
ProcessFn S = Identity → Identity → Action S ReplayResult

pub data ProcessingAttemptResult : Type 0 where
  succeeded : Option ReplayDecision → Option ReplayResult → ProcessingAttemptResult
  already_processed : ProcessingAttemptResult
  retryable : String → ProcessingAttemptResult
  non_retryable : String → Option ReplayDecision → ProcessingAttemptResult

of_class : FailureClass → String → ProcessingAttemptResult
of_class FailureClass.non_retryable code = non_retryable code none
of_class FailureClass.retryable code = retryable code

unfoldable pub classify_thrown : Thrown → ProcessingAttemptResult
unfolding classify_processing_error of_class
classify_thrown error =
    let (failure_class, code) = classify_processing_error error in of_class failure_class code

-- `error instanceof StorageError && error.code === "INVALID_STATUS_TRANSITION"`: no other error has
-- that code.
unfoldable pub is_refusal : Thrown → Bool
is_refusal (coded_error code) = str_eq code "INVALID_STATUS_TRANSITION"
is_refusal _ = false

-- `row?.processingStatus`.
abbrev pub status_of : Option StoredWebhookEvent → Option WebhookProcessingStatus
status_of none = none
status_of (some row) = some row.processing_status

unfoldable pub is_status_processed : Option WebhookProcessingStatus → Bool
is_status_processed (some processed) = true
is_status_processed _ = false

unfoldable pub is_status_received : Option WebhookProcessingStatus → Bool
is_status_received (some received) = true
is_status_received _ = false

-- The two tests after a refused `markProcessing`; `none` goes on.
unfoldable pub after_refusal :
    Thrown → Option WebhookProcessingStatus → Option ProcessingAttemptResult
after_refusal error (some processed) = some already_processed
after_refusal error (some processing) = none
after_refusal error _ = some (classify_thrown error)

-- `replay.decisions.find(…)`.
unfoldable pub decision_for : StoredWebhookEvent → ReplayResult → Option ReplayDecision
decision_for stored replay =
    find (λ (item : ReplayDecision). same item.event_id stored.event.external_event_id)
      replay.decisions

abbrev pub kind_of : Option ReplayDecision → Option DecisionKind
kind_of none = none
kind_of (some decision) = some decision.decision

module _ {S : Type 0} (repository : WebhookEventRepository S) (process_fn : ProcessFn S)
    (defer : Bool) where
  -- A status change whose failure is left out.
  ignoring : Action S StoredWebhookEvent → Action S (Unit {0})
  ignoring mark = try_catch (mark >>= λ row. pure tt) (λ error. pure tt)

  -- The `try` block of the last status changes.
  mark_done : StoredWebhookEvent → Action S (Unit {0})
  unfolding is_status_received is_status_processed
  mark_done stored = do
    current ← repository.find_by_id stored.id
    when (is_status_received (status_of current))
        (repository.mark_processing stored.id >>= λ row. pure tt)
    when (not (is_status_processed (status_of current)))
        (repository.mark_processed stored.id >>= λ row. pure tt)

  after_failed_mark :
      Thrown → ProcessingAttemptResult → Option StoredWebhookEvent → ProcessingAttemptResult
  unfolding is_status_processed classify_thrown
  after_failed_mark error success latest = elim (is_status_processed (status_of latest)) [
    | true ↦ success
    | false ↦ classify_thrown error
  ]

  -- By `defer`.
  finish_by : Bool → StoredWebhookEvent → ProcessingAttemptResult → Action S ProcessingAttemptResult
  unfolding mark_done after_failed_mark
  finish_by true stored success = pure success
  finish_by false stored success = try_catch (mark_done stored >> pure success) (λ error.
      repository.find_by_id stored.id >>= λ latest. pure (after_failed_mark error success latest))

  finish : StoredWebhookEvent → ProcessingAttemptResult → Action S ProcessingAttemptResult
  unfolding finish_by
  finish stored success = finish_by defer stored success

  settle_kind :
      StoredWebhookEvent
      → ReplayResult
      → Option ReplayDecision
      → Option DecisionKind
      → Action S ProcessingAttemptResult
  unfolding ignoring finish
  settle_kind stored replay decision (some conflict) =
      when (not defer) (ignoring (repository.mark_conflict stored.id))
      >> pure (non_retryable "PERMANENT_CONFLICT" decision)
  settle_kind stored replay decision (some rejected) =
      when (not defer) (ignoring (repository.mark_rejected stored.id))
      >> pure (non_retryable "INVALID_TRANSITION" decision)
  settle_kind stored replay decision (some accepted) =
      finish stored (succeeded decision (some replay))
  settle_kind stored replay decision (some duplicate) =
      finish stored (succeeded decision (some replay))
  settle_kind stored replay decision (some delayed) =
      finish stored (succeeded decision (some replay))
  settle_kind stored replay decision none = finish stored (succeeded decision (some replay))

  -- What follows the replay, thrown or returned.
  after_replay : StoredWebhookEvent → Settled ReplayResult → Action S ProcessingAttemptResult
  unfolding settle_kind decision_for classify_thrown
  after_replay stored (threw error) = pure (classify_thrown error)
  after_replay stored (returned replay) =
      settle_kind stored replay (decision_for stored replay) (kind_of (decision_for stored replay))

  run_replay : StoredWebhookEvent → Action S ProcessingAttemptResult
  unfolding after_replay
  run_replay stored =
      settled (process_fn stored.event.provider stored.event.payment_id) >>= after_replay stored

  -- The `catch` block of `markProcessing`, by its first test; a result ends the attempt.
  after_throw : Bool → String → Thrown → Action S (Option ProcessingAttemptResult)
  unfolding after_refusal classify_thrown
  after_throw true webhook_event_id error = repository.find_by_id webhook_event_id >>= λ latest.
      pure (after_refusal error (status_of latest))
  after_throw false webhook_event_id error = pure (some (classify_thrown error))

  -- What follows `markProcessing`, thrown or returned.
  after_mark : String → Settled StoredWebhookEvent → Action S (Option ProcessingAttemptResult)
  unfolding is_refusal after_throw
  after_mark webhook_event_id (returned row) = pure none
  after_mark webhook_event_id (threw error) = after_throw (is_refusal error) webhook_event_id error

  go_on : StoredWebhookEvent → Option ProcessingAttemptResult → Action S ProcessingAttemptResult
  unfolding run_replay
  go_on stored none = run_replay stored
  go_on stored (some result) = pure result

  by_status :
      String → StoredWebhookEvent → WebhookProcessingStatus → Action S ProcessingAttemptResult
  unfolding after_mark go_on run_replay
  by_status webhook_event_id stored processed = pure already_processed
  by_status webhook_event_id stored WebhookProcessingStatus.rejected =
      pure (non_retryable "PERMANENT_CONFLICT" none)
  by_status webhook_event_id stored WebhookProcessingStatus.conflict =
      pure (non_retryable "PERMANENT_CONFLICT" none)
  by_status webhook_event_id stored received = do
    marked ← settled (repository.mark_processing stored.id)
    result ← after_mark webhook_event_id marked
    go_on stored result
  by_status webhook_event_id stored processing = run_replay stored

  attempt_found : String → Option StoredWebhookEvent → Action S ProcessingAttemptResult
  unfolding by_status
  attempt_found webhook_event_id none = pure (non_retryable "INVALID_NORMALIZED_EVENT" none)
  attempt_found webhook_event_id (some stored) =
      by_status webhook_event_id stored stored.processing_status

  unfoldable pub process_webhook_attempt : String → Action S ProcessingAttemptResult
  unfolding attempt_found
  process_webhook_attempt webhook_event_id =
      repository.find_by_id webhook_event_id >>= attempt_found webhook_event_id
