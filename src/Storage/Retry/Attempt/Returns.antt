-- ===== src/Storage/Retry/Attempt/Returns.antt =====
-- An attempt does not throw.
use hookx.Prelude.{String, Bool, true, false, Option, none, some}
use hookx.StateMachine.Decisions.{
  DecisionKind, accepted, duplicate, delayed, conflict, rejected, ReplayDecision, ReplayResult,
}
use hookx.Storage.Status.{WebhookProcessingStatus, received, processing, processed}
use hookx.Storage.Events.{StoredWebhookEvent}
use hookx.Storage.Retry.Classify.{Thrown}
use hookx.Storage.Action.{Settled, returned, threw, Action, pure, ◌>>=◌}
use hookx.Storage.Retry.Attempt.{
  WebhookEventRepository, ProcessFn, ProcessingAttemptResult, is_refusal, finish_by, after_throw,
  ignoring, finish, settle_kind, after_replay, run_replay, after_mark, go_on, by_status,
  attempt_found, process_webhook_attempt,
}
use hookx.Storage.Action.Returns.{
  Returns, Returns-bind, Returns-try_catch, Returns-pure, Returns-settled, Returns-when,
}

module _ {S : Type 0} (repository : WebhookEventRepository S) (process_fn : ProcessFn S)
    (defer : Bool) (reads : (id : String) → Returns (repository.find_by_id id)) where
  ignoring-Returns :
      (mark : Action S StoredWebhookEvent) → Returns (ignoring repository process_fn defer mark)
  unfolding ignoring
  ignoring-Returns mark =
      Returns-try_catch (mark >>= λ row. pure tt) (λ error. pure tt) (λ error. Returns-pure tt)

  finish_by-Returns :
      (deferred : Bool) (stored : StoredWebhookEvent) (success : ProcessingAttemptResult)
      → Returns (finish_by repository process_fn defer deferred stored success)
  unfolding finish_by
  finish_by-Returns true stored success = Returns-pure success
  finish_by-Returns false stored success = Returns-try_catch _ _ (λ error.
      Returns-bind (repository.find_by_id stored.id) _ (reads stored.id) (λ latest. Returns-pure _))

  finish-Returns :
      (stored : StoredWebhookEvent) (success : ProcessingAttemptResult)
      → Returns (finish repository process_fn defer stored success)
  unfolding finish
  finish-Returns stored success = finish_by-Returns defer stored success

  settle_kind-Returns :
      (stored : StoredWebhookEvent) (replay : ReplayResult) (decision : Option ReplayDecision)
      (kind : Option DecisionKind)
      → Returns (settle_kind repository process_fn defer stored replay decision kind)
  unfolding settle_kind
  settle_kind-Returns stored replay decision (some conflict) =
      Returns-bind _ _ (Returns-when _ _ (ignoring-Returns (repository.mark_conflict stored.id)))
        (λ u. Returns-pure _)
  settle_kind-Returns stored replay decision (some rejected) =
      Returns-bind _ _ (Returns-when _ _ (ignoring-Returns (repository.mark_rejected stored.id)))
        (λ u. Returns-pure _)
  settle_kind-Returns stored replay decision (some accepted) = finish-Returns stored _
  settle_kind-Returns stored replay decision (some duplicate) = finish-Returns stored _
  settle_kind-Returns stored replay decision (some delayed) = finish-Returns stored _
  settle_kind-Returns stored replay decision none = finish-Returns stored _

  after_replay-Returns :
      (stored : StoredWebhookEvent) (r : Settled ReplayResult)
      → Returns (after_replay repository process_fn defer stored r)
  unfolding after_replay
  after_replay-Returns stored (threw error) = Returns-pure _
  after_replay-Returns stored (returned replay) = settle_kind-Returns stored replay _ _

  run_replay-Returns :
      (stored : StoredWebhookEvent) → Returns (run_replay repository process_fn defer stored)
  unfolding run_replay
  run_replay-Returns stored = Returns-bind _ _ (Returns-settled _) (after_replay-Returns stored)

  after_throw-Returns :
      (refused : Bool) (id : String) (error : Thrown)
      → Returns (after_throw repository process_fn defer refused id error)
  unfolding after_throw
  after_throw-Returns true id error =
      Returns-bind (repository.find_by_id id) _ (reads id) (λ latest. Returns-pure _)
  after_throw-Returns false id error = Returns-pure _

  after_mark-Returns :
      (id : String) (r : Settled StoredWebhookEvent)
      → Returns (after_mark repository process_fn defer id r)
  unfolding after_mark
  after_mark-Returns id (returned row) = Returns-pure none
  after_mark-Returns id (threw error) = after_throw-Returns (is_refusal error) id error

  go_on-Returns :
      (stored : StoredWebhookEvent) (r : Option ProcessingAttemptResult)
      → Returns (go_on repository process_fn defer stored r)
  unfolding go_on
  go_on-Returns stored none = run_replay-Returns stored
  go_on-Returns stored (some result) = Returns-pure result

  by_status-Returns :
      (id : String) (stored : StoredWebhookEvent) (status : WebhookProcessingStatus)
      → Returns (by_status repository process_fn defer id stored status)
  unfolding by_status
  by_status-Returns id stored processed = Returns-pure _
  by_status-Returns id stored WebhookProcessingStatus.rejected = Returns-pure _
  by_status-Returns id stored WebhookProcessingStatus.conflict = Returns-pure _
  by_status-Returns id stored received =
      Returns-bind _ _ (Returns-settled (repository.mark_processing stored.id))
        (λ marked. Returns-bind _ _ (after_mark-Returns id marked) (go_on-Returns stored))
  by_status-Returns id stored processing = run_replay-Returns stored

  attempt_found-Returns :
      (id : String) (row : Option StoredWebhookEvent)
      → Returns (attempt_found repository process_fn defer id row)
  unfolding attempt_found
  attempt_found-Returns id none = Returns-pure _
  attempt_found-Returns id (some stored) = by_status-Returns id stored stored.processing_status

  -- Where reading an event never throws, an attempt never does: a replay or a status change that
  -- throws ends in one of the four results.
  pub process_webhook_attempt-Returns :
      (id : String) → Returns (process_webhook_attempt repository process_fn defer id)
  unfolding process_webhook_attempt
  process_webhook_attempt-Returns id = Returns-bind _ _ (reads id) (attempt_found-Returns id)
