-- ===== src/Storage/Retry/Attempt/InMemory.antt =====
-- Attempts over the log in memory and its own replay: what is answered and stored is what the replay
-- decides on the event.
use hookx.Prelude.{
  ◌≡◌, refl, sym, ◌∙◌, ap, subst, String, Bool, true, false, not, Option, none, some, [], ◌∷◌,
}
use hookx.Domain.{Result, ok, err}
use hookx.StateMachine.Decisions.{
  DecisionKind, accepted, duplicate, delayed, conflict, rejected, ReplayDecision, ReplayResult,
}
use hookx.Storage.Status.{WebhookProcessingStatus, received, processing, processed}
use hookx.Storage.Events.{
  StoredWebhookEvent, EventLog, find_by_id, put, with_status, mark_processing, mark_processed,
  mark_rejected, mark_conflict, process_payment_events,
}
use hookx.Storage.Retry.Classify.{coded_error}
use hookx.Storage.Action.{
  Settled, returned, threw, Action, bind_returned, try_returned, bind_settled, when-true,
  when-false,
}
use hookx.Storage.Retry.Attempt.{
  WebhookEventRepository, ProcessFn, ProcessingAttemptResult, succeeded, already_processed,
  non_retryable, decision_for, kind_of, status_of, ignoring, mark_done, finish, finish_by,
  settle_kind, after_replay, run_replay, after_mark, go_on, by_status, attempt_found,
  process_webhook_attempt, is_status_received, is_status_processed,
}
use hookx.Storage.Events.Puts.{
  found_id, find-put, put-put, process_payment_events-put, transition_done,
}

-- A method of the log as an action: a `StorageError` is thrown by its code.
abbrev settle_call :
    EventLog → Result (EventLog × StoredWebhookEvent) → Settled StoredWebhookEvent × EventLog
settle_call log (ok (next, row)) = (returned row, next)
settle_call log (err code) = (threw (coded_error code), log)

abbrev pub stored_call :
    (EventLog → Result (EventLog × StoredWebhookEvent)) → Action EventLog StoredWebhookEvent
stored_call call log = settle_call log (call log)

abbrev pub memory_events : WebhookEventRepository EventLog
memory_events = record {
  find_by_id = λ id log. (returned (find_by_id log id), log);
  mark_processing = λ id. stored_call (λ log. mark_processing log id);
  mark_processed = λ id. stored_call (λ log. mark_processed log id);
  mark_rejected = λ id. stored_call (λ log. mark_rejected log id);
  mark_conflict = λ id. stored_call (λ log. mark_conflict log id);
}

-- `processPaymentEvents` as the default of `processFn`.
abbrev pub replay_stored : ProcessFn EventLog
replay_stored provider payment_id log =
    (returned (process_payment_events log provider payment_id), log)

-- The status that a decision ends in.
abbrev pub verdict_status : Option DecisionKind → WebhookProcessingStatus
verdict_status (some conflict) = WebhookProcessingStatus.conflict
verdict_status (some rejected) = WebhookProcessingStatus.rejected
verdict_status _ = processed

-- The answer to a decision.
abbrev pub verdict :
    Option ReplayDecision → ReplayResult → Option DecisionKind → ProcessingAttemptResult
verdict decision replay (some conflict) = non_retryable "PERMANENT_CONFLICT" decision
verdict decision replay (some rejected) = non_retryable "INVALID_TRANSITION" decision
verdict decision replay _ = succeeded decision (some replay)

-- After the replay, at an event that was read as `row` and is being processed.
module _ (log : EventLog) (row current : StoredWebhookEvent)
    (found : find_by_id log row.id ≡ some current)
    (claimed : current.processing_status ≡ processing) where
  marked_processed :
      mark_processed log row.id
      ≡ ok (put row.id (with_status processed current) log, with_status processed current)
  unfolding mark_processed
  marked_processed =
      transition_done row.id log current found (processing ∷ []) processed (rw claimed refl)
        (rw claimed refl)

  marked_rejected :
      mark_rejected log row.id
      ≡ ok (
        put row.id (with_status WebhookProcessingStatus.rejected current) log,
        with_status WebhookProcessingStatus.rejected current,
      )
  unfolding mark_rejected
  marked_rejected =
      transition_done row.id log current found (processing ∷ []) WebhookProcessingStatus.rejected
        (rw claimed refl) (rw claimed refl)

  marked_conflict :
      mark_conflict log row.id
      ≡ ok (
        put row.id (with_status WebhookProcessingStatus.conflict current) log,
        with_status WebhookProcessingStatus.conflict current,
      )
  unfolding mark_conflict
  marked_conflict =
      transition_done row.id log current found
        (received ∷ processing ∷ WebhookProcessingStatus.rejected ∷ WebhookProcessingStatus.conflict
          ∷ [])
        WebhookProcessingStatus.conflict (rw claimed refl) (rw claimed refl)

  -- An attempt that defers, as the worker does where it has an outcome writer, leaves the status.
  abbrev settled_log : Bool → Option DecisionKind → EventLog
  settled_log true kind = log
  settled_log false kind = put row.id (with_status (verdict_status kind) current) log

  mark_done_claimed :
      mark_done memory_events replay_stored false row log
      ≡ (returned tt, put row.id (with_status processed current) log)
  unfolding mark_done is_status_received is_status_processed
  mark_done_claimed =
      let not_received : is_status_received (status_of (find_by_id log row.id)) ≡ false =
        rw found (rw claimed refl) in
      let not_processed : is_status_processed (status_of (find_by_id log row.id)) ≡ false =
        rw found (rw claimed refl) in
      bind_returned _ _ refl
      ∙ bind_returned _ _ (when-false _ not_received)
      ∙ when-true _ (ap not not_processed)
      ∙ bind_returned _ _ (ap (settle_call log) marked_processed)

  finish_claimed :
      (defer : Bool) (success : ProcessingAttemptResult)
      → finish memory_events replay_stored defer row success log
        ≡ (returned success, settled_log defer none)
  unfolding finish finish_by
  finish_claimed true success = refl
  finish_claimed false success = try_returned _ _ (bind_returned _ _ mark_done_claimed)

  settle_claimed :
      (defer : Bool) (replay : ReplayResult) (decision : Option ReplayDecision)
      (kind : Option DecisionKind)
      → settle_kind memory_events replay_stored defer row replay decision kind log
        ≡ (returned (verdict decision replay kind), settled_log defer kind)
  unfolding settle_kind ignoring
  settle_claimed true replay decision none = finish_claimed true _
  settle_claimed true replay decision (some accepted) = finish_claimed true _
  settle_claimed true replay decision (some duplicate) = finish_claimed true _
  settle_claimed true replay decision (some delayed) = finish_claimed true _
  settle_claimed true replay decision (some conflict) = bind_returned _ _ (when-false _ refl)
  settle_claimed true replay decision (some rejected) = bind_returned _ _ (when-false _ refl)
  settle_claimed false replay decision none = finish_claimed false _
  settle_claimed false replay decision (some accepted) = finish_claimed false _
  settle_claimed false replay decision (some duplicate) = finish_claimed false _
  settle_claimed false replay decision (some delayed) = finish_claimed false _
  settle_claimed false replay decision (some conflict) = bind_returned _ _ (
      when-true _ refl
      ∙ try_returned _ _ (bind_returned _ _ (ap (settle_call log) marked_conflict)))
  settle_claimed false replay decision (some rejected) = bind_returned _ _ (
      when-true _ refl
      ∙ try_returned _ _ (bind_returned _ _ (ap (settle_call log) marked_rejected)))

-- The replay that an attempt at a stored event runs, and the decision on it.
abbrev replay_of : EventLog → StoredWebhookEvent → ReplayResult
replay_of log row = process_payment_events log row.event.provider row.event.payment_id

abbrev decided : EventLog → StoredWebhookEvent → Option ReplayDecision
decided log row = decision_for row (replay_of log row)

-- The answer to the replay.
abbrev pub judged : EventLog → StoredWebhookEvent → ProcessingAttemptResult
judged log row = verdict (decided log row) (replay_of log row) (kind_of (decided log row))

abbrev pub final_status : EventLog → StoredWebhookEvent → WebhookProcessingStatus
final_status log row = verdict_status (kind_of (decided log row))

run_replay_claimed :
    (defer : Bool) (log : EventLog) (row current : StoredWebhookEvent)
    (found : find_by_id log row.id ≡ some current)
    (claimed : current.processing_status ≡ processing)
    → run_replay memory_events replay_stored defer row log ≡ (
      returned (judged log row),
      settled_log log row current found claimed defer (kind_of (decided log row)),
    )
unfolding run_replay after_replay
run_replay_claimed defer log row current found claimed =
    bind_settled _ _ refl
    ∙ settle_claimed log row current found claimed defer (replay_of log row) (decided log row)
        (kind_of (decided log row))

-- `markProcessing` comes first for a received event.
start_received :
    (defer : Bool) (log : EventLog) (row : StoredWebhookEvent) (id : String)
    → find_by_id log row.id ≡ some row
    → row.processing_status ≡ received
    → by_status memory_events replay_stored defer id row received log
      ≡ run_replay memory_events replay_stored defer row
          (put row.id (with_status processing row) log)
unfolding by_status after_mark go_on mark_processing
start_received defer log row id found fresh =
    bind_settled _ _ (
      ap (settle_call log) (
        transition_done row.id log row found (received ∷ []) processing (rw fresh refl)
          (rw fresh refl)))
    ∙ bind_returned _ _ refl

-- The log that an attempt leaves that found the event received, or in processing.
abbrev pub left_received : Bool → EventLog → StoredWebhookEvent → EventLog
left_received true log row = put row.id (with_status processing row) log
left_received false log row = put row.id (with_status (final_status log row) row) log

abbrev pub left_processing : Bool → EventLog → StoredWebhookEvent → EventLog
left_processing true log row = log
left_processing false log row = put row.id (with_status (final_status log row) row) log

received_attempt :
    (defer : Bool) (log : EventLog) (row : StoredWebhookEvent) (id : String)
    → find_by_id log row.id ≡ some row
    → row.processing_status ≡ received
    → by_status memory_events replay_stored defer id row received log
      ≡ (returned (judged log row), left_received defer log row)
received_attempt defer log row id found fresh =
    let marked = with_status processing row in
    let same_replay =
      process_payment_events-put row.id log row processing row.event.provider row.event.payment_id
        found in
    start_received defer log row id found fresh
    ∙ run_replay_claimed defer (put row.id marked log) row marked
        (find-put row.id log row marked found refl) refl
    ∙ rw same_replay (ap (λ l. (returned (judged log row), l)) (left defer))
  where
    left :
        (d : Bool)
        → settled_log
            (put row.id (with_status processing row) log)
            row
            (with_status processing row)
            (find-put row.id log row (with_status processing row) found refl)
            refl
            d
            (kind_of (decided log row))
          ≡ left_received d log row
    left true = refl
    left false = put-put row.id log (with_status processing row) _ refl

-- What an attempt answers and leaves, by the status in which it finds the event.
abbrev pub outcome :
    Bool
    → EventLog
    → StoredWebhookEvent
    → WebhookProcessingStatus
    → Settled ProcessingAttemptResult × EventLog
outcome defer log row received = (returned (judged log row), left_received defer log row)
outcome defer log row processing = (returned (judged log row), left_processing defer log row)
outcome defer log row processed = (returned already_processed, log)
outcome defer log row WebhookProcessingStatus.rejected =
    (returned (non_retryable "PERMANENT_CONFLICT" none), log)
outcome defer log row WebhookProcessingStatus.conflict =
    (returned (non_retryable "PERMANENT_CONFLICT" none), log)

by_status_lem :
    (defer : Bool) (log : EventLog) (row : StoredWebhookEvent) (id : String)
    (status : WebhookProcessingStatus)
    → find_by_id log row.id ≡ some row
    → row.processing_status ≡ status
    → by_status memory_events replay_stored defer id row status log ≡ outcome defer log row status
unfolding by_status
by_status_lem defer log row id received found e = received_attempt defer log row id found e
by_status_lem true log row id processing found e = run_replay_claimed true log row row found e
by_status_lem false log row id processing found e = run_replay_claimed false log row row found e
by_status_lem defer log row id processed found e = refl
by_status_lem defer log row id WebhookProcessingStatus.rejected found e = refl
by_status_lem defer log row id WebhookProcessingStatus.conflict found e = refl

-- An attempt at a stored event, over the log in memory and its own replay, answers and leaves what
-- `outcome` says. An event that is received or in processing is answered by the decision of the
-- replay on it. Where the attempt writes the final status itself, the event ends as conflict,
-- rejected or processed by that decision, in this one change of the log; where it defers that status
-- to its caller, as it does for the worker with an outcome writer, the event is left in processing.
-- Any other event is left alone, as already processed or as a permanent conflict.
pub process_webhook_attempt_in_memory :
    (defer : Bool) (log : EventLog) (row : StoredWebhookEvent) (id : String)
    → find_by_id log id ≡ some row
    → process_webhook_attempt memory_events replay_stored defer id log
      ≡ outcome defer log row row.processing_status
unfolding process_webhook_attempt attempt_found
process_webhook_attempt_in_memory defer log row id found =
    let at_row = subst (λ i. find_by_id log i ≡ some row) (sym (found_id id log row found)) found in
    bind_returned _ _ refl
    ∙ rw found (by_status_lem defer log row id row.processing_status at_row refl)
