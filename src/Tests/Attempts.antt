-- ===== src/Tests/Attempts.antt =====
-- Attempts of the worker, over the repositories in memory.
use hookx.Prelude.{
  sort, lex, ℕ, String, ◌≡◌, refl, ◌<◌, none, some, List, length, [], ◌∷◌, false, true,
}
use hookx.Domain.{Instant}
use hookx.Audit.Event.{system}
use hookx.Storage.Status.{WebhookProcessingStatus}
use hookx.Storage.Events.{StoredWebhookEvent, EventLog, find_by_id, mark_processing, put}
use hookx.Storage.Action.Returns.{Returns}
use hookx.Storage.Action.{◌>>=◌, settled, try_catch, Settled, returned, threw}
use hookx.Storage.Retry.Policy.{default_retry_policy}
use hookx.Storage.Retry.Classify.{retryable_error}
use hookx.Storage.Retry.Memory.{
  RetryRecord, RetryStatus, get_by_id, schedule_retry, dead_letter, claim_due,
}
use hookx.Storage.Retry.Attempt.{process_webhook_attempt}
use hookx.Storage.Retry.Attempt.Returns.{process_webhook_attempt-Returns}
use hookx.Storage.Retry.Attempt.InMemory as InMemory
use hookx.Storage.Retry.Worker.{
  RetryWorkerDependencies, RetryTickResult, AttemptOutcome, attempt_succeeded, attempt_scheduled,
  attempt_dead_lettered,
}
use hookx.Storage.Retry.Worker.Tick.{finish_attempt, run_retry_tick}
use hookx.Storage.Retry.Worker.Ends.{
  Attempts, ending, finish_attempt-scheduled, run_retry_tick-count,
}
use hookx.Storage.Retry.Worker.Stored.{finish_attempt-Left}
use hookx.Storage.Retry.Worker.Memory.{
  settle_part, World, memory_dependencies, memory_dependencies-IsOn,
}
use hookx.Tests.Data.{noon, later, creation}

abbrev waiting : StoredWebhookEvent
waiting = record {
  id = "w1";
  event = creation;
  processing_status = WebhookProcessingStatus.received;
  created_at = later;
}

abbrev log : EventLog
log = waiting ∷ []

waiting_found : find_by_id log "w1" ≡ some waiting
unfolding find_by_id
waiting_found = refl

-- As the worker with an outcome writer attempts it.
process_webhook_attempt_in_memory_example :
    process_webhook_attempt InMemory.memory_events InMemory.replay_stored true "w1" log ≡ (
      returned (InMemory.judged log waiting),
      record waiting { processing_status = WebhookProcessingStatus.processing } ∷ [],
    )
unfolding put
process_webhook_attempt_in_memory_example =
    InMemory.process_webhook_attempt_in_memory true log waiting "w1" waiting_found

process_webhook_attempt-Returns_example :
    Returns (process_webhook_attempt InMemory.memory_events InMemory.replay_stored false "w1")
process_webhook_attempt-Returns_example =
    process_webhook_attempt-Returns InMemory.memory_events InMemory.replay_stored false
      (λ id. record { returns = λ s. (find_by_id s id, refl) }) "w1"

abbrev one_uuid : ℕ → String
one_uuid n = "00000000-0000-4000-8000-000000000001"

abbrev half_minute : Instant → ℕ → Instant
half_minute at ms = later

abbrev claimed_row : RetryRecord
claimed_row = record {
  id = "r1";
  webhook_event_id = "w1";
  attempt_count = 1;
  status = RetryStatus.processing;
  next_attempt_at = some noon;
  lease_expires_at = some later;
  last_error_code = none;
  last_failed_at = none;
  created_at = noon;
  updated_at = noon;
}

abbrev world : World
world = record {
  events = log;
  retries = record { records = claimed_row ∷ []; dead_letters = [] };
  trail = [];
  exceptions = [];
  payments = [];
  transitions = [];
  drawn = 0;
}

-- A replay that fails for a time.
abbrev failing : RetryWorkerDependencies World
failing = record (memory_dependencies one_uuid half_minute default_retry_policy) {
  process_payment_events = λ provider payment_id s. (threw (retryable_error "TIMEOUT"), s);
  exceptions = none;
  audit = none;
  persist_outcome = none;
}

abbrev after_failure : Settled AttemptOutcome × World
after_failure = finish_attempt half_minute failing claimed_row noon "c1" system world

failure_scheduled : after_failure.0 ≡ returned attempt_scheduled
unfolding finish_attempt ◌>>=◌ find_by_id settled settle_part mark_processing schedule_retry
failure_scheduled = refl

finish_attempt-scheduled_example : 1 < 5
finish_attempt-scheduled_example =
    finish_attempt-scheduled half_minute failing claimed_row noon "c1" system world
      failure_scheduled

-- A claimed record whose event is not in the log.
abbrev lost : World
lost = record world { events = [] }

abbrev all_parts : RetryWorkerDependencies World
all_parts = memory_dependencies one_uuid half_minute default_retry_policy

abbrev lost_end : World
lost_end = (finish_attempt half_minute all_parts claimed_row noon "c1" system lost).1

lost_buried :
    finish_attempt half_minute all_parts claimed_row noon "c1" system lost
    ≡ (returned attempt_dead_lettered, lost_end)
unfolding finish_attempt ◌>>=◌ find_by_id settled settle_part dead_letter try_catch
lost_buried = refl

finish_attempt-Left_example :
    (row : RetryRecord) × (get_by_id lost_end.retries "r1" ≡ some row)
    × (row.status ≡ RetryStatus.dead_lettered)
finish_attempt-Left_example =
    finish_attempt-Left half_minute all_parts (λ (w : World). w.retries)
      (memory_dependencies-IsOn one_uuid half_minute default_retry_policy) claimed_row noon "c1"
      system attempt_dead_lettered lost lost_end lost_buried

abbrev ticked : RetryTickResult
ticked = record { claimed = 1; succeeded = 0; scheduled = 1; dead_lettered = 0 }

abbrev tick_end : World
tick_end = (run_retry_tick half_minute failing later world).1

tick_counts : run_retry_tick half_minute failing later world ≡ (returned ticked, tick_end)
unfolding run_retry_tick finish_attempt ◌>>=◌ find_by_id settled settle_part mark_processing
    schedule_retry claim_due sort lex
tick_counts = refl

run_retry_tick-count_example :
    (claimed : List RetryRecord) × (holding : World) × (ended : List AttemptOutcome)
    × (failing.retry.claim_due later 10 30000 world ≡ (returned claimed, holding))
    × Attempts half_minute failing later claimed holding ended tick_end
    × (1 ≡ length claimed)
    × (0 ≡ ending attempt_succeeded ended)
    × (1 ≡ ending attempt_scheduled ended)
    × (0 ≡ ending attempt_dead_lettered ended)
run_retry_tick-count_example =
    run_retry_tick-count half_minute failing later world tick_end ticked tick_counts
