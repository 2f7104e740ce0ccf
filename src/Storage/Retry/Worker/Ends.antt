-- ===== src/Storage/Retry/Worker/Ends.antt =====
-- How an attempt of the worker ends, over any repositories.
use hookx.Prelude.{
  ◌≡◌, refl, sym, ℕ, String, ◌+◌, ◌<◌, Bool, true, false, ◌||◌, Option, List, [], ◌∷◌, length, leb,
  arith, keep, ap, subst,
}
use hookx.Domain.{Instant, Result, ok, err}
use hookx.Audit.Event.{AuditActor, retry_worker}
use hookx.Storage.Action.Ends.{Ends, Ends-bind, Ends-pure}
use hookx.Storage.Action.{Settled, returned, bind_inv}
use hookx.Storage.Retry.Classify.{classify_failure, safe_failure_code}
use hookx.Storage.Retry.Memory.{RetryRecord}
use hookx.Storage.Retry.Policy.{RetryPolicy, assert_retry_policy}
use hookx.Storage.Retry.Attempt.{
  ProcessingAttemptResult, succeeded, already_processed, retryable, non_retryable,
}
use hookx.Storage.Retry.Worker.{
  RetryWorkerDependencies, RetryTickResult, AttemptOutcome, attempt_succeeded, attempt_scheduled,
  attempt_dead_lettered, Run, exhausted_by, is_exhausted, is_non_retryable, is_permanent,
  ReplayDecision, ReplayResult, or_default, from_result,
}
use hookx.Storage.Retry.Worker.Tick.{
  finish_succeeded, finish_already_processed, bury, reschedule, bury_or_reschedule, finish_failed,
  finish_result, finish_attempt, finish_each, run_retry_tick, count_outcome, resolve_correlation_id,
}

||_last : (a b c : Bool) → (a || b || c) ≡ false → c ≡ false
||_last true b c h = cc
||_last false true c h = cc
||_last false false c h = h

not_leb : (m n : ℕ) → leb m n ≡ false → n < m
not_leb m n h = ground arith

pub attempts_left :
    (policy : RetryPolicy) (row : RetryRecord) (result : ProcessingAttemptResult) (code : String)
    → is_exhausted policy row result code ≡ false
    → row.attempt_count < policy.max_attempts
unfolding is_exhausted exhausted_by
attempts_left policy row result code h =
    not_leb policy.max_attempts row.attempt_count
      (||_last (is_non_retryable result) (is_permanent (classify_failure code)) _ h)

-- A retry is scheduled only while attempts are left, and for a failure that may pass.
abbrev pub MayRetry : RetryPolicy → RetryRecord → AttemptOutcome → Type 0
MayRetry policy row outcome = outcome ≡ attempt_scheduled → row.attempt_count < policy.max_attempts

module _ {S : Type 0} (add_milliseconds : Instant → ℕ → Instant)
    (dependencies : RetryWorkerDependencies S) where
  succeeded-MayRetry : (run : Run) → MayRetry dependencies.policy run.row attempt_succeeded
  succeeded-MayRetry run e = cc

  dead-MayRetry : (run : Run) → MayRetry dependencies.policy run.row attempt_dead_lettered
  dead-MayRetry run e = cc

  finish_succeeded-Ends :
      (run : Run) (decision : Option ReplayDecision) (replay : Option ReplayResult)
      → Ends
          (MayRetry dependencies.policy run.row)
          (finish_succeeded add_milliseconds dependencies run decision replay)
  unfolding finish_succeeded
  finish_succeeded-Ends run decision replay = Ends-bind _ _ (λ a. Ends-bind _ _ (λ b.
      Ends-bind _ _
        (λ c. Ends-bind _ _ (λ d. Ends-pure attempt_succeeded (succeeded-MayRetry run)))))

  finish_already_processed-Ends :
      (run : Run)
      → Ends
          (MayRetry dependencies.policy run.row)
          (finish_already_processed add_milliseconds dependencies run)
  unfolding finish_already_processed
  finish_already_processed-Ends run = Ends-bind _ _ (λ a.
      Ends-bind _ _
        (λ b. Ends-bind _ _ (λ c. Ends-pure attempt_succeeded (succeeded-MayRetry run))))

  bury-Ends :
      (run : Run) (result : ProcessingAttemptResult) (code reason : String)
      → Ends
          (MayRetry dependencies.policy run.row)
          (bury add_milliseconds dependencies run result code reason)
  unfolding bury
  bury-Ends run result code reason = Ends-bind _ _ (λ a. Ends-bind _ _ (λ b.
      Ends-bind _ _
        (λ c. Ends-bind _ _ (λ d. Ends-pure attempt_dead_lettered (dead-MayRetry run)))))

  reschedule-Ends :
      (run : Run) (result : ProcessingAttemptResult) (code reason : String)
      → run.row.attempt_count < dependencies.policy.max_attempts
      → Ends
          (MayRetry dependencies.policy run.row)
          (reschedule add_milliseconds dependencies run result code reason)
  unfolding reschedule
  reschedule-Ends run result code reason left = Ends-bind _ _ (λ a. Ends-bind _ _ (λ b.
      Ends-bind _ _ (λ c.
        Ends-bind _ _ (λ d. Ends-bind _ _ (λ e. Ends-pure attempt_scheduled (λ same. left))))))

  bury_or_reschedule-Ends :
      (run : Run) (result : ProcessingAttemptResult) (code : String) (exhausted : Bool)
      → exhausted ≡ is_exhausted dependencies.policy run.row result code
      → Ends
          (MayRetry dependencies.policy run.row)
          (bury_or_reschedule add_milliseconds dependencies exhausted run result code)
  unfolding bury_or_reschedule
  bury_or_reschedule-Ends run result code true e = bury-Ends run result code _
  bury_or_reschedule-Ends run result code false e =
      reschedule-Ends run result code _
        (attempts_left dependencies.policy run.row result code (sym e))

  finish_failed-Ends :
      (run : Run) (result : ProcessingAttemptResult) (code : String)
      → Ends
          (MayRetry dependencies.policy run.row)
          (finish_failed add_milliseconds dependencies run result code)
  unfolding finish_failed
  finish_failed-Ends run result code = bury_or_reschedule-Ends run result code _ refl

  finish_result-Ends :
      (run : Run) (result : ProcessingAttemptResult)
      → Ends
          (MayRetry dependencies.policy run.row)
          (finish_result add_milliseconds dependencies run result)
  unfolding finish_result
  finish_result-Ends run (succeeded decision replay) = finish_succeeded-Ends run decision replay
  finish_result-Ends run already_processed = finish_already_processed-Ends run
  finish_result-Ends run (retryable code) =
      finish_failed-Ends run (retryable code) (safe_failure_code code)
  finish_result-Ends run (non_retryable code decision) =
      finish_failed-Ends run (non_retryable code decision) (safe_failure_code code)

  finish_attempt-Ends :
      (row : RetryRecord) (now : Instant) (correlation_id : String) (actor : AuditActor)
      → Ends
          (MayRetry dependencies.policy row)
          (finish_attempt add_milliseconds dependencies row now correlation_id actor)
  unfolding finish_attempt
  finish_attempt-Ends row now correlation_id actor = Ends-bind _ _ (λ a.
      Ends-bind _ _
        (λ stored. Ends-bind _ _ (λ b. Ends-bind _ _ (λ result. finish_result-Ends _ result))))

  -- An attempt at a claimed record that ends with another retry has begun fewer times than the
  -- policy allows, whatever the repositories do.
  pub finish_attempt-scheduled :
      (row : RetryRecord) (now : Instant) (correlation_id : String) (actor : AuditActor) (s : S)
      → (finish_attempt add_milliseconds dependencies row now correlation_id actor s).0
        ≡ returned attempt_scheduled
      → row.attempt_count < dependencies.policy.max_attempts
  finish_attempt-scheduled row now correlation_id actor s e =
      (finish_attempt-Ends row now correlation_id actor).ends s attempt_scheduled e refl

ends_as : AttemptOutcome → AttemptOutcome → Bool
ends_as attempt_succeeded attempt_succeeded = true
ends_as attempt_scheduled attempt_scheduled = true
ends_as attempt_dead_lettered attempt_dead_lettered = true
ends_as _ _ = false

-- How many of the attempts ended in one way.
pub ending : AttemptOutcome → List AttemptOutcome → ℕ
unfolding ends_as
ending outcome ended = length (keep (ends_as outcome) ended)

-- What the loop adds to the counts it starts with.
record Adds (ended : List AttemptOutcome) (before after : RetryTickResult) : Type 0 where
  claimed : after.claimed ≡ before.claimed
  succeeded : after.succeeded ≡ ending attempt_succeeded ended + before.succeeded
  scheduled : after.scheduled ≡ ending attempt_scheduled ended + before.scheduled
  dead_lettered : after.dead_lettered ≡ ending attempt_dead_lettered ended + before.dead_lettered

Adds-none : (tally : RetryTickResult) → Adds [] tally tally
unfolding ending
Adds-none tally = record {
  claimed = refl;
  succeeded = omega arith;
  scheduled = omega arith;
  dead_lettered = omega arith;
}

Adds-count_outcome :
    (outcome : AttemptOutcome) (ended : List AttemptOutcome) (before after : RetryTickResult)
    → Adds ended (count_outcome outcome before) after
    → Adds (outcome ∷ ended) before after
unfolding count_outcome ending ends_as
Adds-count_outcome attempt_succeeded ended before after h = record {
  claimed = h.claimed;
  succeeded = omega (arith, h.succeeded);
  scheduled = h.scheduled;
  dead_lettered = h.dead_lettered;
}
Adds-count_outcome attempt_scheduled ended before after h = record {
  claimed = h.claimed;
  succeeded = h.succeeded;
  scheduled = omega (arith, h.scheduled);
  dead_lettered = h.dead_lettered;
}
Adds-count_outcome attempt_dead_lettered ended before after h = record {
  claimed = h.claimed;
  succeeded = h.succeeded;
  scheduled = h.scheduled;
  dead_lettered = omega (arith, h.dead_lettered);
}

module _ {S : Type 0} (add_milliseconds : Instant → ℕ → Instant)
    (dependencies : RetryWorkerDependencies S) where
  from_result_same :
      {A : Type 0} (r : Result A) (a : A) (s s' : S) → from_result r s ≡ (returned a, s') → s ≡ s'
  unfolding from_result
  from_result_same (ok b) a s s' e = ap (λ (x : Settled _ × S). x.1) e
  from_result_same (err message) a s s' e = ap (λ (x : Settled _ × S). x.1) e

  -- One attempt at each claimed record in turn, each in the state that the one before it left: the
  -- way each ended, and the state at last.
  pub data Attempts (now : Instant) : List RetryRecord → S → List AttemptOutcome → S → Type 0 where
    no_more : {s : S} → Attempts now [] s [] s
    one_more :
        {row : RetryRecord} {rows : List RetryRecord} {correlation_id : String}
        {outcome : AttemptOutcome} {ended : List AttemptOutcome} {s named done last : S}
        → resolve_correlation_id add_milliseconds dependencies row.webhook_event_id s
          ≡ (returned correlation_id, named)
        → finish_attempt add_milliseconds dependencies row now correlation_id
            (or_default dependencies.actor retry_worker)
            named
          ≡ (returned outcome, done)
        → Attempts now rows done ended last
        → Attempts now (row ∷ rows) s (outcome ∷ ended) last

  finish_each-Attempts :
      (now : Instant) (claimed : List RetryRecord) (tally result : RetryTickResult) (s last : S)
      → finish_each add_milliseconds dependencies now claimed tally s ≡ (returned result, last)
      → (ended : List AttemptOutcome) × Attempts now claimed s ended last × Adds ended tally result
  unfolding finish_each
  finish_each-Attempts now [] tally result s last e =
      let same : s ≡ last = ap (λ (x : Settled RetryTickResult × S). x.1) e in
      let kept : returned tally ≡ returned result =
        ap (λ (x : Settled RetryTickResult × S). x.0) e in
      let equal : tally ≡ result = cc in
      ([], subst (Attempts now [] s []) same no_more, subst (Adds [] tally) equal (Adds-none tally))
  finish_each-Attempts now (row ∷ claimed) tally result s last e =
      let (correlation_id, named, resolved, e1) = bind_inv _ _ result s last e in
      let (outcome, done, finished, e2) = bind_inv _ _ result named last e1 in
      let (ended, attempts, added) =
        finish_each-Attempts now claimed (count_outcome outcome tally) result done last e2 in
      (
        outcome ∷ ended,
        one_more resolved finished attempts,
        Adds-count_outcome outcome ended tally result added,
      )

  -- A tick that returns has claimed some records and made one attempt at each in turn; it answers how
  -- many it claimed, and how many of these attempts succeeded, were scheduled again and were
  -- dead-lettered.
  pub run_retry_tick-count :
      (now : Instant) (s last : S) (result : RetryTickResult)
      → run_retry_tick add_milliseconds dependencies now s ≡ (returned result, last)
      → (claimed : List RetryRecord) × (holding : S) × (ended : List AttemptOutcome)
        × (dependencies.retry.claim_due now
              (or_default dependencies.limit 10)
              dependencies.lease_ms
              s
            ≡ (returned claimed, holding))
        × Attempts now claimed holding ended last
        × (result.claimed ≡ length claimed)
        × (result.succeeded ≡ ending attempt_succeeded ended)
        × (result.scheduled ≡ ending attempt_scheduled ended)
        × (result.dead_lettered ≡ ending attempt_dead_lettered ended)
  unfolding run_retry_tick
  run_retry_tick-count now s last result e =
      let (policy, same, valid, e1) = bind_inv _ _ result s last e in
      let (claimed, holding, taken, e2) = bind_inv _ _ result same last e1 in
      let (ended, attempts, added) = finish_each-Attempts now claimed _ result holding last e2 in
      (
        claimed,
        holding,
        ended,
        rw (from_result_same (assert_retry_policy dependencies.policy) policy s same valid) taken,
        attempts,
        added.claimed,
        omega (arith, added.succeeded),
        omega (arith, added.scheduled),
        omega (arith, added.dead_lettered),
      )
