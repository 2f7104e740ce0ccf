-- ===== src/Storage/Retry/Worker/Stored.antt =====
-- What the retry repository holds after an attempt of the worker.
use hookx.Prelude.{◌≡◌, refl, ap, ℕ, String, Bool, true, false, Option, none, some, List, [], ◌∷◌}
use hookx.Domain.{Instant, Result, ok, err}
use hookx.StateMachine.Decisions.{ReplayDecision, ReplayResult}
use hookx.Audit.Event.{AuditActor, AuditAppendInput}
use hookx.Exceptions.Facts.{DetectionFact}
use hookx.Storage.Action.{Settled, returned, threw, Action, pure, ◌>>=◌, ◌>>◌}
use hookx.Storage.Action.Triples.{
  Triple, Keeps, Triple-bind, Triple-pure, Keeps-Triple, Keeps-pure, Keeps-bind,
}
use hookx.Storage.Retry.Policy.{calculate_retry_delay}
use hookx.Storage.Retry.Classify.{other_error, safe_failure_code}
use hookx.Storage.Retry.Memory.{
  RetryRecord, RetryStatus, Repository, DeadLetterInput, get_by_id, mark_succeeded, schedule_retry,
}
use hookx.Storage.Retry.Memory.Leases.{replace_inv}
use hookx.Storage.Retry.Memory.DeadLetters.{dead_letter_inv}
use hookx.Storage.Retry.Attempt.{
  ProcessingAttemptResult, succeeded, already_processed, retryable, non_retryable,
}
use hookx.Storage.Retry.Worker.{
  RetryWorkerDependencies, RetryLifecycleTransition, AttemptOutcome, attempt_succeeded,
  attempt_scheduled, attempt_dead_lettered, Run, exhausted_by, from_result,
}
use hookx.Storage.Retry.Worker.Tick.{
  append_if_auditing, record_facts, record_attempt_exceptions, finish_succeeded,
  finish_already_processed, bury, schedule_input, reschedule, bury_or_reschedule, finish_failed,
  finish_result, finish_attempt,
}
use hookx.Storage.Retry.Worker.Isolation.{IsOn, append_to-Keeps, record_exceptions_safely-Keeps}

module _ {S : Type 0} (add_milliseconds : Instant → ℕ → Instant)
    (dependencies : RetryWorkerDependencies S) (retry_of : S → Repository)
    (on : IsOn retry_of dependencies) where
  -- What an attempt leaves of the record that it worked on.
  abbrev pub Stands : RetryRecord → Instant → AttemptOutcome → RetryRecord → Type 0
  Stands claimed now attempt_succeeded row = row.status ≡ RetryStatus.succeeded
  Stands claimed now attempt_dead_lettered row = row.status ≡ RetryStatus.dead_lettered
  Stands claimed now attempt_scheduled row =
      (row.status ≡ RetryStatus.retry_scheduled)
      × ((delay : ℕ) × (calculate_retry_delay claimed.attempt_count dependencies.policy ≡ ok delay)
          × (row.next_attempt_at ≡ some (add_milliseconds now delay)))

  abbrev pub Left : RetryRecord → Instant → AttemptOutcome → Repository → Type 0
  Left claimed now outcome repository =
      (row : RetryRecord) × (get_by_id repository claimed.id ≡ some row)
      × Stands claimed now outcome row

  mark_succeeded-Triple :
      (claimed : RetryRecord) (now : Instant)
      → Triple
          (λ s. Unit {0})
          (dependencies.retry.mark_succeeded claimed.id now)
          (λ row s. Left claimed now attempt_succeeded (retry_of s))
  unfolding mark_succeeded
  mark_succeeded-Triple claimed now = record {
    holds = λ s s' row p e.
        let (current, found, made, stands) =
          replace_inv (retry_of s) (retry_of s') claimed.id _ row (λ r. refl)
            (on.succeeds claimed.id now s s' row e) in
        (row, stands, rw made refl);
  }

  schedule_retry-Triple :
      (claimed : RetryRecord) (now : Instant) (code : String) (delay : ℕ)
      → calculate_retry_delay claimed.attempt_count dependencies.policy ≡ ok delay
      → Triple
          (λ s. Unit {0})
          (dependencies.retry.schedule_retry claimed.id (record {
            next_attempt_at = add_milliseconds now delay;
            error_code = code;
            failed_at = now;
            now = now;
          }))
          (λ row s. Left claimed now attempt_scheduled (retry_of s))
  unfolding schedule_retry
  schedule_retry-Triple claimed now code delay h = record {
    holds = λ s s' row p e.
        let (current, found, made, stands) =
          replace_inv (retry_of s) (retry_of s') claimed.id _ row (λ r. refl)
            (on.schedules claimed.id _ s s' row e) in
        (row, stands, (rw made refl, (delay, h, rw made refl)));
  }

  dead_letter-Triple :
      (claimed : RetryRecord) (now : Instant) (input : DeadLetterInput)
      → Triple
          (λ s. Unit {0})
          (dependencies.retry.dead_letter claimed.id input)
          (λ dead s. Left claimed now attempt_dead_lettered (retry_of s))
  dead_letter-Triple claimed now input = record {
    holds = λ s s' dead p e.
        let (fresh_id, f) = on.buries claimed.id input s s' dead e in
        dead_letter_inv fresh_id claimed.id input (retry_of s) (retry_of s') dead f;
  }

  append_if_auditing-Keeps :
      (drafts : List AuditAppendInput)
      → Keeps retry_of (append_if_auditing add_milliseconds dependencies drafts)
  unfolding append_if_auditing
  append_if_auditing-Keeps drafts = append_to-Keeps retry_of dependencies.audit drafts on.audit

  record_facts-Keeps :
      (run : Run) (facts : List DetectionFact)
      → Keeps retry_of (record_facts add_milliseconds dependencies run facts)
  unfolding record_facts
  record_facts-Keeps run [] = Keeps-pure retry_of tt
  record_facts-Keeps run (fact ∷ facts) =
      Keeps-bind retry_of _ _
        (record_exceptions_safely-Keeps retry_of _ _ _ _ on.exceptions on.audit)
        (λ saved. Keeps-pure retry_of tt)

  record_attempt_exceptions-Keeps :
      (run : Run) (result : ProcessingAttemptResult) (outcome : AttemptOutcome)
      (code : Option String) (exhausted : Bool)
      → Keeps retry_of (
          record_attempt_exceptions add_milliseconds dependencies run result outcome code exhausted)
  unfolding record_attempt_exceptions
  record_attempt_exceptions-Keeps run result outcome code exhausted = record_facts-Keeps run _

  module _ (F : AttemptOutcome → Repository → Type 0) where
    -- The calls that follow the write of an outcome, and the outcome.
    close_with :
        {P : S → Type 0} {A : Type 0} (outcome : AttemptOutcome) (write : Action S A)
        (step : RetryLifecycleTransition) (last : Action S (Unit {0}))
        → Triple P write (λ a s. F outcome (retry_of s))
        → Keeps retry_of last
        → Triple P
            (write >>= λ a. dependencies.lifecycle step >> (last >> pure outcome))
            (λ o s. F o (retry_of s))
    close_with outcome write step last h k =
        Triple-bind (λ a s. F outcome (retry_of s)) _ _ h
          (λ a.
            Triple-bind (λ u s. F outcome (retry_of s)) _ _
              (Keeps-Triple retry_of (F outcome) _ (on.lifecycle step))
              (λ u.
                Triple-bind (λ v s. F outcome (retry_of s)) _ _
                  (Keeps-Triple retry_of (F outcome) _ k) (λ v. Triple-pure outcome (λ s p. p))))

  -- Nothing is asked of the state before a call.
  anything : {A : Type 0} (m : Action S A) → Triple (λ s. Unit {0}) m (λ a s. Unit {0})
  anything m = record { holds = λ s s' a p e. tt }

  -- What an attempt at `run` leaves.
  abbrev Leaves : Run → Action S AttemptOutcome → Type 0
  Leaves run m = Triple (λ s. Unit {0}) m (λ outcome s. Left run.row run.now outcome (retry_of s))

  finish_succeeded-Leaves :
      (run : Run) (decision : Option ReplayDecision) (replay : Option ReplayResult)
      → Leaves run (finish_succeeded add_milliseconds dependencies run decision replay)
  unfolding finish_succeeded
  finish_succeeded-Leaves run decision replay =
      Triple-bind (λ u s. Unit {0}) _ _ (anything _)
        (λ u.
          close_with (λ o r. Left run.row run.now o r) attempt_succeeded _ _ _
            (mark_succeeded-Triple run.row run.now)
            (record_attempt_exceptions-Keeps run (succeeded decision replay) attempt_succeeded none
              false))

  bury-Leaves :
      (run : Run) (result : ProcessingAttemptResult) (code reason : String)
      → Leaves run (bury add_milliseconds dependencies run result code reason)
  unfolding bury
  bury-Leaves run result code reason =
      Triple-bind (λ u s. Unit {0}) _ _ (anything _)
        (λ u.
          close_with (λ o r. Left run.row run.now o r) attempt_dead_lettered _ _ _
            (dead_letter-Triple run.row run.now _)
            (record_attempt_exceptions-Keeps run result attempt_dead_lettered (some code)
              (exhausted_by dependencies.policy run.row)))

  finish_already_processed-Leaves :
      (run : Run) → Leaves run (finish_already_processed add_milliseconds dependencies run)
  unfolding finish_already_processed
  finish_already_processed-Leaves run =
      Triple-bind (λ u s. Unit {0}) _ _ (anything _)
        (λ u.
          Triple-bind (λ a s. Left run.row run.now attempt_succeeded (retry_of s)) _ _
            (mark_succeeded-Triple run.row run.now)
            (λ a.
              Triple-bind (λ v s. Left run.row run.now attempt_succeeded (retry_of s)) _ _
                (Keeps-Triple retry_of (Left run.row run.now attempt_succeeded) _ (on.lifecycle _))
                (λ v. Triple-pure attempt_succeeded (λ s p. p))))

  from_result-Triple :
      {A : Type 0} (r : Result A) → Triple {S = S} (λ s. Unit {0}) (from_result r) (λ a s. r ≡ ok a)
  unfolding from_result
  from_result-Triple (ok a) = Triple-pure a (λ s p. refl)
  from_result-Triple (err message) = record {
    holds = λ s s' a p e.
        let bad : threw other_error ≡ returned a = ap (λ (x : Settled _ × S). x.0) e in cc;
  }

  -- The same where a fact that does not speak of the state is known.
  given :
      {A : Type 0} {P : Type 0} {m : Action S A} {Q : A → S → Type 0}
      → (P → Triple (λ s. Unit {0}) m Q)
      → Triple (λ s. P) m Q
  given h = record { holds = λ s s' a p e. (h p).holds s s' a tt e }

  reschedule-Leaves :
      (run : Run) (result : ProcessingAttemptResult) (code reason : String)
      → Leaves run (reschedule add_milliseconds dependencies run result code reason)
  unfolding reschedule schedule_input
  reschedule-Leaves run result code reason =
      let F = Left run.row run.now attempt_scheduled in
      Triple-bind
        (λ delay s. calculate_retry_delay run.row.attempt_count dependencies.policy ≡ ok delay) _ _
        (from_result-Triple (calculate_retry_delay run.row.attempt_count dependencies.policy))
        (λ delay.
          Triple-bind (λ a s. F (retry_of s)) _ _
            (given (schedule_retry-Triple run.row run.now code delay))
            (λ a.
              Triple-bind (λ u s. F (retry_of s)) _ _
                (Keeps-Triple retry_of F _ (append_if_auditing-Keeps _))
                (λ u.
                  Triple-bind (λ v s. F (retry_of s)) _ _
                    (Keeps-Triple retry_of F _ (on.lifecycle _))
                    (λ v.
                      Triple-bind (λ w s. F (retry_of s)) _ _
                        (Keeps-Triple retry_of F _ (
                          record_attempt_exceptions-Keeps run result attempt_scheduled (some code)
                            false))
                        (λ w. Triple-pure attempt_scheduled (λ s p. p))))))

  bury_or_reschedule-Leaves :
      (exhausted : Bool) (run : Run) (result : ProcessingAttemptResult) (code : String)
      → Leaves run (bury_or_reschedule add_milliseconds dependencies exhausted run result code)
  unfolding bury_or_reschedule
  bury_or_reschedule-Leaves true run result code = bury-Leaves run result code _
  bury_or_reschedule-Leaves false run result code = reschedule-Leaves run result code _

  finish_failed-Leaves :
      (run : Run) (result : ProcessingAttemptResult) (code : String)
      → Leaves run (finish_failed add_milliseconds dependencies run result code)
  unfolding finish_failed
  finish_failed-Leaves run result code = bury_or_reschedule-Leaves _ run result code

  finish_result-Leaves :
      (run : Run) (result : ProcessingAttemptResult)
      → Leaves run (finish_result add_milliseconds dependencies run result)
  unfolding finish_result
  finish_result-Leaves run (succeeded decision replay) = finish_succeeded-Leaves run decision replay
  finish_result-Leaves run already_processed = finish_already_processed-Leaves run
  finish_result-Leaves run (retryable code) =
      finish_failed-Leaves run (retryable code) (safe_failure_code code)
  finish_result-Leaves run (non_retryable code decision) =
      finish_failed-Leaves run (non_retryable code decision) (safe_failure_code code)

  finish_attempt-Leaves :
      (claimed : RetryRecord) (now : Instant) (correlation_id : String) (actor : AuditActor)
      → Triple
          (λ s. Unit {0})
          (finish_attempt add_milliseconds dependencies claimed now correlation_id actor)
          (λ outcome s. Left claimed now outcome (retry_of s))
  unfolding finish_attempt
  finish_attempt-Leaves claimed now correlation_id actor =
      Triple-bind (λ a s. Unit {0}) _ _ (anything _)
        (λ a.
          Triple-bind (λ b s. Unit {0}) _ _ (anything _)
            (λ stored.
              Triple-bind (λ c s. Unit {0}) _ _ (anything _)
                (λ c.
                  Triple-bind (λ d s. Unit {0}) _ _ (anything _)
                    (λ result.
                      finish_result-Leaves
                        (record {
                          row = claimed;
                          now = now;
                          correlation_id = correlation_id;
                          actor = actor;
                          stored = stored;
                        })
                        result))))

  -- Over a repository of retries that works as the one in memory, an attempt that returns leaves the
  -- claimed record in the status that the outcome says; a record that is scheduled again has the
  -- delay of its attempt before it.
  pub finish_attempt-Left :
      (claimed : RetryRecord) (now : Instant) (correlation_id : String) (actor : AuditActor)
      (outcome : AttemptOutcome) (s s' : S)
      → finish_attempt add_milliseconds dependencies claimed now correlation_id actor s
        ≡ (returned outcome, s')
      → Left claimed now outcome (retry_of s')
  finish_attempt-Left claimed now correlation_id actor outcome s s' e =
      (finish_attempt-Leaves claimed now correlation_id actor).holds s s' outcome tt e
