-- ===== src/Pipeline/Answers.antt =====
-- Every delivery is answered.
use hookx.Prelude.{ℕ, String, Bool, true, false, Option, none, some, List, [], ◌∷◌}
use hookx.Domain.{Identity, Instant}
use hookx.Webhook.{NormalizedWebhookEvent}
use hookx.StateMachine.Decisions.{ReplayResult}
use hookx.Audit.Event.{AuditActor, AuditAppendInput}
use hookx.Exceptions.Facts.{DetectionFact, facts_from_store_outcome, facts_from_verification_status}
use hookx.Exceptions.Detect.{DetectionContext}
use hookx.Storage.Action.{Settled, returned, threw}
use hookx.Storage.Action.Returns.{
  Returns, Returns-bind, Returns-try_catch, Returns-pure, Returns-settled, Returns-for_each,
}
use hookx.Storage.Audit.Outcome.{AuditRepository}
use hookx.Storage.Events.{
  StoredWebhookEvent, StoreWebhookEventResult, stored, duplicate, conflicting,
}
use hookx.Storage.Exceptions.Recording.{ExceptionRepository, record_exceptions_safely}
use hookx.Storage.Retry.Memory.{RetryStatus, RetryRecord}
use hookx.Storage.Retry.Worker.{RetryRepository}
use hookx.Pipeline.{
  VerificationStatus, verified, invalid_signature, missing_signature, malformed_signature,
  expired_signature, ProcessIncomingWebhookResult, LifecycleLogInput, Normalization, normalized,
  webhook_error, other_failure, Delivery, IngestDependencies,
}
use hookx.Pipeline.Ingest.{append_safely, record_rejection, record_ingest_exceptions}
use hookx.Pipeline.Storing.{
  duplicate_facts, ingest_exceptions, without_retry, observe_replay, observe_decision, answer_fresh,
  answer_attempt, after_attempt, process_stored, log_stored, accept_stored, answer_conflict,
}
use hookx.Pipeline.Handler.{
  after_store, refuse, fail_normalization, after_normalized, refuse_with, by_normalization,
  by_payload, reject_signature, by_verification, by_verifier, process_incoming_webhook,
}

record_exceptions_safely-Returns :
    {S : Type 0} (exceptions : Option (ExceptionRepository S)) (audit : Option (AuditRepository S))
    (context : DetectionContext) (actor : AuditActor)
    → Returns (record_exceptions_safely exceptions audit context actor)
unfolding record_exceptions_safely
record_exceptions_safely-Returns none audit context actor = Returns-pure _
record_exceptions_safely-Returns (some exceptions) audit context actor =
    Returns-try_catch _ _ (λ error. Returns-pure _)

module _ {S Body Headers Payload : Type 0} (add_milliseconds : Instant → ℕ → Instant)
    (dependencies : IngestDependencies S Body Headers Payload) (input : Delivery Body Headers)
    (logs : (logged : LifecycleLogInput) → Returns (dependencies.emit logged)) where
  append_safely-Returns :
      (audit : Option (AuditRepository S)) (draft : AuditAppendInput)
      → Returns (append_safely add_milliseconds dependencies input audit draft)
  unfolding append_safely
  append_safely-Returns none draft = Returns-pure tt
  append_safely-Returns (some audit) draft = Returns-try_catch _ _ (λ error. Returns-pure tt)

  record_ingest_exceptions-Returns :
      (facts : List DetectionFact) (payment_id : Option Identity)
      (webhook_event_id event_type : Option String)
      → Returns (
          record_ingest_exceptions add_milliseconds dependencies input facts payment_id
            webhook_event_id event_type)
  unfolding record_ingest_exceptions
  record_ingest_exceptions-Returns [] payment_id webhook_event_id event_type = Returns-pure tt
  record_ingest_exceptions-Returns (fact ∷ facts) payment_id webhook_event_id event_type =
      Returns-bind _ _ (record_exceptions_safely-Returns _ _ _ _)
        (λ created. Returns-for_each _ created (λ row. logs _))

  ingest_exceptions-Returns :
      (facts : List DetectionFact) (event : Option NormalizedWebhookEvent)
      (webhook_event_id : Option String)
      → Returns (ingest_exceptions add_milliseconds dependencies input facts event webhook_event_id)
  unfolding ingest_exceptions
  ingest_exceptions-Returns facts event webhook_event_id =
      record_ingest_exceptions-Returns facts _ webhook_event_id _

  without_retry-Returns :
      (event : NormalizedWebhookEvent) (row : StoredWebhookEvent) (is_duplicate : Bool)
      → Returns (without_retry add_milliseconds dependencies input event row is_duplicate)
  unfolding without_retry
  without_retry-Returns event row is_duplicate =
      Returns-try_catch _ _ (λ error. Returns-bind _ _ (logs _) (λ u. Returns-pure _))

  observe_replay-Returns :
      (event : NormalizedWebhookEvent) (r : Settled ReplayResult)
      → Returns (observe_replay add_milliseconds dependencies input event r)
  unfolding observe_replay
  observe_replay-Returns event (threw error) = Returns-pure none
  observe_replay-Returns event (returned replay) =
      Returns-bind _ _ (Returns-try_catch _ _ (λ error. Returns-pure tt)) (λ u. Returns-pure _)

  observe_decision-Returns :
      (event : NormalizedWebhookEvent) (status : RetryStatus)
      → Returns (observe_decision add_milliseconds dependencies input event status)
  unfolding observe_decision
  observe_decision-Returns event RetryStatus.succeeded =
      Returns-bind _ _ (Returns-settled _) (observe_replay-Returns event)
  observe_decision-Returns event RetryStatus.pending = Returns-pure none
  observe_decision-Returns event RetryStatus.processing = Returns-pure none
  observe_decision-Returns event RetryStatus.retry_scheduled = Returns-pure none
  observe_decision-Returns event RetryStatus.dead_lettered = Returns-pure none

  answer_fresh-Returns :
      (event : NormalizedWebhookEvent) (row : StoredWebhookEvent) (status : RetryStatus)
      (decision : Option String)
      → Returns (answer_fresh add_milliseconds dependencies input event row status decision)
  unfolding answer_fresh
  answer_fresh-Returns event row RetryStatus.retry_scheduled decision =
      Returns-bind _ _ (logs _) (λ u. Returns-pure _)
  answer_fresh-Returns event row RetryStatus.pending decision = Returns-pure _
  answer_fresh-Returns event row RetryStatus.processing decision = Returns-pure _
  answer_fresh-Returns event row RetryStatus.succeeded decision = Returns-pure _
  answer_fresh-Returns event row RetryStatus.dead_lettered decision = Returns-pure _

  answer_attempt-Returns :
      (is_duplicate : Bool) (event : NormalizedWebhookEvent) (row : StoredWebhookEvent)
      (status : RetryStatus) (decision : Option String)
      → Returns (
          answer_attempt add_milliseconds dependencies input is_duplicate event row status decision)
  unfolding answer_attempt
  answer_attempt-Returns true event row status decision =
      Returns-bind _ _
        (ingest_exceptions-Returns (duplicate_facts add_milliseconds dependencies input true)
          (some event) (some row.id))
        (λ u. Returns-pure _)
  answer_attempt-Returns false event row status decision =
      answer_fresh-Returns event row status decision

  after_attempt-Returns :
      (event : NormalizedWebhookEvent) (row : StoredWebhookEvent) (is_duplicate : Bool)
      (r : Settled RetryRecord)
      → Returns (after_attempt add_milliseconds dependencies input event row is_duplicate r)
  unfolding after_attempt
  after_attempt-Returns event row is_duplicate (threw error) =
      Returns-bind _ _ (logs _) (λ u. Returns-pure _)
  after_attempt-Returns event row is_duplicate (returned retry_row) =
      Returns-bind _ _ (observe_decision-Returns event retry_row.status)
        (answer_attempt-Returns is_duplicate event row retry_row.status)

  process_stored-Returns :
      (retry : Option (RetryRepository S)) (event : NormalizedWebhookEvent)
      (row : StoredWebhookEvent) (is_duplicate : Bool)
      → Returns (process_stored add_milliseconds dependencies input retry event row is_duplicate)
  unfolding process_stored
  process_stored-Returns none event row is_duplicate = without_retry-Returns event row is_duplicate
  process_stored-Returns (some retry) event row is_duplicate =
      Returns-bind _ _ (Returns-settled _) (after_attempt-Returns event row is_duplicate)

  log_stored-Returns :
      (event : NormalizedWebhookEvent) (row : StoredWebhookEvent) (is_duplicate : Bool)
      → Returns (log_stored add_milliseconds dependencies input event row is_duplicate)
  unfolding log_stored
  log_stored-Returns event row true = logs _
  log_stored-Returns event row false = Returns-bind _ _ (logs _) (λ u. logs _)

  accept_stored-Returns :
      (event : NormalizedWebhookEvent) (row : StoredWebhookEvent) (is_duplicate : Bool)
      → Returns (accept_stored add_milliseconds dependencies input event row is_duplicate)
  unfolding accept_stored
  accept_stored-Returns event row is_duplicate = Returns-bind _ _ (append_safely-Returns _ _) (λ u.
      Returns-bind _ _ (log_stored-Returns event row is_duplicate)
        (λ v. process_stored-Returns dependencies.retry event row is_duplicate))

  answer_conflict-Returns :
      (event : NormalizedWebhookEvent) (existing : StoredWebhookEvent)
      → Returns (answer_conflict add_milliseconds dependencies input event existing)
  unfolding answer_conflict
  answer_conflict-Returns event existing = Returns-bind _ _ (append_safely-Returns _ _) (λ u.
      Returns-bind _ _
        (ingest_exceptions-Returns (facts_from_store_outcome (some "CONFLICT")) (some event)
          (some existing.id))
        (λ v. Returns-bind _ _ (logs _) (λ w. Returns-pure _)))

  after_store-Returns :
      (event : NormalizedWebhookEvent) (r : Settled StoreWebhookEventResult)
      → Returns (after_store add_milliseconds dependencies input event r)
  unfolding after_store
  after_store-Returns event (threw error) = Returns-bind _ _ (logs _) (λ u. Returns-pure _)
  after_store-Returns event (returned (conflicting existing incoming)) =
      answer_conflict-Returns event existing
  after_store-Returns event (returned (stored row)) = accept_stored-Returns event row false
  after_store-Returns event (returned (duplicate row)) = accept_stored-Returns event row true

  refuse-Returns :
      (reason : String) (facts : List DetectionFact) (logged : LifecycleLogInput)
      (answer : ProcessIncomingWebhookResult)
      → Returns (refuse add_milliseconds dependencies input reason facts logged answer)
  unfolding refuse record_rejection
  refuse-Returns reason facts logged answer = Returns-bind _ _ (append_safely-Returns _ _) (λ u.
      Returns-bind _ _ (ingest_exceptions-Returns facts none none)
        (λ v. Returns-bind _ _ (logs logged) (λ w. Returns-pure answer)))

  fail_normalization-Returns : Returns (fail_normalization add_milliseconds dependencies input)
  unfolding fail_normalization
  fail_normalization-Returns = Returns-bind _ _ (logs _) (λ u. Returns-pure _)

  after_normalized-Returns :
      (event : NormalizedWebhookEvent) (r : Settled (Unit {0}))
      → Returns (after_normalized add_milliseconds dependencies input event r)
  unfolding after_normalized
  after_normalized-Returns event (threw error) = fail_normalization-Returns
  after_normalized-Returns event (returned u) =
      Returns-bind _ _ (Returns-settled _) (after_store-Returns event)

  refuse_with-Returns :
      (code : String) → Returns (refuse_with add_milliseconds dependencies input code)
  unfolding refuse_with
  refuse_with-Returns code = refuse-Returns code _ _ _

  by_normalization-Returns :
      (n : Normalization) → Returns (by_normalization add_milliseconds dependencies input n)
  unfolding by_normalization
  by_normalization-Returns (normalized event) =
      Returns-bind _ _ (Returns-settled _) (after_normalized-Returns event)
  by_normalization-Returns (webhook_error code) = refuse_with-Returns code
  by_normalization-Returns other_failure = fail_normalization-Returns

  by_payload-Returns :
      (payload : Option Payload) → Returns (by_payload add_milliseconds dependencies input payload)
  unfolding by_payload
  by_payload-Returns none = refuse_with-Returns _
  by_payload-Returns (some payload) = by_normalization-Returns _

  reject_signature-Returns :
      (status : VerificationStatus) (http_status : ℕ) (answer : String)
      → Returns (reject_signature add_milliseconds dependencies input status http_status answer)
  unfolding reject_signature
  reject_signature-Returns status http_status answer = refuse-Returns _ _ _ _

  by_verification-Returns :
      (status : VerificationStatus)
      → Returns (by_verification add_milliseconds dependencies input status)
  unfolding by_verification
  by_verification-Returns verified =
      Returns-bind _ _ (logs _) (λ u. by_payload-Returns (dependencies.parse input.raw_body))
  by_verification-Returns malformed_signature =
      reject_signature-Returns malformed_signature 400 "bad_request"
  by_verification-Returns invalid_signature =
      reject_signature-Returns invalid_signature 401 "unauthorized"
  by_verification-Returns missing_signature =
      reject_signature-Returns missing_signature 401 "unauthorized"
  by_verification-Returns expired_signature =
      reject_signature-Returns expired_signature 401 "unauthorized"

  by_verifier-Returns :
      (verifier : Option (Delivery Body Headers → VerificationStatus))
      → Returns (by_verifier add_milliseconds dependencies input verifier)
  unfolding by_verifier
  by_verifier-Returns none =
      refuse-Returns "UNSUPPORTED_PROVIDER" (facts_from_verification_status "UNSUPPORTED_PROVIDER")
        _ _
  by_verifier-Returns (some verify) = by_verification-Returns (verify input)

  -- Where logging does not throw, every delivery is answered: whatever the store, the audit, the
  -- exceptions, the replay and the retries throw, the handler returns.
  pub process_incoming_webhook-Returns :
      Returns (process_incoming_webhook add_milliseconds dependencies input)
  unfolding process_incoming_webhook
  process_incoming_webhook-Returns =
      Returns-bind _ _ (logs _) (λ u. by_verifier-Returns (dependencies.verifiers input.provider))
