-- ===== src/Pipeline/Handler.antt =====
-- apps/api/src/pipeline/process-incoming-webhook.ts: the handler of a delivery.
use hookx.Prelude.{ℕ, String, true, false, Option, none, some, List}
use hookx.Domain.{Instant}
use hookx.Webhook.{NormalizedWebhookEvent}
use hookx.Exceptions.Facts.{
  DetectionFact, facts_from_verification_status, facts_from_webhook_error_code,
}
use hookx.Storage.Action.{Settled, returned, threw, Action, pure, ◌>>=◌, ◌>>◌, settled}
use hookx.Storage.Events.{StoreWebhookEventResult, stored, duplicate, conflicting}
use hookx.Pipeline.{
  VerificationStatus, verified, invalid_signature, missing_signature, malformed_signature,
  expired_signature, verification_label, pipeline_http_body, ProcessIncomingWebhookResult, LogLevel,
  LifecycleEvent, LifecycleLogInput, Normalization, normalized, webhook_error, other_failure,
  Delivery, IngestDependencies,
}
use hookx.Pipeline.Ingest.{log, observed, respond, internal_error, record_rejection}
use hookx.Pipeline.Storing.{
  event_entry, failed_entry, ingest_exceptions, answer_conflict, accept_stored,
}

module _ {S Body Headers Payload : Type 0} (add_milliseconds : Instant → ℕ → Instant)
    (dependencies : IngestDependencies S Body Headers Payload) (input : Delivery Body Headers) where
  abbrev Answer : Type 0
  Answer = Action S ProcessIncomingWebhookResult

  unfoldable pub after_store : NormalizedWebhookEvent → Settled StoreWebhookEventResult → Answer
  unfolding failed_entry internal_error answer_conflict accept_stored
  after_store event (threw error) =
      dependencies.emit (failed_entry add_milliseconds dependencies input event none)
      >> pure (internal_error add_milliseconds dependencies input "VERIFIED")
  after_store event (returned (conflicting existing incoming)) =
      answer_conflict add_milliseconds dependencies input event existing
  after_store event (returned (stored row)) =
      accept_stored add_milliseconds dependencies input event row false
  after_store event (returned (duplicate row)) =
      accept_stored add_milliseconds dependencies input event row true

  -- Where a check fails: the audit, the exceptions, the log and the answer.
  unfoldable pub refuse :
      String → List DetectionFact → LifecycleLogInput → ProcessIncomingWebhookResult → Answer
  unfolding record_rejection ingest_exceptions
  refuse reason facts logged answer = do
    record_rejection add_milliseconds dependencies input reason
    ingest_exceptions add_milliseconds dependencies input facts none none
    dependencies.emit logged
    pure answer

  unfoldable pub failure_entry : String → Option String → LifecycleLogInput
  unfolding log
  failure_entry decision verification =
      record (log add_milliseconds dependencies input LogLevel.warn
        LifecycleEvent.processing_failed) {
          processing_decision = some decision;
          verification = verification;
        }

  -- `catch (error)` of the adapter, for an error that is not a `WebhookError`.
  unfoldable pub fail_normalization : Answer
  unfolding failure_entry internal_error
  fail_normalization =
      dependencies.emit
        (record (failure_entry "TEMPORARY_PROCESSING_FAILURE" none) { level = LogLevel.error })
      >> pure (internal_error add_milliseconds dependencies input "VERIFIED")

  unfoldable pub after_normalized : NormalizedWebhookEvent → Settled (Unit {0}) → Answer
  unfolding fail_normalization after_store
  after_normalized event (threw error) = fail_normalization
  after_normalized event (returned u) = settled (dependencies.store event) >>= after_store event

  unfoldable pub refuse_with : String → Answer
  unfolding refuse failure_entry respond observed facts_from_webhook_error_code
  refuse_with code =
      refuse code (facts_from_webhook_error_code code) (failure_entry code (some "VERIFIED")) (
        respond add_milliseconds dependencies input 400
          (pipeline_http_body "bad_request" input.request_id (some code))
          (observed add_milliseconds dependencies input "VERIFIED"))

  -- The entry that is logged in the `try` block of the adapter; the event's id is its external one.
  unfoldable pub by_normalization : Normalization → Answer
  unfolding after_normalized refuse_with fail_normalization event_entry
  by_normalization (normalized event) =
      settled (
        dependencies.emit (
          event_entry add_milliseconds dependencies input LogLevel.debug
            LifecycleEvent.webhook_normalized event (some event.external_event_id.text)))
      >>= after_normalized event
  by_normalization (webhook_error code) = refuse_with code
  by_normalization other_failure = fail_normalization

  unfoldable pub by_payload : Option Payload → Answer
  unfolding by_normalization refuse_with
  by_payload none = refuse_with "INVALID_PAYLOAD"
  by_payload (some payload) =
      by_normalization (dependencies.normalize input.provider payload input.now input.headers)

  -- A delivery that is not verified.
  unfoldable pub reject_signature : VerificationStatus → ℕ → String → Answer
  unfolding refuse log respond observed facts_from_verification_status
  reject_signature status http_status answer =
      refuse (verification_label status)
        (facts_from_verification_status (verification_label status))
        (record (log add_milliseconds dependencies input LogLevel.warn
          LifecycleEvent.signature_rejected) {
            processing_decision = some (verification_label status);
            verification = some (verification_label status);
          })
        (respond add_milliseconds dependencies input http_status
          (pipeline_http_body answer input.request_id (some (verification_label status)))
          (observed add_milliseconds dependencies input (verification_label status)))

  unfoldable pub by_verification : VerificationStatus → Answer
  unfolding by_payload reject_signature log
  by_verification verified =
      dependencies.emit
        (record (log add_milliseconds dependencies input LogLevel.info
          LifecycleEvent.signature_verified) { verification = some "VERIFIED" })
      >> by_payload (dependencies.parse input.raw_body)
  by_verification malformed_signature = reject_signature malformed_signature 400 "bad_request"
  by_verification invalid_signature = reject_signature invalid_signature 401 "unauthorized"
  by_verification missing_signature = reject_signature missing_signature 401 "unauthorized"
  by_verification expired_signature = reject_signature expired_signature 401 "unauthorized"

  unfoldable pub by_verifier : Option (Delivery Body Headers → VerificationStatus) → Answer
  unfolding by_verification refuse failure_entry respond observed facts_from_verification_status
  by_verifier none =
      refuse "UNSUPPORTED_PROVIDER" (facts_from_verification_status "UNSUPPORTED_PROVIDER")
        (failure_entry "UNSUPPORTED_PROVIDER" (some "UNSUPPORTED_PROVIDER"))
        (respond add_milliseconds dependencies input 404
          (pipeline_http_body "not_found" input.request_id (some "UNSUPPORTED_PROVIDER"))
          (observed add_milliseconds dependencies input "UNSUPPORTED_PROVIDER"))
  by_verifier (some verify) = by_verification (verify input)

  unfoldable pub process_incoming_webhook : Answer
  unfolding log by_verifier
  process_incoming_webhook =
      dependencies.emit
        (log add_milliseconds dependencies input LogLevel.info LifecycleEvent.webhook_received)
      >> by_verifier (dependencies.verifiers input.provider)
