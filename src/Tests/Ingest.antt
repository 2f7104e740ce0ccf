-- ===== src/Tests/Ingest.antt =====
-- A delivery through the handler.
use hookx.Prelude.{sort, ◌≡◌, refl, ℕ, String, none, some, [], ◌∷◌}
use hookx.Domain.{Instant, same}
use hookx.StateMachine.Table.{lookup_transition}
use hookx.StateMachine.Order.{order_webhook_events}
use hookx.StateMachine.History.{find_processed_event}
use hookx.StateMachine.Process.{process_event}
use hookx.StateMachine.Replay.{pass, visit, classify_attempt}
use hookx.Storage.Action.{returned, ◌>>=◌, settled, try_catch, when}
use hookx.Storage.Action.Returns.{Returns}
use hookx.Storage.Events.{StoredWebhookEvent, EventLog, stored, process_payment_events}
use hookx.Storage.Status.{WebhookProcessingStatus}
use hookx.Storage.Retry.Policy.{default_retry_policy}
use hookx.Storage.Retry.Attempt.InMemory as InMemory
use hookx.Pipeline.{
  pipeline_http_body, verified, ProcessIncomingWebhookResult, normalized, Delivery,
  IngestDependencies,
}
use hookx.Pipeline.Handler.{process_incoming_webhook}
use hookx.Pipeline.Answers.{process_incoming_webhook-Returns}
use hookx.Pipeline.Verified.{IsAuthentic, process_incoming_webhook-IsAuthentic}
use hookx.Tests.Data.{later, creation}

abbrev half_minute : Instant → ℕ → Instant
half_minute at ms = later

abbrev delivery : Delivery String String
delivery = record {
  provider = "razorpay";
  raw_body = "{}";
  headers = "signed";
  request_id = "delivery-1";
  now = later;
}

abbrev received_row : StoredWebhookEvent
received_row = record {
  id = "w1";
  event = creation;
  processing_status = WebhookProcessingStatus.received;
  created_at = later;
}

-- A service without retries, audit and exceptions, whose store accepts every event.
abbrev service : IngestDependencies EventLog String String String
service = record {
  verifiers = λ provider. some (λ sent. verified);
  parse = λ body. some body;
  normalize = λ provider payload at headers. normalized creation;
  store = λ incoming log. (returned (stored received_row), received_row ∷ log);
  repository = InMemory.memory_events;
  retry = none;
  process_payment_events = InMemory.replay_stored;
  default_process = InMemory.replay_stored;
  retry_policy = default_retry_policy;
  lease_ms = 30000;
  lifecycle = none;
  audit = none;
  persist_outcome = none;
  exceptions = none;
  emit = λ logged log. (returned tt, log);
}

process_incoming_webhook-Returns_example :
    Returns (process_incoming_webhook half_minute service delivery)
process_incoming_webhook-Returns_example =
    process_incoming_webhook-Returns half_minute service delivery
      (λ logged. record { returns = λ log. (tt, refl) })

abbrev answer : ProcessIncomingWebhookResult
answer = record {
  http_status = 200;
  body = pipeline_http_body "accepted" "delivery-1" none;
  observation = record {
    request_id = "delivery-1";
    provider = "razorpay";
    verification = "VERIFIED";
    external_event_id = some "evt_1";
    payment_id = some "pay_1";
    store_outcome = some "STORED";
    retry_status = none;
    decision = some "ACCEPTED";
  };
}

delivery_accepted : (process_incoming_webhook half_minute service delivery []).0 ≡ returned answer
unfolding process_incoming_webhook ◌>>=◌ settled try_catch process_payment_events same pass
    order_webhook_events sort visit classify_attempt process_event find_processed_event
    lookup_transition when
delivery_accepted = refl

process_incoming_webhook-IsAuthentic_example : IsAuthentic half_minute service delivery
process_incoming_webhook-IsAuthentic_example =
    process_incoming_webhook-IsAuthentic half_minute service delivery [] answer delivery_accepted
      refl
