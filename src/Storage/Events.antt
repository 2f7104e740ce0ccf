-- ===== src/Storage/Events.antt =====
-- apps/api/src/test-support/memory-webhook-repository.ts, packages/storage/src/types.ts and
-- process-payment-events.ts: the log of events, and the replay of a payment's part of it.
pub mod Log
pub mod Marks
pub mod Puts
pub mod Listing
use text.Mathlib.Text.{◌==◌ as str_eq}
use hookx.Prelude.{
  String, Bool, true, false, not, ◌&&◌, Option, none, some, List, [], ◌∷◌, ◌++◌, map, find, keep,
  if◌then◌else◌,
}
use hookx.Domain.{Identity, Instant, Result, ok, err, same}
use hookx.Webhook.{NormalizedWebhookEvent}
use hookx.Webhook.Identity.{WebhookIdentity}
use hookx.StateMachine.Decisions.{ReplayResult}
use hookx.StateMachine.Replay.{replay_events}
use hookx.Storage.Status.{
  WebhookProcessingStatus, received, processing, processed, rejected, conflict, status_label, among,
}

pub record StoredWebhookEvent : Type 0 where
  pub id : String
  pub event : NormalizedWebhookEvent
  pub processing_status : WebhookProcessingStatus
  pub created_at : Instant

pub data StoreWebhookEventResult : Type 0 where
  stored duplicate : StoredWebhookEvent → StoreWebhookEventResult
  conflicting : StoredWebhookEvent → NormalizedWebhookEvent → StoreWebhookEventResult

-- The field `records`; the count of calls is left out.
abbrev pub EventLog : Type 0
EventLog = List StoredWebhookEvent

abbrev pub of_identity : Identity → Identity → StoredWebhookEvent → Bool
of_identity provider external_event_id row =
    same row.event.provider provider && same row.event.external_event_id external_event_id

unfoldable pub find_by_identity : EventLog → WebhookIdentity → Option StoredWebhookEvent
find_by_identity records identity =
    find (of_identity identity.provider identity.external_event_id) records

unfoldable pub find_by_id : EventLog → String → Option StoredWebhookEvent
find_by_id records id = find (λ (row : StoredWebhookEvent). str_eq row.id id) records

-- `randomUUID()` is the argument `fresh_id`.
unfoldable pub store :
    String → EventLog → NormalizedWebhookEvent → EventLog × StoreWebhookEventResult
store fresh_id records event =
    elim (find (of_identity event.provider event.external_event_id) records) [
      | some existing ↦
          if same existing.event.payload_hash event.payload_hash
          then (records, duplicate existing)
          else (records, conflicting existing event)
      | none ↦
          let row : StoredWebhookEvent = record {
            id = fresh_id;
            event = event;
            processing_status = received;
            created_at = event.received_at;
          } in
          (records ++ row ∷ [], stored row)
    ]

-- `records[index] = next` at the first record with the id.
unfoldable pub put : String → StoredWebhookEvent → EventLog → EventLog
put id next [] = []
put id next (row ∷ rows) = if str_eq row.id id then next ∷ rows else row ∷ put id next rows

abbrev pub with_status : WebhookProcessingStatus → StoredWebhookEvent → StoredWebhookEvent
with_status to row = record row { processing_status = to }

-- The part of `transition` that follows the search.
unfoldable pub change :
    EventLog
    → String
    → List WebhookProcessingStatus
    → WebhookProcessingStatus
    → StoredWebhookEvent
    → Result (EventLog × StoredWebhookEvent)
unfolding put among
change records id from to current =
    if str_eq (status_label current.processing_status) (status_label to)
      && among from current.processing_status
    then ok (records, current)
    else (if not (among from current.processing_status)
        then err "INVALID_STATUS_TRANSITION"
        else ok (put id (with_status to current) records, with_status to current))

unfoldable pub transition :
    EventLog
    → String
    → List WebhookProcessingStatus
    → WebhookProcessingStatus
    → Result (EventLog × StoredWebhookEvent)
unfolding find_by_id change
transition records id from to = elim (find_by_id records id) [
  | none ↦ err "EVENT_NOT_FOUND"
  | some current ↦ change records id from to current
]

unfoldable pub mark_processing : EventLog → String → Result (EventLog × StoredWebhookEvent)
unfolding transition
mark_processing records id = transition records id (received ∷ []) processing

unfoldable pub mark_processed : EventLog → String → Result (EventLog × StoredWebhookEvent)
unfolding transition
mark_processed records id = transition records id (processing ∷ []) processed

unfoldable pub mark_rejected : EventLog → String → Result (EventLog × StoredWebhookEvent)
unfolding transition
mark_rejected records id = transition records id (processing ∷ []) rejected

unfoldable pub mark_conflict : EventLog → String → Result (EventLog × StoredWebhookEvent)
unfolding transition
mark_conflict records id =
    transition records id (received ∷ processing ∷ rejected ∷ conflict ∷ []) conflict

abbrev pub events_of : EventLog → List NormalizedWebhookEvent
events_of = map (λ (row : StoredWebhookEvent). row.event)

unfoldable pub list_by_payment : EventLog → Identity → Identity → EventLog
list_by_payment records provider payment_id =
    keep
      (λ (row : StoredWebhookEvent).
        same row.event.provider provider && same row.event.payment_id payment_id)
      records

unfoldable pub process_payment_events : EventLog → Identity → Identity → ReplayResult
unfolding list_by_payment replay_events
process_payment_events records provider payment_id =
    replay_events (events_of (list_by_payment records provider payment_id))
      (some (record { provider = provider; payment_id = payment_id }))
