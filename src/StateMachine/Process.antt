-- ===== src/StateMachine/Process.antt =====
-- packages/state-machine/src/process-event.ts and result.ts: one event against a payment.
pub mod Laws
use hookx.Prelude.{ℕ, Bool, true, false, not, Option, none, some, List, Ordering, if◌then◌else◌}
use hookx.Domain.{PaymentState, Instant, same}
use hookx.Webhook.{WebhookEventType, NormalizedWebhookEvent}
use hookx.Webhook.Identity.{event_identity_key}
use hookx.StateMachine.Table.{PaymentRecordState, lookup_transition}
use hookx.StateMachine.Instants.{compare_instant}
use hookx.StateMachine.History.{
  EventMaterial, ProcessedEventRecord, ProcessingHistory, event_material, find_processed_event,
  events_materially_equal, Payment, create_payment,
}

pub data RejectionReason : Type 0 where
  invalid_transition payment_id_mismatch : RejectionReason

-- `IGNORED_DUPLICATE` is `ignored_duplicate` and so on; the fields in the source's order.
pub data TransitionResult : Type 0 where
  accepted : PaymentRecordState → PaymentState → Payment → TransitionResult
  rejected :
      RejectionReason → PaymentRecordState → WebhookEventType → Option Payment → TransitionResult
  ignored_duplicate : List ℕ → Option Payment → TransitionResult
  delayed : Payment → Instant → Instant → TransitionResult
  conflict : List ℕ → EventMaterial → EventMaterial → Option Payment → TransitionResult

-- `payment === null ? null : payment.state`.
abbrev pub record_state : Option Payment → PaymentRecordState
record_state none = none
record_state (some p) = some p.state

-- An identity that was processed before.
known_event : ProcessedEventRecord → Option Payment → NormalizedWebhookEvent → TransitionResult
known_event existing current event =
    if events_materially_equal existing.material (event_material event)
    then ignored_duplicate (event_identity_key event) current
    else conflict (event_identity_key event) existing.material (event_material event) current

-- The transition that the table allows, for a payment that may have no record yet.
apply_transition : Option Payment → NormalizedWebhookEvent → Option PaymentState → TransitionResult
apply_transition current event none =
    rejected invalid_transition (record_state current) event.event_type current
apply_transition none event (some to) =
    accepted none to
      (create_payment event.payment_id to event.amount_minor event.currency event.occurred_at)
apply_transition (some p) event (some to) =
    accepted (some p.state) to
      (create_payment event.payment_id to p.amount_minor p.currency event.occurred_at)

abbrev is_before : Ordering → Bool
is_before Ordering.lt = true
is_before _ = false

new_event : Option Payment → NormalizedWebhookEvent → TransitionResult
unfolding apply_transition create_payment
new_event none event = apply_transition none event (lookup_transition none event.event_type)
new_event (some p) event =
    if not (same p.payment_id event.payment_id)
    then rejected payment_id_mismatch (some p.state) event.event_type (some p)
    else (if is_before (compare_instant event.occurred_at p.last_occurred_at)
        then delayed p event.occurred_at p.last_occurred_at
        else apply_transition (some p) event (lookup_transition (some p.state) event.event_type))

attempt : Option ProcessedEventRecord → Option Payment → NormalizedWebhookEvent → TransitionResult
unfolding known_event new_event
attempt (some existing) current event = known_event existing current event
attempt none current event = new_event current event

unfoldable pub process_event :
    Option Payment → NormalizedWebhookEvent → ProcessingHistory → TransitionResult
unfolding attempt
process_event current event history =
    attempt (find_processed_event history (event_identity_key event)) current event
