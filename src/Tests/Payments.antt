-- ===== src/Tests/Payments.antt =====
-- Replays of a payment, from deliveries out of order.
use mathlib.Core.List.{Permᴰ}
use hookx.StateMachine.Table.Allowed.{Allowed, lookup_transition_iff}
use hookx.StateMachine.Decisions.{ReplayDecision}
use hookx.StateMachine.Replay.Soundness.{
  Grounded, Judged, replay_events-Grounded, replay_events-Judged,
}
use hookx.StateMachine.Replay.Outcome.{
  HasDistinctKeys, replay_events_of_perm, scoped_order, replay_events-decisions,
}
use hookx.Prelude.{
  String, ◌≢◌, true, false, if◌then◌else◌, arith, ◌≡◌, refl, some, List, [], ◌∷◌, sort, lex, none,
  All, map, ◌↔◌,
}
use hookx.Domain.{
  err, same_iff, refunded, PaymentState, authorized, same, text_eq, match_instant, created,
  captured,
}
use hookx.Webhook.{NormalizedWebhookEvent, payment_captured}
use hookx.Webhook.Json.{json_string}
use hookx.Webhook.Identity.{webhook_identity_key-inj, event_identity_key, webhook_identity_key}
use hookx.StateMachine.Table.{PaymentRecordState, lookup_transition}
use hookx.StateMachine.Instants.{instant_sort_key, compare_instant}
use hookx.StateMachine.Order.{compare_webhook_events, order_webhook_events}
use hookx.StateMachine.History.{
  events_materially_equal, event_material, Payment, find_processed_event, with_processed_event,
  create_payment,
}
use hookx.StateMachine.Process.{TransitionResult, process_event}
use hookx.StateMachine.Process.Laws.{Accepts, process_event_accepted_iff, redelivery}
use hookx.StateMachine.Reachability.{has, reachable_states, is_eventually_possible}
use hookx.StateMachine.Reachability.Reach.{Reach, reachable_states_iff, is_eventually_possible_iff}
use hookx.StateMachine.Replay.Progress.{Stuck, replay_loop_ends, replay_loop-Stuck}
use hookx.StateMachine.Replay.{
  replay_events, replay_scoped, replay_loop, pass, visit, classify_attempt, start, fresh,
}
use hookx.Storage.Events.Marks.{marks_guarded}
use hookx.Storage.Status.{
  can_mark_processing, can_mark_processed, can_mark_rejected, can_mark_conflict, received,
}
use hookx.Storage.Events.{
  mark_processing, mark_processed, mark_rejected, mark_conflict, find_by_id, StoredWebhookEvent,
  EventLog, store, events_of, list_by_payment, process_payment_events,
}
use hookx.Storage.Events.Log.{
  IsMade, nothing, called, stores, IsMade-HasDistinctKeys, process_payment_events_of_perm,
}
use hookx.Tests.Data.{
  evt_1, evt_2, razorpay, creation, authorization, scope, pay_1, inr_code, later, noon,
}

replaying : Unit {0}
unfolding replay_events replay_scoped replay_loop pass visit classify_attempt process_event
    find_processed_event with_processed_event create_payment compare_webhook_events
    order_webhook_events compare_instant instant_sort_key lookup_transition same event_identity_key
    webhook_identity_key json_string sort lex text_eq match_instant
replaying = tt

abbrev in_order : List NormalizedWebhookEvent
in_order = creation ∷ authorization ∷ []

abbrev late_creation : List NormalizedWebhookEvent
late_creation = authorization ∷ creation ∷ []

abbrev authorized_payment : Payment
authorized_payment = record {
  payment_id = pay_1;
  state = authorized;
  amount_minor = 4200;
  currency = inr_code;
  last_occurred_at = later;
}

abbrev created_payment : Payment
created_payment = record {
  payment_id = pay_1;
  state = created;
  amount_minor = 4200;
  currency = inr_code;
  last_occurred_at = noon;
}

nothing_found : find_processed_event [] (event_identity_key creation) ≡ none
unfolding find_processed_event
nothing_found = refl

late_creation-authorized :
    (replay_events late_creation (some scope)).payment ≡ some authorized_payment
unfolding replaying
late_creation-authorized = refl

different_ids : evt_2 ≢ evt_1
unfolding same
different_ids e = let b : false ≡ true = (same_iff evt_2 evt_1).1 e in cc

distinct_keys : HasDistinctKeys late_creation
unfolding event_identity_key
distinct_keys = (
  (λ e. different_ids (webhook_identity_key-inj razorpay razorpay evt_2 evt_1 e).1, tt),
  (tt, tt),
)

replay_events_of_perm_example :
    replay_events late_creation (some scope) ≡ replay_events in_order (some scope)
replay_events_of_perm_example =
    replay_events_of_perm late_creation in_order scope (Permᴰ.swap refl refl) distinct_keys

replay_events-Grounded_example : Grounded scope late_creation authorized_payment
replay_events-Grounded_example =
    replay_events-Grounded late_creation scope authorized_payment late_creation-authorized

replay_events-Judged_example : All Judged (replay_events late_creation (some scope)).decisions
replay_events-Judged_example = replay_events-Judged late_creation scope

replay_events-decisions_example :
    map (λ (d : ReplayDecision). d.event_id) (replay_events late_creation (some scope)).decisions
    ≡ map (λ (e : NormalizedWebhookEvent). e.external_event_id) (scoped_order scope late_creation)
replay_events-decisions_example = replay_events-decisions late_creation scope

replay_loop_ends_example : (replay_loop 3 start (map fresh late_creation)).0.progress ≡ false
replay_loop_ends_example = replay_loop_ends start late_creation

replay_loop-Stuck_example :
    All
      (Stuck (replay_loop 3 start (map fresh late_creation)).0)
      (replay_loop 3 start (map fresh late_creation)).1
replay_loop-Stuck_example = replay_loop-Stuck 3 start (map fresh late_creation) (omega arith)

process_event_accepted_iff_example :
    (process_event none creation [] ≡ TransitionResult.accepted none created created_payment)
    ↔ Accepts none creation [] none created created_payment
process_event_accepted_iff_example =
    process_event_accepted_iff none creation [] none created created_payment

redelivery_example :
    process_event (some created_payment) creation (with_processed_event [] creation) ≡ (
      if events_materially_equal (event_material creation) (event_material creation)
      then TransitionResult.ignored_duplicate (event_identity_key creation) (some created_payment)
      else TransitionResult.conflict
          (event_identity_key creation)
          (event_material creation)
          (event_material creation)
          (some created_payment))
redelivery_example = redelivery (some created_payment) creation creation [] nothing_found refl

lookup_transition_iff_example :
    (lookup_transition (some authorized) payment_captured ≡ some captured)
    ↔ Allowed (some authorized) payment_captured captured
lookup_transition_iff_example = lookup_transition_iff (some authorized) payment_captured captured

reachable_states_iff_example :
    (has (reachable_states (some created)) (some refunded) ≡ true)
    ↔ Reach (some created) (some refunded)
reachable_states_iff_example = reachable_states_iff (some created) (some refunded)

is_eventually_possible_iff_example :
    (is_eventually_possible (some created) payment_captured ≡ true) ↔ (
      (u : PaymentRecordState) × (to : PaymentState) × Reach (some created) u
      × Allowed u payment_captured to)
is_eventually_possible_iff_example = is_eventually_possible_iff (some created) payment_captured

abbrev stored_twice : EventLog
stored_twice = (store "w2" (store "w1" [] creation).0 authorization).0

stored_twice-IsMade : IsMade stored_twice
stored_twice-IsMade = called (called nothing (stores "w1" creation)) (stores "w2" authorization)

IsMade-HasDistinctKeys_example : HasDistinctKeys (events_of stored_twice)
IsMade-HasDistinctKeys_example = IsMade-HasDistinctKeys stored_twice-IsMade

abbrev row : String → NormalizedWebhookEvent → StoredWebhookEvent
row id event = record {
  id = id;
  event = event;
  processing_status = received;
  created_at = event.received_at;
}

abbrev stored_late : EventLog
stored_late = row "w2" authorization ∷ row "w1" creation ∷ []

same_events :
    Permᴰ
      (events_of (list_by_payment stored_twice razorpay pay_1))
      (events_of (list_by_payment stored_late razorpay pay_1))
unfolding store list_by_payment same
same_events = Permᴰ.swap refl refl

process_payment_events_of_perm_example :
    process_payment_events stored_twice razorpay pay_1
    ≡ process_payment_events stored_late razorpay pay_1
process_payment_events_of_perm_example =
    process_payment_events_of_perm stored_twice stored_late razorpay pay_1 stored_twice-IsMade
      same_events

late_found : find_by_id stored_late "w1" ≡ some (row "w1" creation)
unfolding find_by_id
late_found = refl

marks_guarded_example :
    ((mark_processing stored_late "w1" ≡ err "INVALID_STATUS_TRANSITION")
      ↔ (can_mark_processing received ≡ false))
    × ((mark_processed stored_late "w1" ≡ err "INVALID_STATUS_TRANSITION")
        ↔ (can_mark_processed received ≡ false))
    × ((mark_rejected stored_late "w1" ≡ err "INVALID_STATUS_TRANSITION")
        ↔ (can_mark_rejected received ≡ false))
    × ((mark_conflict stored_late "w1" ≡ err "INVALID_STATUS_TRANSITION")
        ↔ (can_mark_conflict received ≡ false))
marks_guarded_example = marks_guarded stored_late "w1" (row "w1" creation) late_found
