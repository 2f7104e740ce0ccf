-- ===== src/StateMachine/Replay.antt =====
-- packages/state-machine/src/replay.ts and replay-result.ts: all events of a payment, in order,
-- through `process_event` until nothing more is accepted.
pub mod Passes
pub mod Keeping
pub mod Progress
pub mod Outcome
pub mod Soundness
use hookx.Prelude.{
  ℕ, zero, suc, Bool, true, false, ◌&&◌, Option, none, some, List, [], ◌∷◌, ◌++◌, map, keep, any,
  length, if◌then◌else◌,
}
use hookx.Domain.{PaymentState, Identity, same}
use hookx.Webhook.{NormalizedWebhookEvent}
use hookx.StateMachine.Table.{PaymentRecordState}
use hookx.StateMachine.Reachability.{is_eventually_possible}
use hookx.StateMachine.Order.{order_webhook_events}
use hookx.StateMachine.History.{ProcessingHistory, with_processed_event, Payment}
use hookx.StateMachine.Decisions.{
  DecisionKind, accepted, duplicate, delayed, conflict, rejected, ReplayReason, transition,
  identical_delivery, awaiting_prerequisite, out_of_order, material_conflict,
  impossible_after_ordering, payment_id_mismatch, ReplayDecision, ReplayScope, ReplayResult,
  empty_replay_result, freeze_replay_result, decision_record,
}
use hookx.StateMachine.Process.{TransitionResult, RejectionReason, record_state, process_event}

pub record Classified : Type 0 where
  pub decision : DecisionKind
  pub reason : ReplayReason
  pub settle : Bool
  pub resulting_state : PaymentRecordState
  pub accepted_payment : Option Payment

unchanged : DecisionKind → ReplayReason → Bool → PaymentRecordState → Classified
unchanged decision reason settle previous_state = record {
  decision = decision;
  reason = reason;
  settle = settle;
  resulting_state = previous_state;
  accepted_payment = none;
}

unfoldable pub classify_attempt :
    TransitionResult → NormalizedWebhookEvent → PaymentRecordState → Classified
unfolding unchanged
classify_attempt (TransitionResult.accepted from to payment) event previous_state = record {
  decision = accepted;
  reason = transition;
  settle = true;
  resulting_state = some to;
  accepted_payment = some payment;
}
classify_attempt (TransitionResult.ignored_duplicate key payment) event previous_state =
    unchanged duplicate identical_delivery true previous_state
classify_attempt (TransitionResult.conflict key existing incoming payment) event previous_state =
    unchanged conflict material_conflict true previous_state
classify_attempt (TransitionResult.delayed payment at last) event previous_state =
    unchanged delayed out_of_order false previous_state
classify_attempt (TransitionResult.rejected RejectionReason.payment_id_mismatch from type payment)
      event previous_state =
    unchanged rejected payment_id_mismatch true previous_state
classify_attempt (TransitionResult.rejected RejectionReason.invalid_transition from type payment)
      event previous_state =
    if is_eventually_possible previous_state event.event_type
    then unchanged delayed awaiting_prerequisite false previous_state
    else unchanged conflict impossible_after_ordering true previous_state

-- An index of the ordered events, and what `settledDecisions` holds there.
pub record Slot : Type 0 where
  pub event : NormalizedWebhookEvent
  pub settled : Option ReplayDecision

-- The variables of the `while` loop, without the slots.
pub record Run : Type 0 where
  pub payment : Option Payment
  pub history : ProcessingHistory
  pub progress : Bool

-- `decisionRecord` of a classified attempt.
abbrev pub settled_record : Run → NormalizedWebhookEvent → Classified → ReplayDecision
settled_record run event c =
    decision_record event (record_state run.payment) c.resulting_state c.decision c.reason

-- The body of the `for` loop at an event that is not settled: the run and the slot after it.
settle_slot : Run → NormalizedWebhookEvent → Classified → Run × Slot
unfolding decision_record
settle_slot run event c = elim c.accepted_payment [
  | some p ↦ (
    record { payment = some p; history = with_processed_event run.history event; progress = true },
    record { event = event; settled = some (settled_record run event c) },
  )
  | none ↦ (
    run,
    record {
      event = event;
      settled = if c.settle then some (settled_record run event c) else none;
    },
  )
]

unfoldable pub visit_event : Run → NormalizedWebhookEvent → Run × Slot
unfolding settle_slot
visit_event run event = settle_slot run event (
    classify_attempt (process_event run.payment event run.history) event (record_state run.payment))

unfoldable pub visit : Run → Slot → Run × Slot
unfolding visit_event
visit run slot = elim slot.settled [ some d ↦ (run, slot) | none ↦ visit_event run slot.event ]

-- The `for` loop.
unfoldable pub pass : Run → List Slot → Run × List Slot
pass run [] = (run, [])
pass run (slot ∷ slots) =
    let (run', slot') = visit run slot in
    let (run'', slots') = pass run' slots in (run'', slot' ∷ slots')

abbrev pub quiet : Run → Run
quiet run = record run { progress = false }

-- The `while` loop, one pass to a unit of fuel: it ends when a pass makes no progress.
unfoldable pub replay_loop : ℕ → Run → List Slot → Run × List Slot
replay_loop zero run slots = (run, slots)
replay_loop (suc fuel) run slots =
    let (run', slots') = pass (quiet run) slots in
    elim run'.progress [ true ↦ replay_loop fuel run' slots' | false ↦ (run', slots') ]

final_decision : PaymentRecordState → Slot → ReplayDecision
unfolding decision_record
final_decision final_state slot = elim slot.settled [
  | some d ↦ d
  | none ↦ decision_record slot.event final_state final_state delayed awaiting_prerequisite
]

unsettled : Slot → Bool
unsettled slot = elim slot.settled [ some d ↦ false | none ↦ true ]

-- What follows the loop.
unfoldable pub conclude : Run × List Slot → ReplayResult
unfolding final_decision unsettled freeze_replay_result
conclude (run, slots) =
    freeze_replay_result run.payment (map (final_decision (record_state run.payment)) slots)
      (map (λ (s : Slot). s.event) (keep unsettled slots))

abbrev pub fresh : NormalizedWebhookEvent → Slot
fresh event = record { event = event; settled = none }

abbrev pub start : Run
start = record { payment = none; history = []; progress = true }

-- A pass that makes progress settles an event, so one pass more than there are events is enough.
unfoldable pub replay_ordered : List NormalizedWebhookEvent → ReplayResult
unfolding conclude replay_loop
replay_ordered ordered = conclude (replay_loop (suc (length ordered)) start (map fresh ordered))

abbrev pub in_scope : ReplayScope → NormalizedWebhookEvent → Bool
in_scope scope event = same event.provider scope.provider && same event.payment_id scope.payment_id

-- `scope?.provider ?? events[0].provider`, and so for the payment.
abbrev pub scope_or_first : Option ReplayScope → NormalizedWebhookEvent → ReplayScope
scope_or_first none first = record { provider = first.provider; payment_id = first.payment_id }
scope_or_first (some scope) first = scope

-- The scoped events; none of them is an early return.
unfoldable pub replay_scoped : List NormalizedWebhookEvent → ReplayResult
unfolding empty_replay_result replay_ordered
replay_scoped [] = empty_replay_result
replay_scoped (e ∷ es) = replay_ordered (order_webhook_events (e ∷ es))

unfoldable pub replay_events : List NormalizedWebhookEvent → Option ReplayScope → ReplayResult
unfolding replay_scoped
replay_events [] scope = empty_replay_result
replay_events (e ∷ es) scope = replay_scoped (keep (in_scope (scope_or_first scope e)) (e ∷ es))
