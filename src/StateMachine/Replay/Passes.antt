-- ===== src/StateMachine/Replay/Passes.antt =====
-- One pass of the replay loop: what it keeps, when it makes progress, and when it is stuck.
use hookx.Prelude.{
  zero, suc, ℕ, ◌≡◌, ◌≢◌, refl, ap, ◌∙◌, Option-cases, inl, inr, true, false, Option, some, List,
  [], ◌∷◌, Bool-cases, map, arith,
}
use hookx.Domain.{PaymentState}
use hookx.Webhook.{NormalizedWebhookEvent}
use hookx.StateMachine.Table.{PaymentRecordState}
use hookx.StateMachine.Reachability.{is_eventually_possible}
use hookx.StateMachine.History.{ProcessingHistory, with_processed_event, Payment}
use hookx.StateMachine.Decisions.{delayed, ReplayDecision, decision_record}
use hookx.StateMachine.Process.{TransitionResult, RejectionReason, record_state, process_event}
use hookx.StateMachine.Replay.{
  settled_record, Classified, classify_attempt, Slot, Run, settle_slot, visit_event, visit, fresh,
  pass, replay_loop, quiet,
}

-- The classification of an event against a payment and a history.
abbrev pub attempted : Option Payment → ProcessingHistory → NormalizedWebhookEvent → Classified
attempted payment history event =
    classify_attempt (process_event payment event history) event (record_state payment)

-- An accepted event is recorded and settled.
abbrev pub taken : Run → NormalizedWebhookEvent → Payment → Run
taken run event q = record {
  payment = some q;
  history = with_processed_event run.history event;
  progress = true;
}

-- What is recorded for an event that settles.
abbrev pub verdict : Run → NormalizedWebhookEvent → ReplayDecision
verdict run event = settled_record run event (attempted run.payment run.history event)

-- The three ways in which the body of the `for` loop can go.
pub data Visited (run : Run) (event : NormalizedWebhookEvent) (result : Run × Slot) : Type 0 where
  takes :
      (from : PaymentRecordState) (to : PaymentState) (q : Payment)
      → process_event run.payment event run.history ≡ TransitionResult.accepted from to q
      → (verdict run event).decision ≢ delayed
      → result ≡ (taken run event q, record { event = event; settled = some (verdict run event) })
      → Visited run event result
  settles :
      (verdict run event).decision ≢ delayed
      → result ≡ (run, record { event = event; settled = some (verdict run event) })
      → Visited run event result
  waits :
      (attempted run.payment run.history event).decision ≡ delayed
      → result ≡ (run, fresh event)
      → Visited run event result

module _ (run : Run) (event : NormalizedWebhookEvent) where
  visited :
      (r : TransitionResult)
      → process_event run.payment event run.history ≡ r
      → Visited run event
          (settle_slot run event (classify_attempt r event (record_state run.payment)))
  unfolding settle_slot classify_attempt decision_record
  visited (TransitionResult.accepted from to q) e = takes from to q e (rw e (λ x. cc)) (rw e refl)
  visited (TransitionResult.ignored_duplicate k p) e = settles (rw e (λ x. cc)) (rw e refl)
  visited (TransitionResult.conflict k m n p) e = settles (rw e (λ x. cc)) (rw e refl)
  visited (TransitionResult.delayed p a l) e = waits (rw e refl) refl
  visited (TransitionResult.rejected RejectionReason.payment_id_mismatch f t p) e =
      settles (rw e (λ x. cc)) (rw e refl)
  visited (TransitionResult.rejected RejectionReason.invalid_transition f t p) e =
      elim (Bool-cases (is_eventually_possible (record_state run.payment) event.event_type)) [
        | inl can ↦ waits (rw (e, can) refl) (rw can refl)
        | inr cannot ↦ settles (rw (e, cannot) (λ x. cc)) (rw (e, cannot) refl)
      ]

  pub visit_event-Visited : Visited run event (visit_event run event)
  unfolding visit_event
  visit_event-Visited = visited (process_event run.payment event run.history) refl

  pub visit_event-event : (visit_event run event).1.event ≡ event
  visit_event-event = elim visit_event-Visited [
    | takes from to q e _ r ↦ ap (λ (x : Run × Slot). x.1.event) r
    | settles _ r ↦ ap (λ (x : Run × Slot). x.1.event) r
    | waits _ r ↦ ap (λ (x : Run × Slot). x.1.event) r
  ]

pub visit-event : (run : Run) (slot : Slot) → (visit run slot).1.event ≡ slot.event
unfolding visit
visit-event run slot = elim (Option-cases slot.settled) [
  | inl e ↦ rw e (visit_event-event run slot.event)
  | inr (d, e) ↦ rw e refl
]

abbrev pub events_of : List Slot → List NormalizedWebhookEvent
events_of = map (λ (s : Slot). s.event)

-- A pass and the loop leave the events of the slots as they are.
pub pass-events : (run : Run) (slots : List Slot) → events_of (pass run slots).1 ≡ events_of slots
unfolding pass
pass-events run [] = refl
pass-events run (slot ∷ slots) = cc (visit-event run slot, pass-events (visit run slot).0 slots)

module _ (fuel : ℕ) (run : Run) (slots : List Slot) where
  pub replay_loop_more :
      (pass (quiet run) slots).0.progress ≡ true
      → replay_loop (suc fuel) run slots
        ≡ replay_loop fuel (pass (quiet run) slots).0 (pass (quiet run) slots).1
  unfolding replay_loop
  replay_loop_more e = rw (e, replay_loop) refl

  pub replay_loop_done :
      (pass (quiet run) slots).0.progress ≡ false
      → replay_loop (suc fuel) run slots ≡ pass (quiet run) slots
  unfolding replay_loop
  replay_loop_done e = ground arith

pub replay_loop-events :
    (fuel : ℕ) (run : Run) (slots : List Slot)
    → events_of (replay_loop fuel run slots).1 ≡ events_of slots
unfolding replay_loop
replay_loop-events zero run slots = refl
replay_loop-events (suc fuel) run slots = elim (Bool-cases (pass (quiet run) slots).0.progress) [
  | inl more ↦ rw (replay_loop_more fuel run slots more) (
      replay_loop-events fuel (pass (quiet run) slots).0 (pass (quiet run) slots).1
      ∙ pass-events (quiet run) slots)
  | inr done ↦ rw (replay_loop_done fuel run slots done) (pass-events (quiet run) slots)
]
