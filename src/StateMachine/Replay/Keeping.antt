-- ===== src/StateMachine/Replay/Keeping.antt =====
-- A rule for the replay loop: what every accepted event keeps holds when the loop ends.
use hookx.Prelude.{
  zero, suc, ℕ, ◌≡◌, sym, subst, Option-cases, none, inl, inr, Option, some, List, [], ◌∷◌,
  Bool-cases, All, ◌≢◌,
}
use hookx.Domain.{PaymentState}
use hookx.Webhook.{NormalizedWebhookEvent}
use hookx.StateMachine.Table.{PaymentRecordState}
use hookx.StateMachine.History.{ProcessingHistory, with_processed_event, Payment}
use hookx.StateMachine.Process.{TransitionResult, process_event}
use hookx.StateMachine.Replay.{
  Slot, Run, visit_event, visit, pass, replay_loop, quiet, ReplayDecision, DecisionKind,
}
use hookx.StateMachine.Replay.Passes.{
  replay_loop_more, replay_loop_done, takes, settles, waits, visit_event-Visited, pass-events,
  events_of, verdict,
}

-- A property of payment and history that every accepted event of a class keeps.
module _ {ℓ κ} (E : NormalizedWebhookEvent → Type ℓ)
    (P : Option Payment → ProcessingHistory → Type κ)
    (keeps : (payment : Option Payment) (history : ProcessingHistory)
        (event : NormalizedWebhookEvent) (from : PaymentRecordState) (to : PaymentState)
        (q : Payment)
      → E event
      → P payment history
      → process_event payment event history ≡ TransitionResult.accepted from to q
      → P (some q) (with_processed_event history event)) where
  abbrev pub Holds : Run → Type κ
  Holds run = P run.payment run.history

  visit_event-Holds :
      (run : Run) (event : NormalizedWebhookEvent)
      → E event
      → Holds run
      → Holds (visit_event run event).0
  visit_event-Holds run event i h = elim (visit_event-Visited run event) [
    | takes from to q e _ r ↦
        subst (λ x. Holds x.0) (sym r) (keeps run.payment run.history event from to q i h e)
    | settles _ r ↦ subst (λ x. Holds x.0) (sym r) h
    | waits _ r ↦ subst (λ x. Holds x.0) (sym r) h
  ]

  visit-Holds : (run : Run) (slot : Slot) → E slot.event → Holds run → Holds (visit run slot).0
  unfolding visit
  visit-Holds run slot i h = elim (Option-cases slot.settled) [
    | inl e ↦ rw e (visit_event-Holds run slot.event i h)
    | inr (d, e) ↦ rw e h
  ]

  pass-Holds :
      (run : Run) (slots : List Slot)
      → All E (events_of slots)
      → Holds run
      → Holds (pass run slots).0
  unfolding pass
  pass-Holds run [] i h = h
  pass-Holds run (slot ∷ slots) (j, i) h =
      pass-Holds (visit run slot).0 slots i (visit-Holds run slot j h)

  -- The loop keeps it too.
  pub replay_loop-Holds :
      (fuel : ℕ) (run : Run) (slots : List Slot)
      → All E (events_of slots)
      → Holds run
      → Holds (replay_loop fuel run slots).0
  unfolding replay_loop
  replay_loop-Holds zero run slots i h = h
  replay_loop-Holds (suc fuel) run slots i h =
      let h' : Holds (pass (quiet run) slots).0 = pass-Holds (quiet run) slots i h in
      let i' : All E (events_of (pass (quiet run) slots).1) =
        rw (pass-events (quiet run) slots) i in
      elim (Bool-cases (pass (quiet run) slots).0.progress) [
        | inl more ↦
            rw (replay_loop_more fuel run slots more)
              (replay_loop-Holds fuel (pass (quiet run) slots).0 (pass (quiet run) slots).1 i' h')
        | inr done ↦ rw (replay_loop_done fuel run slots done) h'
      ]

  -- What is recorded for an event that settles, where the property holds.
  module _ {μ} (Q : ReplayDecision → Type μ)
      (records : (run : Run) (event : NormalizedWebhookEvent)
        → E event
        → Holds run
        → (verdict run event).decision ≢ DecisionKind.delayed
        → Q (verdict run event)) where
    abbrev pub Recorded : Slot → Type μ
    Recorded slot = (d : ReplayDecision) → slot.settled ≡ some d → Q d

    visit_event-Recorded :
        (run : Run) (event : NormalizedWebhookEvent)
        → E event
        → Holds run
        → Recorded (visit_event run event).1
    visit_event-Recorded run event i h = elim (visit_event-Visited run event) [
      | takes from to q e n r ↦
          subst (λ x. Recorded x.1) (sym r) (λ d x. subst Q (cc) (records run event i h n))
      | settles n r ↦
          subst (λ x. Recorded x.1) (sym r) (λ d x. subst Q (cc) (records run event i h n))
      | waits _ r ↦ subst (λ x. Recorded x.1) (sym r) (λ d x. cc)
    ]

    visit-Recorded :
        (run : Run) (slot : Slot)
        → E slot.event
        → Holds run
        → Recorded slot
        → Recorded (visit run slot).1
    unfolding visit
    visit-Recorded run slot i h r = elim (Option-cases slot.settled) [
      | inl e ↦ rw e (visit_event-Recorded run slot.event i h)
      | inr (d, e) ↦
          subst
            (λ x.
              Recorded
                (elim x as (λ _. Run × Slot) [
                  | some d ↦ (run, slot)
                  | none ↦ visit_event run slot.event
                ]).1)
            (sym e) r
    ]

    pass-Recorded :
        (run : Run) (slots : List Slot)
        → All E (events_of slots)
        → Holds run
        → All Recorded slots
        → All Recorded (pass run slots).1
    unfolding pass
    pass-Recorded run [] i h r = tt
    pass-Recorded run (slot ∷ slots) (j, i) h (q, r) = (
      visit-Recorded run slot j h q,
      pass-Recorded (visit run slot).0 slots i (visit-Holds run slot j h) r,
    )

    pub replay_loop-Recorded :
        (fuel : ℕ) (run : Run) (slots : List Slot)
        → All E (events_of slots)
        → Holds run
        → All Recorded slots
        → All Recorded (replay_loop fuel run slots).1
    unfolding replay_loop
    replay_loop-Recorded zero run slots i h r = r
    replay_loop-Recorded (suc fuel) run slots i h r =
        let h' : Holds (pass (quiet run) slots).0 = pass-Holds (quiet run) slots i h in
        let i' : All E (events_of (pass (quiet run) slots).1) =
          rw (pass-events (quiet run) slots) i in
        let r' : All Recorded (pass (quiet run) slots).1 = pass-Recorded (quiet run) slots i h r in
        elim (Bool-cases (pass (quiet run) slots).0.progress) [
          | inl more ↦ rw (replay_loop_more fuel run slots more) (
              replay_loop-Recorded fuel (pass (quiet run) slots).0 (pass (quiet run) slots).1 i' h'
                r')
          | inr done ↦ rw (replay_loop_done fuel run slots done) r'
        ]
