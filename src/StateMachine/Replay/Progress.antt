-- ===== src/StateMachine/Replay/Progress.antt =====
-- The replay loop ends by its own test, and then no event that is left can be accepted.
use hookx.Prelude.{
  zero, suc, ℕ, ◌≡◌, refl, ap, ◌∙◌, sym, subst, Option-cases, inl, inr, Bool, true, false, none,
  some, List, [], ◌∷◌, Bool-cases, ◌+◌, map, arith, ◌≤◌, length, ◌<◌, All,
}
use hookx.Webhook.{NormalizedWebhookEvent}
use hookx.StateMachine.Decisions.{delayed}
use hookx.StateMachine.Replay.{Slot, Run, visit_event, visit, fresh, pass, replay_loop, quiet}
use hookx.StateMachine.Replay.Passes.{
  replay_loop_more, replay_loop_done, takes, settles, waits, visit_event-Visited, attempted,
}

abbrev flag : Bool → ℕ
flag true = 1
flag false = 0

abbrev pub open_slots : List Slot → ℕ
open_slots [] = 0
open_slots (s ∷ slots) = elim s.settled [
  | some d ↦ open_slots slots
  | none ↦ suc (open_slots slots)
]

abbrev open_slot : Slot → ℕ
open_slot s = elim s.settled [ some d ↦ 0 | none ↦ 1 ]

open_slots-cons :
    (s : Slot) (slots : List Slot) → open_slots (s ∷ slots) ≡ open_slot s + open_slots slots
open_slots-cons s slots = ground arith

-- Progress costs an open slot.
visit_cost :
    (run : Run) (slot : Slot)
    → open_slot (visit run slot).1 + flag (visit run slot).0.progress
      ≤ open_slot slot + flag run.progress
unfolding visit
visit_cost run slot = elim (Option-cases slot.settled) [
  | inl e ↦ rw e (elim (visit_event-Visited run slot.event) [
    | takes from to q _ _ r ↦ rw r (ground arith)
    | settles _ r ↦ rw r (ground arith)
    | waits _ r ↦ rw r (ground arith)
  ])
  | inr (d, e) ↦ rw e (omega arith)
]

pass_cost :
    (run : Run) (slots : List Slot)
    → open_slots (pass run slots).1 + flag (pass run slots).0.progress
      ≤ open_slots slots + flag run.progress
unfolding pass
pass_cost run [] = omega arith
pass_cost run (slot ∷ slots) = omega (
  arith,
  visit_cost run slot,
  pass_cost (visit run slot).0 slots,
  open_slots-cons slot slots,
  open_slots-cons (visit run slot).1 (pass (visit run slot).0 slots).1,
)

open_slots-fresh :
    (events : List NormalizedWebhookEvent) → open_slots (map fresh events) ≡ length events
open_slots-fresh [] = refl
open_slots-fresh (e ∷ events) = ap suc (open_slots-fresh events)

replay_loop_quiet :
    (fuel : ℕ) (run : Run) (slots : List Slot)
    → open_slots slots < fuel
    → (replay_loop fuel run slots).0.progress ≡ false
unfolding replay_loop
replay_loop_quiet zero run slots h = elim h [ ]
replay_loop_quiet (suc fuel) run slots h = elim (Bool-cases (pass (quiet run) slots).0.progress) [
  | inl more ↦ rw (replay_loop_more fuel run slots more) (
      replay_loop_quiet fuel (pass (quiet run) slots).0 (pass (quiet run) slots).1
        (omega (arith, pass_cost (quiet run) slots, ap flag more)))
  | inr done ↦ rw (replay_loop_done fuel run slots done) done
]

-- The loop over fresh slots, with fuel for one pass more than there are events, ends because a pass
-- made no progress.
pub replay_loop_ends :
    (run : Run) (events : List NormalizedWebhookEvent)
    → (replay_loop (suc (length events)) run (map fresh events)).0.progress ≡ false
replay_loop_ends run events =
    replay_loop_quiet (suc (length events)) run (map fresh events)
      (omega (arith, open_slots-fresh events))

-- An event that is not settled is classified as delayed.
abbrev pub Stuck : Run → Slot → Type 0
Stuck run slot =
    slot.settled ≡ none → (attempted run.payment run.history slot.event).decision ≡ delayed

visit-Stuck :
    (run : Run) (slot : Slot)
    → (visit run slot).0.progress ≡ false
    → ((visit run slot).0 ≡ run) × Stuck run (visit run slot).1
unfolding visit
visit-Stuck run slot h = elim (Option-cases slot.settled) [
  | inl e ↦ elim (visit_event-Visited run slot.event) [
    | takes from to q _ _ r ↦
        let moved = ap (λ (x : Run × Slot). x.0.progress) r in
        let still : (visit_event run slot.event).0.progress ≡ false = rw e at h in cc
    | settles _ r ↦ rw (e, r) (refl, λ x. cc)
    | waits d r ↦ rw (e, r) (refl, λ _. d)
  ]
  | inr (d, e) ↦ rw e (refl, λ x. cc)
]

pass-Stuck :
    (run : Run) (slots : List Slot)
    → (pass run slots).0.progress ≡ false
    → ((pass run slots).0 ≡ run) × All (Stuck run) (pass run slots).1
unfolding pass
pass-Stuck run [] h = (refl, tt)
pass-Stuck run (slot ∷ slots) h =
    let (same_later, stuck_later) = pass-Stuck (visit run slot).0 slots h in
    let still : (visit run slot).0.progress ≡ false = rw same_later at h in
    let (same_here, stuck_here) = visit-Stuck run slot still in
    (
      same_later ∙ same_here,
      (
        stuck_here,
        subst (λ r. All (Stuck r) (pass (visit run slot).0 slots).1) same_here stuck_later,
      ),
    )

-- When the loop is run with more fuel than there are open slots, every event that it leaves open is
-- classified as delayed by the final payment and history: none could be accepted or settled.
pub replay_loop-Stuck :
    (fuel : ℕ) (run : Run) (slots : List Slot)
    → open_slots slots < fuel
    → All (Stuck (replay_loop fuel run slots).0) (replay_loop fuel run slots).1
replay_loop-Stuck zero run slots h = elim h [ ]
replay_loop-Stuck (suc fuel) run slots h = elim (Bool-cases (pass (quiet run) slots).0.progress) [
  | inl more ↦ rw (replay_loop_more fuel run slots more) (
      replay_loop-Stuck fuel (pass (quiet run) slots).0 (pass (quiet run) slots).1
        (omega (arith, pass_cost (quiet run) slots, ap flag more)))
  | inr done ↦
      let (same, stuck) = pass-Stuck (quiet run) slots done in
      rw (replay_loop_done fuel run slots done)
        (subst (λ r. All (Stuck r) (pass (quiet run) slots).1) (sym same) stuck)
]
