-- ===== src/StateMachine/Replay/Soundness.antt =====
-- What holds of the payment and of each decision that a replay gives.
use hookx.Prelude.{
  ◌≡◌, refl, sym, subst, Option, none, some, List, Bool, All, ◌&&◌, map, All-perm, All-map, [], ◌∷◌,
  inl, inr, Option-cases, Bool-cases, keep, keep-Mem, sort-perm, ◌≢◌, length, suc, ◌∙◌, true, arith,
}
use hookx.StateMachine.Replay.{
  Slot, Run, start, fresh, in_scope, replay_loop, conclude, final_decision, replay_ordered,
  replay_events, classify_attempt, unchanged, is_eventually_possible,
}
use hookx.StateMachine.Replay.Passes.{events_of, verdict}
use mathlib.Core.List.Permᴰ
use mathlib.Core.List.{Mem}
use hookx.Domain.{PaymentState, same_iff}
use hookx.StateMachine.Order.{compare_webhook_events, order_webhook_events}
use hookx.StateMachine.Replay.Outcome.{scoped_order, replay_events_lem, fresh_events}
use hookx.StateMachine.Replay.Keeping.{replay_loop-Holds, replay_loop-Recorded}
use hookx.Webhook.{NormalizedWebhookEvent, WebhookEventType, payment_created}
use hookx.StateMachine.Table.{PaymentRecordState}
use hookx.StateMachine.Table.Allowed.{Allowed, create}
use hookx.StateMachine.Reachability.Reach.{Reach, here, next}
use hookx.StateMachine.History.{ProcessingHistory, with_processed_event, Payment, create_payment}
use hookx.StateMachine.Decisions.{
  ReplayScope, ReplayDecision, DecisionKind, ReplayReason, decision_record, freeze_replay_result,
}
use hookx.StateMachine.Process.{RejectionReason, record_state, TransitionResult, process_event}
use hookx.StateMachine.Process.Laws.{mismatch_inv, Accepts, process_event_accepted_iff}

-- The payment is that of the scope, in a state that a new payment can come to, and has the amount
-- and the currency of a creation event among the events.
pub record Grounded (scope : ReplayScope) (events : List NormalizedWebhookEvent) (p : Payment)
    : Type 0 where
  pub reached : Reach none (some p.state)
  pub owner : p.payment_id ≡ scope.payment_id
  pub opening : NormalizedWebhookEvent
  pub member : Mem opening events
  pub opens : opening.event_type ≡ payment_created
  pub amount : p.amount_minor ≡ opening.amount_minor
  pub currency_kept : p.currency ≡ opening.currency

Reach-snoc :
    {s u : PaymentRecordState} {t : WebhookEventType} {to : PaymentState}
    → Reach s u
    → Allowed u t to
    → Reach s (some to)
Reach-snoc here a = next a here
Reach-snoc (next b r) a = next b (Reach-snoc r a)

from_none : {t : WebhookEventType} {to : PaymentState} → Allowed none t to → t ≡ payment_created
from_none create = refl

module _ (scope : ReplayScope) (events : List NormalizedWebhookEvent) where
  abbrev pub Eligible : NormalizedWebhookEvent → Type 0
  Eligible event = Mem event events × (event.payment_id ≡ scope.payment_id)

  abbrev pub IsGrounded : Option Payment → ProcessingHistory → Type 0
  IsGrounded payment history = (p : Payment) → payment ≡ some p → Grounded scope events p

  step-Grounded :
      (payment : Option Payment) (history : ProcessingHistory) (event : NormalizedWebhookEvent)
      (from : PaymentRecordState) (to : PaymentState) (q : Payment)
      → Eligible event
      → IsGrounded payment history
      → Accepts payment event history from to q
      → Grounded scope events q
  unfolding create_payment
  step-Grounded none history event from to q (m, o) g a =
      let first : Allowed none event.event_type to =
        subst (λ s. Allowed s event.event_type to) a.start a.allowed in
      subst (Grounded scope events) (sym a.result) (record {
        reached = next first here;
        owner = o;
        opening = event;
        member = m;
        opens = from_none first;
        amount = refl;
        currency_kept = refl;
      })
  step-Grounded (some p) history event from to q (m, o) g a =
      let old = g p refl in
      subst (Grounded scope events) (sym a.result) (record {
        reached =
            Reach-snoc old.reached (subst (λ s. Allowed s event.event_type to) a.start a.allowed);
        owner = o;
        opening = old.opening;
        member = old.member;
        opens = old.opens;
        amount = old.amount;
        currency_kept = old.currency_kept;
      })

  pub process_event-IsGrounded :
      (payment : Option Payment) (history : ProcessingHistory) (event : NormalizedWebhookEvent)
      (from : PaymentRecordState) (to : PaymentState) (q : Payment)
      → Eligible event
      → IsGrounded payment history
      → process_event payment event history ≡ TransitionResult.accepted from to q
      → IsGrounded (some q) (with_processed_event history event)
  process_event-IsGrounded payment history event from to q i g e p x =
      subst (Grounded scope events) (cc) (
        step-Grounded payment history event from to q i g
          ((process_event_accepted_iff payment event history from to q).0 e))

-- The reasons for which a replay leaves the state as it is.
pub data Unmoved : DecisionKind → ReplayReason → Type 0 where
  repeated : Unmoved DecisionKind.duplicate ReplayReason.identical_delivery
  changed : Unmoved DecisionKind.conflict ReplayReason.material_conflict
  impossible : Unmoved DecisionKind.conflict ReplayReason.impossible_after_ordering
  early : Unmoved DecisionKind.delayed ReplayReason.awaiting_prerequisite

-- What a decision of a replay says: a transition that the table has, or a state that stays, with
-- the reason that fits. There is no case for an event that is rejected.
pub data Judged (d : ReplayDecision) : Type 0 where
  moved :
      (t : WebhookEventType) (to : PaymentState)
      → Allowed d.previous_state t to
      → d.resulting_state ≡ some to
      → d.decision ≡ DecisionKind.accepted
      → d.reason ≡ ReplayReason.transition
      → Judged d
  stayed : d.resulting_state ≡ d.previous_state → Unmoved d.decision d.reason → Judged d

module _ (scope : ReplayScope) (events : List NormalizedWebhookEvent) (run : Run)
    (event : NormalizedWebhookEvent) (own : Eligible scope events event)
    (g : IsGrounded scope events run.payment run.history)
    (n : (verdict run event).decision ≢ DecisionKind.delayed) where
  verdict-Judged :
      (r : TransitionResult)
      → process_event run.payment event run.history ≡ r
      → Judged (verdict run event)
  unfolding classify_attempt decision_record unchanged
  verdict-Judged (TransitionResult.accepted from to q) e =
      let a = (process_event_accepted_iff run.payment event run.history from to q).0 e in
      moved event.event_type to (subst (λ s. Allowed s event.event_type to) a.start a.allowed)
        (rw e refl) (rw e refl) (rw e refl)
  verdict-Judged (TransitionResult.ignored_duplicate k p) e = stayed (rw e refl) (rw e repeated)
  verdict-Judged (TransitionResult.conflict k m l p) e = stayed (rw e refl) (rw e changed)
  verdict-Judged (TransitionResult.delayed p a l) e = absurd (n (rw e refl))
  verdict-Judged (TransitionResult.rejected RejectionReason.payment_id_mismatch f t p) e =
      let (q, known, other) = mismatch_inv run.payment event run.history f t p e in
      absurd (other ((g q known).owner ∙ sym own.1))
  verdict-Judged (TransitionResult.rejected RejectionReason.invalid_transition f t p) e =
      elim (Bool-cases (is_eventually_possible (record_state run.payment) event.event_type)) [
        | inl can ↦ absurd (n (rw (e, can) refl))
        | inr cannot ↦ stayed (rw (e, cannot) refl) (rw (e, cannot) impossible)
      ]

and_right : (a b : Bool) → (a && b) ≡ true → b ≡ true
and_right a b h = ground arith

final-Judged :
    (s : PaymentRecordState) (slots : List Slot)
    → All (λ slot. (d : ReplayDecision) → slot.settled ≡ some d → Judged d) slots
    → All Judged (map (final_decision s) slots)
unfolding final_decision decision_record
final-Judged s [] h = tt
final-Judged s (slot ∷ slots) (h, later) = (
  elim (Option-cases slot.settled) [ inl e ↦ rw e (stayed refl early) | inr (d, e) ↦ rw e (h d e) ],
  final-Judged s slots later,
)

fresh-Judged :
    (events : List NormalizedWebhookEvent)
    → All (λ slot. (d : ReplayDecision) → slot.settled ≡ some d → Judged d) (map fresh events)
fresh-Judged [] = tt
fresh-Judged (e ∷ events) = (λ d x. cc, fresh-Judged events)

module _ (scope : ReplayScope) (events : List NormalizedWebhookEvent) where
  eligible : All (λ e. Mem e events × (e.payment_id ≡ scope.payment_id)) (scoped_order scope events)
  unfolding order_webhook_events
  eligible =
      All-perm (λ e. Mem e events × (e.payment_id ≡ scope.payment_id))
        (Permᴰ.symm (sort-perm compare_webhook_events (keep (in_scope scope) events)))
        (All-map (keep (in_scope scope) events)
          (λ e (m, h). (m, (same_iff e.payment_id scope.payment_id).0 (and_right _ _ h)))
          (keep-Mem (in_scope scope) events))

  eligible_slots :
      All
        (λ e. Mem e events × (e.payment_id ≡ scope.payment_id))
        (events_of (map fresh (scoped_order scope events)))
  eligible_slots =
      subst (All (λ e. Mem e events × (e.payment_id ≡ scope.payment_id)))
        (sym (fresh_events (scoped_order scope events))) eligible

-- The payment that a replay gives is that of the scope, its state can be reached from no record by
-- the transitions of the table, and a creation event among the given ones has its amount and its
-- currency.
pub replay_events-Grounded :
    (events : List NormalizedWebhookEvent) (scope : ReplayScope) (p : Payment)
    → (replay_events events (some scope)).payment ≡ some p
    → Grounded scope events p
unfolding replay_ordered conclude freeze_replay_result
replay_events-Grounded events scope p h =
    replay_loop-Holds (Eligible scope events) (IsGrounded scope events)
      (process_event-IsGrounded scope events) (suc (length (scoped_order scope events))) start
      (map fresh (scoped_order scope events)) (eligible_slots scope events) (λ q x. cc) p
      (rw (replay_events_lem events scope) at h)

-- Each decision of a replay with a scope either moves the payment by a transition of the table and
-- says that it is accepted, or leaves the state as it is, for one of four reasons; none of them is
-- that the event is rejected, or that it is out of order.
pub replay_events-Judged :
    (events : List NormalizedWebhookEvent) (scope : ReplayScope)
    → All Judged (replay_events events (some scope)).decisions
unfolding replay_ordered conclude freeze_replay_result
replay_events-Judged events scope = rw (replay_events_lem events scope) (
    final-Judged
      (record_state
        (replay_loop (suc (length (scoped_order scope events))) start
          (map fresh (scoped_order scope events))).0.payment)
      (replay_loop (suc (length (scoped_order scope events))) start
        (map fresh (scoped_order scope events))).1
      (replay_loop-Recorded (Eligible scope events) (IsGrounded scope events)
        (process_event-IsGrounded scope events) Judged
        (λ run event own g n.
          verdict-Judged scope events run event own g n
            (process_event run.payment event run.history) refl)
        (suc (length (scoped_order scope events))) start (map fresh (scoped_order scope events))
        (eligible_slots scope events) (λ q x. cc) (fresh-Judged (scoped_order scope events))))
