-- ===== src/StateMachine/Process/Laws.antt =====
-- When an event is accepted, and what a second delivery of an identity meets.
use hookx.Prelude.{
  sym, ℕ, ◌≡◌, ◌≢◌, refl, ◌∙◌, subst, ◌↔◌, Option, none, some, List, [], ◌∷◌, ◌++◌, Ordering, arith,
  if◌then◌else◌, Option-cases, inl, inr,
}
use hookx.Domain.{PaymentState, same_iff}
use hookx.Webhook.{NormalizedWebhookEvent}
use hookx.Webhook.Identity.{event_identity_key, text_eq_iff}
use hookx.StateMachine.Table.{PaymentRecordState, lookup_transition}
use hookx.StateMachine.Table.Allowed.{Allowed, lookup_transition_iff}
use hookx.StateMachine.Instants.{compare_instant}
use hookx.StateMachine.History.{
  ProcessedEventRecord, ProcessingHistory, event_material, record_processed_event,
  with_processed_event, find_processed_event, events_materially_equal, Payment, create_payment,
}
use hookx.StateMachine.Process.{
  accepted, conflict, ignored_duplicate, record_state, known_event, apply_transition, new_event,
  attempt, process_event, WebhookEventType, rejected, payment_id_mismatch,
}

-- The event is for this payment, and does not lie before what the payment has seen.
abbrev pub Fits : Option Payment → NormalizedWebhookEvent → Type 0
Fits none event = Unit {0}
Fits (some p) event =
    (p.payment_id ≡ event.payment_id)
    × (compare_instant event.occurred_at p.last_occurred_at ≢ Ordering.lt)

-- The payment after an accepted event: amount and currency are those of its first event.
abbrev pub advanced : Option Payment → NormalizedWebhookEvent → PaymentState → Payment
advanced none event to =
    create_payment event.payment_id to event.amount_minor event.currency event.occurred_at
advanced (some p) event to =
    create_payment event.payment_id to p.amount_minor p.currency event.occurred_at

-- What it takes for an event to be accepted.
pub record Accepts (current : Option Payment) (event : NormalizedWebhookEvent)
    (history : ProcessingHistory) (from : PaymentRecordState) (to : PaymentState) (q : Payment)
    : Type 0 where
  pub unseen : find_processed_event history (event_identity_key event) ≡ none
  pub fits : Fits current event
  pub start : from ≡ record_state current
  pub allowed : Allowed from event.event_type to
  pub result : q ≡ advanced current event to

new_event_sound :
    (current : Option Payment) (event : NormalizedWebhookEvent) (from : PaymentRecordState)
    (to : PaymentState) (q : Payment)
    → new_event current event ≡ accepted from to q
    → Fits current event
      × (from ≡ record_state current)
      × (lookup_transition from event.event_type ≡ some to)
      × (q ≡ advanced current event to)
unfolding new_event apply_transition
new_event_sound none event from to q h = ground arith
new_event_sound (some p) event from to q h = ground (arith, same_iff p.payment_id event.payment_id)

new_event_complete :
    (current : Option Payment) (event : NormalizedWebhookEvent) (to : PaymentState)
    → Fits current event
    → lookup_transition (record_state current) event.event_type ≡ some to
    → new_event current event ≡ accepted (record_state current) to (advanced current event to)
unfolding new_event apply_transition
new_event_complete none event to f h = rw h refl
new_event_complete (some p) event to f h = ground (arith, same_iff p.payment_id event.payment_id)

process_event_unseen :
    (current : Option Payment) (event : NormalizedWebhookEvent) (history : ProcessingHistory)
    → find_processed_event history (event_identity_key event) ≡ none
    → process_event current event history ≡ new_event current event
unfolding process_event attempt
process_event_unseen current event history h = rw h refl

process_event_sound :
    (current : Option Payment) (event : NormalizedWebhookEvent) (history : ProcessingHistory)
    (from : PaymentRecordState) (to : PaymentState) (q : Payment)
    → process_event current event history ≡ accepted from to q
    → Accepts current event history from to q
unfolding process_event attempt known_event
process_event_sound current event history from to q h =
    elim (Option-cases (find_processed_event history (event_identity_key event))) [
      | inl unseen ↦
          let (fits, start, found, result) =
            new_event_sound current event from to q (rw unseen at h) in
          record {
            unseen = unseen;
            fits = fits;
            start = start;
            allowed = (lookup_transition_iff from event.event_type to).0 found;
            result = result;
          }
      | inr (existing, seen) ↦
          let known : known_event existing current event ≡ accepted from to q = rw seen at h in
          absurd (ground arith)
    ]

process_event_complete :
    (current : Option Payment) (event : NormalizedWebhookEvent) (history : ProcessingHistory)
    (from : PaymentRecordState) (to : PaymentState) (q : Payment)
    → Accepts current event history from to q
    → process_event current event history ≡ accepted from to q
process_event_complete current event history from to q a =
    process_event_unseen current event history a.unseen
    ∙ new_event_complete current event to a.fits (
        subst (λ s. lookup_transition s event.event_type ≡ some to) a.start
          ((lookup_transition_iff from event.event_type to).1 a.allowed))
    ∙ cc (a.start, a.result)

-- An event is accepted, with a given result, exactly when its identity is not in the history, it
-- is for the payment and not before the last event of the payment, and the transition relation
-- leads from the state of the payment to the new one; the new payment keeps the amount and the
-- currency of the payment, or takes those of the event where there is no payment yet.
pub process_event_accepted_iff :
    (current : Option Payment) (event : NormalizedWebhookEvent) (history : ProcessingHistory)
    (from : PaymentRecordState) (to : PaymentState) (q : Payment)
    → (process_event current event history ≡ accepted from to q)
      ↔ Accepts current event history from to q
process_event_accepted_iff current event history from to q = (
  process_event_sound current event history from to q,
  process_event_complete current event history from to q,
)

find-append :
    (history : ProcessingHistory) (r : ProcessedEventRecord) (key : List ℕ)
    → find_processed_event history key ≡ none
    → r.identity_key ≡ key
    → find_processed_event (history ++ r ∷ []) key ≡ some r
unfolding find_processed_event
find-append [] r key h e = ground (arith, text_eq_iff r.identity_key key)
find-append (s ∷ history) r key h e = ground (arith, find-append history r key)

-- After an event with a new identity is recorded, a delivery with the same identity leaves the
-- payment as it is: it is a duplicate if its material is equal, and else a conflict that names the
-- first material.
pub redelivery :
    (current : Option Payment) (first second : NormalizedWebhookEvent) (history : ProcessingHistory)
    → find_processed_event history (event_identity_key first) ≡ none
    → event_identity_key second ≡ event_identity_key first
    → process_event current second (with_processed_event history first) ≡ (
        if events_materially_equal (event_material first) (event_material second)
        then ignored_duplicate (event_identity_key second) current
        else conflict
            (event_identity_key second)
            (event_material first)
            (event_material second)
            current)
unfolding process_event attempt known_event with_processed_event record_processed_event
redelivery current first second history unseen same_key =
    rw
      (find-append history (record_processed_event first) (event_identity_key second)
        (rw same_key unseen) (sym same_key))
      refl

find-none_inv :
    (history : ProcessingHistory) (r : ProcessedEventRecord) (key : List ℕ)
    → find_processed_event (history ++ r ∷ []) key ≡ none
    → (find_processed_event history key ≡ none) × (r.identity_key ≢ key)
unfolding find_processed_event
find-none_inv [] r key h = ground (arith, text_eq_iff r.identity_key key)
find-none_inv (s ∷ history) r key h = ground (arith, find-none_inv history r key)

-- Only an event for another payment is rejected as a mismatch.
pub mismatch_inv :
    (current : Option Payment) (event : NormalizedWebhookEvent) (history : ProcessingHistory)
    (from : PaymentRecordState) (t : WebhookEventType) (p : Option Payment)
    → process_event current event history ≡ rejected payment_id_mismatch from t p
    → (q : Payment) × (current ≡ some q) × (q.payment_id ≢ event.payment_id)
unfolding process_event attempt known_event new_event apply_transition
mismatch_inv none event history from t p h = absurd (ground arith)
mismatch_inv (some q) event history from t p h =
    (q, refl, λ e. let s = (same_iff q.payment_id event.payment_id).1 e in ground arith)
