-- ===== src/StateMachine/Replay/Outcome.antt =====
-- What replay gives for a list of events: its order, the payment and the decisions.
use hookx.Prelude.{
  none, zero, ◌≡◌, refl, sym, ap, ◌∙◌, some, List, [], ◌∷◌, map, keep, All, keep-perm, Option-cases,
  inl, inr, sort_of_perm, sort, Memᴰ-keep, All-Memᴰ, ◌≢◌, ℕ, subst, suc, length, Bool-cases,
}
use mathlib.Core.Path.{ap₂}
use mathlib.Core.List.{Memᴰ, Permᴰ}
use hookx.Webhook.{NormalizedWebhookEvent}
use hookx.Webhook.Identity.{event_identity_key}
use hookx.StateMachine.Table.{PaymentRecordState}
use hookx.StateMachine.Order.{
  compare_webhook_events, compare_webhook_events-IsComparison, compare_webhook_events_key,
  order_webhook_events,
}
use hookx.StateMachine.Decisions.{
  ReplayDecision, ReplayScope, empty_replay_result, decision_record, freeze_replay_result,
  ReplayResult,
}
use hookx.StateMachine.Replay.{
  Slot, in_scope, replay_loop, final_decision, replay_ordered, replay_scoped, replay_events, pass,
  Run, visit_event, visit, fresh, conclude, record_state, quiet, start,
}
use hookx.StateMachine.Replay.Passes.{
  events_of, visit_event-Visited, takes, settles, waits, replay_loop_more, replay_loop-events,
  replay_loop_done,
}

-- The events that a replay is about, in the order in which it takes them.
abbrev pub scoped_order : ReplayScope → List NormalizedWebhookEvent → List NormalizedWebhookEvent
scoped_order scope events = order_webhook_events (keep (in_scope scope) events)

replay_scoped_lem :
    (events : List NormalizedWebhookEvent)
    → replay_scoped events ≡ replay_ordered (order_webhook_events events)
unfolding sort pass freeze_replay_result replay_scoped replay_ordered replay_loop
    order_webhook_events empty_replay_result
replay_scoped_lem [] = refl
replay_scoped_lem (e ∷ es) = refl

-- The early returns on no events give what the loop would give.
pub replay_events_lem :
    (events : List NormalizedWebhookEvent) (scope : ReplayScope)
    → replay_events events (some scope) ≡ replay_ordered (scoped_order scope events)
unfolding replay_events
replay_events_lem [] scope = replay_scoped_lem []
replay_events_lem (e ∷ es) scope = replay_scoped_lem (keep (in_scope scope) (e ∷ es))

-- A settled decision is about the slot's event.
abbrev HasId : Slot → Type 0
HasId slot =
    (d : ReplayDecision) → slot.settled ≡ some d → d.event_id ≡ slot.event.external_event_id

final_id :
    (s : PaymentRecordState) (slot : Slot)
    → HasId slot
    → (final_decision s slot).event_id ≡ slot.event.external_event_id
unfolding final_decision decision_record
final_id s slot h = elim (Option-cases slot.settled) [
  | inl e ↦ rw (e, final_decision) refl
  | inr (d, e) ↦ rw (e, final_decision) (h d e)
]

id_of_event : (run : Run) (event : NormalizedWebhookEvent) → HasId (visit_event run event).1
unfolding decision_record
id_of_event run event = elim (visit_event-Visited run event) [
  | takes from to q e n r ↦ subst (λ x. HasId x.1) (sym r) (λ d x. cc)
  | settles n r ↦ subst (λ x. HasId x.1) (sym r) (λ d x. cc)
  | waits _ r ↦ subst (λ x. HasId x.1) (sym r) (λ d x. cc)
]

id_of_visit : (run : Run) (slot : Slot) → HasId slot → HasId (visit run slot).1
unfolding visit
id_of_visit run slot h = elim (Option-cases slot.settled) [
  | inl e ↦ rw e (id_of_event run slot.event)
  | inr (d, e) ↦
      subst
        (λ x.
          HasId
            (elim x as (λ _. Run × Slot) [
              | some d ↦ (run, slot)
              | none ↦ visit_event run slot.event
            ]).1)
        (sym e) h
]

ids_by_pass : (run : Run) (slots : List Slot) → All HasId slots → All HasId (pass run slots).1
unfolding pass
ids_by_pass run [] h = tt
ids_by_pass run (slot ∷ slots) (q, h) =
    (id_of_visit run slot q, ids_by_pass (visit run slot).0 slots h)

final_ids :
    (s : PaymentRecordState) (slots : List Slot)
    → All HasId slots
    → map (λ (d : ReplayDecision). d.event_id) (map (final_decision s) slots)
      ≡ map (λ (e : NormalizedWebhookEvent). e.external_event_id) (events_of slots)
unfolding final_decision
final_ids s [] h = refl
final_ids s (slot ∷ slots) (here, later) = ap₂ ◌∷◌ (final_id s slot here) (final_ids s slots later)

ids_kept :
    (fuel : ℕ) (run : Run) (slots : List Slot)
    → All HasId slots
    → All HasId (replay_loop fuel run slots).1
unfolding replay_loop
ids_kept zero run slots h = h
ids_kept (suc fuel) run slots h =
    let h' : All HasId (pass (quiet run) slots).1 = ids_by_pass (quiet run) slots h in
    elim (Bool-cases (pass (quiet run) slots).0.progress) [
      | inl more ↦
          rw (replay_loop_more fuel run slots more)
            (ids_kept fuel (pass (quiet run) slots).0 (pass (quiet run) slots).1 h')
      | inr done ↦ rw (replay_loop_done fuel run slots done) h'
    ]

fresh_ids : (events : List NormalizedWebhookEvent) → All HasId (map fresh events)
fresh_ids [] = tt
fresh_ids (e ∷ events) = (λ d x. cc, fresh_ids events)

pub fresh_events : (events : List NormalizedWebhookEvent) → events_of (map fresh events) ≡ events
fresh_events [] = refl
fresh_events (e ∷ events) = ap (e ∷◌) (fresh_events events)

ordered_ids :
    (ordered : List NormalizedWebhookEvent)
    → map (λ (d : ReplayDecision). d.event_id) (replay_ordered ordered).decisions
      ≡ map (λ (e : NormalizedWebhookEvent). e.external_event_id) ordered
unfolding replay_ordered conclude freeze_replay_result
ordered_ids ordered =
    final_ids
      (record_state (replay_loop (suc (length ordered)) start (map fresh ordered)).0.payment)
      (replay_loop (suc (length ordered)) start (map fresh ordered)).1
      (ids_kept (suc (length ordered)) start (map fresh ordered) (fresh_ids ordered))
    ∙ ap (map (λ (e : NormalizedWebhookEvent). e.external_event_id))
        (replay_loop-events (suc (length ordered)) start (map fresh ordered) ∙ fresh_events ordered)

-- No two events of the list have the same identity key, as in a log that stores each identity once.
abbrev pub HasDistinctKeys : List NormalizedWebhookEvent → Type 0
HasDistinctKeys [] = Unit
HasDistinctKeys (e ∷ events) =
    All (λ f. event_identity_key e ≢ event_identity_key f) events × HasDistinctKeys events

not_later :
    (a : NormalizedWebhookEvent) (events : List NormalizedWebhookEvent) {b : NormalizedWebhookEvent}
    → All (λ f. event_identity_key a ≢ event_identity_key f) events
    → Memᴰ b events
    → event_identity_key a ≢ event_identity_key b
not_later a events h m = All-Memᴰ (λ f. event_identity_key a ≢ event_identity_key f) m h

distinct_keys_inj :
    (events : List NormalizedWebhookEvent) {a b : NormalizedWebhookEvent}
    → HasDistinctKeys events
    → Memᴰ a events
    → Memᴰ b events
    → event_identity_key a ≡ event_identity_key b
    → a ≡ b
distinct_keys_inj [] h m n k = elim m [ ]
distinct_keys_inj (e ∷ events) h (Memᴰ.head p) (Memᴰ.head q) k = p ∙ sym q
distinct_keys_inj (e ∷ events) h (Memᴰ.head p) (Memᴰ.tail n) k =
    absurd (not_later e events h.0 n (ap event_identity_key (sym p) ∙ k))
distinct_keys_inj (e ∷ events) h (Memᴰ.tail m) (Memᴰ.head q) k =
    absurd (not_later e events h.0 m (ap event_identity_key (sym q) ∙ sym k))
distinct_keys_inj (e ∷ events) h (Memᴰ.tail m) (Memᴰ.tail n) k = distinct_keys_inj events h.1 m n k

-- Events that have distinct identity keys give, for one scope, the same replay in whatever order
-- they are listed.
pub replay_events_of_perm :
    (xs ys : List NormalizedWebhookEvent) (scope : ReplayScope)
    → Permᴰ xs ys
    → HasDistinctKeys xs
    → replay_events xs (some scope) ≡ replay_events ys (some scope)
unfolding order_webhook_events
replay_events_of_perm xs ys scope p distinct =
    replay_events_lem xs scope
    ∙ ap replay_ordered (
        sort_of_perm compare_webhook_events compare_webhook_events-IsComparison
          (keep-perm (in_scope scope) p)
          (λ a b m n e.
            distinct_keys_inj xs distinct (Memᴰ-keep (in_scope scope) xs m)
              (Memᴰ-keep (in_scope scope) xs n) (compare_webhook_events_key a b e)))
    ∙ sym (replay_events_lem ys scope)

-- A replay gives one decision for each event of the scope, in the replay's order.
pub replay_events-decisions :
    (events : List NormalizedWebhookEvent) (scope : ReplayScope)
    → map (λ (d : ReplayDecision). d.event_id) (replay_events events (some scope)).decisions
      ≡ map (λ (e : NormalizedWebhookEvent). e.external_event_id) (scoped_order scope events)
replay_events-decisions events scope =
    ap (λ (r : ReplayResult). map (λ (d : ReplayDecision). d.event_id) r.decisions)
      (replay_events_lem events scope)
    ∙ ordered_ids (scoped_order scope events)
