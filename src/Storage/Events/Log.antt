-- ===== src/Storage/Events/Log.antt =====
-- The log holds an identity once, so its replay does not depend on the order of arrival.
use text.Mathlib.Text.{◌==◌ as str_eq}
use hookx.Prelude.{
  String, ◌≡◌, ◌≢◌, refl, ap, none, some, List, [], ◌∷◌, ◌++◌, find, All, arith, Option-cases,
  Bool-cases, inl, inr, subst, Bool, sym, keep, Permᴰ,
}
use hookx.Domain.{err_ne_ok, Result, ok, err, same, same_iff, Identity}
use hookx.Webhook.{NormalizedWebhookEvent}
use hookx.Webhook.Identity.{event_identity_key, webhook_identity_key-inj}
use hookx.StateMachine.Replay.Outcome.{HasDistinctKeys, replay_events_of_perm}
use hookx.Storage.Status.{
  WebhookProcessingStatus, received, processing, processed, rejected, conflict,
}
use hookx.Storage.Events.{
  StoredWebhookEvent, EventLog, of_identity, find_by_id, store, put, with_status, events_of,
  mark_processing, mark_processed, mark_rejected, mark_conflict, transition, change,
  list_by_payment, process_payment_events,
}

other_key :
    (records : EventLog) (event : NormalizedWebhookEvent)
    → find (of_identity event.provider event.external_event_id) records ≡ none
    → All (λ e. event_identity_key e ≢ event_identity_key event) (events_of records)
unfolding event_identity_key
other_key [] event h = tt
other_key (row ∷ records) event h =
    elim (Bool-cases (of_identity event.provider event.external_event_id row)) [
      | inl e ↦ let bad : some row ≡ none = rw e at h in cc
      | inr e ↦ (
        λ k.
            let (p, q) = webhook_identity_key-inj _ _ _ _ k in
            let p' = (same_iff row.event.provider event.provider).1 p in
            let q' = (same_iff row.event.external_event_id event.external_event_id).1 q in
            ground arith,
        other_key records event (rw e at h),
      )
    ]

All-last :
    (P : NormalizedWebhookEvent → Type 0) (l : List NormalizedWebhookEvent)
    (x : NormalizedWebhookEvent)
    → All P l
    → P x
    → All P (l ++ x ∷ [])
All-last P [] x h p = (p, tt)
All-last P (y ∷ l) x h p = (h.0, All-last P l x h.1 p)

HasDistinctKeys-last :
    (l : List NormalizedWebhookEvent) (x : NormalizedWebhookEvent)
    → HasDistinctKeys l
    → All (λ e. event_identity_key e ≢ event_identity_key x) l
    → HasDistinctKeys (l ++ x ∷ [])
HasDistinctKeys-last [] x u h = (tt, tt)
HasDistinctKeys-last (y ∷ l) x u h = (
  All-last (λ z. event_identity_key y ≢ event_identity_key z) l x u.0 h.0,
  HasDistinctKeys-last l x u.1 h.1,
)

events_of-last :
    (records : EventLog) (row : StoredWebhookEvent)
    → events_of (records ++ row ∷ []) ≡ events_of records ++ row.event ∷ []
events_of-last [] row = refl
events_of-last (r ∷ records) row = ap (r.event ∷◌) (events_of-last records row)

store-HasDistinctKeys :
    (fresh_id : String) (records : EventLog) (event : NormalizedWebhookEvent)
    → HasDistinctKeys (events_of records)
    → HasDistinctKeys (events_of (store fresh_id records event).0)
unfolding store
store-HasDistinctKeys fresh_id records event u =
    elim (Option-cases (find (of_identity event.provider event.external_event_id) records)) [
      | inl e ↦
          rw (e, store)
            (rw (events_of-last records _)
              (HasDistinctKeys-last (events_of records) event u (other_key records event e)))
      | inr (existing, e) ↦
          elim (Bool-cases (same existing.event.payload_hash event.payload_hash)) [
            | inl s ↦ rw (e, store) (rw s u)
            | inr s ↦ rw (e, store) (rw s u)
          ]
    ]

events_of-put :
    (id : String) (to : WebhookProcessingStatus) (records : EventLog) (row : StoredWebhookEvent)
    → find_by_id records id ≡ some row
    → events_of (put id (with_status to row) records) ≡ events_of records
unfolding put find_by_id
events_of-put id to [] row h = refl
events_of-put id to (r ∷ records) row h = elim (Bool-cases (str_eq r.id id)) [
  | inl e ↦ let first : some r ≡ some row = rw e at h in rw e (cc)
  | inr e ↦ rw e (ap (r.event ∷◌) (events_of-put id to records row (rw e at h)))
]

events_of-change :
    (records after : EventLog) (id : String) (from : List WebhookProcessingStatus)
    (to : WebhookProcessingStatus) (current row : StoredWebhookEvent)
    → find_by_id records id ≡ some current
    → change records id from to current ≡ ok (after, row)
    → events_of after ≡ events_of records
unfolding change
events_of-change records after id from to current row found h =
    let kept = events_of-put id to records current found in ground arith

events_of-transition :
    (records after : EventLog) (id : String) (from : List WebhookProcessingStatus)
    (to : WebhookProcessingStatus) (row : StoredWebhookEvent)
    → transition records id from to ≡ ok (after, row)
    → events_of after ≡ events_of records
unfolding transition
events_of-transition records after id from to row h = elim (Option-cases (find_by_id records id)) [
  | inl e ↦
      let bad : ◌≡◌ {A = Result (EventLog × StoredWebhookEvent)} (err "EVENT_NOT_FOUND")
          (ok (after, row)) =
        rw (e, transition) at h in
      absurd (err_ne_ok bad)
  | inr (current, e) ↦
      events_of-change records after id from to current row e (rw (e, transition) at h)
]

-- A call that changes the log, from the log before it to the one after it.
pub data LogCall : EventLog → EventLog → Type 0 where
  stores :
      {l : EventLog} (fresh_id : String) (event : NormalizedWebhookEvent)
      → LogCall l (store fresh_id l event).0
  marks_processing :
      {l after : EventLog} (id : String) (row : StoredWebhookEvent)
      → mark_processing l id ≡ ok (after, row)
      → LogCall l after
  marks_processed :
      {l after : EventLog} (id : String) (row : StoredWebhookEvent)
      → mark_processed l id ≡ ok (after, row)
      → LogCall l after
  marks_rejected :
      {l after : EventLog} (id : String) (row : StoredWebhookEvent)
      → mark_rejected l id ≡ ok (after, row)
      → LogCall l after
  marks_conflict :
      {l after : EventLog} (id : String) (row : StoredWebhookEvent)
      → mark_conflict l id ≡ ok (after, row)
      → LogCall l after

-- A log that calls have made from an empty one.
pub data IsMade : EventLog → Type 0 where
  nothing : IsMade []
  called : {l after : EventLog} → IsMade l → LogCall l after → IsMade after

LogCall-HasDistinctKeys :
    {l after : EventLog}
    → LogCall l after
    → HasDistinctKeys (events_of l)
    → HasDistinctKeys (events_of after)
unfolding mark_processing mark_processed mark_rejected mark_conflict
LogCall-HasDistinctKeys {l} (stores fresh_id event) u = store-HasDistinctKeys fresh_id l event u
LogCall-HasDistinctKeys {l} {after} (marks_processing id row h) u =
    subst HasDistinctKeys (sym (events_of-transition l after id (received ∷ []) processing row h)) u
LogCall-HasDistinctKeys {l} {after} (marks_processed id row h) u =
    subst HasDistinctKeys (sym (events_of-transition l after id (processing ∷ []) processed row h))
      u
LogCall-HasDistinctKeys {l} {after} (marks_rejected id row h) u =
    subst HasDistinctKeys (sym (events_of-transition l after id (processing ∷ []) rejected row h)) u
LogCall-HasDistinctKeys {l} {after} (marks_conflict id row h) u =
    subst HasDistinctKeys
      (sym (
        events_of-transition l after id (received ∷ processing ∷ rejected ∷ conflict ∷ []) conflict
          row h))
      u

-- Whatever calls made a log, no two of its events have the same identity.
pub IsMade-HasDistinctKeys : {log : EventLog} → IsMade log → HasDistinctKeys (events_of log)
IsMade-HasDistinctKeys nothing = tt
IsMade-HasDistinctKeys (called made call) =
    LogCall-HasDistinctKeys call (IsMade-HasDistinctKeys made)

All-events_of-keep :
    (P : NormalizedWebhookEvent → Type 0) (p : StoredWebhookEvent → Bool) (records : EventLog)
    → All P (events_of records)
    → All P (events_of (keep p records))
All-events_of-keep P p [] h = tt
All-events_of-keep P p (row ∷ records) h = elim (Bool-cases (p row)) [
  | inl e ↦ rw e (h.0, All-events_of-keep P p records h.1)
  | inr e ↦ rw e (All-events_of-keep P p records h.1)
]

HasDistinctKeys-keep :
    (p : StoredWebhookEvent → Bool) (records : EventLog)
    → HasDistinctKeys (events_of records)
    → HasDistinctKeys (events_of (keep p records))
HasDistinctKeys-keep p [] u = tt
HasDistinctKeys-keep p (row ∷ records) u = elim (Bool-cases (p row)) [
  | inl e ↦ rw e (
    All-events_of-keep (λ f. event_identity_key row.event ≢ event_identity_key f) p records u.0,
    HasDistinctKeys-keep p records u.1,
  )
  | inr e ↦ rw e (HasDistinctKeys-keep p records u.1)
]

-- A log that calls have made, and any log that has the same events of a payment in another order,
-- give the same payment and the same decisions when they are replayed.
pub process_payment_events_of_perm :
    (left right : EventLog) (provider payment_id : Identity)
    → IsMade left
    → Permᴰ
        (events_of (list_by_payment left provider payment_id))
        (events_of (list_by_payment right provider payment_id))
    → process_payment_events left provider payment_id
      ≡ process_payment_events right provider payment_id
unfolding process_payment_events list_by_payment
process_payment_events_of_perm left right provider payment_id made p =
    replay_events_of_perm (events_of (list_by_payment left provider payment_id))
      (events_of (list_by_payment right provider payment_id))
      (record { provider = provider; payment_id = payment_id }) p
      (HasDistinctKeys-keep _ left (IsMade-HasDistinctKeys made))
