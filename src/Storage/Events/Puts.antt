-- ===== src/Storage/Events/Puts.antt =====
-- What a change of one stored event leaves: the other rows, every event, and so every replay.
use text.Mathlib.Text.{◌==◌ as str_eq}
use text.Mathlib.TextEquality.{eq_iff}
use hookx.Prelude.{
  ◌≡◌, refl, sym, ◌∙◌, ap, subst, String, true, false, ◌&&◌, some, List, [], ◌∷◌, inl, inr,
  Bool-cases,
}
use hookx.Domain.{ok, Identity, same}
use hookx.Storage.Status.{WebhookProcessingStatus, among, status_label}
use hookx.Storage.Events.{
  StoredWebhookEvent, EventLog, find_by_id, put, with_status, transition, change, events_of,
  list_by_payment, process_payment_events,
}

module _ (id : String) where
  pub found_id :
      (log : EventLog) (row : StoredWebhookEvent) → find_by_id log id ≡ some row → row.id ≡ id
  unfolding find_by_id
  found_id [] row h = cc
  found_id (r ∷ log) row h = elim (Bool-cases (str_eq r.id id)) [
    | inl e ↦
        let same_row : some r ≡ some row = rw e at h in
        let first : r ≡ row = cc in
        ap (λ (x : StoredWebhookEvent). x.id) (sym first) ∙ (eq_iff r.id id).0 e
    | inr e ↦ found_id log row (rw e at h)
  ]

  pub find-put :
      (log : EventLog) (row next : StoredWebhookEvent)
      → find_by_id log id ≡ some row
      → next.id ≡ id
      → find_by_id (put id next log) id ≡ some next
  unfolding find_by_id put
  find-put [] row next h e = cc
  find-put (r ∷ log) row next h e = elim (Bool-cases (str_eq r.id id)) [
    | inl s ↦ let here = (eq_iff next.id id).1 e in rw s (rw here refl)
    | inr s ↦ rw s (rw s (find-put log row next (rw s at h) e))
  ]

  pub put-put :
      (log : EventLog) (a b : StoredWebhookEvent)
      → a.id ≡ id
      → put id b (put id a log) ≡ put id b log
  unfolding put
  put-put [] a b e = refl
  put-put (r ∷ log) a b e = elim (Bool-cases (str_eq r.id id)) [
    | inl s ↦ let here = (eq_iff a.id id).1 e in rw s (rw here refl)
    | inr s ↦ rw s (rw s (ap (r ∷◌) (put-put log a b e)))
  ]

  restated-events :
      (log : EventLog) (row : StoredWebhookEvent) (to : WebhookProcessingStatus)
      (provider payment_id : Identity)
      → events_of (list_by_payment (with_status to row ∷ log) provider payment_id)
        ≡ events_of (list_by_payment (row ∷ log) provider payment_id)
  unfolding list_by_payment
  restated-events log row to provider payment_id =
      elim (Bool-cases (same row.event.provider provider && same row.event.payment_id payment_id)) [
        | inl f ↦ rw f refl
        | inr f ↦ rw f refl
      ]

  -- A change of status changes no event.
  list_by_payment-put :
      (log : EventLog) (row : StoredWebhookEvent) (to : WebhookProcessingStatus)
      (provider payment_id : Identity)
      → find_by_id log id ≡ some row
      → events_of (list_by_payment (put id (with_status to row) log) provider payment_id)
        ≡ events_of (list_by_payment log provider payment_id)
  unfolding find_by_id put list_by_payment
  list_by_payment-put [] row to provider payment_id h = refl
  list_by_payment-put (r ∷ log) row to provider payment_id h = elim (Bool-cases (str_eq r.id id)) [
    | inl s ↦
        let same_row : some r ≡ some row = rw s at h in
        let first : r ≡ row = cc in
        rw s (
          subst
            (λ x.
              events_of (list_by_payment (with_status to x ∷ log) provider payment_id)
              ≡ events_of (list_by_payment (r ∷ log) provider payment_id))
            first (restated-events log r to provider payment_id))
    | inr s ↦
        let rest = list_by_payment-put log row to provider payment_id (rw s at h) in
        rw s
          (elim (Bool-cases
            (same r.event.provider provider && same r.event.payment_id payment_id)) [
              | inl f ↦ rw f (ap (r.event ∷◌) rest)
              | inr f ↦ rw f rest
            ])
  ]

  pub process_payment_events-put :
      (log : EventLog) (row : StoredWebhookEvent) (to : WebhookProcessingStatus)
      (provider payment_id : Identity)
      → find_by_id log id ≡ some row
      → process_payment_events (put id (with_status to row) log) provider payment_id
        ≡ process_payment_events log provider payment_id
  unfolding process_payment_events
  process_payment_events-put log row to provider payment_id h =
      rw (list_by_payment-put log row to provider payment_id h) refl

  module _ (log : EventLog) (row : StoredWebhookEvent) (found : find_by_id log id ≡ some row) where
    -- A status change that is allowed.
    pub transition_done :
        (from : List WebhookProcessingStatus) (to : WebhookProcessingStatus)
        → (str_eq (status_label row.processing_status) (status_label to)
            && among from row.processing_status)
          ≡ false
        → among from row.processing_status ≡ true
        → transition log id from to ≡ ok (put id (with_status to row) log, with_status to row)
    unfolding transition change
    transition_done from to new allowed = rw (found, transition) (rw new (rw allowed refl))
