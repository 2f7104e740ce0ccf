-- ===== src/Storage/Events/Marks.antt =====
-- The status changes of the log follow the guards of status.ts.
use hookx.Prelude.{
  String, ◌≡◌, refl, ◌↔◌, Bool, true, false, ◌&&◌, not, some, List, [], ◌∷◌, if◌then◌else◌,
}
use hookx.Domain.{ok, err}
use hookx.Storage.Status.{
  WebhookProcessingStatus, received, processing, processed, rejected, conflict, among,
  can_mark_processing, can_mark_processed, can_mark_rejected, can_mark_conflict,
}
use hookx.Storage.Events.{
  StoredWebhookEvent, EventLog, find_by_id, change, transition, mark_processing, mark_processed,
  mark_rejected, mark_conflict,
}

refused_iff {ℓ} :
    {A : Type ℓ} (a b : Bool) (e : String) (x y : A)
    → ((if a && b then ok x else (if not b then err e else ok y)) ≡ err e) ↔ (b ≡ false)
refused_iff true true e x y = (λ h. cc, λ h. cc)
refused_iff false true e x y = (λ h. cc, λ h. cc)
refused_iff true false e x y = (λ h. refl, λ h. refl)
refused_iff false false e x y = (λ h. refl, λ h. refl)

module _ (log : EventLog) (id : String) (row : StoredWebhookEvent)
    (found : find_by_id log id ≡ some row) where
  -- A change of a stored event is refused exactly where its status is not among those allowed.
  transition_refused :
      (from : List WebhookProcessingStatus) (to : WebhookProcessingStatus)
      → (transition log id from to ≡ err "INVALID_STATUS_TRANSITION")
        ↔ (among from row.processing_status ≡ false)
  unfolding transition change
  transition_refused from to = rw (found, transition) (refused_iff _ _ _ _ _)

  -- For a stored event each of the four marks is refused exactly where its guard of status.ts says
  -- no.
  pub marks_guarded :
      ((mark_processing log id ≡ err "INVALID_STATUS_TRANSITION")
        ↔ (can_mark_processing row.processing_status ≡ false))
      × ((mark_processed log id ≡ err "INVALID_STATUS_TRANSITION")
          ↔ (can_mark_processed row.processing_status ≡ false))
      × ((mark_rejected log id ≡ err "INVALID_STATUS_TRANSITION")
          ↔ (can_mark_rejected row.processing_status ≡ false))
      × ((mark_conflict log id ≡ err "INVALID_STATUS_TRANSITION")
          ↔ (can_mark_conflict row.processing_status ≡ false))
  unfolding mark_processing mark_processed mark_rejected mark_conflict can_mark_processing
      can_mark_processed can_mark_rejected can_mark_conflict
  marks_guarded = (
    transition_refused (received ∷ []) processing,
    transition_refused (processing ∷ []) processed,
    transition_refused (processing ∷ []) rejected,
    transition_refused (received ∷ processing ∷ rejected ∷ conflict ∷ []) conflict,
  )
