-- ===== src/Storage/Status.antt =====
-- packages/storage/src/status.ts: the processing status of a stored webhook event.
use text.Mathlib.Text.{◌==◌ as str_eq}
use hookx.Prelude.{String, Bool, List, [], ◌∷◌, any}

pub data WebhookProcessingStatus : Type 0 where
  received processing processed rejected conflict : WebhookProcessingStatus

abbrev pub status_label : WebhookProcessingStatus → String
status_label received = "RECEIVED"
status_label processing = "PROCESSING"
status_label processed = "PROCESSED"
status_label rejected = "REJECTED"
status_label conflict = "CONFLICT"

-- `Set.prototype.has`.
unfoldable pub among : List WebhookProcessingStatus → WebhookProcessingStatus → Bool
among statuses status = any (λ s. str_eq (status_label s) (status_label status)) statuses

unfoldable pub can_mark_processing : WebhookProcessingStatus → Bool
unfolding among
can_mark_processing = among (received ∷ [])

unfoldable pub can_mark_processed : WebhookProcessingStatus → Bool
unfolding among
can_mark_processed = among (processing ∷ [])

unfoldable pub can_mark_rejected : WebhookProcessingStatus → Bool
unfolding among
can_mark_rejected = among (processing ∷ [])

unfoldable pub can_mark_conflict : WebhookProcessingStatus → Bool
unfolding among
can_mark_conflict = among (received ∷ processing ∷ rejected ∷ conflict ∷ [])
