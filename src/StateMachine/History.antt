-- ===== src/StateMachine/History.antt =====
-- packages/state-machine/src/history.ts and payment.ts.
use hookx.Prelude.{ℕ, Bool, Option, List, [], ◌∷◌, ◌++◌, find}
use hookx.Domain.{PaymentState, Identity, IsoCurrencyCode, Instant, codes, text_eq}
use hookx.Webhook.{WebhookEventType, NormalizedWebhookEvent, type_label}
use hookx.Webhook.Identity.{event_identity_key}
use hookx.Webhook.Json.{json_string}
use hookx.Webhook.Decimal.{decimal}

pub record EventMaterial : Type 0 where
  pub payment_id : Identity
  pub event_type : WebhookEventType
  pub occurred_at : Instant
  pub amount_minor : ℕ
  pub currency : IsoCurrencyCode
  pub payload_hash : Identity

pub record ProcessedEventRecord : Type 0 where
  pub identity_key : List ℕ
  pub material : EventMaterial

abbrev pub ProcessingHistory : Type 0
ProcessingHistory = List ProcessedEventRecord

unfoldable pub event_material : NormalizedWebhookEvent → EventMaterial
event_material source = record {
  payment_id = source.payment_id;
  event_type = source.event_type;
  occurred_at = source.occurred_at;
  amount_minor = source.amount_minor;
  currency = source.currency;
  payload_hash = source.payload_hash;
}

unfoldable pub record_processed_event : NormalizedWebhookEvent → ProcessedEventRecord
record_processed_event event = record {
  identity_key = event_identity_key event;
  material = event_material event;
}

unfoldable pub with_processed_event : ProcessingHistory → NormalizedWebhookEvent → ProcessingHistory
unfolding record_processed_event
with_processed_event history event = history ++ record_processed_event event ∷ []

unfoldable pub find_processed_event : ProcessingHistory → List ℕ → Option ProcessedEventRecord
find_processed_event history identity_key = find (λ r. text_eq r.identity_key identity_key) history

-- A member of a JSON object, and what follows it.
abbrev member : List ℕ → List ℕ → List ℕ → List ℕ
member name value rest = json_string name (58 ∷ json_string value rest)

-- `JSON.stringify` of the six members, by its code units.
unfoldable pub material_fingerprint : EventMaterial → List ℕ
material_fingerprint m =
    123
    ∷ member (codes "paymentId") (codes m.payment_id.text) (
        44
        ∷ member (codes "eventType") (codes (type_label m.event_type)) (
            44
            ∷ member (codes "occurredAt") (codes m.occurred_at.text) (
                44
                ∷ member (codes "amountMinor") (decimal m.amount_minor) (
                    44
                    ∷ member (codes "currency") (codes m.currency.text) (
                        44
                        ∷ member (codes "payloadHash") (codes m.payload_hash.text) (125 ∷ []))))))

unfoldable pub events_materially_equal : EventMaterial → EventMaterial → Bool
unfolding material_fingerprint
events_materially_equal left right =
    text_eq (material_fingerprint left) (material_fingerprint right)

pub record Payment : Type 0 where
  pub payment_id : Identity
  pub state : PaymentState
  pub amount_minor : ℕ
  pub currency : IsoCurrencyCode
  pub last_occurred_at : Instant

-- `createPayment`. `money` accepts the amount and the currency, which are valid by their types.
unfoldable pub create_payment : Identity → PaymentState → ℕ → IsoCurrencyCode → Instant → Payment
create_payment payment_id state amount_minor currency last_occurred_at = record {
  payment_id = payment_id;
  state = state;
  amount_minor = amount_minor;
  currency = currency;
  last_occurred_at = last_occurred_at;
}
