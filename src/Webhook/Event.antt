-- ===== src/Webhook/Event.antt =====
-- packages/webhook/src/event.ts and event-type.ts.
use text.Mathlib.Text.{◌==◌ as str_eq}
use hookx.Prelude.{ℕ, String, Option, none, some, List, [], ◌∷◌, find}
use hookx.Prelude.Int.{ℤ, pos, negsuc}
use hookx.Domain.{
  Result, ok, err, ◌>>=◌, Identity, IsoCurrencyCode, Instant, identity, iso_currency_code, instant,
}

pub data WebhookEventType : Type 0 where
  payment_created payment_authorized payment_captured payment_failed refund_created :
      WebhookEventType

abbrev pub webhook_event_types : List WebhookEventType
webhook_event_types =
    payment_created ∷ payment_authorized ∷ payment_captured ∷ payment_failed ∷ refund_created ∷ []

abbrev pub type_label : WebhookEventType → String
type_label payment_created = "payment.created"
type_label payment_authorized = "payment.authorized"
type_label payment_captured = "payment.captured"
type_label payment_failed = "payment.failed"
type_label refund_created = "refund.created"

-- `isWebhookEventType`, with the type that the text names.
unfoldable pub webhook_event_type : String → Option WebhookEventType
webhook_event_type value = find (λ t. str_eq (type_label t) value) webhook_event_types

-- An amount is a `bigint` that is not negative: `create_normalized_webhook_event` refuses others.
pub record NormalizedWebhookEvent : Type 0 where
  pub provider : Identity
  pub external_event_id : Identity
  pub payment_id : Identity
  pub event_type : WebhookEventType
  pub occurred_at : Instant
  pub received_at : Instant
  pub amount_minor : ℕ
  pub currency : IsoCurrencyCode
  pub payload_hash : Identity

pub record NormalizedWebhookEventInput : Type 0 where
  pub provider : String
  pub external_event_id : String
  pub payment_id : String
  pub event_type : String
  pub occurred_at : String
  pub received_at : String
  pub amount_minor : ℤ
  pub currency : String
  pub payload_hash : String

natural : ℤ → Result ℕ
natural (pos n) = ok n
natural (negsuc n) = err "MONEY_AMOUNT_NEGATIVE"

known_type : Option WebhookEventType → Result WebhookEventType
known_type none = err "UNKNOWN_EVENT_TYPE"
known_type (some t) = ok t

unfoldable pub create_normalized_webhook_event :
    NormalizedWebhookEventInput → Result NormalizedWebhookEvent
unfolding natural known_type
create_normalized_webhook_event input = do
  amount ← natural input.amount_minor
  type ← known_type (webhook_event_type input.event_type)
  provider ← identity input.provider
  event_id ← identity input.external_event_id
  payment ← identity input.payment_id
  occurred ← instant input.occurred_at
  received ← instant input.received_at
  code ← iso_currency_code input.currency
  hash ← identity input.payload_hash
  ok (record {
    provider = provider;
    external_event_id = event_id;
    payment_id = payment;
    event_type = type;
    occurred_at = occurred;
    received_at = received;
    amount_minor = amount;
    currency = code;
    payload_hash = hash;
  })
