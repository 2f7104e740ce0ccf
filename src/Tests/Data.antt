-- ===== src/Tests/Data.antt =====
-- Three deliveries of one payment, and what the tests share.
use hookx.Prelude.{◌≡◌, refl, true}
use hookx.Domain.{Identity, IsoCurrencyCode, Instant, is_identity, is_currency, is_instant}
use hookx.Webhook.{NormalizedWebhookEvent, WebhookEventType, payment_created, payment_authorized}
use hookx.StateMachine.Decisions.{ReplayScope}

pub razorpay_checked : is_identity "razorpay" ≡ true
unfolding is_identity
razorpay_checked = refl

abbrev pub razorpay : Identity
razorpay = record { text = "razorpay"; checked = razorpay_checked }

pub pay_1_checked : is_identity "pay_1" ≡ true
unfolding is_identity
pay_1_checked = refl

abbrev pub pay_1 : Identity
pay_1 = record { text = "pay_1"; checked = pay_1_checked }

pub evt_1_checked : is_identity "evt_1" ≡ true
unfolding is_identity
evt_1_checked = refl

abbrev pub evt_1 : Identity
evt_1 = record { text = "evt_1"; checked = evt_1_checked }

pub evt_2_checked : is_identity "evt_2" ≡ true
unfolding is_identity
evt_2_checked = refl

abbrev pub evt_2 : Identity
evt_2 = record { text = "evt_2"; checked = evt_2_checked }

pub inr_checked : is_currency "INR" ≡ true
unfolding is_currency
inr_checked = refl

abbrev pub inr_code : IsoCurrencyCode
inr_code = record { text = "INR"; checked = inr_checked }

pub noon_checked : is_instant "2026-01-01T12:00:00Z" ≡ true
unfolding is_instant
noon_checked = refl

abbrev pub noon : Instant
noon = record { text = "2026-01-01T12:00:00Z"; checked = noon_checked }

pub later_checked : is_instant "2026-01-01T12:00:30.5Z" ≡ true
unfolding is_instant
later_checked = refl

abbrev pub later : Instant
later = record { text = "2026-01-01T12:00:30.5Z"; checked = later_checked }

-- Two times as `toISOString` writes them.
pub start_checked : is_instant "2026-01-01T12:00:00.000Z" ≡ true
unfolding is_instant
start_checked = refl

abbrev pub start : Instant
start = record { text = "2026-01-01T12:00:00.000Z"; checked = start_checked }

pub half_past_checked : is_instant "2026-01-01T12:00:30.500Z" ≡ true
unfolding is_instant
half_past_checked = refl

abbrev pub half_past : Instant
half_past = record { text = "2026-01-01T12:00:30.500Z"; checked = half_past_checked }

abbrev event : Identity → WebhookEventType → Instant → NormalizedWebhookEvent
event id type at = record {
  provider = razorpay;
  external_event_id = id;
  payment_id = pay_1;
  event_type = type;
  occurred_at = at;
  received_at = later;
  amount_minor = 4200;
  currency = inr_code;
  payload_hash = razorpay;
}

abbrev pub creation : NormalizedWebhookEvent
creation = event evt_1 payment_created noon

abbrev pub authorization : NormalizedWebhookEvent
authorization = event evt_2 payment_authorized later

abbrev pub scope : ReplayScope
scope = record { provider = razorpay; payment_id = pay_1 }
