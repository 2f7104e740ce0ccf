-- ===== src/StateMachine/Table/Allowed.antt =====
-- The transitions of a payment as a relation, and that the index looks up exactly these.
use hookx.Prelude.{◌≡◌, refl, ◌↔◌, Option, none, some, arith}
use hookx.Domain.{PaymentState, created, authorized, captured, failed, refunded}
use hookx.Webhook.{
  WebhookEventType, payment_created, payment_authorized, payment_captured, payment_failed,
  refund_created,
}
use hookx.StateMachine.Table.{PaymentRecordState, lookup_transition}

pub data Allowed : PaymentRecordState → WebhookEventType → PaymentState → Type 0 where
  create : Allowed none payment_created created
  authorize : Allowed (some created) payment_authorized authorized
  refuse : Allowed (some created) payment_failed failed
  capture : Allowed (some authorized) payment_captured captured
  fail : Allowed (some authorized) payment_failed failed
  refund : Allowed (some captured) refund_created refunded

pub ruleset moves = (create, authorize, refuse, capture, fail, refund)

-- The transitions by cases.
abbrev pub next : PaymentRecordState → WebhookEventType → Option PaymentState
next none payment_created = some created
next (some created) payment_authorized = some authorized
next (some created) payment_failed = some failed
next (some authorized) payment_captured = some captured
next (some authorized) payment_failed = some failed
next (some captured) refund_created = some refunded
next (some failed) payment_created = none
next (some refunded) payment_created = none
next _ _ = none

-- The index answers as the cases do.
pub lookup_transition_lem :
    (from : PaymentRecordState) (t : WebhookEventType) → lookup_transition from t ≡ next from t
unfolding lookup_transition
lookup_transition_lem none payment_created = refl
lookup_transition_lem (some created) payment_authorized = refl
lookup_transition_lem (some created) payment_failed = refl
lookup_transition_lem (some authorized) payment_captured = refl
lookup_transition_lem (some authorized) payment_failed = refl
lookup_transition_lem (some captured) refund_created = refl
lookup_transition_lem (some failed) payment_created = refl
lookup_transition_lem (some refunded) payment_created = refl
lookup_transition_lem _ _ = refl

next_sound :
    (from : PaymentRecordState) (t : WebhookEventType) (to : PaymentState)
    → next from t ≡ some to
    → Allowed from t to
next_sound from t to h = grind (arith, moves)

next_complete :
    {from : PaymentRecordState} {t : WebhookEventType} {to : PaymentState}
    → Allowed from t to
    → next from t ≡ some to
next_complete create = refl
next_complete authorize = refl
next_complete refuse = refl
next_complete capture = refl
next_complete fail = refl
next_complete refund = refl

-- The index that the code builds from the table answers a state and an event type with a next
-- state exactly when the relation has that transition.
pub lookup_transition_iff :
    (from : PaymentRecordState) (t : WebhookEventType) (to : PaymentState)
    → (lookup_transition from t ≡ some to) ↔ Allowed from t to
lookup_transition_iff from t to =
    rw (lookup_transition_lem from t) (next_sound from t to, next_complete)
