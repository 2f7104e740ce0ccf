-- ===== src/Exceptions/Prerequisite/Unique.antt =====
-- When an event has one missing predecessor.
use hookx.Prelude.{◌≡◌, refl, sym, ◌∙◌, subst, ◌↔◌, true, Option, none, some}
use hookx.Domain.{PaymentState, created, authorized, captured, failed, refunded}
use hookx.Webhook.{
  WebhookEventType, payment_created, payment_authorized, payment_captured, payment_failed,
  refund_created,
}
use hookx.StateMachine.Table.{PaymentRecordState, lookup_transition}
use hookx.StateMachine.Table.Allowed.{
  lookup_transition_iff, Allowed, create, authorize, refuse, capture, fail, refund,
}
use hookx.StateMachine.Reachability.{is_eventually_possible}
use hookx.StateMachine.Reachability.Reach.{Reach, is_eventually_possible_iff}
use hookx.Exceptions.Prerequisite.{unique_missing_prerequisite}

-- The missing predecessor of an event type in each state.
abbrev missing : PaymentRecordState → WebhookEventType → Option WebhookEventType
missing none payment_created = none
missing none _ = some payment_created
missing (some created) payment_captured = some payment_authorized
missing (some created) refund_created = some payment_authorized
missing (some authorized) refund_created = some payment_captured
missing _ _ = none

missing_lem :
    (from : PaymentRecordState) (t : WebhookEventType)
    → unique_missing_prerequisite from t ≡ missing from t
unfolding unique_missing_prerequisite lookup_transition is_eventually_possible
missing_lem none payment_created = refl
missing_lem none payment_authorized = refl
missing_lem none payment_captured = refl
missing_lem none payment_failed = refl
missing_lem none refund_created = refl
missing_lem (some created) payment_created = refl
missing_lem (some created) payment_authorized = refl
missing_lem (some created) payment_captured = refl
missing_lem (some created) payment_failed = refl
missing_lem (some created) refund_created = refl
missing_lem (some authorized) payment_created = refl
missing_lem (some authorized) payment_authorized = refl
missing_lem (some authorized) payment_captured = refl
missing_lem (some authorized) payment_failed = refl
missing_lem (some authorized) refund_created = refl
missing_lem (some captured) payment_created = refl
missing_lem (some captured) payment_authorized = refl
missing_lem (some captured) payment_captured = refl
missing_lem (some captured) payment_failed = refl
missing_lem (some captured) refund_created = refl
missing_lem (some failed) payment_created = refl
missing_lem (some failed) payment_authorized = refl
missing_lem (some failed) payment_captured = refl
missing_lem (some failed) payment_failed = refl
missing_lem (some failed) refund_created = refl
missing_lem (some refunded) payment_created = refl
missing_lem (some refunded) payment_authorized = refl
missing_lem (some refunded) payment_captured = refl
missing_lem (some refunded) payment_failed = refl
missing_lem (some refunded) refund_created = refl

-- The event type can apply at the state, or later.
abbrev CanApply : PaymentRecordState → WebhookEventType → Type 0
CanApply s t = (u : PaymentRecordState) × (to : PaymentState) × Reach s u × Allowed u t to

-- The events of a type wait for one event, of another type: they cannot apply now, that event can,
-- they can apply after it, and no other event leads to where they can.
pub record Waits (from : PaymentRecordState) (t m : WebhookEventType) : Type 0 where
  pub blocked : (to : PaymentState) → ¬ Allowed from t to
  pub after : PaymentState
  pub first : Allowed from m after
  pub leads : CanApply (some after) t
  pub only :
      (other : WebhookEventType) (to : PaymentState)
      → Allowed from other to
      → CanApply (some to) t
      → other ≡ m

missing_of :
    {from : PaymentRecordState} {m : WebhookEventType} {after : PaymentState} (t : WebhookEventType)
    → Allowed from m after
    → ((to : PaymentState) → ¬ Allowed from t to)
    → is_eventually_possible (some after) t ≡ true
    → missing from t ≡ some m
unfolding is_eventually_possible lookup_transition
missing_of payment_created create b l = absurd (b created create)
missing_of payment_authorized create b l = refl
missing_of payment_captured create b l = refl
missing_of payment_failed create b l = refl
missing_of refund_created create b l = refl
missing_of payment_created authorize b l = cc
missing_of payment_authorized authorize b l = absurd (b authorized authorize)
missing_of payment_captured authorize b l = refl
missing_of payment_failed authorize b l = absurd (b failed refuse)
missing_of refund_created authorize b l = refl
missing_of payment_created refuse b l = cc
missing_of payment_authorized refuse b l = absurd (b authorized authorize)
missing_of payment_captured refuse b l = cc
missing_of payment_failed refuse b l = absurd (b failed refuse)
missing_of refund_created refuse b l = cc
missing_of payment_created capture b l = cc
missing_of payment_authorized capture b l = cc
missing_of payment_captured capture b l = absurd (b captured capture)
missing_of payment_failed capture b l = absurd (b failed fail)
missing_of refund_created capture b l = refl
missing_of payment_created fail b l = cc
missing_of payment_authorized fail b l = cc
missing_of payment_captured fail b l = absurd (b captured capture)
missing_of payment_failed fail b l = absurd (b failed fail)
missing_of refund_created fail b l = cc
missing_of payment_created refund b l = cc
missing_of payment_authorized refund b l = cc
missing_of payment_captured refund b l = cc
missing_of payment_failed refund b l = cc
missing_of refund_created refund b l = absurd (b refunded refund)

only_missing :
    {from : PaymentRecordState} {other : WebhookEventType} {to : PaymentState}
    (t m : WebhookEventType)
    → missing from t ≡ some m
    → Allowed from other to
    → is_eventually_possible (some to) t ≡ true
    → other ≡ m
unfolding is_eventually_possible lookup_transition
only_missing payment_created m h create l = cc
only_missing payment_authorized m h create l = cc
only_missing payment_captured m h create l = cc
only_missing payment_failed m h create l = cc
only_missing refund_created m h create l = cc
only_missing payment_created m h authorize l = cc
only_missing payment_authorized m h authorize l = cc
only_missing payment_captured m h authorize l = cc
only_missing payment_failed m h authorize l = cc
only_missing refund_created m h authorize l = cc
only_missing payment_created m h refuse l = cc
only_missing payment_authorized m h refuse l = cc
only_missing payment_captured m h refuse l = cc
only_missing payment_failed m h refuse l = cc
only_missing refund_created m h refuse l = cc
only_missing payment_created m h capture l = cc
only_missing payment_authorized m h capture l = cc
only_missing payment_captured m h capture l = cc
only_missing payment_failed m h capture l = cc
only_missing refund_created m h capture l = cc
only_missing payment_created m h fail l = cc
only_missing payment_authorized m h fail l = cc
only_missing payment_captured m h fail l = cc
only_missing payment_failed m h fail l = cc
only_missing refund_created m h fail l = cc
only_missing payment_created m h refund l = cc
only_missing payment_authorized m h refund l = cc
only_missing payment_captured m h refund l = cc
only_missing payment_failed m h refund l = cc
only_missing refund_created m h refund l = cc

module _ {from : PaymentRecordState} {t m : WebhookEventType} {after : PaymentState} where
  waiting :
      lookup_transition from t ≡ none
      → Allowed from m after
      → is_eventually_possible (some after) t ≡ true
      → missing from t ≡ some m
      → Waits from t m
  waiting none_now first possible_after h = record {
    blocked = λ to a. let found = (lookup_transition_iff from t to).1 a in cc;
    after = after;
    first = first;
    leads = (is_eventually_possible_iff (some after) t).0 possible_after;
    only = λ other to a l. only_missing t m h a ((is_eventually_possible_iff (some to) t).1 l);
  }

some_eq : {m n : WebhookEventType} → some m ≡ some n → m ≡ n
some_eq h = cc

missing-Waits :
    (from : PaymentRecordState) (t m : WebhookEventType) → missing from t ≡ some m → Waits from t m
unfolding is_eventually_possible lookup_transition
missing-Waits none payment_created m h = cc
missing-Waits none payment_authorized m h =
    subst (Waits none payment_authorized) (some_eq h) (waiting refl create refl refl)
missing-Waits none payment_captured m h =
    subst (Waits none payment_captured) (some_eq h) (waiting refl create refl refl)
missing-Waits none payment_failed m h =
    subst (Waits none payment_failed) (some_eq h) (waiting refl create refl refl)
missing-Waits none refund_created m h =
    subst (Waits none refund_created) (some_eq h) (waiting refl create refl refl)
missing-Waits (some created) payment_created m h = cc
missing-Waits (some created) payment_authorized m h = cc
missing-Waits (some created) payment_captured m h =
    subst (Waits (some created) payment_captured) (some_eq h) (waiting refl authorize refl refl)
missing-Waits (some created) payment_failed m h = cc
missing-Waits (some created) refund_created m h =
    subst (Waits (some created) refund_created) (some_eq h) (waiting refl authorize refl refl)
missing-Waits (some authorized) payment_created m h = cc
missing-Waits (some authorized) payment_authorized m h = cc
missing-Waits (some authorized) payment_captured m h = cc
missing-Waits (some authorized) payment_failed m h = cc
missing-Waits (some authorized) refund_created m h =
    subst (Waits (some authorized) refund_created) (some_eq h) (waiting refl capture refl refl)
missing-Waits (some captured) payment_created m h = cc
missing-Waits (some captured) payment_authorized m h = cc
missing-Waits (some captured) payment_captured m h = cc
missing-Waits (some captured) payment_failed m h = cc
missing-Waits (some captured) refund_created m h = cc
missing-Waits (some failed) payment_created m h = cc
missing-Waits (some failed) payment_authorized m h = cc
missing-Waits (some failed) payment_captured m h = cc
missing-Waits (some failed) payment_failed m h = cc
missing-Waits (some failed) refund_created m h = cc
missing-Waits (some refunded) payment_created m h = cc
missing-Waits (some refunded) payment_authorized m h = cc
missing-Waits (some refunded) payment_captured m h = cc
missing-Waits (some refunded) payment_failed m h = cc
missing-Waits (some refunded) refund_created m h = cc

-- The code names a missing predecessor of an event type exactly when events of that type wait for
-- it and for nothing else.
pub unique_missing_prerequisite_iff :
    (from : PaymentRecordState) (t m : WebhookEventType)
    → (unique_missing_prerequisite from t ≡ some m) ↔ Waits from t m
unique_missing_prerequisite_iff from t m = (
  λ h. missing-Waits from t m (sym (missing_lem from t) ∙ h),
  λ w.
      missing_lem from t
      ∙ missing_of t w.first w.blocked ((is_eventually_possible_iff (some w.after) t).1 w.leads),
)
