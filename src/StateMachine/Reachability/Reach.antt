-- ===== src/StateMachine/Reachability/Reach.antt =====
-- What the search finds, against the reachability relation.
use hookx.Prelude.{
  ◌≡◌, refl, ◌↔◌, true, false, Option, none, some, List, [], ◌∷◌, arith, String, any, Option-cases,
  find, ap, All, Bool-cases, inl, inr, subst,
}
use text.Mathlib.Text.{◌==◌ as str_eq}
use text.Mathlib.TextEquality.{eq_iff}
use hookx.Domain.{PaymentState, created, authorized, captured, failed, refunded}
use hookx.Webhook.{WebhookEventType}
use hookx.StateMachine.Table.{PaymentRecordState, state_label, lookup_transition}
use hookx.StateMachine.Table.Allowed.{
  Allowed, moves, create, authorize, refuse, capture, fail, refund, lookup_transition_iff,
}
use hookx.StateMachine.Reachability.{
  possible, state_same, has, reachable_states, is_eventually_possible,
}

-- A payment in the first state can come to the second by allowed transitions.
pub data Reach : PaymentRecordState → PaymentRecordState → Type 0 where
  here : {s : PaymentRecordState} → Reach s s
  next :
      {s u : PaymentRecordState} {t : WebhookEventType} {to : PaymentState}
      → Allowed s t to
      → Reach (some to) u
      → Reach s u

-- The states below, by cases.
abbrev later : PaymentRecordState → List PaymentRecordState
later none =
    none ∷ some created ∷ some authorized ∷ some failed ∷ some captured ∷ some refunded ∷ []
later (some created) =
    some created ∷ some authorized ∷ some failed ∷ some captured ∷ some refunded ∷ []
later (some authorized) = some authorized ∷ some captured ∷ some failed ∷ some refunded ∷ []
later (some captured) = some captured ∷ some refunded ∷ []
later (some failed) = some failed ∷ []
later (some refunded) = some refunded ∷ []

reachable_states-later : (s : PaymentRecordState) → reachable_states s ≡ later s
unfolding reachable_states
reachable_states-later none = refl
reachable_states-later (some created) = refl
reachable_states-later (some authorized) = refl
reachable_states-later (some captured) = refl
reachable_states-later (some failed) = refl
reachable_states-later (some refunded) = refl

-- Every state, to find one by its label.
abbrev states : List PaymentRecordState
states = none ∷ some created ∷ some authorized ∷ some captured ∷ some failed ∷ some refunded ∷ []

labelled : String → Option PaymentRecordState
labelled text = find (λ s. str_eq (state_label s) text) states

labelled_lem : (s : PaymentRecordState) → labelled (state_label s) ≡ some s
unfolding labelled
labelled_lem none = refl
labelled_lem (some created) = refl
labelled_lem (some authorized) = refl
labelled_lem (some captured) = refl
labelled_lem (some failed) = refl
labelled_lem (some refunded) = refl

pub state_same_iff : (a b : PaymentRecordState) → (state_same a b ≡ true) ↔ (a ≡ b)
unfolding state_same
state_same_iff a b = (
  λ h. cc (labelled_lem a, labelled_lem b, ap labelled ((eq_iff _ _).0 h)),
  λ e. (eq_iff _ _).1 (ap state_label e),
)

All_of_has :
    (P : PaymentRecordState → Type 0) (xs : List PaymentRecordState) (u : PaymentRecordState)
    → All P xs
    → has xs u ≡ true
    → P u
unfolding has
All_of_has P [] u h k = cc
All_of_has P (x ∷ xs) u h k = elim (Bool-cases (state_same x u)) [
  | inl same ↦ subst P ((state_same_iff x u).0 same) h.0
  | inr other ↦ All_of_has P xs u h.1 (rw other at k)
]

later-Reach : (s : PaymentRecordState) → All (Reach s) (later s)
later-Reach none = search (here, next, moves)
later-Reach (some created) = search (here, next, moves)
later-Reach (some authorized) = search (here, next, moves)
later-Reach (some captured) = search (here, next, moves)
later-Reach (some failed) = (here, tt)
later-Reach (some refunded) = (here, tt)

later_step :
    {s : PaymentRecordState} {t : WebhookEventType} {to : PaymentState}
    → Allowed s t to
    → All (λ u. has (later s) u ≡ true) (later (some to))
unfolding has state_same
later_step create = (refl, (refl, (refl, (refl, (refl, tt)))))
later_step authorize = (refl, (refl, (refl, (refl, tt))))
later_step refuse = (refl, tt)
later_step capture = (refl, (refl, tt))
later_step fail = (refl, tt)
later_step refund = (refl, tt)

later_self : (s : PaymentRecordState) → has (later s) s ≡ true
unfolding has state_same
later_self none = refl
later_self (some created) = refl
later_self (some authorized) = refl
later_self (some captured) = refl
later_self (some failed) = refl
later_self (some refunded) = refl

later_complete : {s u : PaymentRecordState} → Reach s u → has (later s) u ≡ true
later_complete {s} here = later_self s
later_complete {s} {u} (next {to} a r) =
    All_of_has (λ v. has (later s) v ≡ true) (later (some to)) u (later_step a) (later_complete r)

-- The search finds exactly the states that a payment can come to by allowed transitions.
pub reachable_states_iff :
    (s u : PaymentRecordState) → (has (reachable_states s) u ≡ true) ↔ Reach s u
reachable_states_iff s u =
    rw (reachable_states-later s) (All_of_has (Reach s) (later s) u (later-Reach s), later_complete)

has_self : (xs : List PaymentRecordState) (u : PaymentRecordState) → has (u ∷ xs) u ≡ true
unfolding has
has_self xs u = rw ((state_same_iff u u).1 refl) refl

any-possible :
    (t : WebhookEventType) (xs : List PaymentRecordState)
    → any (possible t) xs ≡ true
    → (u : PaymentRecordState) × (has xs u ≡ true) × (possible t u ≡ true)
unfolding has
any-possible t [] h = cc
any-possible t (x ∷ xs) h = elim (Bool-cases (possible t x)) [
  | inl here_ ↦ (x, has_self xs x, here_)
  | inr not_here ↦ later_found (any-possible t xs (rw not_here at h))
]
  where
    later_found :
        (u : PaymentRecordState) × (has xs u ≡ true) × (possible t u ≡ true)
        → (u : PaymentRecordState) × (has (x ∷ xs) u ≡ true) × (possible t u ≡ true)
    later_found (u, inside, can) = (u, ground arith, can)

possible-any :
    (t : WebhookEventType) (xs : List PaymentRecordState) (u : PaymentRecordState)
    → has xs u ≡ true
    → possible t u ≡ true
    → any (possible t) xs ≡ true
unfolding has
possible-any t [] u h k = cc
possible-any t (x ∷ xs) u h k = elim (Bool-cases (state_same x u)) [
  | inl same ↦ let e = (state_same_iff x u).0 same in ground arith
  | inr other ↦ ground (arith, possible-any t xs u (rw other at h) k)
]

possible_iff :
    (t : WebhookEventType) (u : PaymentRecordState)
    → (possible t u ≡ true) ↔ ((to : PaymentState) × Allowed u t to)
unfolding possible
possible_iff t u = elim (Option-cases (lookup_transition u t)) [
  | inl e ↦ (
    λ h. let bad : false ≡ true = rw (e, possible) at h in cc,
    λ (to, a). let found = (lookup_transition_iff u t to).1 a in cc,
  )
  | inr (to, e) ↦ (λ h. (to, (lookup_transition_iff u t to).0 e), λ a. rw (e, possible) refl)
]

-- An event type is eventually possible from a state exactly when a state that can be reached has
-- a transition on it.
pub is_eventually_possible_iff :
    (s : PaymentRecordState) (t : WebhookEventType)
    → (is_eventually_possible s t ≡ true)
      ↔ ((u : PaymentRecordState) × (to : PaymentState) × Reach s u × Allowed u t to)
unfolding is_eventually_possible
is_eventually_possible_iff s t = (
  λ h.
      let (u, inside, can) = any-possible t (reachable_states s) h in
      let (to, a) = (possible_iff t u).0 can in (u, to, (reachable_states_iff s u).0 inside, a),
  λ (u, to, r, a).
      possible-any t (reachable_states s) u ((reachable_states_iff s u).1 r)
        ((possible_iff t u).1 (to, a)),
)
