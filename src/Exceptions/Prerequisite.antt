-- ===== src/Exceptions/Prerequisite.antt =====
-- packages/exceptions/src/missing-prerequisite.ts.
pub mod Unique
use text.Mathlib.Text.{◌==◌ as str_eq}
use hookx.Prelude.{
  Bool, true, false, ◌&&◌, ◌||◌, not, Option, none, some, List, [], ◌∷◌, ◌++◌, map, keep, any,
  if◌then◌else◌,
}
use hookx.Domain.{PaymentState}
use hookx.Webhook.{WebhookEventType, type_label}
use hookx.StateMachine.Table.{PaymentRecordState, transition_table, lookup_transition}
use hookx.StateMachine.Reachability.{state_same, is_eventually_possible}

abbrev is_some {ℓ} : {A : Type ℓ} → Option A → Bool
is_some none = false
is_some (some a) = true

unfoldable pub type_same : WebhookEventType → WebhookEventType → Bool
type_same a b = str_eq (type_label a) (type_label b)

-- The test of a row's next state.
leads : WebhookEventType → PaymentState → Bool
leads delayed_event_type next =
    is_some (lookup_transition (some next) delayed_event_type)
    || is_eventually_possible (some next) delayed_event_type

-- The event types that the `for` loop pushes.
enabling : PaymentRecordState → WebhookEventType → List WebhookEventType
unfolding leads
enabling from delayed_event_type =
    map (λ r. r.event_type)
      (keep (λ r. state_same r.from from && leads delayed_event_type r.to) transition_table)

-- `[...new Set(list)]`, from the elements that are in already.
distinct : List WebhookEventType → List WebhookEventType → List WebhookEventType
unfolding type_same
distinct seen [] = seen
distinct seen (t ∷ ts) =
    let added = distinct (seen ++ t ∷ []) ts in
    let kept = distinct seen ts in if any (λ s. type_same s t) seen then kept else added

only : List WebhookEventType → Option WebhookEventType
only (t ∷ []) = some t
only _ = none

unfoldable pub unique_missing_prerequisite :
    PaymentRecordState → WebhookEventType → Option WebhookEventType
unfolding enabling distinct only
unique_missing_prerequisite from delayed_event_type =
    if is_some (lookup_transition from delayed_event_type)
    then none
    else (if not (is_eventually_possible from delayed_event_type)
        then none
        else only (distinct [] (enabling from delayed_event_type)))
