-- ===== src/StateMachine/Order.antt =====
-- packages/state-machine/src/order-events.ts.
use hookx.Prelude.{
  ◌≡◌, Ordering, arith, List, then, lex, lex_eq, sort, IsComparison, IsComparison-then,
}
use hookx.Webhook.{NormalizedWebhookEvent}
use hookx.Webhook.Identity.{event_identity_key}
use hookx.StateMachine.Instants.{instant_sort_key, compare_instant}

-- By time of occurrence, and then by the identity key.
unfoldable pub compare_webhook_events : NormalizedWebhookEvent → NormalizedWebhookEvent → Ordering
unfolding compare_instant
compare_webhook_events left right =
    then (compare_instant left.occurred_at right.occurred_at)
      (lex (event_identity_key left) (event_identity_key right))

-- The source breaks ties by the index in the input, which makes the sort stable.
unfoldable pub order_webhook_events : List NormalizedWebhookEvent → List NormalizedWebhookEvent
order_webhook_events events = sort compare_webhook_events events

pub compare_webhook_events-IsComparison : IsComparison compare_webhook_events
unfolding compare_webhook_events
compare_webhook_events-IsComparison =
    IsComparison-then (λ (e : NormalizedWebhookEvent). instant_sort_key e.occurred_at)
      event_identity_key

then_eq : (o p : Ordering) → then o p ≡ Ordering.eq → p ≡ Ordering.eq
then_eq o p h = ground arith

-- Events that compare as equal have the same identity key.
pub compare_webhook_events_key :
    (left right : NormalizedWebhookEvent)
    → compare_webhook_events left right ≡ Ordering.eq
    → event_identity_key left ≡ event_identity_key right
unfolding compare_webhook_events
compare_webhook_events_key left right h = lex_eq _ _ (then_eq _ _ h)
