-- ===== src/Storage/Events/Listing.antt =====
-- packages/storage/src/webhook-list.ts: the list of stored events for an operator.
use text.Mathlib.Text.{◌==◌ as str_eq}
use hookx.Prelude.{
  ℕ, String, Ordering, Bool, true, ◌&&◌, ◌||◌, Option, none, some, List, keep, take, sort, then,
  lex,
}
use hookx.Domain.{Identity, codes, same, includes}
use hookx.Webhook.{type_label}
use hookx.Storage.Status.{WebhookProcessingStatus, status_label}
use hookx.Storage.Events.{StoredWebhookEvent}

abbrev webhook_list_limit : ℕ
webhook_list_limit = 500

pub record WebhookListFilter : Type 0 where
  pub q : Option String
  pub event_type : Option String
  pub processing_status : Option WebhookProcessingStatus
  pub payment_id : Option Identity
  pub provider : Option Identity

-- `text === q || text.includes(q)`.
abbrev holds : String → String → Bool
holds text q = str_eq text q || includes (codes q) (codes text)

unfoldable pub matches_webhook_list_filter : StoredWebhookEvent → Option WebhookListFilter → Bool
unfolding includes
matches_webhook_list_filter row none = true
matches_webhook_list_filter row (some filter) =
    elim filter.provider [ none ↦ true | some wanted ↦ same row.event.provider wanted ]
    && elim filter.payment_id [ none ↦ true | some wanted ↦ same row.event.payment_id wanted ]
    && elim filter.event_type [
      | none ↦ true
      | some wanted ↦ str_eq (type_label row.event.event_type) wanted
    ]
    && elim filter.processing_status [
      | none ↦ true
      | some wanted ↦ str_eq (status_label row.processing_status) (status_label wanted)
    ]
    && elim filter.q [
      | none ↦ true
      | some q ↦
          holds row.id q
          || holds row.event.external_event_id.text q
          || holds row.event.payment_id.text q
    ]

-- The two arguments of the first comparison are in reverse.
unfoldable pub compare_webhooks_received_desc : StoredWebhookEvent → StoredWebhookEvent → Ordering
compare_webhooks_received_desc left right =
    (then) (lex (codes right.event.received_at.text) (codes left.event.received_at.text))
      (lex (codes left.id) (codes right.id))

unfoldable pub select_webhook_list :
    List StoredWebhookEvent → Option WebhookListFilter → List StoredWebhookEvent
unfolding matches_webhook_list_filter compare_webhooks_received_desc
select_webhook_list rows filter = take webhook_list_limit (
    sort compare_webhooks_received_desc (keep (λ row. matches_webhook_list_filter row filter) rows))
