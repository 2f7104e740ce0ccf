-- ===== src/StateMachine/Table.antt =====
-- packages/state-machine/src/transition-table.ts: the published transitions and their index.
pub mod Allowed
use text.Mathlib.Text.{◌==◌ as str_eq}
use Prim.Native.String.{◌++◌ as append}
use hookx.Prelude.{String, ◌≡◌, Option, none, some, List, [], ◌∷◌, map, if◌then◌else◌}
use hookx.Domain.{PaymentState, created, authorized, captured, failed, refunded, label}
use hookx.Webhook.{
  WebhookEventType, payment_created, payment_authorized, payment_captured, payment_failed,
  refund_created, type_label,
}

-- `null` is a payment with no record.
abbrev pub PaymentRecordState : Type 0
PaymentRecordState = Option PaymentState

pub record AllowedTransition : Type 0 where
  pub from : PaymentRecordState
  pub event_type : WebhookEventType
  pub to : PaymentState

abbrev row : PaymentRecordState → WebhookEventType → PaymentState → AllowedTransition
row from event_type to = record { from = from; event_type = event_type; to = to }

unfoldable pub transition_table : List AllowedTransition
transition_table =
    row none payment_created created
    ∷ row (some created) payment_authorized authorized
    ∷ row (some created) payment_failed failed
    ∷ row (some authorized) payment_captured captured
    ∷ row (some authorized) payment_failed failed
    ∷ row (some captured) refund_created refunded
    ∷ []

abbrev pub state_label : PaymentRecordState → String
state_label none = "NONE"
state_label (some s) = label s

unfoldable pub table_key : PaymentRecordState → WebhookEventType → String
table_key from event_type = append (state_label from) (append "|" (type_label event_type))

-- `new Map(entries).get(key)`: the last entry with the key counts.
map_get : String → List (String × PaymentState) → Option PaymentState
map_get key [] = none
map_get key ((k, v) ∷ entries) = elim (map_get key entries) [
  | none ↦ if str_eq k key then some v else none
  | some later ↦ some later
]

unfoldable pub transition_index : List (String × PaymentState)
unfolding table_key transition_table
transition_index = map (λ r. (table_key r.from r.event_type, r.to)) transition_table

unfoldable pub lookup_transition : PaymentRecordState → WebhookEventType → Option PaymentState
unfolding map_get transition_index table_key
lookup_transition from event_type = map_get (table_key from event_type) transition_index
