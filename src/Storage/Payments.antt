-- ===== src/Storage/Payments.antt =====
-- packages/storage/src/payment: types.ts, from-replay.ts, list.ts and memory-payment-repository.ts,
-- the durable state of the payments.
pub mod Laws
use text.Mathlib.Text.{◌==◌ as str_eq}
use hookx.Prelude.{
  ℕ, String, Ordering, Bool, true, false, not, ◌&&◌, ◌||◌, Option, none, some, List, [], ◌∷◌, ◌++◌,
  find, keep, take, sort, then, lex, if◌then◌else◌,
}
use hookx.Domain.{
  PaymentState, state_eq, Identity, IsoCurrencyCode, Instant, codes, same, text_eq, includes,
}
use hookx.StateMachine.History.{Payment}
use hookx.StateMachine.Decisions.{accepted, ReplayDecision, ReplayResult}

pub record StoredPayment : Type 0 where
  pub provider : Identity
  pub payment_id : Identity
  pub state : PaymentState
  pub amount_minor : ℕ
  pub currency : IsoCurrencyCode
  pub last_occurred_at : Instant
  pub updated_at : Instant

abbrev stored_payment : Identity → Instant → Payment → StoredPayment
stored_payment provider updated_at payment = record {
  provider = provider;
  payment_id = payment.payment_id;
  state = payment.state;
  amount_minor = payment.amount_minor;
  currency = payment.currency;
  last_occurred_at = payment.last_occurred_at;
  updated_at = updated_at;
}

abbrev pub is_accepted : Option ReplayDecision → Bool
is_accepted none = false
is_accepted (some decision) = elim decision.decision [ accepted ↦ true | _ ↦ false ]

-- `undefined` is `none`.
unfoldable pub stored_payment_from_replay :
    Option ReplayResult → Option ReplayDecision → Identity → Instant → Option StoredPayment
stored_payment_from_replay none decision provider updated_at = none
stored_payment_from_replay (some replay) decision provider updated_at = elim replay.payment [
  | none ↦ none
  | some payment ↦
      if not (is_accepted decision) then none else some (stored_payment provider updated_at payment)
]

-- The field `records`.
abbrev pub PaymentStore : Type 0
PaymentStore = List StoredPayment

-- `${provider}\0${paymentId}`, by its code units.
unfoldable pub key : Identity → Identity → List ℕ
key provider payment_id = codes provider.text ++ 0 ∷ codes payment_id.text

unfoldable pub get : PaymentStore → Identity → Identity → Option StoredPayment
get records provider payment_id =
    find (λ (row : StoredPayment). same row.provider provider && same row.payment_id payment_id)
      records

unfoldable pub get_by_payment_id : PaymentStore → Identity → Option StoredPayment
get_by_payment_id records payment_id =
    find (λ (row : StoredPayment). same row.payment_id payment_id) records

-- The first row with the key is replaced; with none, the row comes last.
unfoldable pub upsert : PaymentStore → StoredPayment → PaymentStore
unfolding key
upsert [] next = next ∷ []
upsert (row ∷ records) next =
    let rest = upsert records next in
    if text_eq (key row.provider row.payment_id) (key next.provider next.payment_id)
    then next ∷ records
    else row ∷ rest

abbrev payment_list_limit : ℕ
payment_list_limit = 200

pub record PaymentListFilter : Type 0 where
  pub q : Option String
  pub provider : Option Identity
  pub state : Option PaymentState

-- `filter` is there; its three tests.
unfoldable pub matches_payment_list_filter : StoredPayment → Option PaymentListFilter → Bool
unfolding state_eq includes
matches_payment_list_filter row none = true
matches_payment_list_filter row (some filter) =
    elim filter.provider [ none ↦ true | some wanted ↦ same row.provider wanted ]
    && elim filter.state [ none ↦ true | some wanted ↦ state_eq row.state wanted ]
    && elim filter.q [
      | none ↦ true
      | some q ↦ str_eq row.payment_id.text q || includes (codes q) (codes row.payment_id.text)
    ]

abbrev compare_texts : String → String → Ordering
compare_texts left right = lex (codes left) (codes right)

-- The two arguments of the first comparison are in reverse.
unfoldable pub compare_payments_updated_desc : StoredPayment → StoredPayment → Ordering
compare_payments_updated_desc left right =
    (then) (compare_texts right.updated_at.text left.updated_at.text) (
      (then) (compare_texts left.payment_id.text right.payment_id.text)
        (compare_texts left.provider.text right.provider.text))

unfoldable pub select_payment_list : PaymentStore → Option PaymentListFilter → PaymentStore
unfolding matches_payment_list_filter compare_payments_updated_desc
select_payment_list rows filter =
    take payment_list_limit (
      sort compare_payments_updated_desc
        (keep (λ row. matches_payment_list_filter row filter) rows))
