-- ===== src/Domain/Money.antt =====
-- packages/domain/src/money.ts: amounts in minor units of one currency.
pub mod Laws
use hookx.Prelude.{String, Bool, ◌&&◌, if◌then◌else◌}
use hookx.Prelude.Int.{ℤ, ◌+ℤ◌, ◌-ℤ◌, is_negative, eq_ℤ}
use hookx.Domain.Ids.{Result, ok, err, ◌>>=◌, IsoCurrencyCode, iso_currency_code, same}

pub record Money : Type 0 where
  pub amount_minor : ℤ
  pub currency : IsoCurrencyCode

-- The test that the amount is a `bigint` is the type's.
unfoldable pub money : ℤ → String → Result Money
money amount_minor currency = if is_negative amount_minor then err "MONEY_AMOUNT_NEGATIVE" else do
  code ← iso_currency_code currency
  ok (record { amount_minor = amount_minor; currency = code })

unfoldable pub money_equals : Money → Money → Bool
money_equals left right =
    eq_ℤ left.amount_minor right.amount_minor && same left.currency right.currency

unfoldable pub add_money : Money → Money → Result Money
unfolding money
add_money left right =
    if same left.currency right.currency
    then money (left.amount_minor +ℤ right.amount_minor) left.currency.text
    else err "MONEY_CURRENCY_MISMATCH"

unfoldable pub subtract_money : Money → Money → Result Money
unfolding money
subtract_money left right =
    if same left.currency right.currency
    then money (left.amount_minor -ℤ right.amount_minor) left.currency.text
    else err "MONEY_CURRENCY_MISMATCH"
