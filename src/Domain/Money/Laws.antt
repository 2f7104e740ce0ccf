-- ===== src/Domain/Money/Laws.antt =====
-- Sums and differences of money.
use hookx.Prelude.{◌≡◌, false, arith}
use hookx.Prelude.Int.{◌+ℤ◌, ◌-ℤ◌, is_negative}
use hookx.Domain.Ids.{ok, IsoCurrencyCode, iso_currency_code, make_checked}
use hookx.Domain.Money.{Money, add_money, subtract_money}

iso_currency_code_checked : (c : IsoCurrencyCode) → iso_currency_code c.text ≡ ok c
unfolding iso_currency_code
iso_currency_code_checked c = make_checked "INVALID_CURRENCY" c

-- Where money whose amount is not negative can be added to other money, subtracting the other from
-- the sum gives the first money back.
pub subtract_money-add_money :
    (a b s : Money)
    → is_negative a.amount_minor ≡ false
    → add_money a b ≡ ok s
    → subtract_money s b ≡ ok a
unfolding add_money subtract_money ◌+ℤ◌ ◌-ℤ◌
subtract_money-add_money a b s n h = ground (arith, iso_currency_code_checked a.currency)
