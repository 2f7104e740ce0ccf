-- ===== src/Webhook/Amount.antt =====
-- packages/webhook/src/money.ts: an amount as a provider writes it.
use hookx.Prelude.{
  ℕ, String, Bool, false, ◌&&◌, ◌==◌, Option, none, some, List, [], ◌∷◌, is_empty, all,
  if◌then◌else◌,
}
use hookx.Domain.{Result, ok, err, codes}
use hookx.Domain.Ids.{is_digit}
use hookx.Webhook.Decimal.{value_from}

-- `/^(0|[1-9][0-9]*)$/`
unfoldable pub is_minor_units : List ℕ → Bool
unfolding is_digit
is_minor_units [] = false
is_minor_units (c ∷ s) = if c == b'0' then is_empty s else is_digit c && all is_digit s

-- A text that passes the test, through `BigInt`.
unfoldable pub amount_of_digits : List ℕ → Result ℕ
unfolding is_minor_units value_from
amount_of_digits s = if is_minor_units s then ok (value_from 0 s) else err "INVALID_AMOUNT"

-- A value that is not a string is `none`.
unfoldable pub parse_amount_minor_string : Option String → Result ℕ
unfolding amount_of_digits
parse_amount_minor_string none = err "INVALID_AMOUNT"
parse_amount_minor_string (some value) = amount_of_digits (codes value)
