-- ===== src/Webhook/Decimal.antt =====
-- `bigint.toString()`: an amount in decimal digits.
use hookx.Prelude.{
  ℕ, zero, suc, ◌+◌, ◌-◌, ◌*◌, ◌/◌, ◌%◌, ◌≡◌, refl, List, [], ◌∷◌, ◌++◌, ◌<◌, ap, sym, ◌∙◌, arith,
  ltb, if◌then◌else◌, Bool-cases, inl, inr,
}

-- A number below the fuel has its digits written; each round divides by ten.
decimal_from : ℕ → ℕ → List ℕ
decimal_from zero n = []
decimal_from (suc f) n =
    let high = decimal_from f (n / 10) in
    if ltb n 10 then (b'0' + n) ∷ [] else high ++ (b'0' + n % 10) ∷ []

unfoldable pub decimal : ℕ → List ℕ
unfolding decimal_from
decimal n = decimal_from (suc n) n

unfoldable pub value_from : ℕ → List ℕ → ℕ
value_from acc [] = acc
value_from acc (c ∷ s) = value_from (acc * 10 + (c - b'0')) s

value_from-append :
    (acc : ℕ) (s : List ℕ) (c : ℕ)
    → value_from acc (s ++ c ∷ []) ≡ value_from acc s * 10 + (c - b'0')
unfolding value_from
value_from-append acc [] c = refl
value_from-append acc (d ∷ s) c = value_from-append (acc * 10 + (d - b'0')) s c

value-decimal_from : (f n : ℕ) → n < f → value_from 0 (decimal_from f n) ≡ n
unfolding decimal_from value_from
value-decimal_from zero n h = elim h [ ]
value-decimal_from (suc f) n h = elim (Bool-cases (ltb n 10)) [
  | inl small ↦ rw small (omega arith)
  | inr large ↦ rw large (
      value_from-append 0 (decimal_from f (n / 10)) (b'0' + n % 10)
      ∙ omega (arith, value-decimal_from f (n / 10) (ground arith)))
]

pub decimal_inj : (m n : ℕ) → decimal m ≡ decimal n → m ≡ n
unfolding decimal
decimal_inj m n h =
    sym (value-decimal_from (suc m) m (omega arith))
    ∙ ap (value_from 0) h
    ∙ value-decimal_from (suc n) n (omega arith)
