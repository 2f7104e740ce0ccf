-- ===== src/Storage/Retry/Memory/Moments.antt =====
-- Instants as `Date.prototype.toISOString` writes them: where two are written alike, the comparison of
-- their texts is the order in time.
use hookx.Prelude.{
  ℕ, ◌+◌, ◌*◌, ◌-◌, ◌<◌, ◌≡◌, ◌↔◌, refl, Bool, true, false, ◌&&◌, ◌||◌, not, List, [], ◌∷◌,
  Ordering, lex, ◌==◌, if◌then◌else◌, arith,
}
use hookx.Domain.{Instant, codes}
use hookx.Domain.Ids.{is_digit}
use hookx.Storage.Retry.Memory.{compare_text}

-- The number that the digits of a text write after the digits of `n`.
number_after : ℕ → List ℕ → ℕ
unfolding is_digit
number_after n [] = n
number_after n (c ∷ s) =
    if is_digit c then number_after (n * 10 + (c - b'0')) s else number_after n s

-- A text of digits in the places where the other has digits, and the same else.
alike : List ℕ → List ℕ → Bool
unfolding is_digit
alike [] [] = true
alike (c ∷ s) (d ∷ t) = ((is_digit c && is_digit d) || (not (is_digit c) && c == d)) && alike s t
alike _ _ = false

-- The year, the month and so on to the fraction of the second, as the digits of one number: of two
-- instants that are written alike, the later has the greater number.
unfoldable pub moment : Instant → ℕ
unfolding number_after
moment at = number_after 0 (codes at.text)

-- Both have as many digits of the second; `toISOString` always writes three.
unfoldable pub AreAlike : Instant → Instant → Type 0
unfolding alike
AreAlike at now = alike (codes at.text) (codes now.text) ≡ true

number_after-grows :
    (m n : ℕ) (s t : List ℕ) → m < n → alike s t ≡ true → number_after m s < number_after n t
unfolding alike number_after is_digit
number_after-grows m n [] [] h k = h
number_after-grows m n [] (d ∷ t) h k = cc
number_after-grows m n (c ∷ s) [] h k = cc
number_after-grows m n (c ∷ s) (d ∷ t) h k = ground (
  arith,
  number_after-grows m n s t,
  number_after-grows (m * 10 + (c - b'0')) (n * 10 + (d - b'0')) s t,
)

-- Of two texts that are written alike, the one with the greater number comes later.
alike_gt :
    (n : ℕ) (s t : List ℕ)
    → alike s t ≡ true
    → number_after n t < number_after n s
    → lex s t ≡ Ordering.gt
unfolding alike number_after is_digit lex
alike_gt n [] [] k h = absurd (omega (arith, h))
alike_gt n [] (d ∷ t) k h = cc
alike_gt n (c ∷ s) [] k h = cc
alike_gt n (c ∷ s) (d ∷ t) k h = ground (
  arith,
  alike_gt n s t,
  alike_gt (n * 10 + (c - b'0')) s t,
  number_after-grows (n * 10 + (c - b'0')) (n * 10 + (d - b'0')) s t,
)

alike_sym : (s t : List ℕ) → alike s t ≡ true → alike t s ≡ true
unfolding alike is_digit
alike_sym [] [] h = refl
alike_sym [] (d ∷ t) h = cc
alike_sym (c ∷ s) [] h = cc
alike_sym (c ∷ s) (d ∷ t) h = ground (arith, alike_sym s t)

alike_lt :
    (n : ℕ) (s t : List ℕ)
    → alike s t ≡ true
    → number_after n s < number_after n t
    → lex s t ≡ Ordering.lt
unfolding alike number_after is_digit lex
alike_lt n [] [] k h = absurd (omega (arith, h))
alike_lt n [] (d ∷ t) k h = cc
alike_lt n (c ∷ s) [] k h = cc
alike_lt n (c ∷ s) (d ∷ t) k h = ground (
  arith,
  alike_lt n s t,
  alike_lt (n * 10 + (c - b'0')) s t,
  number_after-grows (n * 10 + (d - b'0')) (n * 10 + (c - b'0')) t s,
  alike_sym s t,
)

alike_eq :
    (n : ℕ) (s t : List ℕ)
    → alike s t ≡ true
    → number_after n s ≡ number_after n t
    → lex s t ≡ Ordering.eq
unfolding alike number_after is_digit lex
alike_eq n [] [] k h = refl
alike_eq n [] (d ∷ t) k h = cc
alike_eq n (c ∷ s) [] k h = cc
alike_eq n (c ∷ s) (d ∷ t) k h = ground (
  arith,
  alike_eq n s t,
  alike_eq (n * 10 + (c - b'0')) s t,
  number_after-grows (n * 10 + (c - b'0')) (n * 10 + (d - b'0')) s t,
  number_after-grows (n * 10 + (d - b'0')) (n * 10 + (c - b'0')) t s,
  alike_sym s t,
)

alike_falls :
    (n : ℕ) (s t : List ℕ)
    → alike s t ≡ true
    → lex s t ≡ Ordering.gt
    → number_after n t < number_after n s
alike_falls n s t k h = ground (arith, alike_lt n s t k, alike_eq n s t k)

-- What the repository compares is the order in time.
pub compare_text_iff :
    (at now : Instant)
    → AreAlike at now
    → (compare_text at now ≡ Ordering.gt) ↔ (moment now < moment at)
unfolding compare_text moment AreAlike
compare_text_iff at now k = (
  alike_falls 0 (codes at.text) (codes now.text) k,
  alike_gt 0 (codes at.text) (codes now.text) k,
)
