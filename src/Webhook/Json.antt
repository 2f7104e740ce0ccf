-- ===== src/Webhook/Json.antt =====
-- `JSON.stringify` on strings, as packages/webhook/src/identity.ts and
-- packages/state-machine/src/history.ts use it.
use hookx.Prelude.{
  ℕ, ◌+◌, ◌-◌, ◌/◌, ◌||◌, ◌≤◌, ◌%◌, ◌≡◌, refl, ◌≢◌, true, List, [], ◌∷◌, ◌++◌, arith, ltb, ◌==◌,
  if◌then◌else◌, all,
}
use hookx.Domain.Ids.{is_printable, is_digit, is_upper, is_lower}

hex_digit : ℕ → ℕ
hex_digit n = if ltb n 10 then b'0' + n else b'a' + (n - 10)

escape : ℕ → List ℕ
unfolding hex_digit
escape c =
    if c == 34 || c == 92
    then 92 ∷ c ∷ []
    else (if c == 8
        then 92 ∷ b'b' ∷ []
        else (if c == 9
            then 92 ∷ b't' ∷ []
            else (if c == 10
                then 92 ∷ b'n' ∷ []
                else (if c == 12
                    then 92 ∷ b'f' ∷ []
                    else (if c == 13
                        then 92 ∷ b'r' ∷ []
                        else (if ltb c 32
                            then 92
                              ∷ b'u'
                              ∷ b'0'
                              ∷ b'0'
                              ∷ hex_digit (c / 16)
                              ∷ hex_digit (c % 16)
                              ∷ []
                            else c ∷ []))))))

escaped : List ℕ → List ℕ
unfolding escape
escaped [] = []
escaped (c ∷ s) = escape c ++ escaped s

-- The string in quotes, and then the rest of the document.
unfoldable pub json_string : List ℕ → List ℕ → List ℕ
unfolding escaped
json_string s rest = 34 ∷ (escaped s ++ 34 ∷ rest)

printable_range : (c : ℕ) → is_printable c ≡ true → (32 ≤ c) × (c ≢ 34) × (c ≢ 92)
unfolding is_printable is_digit is_upper is_lower
printable_range c h = ground arith

escape_printable : (c : ℕ) → is_printable c ≡ true → escape c ≡ c ∷ []
unfolding escape
escape_printable c h = ground (arith, printable_range c)

escaped_printable : (s : List ℕ) → all is_printable s ≡ true → escaped s ≡ s
unfolding escaped
escaped_printable [] h = refl
escaped_printable (c ∷ s) h = ground (arith, escape_printable c, escaped_printable s)

quoted_inj :
    (s t r u : List ℕ)
    → all is_printable s ≡ true
    → all is_printable t ≡ true
    → s ++ 34 ∷ r ≡ t ++ 34 ∷ u
    → (s ≡ t) × (r ≡ u)
quoted_inj [] [] r u h k e = (refl, cc)
quoted_inj [] (d ∷ t) r u h k e = ground (arith, printable_range d)
quoted_inj (c ∷ s) [] r u h k e = ground (arith, printable_range c)
quoted_inj (c ∷ s) (d ∷ t) r u h k e = ground (arith, quoted_inj s t r u)

-- A document that begins with a printable string determines the string and what follows it.
pub json_string_inj :
    (s t r u : List ℕ)
    → all is_printable s ≡ true
    → all is_printable t ≡ true
    → json_string s r ≡ json_string t u
    → (s ≡ t) × (r ≡ u)
unfolding json_string
json_string_inj s t r u h k e =
    quoted_inj s t r u h k (ground (arith, escaped_printable s h, escaped_printable t k))
