-- ===== src/Domain/Ids.antt =====
-- packages/domain/src/ids.ts and domain-error.ts. The message of an error is left out.
use Prim.Native.Char.{code}
use mathlib.Core.HLevel.{is_prop→PathP}
use text.Mathlib.Text.{◌==◌ as str_eq}
use mathlib.Core.Bool.{Bool-set}
use text.Mathlib.TextEquality.{eq_iff}
use hookx.Prelude.{
  ◌≢◌, ℕ, zero, suc, String, ◌≡◌, refl, ap, ◌↔◌, ◌⊎◌, inl, inr, Bool, true, false, not, ◌&&◌, ◌||◌,
  Option, none, some, List, [], ◌∷◌, ◌++◌, reverse, leb, ◌==◌, if◌then◌else◌, all, is_empty,
  Bool-cases,
}

-- What a call returns or throws: a `DomainError`, or any error with a `code`, by that code.
pub data Result {ℓ} (A : Type ℓ) : Type ℓ where
  ok : A → Result A
  err : String → Result A

infixl 5 ◌>>=◌
abbrev pub ◌>>=◌ {ℓ κ} : {A : Type ℓ} {B : Type κ} → Result A → (A → Result B) → Result B
ok a >>= f = f a
err e >>= f = err e

pub Result-cases {ℓ} :
    {A : Type ℓ} (r : Result A) → ((a : A) × (r ≡ ok a)) ⊎ ((e : String) × (r ≡ err e))
Result-cases (ok a) = inl (a, refl)
Result-cases (err e) = inr (e, refl)

pub err_ne_ok {ℓ} : {A : Type ℓ} {e : String} {x : A} → err e ≢ ok x
err_ne_ok h = cc

pub ok_eq {ℓ} : {A : Type ℓ} {x y : A} → ok x ≡ ok y → x ≡ y
ok_eq h = cc

-- The code units of a text. What the program orders or matches is ASCII once it is accepted, and
-- there code points and UTF-16 units agree.
abbrev pub codes : String → List ℕ
codes String.[] = []
codes (String.◌∷◌ c s) = code c ∷ codes s

unfoldable pub is_digit : ℕ → Bool
is_digit c = leb b'0' c && leb c b'9'

unfoldable pub is_upper : ℕ → Bool
is_upper c = leb b'A' c && leb c b'Z'

unfoldable pub is_lower : ℕ → Bool
is_lower c = leb b'a' c && leb c b'z'

-- The class `[A-Za-z0-9._:~-]`.
unfoldable pub is_printable : ℕ → Bool
unfolding is_digit is_upper is_lower
is_printable c =
    is_upper c
    || is_lower c
    || is_digit c
    || c == b'.'
    || c == b'_'
    || c == b':'
    || c == b'~'
    || c == b'-'

-- White space and line ends, which `trim` removes.
is_space : ℕ → Bool
is_space c =
    (leb 9 c && leb c 13)
    || c == 32
    || c == 160
    || c == 0x1680
    || (leb 0x2000 c && leb c 0x200a)
    || c == 0x2028
    || c == 0x2029
    || c == 0x202f
    || c == 0x205f
    || c == 0x3000
    || c == 0xfeff

trim_start : List ℕ → List ℕ
trim_start [] = []
trim_start (c ∷ s) = if is_space c then trim_start s else c ∷ s

unfoldable pub trim : List ℕ → List ℕ
unfolding trim_start is_space
trim s = reverse (trim_start (reverse (trim_start s)))

unfoldable pub text_eq : List ℕ → List ℕ → Bool
text_eq [] [] = true
text_eq (x ∷ xs) (y ∷ ys) = x == y && text_eq xs ys
text_eq _ _ = false

-- A template of two texts.
unfoldable pub concat : String → String → String
concat String.[] t = t
concat (String.◌∷◌ c s) t = String.◌∷◌ c (concat s t)

starts_with : List ℕ → List ℕ → Bool
starts_with [] s = true
starts_with (p ∷ ps) [] = false
starts_with (p ∷ ps) (c ∷ s) = p == c && starts_with ps s

-- `s.includes(p)`.
unfoldable pub includes : List ℕ → List ℕ → Bool
unfolding starts_with
includes p [] = starts_with p []
includes p (c ∷ s) = starts_with p (c ∷ s) || includes p s

-- `/^[A-Za-z0-9._:~-]+$/`
unfoldable pub printable_id : List ℕ → Bool
unfolding is_printable
printable_id s = not (is_empty s) && all is_printable s

unfoldable pub is_identity : String → Bool
unfolding trim text_eq printable_id
is_identity value =
    not (is_empty (codes value))
    && text_eq (codes value) (trim (codes value))
    && printable_id (codes value)

-- `/^[A-Z]{3}$/`
three_upper : List ℕ → Bool
unfolding is_upper
three_upper (a ∷ b ∷ c ∷ []) = is_upper a && is_upper b && is_upper c
three_upper _ = false

unfoldable pub is_currency : String → Bool
unfolding three_upper
is_currency value = three_upper (codes value)

infixl 6 ◌then_match◌
◌then_match◌ {ℓ} : {A : Type ℓ} → Option A → (A → Option A) → Option A
none then_match f = none
some a then_match f = f a

-- What a pattern has captured so far, and the rest of the text.
abbrev Scan : Type 0
Scan = List ℕ × List ℕ

match_digits : ℕ → Scan → Option Scan
match_digits zero s = some s
match_digits (suc n) (got, []) = none
match_digits (suc n) (got, c ∷ rest) =
    let more = match_digits n (got ++ c ∷ [], rest) in if is_digit c then more else none

match_char : ℕ → Scan → Option Scan
match_char d (got, []) = none
match_char d (got, c ∷ rest) = if c == d then some (got, rest) else none

-- `(?:\.([0-9]{1,9}))?Z$`: up to nine digits, and then a final `Z`.
match_fraction : ℕ → List ℕ → List ℕ → Option (List ℕ)
match_fraction n got [] = none
match_fraction zero got (c ∷ rest) = if c == b'Z' && is_empty rest then some got else none
match_fraction (suc n) got (c ∷ rest) =
    let more = match_fraction n (got ++ c ∷ []) rest in
    if c == b'Z' && is_empty rest && not (is_empty got)
    then some got
    else (if is_digit c then more else none)

match_end : List ℕ → Option (List ℕ)
match_end [] = none
match_end (c ∷ rest) =
    if c == b'Z' && is_empty rest
    then some []
    else (if c == b'.' then match_fraction 9 [] rest else none)

finish_match : Option Scan → Option (List ℕ × List ℕ)
finish_match none = none
finish_match (some (stamp, rest)) = elim (match_end rest) [
  | none ↦ none
  | some fraction ↦ some (stamp, fraction)
]

-- The groups of `INSTANT_UTC`: the fourteen digits of date and time, and those of the fraction.
unfoldable pub match_instant : List ℕ → Option (List ℕ × List ℕ)
unfolding ◌then_match◌ match_digits match_char match_fraction match_end finish_match is_digit
match_instant s = finish_match (
    match_digits 4 ([], s)
    then_match match_char b'-'
    then_match match_digits 2
    then_match match_char b'-'
    then_match match_digits 2
    then_match match_char b'T'
    then_match match_digits 2
    then_match match_char b':'
    then_match match_digits 2
    then_match match_char b':'
    then_match match_digits 2)

unfoldable pub is_instant : String → Bool
unfolding match_instant
is_instant value = elim (match_instant (codes value)) [ none ↦ false | some m ↦ true ]

-- `Brand<string, …>`, by the test of the function that makes it.
pub record Branded (accepts : String → Bool) : Type 0 where
  pub text : String
  pub checked : accepts text ≡ true

abbrev pub Identity : Type 0
Identity = Branded is_identity

abbrev pub IsoCurrencyCode : Type 0
IsoCurrencyCode = Branded is_currency

abbrev pub Instant : Type 0
Instant = Branded is_instant

made :
    (accepts : String → Bool) (code value : String)
    → (accepts value ≡ true) ⊎ (accepts value ≡ false)
    → Result (Branded accepts)
made accepts code value (inl h) = ok (record { text = value; checked = h })
made accepts code value (inr _) = err code

unfoldable pub make : (accepts : String → Bool) → String → String → Result (Branded accepts)
unfolding made
make accepts code value = made accepts code value (Bool-cases (accepts value))

-- `paymentId`, `providerId`, `externalEventId` and `payloadHash`.
unfoldable pub identity : String → Result Identity
unfolding make
identity = make is_identity "INVALID_IDENTITY"

unfoldable pub iso_currency_code : String → Result IsoCurrencyCode
unfolding make
iso_currency_code = make is_currency "INVALID_CURRENCY"

unfoldable pub instant : String → Result Instant
unfolding make
instant = make is_instant "INVALID_INSTANT"

module _ {accepts : String → Bool} where
  -- `===` on branded strings.
  unfoldable pub same : Branded accepts → Branded accepts → Bool
  same a b = str_eq a.text b.text

  pub branded_path : (a b : Branded accepts) → a.text ≡ b.text → a ≡ b
  branded_path a b p = λ i. record {
    text = p i;
    checked =
        is_prop→PathP (λ j. accepts (p j) ≡ true) (λ j. Bool-set (accepts (p j)) true) a.checked
          b.checked i;
  }

  pub same_iff : (a b : Branded accepts) → (same a b ≡ true) ↔ (a ≡ b)
  unfolding same
  same_iff a b = (
    λ h. branded_path a b ((eq_iff _ _).0 h),
    λ e. (eq_iff _ _).1 (ap (λ (c : Branded accepts). c.text) e),
  )

  pub same_refl : (a : Branded accepts) → same a a ≡ true
  same_refl a = (same_iff a a).1 refl

  made_checked :
      (code : String) (a : Branded accepts) (c : (accepts a.text ≡ true) ⊎ (accepts a.text ≡ false))
      → made accepts code a.text c ≡ ok a
  unfolding made
  made_checked code a (inl h) = ap ok (branded_path _ a refl)
  made_checked code a (inr h) = let b = a.checked in cc

  -- A value that carries its brand passes the brand's test again.
  pub make_checked : (code : String) (a : Branded accepts) → make accepts code a.text ≡ ok a
  unfolding make
  make_checked code a = made_checked code a (Bool-cases (accepts a.text))
