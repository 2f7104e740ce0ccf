-- ===== src/Audit/Metadata.antt =====
-- packages/audit/src/metadata.ts: which members of an object may be stored.
pub mod Laws
use hookx.Prelude.{
  ℕ, String, zero, suc, ◌+◌, Bool, true, false, ◌||◌, ◌&&◌, Option, none, some, List, [], ◌∷◌, ◌++◌,
  any, length, leb, ◌==◌, if◌then◌else◌,
}
use hookx.Domain.{codes, is_upper}

-- An `unknown` value, by the tests that the code makes of it. A finite number is a natural here;
-- `other` is all that is not stored, `NaN` and the infinities among it.
pub data Value : Type 0 where
  string : String → Value
  number : ℕ → Value
  boolean : Bool → Value
  null other : Value

-- An object by its entries, in the order of `Object.entries`.
abbrev pub Object : Type 0
Object = List (String × Value)

-- The length in UTF-16 code units.
unfoldable pub units : List ℕ → ℕ
units [] = 0
units (c ∷ s) = (if leb 0x10000 c then 2 else 1) + units s

lower : ℕ → ℕ
unfolding is_upper
lower c = if is_upper c then c + 32 else c

-- The second text, in lower case, starts with the first.
starts : List ℕ → List ℕ → Bool
unfolding lower
starts [] s = true
starts (p ∷ ps) [] = false
starts (p ∷ ps) (c ∷ s) = p == lower c && starts ps s

contains : List ℕ → List ℕ → Bool
unfolding starts
contains p [] = starts p []
contains p (c ∷ s) = starts p (c ∷ s) || contains p s

-- The alternatives of `BLOCKED_KEY`; `webhook[_-]?secret` has "secret" in it.
abbrev blocked_parts : List String
blocked_parts =
    "secret" ∷ "signature" ∷ "password" ∷ "authorization" ∷ "credential" ∷ "payload" ∷ "token"
    ∷ "cookie" ∷ "rawbody" ∷ "apikey" ∷ "api_key" ∷ "api-key" ∷ "hmac" ∷ "authheader" ∷ []

unfoldable pub blocked_key : String → Bool
unfolding contains
blocked_key key = any (λ p. contains (codes p) (codes key)) blocked_parts

abbrev pub max_keys : ℕ
max_keys = 16

abbrev pub max_string_length : ℕ
max_string_length = 128

unfoldable pub storable : Value → Bool
unfolding units
storable (string s) = leb (units (codes s)) max_string_length
storable (number n) = true
storable (boolean b) = true
storable null = true
storable other = false

-- The `for` loop, from the entries that are cleaned.
unfoldable pub clean : Object → Object → Object
unfolding blocked_key storable
clean cleaned [] = cleaned
clean cleaned ((key, value) ∷ entries) =
    let kept = clean (cleaned ++ (key, value) ∷ []) entries in
    let skipped = clean cleaned entries in
    if leb max_keys (length cleaned)
    then cleaned
    else (if blocked_key key then skipped else (if storable value then kept else skipped))

unfoldable pub sanitize_audit_metadata : Option Object → Object
unfolding clean
sanitize_audit_metadata none = []
sanitize_audit_metadata (some input) = clean [] input
