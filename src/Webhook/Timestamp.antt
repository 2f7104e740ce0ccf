-- ===== src/Webhook/Timestamp.antt =====
-- packages/webhook/src/timestamp.ts: the time of an event as a provider writes it.
use Prim.Native.Char.{code}
use hookx.Prelude.{
  ℕ, zero, suc, String, Bool, ◌||◌, Option, none, some, List, ◌∷◌, is_empty, if◌then◌else◌,
}
use hookx.Domain.{Instant, Result, err, instant, codes}
use hookx.Domain.Ids.{match_instant, text_eq, concat}

take_text : ℕ → String → String
take_text zero s = String.[]
take_text (suc n) String.[] = String.[]
take_text (suc n) (String.◌∷◌ c s) = String.◌∷◌ c (take_text n s)

-- `(?:\+00:00|-00:00)$`
is_offset : List ℕ → Bool
unfolding text_eq
is_offset s = text_eq s (codes "+00:00") || text_eq s (codes "-00:00")

-- A text that ends in an offset of zero, with `Z` in its place.
unfoldable pub offset_as_zulu : String → Option String
unfolding is_offset
offset_as_zulu String.[] = none
offset_as_zulu (String.◌∷◌ c s) =
    let rest = offset_as_zulu s in
    if is_offset (code c ∷ codes s)
    then some "Z"
    else elim rest [ none ↦ none | some t ↦ some (String.◌∷◌ c t) ]

-- The milliseconds are added where there is no fraction; the groups of `UTC_Z` have 19 characters
-- before it.
unfoldable pub normalize_zulu : String → Result Instant
unfolding match_instant take_text concat instant
normalize_zulu value = elim (match_instant (codes value)) [
  | none ↦ err "INVALID_TIMESTAMP"
  | some groups ↦ instant (if is_empty groups.1 then concat (take_text 19 value) ".000Z" else value)
]

-- By `UTC_Z`, and then by `UTC_OFFSET_ZERO`, which accepts a text that `UTC_Z` accepts with `Z` for
-- its offset.
unfoldable pub normalize_text : String → Option String → Result Instant
unfolding normalize_zulu
normalize_text value none = normalize_zulu value
normalize_text value (some zulu) = normalize_zulu zulu

-- A value that is not a string is `none`; a text that ends in an offset does not end in `Z`.
unfoldable pub normalize_occurred_at : Option String → Result Instant
unfolding normalize_text offset_as_zulu
normalize_occurred_at none = err "INVALID_TIMESTAMP"
normalize_occurred_at (some value) = normalize_text value (offset_as_zulu value)
