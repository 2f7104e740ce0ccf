-- ===== src/Storage/Exceptions.antt =====
-- packages/storage/src/exceptions/memory-exception-repository.ts: the exceptions in memory.
pub mod Drafts
pub mod Recording
pub mod Unique
pub mod Status
use text.Mathlib.Text.{◌==◌ as str_eq}
use hookx.Prelude.{
  ℕ, String, Ordering, Bool, true, false, not, ◌&&◌, ◌||◌, Option, none, some, List, [], ◌∷◌, ◌++◌,
  find, keep, take, sort, then, lex, length, if◌then◌else◌,
}
use hookx.Domain.{Identity, Instant, Result, ok, err, ◌>>=◌, codes, same, text_eq, includes}
use hookx.Exceptions.Codes.{
  ExceptionCode, code_same, ExceptionSeverity, severity_same, ExceptionStatus, opened, status_same,
  can_transition_exception_status,
}
use hookx.Exceptions.Draft.{ExceptionDraft}
use hookx.Exceptions.Record.{NewExceptionRecord, ExceptionRecord, create_exception}

-- The field `records`.
abbrev pub ExceptionStore : Type 0
ExceptionStore = List ExceptionRecord

pub record ExceptionCreateResult : Type 0 where
  pub row : ExceptionRecord
  pub inserted : Bool

-- `{ ...draft, exceptionId }`.
abbrev pub new_of_draft : String → ExceptionDraft → NewExceptionRecord
new_of_draft exception_id draft = record {
  draft_input = record {
    exception_code = draft.exception_code;
    payment_id = draft.payment_id;
    webhook_event_id = draft.webhook_event_id;
    provider = draft.provider;
    reason = draft.reason;
    detected_at = draft.detected_at;
    correlation_id = draft.correlation_id;
    metadata = some draft.metadata;
  };
  exception_id = exception_id;
  status = some draft.status;
  severity = some draft.severity;
  identity = some draft.identity;
}

abbrev pub identified : List ℕ → ExceptionRecord → Bool
identified identity row = text_eq row.identity identity

abbrev pub is_exception : String → ExceptionRecord → Bool
is_exception exception_id row = str_eq row.exception_id exception_id

unfoldable pub find_by_identity : ExceptionStore → List ℕ → Option ExceptionRecord
find_by_identity records identity = find (identified identity) records

unfoldable pub find_by_id : ExceptionStore → String → Option ExceptionRecord
find_by_id records exception_id = find (is_exception exception_id) records

-- `randomUUID()` is the argument `fresh_id`.
unfoldable pub create :
    String → ExceptionStore → ExceptionDraft → Result (ExceptionStore × ExceptionCreateResult)
unfolding find_by_identity create_exception
create fresh_id records draft = elim (find_by_identity records draft.identity) [
  | some existing ↦ ok (records, record { row = existing; inserted = false })
  | none ↦
      create_exception (new_of_draft fresh_id draft)
      >>= (λ created. ok (records ++ created ∷ [], record { row = created; inserted = true }))
]

-- `{ ...current, status, detectedAt: current.detectedAt }`.
abbrev pub new_of_record : ExceptionStatus → ExceptionRecord → NewExceptionRecord
new_of_record status current = record {
  draft_input = record {
    exception_code = current.exception_code;
    payment_id = current.payment_id;
    webhook_event_id = current.webhook_event_id;
    provider = current.provider;
    reason = current.reason;
    detected_at = current.detected_at;
    correlation_id = current.correlation_id;
    metadata = some current.metadata;
  };
  exception_id = current.exception_id;
  status = some status;
  severity = some current.severity;
  identity = some current.identity;
}

-- `this.records[index] = next` at the first record with the id.
unfoldable pub put_record : String → ExceptionRecord → ExceptionStore → ExceptionStore
put_record exception_id next [] = []
put_record exception_id next (row ∷ records) =
    let rest = put_record exception_id next records in
    if is_exception exception_id row then next ∷ records else row ∷ rest

-- What follows the search.
unfoldable pub change_status :
    ExceptionStore
    → String
    → ExceptionStatus
    → ExceptionRecord
    → Result (ExceptionStore × ExceptionRecord)
unfolding can_transition_exception_status status_same create_exception put_record
change_status records exception_id status current =
    if not (can_transition_exception_status current.status status)
    then err "INVALID_STATUS_TRANSITION"
    else (if status_same current.status status
        then ok (records, current)
        else (create_exception (new_of_record status current)
            >>= (λ next. ok (put_record exception_id next records, next))))

unfoldable pub update_status :
    ExceptionStore → String → ExceptionStatus → Result (ExceptionStore × ExceptionRecord)
unfolding find_by_id change_status
update_status records exception_id status = elim (find_by_id records exception_id) [
  | none ↦ err "EVENT_NOT_FOUND"
  | some current ↦ change_status records exception_id status current
]

pub record ExceptionListFilter : Type 0 where
  pub status : Option ExceptionStatus
  pub severity : Option ExceptionSeverity
  pub exception_code : Option ExceptionCode
  pub provider : Option Identity
  pub payment_id : Option Identity
  pub webhook_event_id : Option String
  pub q : Option String
  pub detected_from : Option Instant
  pub detected_to : Option Instant
  pub limit : Option ℕ

abbrev text_matches : String → String → Bool
text_matches text q = str_eq text q || includes (codes q) (codes text)

matches_search : ExceptionRecord → String → Bool
unfolding includes
matches_search row q =
    text_matches row.exception_id q
    || elim row.webhook_event_id [ none ↦ false | some id ↦ text_matches id q ]
    || elim row.payment_id [ none ↦ false | some id ↦ text_matches id.text q ]

-- A member of the filter that is undefined lets every record pass.
abbrev passes {ℓ} : {A : Type ℓ} → Option A → (A → Bool) → Bool
passes none test = true
passes (some wanted) test = test wanted

abbrev is_some_of {ℓ} : {A : Type ℓ} → Option A → (A → Bool) → Bool
is_some_of none test = false
is_some_of (some value) test = test value

-- `<` on instants, by their texts.
abbrev earlier : Instant → Instant → Bool
earlier left right = elim (lex (codes left.text) (codes right.text)) [
  | Ordering.lt ↦ true
  | _ ↦ false
]

unfoldable pub matches_filter : ExceptionRecord → Option ExceptionListFilter → Bool
unfolding matches_search code_same severity_same status_same
matches_filter row none = true
matches_filter row (some filter) =
    passes filter.status (status_same row.status)
    && passes filter.severity (severity_same row.severity)
    && passes filter.exception_code (code_same row.exception_code)
    && passes filter.provider (λ wanted. is_some_of row.provider (λ p. same p wanted))
    && passes filter.payment_id (λ wanted. is_some_of row.payment_id (λ p. same p wanted))
    && passes filter.webhook_event_id
        (λ wanted. is_some_of row.webhook_event_id (λ id. str_eq id wanted))
    && passes filter.q (matches_search row)
    && passes filter.detected_from (λ from. not (earlier row.detected_at from))
    && passes filter.detected_to (λ to. not (earlier to row.detected_at))

-- The two arguments of the first comparison are in reverse.
unfoldable pub compare_detected : ExceptionRecord → ExceptionRecord → Ordering
compare_detected left right =
    (then) (lex (codes right.detected_at.text) (codes left.detected_at.text))
      (lex (codes left.exception_id) (codes right.exception_id))

abbrev limit_of : Option ExceptionListFilter → Option ℕ
limit_of none = none
limit_of (some filter) = filter.limit

unfoldable pub list : ExceptionStore → Option ExceptionListFilter → ExceptionStore
unfolding matches_filter compare_detected
list records filter =
    let rows = sort compare_detected (keep (λ row. matches_filter row filter) records) in
    elim (limit_of filter) [ none ↦ rows | some limit ↦ take limit rows ]

unfoldable pub count : ExceptionStore → Option ExceptionListFilter → ℕ
unfolding matches_filter
count records filter = length (keep (λ row. matches_filter row filter) records)
