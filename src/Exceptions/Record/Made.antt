-- ===== src/Exceptions/Record/Made.antt =====
-- The records that `createException` makes, and that it makes again.
use text.Mathlib.TextEquality.{eq_iff}
use hookx.Prelude.{
  ◌≡◌, refl, sym, ◌∙◌, ap, subst, true, none, some, inl, inr, Bool-cases, Option-cases,
}
use hookx.Domain.{ok, err, codes, is_identity, Result-cases, ok_eq, err_ne_ok}
use hookx.Audit.Metadata.{sanitize_audit_metadata}
use hookx.Audit.Metadata.Laws.{sanitize_audit_metadata_lem}
use hookx.Exceptions.Codes.{ExceptionSeverity, severity_same, severity_for_exception_code}
use hookx.Exceptions.Draft.{
  ExceptionDraftInput, ExceptionDraft, is_uuid, optional_uuid, is_reason, draft_error,
  checked_draft, create_exception_draft, create_exception_draft_inv,
}
use hookx.Exceptions.Record.{
  NewExceptionRecord, ExceptionRecord, record_of_draft, finish_record, create_exception, or_default,
}

-- What the checks of `createExceptionDraft` ask for.
pub record Passes (input : ExceptionDraftInput) : Type 0 where
  pub webhook : optional_uuid input.webhook_event_id ≡ true
  pub correlation : is_identity input.correlation_id ≡ true
  pub reason : is_reason (codes input.reason) ≡ true

draft_error-none : (input : ExceptionDraftInput) → draft_error input ≡ none → Passes input
unfolding draft_error
draft_error-none input h = elim (Bool-cases (optional_uuid input.webhook_event_id)) [
  | inr w ↦ let bad : some "INVALID_IDENTITY" ≡ none = rw (w, draft_error) at h in cc
  | inl w ↦ elim (Bool-cases (is_identity input.correlation_id)) [
    | inr c ↦ let bad : some "INVALID_IDENTITY" ≡ none = rw (w, c, draft_error) at h in cc
    | inl c ↦ elim (Bool-cases (is_reason (codes input.reason))) [
      | inr r ↦ let bad : some "INVALID_EXCEPTION" ≡ none = rw (w, c, r, draft_error) at h in cc
      | inl r ↦ record { webhook = w; correlation = c; reason = r }
    ]
  ]
]

draft_error_of_Passes : (input : ExceptionDraftInput) → Passes input → draft_error input ≡ none
unfolding draft_error
draft_error_of_Passes input p = rw p.webhook (rw p.correlation (rw p.reason refl))

draft_of_Passes :
    (input : ExceptionDraftInput)
    → Passes input
    → create_exception_draft input ≡ ok (checked_draft input)
unfolding create_exception_draft
draft_of_Passes input p = rw (draft_error_of_Passes input p, create_exception_draft) refl

Passes-of_draft :
    (input : ExceptionDraftInput) (d : ExceptionDraft)
    → create_exception_draft input ≡ ok d
    → Passes input
unfolding create_exception_draft
Passes-of_draft input d h = elim (Option-cases (draft_error input)) [
  | inl e ↦ draft_error-none input e
  | inr (code, e) ↦
      let bad : err code ≡ ok d = rw (e, create_exception_draft) at h in
      let no = err_ne_ok bad in cc
]

pub severity_same_refl : (s : ExceptionSeverity) → severity_same s s ≡ true
unfolding severity_same
severity_same_refl s = (eq_iff _ _).1 refl

severity_same_eq : (a b : ExceptionSeverity) → severity_same a b ≡ true → a ≡ b
unfolding severity_same
severity_same_eq ExceptionSeverity.info ExceptionSeverity.info h = refl
severity_same_eq ExceptionSeverity.info ExceptionSeverity.warning h = cc
severity_same_eq ExceptionSeverity.info ExceptionSeverity.error h = cc
severity_same_eq ExceptionSeverity.info ExceptionSeverity.critical h = cc
severity_same_eq ExceptionSeverity.warning ExceptionSeverity.info h = cc
severity_same_eq ExceptionSeverity.warning ExceptionSeverity.warning h = refl
severity_same_eq ExceptionSeverity.warning ExceptionSeverity.error h = cc
severity_same_eq ExceptionSeverity.warning ExceptionSeverity.critical h = cc
severity_same_eq ExceptionSeverity.error ExceptionSeverity.info h = cc
severity_same_eq ExceptionSeverity.error ExceptionSeverity.warning h = cc
severity_same_eq ExceptionSeverity.error ExceptionSeverity.error h = refl
severity_same_eq ExceptionSeverity.error ExceptionSeverity.critical h = cc
severity_same_eq ExceptionSeverity.critical ExceptionSeverity.info h = cc
severity_same_eq ExceptionSeverity.critical ExceptionSeverity.warning h = cc
severity_same_eq ExceptionSeverity.critical ExceptionSeverity.error h = cc
severity_same_eq ExceptionSeverity.critical ExceptionSeverity.critical h = refl

-- A record as `createException` makes it.
pub record IsMade (row : ExceptionRecord) : Type 0 where
  pub uuid : is_uuid row.exception_id ≡ true
  pub webhook : optional_uuid row.webhook_event_id ≡ true
  pub correlation : is_identity row.correlation_id ≡ true
  pub reason : is_reason (codes row.reason) ≡ true
  pub severity : row.severity ≡ severity_for_exception_code row.exception_code
  pub metadata : sanitize_audit_metadata (some row.metadata) ≡ row.metadata

record_of_checked-IsMade :
    (input : NewExceptionRecord)
    → is_uuid input.exception_id ≡ true
    → Passes input.draft_input
    → IsMade (record_of_draft input (checked_draft input.draft_input))
unfolding record_of_draft checked_draft
record_of_checked-IsMade input u p = record {
  uuid = u;
  webhook = p.webhook;
  correlation = p.correlation;
  reason = p.reason;
  severity = refl;
  metadata = (sanitize_audit_metadata_lem input.draft_input.metadata).2;
}

finish_record_inv :
    (input : NewExceptionRecord) (d : ExceptionDraft) (row : ExceptionRecord)
    → finish_record input d ≡ ok row
    → row ≡ record_of_draft input d
unfolding finish_record
finish_record_inv input d row h =
    elim (Bool-cases (severity_same (or_default input.severity d.severity) d.severity)) [
      | inl e ↦ sym (ok_eq (rw (e, finish_record) at h))
      | inr e ↦
          let bad : err "INVALID_EXCEPTION" ≡ ok row = rw (e, finish_record) at h in
          let no = err_ne_ok bad in cc
    ]

-- What is made is the record of the checked draft, and passes every check.
pub create_exception_inv :
    (input : NewExceptionRecord) (row : ExceptionRecord)
    → create_exception input ≡ ok row
    → (row ≡ record_of_draft input (checked_draft input.draft_input)) × IsMade row
unfolding create_exception
create_exception_inv input row h = elim (Bool-cases (is_uuid input.exception_id)) [
  | inr u ↦
      let bad : err "INVALID_IDENTITY" ≡ ok row = rw (u, create_exception) at h in
      let no = err_ne_ok bad in cc
  | inl u ↦ elim (Result-cases (create_exception_draft input.draft_input)) [
    | inr (code, e) ↦
        let bad : err code ≡ ok row = rw (u, e, create_exception) at h in
        let no = err_ne_ok bad in cc
    | inl (d, e) ↦
        let finished : finish_record input d ≡ ok row = rw (u, e, create_exception) at h in
        let of_input = create_exception_draft_inv input.draft_input d e in
        let row_eq = finish_record_inv input d row finished ∙ ap (record_of_draft input) of_input in
        (
          row_eq,
          subst IsMade (sym row_eq)
              (record_of_checked-IsMade input u (Passes-of_draft input.draft_input d e)),
        )
  ]
]

pub create_of_Passes :
    (input : NewExceptionRecord)
    → is_uuid input.exception_id ≡ true
    → Passes input.draft_input
    → severity_same
        (or_default input.severity (severity_for_exception_code input.draft_input.exception_code))
        (severity_for_exception_code input.draft_input.exception_code)
      ≡ true
    → create_exception input ≡ ok (record_of_draft input (checked_draft input.draft_input))
unfolding create_exception finish_record checked_draft
create_of_Passes input u p s =
    rw (u, draft_of_Passes input.draft_input p, create_exception, finish_record) (rw s refl)
