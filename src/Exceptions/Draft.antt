-- ===== src/Exceptions/Draft.antt =====
-- packages/exceptions/src/identity.ts, and the drafts of exception.ts.
use hookx.Prelude.{
  Option-cases, inl, inr, ◌≡◌, ℕ, String, zero, suc, Bool, true, false, not, ◌&&◌, ◌||◌, Option,
  none, some, List, [], ◌∷◌, ◌++◌, all, is_empty, length, leb, ◌==◌, if◌then◌else◌,
}
use hookx.Domain.{Identity, Instant, Result, ok, err, codes, is_digit, is_upper, is_identity}
use hookx.Audit.Metadata.{Object, sanitize_audit_metadata}
use hookx.Exceptions.Codes.{
  ExceptionCode, code_label, ExceptionSeverity, severity_for_exception_code, ExceptionStatus,
  opened,
}

-- `${exceptionCode}|${webhook}|${payment}|${correlationScope}`, by its code units.
unfoldable pub exception_identity :
    ExceptionCode → Option Identity → Option String → String → List ℕ
exception_identity exception_code payment_id webhook_event_id correlation_id =
    let webhook : List ℕ = elim webhook_event_id [ none ↦ [] | some w ↦ codes w ] in
    let payment : List ℕ = elim payment_id [ none ↦ [] | some p ↦ codes p.text ] in
    let correlation_scope : List ℕ = if not (is_empty webhook) then [] else codes correlation_id in
    codes (code_label exception_code)
    ++ b'|' ∷ (webhook ++ b'|' ∷ (payment ++ b'|' ∷ correlation_scope))

is_hex : ℕ → Bool
unfolding is_digit
is_hex c = is_digit c || (leb b'a' c && leb c b'f') || (leb b'A' c && leb c b'F')

-- `[0-9a-f]{n}`, and then what the rest has to match.
hex_run : ℕ → (List ℕ → Bool) → List ℕ → Bool
unfolding is_hex
hex_run zero rest s = rest s
hex_run (suc n) rest [] = false
hex_run (suc n) rest (c ∷ s) = is_hex c && hex_run n rest s

dash : (List ℕ → Bool) → List ℕ → Bool
dash rest [] = false
dash rest (c ∷ s) = c == b'-' && rest s

-- The pattern `UUID`.
unfoldable pub is_uuid : String → Bool
unfolding hex_run dash
is_uuid value =
    hex_run 8 (dash (hex_run 4 (dash (hex_run 4 (dash (hex_run 4 (dash (hex_run 12 is_empty))))))))
      (codes value)

-- `[A-Z0-9_]`
code_tail : ℕ → Bool
unfolding is_upper is_digit
code_tail c = is_upper c || is_digit c || c == b'_'

-- The pattern `REASON`, which is that of failure codes too.
unfoldable pub is_reason : List ℕ → Bool
unfolding code_tail is_upper
is_reason [] = false
is_reason (c ∷ s) = is_upper c && (leb (length s) 63 && all code_tail s)

pub record ExceptionDraftInput : Type 0 where
  pub exception_code : ExceptionCode
  pub payment_id : Option Identity
  pub webhook_event_id : Option String
  pub provider : Option Identity
  pub reason : String
  pub detected_at : Instant
  pub correlation_id : String
  pub metadata : Option Object

pub record ExceptionDraft : Type 0 where
  pub exception_code : ExceptionCode
  pub severity : ExceptionSeverity
  pub payment_id : Option Identity
  pub webhook_event_id : Option String
  pub provider : Option Identity
  pub status : ExceptionStatus
  pub reason : String
  pub detected_at : Instant
  pub correlation_id : String
  pub metadata : Object
  pub identity : List ℕ

unfoldable pub optional_uuid : Option String → Bool
unfolding is_uuid
optional_uuid none = true
optional_uuid (some value) = is_uuid value

-- The draft of an input that passes.
unfoldable pub checked_draft : ExceptionDraftInput → ExceptionDraft
checked_draft input = record {
  exception_code = input.exception_code;
  severity = severity_for_exception_code input.exception_code;
  payment_id = input.payment_id;
  webhook_event_id = input.webhook_event_id;
  provider = input.provider;
  status = opened;
  reason = input.reason;
  detected_at = input.detected_at;
  correlation_id = input.correlation_id;
  metadata = sanitize_audit_metadata input.metadata;
  identity =
      exception_identity input.exception_code input.payment_id input.webhook_event_id
        input.correlation_id;
}

-- The checks, in their order.
unfoldable pub draft_error : ExceptionDraftInput → Option String
unfolding optional_uuid is_reason is_identity
draft_error input =
    if not (optional_uuid input.webhook_event_id)
    then some "INVALID_IDENTITY"
    else (if not (is_identity input.correlation_id)
        then some "INVALID_IDENTITY"
        else (if not (is_reason (codes input.reason)) then some "INVALID_EXCEPTION" else none))

-- `createExceptionDraft`. The identities and the instant pass their checks again, by their types.
unfoldable pub create_exception_draft : ExceptionDraftInput → Result ExceptionDraft
unfolding draft_error checked_draft
create_exception_draft input = elim (draft_error input) [
  | some code ↦ err code
  | none ↦ ok (checked_draft input)
]

-- A draft is that of its input.
pub create_exception_draft_inv :
    (input : ExceptionDraftInput) (d : ExceptionDraft)
    → create_exception_draft input ≡ ok d
    → d ≡ checked_draft input
unfolding create_exception_draft
create_exception_draft_inv input d h = elim (Option-cases (draft_error input)) [
  | inl e ↦ let made : ok (checked_draft input) ≡ ok d = rw (e, create_exception_draft) at h in cc
  | inr (code, e) ↦ let bad : err code ≡ ok d = rw (e, create_exception_draft) at h in cc
]
