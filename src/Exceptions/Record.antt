-- ===== src/Exceptions/Record.antt =====
-- packages/exceptions/src/exception.ts and public.ts: the stored record of an exception.
pub mod Made
use hookx.Prelude.{String, not, Option, none, some, List, ℕ, if◌then◌else◌}
use hookx.Domain.{Identity, Instant, Result, ok, err, ◌>>=◌}
use hookx.Audit.Metadata.{Object, sanitize_audit_metadata}
use hookx.Exceptions.Codes.{
  ExceptionCode, ExceptionSeverity, severity_same, ExceptionStatus, opened,
}
use hookx.Exceptions.Draft.{ExceptionDraftInput, ExceptionDraft, create_exception_draft, is_uuid}

-- The members of `NewExceptionRecord` beside those of the draft's input.
pub record NewExceptionRecord : Type 0 where
  pub draft_input : ExceptionDraftInput
  pub exception_id : String
  pub status : Option ExceptionStatus
  pub severity : Option ExceptionSeverity
  pub identity : Option (List ℕ)

pub record ExceptionRecord : Type 0 where
  pub exception_id : String
  pub exception_code : ExceptionCode
  pub severity : ExceptionSeverity
  pub payment_id : Option Identity
  pub webhook_event_id : Option String
  pub provider : Option Identity
  pub status : ExceptionStatus
  pub reason : String
  pub detected_at : Instant
  pub correlation_id : String
  pub metadata : Object
  pub identity : List ℕ

abbrev pub or_default {ℓ} : {A : Type ℓ} → Option A → A → A
or_default none a = a
or_default (some b) a = b

-- The record of a draft, with what the input states in its place.
unfoldable pub record_of_draft : NewExceptionRecord → ExceptionDraft → ExceptionRecord
record_of_draft input draft = record {
  exception_id = input.exception_id;
  exception_code = draft.exception_code;
  severity = draft.severity;
  payment_id = draft.payment_id;
  webhook_event_id = draft.webhook_event_id;
  provider = draft.provider;
  status = or_default input.status opened;
  reason = draft.reason;
  detected_at = draft.detected_at;
  correlation_id = draft.correlation_id;
  metadata = draft.metadata;
  identity = or_default input.identity draft.identity;
}

-- What follows the draft. The tests that the status and the severity are known are their types.
unfoldable pub finish_record : NewExceptionRecord → ExceptionDraft → Result ExceptionRecord
unfolding severity_same record_of_draft
finish_record input draft =
    if not (severity_same (or_default input.severity draft.severity) draft.severity)
    then err "INVALID_EXCEPTION"
    else ok (record_of_draft input draft)

unfoldable pub create_exception : NewExceptionRecord → Result ExceptionRecord
unfolding is_uuid create_exception_draft finish_record
create_exception input =
    if not (is_uuid input.exception_id)
    then err "INVALID_IDENTITY"
    else create_exception_draft input.draft_input >>= finish_record input

pub record PublicException : Type 0 where
  pub exception_id : String
  pub exception_code : ExceptionCode
  pub severity : ExceptionSeverity
  pub payment_id : Option Identity
  pub webhook_event_id : Option String
  pub provider : Option Identity
  pub status : ExceptionStatus
  pub reason : String
  pub detected_at : Instant
  pub correlation_id : String
  pub metadata : Object

unfoldable pub to_public_exception : ExceptionRecord → PublicException
to_public_exception row = record {
  exception_id = row.exception_id;
  exception_code = row.exception_code;
  severity = row.severity;
  payment_id = row.payment_id;
  webhook_event_id = row.webhook_event_id;
  provider = row.provider;
  status = row.status;
  reason = row.reason;
  detected_at = row.detected_at;
  correlation_id = row.correlation_id;
  metadata = sanitize_audit_metadata (some row.metadata);
}
