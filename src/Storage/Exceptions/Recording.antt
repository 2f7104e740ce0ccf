-- ===== src/Storage/Exceptions/Recording.antt =====
-- packages/storage/src/exceptions/record.ts: detected exceptions are stored and audited, and what
-- goes wrong there changes nothing else.
use hookx.Prelude.{String, Bool, true, false, Option, none, some, List, [], ◌∷◌, ◌++◌}
use hookx.Domain.{Instant, Result, ok, err}
use hookx.Audit.Event.{AuditActor}
use hookx.Exceptions.Codes.{ExceptionStatus}
use hookx.Exceptions.Draft.{ExceptionDraft}
use hookx.Exceptions.Record.{ExceptionRecord}
use hookx.Exceptions.Detect.{DetectionContext, detect_exception}
use hookx.Storage.Action.{Action, pure, throw, ◌>>=◌, ◌>>◌, try_catch}
use hookx.Storage.Audit.Outcome.{AuditRepository, append_audit_drafts}
use hookx.Storage.Exceptions.{ExceptionCreateResult}
use hookx.Storage.Exceptions.Drafts.{exception_detected_draft, exception_status_changed_draft}
use hookx.Storage.Retry.Classify.{coded_error}

-- The methods of `ExceptionRepository` that are called here.
pub record ExceptionRepository (S : Type 0) : Type 0 where
  pub create : ExceptionDraft → Action S ExceptionCreateResult
  pub update_status : String → ExceptionStatus → Action S ExceptionRecord

module _ {S : Type 0} where
  -- `if (audit !== undefined) await audit.append(exceptionDetectedDraft(record, actor))`.
  unfoldable pub audit_detected :
      Option (AuditRepository S) → AuditActor → ExceptionRecord → Action S (Unit {0})
  unfolding exception_detected_draft
  audit_detected none actor row = pure tt
  audit_detected (some audit) actor row =
      audit.append (exception_detected_draft row actor) >>= λ created. pure tt

  -- The body of the loop, after the call of `create`.
  unfoldable pub after_create :
      Option (AuditRepository S)
      → AuditActor
      → ExceptionRecord
      → Bool
      → Action S (List ExceptionRecord)
  unfolding audit_detected
  after_create audit actor row true = audit_detected audit actor row >> pure (row ∷ [])
  after_create audit actor row false = pure []

  unfoldable pub persist_detected_exceptions :
      ExceptionRepository S
      → Option (AuditRepository S)
      → AuditActor
      → List ExceptionDraft
      → Action S (List ExceptionRecord)
  unfolding after_create
  persist_detected_exceptions exceptions audit actor [] = pure []
  persist_detected_exceptions exceptions audit actor (draft ∷ drafts) = do
    outcome ← exceptions.create draft
    saved ← after_create audit actor outcome.row outcome.inserted
    rest ← persist_detected_exceptions exceptions audit actor drafts
    pure (saved ++ rest)

  -- The `try` block, by what `detectException` returned or threw.
  unfoldable pub record_detected :
      ExceptionRepository S
      → Option (AuditRepository S)
      → AuditActor
      → Result (List ExceptionDraft)
      → Action S (List ExceptionRecord)
  unfolding persist_detected_exceptions
  record_detected exceptions audit actor (err code) = throw (coded_error code)
  record_detected exceptions audit actor (ok drafts) =
      persist_detected_exceptions exceptions audit actor drafts

  unfoldable pub record_exceptions_safely :
      Option (ExceptionRepository S)
      → Option (AuditRepository S)
      → DetectionContext
      → AuditActor
      → Action S (List ExceptionRecord)
  unfolding record_detected detect_exception
  record_exceptions_safely none audit context actor = pure []
  record_exceptions_safely (some exceptions) audit context actor =
      try_catch (record_detected exceptions audit actor (detect_exception context))
        (λ error. pure [])

  audit_change :
      Option (AuditRepository S) → AuditActor → Instant → ExceptionRecord → Action S (Unit {0})
  unfolding append_audit_drafts exception_status_changed_draft
  audit_change none actor recorded_at row = pure tt
  audit_change (some audit) actor recorded_at row =
      append_audit_drafts audit (exception_status_changed_draft row actor recorded_at ∷ [])

  unfoldable pub change_exception_status :
      ExceptionRepository S
      → Option (AuditRepository S)
      → String
      → ExceptionStatus
      → AuditActor
      → Instant
      → Action S ExceptionRecord
  unfolding audit_change
  change_exception_status exceptions audit exception_id status actor recorded_at = do
    updated ← exceptions.update_status exception_id status
    audit_change audit actor recorded_at updated
    pure updated
