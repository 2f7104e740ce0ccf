-- ===== src/Storage/Retry/Worker/Isolation.antt =====
-- Which calls of the worker leave the retries alone.
use hookx.Prelude.{◌≡◌, String, Bool, true, false, Option, none, some, List, [], ◌∷◌}
use hookx.Domain.{Instant, Result, ok, err}
use hookx.Audit.Event.{AuditActor, AuditAppendInput}
use hookx.Exceptions.Draft.{ExceptionDraft}
use hookx.Exceptions.Record.{ExceptionRecord}
use hookx.Exceptions.Detect.{DetectionContext}
use hookx.Storage.Action.{returned}
use hookx.Storage.Action.Triples.{
  Keeps, Keeps-pure, Keeps-throw, Keeps-bind, Keeps-try_catch, Keeps-for_each,
}
use hookx.Storage.Audit.Outcome.{AuditRepository, append_audit_drafts}
use hookx.Storage.Exceptions.Recording.{
  ExceptionRepository, audit_detected, after_create, persist_detected_exceptions, record_detected,
  record_exceptions_safely,
}
use hookx.Storage.Retry.Memory.{
  RetryRecord, Repository, DeadLetterRecord, ScheduleRetryInput, DeadLetterInput, mark_succeeded,
  schedule_retry, dead_letter,
}
use hookx.Storage.Retry.Worker.{RetryWorkerDependencies, RetryLifecycleTransition}
use hookx.Storage.Retry.Worker.Tick.{append_to}

module _ {S : Type 0} (retry_of : S → Repository) where
  abbrev pub AuditKeeps : Option (AuditRepository S) → Type 0
  AuditKeeps none = Unit
  AuditKeeps (some audit) = (input : AuditAppendInput) → Keeps retry_of (audit.append input)

  abbrev pub ExceptionsKeep : Option (ExceptionRepository S) → Type 0
  ExceptionsKeep none = Unit
  ExceptionsKeep (some exceptions) =
      (draft : ExceptionDraft) → Keeps retry_of (exceptions.create draft)

  -- The three ways in which an attempt ends in a repository that works on `retry_of` as the one in
  -- memory does, beside parts that leave it alone.
  pub record IsOn (dependencies : RetryWorkerDependencies S) : Type 0 where
    pub lifecycle : (step : RetryLifecycleTransition) → Keeps retry_of (dependencies.lifecycle step)
    pub audit : AuditKeeps dependencies.audit
    pub exceptions : ExceptionsKeep dependencies.exceptions
    pub succeeds :
        (id : String) (now : Instant) (s s' : S) (row : RetryRecord)
        → dependencies.retry.mark_succeeded id now s ≡ (returned row, s')
        → mark_succeeded (retry_of s) id now ≡ ok (retry_of s', row)
    pub schedules :
        (id : String) (input : ScheduleRetryInput) (s s' : S) (row : RetryRecord)
        → dependencies.retry.schedule_retry id input s ≡ (returned row, s')
        → schedule_retry (retry_of s) id input ≡ ok (retry_of s', row)
    pub buries :
        (id : String) (input : DeadLetterInput) (s s' : S) (dead : DeadLetterRecord)
        → dependencies.retry.dead_letter id input s ≡ (returned dead, s')
        → (fresh_id : String) × (dead_letter fresh_id (retry_of s) id input
            ≡ ok (retry_of s', dead))

  append_audit_drafts-Keeps :
      (audit : AuditRepository S) (drafts : List AuditAppendInput)
      → ((input : AuditAppendInput) → Keeps retry_of (audit.append input))
      → Keeps retry_of (append_audit_drafts audit drafts)
  unfolding append_audit_drafts
  append_audit_drafts-Keeps audit drafts h =
      Keeps-for_each retry_of _ drafts
        (λ draft. Keeps-bind retry_of _ _ (h draft) (λ created. Keeps-pure retry_of tt))

  pub append_to-Keeps :
      (audit : Option (AuditRepository S)) (drafts : List AuditAppendInput)
      → AuditKeeps audit
      → Keeps retry_of (append_to audit drafts)
  unfolding append_to
  append_to-Keeps none drafts h = Keeps-pure retry_of tt
  append_to-Keeps (some audit) drafts h = append_audit_drafts-Keeps audit drafts h

  audit_detected-Keeps :
      (audit : Option (AuditRepository S)) (actor : AuditActor) (row : ExceptionRecord)
      → AuditKeeps audit
      → Keeps retry_of (audit_detected audit actor row)
  unfolding audit_detected
  audit_detected-Keeps none actor row h = Keeps-pure retry_of tt
  audit_detected-Keeps (some audit) actor row h =
      Keeps-bind retry_of _ _ (h _) (λ created. Keeps-pure retry_of tt)

  after_create-Keeps :
      (audit : Option (AuditRepository S)) (actor : AuditActor) (row : ExceptionRecord)
      (inserted : Bool)
      → AuditKeeps audit
      → Keeps retry_of (after_create audit actor row inserted)
  unfolding after_create
  after_create-Keeps audit actor row true h =
      Keeps-bind retry_of _ _ (audit_detected-Keeps audit actor row h)
        (λ done. Keeps-pure retry_of _)
  after_create-Keeps audit actor row false h = Keeps-pure retry_of _

  persist_detected_exceptions-Keeps :
      (exceptions : ExceptionRepository S) (audit : Option (AuditRepository S)) (actor : AuditActor)
      (drafts : List ExceptionDraft)
      → ((draft : ExceptionDraft) → Keeps retry_of (exceptions.create draft))
      → AuditKeeps audit
      → Keeps retry_of (persist_detected_exceptions exceptions audit actor drafts)
  unfolding persist_detected_exceptions
  persist_detected_exceptions-Keeps exceptions audit actor [] he ha = Keeps-pure retry_of _
  persist_detected_exceptions-Keeps exceptions audit actor (draft ∷ drafts) he ha =
      Keeps-bind retry_of _ _ (he draft) (λ outcome.
        Keeps-bind retry_of _ _ (after_create-Keeps audit actor outcome.row outcome.inserted ha)
          (λ saved.
            Keeps-bind retry_of _ _
              (persist_detected_exceptions-Keeps exceptions audit actor drafts he ha)
              (λ rest. Keeps-pure retry_of _)))

  record_detected-Keeps :
      (exceptions : ExceptionRepository S) (audit : Option (AuditRepository S)) (actor : AuditActor)
      (found : Result (List ExceptionDraft))
      → ((draft : ExceptionDraft) → Keeps retry_of (exceptions.create draft))
      → AuditKeeps audit
      → Keeps retry_of (record_detected exceptions audit actor found)
  unfolding record_detected
  record_detected-Keeps exceptions audit actor (ok drafts) he ha =
      persist_detected_exceptions-Keeps exceptions audit actor drafts he ha
  record_detected-Keeps exceptions audit actor (err code) he ha = Keeps-throw retry_of _

  pub record_exceptions_safely-Keeps :
      (exceptions : Option (ExceptionRepository S)) (audit : Option (AuditRepository S))
      (context : DetectionContext) (actor : AuditActor)
      → ExceptionsKeep exceptions
      → AuditKeeps audit
      → Keeps retry_of (record_exceptions_safely exceptions audit context actor)
  unfolding record_exceptions_safely
  record_exceptions_safely-Keeps none audit context actor he ha = Keeps-pure retry_of _
  record_exceptions_safely-Keeps (some exceptions) audit context actor he ha =
      Keeps-try_catch retry_of _ _ (record_detected-Keeps exceptions audit actor _ he ha)
        (λ error. Keeps-pure retry_of _)
