-- ===== src/Storage/Exceptions/Status.antt =====
-- What `updateStatus` does with a stored exception.
use hookx.Prelude.{
  ℕ, leb, arith, ◌≡◌, refl, sym, ◌∙◌, ap, subst, String, ◌≤◌, true, false, some, [], ◌∷◌, inl, inr,
  Bool-cases, if◌then◌else◌,
}
use hookx.Domain.{Result, ok, err}
use hookx.Exceptions.Codes.{
  ExceptionStatus, opened, acknowledged, resolved, status_same, can_transition_exception_status,
}
use hookx.Exceptions.Codes.Ranks.{stage, can_transition_exception_status_iff}
use hookx.Exceptions.Draft.{checked_draft}
use hookx.Exceptions.Record.{ExceptionRecord, record_of_draft, create_exception}
use hookx.Exceptions.Record.Made.{IsMade, create_of_Passes, severity_same_refl}
use hookx.Storage.Exceptions.{
  ExceptionStore, new_of_record, find_by_id, put_record, is_exception, change_status, update_status,
}

abbrev pub restated : ExceptionStatus → ExceptionRecord → ExceptionRecord
restated status row = record row { status = status }

-- `createException` gives a record that it made back, with the new status.
create_exception_again :
    (row : ExceptionRecord) (status : ExceptionStatus)
    → IsMade row
    → create_exception (new_of_record status row) ≡ ok (restated status row)
unfolding record_of_draft checked_draft
create_exception_again row status made =
    create_of_Passes (new_of_record status row) made.uuid
      (record { webhook = made.webhook; correlation = made.correlation; reason = made.reason })
      (rw made.severity (severity_same_refl _))
    ∙ ap ok (rw made.metadata (rw (sym made.severity) refl))

status_same_eq : (a b : ExceptionStatus) → status_same a b ≡ true → a ≡ b
unfolding status_same
status_same_eq opened opened h = refl
status_same_eq opened acknowledged h = cc
status_same_eq opened resolved h = cc
status_same_eq acknowledged opened h = cc
status_same_eq acknowledged acknowledged h = refl
status_same_eq acknowledged resolved h = cc
status_same_eq resolved opened h = cc
status_same_eq resolved acknowledged h = cc
status_same_eq resolved resolved h = refl

put_record_same :
    (id : String) (records : ExceptionStore) (row : ExceptionRecord)
    → find_by_id records id ≡ some row
    → put_record id row records ≡ records
unfolding find_by_id put_record
put_record_same id [] row h = refl
put_record_same id (r ∷ records) row h = elim (Bool-cases (is_exception id r)) [
  | inl e ↦
      let same_row : some r ≡ some row = rw e at h in
      let first : row ≡ r = cc in rw e (ap (λ x. x ∷ records) first)
  | inr e ↦ rw e (ap (r ∷◌) (put_record_same id records row (rw e at h)))
]

leb-true : (m n : ℕ) → m ≤ n → leb m n ≡ true
leb-true m n h = ground arith

leb-false : (m n : ℕ) → ¬ (m ≤ n) → leb m n ≡ false
leb-false m n h = ground arith

module _ (records : ExceptionStore) (id : String) (row : ExceptionRecord) (status : ExceptionStatus)
    (found : find_by_id records id ≡ some row) (made : IsMade row) where
  pub change_allowed :
      can_transition_exception_status row.status status ≡ true
      → change_status records id status row
        ≡ ok (put_record id (restated status row) records, restated status row)
  unfolding change_status
  change_allowed h = elim (Bool-cases (status_same row.status status)) [
    | inl e ↦
        let same = status_same_eq row.status status e in
        rw (h, e, change_status)
          (subst
            (λ x.
              ◌≡◌ {A = Result (ExceptionStore × ExceptionRecord)} (ok (records, row))
                (ok (put_record id (restated x row) records, restated x row)))
            same (ap (λ l. ok (l, row)) (sym (put_record_same id records row found))))
    | inr e ↦ rw (h, e, create_exception_again row status made, change_status) refl
  ]

  pub change_refused :
      can_transition_exception_status row.status status ≡ false
      → change_status records id status row ≡ err "INVALID_STATUS_TRANSITION"
  unfolding change_status
  change_refused h = rw (h, change_status) refl

  -- Where a stored exception was made by `createException`, its status changes exactly to one that is
  -- not less handled: then the record is replaced by itself with the new status, and every other
  -- member as it was; and else the change is refused and nothing is replaced.
  pub update_status_lem : update_status records id status ≡ (
      if leb (stage row.status) (stage status)
      then ok (put_record id (restated status row) records, restated status row)
      else err "INVALID_STATUS_TRANSITION")
  unfolding update_status
  update_status_lem = elim (Bool-cases (can_transition_exception_status row.status status)) [
    | inl e ↦
        let later : leb (stage row.status) (stage status) ≡ true =
          leb-true _ _ ((can_transition_exception_status_iff row.status status).0 e) in
        rw (found, update_status) (rw later (change_allowed e))
    | inr e ↦
        let earlier : leb (stage row.status) (stage status) ≡ false =
          leb-false _ _
            (λ l. let t = (can_transition_exception_status_iff row.status status).1 l in cc) in
        rw (found, update_status) (rw earlier (change_refused e))
  ]
