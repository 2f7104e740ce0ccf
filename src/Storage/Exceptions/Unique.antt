-- ===== src/Storage/Exceptions/Unique.antt =====
-- The calls of the repository as steps: an identity is stored once, and every record is one that
-- `createException` makes.
use hookx.Prelude.{
  IsUnique, added, ◌≡◌, refl, sym, ◌∙◌, ap, subst, String, ℕ, true, false, none, some, List, [],
  ◌∷◌, ◌++◌, map, find, All, All-append, inl, inr, Bool-cases, Option-cases,
}
use hookx.Domain.{ok, err, Result-cases, ok_eq, err_ne_ok, text_eq}
use hookx.Webhook.Identity.{text_eq_iff}
use hookx.Exceptions.Codes.{ExceptionStatus, can_transition_exception_status}
use hookx.Exceptions.Draft.{ExceptionDraft}
use hookx.Exceptions.Record.{ExceptionRecord, create_exception}
use hookx.Exceptions.Record.Made.{IsMade, create_exception_inv}
use hookx.Storage.Exceptions.{
  ExceptionStore, ExceptionCreateResult, new_of_draft, find_by_identity, find_by_id, identified,
  put_record, is_exception, create, change_status, update_status,
}
use hookx.Storage.Exceptions.Status.{restated, change_allowed, change_refused}

abbrev pub identity_of : ExceptionRecord → List ℕ
identity_of row = row.identity

-- The invariant of the repository.
pub record IsSound (records : ExceptionStore) : Type 0 where
  pub once : IsUnique (map identity_of records)
  pub all_made : All IsMade records

create-IsSound :
    (fresh_id : String) (records next : ExceptionStore) (draft : ExceptionDraft)
    (result : ExceptionCreateResult)
    → create fresh_id records draft ≡ ok (next, result)
    → IsSound records
    → IsSound next
unfolding create find_by_identity
create-IsSound fresh_id records next draft result h w =
    elim (Option-cases (find (identified draft.identity) records)) [
      | inr (existing, e) ↦
          let kept : ok (records, record { row = existing; inserted = false }) ≡ ok (next, result) =
            rw (e, create, find_by_identity) at h in
          subst IsSound (ap (λ (x : ExceptionStore × ExceptionCreateResult). x.0) (ok_eq kept)) w
      | inl e ↦ elim (Result-cases (create_exception (new_of_draft fresh_id draft))) [
        | inr (code, f) ↦
            let bad : err code ≡ ok (next, result) = rw (e, f, create, find_by_identity) at h in
            let no = err_ne_ok bad in cc
        | inl (created, f) ↦
            let kept : ok (records ++ created ∷ [], record { row = created; inserted = true })
                ≡ ok (next, result) =
              rw (e, f, create, find_by_identity) at h in
            let (made, is_made) = create_exception_inv (new_of_draft fresh_id draft) created f in
            let named : identity_of created ≡ draft.identity = ap identity_of made in
            subst IsSound (ap (λ (x : ExceptionStore × ExceptionCreateResult). x.0) (ok_eq kept))
              (record {
                once =
                    added text_eq text_eq_iff identity_of records created w.once
                      (subst (λ i. find (identified i) records ≡ none) (sym named) e);
                all_made = All-append IsMade records (created ∷ []) w.all_made (is_made, tt);
              })
      ]
    ]

found-IsMade :
    (id : String) (records : ExceptionStore) (row : ExceptionRecord)
    → find_by_id records id ≡ some row
    → All IsMade records
    → IsMade row
unfolding find_by_id
found-IsMade id [] row h all = cc
found-IsMade id (r ∷ records) row h all = elim (Bool-cases (is_exception id r)) [
  | inl e ↦
      let same_row : some r ≡ some row = rw e at h in
      let first : r ≡ row = cc in subst IsMade first all.0
  | inr e ↦ found-IsMade id records row (rw e at h) all.1
]

map-put_record :
    (id : String) (records : ExceptionStore) (row next : ExceptionRecord)
    → find_by_id records id ≡ some row
    → identity_of next ≡ identity_of row
    → map identity_of (put_record id next records) ≡ map identity_of records
unfolding find_by_id put_record
map-put_record id [] row next h same = refl
map-put_record id (r ∷ records) row next h same = elim (Bool-cases (is_exception id r)) [
  | inl e ↦
      let same_row : some r ≡ some row = rw e at h in
      let first : row ≡ r = cc in
      rw e (ap (λ i. i ∷ map identity_of records) (same ∙ ap identity_of first))
  | inr e ↦ rw e (ap (identity_of r ∷◌) (map-put_record id records row next (rw e at h) same))
]

put_record-IsMade :
    (id : String) (records : ExceptionStore) (next : ExceptionRecord)
    → All IsMade records
    → IsMade next
    → All IsMade (put_record id next records)
unfolding put_record
put_record-IsMade id [] next all made = tt
put_record-IsMade id (r ∷ records) next all made = elim (Bool-cases (is_exception id r)) [
  | inl e ↦ rw e (made, all.1)
  | inr e ↦ rw e (all.0, put_record-IsMade id records next all.1 made)
]

restated-IsMade :
    (status : ExceptionStatus) (row : ExceptionRecord) → IsMade row → IsMade (restated status row)
restated-IsMade status row made = record {
  uuid = made.uuid;
  webhook = made.webhook;
  correlation = made.correlation;
  reason = made.reason;
  severity = made.severity;
  metadata = made.metadata;
}

put_restated-IsSound :
    (id : String) (records : ExceptionStore) (row : ExceptionRecord) (status : ExceptionStatus)
    → find_by_id records id ≡ some row
    → IsSound records
    → IsSound (put_record id (restated status row) records)
put_restated-IsSound id records row status found w = record {
  once = rw (map-put_record id records row (restated status row) found refl) w.once;
  all_made =
      put_record-IsMade id records (restated status row) w.all_made
        (restated-IsMade status row (found-IsMade id records row found w.all_made));
}

update_status-IsSound :
    (records next : ExceptionStore) (id : String) (status : ExceptionStatus) (row : ExceptionRecord)
    → update_status records id status ≡ ok (next, row)
    → IsSound records
    → IsSound next
unfolding update_status
update_status-IsSound records next id status row h w = elim (Option-cases (find_by_id records id)) [
  | inl e ↦
      let bad : err "EVENT_NOT_FOUND" ≡ ok (next, row) = rw (e, update_status) at h in
      absurd (err_ne_ok bad)
  | inr (current, e) ↦
      let made = found-IsMade id records current e w.all_made in
      let stored : change_status records id status current ≡ ok (next, row) =
        rw (e, update_status) at h in
      elim (Bool-cases (can_transition_exception_status current.status status)) [
        | inl allowed ↦
            let changed = change_allowed records id current status e made allowed in
            subst IsSound
              (ap (λ (x : ExceptionStore × ExceptionRecord). x.0) (ok_eq (sym changed ∙ stored)))
              (put_restated-IsSound id records current status e w)
        | inr refused ↦
            absurd
              (err_ne_ok (sym (change_refused records id current status e made refused) ∙ stored))
      ]
]

-- What a sequence of calls on an empty repository can give.
pub data Calls : ExceptionStore → Type 0 where
  done : Calls []
  created :
      {records next : ExceptionStore} (fresh_id : String) (draft : ExceptionDraft)
      (result : ExceptionCreateResult)
      → Calls records
      → create fresh_id records draft ≡ ok (next, result)
      → Calls next
  updated :
      {records next : ExceptionStore} (id : String) (status : ExceptionStatus)
      (row : ExceptionRecord)
      → Calls records
      → update_status records id status ≡ ok (next, row)
      → Calls next

-- After any sequence of calls on an empty repository each identity is stored once, and every record
-- has a UUID, a correlation id, a reason and metadata of the required form and the severity of its
-- code.
pub Calls-IsSound : {records : ExceptionStore} → Calls records → IsSound records
Calls-IsSound done = record { once = tt; all_made = tt }
Calls-IsSound (created {records} {next} fresh_id draft result calls e) =
    create-IsSound fresh_id records next draft result e (Calls-IsSound calls)
Calls-IsSound (updated {records} {next} id status row calls e) =
    update_status-IsSound records next id status row e (Calls-IsSound calls)
