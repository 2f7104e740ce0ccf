-- ===== src/Storage/Retry/Memory/DeadLetters.antt =====
-- What `deadLetter` leaves of the record that it ends.
use text.Mathlib.Text.{◌==◌ as str_eq}
use hookx.Prelude.{◌≡◌, refl, ◌∙◌, subst, String, some, inl, inr, Option-cases, find}
use hookx.Domain.{ok, err, Result-cases, ok_eq, err_ne_ok}
use hookx.Storage.Retry.Memory.{
  add_dead_letter, RetryRecord, RetryStatus, Repository, DeadLetterRecord, DeadLetterInput,
  get_by_id, dead_letter, replace, buried,
}
use hookx.Storage.Retry.Memory.Leases.{replace_inv}

-- The dead letter is beside the records.
get_by_id-add_dead_letter :
    (fresh_id id : String) (input : DeadLetterInput) (repository : Repository) (retry : RetryRecord)
    → get_by_id (add_dead_letter fresh_id input (repository, retry)).0 id ≡ get_by_id repository id
unfolding get_by_id add_dead_letter
get_by_id-add_dead_letter fresh_id id input repository retry =
    elim (Option-cases (
      find (λ (d : DeadLetterRecord). str_eq d.webhook_event_id retry.webhook_event_id)
        repository.dead_letters)) [
          | inl e ↦ rw (e, add_dead_letter) refl
          | inr (existing, e) ↦ rw (e, add_dead_letter) refl
        ]

pub dead_letter_inv :
    (fresh_id id : String) (input : DeadLetterInput) (repository next : Repository)
    (dead : DeadLetterRecord)
    → dead_letter fresh_id repository id input ≡ ok (next, dead)
    → (row : RetryRecord) × (get_by_id next id ≡ some row)
      × (row.status ≡ RetryStatus.dead_lettered)
unfolding dead_letter
dead_letter_inv fresh_id id input repository next dead h =
    elim (Result-cases (replace repository id (buried input))) [
      | inl ((buried_in, row), e) ↦
          let (current, found, made, stands) =
            replace_inv repository buried_in id _ row (λ r. refl) e in
          let both : ok (add_dead_letter fresh_id input (buried_in, row)) ≡ ok (next, dead) =
            rw (e, dead_letter) at h in
          (
            row,
            subst (λ (r : Repository × DeadLetterRecord). get_by_id r.0 id ≡ some row) (ok_eq both)
                (get_by_id-add_dead_letter fresh_id id input buried_in row ∙ stands),
            rw made refl,
          )
      | inr (code, e) ↦
          let bad : err code ≡ ok (next, dead) = rw (e, dead_letter) at h in
          let no = err_ne_ok bad in cc
    ]
