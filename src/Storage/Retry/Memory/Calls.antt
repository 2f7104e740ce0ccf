-- ===== src/Storage/Retry/Memory/Calls.antt =====
-- The calls of the repository as steps, and what holds after any sequence of them.
use text.Mathlib.Text.{◌==◌ as str_eq}
use text.Mathlib.TextEquality.{eq_iff}
use hookx.Prelude.{
  added, ℕ, String, ◌≡◌, refl, ap, subst, List, [], ◌∷◌, find, take, sort, keep, Option-cases, inl,
  inr,
}
use hookx.Domain.{err_ne_ok, ok_eq, Instant, Result, ok, err, Result-cases}
use hookx.Storage.Retry.Memory.{
  RetryRecord, DeadLetterRecord, Repository, ScheduleRetryInput, DeadLetterInput, ensure_pending,
  replace, mark_succeeded, schedule_retry, buried, dead_letter, add_dead_letter, begin_attempt,
  claim_each, claim_due, is_due, claim_order,
}
use hookx.Storage.Retry.Memory.Unique.{
  IsWellFormed, letter_event, ensure_pending-IsWellFormed, replace-IsWellFormed,
  begin_attempt-IsWellFormed,
}

add_dead_letter-IsWellFormed :
    (repository : Repository) (fresh_id : String) (input : DeadLetterInput) (row : RetryRecord)
    → IsWellFormed repository
    → IsWellFormed (add_dead_letter fresh_id input (repository, row)).0
unfolding add_dead_letter
add_dead_letter-IsWellFormed repository fresh_id input row w =
    elim (Option-cases (
      find (λ (d : DeadLetterRecord). str_eq d.webhook_event_id row.webhook_event_id)
        repository.dead_letters)) [
          | inr (existing, e) ↦ rw (e, add_dead_letter) w
          | inl e ↦
              rw (e, add_dead_letter)
                (record {
                  one_record = w.one_record;
                  one_letter =
                      added str_eq eq_iff letter_event repository.dead_letters _ w.one_letter e;
                })
        ]

dead_letter-IsWellFormed :
    (repository after : Repository) (fresh_id id : String) (input : DeadLetterInput)
    (letter : DeadLetterRecord)
    → IsWellFormed repository
    → dead_letter fresh_id repository id input ≡ ok (after, letter)
    → IsWellFormed after
unfolding dead_letter
dead_letter-IsWellFormed repository after fresh_id id input letter w h =
    elim (Result-cases (replace repository id (buried input))) [
      | inl (r, e) ↦
          let made : ◌≡◌ {A = Result (Repository × DeadLetterRecord)}
              (ok (add_dead_letter fresh_id input r)) (ok (after, letter)) =
            rw (e, dead_letter) at h in
          subst IsWellFormed (ap (λ (x : Repository × DeadLetterRecord). x.0) (ok_eq made)) (
            add_dead_letter-IsWellFormed r.0 fresh_id input r.1
              (replace-IsWellFormed repository w id (buried input) r.0 r.1 (λ x. refl) e))
      | inr (c, e) ↦
          let bad : ◌≡◌ {A = Result (Repository × DeadLetterRecord)} (err c) (ok (after, letter)) =
            rw (e, dead_letter) at h in
          absurd (err_ne_ok bad)
    ]

module _ (add_milliseconds : Instant → ℕ → Instant) where
  claim_each-IsWellFormed :
      (repository : Repository) (due : List RetryRecord) (now : Instant) (lease_ms : ℕ)
      → IsWellFormed repository
      → IsWellFormed (claim_each add_milliseconds repository due now lease_ms).0
  unfolding claim_each
  claim_each-IsWellFormed repository [] now lease_ms w = w
  claim_each-IsWellFormed repository (row ∷ due) now lease_ms w =
      let first = begin_attempt add_milliseconds repository row.id now lease_ms in
      let rest : IsWellFormed (claim_each add_milliseconds first.0 due now lease_ms).0 =
        claim_each-IsWellFormed first.0 due now lease_ms
          (begin_attempt-IsWellFormed repository w add_milliseconds row.id now lease_ms) in
      elim (Option-cases first.1) [
        | inl e ↦ rw (e, claim_each) rest
        | inr (claim, e) ↦ rw (e, claim_each) rest
      ]

  -- A call that returns, from the repository before it to the one after it.
  pub data Call : Repository → Repository → Type 0 where
    ensures :
        {r : Repository} (fresh_id webhook_event_id : String) (now : Instant)
        → Call r (ensure_pending fresh_id r webhook_event_id now).0
    claims :
        {r : Repository} (now : Instant) (limit lease_ms : ℕ)
        → Call r (claim_due add_milliseconds r now limit lease_ms).0
    begins :
        {r : Repository} (id : String) (now : Instant) (lease_ms : ℕ)
        → Call r (begin_attempt add_milliseconds r id now lease_ms).0
    succeeds :
        {r after : Repository} (id : String) (now : Instant) (row : RetryRecord)
        → mark_succeeded r id now ≡ ok (after, row)
        → Call r after
    schedules :
        {r after : Repository} (id : String) (input : ScheduleRetryInput) (row : RetryRecord)
        → schedule_retry r id input ≡ ok (after, row)
        → Call r after
    gives_up :
        {r after : Repository} (fresh_id id : String) (input : DeadLetterInput)
        (letter : DeadLetterRecord)
        → dead_letter fresh_id r id input ≡ ok (after, letter)
        → Call r after

  pub data Calls : Repository → Repository → Type 0 where
    done : {r : Repository} → Calls r r
    then_call : {r s t : Repository} → Calls r s → Call s t → Calls r t

  Call-IsWellFormed : {r s : Repository} → Call r s → IsWellFormed r → IsWellFormed s
  unfolding mark_succeeded schedule_retry claim_due
  Call-IsWellFormed {r} (ensures fresh_id w now) h = ensure_pending-IsWellFormed r h fresh_id w now
  Call-IsWellFormed {r} (claims now limit lease_ms) h =
      claim_each-IsWellFormed r
        (take limit (sort claim_order (keep (λ row. is_due row now) r.records))) now lease_ms h
  Call-IsWellFormed {r} (begins id now lease_ms) h =
      begin_attempt-IsWellFormed r h add_milliseconds id now lease_ms
  Call-IsWellFormed {r} {s} (succeeds id now row e) h =
      replace-IsWellFormed r h id _ s row (λ x. refl) e
  Call-IsWellFormed {r} {s} (schedules id input row e) h =
      replace-IsWellFormed r h id _ s row (λ x. refl) e
  Call-IsWellFormed {r} {s} (gives_up fresh_id id input letter e) h =
      dead_letter-IsWellFormed r s fresh_id id input letter h e

  -- After any sequence of calls on an empty repository, in any order, an event has at most one retry
  -- record and at most one dead letter.
  pub Calls-IsWellFormed :
      {r : Repository} → Calls (record { records = []; dead_letters = [] }) r → IsWellFormed r
  Calls-IsWellFormed done = record { one_record = tt; one_letter = tt }
  Calls-IsWellFormed (then_call {s} cs c) = Call-IsWellFormed c (Calls-IsWellFormed cs)
