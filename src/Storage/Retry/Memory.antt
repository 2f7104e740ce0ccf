-- ===== src/Storage/Retry/Memory.antt =====
-- packages/storage/src/retry/memory-retry-repository.ts, types.ts and status.ts.
pub mod Leases
pub mod DeadLetters
pub mod Moments
pub mod Unique
pub mod Calls
use text.Mathlib.Text.{◌==◌ as str_eq}
use hookx.Prelude.{
  ℕ, String, suc, Ordering, Bool, true, false, not, ◌&&◌, ◌||◌, Option, none, some, List, [], ◌∷◌,
  ◌++◌, find, keep, length, take, sort, then, lex, if◌then◌else◌,
}
use hookx.Domain.{◌>>=◌, Instant, Result, ok, err, codes}

pub data RetryStatus : Type 0 where
  pending processing succeeded retry_scheduled dead_lettered : RetryStatus

pub record RetryRecord : Type 0 where
  pub id : String
  pub webhook_event_id : String
  pub attempt_count : ℕ
  pub status : RetryStatus
  pub next_attempt_at : Option Instant
  pub lease_expires_at : Option Instant
  pub last_error_code : Option String
  pub last_failed_at : Option Instant
  pub created_at : Instant
  pub updated_at : Instant

pub record DeadLetterRecord : Type 0 where
  pub id : String
  pub webhook_event_id : String
  pub retry_id : String
  pub failure_code : String
  pub attempt_count : ℕ
  pub dead_lettered_at : Instant

pub record ScheduleRetryInput : Type 0 where
  pub next_attempt_at : Instant
  pub error_code : String
  pub failed_at : Instant
  pub now : Instant

pub record DeadLetterInput : Type 0 where
  pub error_code : String
  pub now : Instant

-- The fields of the class.
pub record Repository : Type 0 where
  pub records : List RetryRecord
  pub dead_letters : List DeadLetterRecord

-- This file's own comparison of instants, by the texts.
unfoldable pub compare_text : Instant → Instant → Ordering
compare_text left right = lex (codes left.text) (codes right.text)

abbrev at_most : Ordering → Bool
at_most Ordering.gt = false
at_most _ = true

-- `at !== null && compareInstant(at, now) <= 0`.
reached : Option Instant → Instant → Bool
unfolding compare_text
reached none now = false
reached (some at) now = at_most (compare_text at now)

unfoldable pub is_due : RetryRecord → Instant → Bool
unfolding reached
is_due row now = elim row.status [
  | pending ↦ reached row.next_attempt_at now
  | retry_scheduled ↦ reached row.next_attempt_at now
  | processing ↦ reached row.lease_expires_at now
  | succeeded ↦ false
  | dead_lettered ↦ false
]

abbrev has_id : String → RetryRecord → Bool
has_id id row = str_eq row.id id

abbrev for_event : String → RetryRecord → Bool
for_event webhook_event_id row = str_eq row.webhook_event_id webhook_event_id

unfoldable pub get_by_webhook_event_id : Repository → String → Option RetryRecord
get_by_webhook_event_id repository webhook_event_id =
    find (for_event webhook_event_id) repository.records

unfoldable pub get_by_id : Repository → String → Option RetryRecord
get_by_id repository id = find (has_id id) repository.records

-- `randomUUID()` is the argument `fresh_id`.
unfoldable pub ensure_pending : String → Repository → String → Instant → Repository × RetryRecord
unfolding get_by_webhook_event_id
ensure_pending fresh_id repository webhook_event_id now =
    elim (get_by_webhook_event_id repository webhook_event_id) [
      | some existing ↦ (repository, existing)
      | none ↦
          let created : RetryRecord = record {
            id = fresh_id;
            webhook_event_id = webhook_event_id;
            attempt_count = 0;
            status = pending;
            next_attempt_at = some now;
            lease_expires_at = none;
            last_error_code = none;
            last_failed_at = none;
            created_at = now;
            updated_at = now;
          } in
          (record repository { records = repository.records ++ created ∷ [] }, created)
    ]

is_active : RetryRecord → Bool
is_active row = elim row.status [
  | pending ↦ true
  | processing ↦ true
  | retry_scheduled ↦ true
  | succeeded ↦ false
  | dead_lettered ↦ false
]

unfoldable pub list_active : Repository → List RetryRecord
unfolding is_active
list_active repository = keep is_active repository.records

-- `records[index] = next` at the first record with the id.
unfoldable pub replace_first : String → RetryRecord → List RetryRecord → List RetryRecord
replace_first id next [] = []
replace_first id next (row ∷ rows) =
    if has_id id row then next ∷ rows else row ∷ replace_first id next rows

-- The private method `replace`.
unfoldable pub replace :
    Repository → String → (RetryRecord → RetryRecord) → Result (Repository × RetryRecord)
unfolding get_by_id replace_first
replace repository id update = elim (get_by_id repository id) [
  | none ↦ err "Retry record was not found"
  | some current ↦ ok (
    record repository { records = replace_first id (update current) repository.records },
    update current,
  )
]

unfoldable pub mark_succeeded : Repository → String → Instant → Result (Repository × RetryRecord)
unfolding replace
mark_succeeded repository id now = replace repository id (λ current. record current {
  status = succeeded;
  next_attempt_at = none;
  lease_expires_at = none;
  updated_at = now;
})

unfoldable pub schedule_retry :
    Repository → String → ScheduleRetryInput → Result (Repository × RetryRecord)
unfolding replace
schedule_retry repository id input = replace repository id (λ current. record current {
  status = retry_scheduled;
  next_attempt_at = some input.next_attempt_at;
  lease_expires_at = none;
  last_error_code = some input.error_code;
  last_failed_at = some input.failed_at;
  updated_at = input.now;
})

-- The rest of `deadLetter`, after the retry is replaced.
unfoldable pub add_dead_letter :
    String → DeadLetterInput → Repository × RetryRecord → Repository × DeadLetterRecord
add_dead_letter fresh_id input (repository, retry) =
    elim (find (λ (d : DeadLetterRecord). str_eq d.webhook_event_id retry.webhook_event_id)
      repository.dead_letters) [
        | some existing ↦ (repository, existing)
        | none ↦
            let created : DeadLetterRecord = record {
              id = fresh_id;
              webhook_event_id = retry.webhook_event_id;
              retry_id = retry.id;
              failure_code = input.error_code;
              attempt_count = retry.attempt_count;
              dead_lettered_at = input.now;
            } in
            (record repository { dead_letters = repository.dead_letters ++ created ∷ [] }, created)
      ]

-- The record of a retry that is given up.
abbrev pub buried : DeadLetterInput → RetryRecord → RetryRecord
buried input current = record current {
  status = dead_lettered;
  next_attempt_at = none;
  lease_expires_at = none;
  last_error_code = some input.error_code;
  last_failed_at = some input.now;
  updated_at = input.now;
}

unfoldable pub dead_letter :
    String → Repository → String → DeadLetterInput → Result (Repository × DeadLetterRecord)
unfolding replace add_dead_letter
dead_letter fresh_id repository id input =
    replace repository id (buried input) >>= (λ r. ok (add_dead_letter fresh_id input r))

-- `nextAttemptAt ?? createdAt`.
claim_time : RetryRecord → Instant
claim_time row = elim row.next_attempt_at [ none ↦ row.created_at | some at ↦ at ]

-- The comparator of `claimDue`.
unfoldable pub claim_order : RetryRecord → RetryRecord → Ordering
unfolding compare_text claim_time
claim_order left right =
    (then) (compare_text (claim_time left) (claim_time right))
      (lex (codes left.id) (codes right.id))

-- `addMilliseconds`, which goes through the calendar of `Date`.
module _ (add_milliseconds : Instant → ℕ → Instant) where
  -- The record of an attempt that begins.
  abbrev pub leased : RetryRecord → Instant → ℕ → RetryRecord
  leased current now lease_ms = record current {
    status = processing;
    attempt_count = suc current.attempt_count;
    lease_expires_at = some (add_milliseconds now lease_ms);
    updated_at = now;
  }

  -- `records[index] = next`, and `next`.
  store_lease : Repository → String → RetryRecord → Repository × Option RetryRecord
  unfolding replace_first
  store_lease repository id next =
      (record repository { records = replace_first id next repository.records }, some next)

  begin_found : Repository → String → Instant → ℕ → RetryRecord → Repository × Option RetryRecord
  unfolding is_due store_lease
  begin_found repository id now lease_ms current =
      if not (is_due current now)
      then (repository, none)
      else store_lease repository id (leased current now lease_ms)

  unfoldable pub begin_attempt : Repository → String → Instant → ℕ → Repository × Option RetryRecord
  unfolding get_by_id begin_found
  begin_attempt repository id now lease_ms = elim (get_by_id repository id) [
    | none ↦ (repository, none)
    | some current ↦ begin_found repository id now lease_ms current
  ]

  -- The `for` loop of `claimDue`.
  unfoldable pub claim_each :
      Repository → List RetryRecord → Instant → ℕ → Repository × List RetryRecord
  unfolding begin_attempt
  claim_each repository [] now lease_ms = (repository, [])
  claim_each repository (row ∷ due) now lease_ms =
      let (next, started) = begin_attempt repository row.id now lease_ms in
      let (last, claimed) = claim_each next due now lease_ms in
      elim started [ none ↦ (last, claimed) | some claim ↦ (last, claim ∷ claimed) ]

  unfoldable pub claim_due : Repository → Instant → ℕ → ℕ → Repository × List RetryRecord
  unfolding claim_each
  claim_due repository now limit lease_ms =
      claim_each repository
        (take limit (sort claim_order (keep (λ row. is_due row now) repository.records))) now
        lease_ms
