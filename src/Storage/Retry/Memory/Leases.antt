-- ===== src/Storage/Retry/Memory/Leases.antt =====
-- Who may work on an event: one claim at a time, and none once it is finished.
use text.Mathlib.TextEquality.{eq_iff}
use hookx.Prelude.{
  ℕ, ◌<◌, ◌≤◌, leb, String, suc, ◌≡◌, ◌≢◌, refl, sym, ap, ◌∙◌, subst, Ordering, true, false, Option,
  none, some, List, [], ◌∷◌, find, arith, Option-cases, Bool-cases, inl, inr, ◌⊎◌,
}
use hookx.Domain.{ok_eq, Instant, ok, err}
use hookx.Storage.Retry.Memory.Moments.{moment, AreAlike, compare_text_iff}
use hookx.Storage.Retry.Memory.{
  RetryRecord, Repository, ScheduleRetryInput, RetryStatus, is_due, reached, at_most, compare_text,
  has_id, get_by_id, replace_first, replace, mark_succeeded, schedule_retry, leased, begin_attempt,
  begin_found, store_lease,
}

found_id :
    (id : String) (rows : List RetryRecord) (row : RetryRecord)
    → find (has_id id) rows ≡ some row
    → has_id id row ≡ true
found_id id [] row h = cc
found_id id (r ∷ rows) row h = ground (arith, found_id id rows row)

find-replace_first :
    (id : String) (rows : List RetryRecord) (row next : RetryRecord)
    → find (has_id id) rows ≡ some row
    → has_id id next ≡ true
    → find (has_id id) (replace_first id next rows) ≡ some next
unfolding replace_first
find-replace_first id [] row next h k = cc
find-replace_first id (r ∷ rows) row next h k = elim (Bool-cases (has_id id r)) [
  | inl e ↦ rw (e, k) refl
  | inr e ↦ rw (e, e) (find-replace_first id rows row next (rw e at h) k)
]

find-replace_other :
    (id other : String) (rows : List RetryRecord) (next : RetryRecord)
    → next.id ≡ id
    → id ≢ other
    → find (has_id other) (replace_first id next rows) ≡ find (has_id other) rows
unfolding replace_first
find-replace_other id other [] next e n = refl
find-replace_other id other (r ∷ rows) next e n = ground (
  arith,
  find-replace_other id other rows next e n,
  eq_iff r.id id,
  eq_iff r.id other,
  eq_iff next.id other,
)

none_ne_some {ℓ} : {A : Type ℓ} {r : A} → none ≡ some r → ⊥
none_ne_some h = cc

some_inj {ℓ} : {A : Type ℓ} {x y : A} → some x ≡ some y → x ≡ y
some_inj h = cc

-- Where the private `replace` succeeds, the record that it returns is the one that is found.
pub replace_inv :
    (repository next : Repository) (id : String) (update : RetryRecord → RetryRecord)
    (row : RetryRecord)
    → ((r : RetryRecord) → (update r).id ≡ r.id)
    → replace repository id update ≡ ok (next, row)
    → (current : RetryRecord) × (get_by_id repository id ≡ some current)
      × (row ≡ update current)
      × (get_by_id next id ≡ some row)
unfolding replace get_by_id
replace_inv repository next id update row keeps h =
    elim (Option-cases (find (has_id id) repository.records)) [
      | inl e ↦
          let bad : err "Retry record was not found" ≡ ok (next, row) =
            rw (e, replace, get_by_id) at h in
          cc
      | inr (current, e) ↦
          let made : ok (
            record repository { records = replace_first id (update current) repository.records },
            update current,
          )
              ≡ ok (next, row) =
            rw (e, replace, get_by_id) at h in
          let same_id : has_id id (update current) ≡ true =
            rw (keeps current) (found_id id repository.records current e) in
          let updated =
            find-replace_first id repository.records current (update current) e same_id in
          let both = ok_eq made in
          let p = ap (λ (x : Repository × RetryRecord). x.0) both in
          let q = ap (λ (x : Repository × RetryRecord). x.1) both in
          (
            current,
            e,
            sym q,
            subst (λ x. find (has_id id) x.records ≡ some row) p (updated ∙ ap some q),
          )
    ]

-- The time from which a retry can be claimed: that of its next attempt, or the end of its lease.
abbrev pub free_at : RetryRecord → Option Instant
free_at row = elim row.status [
  | RetryStatus.pending ↦ row.next_attempt_at
  | RetryStatus.retry_scheduled ↦ row.next_attempt_at
  | RetryStatus.processing ↦ row.lease_expires_at
  | RetryStatus.succeeded ↦ none
  | RetryStatus.dead_lettered ↦ none
]

not_after : (o : Ordering) → (o ≡ Ordering.gt → ⊥) → at_most o ≡ true
not_after Ordering.lt h = refl
not_after Ordering.eq h = refl
not_after Ordering.gt h = absurd (h refl)

reached_early :
    (at now : Instant) → AreAlike at now → moment now < moment at → reached (some at) now ≡ false
unfolding reached
reached_early at now written early = rw ((compare_text_iff at now written).1 early) refl

reached_come :
    (at now : Instant) → AreAlike at now → moment at ≤ moment now → reached (some at) now ≡ true
unfolding reached
reached_come at now written come =
    not_after (compare_text at now) (λ g.
      let early = (compare_text_iff at now written).0 g in absurd (omega (arith, early, come)))

is_due_free :
    (row : RetryRecord) (at now : Instant)
    → free_at row ≡ some at
    → is_due row now ≡ reached (some at) now
unfolding is_due
is_due_free row at now free = at_status row.status refl
  where
    at_status :
        (status : RetryStatus) → row.status ≡ status → is_due row now ≡ reached (some at) now
    at_status RetryStatus.pending e =
        let given : row.next_attempt_at ≡ some at = rw e at free in
        rw e (ap (λ a. reached a now) given)
    at_status RetryStatus.retry_scheduled e =
        let given : row.next_attempt_at ≡ some at = rw e at free in
        rw e (ap (λ a. reached a now) given)
    at_status RetryStatus.processing e =
        let given : row.lease_expires_at ≡ some at = rw e at free in
        rw e (ap (λ a. reached a now) given)
    at_status RetryStatus.succeeded e =
        let given : none ≡ some at = rw e at free in absurd (none_ne_some given)
    at_status RetryStatus.dead_lettered e =
        let given : none ≡ some at = rw e at free in absurd (none_ne_some given)

is_due_in_time :
    (row : RetryRecord) (at now : Instant)
    → free_at row ≡ some at
    → AreAlike at now
    → ((moment at ≤ moment now) × (is_due row now ≡ true))
      ⊎ ((moment now < moment at) × (is_due row now ≡ false))
is_due_in_time row at now free written = elim (Bool-cases (leb (moment at) (moment now))) [
  | inl e ↦
      let come : moment at ≤ moment now = ground arith in
      inl (come, is_due_free row at now free ∙ reached_come at now written come)
  | inr e ↦
      let early : moment now < moment at = ground arith in
      inr (early, is_due_free row at now free ∙ reached_early at now written early)
]

module _ (add_milliseconds : Instant → ℕ → Instant) where
  -- A record that is not due is not claimed.
  not_due :
      (repository : Repository) (id : String) (row : RetryRecord) (later : Instant) (lease_ms : ℕ)
      → get_by_id repository id ≡ some row
      → is_due row later ≡ false
      → begin_attempt add_milliseconds repository id later lease_ms ≡ (repository, none)
  unfolding begin_attempt
  not_due repository id row later lease_ms found h = rw (found, begin_attempt) (rw h refl)

  begin_attempt_found :
      (repository : Repository) (id : String) (now : Instant) (lease_ms : ℕ) (current : RetryRecord)
      → get_by_id repository id ≡ some current
      → begin_attempt add_milliseconds repository id now lease_ms
        ≡ begin_found add_milliseconds repository id now lease_ms current
  unfolding begin_attempt
  begin_attempt_found repository id now lease_ms current e = rw (e, begin_attempt) refl

  store_lease_inv :
      (repository next : Repository) (id : String) (new row : RetryRecord)
      → store_lease add_milliseconds repository id new ≡ (next, some row)
      → (row ≡ new)
        × (next ≡ record repository { records = replace_first id new repository.records })
  unfolding store_lease
  store_lease_inv repository next id new row h = (
    sym (some_inj (ap (λ (x : Repository × Option RetryRecord). x.1) h)),
    sym (ap (λ (x : Repository × Option RetryRecord). x.0) h),
  )

  begin_found_inv :
      (repository next : Repository) (id : String) (row : RetryRecord) (now : Instant)
      (lease_ms : ℕ) (current : RetryRecord)
      → begin_found add_milliseconds repository id now lease_ms current ≡ (next, some row)
      → (is_due current now ≡ true)
        × (row ≡ leased add_milliseconds current now lease_ms)
        × (next ≡ record repository {
          records =
              replace_first id (leased add_milliseconds current now lease_ms) repository.records;
        })
  unfolding begin_found
  begin_found_inv repository next id row now lease_ms current h =
      elim (Bool-cases (is_due current now)) [
        | inl due ↦
            let (r, n) = store_lease_inv repository next id _ row (rw (due, begin_found) at h) in
            (due, r, n)
        | inr early ↦
            let bad : ◌≡◌ {A = Repository × Option RetryRecord} (repository, none)
                (next, some row) =
              rw (early, begin_found) at h in
            absurd (none_ne_some (ap (λ (x : Repository × Option RetryRecord). x.1) bad))
      ]

  begin_attempt_inv :
      (repository next : Repository) (id : String) (row : RetryRecord) (now : Instant)
      (lease_ms : ℕ)
      → begin_attempt add_milliseconds repository id now lease_ms ≡ (next, some row)
      → (current : RetryRecord) × (get_by_id repository id ≡ some current)
        × (is_due current now ≡ true)
        × (row ≡ leased add_milliseconds current now lease_ms)
        × (next ≡ record repository {
          records =
              replace_first id (leased add_milliseconds current now lease_ms) repository.records;
        })
  unfolding begin_attempt
  begin_attempt_inv repository next id row now lease_ms h =
      elim (Option-cases (get_by_id repository id)) [
        | inl e ↦
            let bad : ◌≡◌ {A = Repository × Option RetryRecord} (repository, none)
                (next, some row) =
              rw (e, begin_attempt) at h in
            absurd (none_ne_some (ap (λ (x : Repository × Option RetryRecord). x.1) bad))
        | inr (current, e) ↦
            let (due, r, n) =
              begin_found_inv repository next id row now lease_ms current
                (sym (begin_attempt_found repository id now lease_ms current e) ∙ h) in
            (current, e, due, r, n)
      ]

  -- What a claim makes of a record.
  abbrev pub IsClaimOf : RetryRecord → Instant → ℕ → RetryRecord → Type 0
  IsClaimOf current now lease_ms row =
      (row.id ≡ current.id)
      × (row.status ≡ RetryStatus.processing)
      × (row.attempt_count ≡ suc current.attempt_count)
      × (row.lease_expires_at ≡ some (add_milliseconds now lease_ms))

  leased-IsClaimOf :
      (current : RetryRecord) (now : Instant) (lease_ms : ℕ)
      → IsClaimOf current now lease_ms (leased add_milliseconds current now lease_ms)
  leased-IsClaimOf current now lease_ms = (refl, refl, refl, refl)

  due_claimed :
      (repository : Repository) (id : String) (current : RetryRecord) (now : Instant) (lease_ms : ℕ)
      → get_by_id repository id ≡ some current
      → is_due current now ≡ true
      → (next : Repository) × (row : RetryRecord) × (begin_attempt add_milliseconds repository id
            now lease_ms
          ≡ (next, some row))
        × (get_by_id next id ≡ some row)
        × IsClaimOf current now lease_ms row
  unfolding get_by_id begin_found store_lease
  due_claimed repository id current now lease_ms found due =
      let row = leased add_milliseconds current now lease_ms in
      let own : current.id ≡ id = (eq_iff _ _).0 (found_id id repository.records current found) in
      (
        record repository { records = replace_first id row repository.records },
        row,
        begin_attempt_found repository id now lease_ms current found ∙ rw (due, begin_found) refl,
        find-replace_first id repository.records current row found ((eq_iff _ _).1 own),
        leased-IsClaimOf current now lease_ms,
      )

  -- A stored retry that waits for a time, or is leased until one, is claimed from that time on: the
  -- claim is answered and stored with one more attempt, and a new lease; before that time nothing is
  -- claimed and nothing changes. Both times are written with the same number of digits.
  pub begin_attempt-due :
      (repository : Repository) (id : String) (current : RetryRecord) (at now : Instant)
      (lease_ms : ℕ)
      → get_by_id repository id ≡ some current
      → free_at current ≡ some at
      → AreAlike at now
      → ((moment at ≤ moment now)
          × ((next : Repository) × (row : RetryRecord) × (begin_attempt add_milliseconds repository
                  id now lease_ms
                ≡ (next, some row))
              × (get_by_id next id ≡ some row)
              × IsClaimOf current now lease_ms row))
        ⊎ ((moment now < moment at)
            × (begin_attempt add_milliseconds repository id now lease_ms ≡ (repository, none)))
  begin_attempt-due repository id current at now lease_ms found free written =
      elim (is_due_in_time current at now free written) [
        | inl (come, due) ↦ inl (come, due_claimed repository id current now lease_ms found due)
        | inr (early, wait) ↦ inr (early, not_due repository id current now lease_ms found wait)
      ]

  -- A claim changes no record with another id.
  pub get_by_id-begin_attempt :
      (repository next : Repository) (id other : String) (row : RetryRecord) (now : Instant)
      (lease_ms : ℕ)
      → begin_attempt add_milliseconds repository id now lease_ms ≡ (next, some row)
      → id ≢ other
      → get_by_id next other ≡ get_by_id repository other
  unfolding get_by_id
  get_by_id-begin_attempt repository next id other row now lease_ms h different =
      let (current, found, due, r, n) = begin_attempt_inv repository next id row now lease_ms h in
      let own : current.id ≡ id = (eq_iff _ _).0 (found_id id repository.records current found) in
      rw n (
        find-replace_other id other repository.records
          (leased add_milliseconds current now lease_ms) own different)

  -- In the repository that a claim leaves, the record is not claimed again at a time before the
  -- lease ends, where both times are written with the same number of digits.
  pub begin_attempt_excludes :
      (repository next : Repository) (id : String) (row : RetryRecord) (now later : Instant)
      (lease_ms again_ms : ℕ)
      → begin_attempt add_milliseconds repository id now lease_ms ≡ (next, some row)
      → AreAlike (add_milliseconds now lease_ms) later
      → moment later < moment (add_milliseconds now lease_ms)
      → begin_attempt add_milliseconds next id later again_ms ≡ (next, none)
  unfolding get_by_id is_due
  begin_attempt_excludes repository next id row now later lease_ms again_ms h written early =
      let (current, found, due, r, n) = begin_attempt_inv repository next id row now lease_ms h in
      let own : current.id ≡ id = (eq_iff _ _).0 (found_id id repository.records current found) in
      let kept : get_by_id next id ≡ some row =
        rw (n, r)
          (find-replace_first id repository.records current
            (leased add_milliseconds current now lease_ms) found ((eq_iff _ _).1 own)) in
      not_due next id row later again_ms kept (rw r (reached_early _ later written early))

  -- In the repository that a mark of success leaves, the retry is not claimed at any time.
  pub begin_attempt-mark_succeeded :
      (repository next : Repository) (id : String) (row : RetryRecord) (now later : Instant)
      (lease_ms : ℕ)
      → mark_succeeded repository id now ≡ ok (next, row)
      → begin_attempt add_milliseconds next id later lease_ms ≡ (next, none)
  unfolding mark_succeeded is_due
  begin_attempt-mark_succeeded repository next id row now later lease_ms h =
      let (current, found, r, kept) = replace_inv repository next id _ row (λ r. refl) h in
      not_due next id row later lease_ms kept (rw r refl)

  -- In the repository that a scheduling leaves, the retry is not claimed before its time, where both
  -- times are written with the same number of digits.
  pub begin_attempt-schedule_retry :
      (repository next : Repository) (id : String) (row : RetryRecord) (input : ScheduleRetryInput)
      (later : Instant) (lease_ms : ℕ)
      → schedule_retry repository id input ≡ ok (next, row)
      → AreAlike input.next_attempt_at later
      → moment later < moment input.next_attempt_at
      → begin_attempt add_milliseconds next id later lease_ms ≡ (next, none)
  unfolding schedule_retry is_due
  begin_attempt-schedule_retry repository next id row input later lease_ms h written early =
      let (current, found, r, kept) = replace_inv repository next id _ row (λ r. refl) h in
      not_due next id row later lease_ms kept (rw r (reached_early _ later written early))
