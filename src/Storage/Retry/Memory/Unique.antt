-- ===== src/Storage/Retry/Memory/Unique.antt =====
-- Whatever the order of calls, an event has one retry record and one dead letter at most.
use text.Mathlib.TextEquality.{eq_iff}
use hookx.Prelude.{
  IsUnique, added, ℕ, String, ◌≡◌, refl, ap, subst, some, List, [], ◌∷◌, map, find, Option-cases,
  Bool-cases, inl, inr,
}
use text.Mathlib.Text.{◌==◌ as str_eq}
use hookx.Domain.{err_ne_ok, ok_eq, Instant, Result, ok, err}
use hookx.Storage.Retry.Memory.{
  RetryRecord, DeadLetterRecord, Repository, has_id, for_event, get_by_id, get_by_webhook_event_id,
  ensure_pending, replace_first, replace, is_due, leased, store_lease, begin_found, begin_attempt,
}

abbrev pub event_of : RetryRecord → String
event_of row = row.webhook_event_id

abbrev pub letter_event : DeadLetterRecord → String
letter_event letter = letter.webhook_event_id

-- The invariant of the repository.
pub record IsWellFormed (repository : Repository) : Type 0 where
  pub one_record : IsUnique (map event_of repository.records)
  pub one_letter : IsUnique (map letter_event repository.dead_letters)

map-replace_first :
    (id : String) (rows : List RetryRecord) (row next : RetryRecord)
    → find (has_id id) rows ≡ some row
    → event_of next ≡ event_of row
    → map event_of (replace_first id next rows) ≡ map event_of rows
unfolding replace_first
map-replace_first id [] row next h e = refl
map-replace_first id (r ∷ rows) row next h e = elim (Bool-cases (has_id id r)) [
  | inl same ↦ let first : some r ≡ some row = rw same at h in rw same (cc)
  | inr other ↦ rw other (ap (event_of r ∷◌) (map-replace_first id rows row next (rw other at h) e))
]

-- The operations keep the invariant.
module _ (repository : Repository) (w : IsWellFormed repository) where
  pub ensure_pending-IsWellFormed :
      (fresh_id webhook_event_id : String) (now : Instant)
      → IsWellFormed (ensure_pending fresh_id repository webhook_event_id now).0
  unfolding ensure_pending get_by_webhook_event_id
  ensure_pending-IsWellFormed fresh_id webhook_event_id now =
      elim (Option-cases (find (for_event webhook_event_id) repository.records)) [
        | inr (existing, e) ↦ rw (e, ensure_pending, get_by_webhook_event_id) w
        | inl e ↦
            rw (e, ensure_pending, get_by_webhook_event_id)
              (record {
                one_record = added str_eq eq_iff event_of repository.records _ w.one_record e;
                one_letter = w.one_letter;
              })
      ]

  replaced :
      (id : String) (row next : RetryRecord)
      → get_by_id repository id ≡ some row
      → event_of next ≡ event_of row
      → IsWellFormed (record repository { records = replace_first id next repository.records })
  unfolding get_by_id
  replaced id row next h e = record {
    one_record = rw (map-replace_first id repository.records row next h e) w.one_record;
    one_letter = w.one_letter;
  }

  pub replace-IsWellFormed :
      (id : String) (update : RetryRecord → RetryRecord) (after : Repository) (row : RetryRecord)
      → ((r : RetryRecord) → event_of (update r) ≡ event_of r)
      → replace repository id update ≡ ok (after, row)
      → IsWellFormed after
  unfolding replace
  replace-IsWellFormed id update after row same h = elim (Option-cases (get_by_id repository id)) [
    | inl e ↦
        let bad : ◌≡◌ {A = Result (Repository × RetryRecord)} (err "Retry record was not found")
            (ok (after, row)) =
          rw (e, replace) at h in
        absurd (err_ne_ok bad)
    | inr (current, e) ↦
        let made : ◌≡◌ {A = Result (Repository × RetryRecord)}
            (ok (
              record repository { records = replace_first id (update current) repository.records },
              update current,
            ))
            (ok (after, row)) =
          rw (e, replace) at h in
        subst IsWellFormed (ap (λ (x : Repository × RetryRecord). x.0) (ok_eq made))
          (replaced id current (update current) e (same current))
  ]

  pub begin_attempt-IsWellFormed :
      (add_milliseconds : Instant → ℕ → Instant) (id : String) (now : Instant) (lease_ms : ℕ)
      → IsWellFormed (begin_attempt add_milliseconds repository id now lease_ms).0
  unfolding begin_attempt begin_found store_lease
  begin_attempt-IsWellFormed add_milliseconds id now lease_ms =
      elim (Option-cases (get_by_id repository id)) [
        | inl e ↦ rw (e, begin_attempt) w
        | inr (current, e) ↦
            rw (e, begin_attempt)
              (elim (Bool-cases (is_due current now)) [
                | inl due ↦
                    rw (due, begin_found)
                      (replaced id current (leased add_milliseconds current now lease_ms) e refl)
                | inr early ↦ rw (early, begin_found) w
              ])
      ]
