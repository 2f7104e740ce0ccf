-- ===== src/Tests/Failures.antt =====
-- Exceptions, retry delays and claims.
use text.Mathlib.TextEquality.{eq_iff}
use hookx.Prelude.{
  sort, ℕ, ◌≡◌, refl, ◌↔◌, ◌⊎◌, ◌<◌, ◌≤◌, true, false, none, some, List, [], ◌∷◌, length, arith,
  lex,
}
use hookx.Domain.{Instant, ok, codes}
use hookx.Domain.{created}
use hookx.Webhook.{payment_captured, payment_authorized}
use hookx.Exceptions.Codes.{
  code_same, compare_exception_code, ExceptionCode, acknowledged, opened,
  can_transition_exception_status,
}
use hookx.Exceptions.Codes.Ranks.{stage, can_transition_exception_status_iff}
use hookx.Exceptions.Facts.{DetectionFact, code_of}
use hookx.Exceptions.Prerequisite.{unique_missing_prerequisite}
use hookx.Exceptions.Prerequisite.Unique.{Waits, unique_missing_prerequisite_iff}
use hookx.Exceptions.Draft.{ExceptionDraft, create_exception_draft, checked_draft, is_reason}
use hookx.Exceptions.Detect.{
  DetectionContext, draft_input, draft_from_fact, details, detect_exception, expand_facts, collect,
}
use hookx.Exceptions.Detect.Outcome.{
  flag, with_code, stated, InPlace, detect_exception-count, detect_exception-InPlace,
}
use hookx.Storage.Retry.Policy.{default_retry_policy, calculate_retry_delay}
use hookx.Storage.Retry.Policy.Backoff.{
  IsValid, delay_for, calculate_retry_delay_lem, calculate_retry_delay_mono,
}
use hookx.Storage.Retry.Classify.{other_error, classify_processing_error}
use hookx.Storage.Retry.Classify.Codes.{classify_processing_error-is_reason}
use hookx.Storage.Retry.Memory.{
  RetryRecord, RetryStatus, Repository, pending, ScheduleRetryInput, is_due, get_by_id,
  replace_first, mark_succeeded, schedule_retry, ensure_pending, leased, begin_attempt,
}
use hookx.Storage.Retry.Memory.Unique.{IsWellFormed}
use hookx.Storage.Retry.Memory.Calls.{Calls-IsWellFormed, done, then_call, ensures, begins}
use hookx.Storage.Retry.Memory.Moments.{moment, AreAlike}
use hookx.Storage.Retry.Memory.Leases.{
  IsClaimOf, begin_attempt-due, get_by_id-begin_attempt, begin_attempt_excludes,
  begin_attempt-mark_succeeded, begin_attempt-schedule_retry,
}
use hookx.Tests.Data.{noon, pay_1, razorpay, start, half_past}

unique_missing_prerequisite_iff_example :
    (unique_missing_prerequisite (some created) payment_captured ≡ some payment_authorized)
    ↔ Waits (some created) payment_captured payment_authorized
unique_missing_prerequisite_iff_example =
    unique_missing_prerequisite_iff (some created) payment_captured payment_authorized

can_transition_exception_status_iff_example :
    (can_transition_exception_status acknowledged opened ≡ true)
    ↔ (stage acknowledged ≤ stage opened)
can_transition_exception_status_iff_example =
    can_transition_exception_status_iff acknowledged opened

abbrev repeated_delivery : DetectionContext
repeated_delivery = record {
  detected_at = noon;
  correlation_id = "delivery-1";
  provider = some razorpay;
  payment_id = some pay_1;
  webhook_event_id = none;
  facts =
      DetectionFact.duplicate_event ∷ DetectionFact.conflicting_event
      ∷ DetectionFact.duplicate_event ∷ [];
}

abbrev drafts_for : DetectionFact → ExceptionDraft
drafts_for fact =
    let (code, reason, metadata) = details fact in
    checked_draft (draft_input repeated_delivery code reason metadata)

abbrev found : List ExceptionDraft
found = drafts_for DetectionFact.conflicting_event ∷ drafts_for DetectionFact.duplicate_event ∷ []

found_detected : detect_exception repeated_delivery ≡ ok found
unfolding detect_exception collect expand_facts draft_from_fact create_exception_draft details
    code_same code_of sort compare_exception_code
found_detected = refl

detect_exception-count_example :
    length (with_code ExceptionCode.duplicate_event found)
    ≡ flag (stated ExceptionCode.duplicate_event (expand_facts repeated_delivery.facts))
detect_exception-count_example =
    detect_exception-count repeated_delivery found ExceptionCode.duplicate_event found_detected

detect_exception-InPlace_example : InPlace found
detect_exception-InPlace_example = detect_exception-InPlace repeated_delivery found found_detected

default_IsValid : IsValid default_retry_policy
default_IsValid = (omega arith, omega arith)

calculate_retry_delay_lem_example :
    calculate_retry_delay 7 default_retry_policy ≡ ok (delay_for 7 default_retry_policy)
calculate_retry_delay_lem_example =
    calculate_retry_delay_lem 7 default_retry_policy default_IsValid (omega arith)

third_delay : calculate_retry_delay 3 default_retry_policy ≡ ok 4000
unfolding calculate_retry_delay
third_delay = refl

last_delay : calculate_retry_delay 7 default_retry_policy ≡ ok 60000
unfolding calculate_retry_delay
last_delay = refl

calculate_retry_delay_mono_example : (1000 ≤ 4000) × (4000 ≤ 60000) × (60000 ≤ 60000)
calculate_retry_delay_mono_example =
    calculate_retry_delay_mono 2 4 4000 60000 default_retry_policy default_IsValid third_delay
      last_delay

classify_processing_error-is_reason_example :
    is_reason (codes (classify_processing_error other_error).1) ≡ true
classify_processing_error-is_reason_example = classify_processing_error-is_reason other_error

-- An addition of time that is right for the lease of the tests.
abbrev add_half_minute : Instant → ℕ → Instant
add_half_minute at ms = half_past

abbrev first_row : RetryRecord
first_row = record {
  id = "r1";
  webhook_event_id = "w1";
  attempt_count = 0;
  status = pending;
  next_attempt_at = some start;
  lease_expires_at = none;
  last_error_code = none;
  last_failed_at = none;
  created_at = start;
  updated_at = start;
}

abbrev rows : List RetryRecord → Repository
rows records = record { records = records; dead_letters = [] }

abbrev claimed : RetryRecord
claimed = leased add_half_minute first_row start 30500

first_found : get_by_id (rows (first_row ∷ [])) "r1" ≡ some first_row
unfolding get_by_id
first_found = refl

start_alike : AreAlike start start
unfolding AreAlike
start_alike = refl

-- The end of the lease is written as the start is.
written_alike : AreAlike half_past start
unfolding AreAlike
written_alike = refl

first_claim :
    begin_attempt add_half_minute (rows (first_row ∷ [])) "r1" start 30500
    ≡ (rows (claimed ∷ []), some claimed)
unfolding begin_attempt get_by_id is_due replace_first lex
first_claim = refl

begin_attempt-due_example :
    ((moment start ≤ moment start)
      × ((next : Repository) × (row : RetryRecord) × (begin_attempt add_half_minute
              (rows (first_row ∷ []))
              "r1"
              start
              30500
            ≡ (next, some row))
          × (get_by_id next "r1" ≡ some row)
          × IsClaimOf add_half_minute first_row start 30500 row))
    ⊎ ((moment start < moment start)
        × (begin_attempt add_half_minute (rows (first_row ∷ [])) "r1" start 30500
            ≡ (rows (first_row ∷ []), none)))
begin_attempt-due_example =
    begin_attempt-due add_half_minute (rows (first_row ∷ [])) "r1" first_row start start 30500
      first_found refl start_alike

get_by_id-begin_attempt_example :
    get_by_id (rows (claimed ∷ [])) "r2" ≡ get_by_id (rows (first_row ∷ [])) "r2"
get_by_id-begin_attempt_example =
    get_by_id-begin_attempt add_half_minute (rows (first_row ∷ [])) (rows (claimed ∷ [])) "r1" "r2"
      claimed start 30500 first_claim (λ e. let b : false ≡ true = (eq_iff "r1" "r2").1 e in cc)

moment-start : moment start ≡ 20260101120000000
unfolding moment
moment-start = refl

moment-half_past : moment half_past ≡ 20260101120030500
unfolding moment
moment-half_past = refl

literals : 20260101120000000 < 20260101120030500
literals = omega arith

lease_holds : moment start < moment half_past
lease_holds = rw (moment-start, moment-half_past) literals

begin_attempt_excludes_example :
    begin_attempt add_half_minute (rows (claimed ∷ [])) "r1" start 30500
    ≡ (rows (claimed ∷ []), none)
begin_attempt_excludes_example =
    begin_attempt_excludes add_half_minute (rows (first_row ∷ [])) (rows (claimed ∷ [])) "r1"
      claimed start start 30500 30500 first_claim written_alike lease_holds

abbrev finished : RetryRecord
finished = record claimed {
  status = RetryStatus.succeeded;
  next_attempt_at = none;
  lease_expires_at = none;
  updated_at = half_past;
}

first_success :
    mark_succeeded (rows (claimed ∷ [])) "r1" half_past ≡ ok (rows (finished ∷ []), finished)
unfolding mark_succeeded
first_success = refl

begin_attempt-mark_succeeded_example :
    begin_attempt add_half_minute (rows (finished ∷ [])) "r1" half_past 30500
    ≡ (rows (finished ∷ []), none)
begin_attempt-mark_succeeded_example =
    begin_attempt-mark_succeeded add_half_minute (rows (claimed ∷ [])) (rows (finished ∷ [])) "r1"
      finished half_past half_past 30500 first_success

abbrev again : ScheduleRetryInput
again = record {
  next_attempt_at = half_past;
  error_code = "TIMEOUT";
  failed_at = start;
  now = start;
}

abbrev scheduled : RetryRecord
scheduled = record claimed {
  status = RetryStatus.retry_scheduled;
  next_attempt_at = some half_past;
  lease_expires_at = none;
  last_error_code = some "TIMEOUT";
  last_failed_at = some start;
  updated_at = start;
}

first_schedule :
    schedule_retry (rows (claimed ∷ [])) "r1" again ≡ ok (rows (scheduled ∷ []), scheduled)
unfolding schedule_retry
first_schedule = refl

begin_attempt-schedule_retry_example :
    begin_attempt add_half_minute (rows (scheduled ∷ [])) "r1" start 30500
    ≡ (rows (scheduled ∷ []), none)
begin_attempt-schedule_retry_example =
    begin_attempt-schedule_retry add_half_minute (rows (claimed ∷ [])) (rows (scheduled ∷ [])) "r1"
      scheduled again start 30500 first_schedule written_alike lease_holds

abbrev empty : Repository
empty = rows []

abbrev opened_once : Repository
opened_once = (ensure_pending "r1" empty "w1" start).0

Calls-IsWellFormed_example :
    IsWellFormed
      (ensure_pending "r2"
        (begin_attempt add_half_minute opened_once "r1" start 30500).0
        "w1"
        half_past).0
Calls-IsWellFormed_example = Calls-IsWellFormed add_half_minute (
    then_call (then_call (then_call done (ensures "r1" "w1" start)) (begins "r1" start 30500))
      (ensures "r2" "w1" half_past))
