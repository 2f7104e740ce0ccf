-- ===== src/Tests/Times.antt =====
-- Amounts, times and counts at concrete values.
use hookx.Prelude.{◌≡◌, refl, some}
use hookx.Domain.{ok, err, make_checked}
use hookx.Webhook.Amount.{parse_amount_minor_string}
use hookx.Webhook.Timestamp.{normalize_occurred_at}
use hookx.Pipeline.{LifecycleEvent}
use hookx.Pipeline.Metrics.{create_process_metrics, record_lifecycle_metric}
use hookx.Tests.Data.{later}

amount_parsed : parse_amount_minor_string (some "4200") ≡ ok 4200
unfolding parse_amount_minor_string
amount_parsed = refl

amount_padded : parse_amount_minor_string (some "0042") ≡ err "INVALID_AMOUNT"
unfolding parse_amount_minor_string
amount_padded = refl

offset_normalized : normalize_occurred_at (some "2026-01-01T12:00:30.5+00:00") ≡ ok later
unfolding normalize_occurred_at
offset_normalized = make_checked "INVALID_INSTANT" later

zulu_kept : normalize_occurred_at (some "2026-01-01T12:00:30.5Z") ≡ ok later
unfolding normalize_occurred_at
zulu_kept = make_checked "INVALID_INSTANT" later

other_offset_refused :
    normalize_occurred_at (some "2026-01-01T12:00:00+05:30") ≡ err "INVALID_TIMESTAMP"
unfolding normalize_occurred_at
other_offset_refused = refl

conflict_counted :
    record_lifecycle_metric (some create_process_metrics) LifecycleEvent.conflict_detected
    ≡ some (record create_process_metrics { conflicts = 1 })
unfolding record_lifecycle_metric
conflict_counted = refl
