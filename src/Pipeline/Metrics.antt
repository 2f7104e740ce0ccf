-- ===== src/Pipeline/Metrics.antt =====
-- packages/observability/src/metrics.ts: what a process counts of the steps that it logs.
use hookx.Prelude.{ℕ, suc, Option, none, some}
use hookx.Pipeline.{LifecycleEvent}

pub data RuntimeMetricName : Type 0 where
  webhooks_received webhooks_rejected duplicates conflicts processing_failures retry_attempts
        dead_letter_events :
      RuntimeMetricName

-- The object `counts`.
pub record RuntimeMetricCounts : Type 0 where
  pub webhooks_received : ℕ
  pub webhooks_rejected : ℕ
  pub duplicates : ℕ
  pub conflicts : ℕ
  pub processing_failures : ℕ
  pub retry_attempts : ℕ
  pub dead_letter_events : ℕ

abbrev pub create_process_metrics : RuntimeMetricCounts
create_process_metrics = record {
  webhooks_received = 0;
  webhooks_rejected = 0;
  duplicates = 0;
  conflicts = 0;
  processing_failures = 0;
  retry_attempts = 0;
  dead_letter_events = 0;
}

unfoldable pub increment : RuntimeMetricName → RuntimeMetricCounts → RuntimeMetricCounts
increment RuntimeMetricName.webhooks_received counts = record counts {
  webhooks_received = suc counts.webhooks_received;
}
increment RuntimeMetricName.webhooks_rejected counts = record counts {
  webhooks_rejected = suc counts.webhooks_rejected;
}
increment RuntimeMetricName.duplicates counts = record counts { duplicates = suc counts.duplicates }
increment RuntimeMetricName.conflicts counts = record counts { conflicts = suc counts.conflicts }
increment RuntimeMetricName.processing_failures counts = record counts {
  processing_failures = suc counts.processing_failures;
}
increment RuntimeMetricName.retry_attempts counts = record counts {
  retry_attempts = suc counts.retry_attempts;
}
increment RuntimeMetricName.dead_letter_events counts = record counts {
  dead_letter_events = suc counts.dead_letter_events;
}

-- The count that a step belongs to.
metric_of : LifecycleEvent → Option RuntimeMetricName
metric_of LifecycleEvent.webhook_received = some RuntimeMetricName.webhooks_received
metric_of LifecycleEvent.signature_rejected = some RuntimeMetricName.webhooks_rejected
metric_of LifecycleEvent.duplicate_detected = some RuntimeMetricName.duplicates
metric_of LifecycleEvent.conflict_detected = some RuntimeMetricName.conflicts
metric_of LifecycleEvent.processing_failed = some RuntimeMetricName.processing_failures
metric_of LifecycleEvent.retry_attempted = some RuntimeMetricName.retry_attempts
metric_of LifecycleEvent.retry_exhausted = some RuntimeMetricName.dead_letter_events
metric_of _ = none

-- `metrics` is `none` where it is undefined.
unfoldable pub record_lifecycle_metric :
    Option RuntimeMetricCounts → LifecycleEvent → Option RuntimeMetricCounts
unfolding metric_of increment
record_lifecycle_metric none lifecycle = none
record_lifecycle_metric (some counts) lifecycle = elim (metric_of lifecycle) [
  | none ↦ some counts
  | some name ↦ some (increment name counts)
]
