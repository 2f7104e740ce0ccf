-- ===== src/Storage/Retry.antt =====
-- packages/storage/src/retry: when a failed event is tried again.
pub mod Policy
pub mod Classify
pub mod Memory
pub mod Attempt
pub mod Worker
