-- ===== src/Tests.antt =====
-- The theorems at concrete deliveries, policies and retries.
mod Data
pub mod Payments
pub mod Values
pub mod Failures
pub mod Stores
pub mod Attempts
pub mod Ingest
pub mod Times
