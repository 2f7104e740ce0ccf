-- ===== src/Storage.antt =====
-- packages/storage/src: what is stored of webhook events and of their retries.
pub mod Status
pub mod Retry
pub mod Action
pub mod Audit
pub mod Payments
pub mod Exceptions
pub mod Events
