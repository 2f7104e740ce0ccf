-- ===== src/Webhook.antt =====
-- packages/webhook/src: the normalized event, its identity, and its canonical texts.
pub mod Event
pub mod Json
pub mod Identity
pub mod Decimal
pub mod Amount
pub mod Timestamp
unfoldable pub use Event.*
