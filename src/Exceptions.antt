-- ===== src/Exceptions.antt =====
-- packages/exceptions/src: what went wrong with a delivery, by code.
pub mod Codes
pub mod Facts
pub mod Prerequisite
pub mod Draft
pub mod Record
pub mod Detect
unfoldable pub use Codes.*
