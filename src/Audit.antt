-- ===== src/Audit.antt =====
-- packages/audit/src: the values that audit events and exceptions carry.
pub mod Metadata
pub mod Event
