-- ===== src/Telemetry.antt =====
-- crates/asmodeus-telemetry: the audit records and the rolling aggregate.
pub mod Audit
pub mod Aggregate
pub mod Fields
pub mod Means
pub mod Replay
