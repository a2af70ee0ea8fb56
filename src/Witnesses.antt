-- ===== src/Witnesses.antt =====
-- The theorems at concrete inputs.
mod Codec
pub mod Gates
pub mod Machines
pub mod Runners
pub mod Audits
pub mod Campaigns
pub mod Dispatches
pub mod Manifests
pub mod Workers
pub mod Services
pub mod Executions
pub mod Snapshots
pub mod Schedules
