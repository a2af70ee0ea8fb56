-- ===== src/Common.antt =====
-- crates/asmodeus-common: roles, the run lifecycle, the kinds of scenarios and of actions.
pub mod Rbac
pub mod Lifecycle
pub mod Category
