-- ===== src/Dsl.antt =====
-- crates/asmodeus-dsl: the blast radius of an action and the gates before it is armed.
pub mod Scope
pub mod Net
pub mod Gate
pub mod Mitre
pub mod Json
pub mod Yaml
pub mod Fidelity
pub mod Manifest
pub mod Plan
pub mod Check
pub mod Parse
