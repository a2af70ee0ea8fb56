-- ===== src/Lib.antt =====
-- Asmodeus: a control plane that launches synthetic attack and chaos scenarios, runners that carry
-- them out, and a classifier in the kernel that drops frames of a reserved test network.
--
-- The parts, and the files that model them (paths from the root of the repository):
--
--   Common    crates/asmodeus-common: the roles and their capabilities (`Role::can`), the categories,
--             the lifecycle of a run (`RunState::on`).
--   Safety    crates/asmodeus-safety: `CircuitBreaker::evaluate`, `DeadManSwitch`.
--   Dsl       crates/asmodeus-dsl: the gates `path_in_scope`, `net_target_in_scope`, `validate` and
--             `validate_net`, and the pinned taxonomy of techniques.
--             `Manifest`, `Fidelity`, `Yaml`, `Check`, `Plan` and `Parse` take a manifest from its text to
--             the bounded plan of its execution.
--   Netchaos  crates/asmodeus-runner/src/netchaos.rs: the gate of a chaos rule, the backend trait as
--             the record `Backend`, the simulated backend, and the session, whose `Drop` is the
--             function `drop`.
--   Ebpf      crates/asmodeus-netchaos-ebpf and the parser of crates/asmodeus-runner/src/
--             aya_backend.rs: the rule in the map, and what the classifier decides of a frame.
--   Engine    crates/asmodeus-control-plane/src/engine.rs: `execute`, one scenario through the
--             lifecycle.
--   Registry  crates/asmodeus-control-plane/src/registry.rs: the table of runners; `Ops` makes one
--             type of what a caller may do to it. `Snapshot` is registry_store.rs, and
--             `Store` the update that writes it before a change is in use.
--   RunControl crates/asmodeus-control-plane/src/run_control.rs: the control of a campaign; `Admission`
--             puts it in any order of the steps of `request_cancel` and `execute` in
--             campaign_execution.rs.
--   Dispatch  crates/asmodeus-control-plane/src/dispatch.rs: the loop that folds the events of a
--             runner into an outcome, renews its lease and sends the cancellation.
--   Telemetry crates/asmodeus-telemetry: the audit records, the trail and the replay of its log
--             (audit.rs), and the rolling aggregate (lib.rs).
--   AuditStore crates/asmodeus-control-plane/src/audit_store.rs: commits that are durable before they
--             are published, and the recovery of a restart. The log is its bytes; a write to it is
--             made, is undone, or fails to be undone (`append_to_file` of audit.rs).
--   Campaign  crates/asmodeus-control-plane/src/campaign.rs and campaign_run.rs: the catalog, and the
--             store of the runs, which can be resumed.
--   Worker    crates/asmodeus-control-plane/src/campaign_execution.rs: the stages of the worker of a
--             campaign run; `Admit` is the authorisation and the resumption.
--   Execution crates/asmodeus-control-plane/src/execution.rs: the guards of a scenario run, and in `Finish`
--             its durable admission and its end in the audit store.
--   Persistent crates/asmodeus-control-plane/src/persistent.rs: a value with its snapshot, and the update
--             that writes it before it is in use.
--   Runner    crates/asmodeus-runner/src/service.rs: `Request` is the validation of a request, `Work` the
--             worker with the events it sends, and `Slot` what may happen to the one run.
--   Schedule  crates/asmodeus-control-plane/src/scheduler.rs: the catalog of the jobs; `Observe` is
--             `record_feedback`.
--   Witnesses each theorem at a concrete input; `Codec` is a log format in place of JSON.
--
-- How they interact: the engine passes the gate of Dsl and then drives the lifecycle of Common; a
-- chaos session passes the gate of Netchaos, which asks the network gate of Dsl, and its backend
-- writes the rule that the classifier of Ebpf reads. The registry chooses the runner of a dispatch,
-- which takes its outcome from the events of the runner's worker; the runner takes a manifest only
-- through the gates of Dsl.
-- The audit store commits the records of Telemetry and keeps their aggregate; the scheduler takes its
-- feedback from those records.
-- `Execution.Recorded` follows a run from the worker of the runner over the dispatch to its record.
--
-- How the state is modelled: each structure is a record and each enum a data type with the
-- constructors of the source; an operation on `&mut self` takes the state and gives the new one, and
-- a `Result` or an `Option` is a value. A text is the list of its bytes. A machine integer is a
-- natural number, with the wrap-around or the saturation of the source written out; shifts and `&` of
-- 32 bits are taken modulo 2^32. The identity of an `Arc` is a number that is given out once. A map is
-- an association list. The clock and random draws are arguments. Each loop is a recursion on
-- a list or a count, but for the translator of indented lines, whose fuel is one more than the lines
-- and is shown to be enough, and for the worker of a campaign, for which one round more than the
-- stages that are left is shown to be enough. Code from outside is a parameter: the JSON of serde, the
-- URL parser, the signature of the operator's key, what becomes of a write to the disk, and the `f32`
-- of a drift factor. In `Runner` and `Execution` the answers of the sandbox, the injectors and the
-- session are arguments too.
--
-- Not modelled: input and output, the wire protocol, TLS and signatures, rendering of reports, the
-- command line, and the locks around the state, whose critical sections are the operations here.
-- A configuration change of the registry is applied once, where the source applies it to a copy for
-- the file and again to the live table, so that no reply falls between the two here. `trim` knows
-- the white space of ASCII.
pub mod Prelude
pub mod Common
pub mod Safety
pub mod Dsl
pub mod Netchaos
pub mod Ebpf
pub mod Engine
pub mod Registry
pub mod RunControl
pub mod Dispatch
pub mod Telemetry
pub mod AuditStore
pub mod Campaign
pub mod Worker
pub mod Runner
pub mod Execution
pub mod Persistent
pub mod Schedule
pub mod Witnesses
