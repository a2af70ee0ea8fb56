-- ===== src/Execution.antt =====
-- crates/asmodeus-control-plane/src/execution.rs: the admission of a scenario run and its end in the
-- audit store. The signature, the test for UTF-8 and the deserialisation are parameters, the outcome of
-- a write and the times are arguments. The webhooks and the JSON of the answer are left out.

pub mod Finish
pub mod Admission
pub mod Closed
pub mod Recorded
use asmodeus.AuditStore.{AuditStore, StoreError, append, update, sign}
use asmodeus.Common.Category.{Category, required_capability, category_as_str, category_tag}
use asmodeus.Common.Rbac.{Role, can, role_as_str}
use asmodeus.Dispatch.{Status, DispatchOutcome, default_outcome}
use asmodeus.Dsl.Check.{ManifestValidationError}
use asmodeus.Dsl.Json.{Value}
use asmodeus.Dsl.Manifest.{ScenarioManifest}
use asmodeus.Dsl.Parse.{parse_and_validate_manifest}
use asmodeus.Dsl.Plan.{PlanError, ExecutionPlan, from_manifest}
use asmodeus.Registry.{RegistryData, RunnerRecord, wanted, find_for_target}
use asmodeus.RunControl.{ActiveRun, new}
use asmodeus.Telemetry.Audit.{AuditRecord, RunEvidence, Measurements}
use asmodeus.Prelude.{
  ℕ, ◌*◌, Bool, true, false, ◌&&◌, ◌||◌, not, Option, none, some, is_some, unwrap_or, List, [], ◌∷◌,
  Text, text, text_eq, nat_eq, ltb, leb, length, Map, insert, filter, Result, ok, err, ◌>>=◌, ◌>>◌,
  reject_if, if◌then◌else◌,
}

-- The fields of `ScenarioEntry` that a run uses; a technique is its id and its tactic.
pub record ScenarioEntry : Type 0 where
  pub id : Text
  pub name : Text
  pub category : Category
  pub mitre : Option (Text × Text)
  pub severity : Text
  pub manifest : Text
  pub signature : Text

-- The messages of `InvalidManifest`; `stuck` would be a parse out of fuel.
pub data ManifestFault : Type 0 where
  not_utf8 stuck bad_timeout : ManifestFault
  manifest_error : ManifestValidationError → ManifestFault
  plan_error : PlanError → ManifestFault

pub data ExecutionError : Type 0 where
  invalid_signature no_active_runner forbidden disappeared : ExecutionError
  target_not_found runner_rejected runner_incomplete : Text → ExecutionError
  invalid_manifest : ManifestFault → ExecutionError
  dispatch_failed : Status → ExecutionError
  audit_signing audit_persistence : StoreError → ExecutionError

unfoldable pub compiled_plan : Result PlanError ExecutionPlan → Result ExecutionError ExecutionPlan
compiled_plan (ok plan) = ok plan
compiled_plan (err e) = err (invalid_manifest (plan_error e))

unfoldable pub signed_plan :
    Option (Result ManifestValidationError ScenarioManifest) → Result ExecutionError ExecutionPlan
signed_plan none = err (invalid_manifest stuck)
signed_plan (some (err e)) = err (invalid_manifest (manifest_error e))
signed_plan (some (ok m)) = compiled_plan (from_manifest m)

-- The runner that is chosen: `none` is a simulated run.
unfoldable pub select_runner :
    Option Text → Option RunnerRecord → Bool → Result ExecutionError (Option RunnerRecord)
select_runner target (some r) required = ok (some r)
select_runner (some t) none required = err (target_not_found t)
select_runner none none true = err no_active_runner
select_runner none none false = ok none

pub record Admitted : Type 0 where
  pub plan : ExecutionPlan
  pub timeout : ℕ
  pub selected : Option RunnerRecord

module _ (from_str : Text → Result Text ScenarioManifest)
    (from_value : Value → Result Text ScenarioManifest) (parse_f64 : Text → Option ℕ)
    (is_valid : Text → Text → Text → Bool) (is_utf8 : Text → Bool) (public_key : Text) where
  -- The guards of `start_scenario_identified`.
  unfoldable pub check_start :
      RegistryData → ScenarioEntry → Role → Option Text → Option ℕ → Result ExecutionError Admitted
  check_start registry entry role target timeout_sec = do
    reject_if (not (can role (required_capability entry.category))) forbidden
    reject_if (not (is_valid entry.manifest entry.signature public_key)) invalid_signature
    reject_if (not (is_utf8 entry.manifest)) (invalid_manifest not_utf8)
    plan ← signed_plan (parse_and_validate_manifest from_str from_value parse_f64 entry.manifest)
    reject_if
        (nat_eq (unwrap_or timeout_sec plan.max_duration_sec) 0
          || ltb plan.max_duration_sec (unwrap_or timeout_sec plan.max_duration_sec))
        (invalid_manifest bad_timeout)
    selected ←
        select_runner (wanted target) (find_for_target target registry) registry.require_runner
    ok (record {
      plan = plan;
      timeout = unwrap_or timeout_sec plan.max_duration_sec;
      selected = selected;
    })

unfoldable pub runner_id_of : Option RunnerRecord → Text
runner_id_of (some r) = r.id
runner_id_of none = text "in-process-sim"

unfoldable pub mode_of : Option RunnerRecord → Text
mode_of (some r) = text "runner"
mode_of none = text "simulated"

unfoldable pub technique_of : Option (Text × Text) → Text × Text
technique_of none = ([], [])
technique_of (some m) = m

-- The record that is appended before the run starts, not yet signed.
unfoldable pub queued_record :
    Text → Text → Role → ScenarioEntry → Option RunnerRecord → AuditRecord
queued_record now run_id role entry selected = record {
  run_id = run_id;
  scenario_id = entry.id;
  scenario_name = entry.name;
  category = category_as_str entry.category;
  mitre_technique = (technique_of entry.mitre).0;
  mitre_tactic = (technique_of entry.mitre).1;
  severity = entry.severity;
  tag = category_tag entry.category;
  initiator = role_as_str role;
  runner_id = runner_id_of selected;
  status = text "QUEUED";
  measurements = record { mttd_ms = 0; mttr_ms = 0; blue_team_detected = false };
  detection_source = text "PENDING_FEEDBACK";
  containment_action = text "UNCONFIRMED";
  cleanup_status = text "PENDING";
  timestamp_utc = now;
  signature_hex = [];
  public_key_hex = [];
  evidence = some (record {
    execution_mode = mode_of selected;
    feedback_received = false;
    contained = false;
    cleanup_confirmed = false;
    failure_reason = none;
  });
}
