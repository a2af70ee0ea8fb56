-- ===== src/Witnesses/Workers.antt =====
-- The worker of a campaign at concrete inputs.
use asmodeus.Campaign.Snapshot.{
  validate, validate_runs, validate_run, plan_ok, progress_ok, is_empty,
}
use asmodeus.Campaign.{
  CampaignStep, CampaignStepResult, CampaignRun, CampaignRunStore, is_one_of, get, put,
  begin_resume, resumed, resume_found, archive, queued, interrupted, completed,
}
use asmodeus.Telemetry.Audit.{AuditRecord, is_terminal, evidence_is}
use asmodeus.Worker.Admit.{
  prepare_resume, on_found, on_last, on_audit, is_simulated, is_cleaned, settle, settled,
}
use asmodeus.Worker.Admit.Ready.{IsLaunchable, IsAccepted, prepare_resume_lem}
use asmodeus.Worker.Ends.{store_of, IsOver, worker_keeps_valid, worker_ends}
use asmodeus.Worker.{Stage, execute, change_last}
use asmodeus.Prelude.{
  last?, ℕ, ◌≡◌, refl, arith, true, false, [], ◌∷◌, none, some, Option, Text, text, text_eq, ok,
}

abbrev step : CampaignStep
step = record { order = 1; scenario_id = text "S1" }

abbrev attempt : CampaignStepResult
attempt = record {
  step_order = 1;
  scenario_id = text "S1";
  run_id = text "run-1";
  status = interrupted;
  mttd_ms = 0;
  mttr_ms = 0;
  detected = false;
  evidence = none;
}

abbrev fresh : CampaignRun
fresh = record {
  id = text "C1";
  campaign_id = text "CAMP";
  campaign_name = text "Camp";
  initiator = text "red_team";
  target_override = none;
  timeout_sec = none;
  steps = step ∷ [];
  status = queued;
  step_results = [];
  superseded_results = [];
  resume_count = 0;
  created_utc = text "t0";
  updated_utc = text "t0";
}

abbrev store : CampaignRunStore
store = record { version = 1; runs = fresh ∷ [] }

-- Each stage is cancelled once it has been started, and its second write fails.
abbrev stages : ℕ → Stage
stages n = record {
  cancelled_before = false;
  cancelled_pending = true;
  cancelled_after = false;
  scenario_run = text "run-2";
  is_known = true;
  is_started = true;
  ends_well = true;
  audit = none;
  first_write = true;
  first_now = text "t1";
  second_write = false;
  second_now = text "t2";
}

worker_keeps_valid_example : validate (store_of (execute stages 1 store fresh)) ≡ ok tt
unfolding validate validate_runs validate_run plan_ok progress_ok is_empty is_one_of text_eq get
worker_keeps_valid_example = worker_keeps_valid stages 1 store fresh refl refl refl

worker_ends_example : IsOver (execute stages 2 store fresh)
unfolding validate validate_runs validate_run plan_ok progress_ok is_empty is_one_of text_eq get
worker_ends_example = worker_ends stages 2 store fresh refl refl refl (omega arith)

abbrev stopped : CampaignRun
stopped = record fresh { status = interrupted; step_results = attempt ∷ [] }

abbrev stopped_store : CampaignRunStore
stopped_store = record { version = 1; runs = stopped ∷ [] }

-- The stage of the attempt has completed after all.
abbrev audit_record : AuditRecord
audit_record = record {
  run_id = text "run-1";
  scenario_id = text "S1";
  scenario_name = text "S1";
  category = text "red_team";
  mitre_technique = [];
  mitre_tactic = [];
  severity = [];
  tag = [];
  initiator = [];
  runner_id = [];
  status = completed;
  measurements = record { mttd_ms = 5; mttr_ms = 6; blue_team_detected = true };
  detection_source = [];
  containment_action = [];
  cleanup_status = text "SUCCESS";
  timestamp_utc = [];
  signature_hex = [];
  public_key_hex = [];
  evidence = none;
}

abbrev audit : Text → Option AuditRecord
audit run_id = some audit_record

abbrev settled_run : CampaignRun
settled_run = settle audit_record stopped

prepare_resume_lem_example :
    let next = resumed (text "t1") settled_run in
    (run : CampaignRun) × (get (text "C1") stopped_store ≡ some run)
    × IsLaunchable (record { version = 1; runs = next ∷ [] }) next
    × IsAccepted audit (text "t1") run (last? run.step_results) next
unfolding validate validate_runs validate_run plan_ok progress_ok is_empty is_one_of text_eq get
    prepare_resume on_found on_last on_audit is_simulated is_cleaned settle settled begin_resume
    resume_found resumed archive change_last put is_terminal evidence_is
prepare_resume_lem_example =
    prepare_resume_lem audit (text "t1") (text "C1") stopped_store _ _ refl refl
