-- ===== src/Witnesses/Campaigns.antt =====
-- The campaign runs at concrete inputs.
use asmodeus.Campaign.{
  CampaignStep, CampaignStepResult, CampaignRun, CampaignRunStore, is_one_of, get, begin_resume,
  recover_interrupted, prune, is_prunable, max_terminal_runs, not_resumable, running, interrupted,
  failed,
}
use asmodeus.Campaign.Snapshot.{
  validate, validate_runs, validate_run, plan_ok, progress_ok, is_empty,
}
use asmodeus.Campaign.Archive.{begin_resume_lem}
use asmodeus.Campaign.Prune.{prune_lem}
use asmodeus.Campaign.Resume.{restart_keeps_valid}
use asmodeus.Prelude.{
  ◌≡◌, refl, false, [], ◌∷◌, none, Text, text, text_eq, ok, err, length, filter, min,
}

abbrev step : CampaignStep
step = record { order = 1; scenario_id = text "S1" }

abbrev result : CampaignStepResult
result = record {
  step_order = 1;
  scenario_id = text "S1";
  run_id = text "run-1";
  status = running;
  mttd_ms = 0;
  mttr_ms = 0;
  detected = false;
  evidence = none;
}

abbrev run_with : Text → CampaignRun
run_with status = record {
  id = text "C1";
  campaign_id = text "CAMP";
  campaign_name = text "Camp";
  initiator = text "red_team";
  target_override = none;
  timeout_sec = none;
  steps = step ∷ [];
  status = status;
  step_results = result ∷ [];
  superseded_results = [];
  resume_count = 0;
  created_utc = text "t0";
  updated_utc = text "t0";
}

abbrev store_with : Text → CampaignRunStore
store_with status = record { version = 1; runs = run_with status ∷ [] }

begin_resume_lem_example :
    begin_resume (text "t1") (text "C1") (store_with running)
    ≡ (store_with running, err (not_resumable running))
unfolding get is_one_of text_eq
begin_resume_lem_example =
    (begin_resume_lem (text "t1") (text "C1") (store_with running)).1 (run_with running) refl refl

prune_lem_example :
    length (filter is_prunable (prune (store_with failed)).runs)
    ≡ min max_terminal_runs (length (filter is_prunable (store_with failed).runs))
prune_lem_example = (prune_lem (store_with failed)).2

restart_keeps_valid_example :
    (validate (recover_interrupted (text "t1") (store_with interrupted)).0 ≡ ok tt)
    × (validate (begin_resume (text "t1") (text "C1") (store_with interrupted)).0 ≡ ok tt)
unfolding validate validate_runs validate_run plan_ok progress_ok is_empty is_one_of text_eq
restart_keeps_valid_example =
    restart_keeps_valid (text "t1") (text "C1") (store_with interrupted) refl
