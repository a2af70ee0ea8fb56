-- ===== src/Campaign/Snapshot.antt =====
-- crates/asmodeus-control-plane/src/campaign_run.rs: what a snapshot of the runs must fulfil.
use asmodeus.Campaign.{
  CampaignStep, CampaignStepResult, CampaignRun, CampaignRunStore, is_one_of, queued, running,
  completed, failed, cancelled, interrupted,
}
use asmodeus.Prelude.{
  ℕ, Bool, true, false, ◌&&◌, ◌||◌, not, List, [], ◌∷◌, Text, text_eq, nat_eq, ltb, length, any,
  Result, ok, ◌>>◌, reject_if,
}

-- The messages of `validate`.
pub data InvalidData : Type 0 where
  unsupported_version invalid_snapshot invalid_plan invalid_progress incomplete_completed :
      InvalidData

-- The orders of a plan rise from one or more, and each step names a scenario.
unfoldable pub plan_ok : ℕ → List CampaignStep → Bool
plan_ok last [] = true
plan_ok last (step ∷ steps) =
    not (nat_eq (length step.scenario_id) 0) && ltb last step.order && plan_ok step.order steps

unfoldable pub is_empty : {A : Type 0} → List A → Bool
is_empty [] = true
is_empty (x ∷ xs) = false

-- Each result is of its step, and all but the last have completed.
unfoldable pub progress_ok : List CampaignStep → List CampaignStepResult → Bool
unfolding is_empty
progress_ok steps [] = true
progress_ok [] (r ∷ rs) = false
progress_ok (s ∷ steps) (r ∷ rs) =
    nat_eq s.order r.step_order
    && text_eq s.scenario_id r.scenario_id
    && (is_empty rs || text_eq r.status completed)
    && progress_ok steps rs

-- The body of the loop of `validate`, of one run, after the ids before it.
unfoldable pub validate_run : List Text → CampaignRun → Result InvalidData (Unit {0})
validate_run ids run = do
  reject_if
      (nat_eq (length run.id) 0
        || any (text_eq run.id) ids
        || nat_eq (length run.steps) 0
        || ltb (length run.steps) (length run.step_results)
        || not (
            is_one_of (queued ∷ running ∷ completed ∷ failed ∷ cancelled ∷ interrupted ∷ [])
              run.status))
      invalid_snapshot
  reject_if (not (plan_ok 0 run.steps)) invalid_plan
  reject_if (not (progress_ok run.steps run.step_results)) invalid_progress
  reject_if
      (text_eq run.status completed
        && (not (nat_eq (length run.step_results) (length run.steps))
            || any (λ r. not (text_eq r.status completed)) run.step_results))
      incomplete_completed
  ok tt

unfoldable pub validate_runs : List Text → List CampaignRun → Result InvalidData (Unit {0})
validate_runs ids [] = ok tt
validate_runs ids (run ∷ runs) = do validate_run ids run; validate_runs (run.id ∷ ids) runs

-- `CampaignRunStore::validate`.
unfoldable pub validate : CampaignRunStore → Result InvalidData (Unit {0})
validate store = do
  reject_if (not (nat_eq store.version 1)) unsupported_version
  validate_runs [] store.runs
