-- ===== src/Worker.antt =====
-- crates/asmodeus-control-plane/src/campaign_execution.rs: the worker of one campaign run. What other
-- parts answer in a round, the outcomes of its writes and the times are one record for each round. No
-- other writer touches the store between two writes of the worker.
pub mod Soundness
pub mod Store
pub mod Results
pub mod Stages
pub mod Ends
pub mod Admit
use asmodeus.Campaign.{
  CampaignStep, CampaignStepResult, CampaignRun, CampaignRunStore, queued, running, completed,
  failed, cancelled, interrupted, is_one_of, next_step, get, put, prune,
}
use asmodeus.Telemetry.Audit.{AuditRecord, RunEvidence}
use asmodeus.Prelude.{
  ℕ, zero, suc, Bool, true, false, ◌&&◌, ◌||◌, not, Option, none, some, List, [], ◌∷◌, ◌++◌, Text,
  text_eq, nat_eq, ltb, length, get_elem?, Result, ok, err, if◌then◌else◌,
}

pub data WorkerError : Type 0 where
  disappeared write_failed out_of_range : WorkerError

-- One round: the three looks at the cancellation, the id of its run, whether the scenario is known, is
-- started and ends well, the audit record of the run, and the two writes.
pub record Stage : Type 0 where
  pub cancelled_before : Bool
  pub cancelled_pending : Bool
  pub cancelled_after : Bool
  pub scenario_run : Text
  pub is_known : Bool
  pub is_started : Bool
  pub ends_well : Bool
  pub audit : Option AuditRecord
  pub first_write : Bool
  pub first_now : Text
  pub second_write : Bool
  pub second_now : Text

unfoldable pub update_found :
    Text
    → Bool
    → (CampaignRun → CampaignRun)
    → Option CampaignRun
    → CampaignRunStore
    → CampaignRunStore × Result WorkerError CampaignRun
update_found now written change none store = (store, err disappeared)
update_found now written change (some r) store =
    let saved = record (change r) { updated_utc = now } in
    if written
    then (prune (record store { runs = put saved store.runs }), ok saved)
    else (store, err write_failed)

-- The worker's `update`.
unfoldable pub update :
    Text
    → Bool
    → Text
    → (CampaignRun → CampaignRun)
    → CampaignRunStore
    → CampaignRunStore × Result WorkerError CampaignRun
update now written id change store = update_found now written change (get id store) store

unfoldable pub pending : CampaignStep → Text → CampaignStepResult
pending step run_id = record {
  step_order = step.order;
  scenario_id = step.scenario_id;
  run_id = run_id;
  status = running;
  mttd_ms = 0;
  mttr_ms = 0;
  detected = false;
  evidence = none;
}

-- `*step_results.last_mut().unwrap() = …`
unfoldable pub change_last :
    (CampaignStepResult → CampaignStepResult) → List CampaignStepResult → List CampaignStepResult
change_last f [] = []
change_last f (r ∷ []) = f r ∷ []
change_last f (r ∷ s ∷ rs) = r ∷ change_last f (s ∷ rs)

-- The result of a stage, from the audit record of its run.
unfoldable pub result_of : CampaignStep → Text → Option AuditRecord → CampaignStepResult
result_of step run_id none = record (pending step run_id) { status = failed }
result_of step run_id (some r) = record {
  step_order = step.order;
  scenario_id = step.scenario_id;
  run_id = run_id;
  status = r.status;
  mttd_ms = r.measurements.mttd_ms;
  mttr_ms = r.measurements.mttr_ms;
  detected = r.measurements.blue_team_detected;
  evidence = r.evidence;
}

-- The status that a stage leaves the run in.
unfoldable pub status_after : Bool → Text → Bool → Bool → Text
status_after outcome status is_cancelled is_last =
    if not outcome && is_one_of (queued ∷ running ∷ []) status
    then interrupted
    else (if text_eq status cancelled
        then cancelled
        else (if not (text_eq status completed) || not outcome
            then failed
            else (if is_cancelled then cancelled else (if is_last then completed else running))))

pub data Round : Type 0 where
  going : CampaignRunStore → CampaignRun → Round
  ended : CampaignRunStore → Result WorkerError CampaignRun → Round

unfoldable pub ending : CampaignRunStore × Result WorkerError CampaignRun → Round
ending (store, r) = ended store r

unfoldable pub set_status : Text → CampaignRun → CampaignRun
set_status status r = record r { status = status }

unfoldable pub started : CampaignStep → Text → CampaignRun → CampaignRun
started step run_id r = record r {
  status = running;
  step_results = r.step_results ++ pending step run_id ∷ [];
}

unfoldable pub withdrawn : CampaignRun → CampaignRun
withdrawn r = record r {
  status = cancelled;
  step_results = change_last (λ s. record s { status = cancelled; run_id = [] }) r.step_results;
}

unfoldable pub recorded : CampaignStepResult → Text → CampaignRun → CampaignRun
recorded result status r = record r {
  step_results = change_last (λ s. result) r.step_results;
  status = status;
}

-- After the second write: the loop goes on only with a running campaign.
unfoldable pub after_result : CampaignRunStore × Result WorkerError CampaignRun → Round
after_result (store, err e) = ended store (err e)
after_result (store, ok run) =
    if text_eq run.status running then going store run else ended store (ok run)

unfoldable pub outcome_of : Stage → Bool
outcome_of s = s.is_known && (s.is_started && s.ends_well)

-- After the first write: the scenario runs, unless a cancellation came in between.
unfoldable pub after_start :
    Stage → CampaignStep → CampaignRunStore × Result WorkerError CampaignRun → Round
after_start s step (store, err e) = ended store (err e)
after_start s step (store, ok run) =
    if s.cancelled_pending
    then ending (update s.second_now s.second_write run.id withdrawn store)
    else let result = result_of step s.scenario_run s.audit in
      let status =
        status_after (outcome_of s) result.status s.cancelled_after
          (nat_eq (next_step run) (length run.steps)) in
      after_result (update s.second_now s.second_write run.id (recorded result status) store)

unfoldable pub run_stage : Stage → Option CampaignStep → CampaignRunStore → CampaignRun → Round
run_stage s none store run = ended store (err out_of_range)
run_stage s (some step) store run =
    after_start s step (update s.first_now s.first_write run.id (started step s.scenario_run) store)

-- The body of the loop of `execute`.
unfoldable pub round : Stage → CampaignRunStore → CampaignRun → Round
round s store run =
    if s.cancelled_before
    then ending (update s.first_now s.first_write run.id (set_status cancelled) store)
    else run_stage s (get_elem? run.steps (next_step run)) store run

unfoldable pub proceed : (CampaignRunStore → CampaignRun → Round) → Round → Round
proceed next (ended store r) = ended store r
proceed next (going store run) = next store run

-- `execute`, given the stage of each number of results; `going` is out of fuel. The last write has the
-- times of the round after the last step.
unfoldable pub execute : (ℕ → Stage) → ℕ → CampaignRunStore → CampaignRun → Round
execute stages zero store run = going store run
execute stages (suc fuel) store run =
    let s = stages (next_step run) in
    let body = proceed (execute stages fuel) (round s store run) in
    if ltb (next_step run) (length run.steps)
    then body
    else ending (update s.first_now s.first_write run.id (set_status completed) store)
