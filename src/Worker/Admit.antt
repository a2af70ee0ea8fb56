-- ===== src/Worker/Admit.antt =====
-- crates/asmodeus-control-plane/src/campaign_execution.rs: who may launch a campaign, and which runs may
-- be resumed. The scenario catalog is the function from an id to the category of the entry, the audit
-- store the function from a run id to its record.
pub mod Ready
use asmodeus.Campaign.{
  CampaignStep, CampaignStepResult, CampaignRun, CampaignRunStore, ResumeError, not_found,
  not_resumable, completed, cancelled, interrupted, is_one_of, get, put, begin_resume,
}
use asmodeus.Campaign.Snapshot.{is_empty}
use asmodeus.Common.Category.{Category, required_capability}
use asmodeus.Common.Rbac.{Role, Capability, run_red_team, inject_chaos, can}
use asmodeus.Telemetry.Audit.{AuditRecord, evidence_is, is_terminal}
use asmodeus.Worker.{change_last}
use asmodeus.Prelude.{
  Bool, true, false, ◌&&◌, ◌||◌, not, Option, none, some, List, [], ◌∷◌, Text, text, text_eq, last?,
  Result, ok, err, ◌>>=◌, ◌>>◌, reject_if, if◌then◌else◌,
}

pub data CampaignError : Type 0 where
  scenario_not_found : Text → CampaignError
  may_not_launch may_not_execute : CampaignError

unfoldable pub check_entry : Role → Text → Option Category → Result CampaignError (Unit {0})
check_entry role id none = err (scenario_not_found id)
check_entry role id (some category) =
    reject_if (not (can role (required_capability category))) may_not_execute

unfoldable pub check_steps :
    (Text → Option Category) → Role → List CampaignStep → Result CampaignError (Unit {0})
check_steps catalog role [] = ok tt
check_steps catalog role (step ∷ steps) = do
  check_entry role step.scenario_id (catalog step.scenario_id)
  check_steps catalog role steps

-- `authorize`.
unfoldable pub authorize :
    (Text → Option Category) → Role → CampaignRun → Result CampaignError (Unit {0})
authorize catalog role run = do
  reject_if (not (can role run_red_team) && not (can role inject_chaos)) may_not_launch
  check_steps catalog role run.steps

unfoldable pub is_simulated : AuditRecord → Bool
is_simulated r = evidence_is (λ e. text_eq e.execution_mode (text "simulated")) r

unfoldable pub is_cleaned : AuditRecord → Bool
is_cleaned r = is_one_of (text "SUCCESS" ∷ text "NOT_APPLICABLE" ∷ []) r.cleanup_status

-- The result of a stage whose commit has won the race with the end of the process.
unfoldable pub settled : AuditRecord → CampaignStepResult → CampaignStepResult
settled r stored = record stored {
  status = r.status;
  mttd_ms = r.measurements.mttd_ms;
  mttr_ms = r.measurements.mttr_ms;
  detected = r.measurements.blue_team_detected;
  evidence = r.evidence;
}

unfoldable pub settle : AuditRecord → CampaignRun → CampaignRun
settle r run = record run { step_results = change_last (settled r) run.step_results }

abbrev pub Answer : Type 0
Answer = CampaignRunStore × Result ResumeError CampaignRun

-- With the audit record of the last stage, if there is one.
unfoldable pub on_audit :
    Text → Text → CampaignRunStore → CampaignRun → CampaignStepResult → Option AuditRecord → Answer
on_audit now id store current last none =
    if text_eq last.status cancelled && is_empty last.run_id then begin_resume now id store else (
      store,
      err (not_resumable (text "previous stage audit is unavailable; cannot prove safe retry")),
    )
on_audit now id store current last (some r) =
    if not (is_terminal r) || (not (is_simulated r) && not (is_cleaned r))
    then (store, err (not_resumable (text "stage cleanup is unconfirmed")))
    else (if text_eq r.status completed
        then begin_resume now id (record store { runs = put (settle r current) store.runs })
        else begin_resume now id store)

unfoldable pub on_last :
    (Text → Option AuditRecord)
    → Text
    → Text
    → CampaignRunStore
    → CampaignRun
    → Option CampaignStepResult
    → Answer
on_last audit now id store current none = begin_resume now id store
on_last audit now id store current (some last) =
    if text_eq last.status completed
    then begin_resume now id store
    else on_audit now id store current last (audit last.run_id)

unfoldable pub on_found :
    (Text → Option AuditRecord) → Text → Text → CampaignRunStore → Option CampaignRun → Answer
on_found audit now id store none = (store, err not_found)
on_found audit now id store (some current) =
    if not (is_one_of (interrupted ∷ cancelled ∷ []) current.status)
    then (store, err (not_resumable current.status))
    else on_last audit now id store current (last? current.step_results)

-- `prepare_resume`.
unfoldable pub prepare_resume :
    (Text → Option AuditRecord) → Text → Text → CampaignRunStore → Answer
prepare_resume audit now id store = on_found audit now id store (get id store)
