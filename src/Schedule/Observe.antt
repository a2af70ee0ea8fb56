-- ===== src/Schedule/Observe.antt =====
-- crates/asmodeus-control-plane/src/scheduler.rs: `ScheduleCatalog::record_feedback`.
use asmodeus.Schedule.{
  Sample, ScheduledJob, DriftAlert, ScheduleCatalog, is_text, pop_over, max_alerts,
}
use asmodeus.Telemetry.Audit.{AuditRecord, has_confirmed_feedback, is_terminal}
use asmodeus.Prelude.{
  ℕ, suc, ◌^◌, ◌%◌, Bool, true, false, ◌&&◌, ◌||◌, not, Option, none, some, List, [], ◌∷◌, ◌++◌,
  if◌then◌else◌, Text, nat_eq, ltb, find, Map, unwrap_or,
}

abbrev pub bool_eq : Bool → Bool → Bool
bool_eq true b = b
bool_eq false b = not b

unfoldable pub is_bool : Option Bool → Bool → Bool
is_bool none b = false
is_bool (some a) b = bool_eq a b

-- The duration that the feedback reports; a miss has none.
unfoldable pub observed_mttd : AuditRecord → ℕ
observed_mttd r = if r.measurements.blue_team_detected then r.measurements.mttd_ms else 0

-- A baseline that is learned from the first positive duration.
unfoldable pub baseline_with : Option ℕ → ℕ → Option ℕ
baseline_with (some base) mttd = some base
baseline_with none mttd = if ltb 0 mttd then some mttd else none

module _ {F : Type 0} where
  unfoldable pub of_run : Text → Sample F → Bool
  of_run run_id s = is_text s.run_id run_id

  -- The sample has taken in this feedback already.
  unfoldable pub is_same : AuditRecord → Sample F → Bool
  is_same r s =
      s.feedback_received
      && nat_eq s.mttd_ms (observed_mttd r)
      && is_bool s.detected r.measurements.blue_team_detected

  unfoldable pub answered : AuditRecord → Sample F → Sample F
  answered r s = record s {
    feedback_received = true;
    detected = some r.measurements.blue_team_detected;
    mttd_ms = observed_mttd r;
  }

  -- The first sample of the run becomes `s`.
  unfoldable pub set_sample : Text → Sample F → List (Sample F) → List (Sample F)
  set_sample run_id s [] = []
  set_sample run_id s (t ∷ ts) = if of_run run_id t then s ∷ ts else t ∷ set_sample run_id s ts

module _ {F : Type 0} (ratio : ℕ → ℕ → F) (drifted : F → Bool) (zero_factor : F) where
  -- `baseline.filter(|base| *base > 0).map(|base| mttd as f32 / base as f32)`.
  unfoldable pub factor_of : Option ℕ → ℕ → Option F
  factor_of none mttd = none
  factor_of (some base) mttd = if ltb 0 base then some (ratio mttd base) else none

  unfoldable pub is_drifted : Option F → Bool
  is_drifted none = false
  is_drifted (some f) = drifted f

  -- The job after feedback on its latest run, whose sample is `s`.
  unfoldable pub latest : AuditRecord → Sample F → ScheduledJob F → ScheduledJob F
  latest r s job =
      let detected = r.measurements.blue_team_detected in
      let mttd = observed_mttd r in
      let baseline = baseline_with job.baseline_mttd_ms mttd in
      let factor = factor_of baseline mttd in
      let drift = not detected || is_drifted factor in
      let shown = if detected then factor else none in
      record job {
        last_mttd_ms = if detected then some mttd else none;
        baseline_mttd_ms = baseline;
        detection_missed = not detected;
        drift_detected = drift;
        drift_factor = shown;
        run_history =
            set_sample r.run_id
              (record (answered r s) { drift_detected = drift; drift_factor = shown })
              job.run_history;
      }

  -- The job enters the degraded state, or misses a detection for the first time.
  unfoldable pub alerts_on : ScheduledJob F → ScheduledJob F → Bool
  alerts_on before after =
      after.drift_detected
      && (not before.drift_detected || (after.detection_missed && not before.detection_missed))

  -- What the feedback makes of a job that has the sample, and whether it raises an alert.
  unfoldable pub on_sample :
      AuditRecord → ScheduledJob F → Option (Sample F) → ScheduledJob F × Bool
  on_sample r job none = (job, false)
  on_sample r job (some s) =
      if is_same r s
      then (job, false)
      else if is_text job.last_run_id r.run_id
      then (latest r s job, alerts_on job (latest r s job))
      else (record job { run_history = set_sample r.run_id (answered r s) job.run_history }, false)

  unfoldable pub observe : AuditRecord → ScheduledJob F → ScheduledJob F × Bool
  observe r job = on_sample r job (find (of_run r.run_id) job.run_history)

  unfoldable pub alert_of : AuditRecord → ScheduledJob F → ℕ → DriftAlert F
  alert_of r job seq = record {
    detection_missed = job.detection_missed;
    seq = seq;
    job_id = job.id;
    scenario_id = job.scenario_id;
    baseline_mttd_ms = job.baseline_mttd_ms;
    observed_mttd_ms = observed_mttd r;
    drift_factor = unwrap_or (factor_of job.baseline_mttd_ms (observed_mttd r)) zero_factor;
    timestamp_utc = r.timestamp_utc;
  }

  -- The alert, if any, is numbered and kept; the oldest go beyond the bound.
  unfoldable pub raise : AuditRecord → ScheduledJob F → Bool → ScheduleCatalog F → ScheduleCatalog F
  raise r job false cat = cat
  raise r job true cat =
      let seq = suc cat.alert_seq % 2 ^ 64 in
      record cat {
        alert_seq = seq;
        alerts = pop_over max_alerts (cat.alerts ++ alert_of r job seq ∷ []);
      }

  -- The loop of `record_feedback` over the jobs `todo`; those before it are `done`.
  unfoldable pub feed :
      AuditRecord
      → Map (ScheduledJob F)
      → Map (ScheduledJob F)
      → ScheduleCatalog F
      → ScheduleCatalog F
  feed r done [] cat = record cat { jobs = done }
  feed r done ((k, job) ∷ todo) cat =
      feed r (done ++ (k, (observe r job).0) ∷ []) todo
        (raise r (observe r job).0 (observe r job).1 cat)

  -- `ScheduleCatalog::record_feedback`.
  unfoldable pub record_feedback : AuditRecord → ScheduleCatalog F → ScheduleCatalog F
  record_feedback r cat =
      if is_terminal r && has_confirmed_feedback r then feed r [] cat.jobs cat else cat
