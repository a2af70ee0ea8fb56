-- ===== src/Witnesses/Schedules.antt =====
-- The scheduler at concrete inputs. The drift factor is the pair of the two durations.
use asmodeus.Common.Rbac.{red_team}
use asmodeus.Schedule.{
  Sample, ScheduledJob, ScheduleCatalog, PendingOutcome, claim_due, apply, recover_interrupted,
  register, set_enabled, deregister,
}
use asmodeus.Schedule.Observe.{record_feedback}
use asmodeus.Schedule.Claim.{IsAdmitted, HasDistinctIds, IsApart, claim_due_lem}
use asmodeus.Schedule.Bounds.{IsBounded, catalog-IsBounded}
use asmodeus.Schedule.Feedback.{record_feedback_idempotent}
use asmodeus.Witnesses.Audits.{second}
use asmodeus.Prelude.{
  ℕ, ◌+◌, ◌*◌, ◌≤◌, ◌≡◌, arith, Bool, true, false, leb, [], ◌∷◌, some, none, text, text_eq, length,
  All, refl,
}

abbrev sample : Sample (ℕ × ℕ)
sample = record {
  run_id = some (text "run-2");
  feedback_received = false;
  detected = none;
  timestamp_utc = text "t0";
  status = text "COMPLETED";
  mttd_ms = 0;
  drift_detected = false;
  drift_factor = none;
}

abbrev job : ScheduledJob (ℕ × ℕ)
job = record {
  generation = [];
  id = text "J1";
  name = text "Baseline";
  scenario_id = text "S1";
  interval_sec = 60;
  role = red_team;
  target_override = none;
  enabled = true;
  created_at_utc = text "t0";
  last_run_utc = none;
  last_run_epoch_secs = none;
  last_status = none;
  last_run_id = some (text "run-2");
  last_mttd_ms = none;
  baseline_mttd_ms = some 5;
  drift_detected = false;
  detection_missed = false;
  drift_factor = none;
  run_history = sample ∷ [];
}

abbrev disabled : ScheduledJob (ℕ × ℕ)
disabled = record job { id = text "J2"; enabled = false }

abbrev catalog : ScheduleCatalog (ℕ × ℕ)
catalog = record {
  jobs = (text "J1", job) ∷ (text "J2", disabled) ∷ [];
  alerts = [];
  alert_seq = 0;
}

abbrev ratio : ℕ → ℕ → ℕ × ℕ
ratio mttd base = (mttd, base)

-- At least three halves.
abbrev drifted : ℕ × ℕ → Bool
drifted f = leb (3 * f.1) (2 * f.0)

abbrev outcome : PendingOutcome
outcome = record {
  job_id = text "J1";
  generation = [];
  run_id = some (text "run-3");
  status = text "FAILED";
  timestamp_utc = text "t1";
}

claim_due_lem_example :
    let first = claim_due 1000 (text "t1") catalog in
    let second = claim_due 2000 (text "t2") first.0 in
    All (IsAdmitted 1000) first.1
    × (length first.1 + length second.1 ≤ 2)
    × All (IsApart first.1) second.1
unfolding HasDistinctIds text_eq
claim_due_lem_example =
    claim_due_lem 1000 2000 (text "t1") (text "t2") catalog ((refl, tt), (tt, tt))

catalog-IsBounded_example :
    IsBounded (claim_due 1000 (text "t1") catalog).0
    × IsBounded (apply outcome catalog)
    × IsBounded (record_feedback ratio drifted (0, 0) second catalog)
    × IsBounded (recover_interrupted catalog)
    × IsBounded (register job catalog)
    × IsBounded (set_enabled (text "J1") false catalog).0
    × IsBounded (deregister (text "J1") catalog).0
catalog-IsBounded_example =
    catalog-IsBounded ratio drifted (0, 0) catalog 1000 (text "t1") outcome second job (text "J1")
      false (record { histories = (omega arith, (omega arith, tt)); alerts_le = omega arith })
      (omega arith)

record_feedback_idempotent_example :
    record_feedback ratio drifted
      (0, 0)
      second
      (record_feedback ratio drifted (0, 0) second catalog)
    ≡ record_feedback ratio drifted (0, 0) second catalog
record_feedback_idempotent_example = record_feedback_idempotent ratio drifted (0, 0) second catalog
