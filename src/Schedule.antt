-- ===== src/Schedule.antt =====
-- crates/asmodeus-control-plane/src/scheduler.rs: the catalog of scheduled jobs. The drift factor is
-- an `f32`: its type, the quotient of two durations, the test against the threshold and zero are
-- parameters. The time is an argument.
pub mod Observe
pub mod Claim
pub mod Bounds
pub mod Feedback
use asmodeus.Common.Rbac.{Role}
use asmodeus.Telemetry.Audit.{AuditRecord, has_confirmed_feedback, is_terminal}
use asmodeus.Prelude.{
  ℕ, suc, ◌+◌, ◌-◌, ◌^◌, ◌%◌, Bool, true, false, ◌&&◌, ◌||◌, not, Option, none, some, List, [], ◌∷◌,
  ◌++◌, if◌then◌else◌, Text, text, text_eq, text_lt, nat_eq, leb, ltb, length, drop, min, Map,
  lookup, insert, remove, is_some, reverse, unwrap_or,
}

abbrev pub max_history_per_job : ℕ
max_history_per_job = 50

abbrev pub max_alerts : ℕ
max_alerts = 200

abbrev pub running : Text
running = text "RUNNING"

abbrev pub interrupted : Text
interrupted = text "INTERRUPTED"

abbrev pub skipped : Text
skipped = text "SKIPPED"

-- `ScheduledRunSample`.
pub record Sample (F : Type 0) : Type 0 where
  pub run_id : Option Text
  pub feedback_received : Bool
  pub detected : Option Bool
  pub timestamp_utc : Text
  pub status : Text
  pub mttd_ms : ℕ  -- u64
  pub drift_detected : Bool
  pub drift_factor : Option F

pub record ScheduledJob (F : Type 0) : Type 0 where
  pub generation : Text
  pub id : Text
  pub name : Text
  pub scenario_id : Text
  pub interval_sec : ℕ  -- u64
  pub role : Role
  pub target_override : Option Text
  pub enabled : Bool
  pub created_at_utc : Text
  pub last_run_utc : Option Text
  pub last_run_epoch_secs : Option ℕ  -- u64
  pub last_status : Option Text
  pub last_run_id : Option Text
  pub last_mttd_ms : Option ℕ  -- u64
  pub baseline_mttd_ms : Option ℕ  -- u64
  pub drift_detected : Bool
  pub detection_missed : Bool
  pub drift_factor : Option F
  pub run_history : List (Sample F)

pub record DriftAlert (F : Type 0) : Type 0 where
  pub detection_missed : Bool
  pub seq : ℕ  -- u64
  pub job_id : Text
  pub scenario_id : Text
  pub baseline_mttd_ms : Option ℕ
  pub observed_mttd_ms : ℕ
  pub drift_factor : F
  pub timestamp_utc : Text

pub record ScheduleCatalog (F : Type 0) : Type 0 where
  pub jobs : Map (ScheduledJob F)
  pub alerts : List (DriftAlert F)
  pub alert_seq : ℕ  -- u64

-- `option.as_deref() == Some(value)`.
unfoldable pub is_text : Option Text → Text → Bool
is_text none value = false
is_text (some t) value = text_eq t value

-- `while len > limit { pop_front }`.
unfoldable pub pop_over {ℓ} : {A : Type ℓ} → ℕ → List A → List A
pop_over limit xs = drop (length xs - limit) xs

unfoldable pub has_elapsed : ℕ → ℕ → Option ℕ → Bool
has_elapsed now interval none = true
has_elapsed now interval (some last) = leb (min (2 ^ 64 - 1) (last + interval)) now

module _ {F : Type 0} where
  -- `ScheduleCatalog::register`.
  unfoldable pub register : ScheduledJob F → ScheduleCatalog F → ScheduleCatalog F
  register job cat = record cat { jobs = insert job.id job cat.jobs }

  -- `ScheduleCatalog::deregister`.
  unfoldable pub deregister : Text → ScheduleCatalog F → ScheduleCatalog F × Bool
  deregister id cat = (record cat { jobs = remove id cat.jobs }, is_some (lookup id cat.jobs))

  unfoldable enabled_entry :
      Text → Bool → Option (ScheduledJob F) → ScheduleCatalog F → ScheduleCatalog F × Option Bool
  enabled_entry id enabled none cat = (cat, none)
  enabled_entry id enabled (some job) cat =
      (record cat { jobs = insert id (record job { enabled = enabled }) cat.jobs }, some enabled)

  -- `ScheduleCatalog::set_enabled`.
  unfoldable pub set_enabled : Text → Bool → ScheduleCatalog F → ScheduleCatalog F × Option Bool
  unfolding enabled_entry
  set_enabled id enabled cat = enabled_entry id enabled (lookup id cat.jobs) cat

  -- `ScheduleCatalog::alerts`.
  unfoldable pub newest_alerts : ScheduleCatalog F → List (DriftAlert F)
  newest_alerts cat = reverse cat.alerts

  -- The test of `claim_due`.
  unfoldable pub is_due : ℕ → ScheduledJob F → Bool
  is_due now job =
      job.enabled
      && not (is_text job.last_status running)
      && has_elapsed now job.interval_sec job.last_run_epoch_secs

  unfoldable pub claimed : ℕ → Text → ScheduledJob F → ScheduledJob F
  claimed now now_utc job = record job {
    last_run_epoch_secs = some now;
    last_status = some running;
    last_run_utc = some now_utc;
  }

  -- The loop of `claim_due`: the jobs after it, and those that it claims.
  unfoldable pub claim :
      ℕ → Text → Map (ScheduledJob F) → Map (ScheduledJob F) × List (ScheduledJob F)
  claim now now_utc [] = ([], [])
  claim now now_utc ((k, job) ∷ jobs) =
      let rest = claim now now_utc jobs in
      if is_due now job
      then ((k, claimed now now_utc job) ∷ rest.0, claimed now now_utc job ∷ rest.1)
      else ((k, job) ∷ rest.0, rest.1)

  unfoldable pub insert_by_id : ScheduledJob F → List (ScheduledJob F) → List (ScheduledJob F)
  insert_by_id job [] = job ∷ []
  insert_by_id job (j ∷ js) =
      let later = insert_by_id job js in if text_lt j.id job.id then j ∷ later else job ∷ j ∷ js

  unfoldable pub sort_by_id : List (ScheduledJob F) → List (ScheduledJob F)
  sort_by_id [] = []
  sort_by_id (j ∷ js) = insert_by_id j (sort_by_id js)

  -- `ScheduleCatalog::claim_due`.
  unfoldable pub claim_due :
      ℕ → Text → ScheduleCatalog F → ScheduleCatalog F × List (ScheduledJob F)
  claim_due now now_utc cat =
      let r = claim now now_utc cat.jobs in (record cat { jobs = r.0 }, sort_by_id r.1)

  unfoldable pub interrupt : ScheduledJob F → ScheduledJob F
  interrupt job =
      if is_text job.last_status running then record job { last_status = some interrupted } else job

  unfoldable pub each :
      (ScheduledJob F → ScheduledJob F) → Map (ScheduledJob F) → Map (ScheduledJob F)
  each f [] = []
  each f ((k, job) ∷ jobs) = (k, f job) ∷ each f jobs

  -- `ScheduleCatalog::recover_interrupted`.
  unfoldable pub recover_interrupted : ScheduleCatalog F → ScheduleCatalog F
  recover_interrupted cat = record cat { jobs = each interrupt cat.jobs }

pub record PendingOutcome : Type 0 where
  pub job_id : Text
  pub generation : Text
  pub run_id : Option Text
  pub status : Text
  pub timestamp_utc : Text

module _ {F : Type 0} where
  -- What an outcome makes of a job of its generation.
  unfoldable pub noted : PendingOutcome → ScheduledJob F → ScheduledJob F
  noted o job =
      if text_eq o.status skipped then record job { last_status = some o.status } else record job {
        last_status = some o.status;
        last_run_id = o.run_id;
        last_run_utc = some o.timestamp_utc;
        last_mttd_ms = none;
        run_history = pop_over max_history_per_job (
            job.run_history
            ++ record {
              run_id = o.run_id;
              feedback_received = false;
              detected = none;
              timestamp_utc = o.timestamp_utc;
              status = o.status;
              mttd_ms = 0;
              drift_detected = job.drift_detected;
              drift_factor = none;
            }
              ∷ []);
      }

  unfoldable pub apply_entry :
      PendingOutcome → Option (ScheduledJob F) → ScheduleCatalog F → ScheduleCatalog F
  apply_entry o none cat = cat
  apply_entry o (some job) cat =
      if text_eq job.generation o.generation
      then record cat { jobs = insert o.job_id (noted o job) cat.jobs }
      else cat

  -- `PendingOutcome::apply`.
  unfoldable pub apply : PendingOutcome → ScheduleCatalog F → ScheduleCatalog F
  apply o cat = apply_entry o (lookup o.job_id cat.jobs) cat
