-- ===== src/Telemetry/Aggregate.antt =====
-- crates/asmodeus-telemetry/src/lib.rs: the rolling aggregate. The counters are of 64 bits, the sums
-- of 128, and both wrap, as a release build does.
use asmodeus.Telemetry.Audit.{AuditRecord, is_terminal, has_confirmed_feedback, evidence_is}
use asmodeus.Prelude.{
  ℕ, ◌+◌, ◌-◌, ◌/◌, ◌%◌, ◌^◌, Bool, true, false, List, [], ◌∷◌, if◌then◌else◌, text, text_eq,
  nat_eq,
}

pub record Aggregate : Type 0 where
  pub scenarios_executed : ℕ
  pub detected : ℕ
  pub feedback_received : ℕ
  pub simulated_runs : ℕ
  pub pending_feedback : ℕ
  pub contained : ℕ
  pub detection_samples : ℕ
  pub containment_samples : ℕ
  pub sum_mttd_ms : ℕ
  pub sum_mttr_ms : ℕ

abbrev pub default_aggregate : Aggregate
default_aggregate = record {
  scenarios_executed = 0;
  detected = 0;
  feedback_received = 0;
  simulated_runs = 0;
  pending_feedback = 0;
  contained = 0;
  detection_samples = 0;
  containment_samples = 0;
  sum_mttd_ms = 0;
  sum_mttr_ms = 0;
}

unfoldable pub one_if : Bool → ℕ
one_if b = if b then 1 else 0

-- What a run that was carried out by a runner, with feedback, adds.
unfoldable pub confirmed : AuditRecord → Aggregate
unfolding one_if
confirmed r =
    let detected = r.measurements.blue_team_detected in
    let contained = evidence_is (λ e. e.contained) r in
    record default_aggregate {
      scenarios_executed = 1;
      feedback_received = 1;
      detected = one_if detected;
      detection_samples = one_if detected;
      sum_mttd_ms = if detected then r.measurements.mttd_ms else 0;
      contained = one_if contained;
      containment_samples = one_if contained;
      sum_mttr_ms = if contained then r.measurements.mttr_ms else 0;
    }

-- `Aggregate::contribution`.
unfoldable pub contribution : AuditRecord → Aggregate
contribution r =
    if is_terminal r
    then (if evidence_is (λ e. text_eq e.execution_mode (text "simulated")) r
        then record default_aggregate { scenarios_executed = 1; simulated_runs = 1 }
        else if has_confirmed_feedback r
        then confirmed r
        else record default_aggregate { scenarios_executed = 1; pending_feedback = 1 })
    else default_aggregate

-- One field of `combine`.
unfoldable pub merge : ℕ → Bool → ℕ → ℕ → ℕ
merge w add a b = if add then (a + b) % 2 ^ w else a - b

-- `Aggregate::combine`.
unfoldable pub combine : Bool → Aggregate → Aggregate → Aggregate
combine add self other = record {
  scenarios_executed = merge 64 add self.scenarios_executed other.scenarios_executed;
  detected = merge 64 add self.detected other.detected;
  feedback_received = merge 64 add self.feedback_received other.feedback_received;
  simulated_runs = merge 64 add self.simulated_runs other.simulated_runs;
  pending_feedback = merge 64 add self.pending_feedback other.pending_feedback;
  contained = merge 64 add self.contained other.contained;
  detection_samples = merge 64 add self.detection_samples other.detection_samples;
  containment_samples = merge 64 add self.containment_samples other.containment_samples;
  sum_mttd_ms = merge 128 add self.sum_mttd_ms other.sum_mttd_ms;
  sum_mttr_ms = merge 128 add self.sum_mttr_ms other.sum_mttr_ms;
}

-- `Aggregate::record_run`.
unfoldable pub record_run : AuditRecord → Aggregate → Aggregate
record_run r self = combine true self (contribution r)

-- `Aggregate::update_run`.
unfoldable pub update_run : AuditRecord → AuditRecord → Aggregate → Aggregate
update_run old new self = record_run new (combine false self (contribution old))

-- The loop of `Aggregate::from_records`, from the aggregate so far.
unfoldable pub record_all : List AuditRecord → Aggregate → Aggregate
record_all [] self = self
record_all (r ∷ rs) self = record_all rs (record_run r self)

-- `Aggregate::from_records`.
unfoldable pub from_records : List AuditRecord → Aggregate
from_records rs = record_all rs default_aggregate

-- `checked_div(..).unwrap_or(0) as u64`.
unfoldable pub mean : ℕ → ℕ → ℕ
mean sum samples = if nat_eq samples 0 then 0 else sum / samples % 2 ^ 64

-- `Aggregate::mean_mttd_ms`.
unfoldable pub mean_mttd_ms : Aggregate → ℕ
mean_mttd_ms self = mean self.sum_mttd_ms self.detection_samples

-- `Aggregate::mean_mttr_ms`.
unfoldable pub mean_mttr_ms : Aggregate → ℕ
mean_mttr_ms self = mean self.sum_mttr_ms self.containment_samples
