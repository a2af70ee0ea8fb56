-- ===== src/Execution/Finish.antt =====
-- crates/asmodeus-control-plane/src/execution.rs: the durable admission of a run, and its end in the audit
-- store. The webhooks and the JSON of the answer are left out.
use asmodeus.Execution.{
  ScenarioEntry, ExecutionError, runner_rejected, runner_incomplete, dispatch_failed, audit_signing,
  audit_persistence, disappeared, queued_record,
}
use asmodeus.AuditStore.{Write, AuditStore, StoreError, append, update, sign}
use asmodeus.Common.Category.{Category}
use asmodeus.Common.Rbac.{Role}
use asmodeus.Dispatch.{Status, DispatchOutcome, default_outcome}
use asmodeus.Registry.{RunnerRecord}
use asmodeus.RunControl.{ActiveRun, new}
use asmodeus.Telemetry.Audit.{AuditRecord, RunEvidence}
use asmodeus.Prelude.{
  ℕ, ◌*◌, Bool, true, false, ◌&&◌, ◌||◌, not, Option, none, some, is_some, List, [], ◌∷◌, Text,
  text, text_eq, nat_eq, leb, length, Map, insert, filter, Result, ok, err, if◌then◌else◌,
}

-- The state that a run changes: the audit store, and the runs that are active.
pub record RunState : Type 0 where
  pub audit : AuditStore
  pub runs : Map ActiveRun

-- The simulated run, over what each turn of its loop reads, the cancellation and the elapsed time in
-- milliseconds; `none` at the end of the turns is a run that goes on.
unfoldable pub simulate : ℕ → ℕ → List (Bool × ℕ) → Option Text
simulate timeout duration_ms [] = none
simulate timeout duration_ms ((is_cancelled, elapsed) ∷ turns) =
    let rest = simulate timeout duration_ms turns in
    if is_cancelled
    then some (text "CANCELLED")
    else if leb (timeout * 1000) elapsed
    then some (text "TIMED_OUT")
    else if leb duration_ms elapsed
    then some (text "COMPLETED")
    else rest

unfoldable pub simulated_outcome : Text → DispatchOutcome
simulated_outcome status = record default_outcome {
  terminal = true;
  completed = text_eq status (text "COMPLETED");
  final_state = status;
}

-- What an outcome comes to: the error of the run is none for a confirmed end.
unfoldable pub error_of : Bool → DispatchOutcome → Option Text → Option ExecutionError
error_of on_runner out (some reason) = some (runner_rejected reason)
error_of on_runner out none =
    if not out.terminal || (on_runner && (out.completed && not out.cleanup_confirmed))
    then some (runner_incomplete out.final_state)
    else none

pub record Settled : Type 0 where
  pub status : Text
  pub cleaned : Bool
  pub detail : Text
  pub error : Option ExecutionError
  pub simulated : Bool

-- `to_string` of a status of the RPC library is a parameter.
unfoldable pub settled_of : (Status → Text) → Bool → Result Status DispatchOutcome → Settled
settled_of to_string on_runner (ok out) =
    let error = error_of on_runner out out.rejected in
    record {
      status = if is_some error then text "FAILED" else out.final_state;
      cleaned = out.cleanup_confirmed;
      detail = out.detail;
      error = error;
      simulated = out.simulated;
    }
settled_of to_string on_runner (err e) = record {
  status = text "FAILED";
  cleaned = false;
  detail = to_string e;
  error = some (dispatch_failed e);
  simulated = not on_runner;
}

unfoldable pub closed_evidence : Settled → RunEvidence → RunEvidence
closed_evidence s e = record e {
  execution_mode = if s.simulated then text "simulated" else e.execution_mode;
  cleanup_confirmed = s.cleaned;
  failure_reason = if nat_eq (length s.detail) 0 then none else some s.detail;
}

unfoldable pub closed_record : Text → Bool → Settled → AuditRecord → AuditRecord
closed_record now on_runner s r = record r {
  status = s.status;
  cleanup_status =
      if not on_runner
      then text "NOT_APPLICABLE"
      else if s.cleaned
      then text "SUCCESS"
      else text "UNCONFIRMED";
  evidence = elim r.evidence [ none ↦ none | some e ↦ some (closed_evidence s e) ];
  timestamp_utc = now;
}

unfoldable pub without : Text → Map ActiveRun → Map ActiveRun
without run_id runs = filter (λ p. not (text_eq p.0 run_id)) runs

unfoldable pub with_status : Text → Text → Map ActiveRun → Map ActiveRun
with_status run_id status [] = []
with_status run_id status ((k, run) ∷ runs) =
    (k, if text_eq k run_id then record run { status = status } else run)
    ∷ with_status run_id status runs

module _ (to_line : AuditRecord → Text)
    (signature : AuditRecord → Result StoreError (Text × Text)) where
  unfoldable pub appended :
      Text
      → Category
      → AuditStore × Result StoreError (Unit {0})
      → RunState
      → RunState × Result ExecutionError (Unit {0})
  appended run_id category (audit, err e) s =
      (record s { audit = audit }, err (audit_persistence e))
  appended run_id category (audit, ok u) s =
      (record { audit = audit; runs = insert run_id (new category) s.runs }, ok tt)

  unfoldable pub admit_signed :
      Write
      → Category
      → Result StoreError AuditRecord
      → RunState
      → RunState × Result ExecutionError (Unit {0})
  admit_signed w category (err e) s = (s, err (audit_signing e))
  admit_signed w category (ok r) s = appended r.run_id category (append to_line w r s.audit) s

  -- The durable admission of a run.
  unfoldable pub admit :
      Write
      → Text
      → Text
      → Role
      → ScenarioEntry
      → Option RunnerRecord
      → RunState
      → RunState × Result ExecutionError (Unit {0})
  admit w now run_id role entry selected s =
      admit_signed w entry.category (sign signature (queued_record now run_id role entry selected))
        s

  unfoldable pub answer_of :
      Option ExecutionError → Option AuditRecord → Result ExecutionError AuditRecord
  answer_of error none = err disappeared
  answer_of (some e) (some r) = err e
  answer_of none (some r) = ok r

  unfoldable pub saved_run :
      Text
      → Settled
      → AuditStore × Result StoreError (Option AuditRecord)
      → RunState
      → RunState × Result ExecutionError AuditRecord
  saved_run run_id settled (audit, ok r) s =
      (record { audit = audit; runs = without run_id s.runs }, answer_of settled.error r)
  saved_run run_id settled (audit, err e) s = (
    record { audit = audit; runs = with_status run_id (text "AUDIT_PERSISTENCE_FAILED") s.runs },
    err (audit_persistence e),
  )

  -- The end of a run: its record is revised, and the run is not active any more.
  unfoldable pub close :
      Write → Text → Text → Bool → Settled → RunState → RunState × Result ExecutionError AuditRecord
  close w now run_id on_runner settled s =
      saved_run run_id settled
        (update to_line w run_id (λ r. sign signature (closed_record now on_runner settled r))
          s.audit)
        s
