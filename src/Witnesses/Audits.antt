-- ===== src/Witnesses/Audits.antt =====
-- The audit trail, its store and the aggregate at concrete inputs.
use asmodeus.Telemetry.Audit.{
  AuditRecord, replay, from_lines, lines, from_jsonl, get, append as append_record,
}
use asmodeus.Telemetry.Aggregate.{from_records, update_run}
use asmodeus.Telemetry.Means.{IsU64, update_run_lem}
use asmodeus.AuditStore.{
  AuditStore, written, rolled_back, append_to_file, publish_new, load, append, persist,
}
use asmodeus.AuditStore.Log.{is_whole}
use asmodeus.AuditStore.Durable.{is_torn}
use asmodeus.AuditStore.Reload.{Commit, appending, after_all, after, KeepsLog, reload_lem}
use asmodeus.Witnesses.Codec.{to_line, from_str, decodes, not_blank, one_line}
use asmodeus.Prelude.{
  ◌≡◌, ◌++◌, refl, arith, true, List, [], ◌∷◌, some, none, Text, text, text_eq, ok,
}

abbrev pub run_of : Text → Text → AuditRecord
run_of id status = record {
  run_id = id;
  scenario_id = text "S";
  scenario_name = text "Canary";
  category = text "attack";
  mitre_technique = text "T1486";
  mitre_tactic = text "Impact";
  severity = text "low";
  tag = text "t";
  initiator = text "admin";
  runner_id = text "r1";
  status = status;
  measurements = record { mttd_ms = 10; mttr_ms = 20; blue_team_detected = true };
  detection_source = text "edr";
  containment_action = text "isolate";
  cleanup_status = text "SUCCESS";
  timestamp_utc = text "2026-01-01T00:00:00Z";
  signature_hex = [];
  public_key_hex = [];
  evidence = some (record {
    execution_mode = text "runner";
    feedback_received = true;
    contained = true;
    cleanup_confirmed = true;
    failure_reason = none;
  });
}

abbrev pub first : AuditRecord
first = run_of (text "run-1") (text "RUNNING")

abbrev revised : AuditRecord
revised = run_of (text "run-1") (text "COMPLETED")

abbrev pub second : AuditRecord
second = run_of (text "run-2") (text "COMPLETED")

update_run_lem_example :
    update_run first revised (from_records (second ∷ first ∷ []))
    ≡ from_records (second ∷ revised ∷ [])
unfolding IsU64
update_run_lem_example =
    update_run_lem first revised (second ∷ []) [] (omega arith)
      ((omega arith, omega arith), ((omega arith, omega arith), tt)) (omega arith, omega arith)

abbrev empty_store : AuditStore
empty_store = record {
  trail = record { records = [] };
  aggregate = from_records [];
  file = some [];
}

-- The second append of a run is refused, and the write of the third record fails.
abbrev commits : List Commit
commits =
    appending written first
    ∷ appending written first
    ∷ appending rolled_back second
    ∷ appending written second
    ∷ []

abbrev bytes : Text
bytes = (to_line first ++ 10 ∷ []) ++ (to_line second ++ 10 ∷ [])

reload_lem_example :
    (is_whole bytes ≡ true)
    × (from_jsonl from_str bytes ≡ ok (after_all to_line commits empty_store).trail)
unfolding load from_jsonl from_lines lines replay after_all after append persist append_to_file
    publish_new get append_record text_eq is_whole KeepsLog is_torn
reload_lem_example =
    reload_lem from_str to_line decodes not_blank one_line [] bytes empty_store commits refl
      (refl, (refl, (refl, (refl, tt)))) refl refl
