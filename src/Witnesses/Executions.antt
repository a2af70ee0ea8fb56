-- ===== src/Witnesses/Executions.antt =====
-- The admission of a scenario run, and its record, at concrete inputs.
use asmodeus.Common.Category.{red_team, is_permitted}
use asmodeus.Dsl.Check.{
  check_each, is_first, validate_manifest, check_some, check_limits, check_scope, check_metadata,
  check_refs, check_mapping, is_known, compiled,
}
use asmodeus.Dsl.Json.{as_u64}
use asmodeus.Dsl.Manifest.{or_else, first_id}
use asmodeus.Dsl.Mitre.{lookup_technique}
use asmodeus.Dsl.Parse.{
  parse_manifest, validated, validated_result, schema_checked, parse_and_validate_manifest,
}
use asmodeus.Dsl.Plan.{
  synthetic_canary_encrypt, target_dir_of, from_manifest, action_of, check_names, is_allowed,
  own_parameters, check_safety, check_inside, has_selector, scope_path, scope_cidr, canary_size,
  number, number_of, in_range, iface_of, duration_of, network_of, is_latency_spike, is_c2_beacon,
}
use asmodeus.Prelude.{
  Result, Text, trim_start, is_space, ◌≡◌, refl, false, starts_with, trim, is_digit, true, none,
  some, [], ◌∷◌, text, text_eq, lookup, eq_ignore_ascii_case, ok,
}
use asmodeus.Common.Category.{required_capability}
use asmodeus.AuditStore.{StoreError, written}
use asmodeus.Common.Rbac.{admin, can}
use asmodeus.Telemetry.Audit.{AuditRecord}
use asmodeus.Dispatch.{
  Status, accepted, not_found, DispatchOutcome, Loop, finished, started, dispatch,
}
use asmodeus.Execution.{
  ScenarioEntry, Admitted, compiled_plan, signed_plan, select_runner, check_start,
}
use asmodeus.Execution.Admission.{IsAdmitted, check_start_lem}
use asmodeus.Execution.Finish.{RunState, settled_of, close}
use asmodeus.Execution.Recorded.{Leaves, run_is_recorded}
use asmodeus.Registry.{by_id, wanted, find_for_target, prefer}
use asmodeus.RunControl.{new}
use asmodeus.Runner.Reported.{seen, quiet, all_seen, sent, is_answered, end_of}
use asmodeus.Runner.Work.{run_worker, work_in, emit}
use asmodeus.Telemetry.Aggregate.{from_records}
use asmodeus.Witnesses.Audits.{first}
use asmodeus.Witnesses.Codec.{to_line}
use asmodeus.Witnesses.Manifests.{no_float, from_str, from_value, plan, is_valid}
use asmodeus.Witnesses.Runners.{node, table}
use asmodeus.Witnesses.Services.{answers, run_1, wakes, same}

abbrev entry : ScenarioEntry
entry = record {
  id = text "R";
  name = text "R";
  category = red_team;
  mitre = some (text "T1486", text "Impact");
  severity = text "medium";
  manifest = text "{}";
  signature = text "s";
}

abbrev admitted : Admitted
admitted = record { plan = plan; timeout = 30; selected = some node }

check_start_lem_example :
    IsAdmitted from_str from_value no_float is_valid
      (λ raw. true)
      (text "k")
      table
      entry
      admin
      (some (text "r1"))
      admitted
unfolding check_start signed_plan compiled_plan select_runner can required_capability
    find_for_target prefer by_id wanted trim_start is_space parse_and_validate_manifest
    parse_manifest validated validated_result schema_checked validate_manifest is_permitted
    check_limits check_scope check_some scope_path scope_cidr check_metadata is_known
    lookup_technique eq_ignore_ascii_case check_refs check_mapping compiled from_manifest action_of
    lookup text_eq check_names is_allowed own_parameters check_safety has_selector check_inside
    canary_size number number_of in_range as_u64 is_c2_beacon iface_of duration_of is_latency_spike
    network_of first_id check_each is_first target_dir_of starts_with trim or_else is_digit
check_start_lem_example =
    check_start_lem from_str from_value no_float is_valid (λ raw. true) (text "k") table entry admin
      (some (text "r1")) (some 30) admitted refl

-- The run has been admitted.
abbrev state : RunState
state = record {
  audit = record {
    trail = record { records = first ∷ [] };
    aggregate = from_records (first ∷ []);
    file = none;
  };
  runs = (run_1, new red_team) ∷ [];
}

abbrev signature : AuditRecord → Result StoreError (Text × Text)
signature r = ok (text "aa", text "bb")

abbrev to_string : Status → Text
to_string status = []

run_is_recorded_example :
    let done = (end_of run_1 synthetic_canary_encrypt answers none).1 in
    let cleaned = (run_worker run_1 synthetic_canary_encrypt answers).1 in
    (l : Loop) × (o : DispatchOutcome) × (dispatch same run_1 wakes (started 4000)
      ≡ finished l (ok o))
    × Leaves to_line signature written done cleaned run_1 state (
        close to_line signature written
          (text "now")
          run_1
          true
          (settled_of to_string true (ok o))
          state)
unfolding run_worker work_in emit sent is_answered
run_is_recorded_example =
    run_is_recorded to_line signature same to_string run_1 (text "now") synthetic_canary_encrypt
      answers wakes 4000 written state (λ t h. refl)
      (seen (
        quiet false accepted 5000 5001 refl
          (seen (seen (quiet true not_found 6100 6101 refl (seen (seen all_seen)))))))
