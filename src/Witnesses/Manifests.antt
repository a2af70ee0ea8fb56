-- ===== src/Witnesses/Manifests.antt =====
-- A manifest, as a text and as a record.
use asmodeus.Common.Category.{red_team, synthetic, is_permitted}
use asmodeus.Dsl.Check.{
  check_each, is_first, validate_manifest, check_some, check_limits, check_scope, check_metadata,
  check_refs, check_mapping, is_known, compiled,
}
use asmodeus.Dsl.Check.Bounded.{IsBounded, validate_manifest-IsBounded}
use asmodeus.Dsl.Fidelity.{behavioral}
use asmodeus.Dsl.Json.{Value, pos_int, as_u64}
use asmodeus.Dsl.Manifest.{
  or_else, ScenarioManifest, attack_scenario, resolved_technique_refs, first_id,
}
use asmodeus.Dsl.Manifest.Ceiling.{IsHonest, resolved_technique_refs-IsHonest}
use asmodeus.Dsl.Mitre.{lookup_technique}
use asmodeus.Dsl.Parse.{
  parse_manifest, validated, validated_result, schema_checked, parse_and_validate_manifest,
}
use asmodeus.Runner.{RunnerService, admitted, is_busy, execute}
use asmodeus.Runner.Gate.{IsAccepted, execute_request_lem}
use asmodeus.Runner.Slot.{HoldsSlot}
use asmodeus.Runner.Request.{
  ExecuteRequest, is_identifier_char, key_of, manifest_of, plan_of, check_request, validate,
  execute_request, on_validated, admit,
}
use asmodeus.Dsl.Plan.{
  synthetic_canary_encrypt, target_dir_of, ExecutionPlan, from_manifest, action_of, check_names,
  is_allowed, own_parameters, check_safety, check_inside, has_selector, scope_path, scope_cidr,
  canary_size, number, number_of, in_range, iface_of, duration_of, network_of, is_latency_spike,
  is_c2_beacon,
}
use asmodeus.Dsl.Yaml.{YamlError, parse_yaml_to_json_value}
use asmodeus.Dsl.Yaml.Total.{WellKeyed, parse_yaml_answers}
use asmodeus.Prelude.{
  ℕ, ◌≡◌, refl, false, starts_with, trim, is_digit, Bool, true, ◌&&◌, none, some, Option, [], ◌∷◌,
  Text, text, text_eq, lookup, eq_ignore_ascii_case, All, Result, ok,
}

abbrev pub manifest : ScenarioManifest
manifest = record {
  api_version = text "asmodeus.io/v1alpha2";
  kind = attack_scenario;
  metadata = record {
    id = text "R";
    name = text "R";
    category = red_team;
    mitre_technique = some (text "T1486");
    mitre_tactic = none;
    fidelity = none;
    mitre_techniques = some (record { technique_id = text "T1486"; fidelity = behavioral } ∷ []);
    severity = text "medium";
    description = none;
  };
  spec = record {
    author = none;
    target_scope = none;
    safety = record {
      max_duration_sec = 60;
      cpu_limit_percent = 25;
      canary_directory_only = none;
      circuit_breaker_on_host_unresponsive = true;
    };
    action = record {
      nature = synthetic;
      action_type = text "synthetic_canary_encrypt";
      parameters = (text "file_count", pos_int 5) ∷ [];
    };
    expected_outcome = record {
      detector = [];
      expected_mttd_max_ms = none;
      expected_containment = none;
    };
  };
}

validate_manifest-IsBounded_example :
    (manifest.spec.action.nature ≡ synthetic)
    × ((p : ExecutionPlan) × (from_manifest manifest ≡ ok p) × IsBounded p)
unfolding validate_manifest is_permitted check_limits check_scope check_some scope_path scope_cidr
    check_metadata is_known lookup_technique eq_ignore_ascii_case check_refs check_mapping compiled
    from_manifest action_of lookup text_eq check_names is_allowed own_parameters check_safety
    has_selector check_inside canary_size number number_of in_range as_u64 is_c2_beacon iface_of
    duration_of is_latency_spike network_of first_id check_each is_first
validate_manifest-IsBounded_example = validate_manifest-IsBounded manifest refl

resolved_technique_refs-IsHonest_example :
    All (IsHonest manifest) (resolved_technique_refs manifest)
resolved_technique_refs-IsHonest_example = resolved_technique_refs-IsHonest manifest

-- Two lines with one key: refused.
abbrev twice : Text
twice = text "kind: a\nkind: b"

-- No float is among the texts here.
abbrev pub no_float : Text → Option ℕ
no_float s = none

parse_yaml_answers_example :
    (q : Result YamlError Value) × (parse_yaml_to_json_value no_float twice ≡ some q)
    × ((v : Value) → q ≡ ok v → WellKeyed v)
parse_yaml_answers_example = parse_yaml_answers no_float twice

-- The deserialisation of the one manifest above.
abbrev pub from_str : Text → Result Text ScenarioManifest
from_str s = ok manifest

abbrev pub from_value : Value → Result Text ScenarioManifest
from_value v = ok manifest

abbrev request : ExecuteRequest
request = record {
  run_id = text "run-1";
  scenario_id = text "R";
  manifest = text "{}";
  signature = text "s";
  public_key = text "k";
  target_dir = text "/tmp/asmodeus-canary";
  file_count = 5;
  chunk_size_kb = 64;
  timeout_sec = 30;
}

abbrev pub plan : ExecutionPlan
plan = record {
  action = synthetic_canary_encrypt;
  target_dir = text "/tmp/asmodeus-canary";
  file_count = 5;
  chunk_size_kb = 64;
  io_rate_per_sec = 0;
  duration_ms = 0;
  max_duration_sec = 60;
  cpu_limit_percent = 25;
  target_cidr = text "127.0.0.1/32";
  iface = text "lo";
  latency_ms = 100;
  jitter_ms = 0;
  loss_percent = 0;
}

-- The one signature that holds here.
abbrev pub is_valid : Text → Text → Text → Bool
is_valid payload signature key = text_eq signature (text "s") && text_eq key (text "k")

abbrev idle : RunnerService
idle = record { active = none; healthy = true; next_serial = 8 }

execute_request_lem_example :
    IsAccepted from_str from_value no_float is_valid (λ raw. true) (some (text "k")) request plan
    × (is_busy idle.active ≡ false)
    × HoldsSlot 8 (text "run-1") (admitted (text "run-1") 5 idle).active
unfolding execute_request on_validated admit execute is_busy validate key_of manifest_of plan_of
    check_request is_identifier_char parse_and_validate_manifest parse_manifest validated
    validated_result schema_checked validate_manifest is_permitted check_limits check_scope
    check_some scope_path scope_cidr check_metadata is_known lookup_technique eq_ignore_ascii_case
    check_refs check_mapping compiled from_manifest action_of lookup text_eq check_names is_allowed
    own_parameters check_safety has_selector check_inside canary_size number number_of in_range
    as_u64 is_c2_beacon iface_of duration_of is_latency_spike network_of first_id check_each
    is_first target_dir_of starts_with trim or_else is_digit
execute_request_lem_example =
    execute_request_lem from_str from_value no_float is_valid (λ raw. true) (some (text "k"))
      request 5 idle (admitted (text "run-1") 5 idle) plan 8 refl
