-- ===== src/Dsl/Check.antt =====
-- crates/asmodeus-dsl/src/manifest.rs: the validation of a manifest.
pub mod Parts
pub mod Bounded
use asmodeus.Common.Category.{is_permitted}
use asmodeus.Dsl.Fidelity.{TechniqueRef, parse_fidelity}
use asmodeus.Dsl.Manifest.{
  ScenarioManifest, ManifestMetadata, TargetScope, SafetySpec, api_version_v1alpha1,
  api_version_v1alpha2, first_id,
}
use asmodeus.Dsl.Mitre.{lookup_technique}
use asmodeus.Dsl.Net.{net_target_in_scope}
use asmodeus.Dsl.Plan.{PlanError, ExecutionPlan, from_manifest, scope_path, scope_cidr}
use asmodeus.Dsl.Yaml.{YamlError}
use asmodeus.Dsl.Scope.{path_in_scope}
use asmodeus.Prelude.{
  ℕ, Bool, true, false, not, ltb, Option, none, some, List, [], ◌∷◌, Text, text_eq, any, is_none,
  eq_ignore_ascii_case, Result, ok, err, ◌>>=◌, ◌>>◌, reject_if,
}

pub data ManifestValidationError : Type 0 where
  invalid_api_version : Text → ManifestValidationError
  not_synthetic : ManifestValidationError
  invalid_canary_path invalid_network_target : Text → ManifestValidationError
  cpu_limit_exceeded duration_limit_exceeded : ℕ → ManifestValidationError
  unknown_mitre_technique invalid_fidelity : Text → ManifestValidationError
  invalid_mitre_mapping : ManifestValidationError
  budget_limit_exceeded : PlanError → ManifestValidationError
  -- `ParseError`, of the two parsers.
  parse_error : Text → ManifestValidationError
  yaml_error : YamlError → ManifestValidationError

abbrev pub supported_api_versions : List Text
supported_api_versions = api_version_v1alpha1 ∷ api_version_v1alpha2 ∷ []

-- `if let Some(…)`: a test of what is there, and the error of a failed one.
unfoldable pub check_some :
    (Text → Bool)
    → (Text → ManifestValidationError)
    → Option Text
    → Result ManifestValidationError (Unit {0})
check_some test e none = ok tt
check_some test e (some t) = reject_if (not (test t)) (e t)

unfoldable pub is_known : Text → Bool
is_known id = not (is_none (lookup_technique id))

unfoldable pub check_each : List TechniqueRef → Result ManifestValidationError (Unit {0})
check_each [] = ok tt
check_each (r ∷ rs) = do
  reject_if (not (is_known r.technique_id)) (unknown_mitre_technique r.technique_id)
  check_each rs

unfoldable pub check_refs : Option (List TechniqueRef) → Result ManifestValidationError (Unit {0})
check_refs none = ok tt
check_refs (some refs) = check_each refs

unfoldable pub is_first : Text → Option Text → Bool
is_first primary none = false
is_first primary (some id) = eq_ignore_ascii_case id primary

-- The single technique, if there is a list, is the first of the list.
unfoldable pub check_mapping :
    Option Text → Option (List TechniqueRef) → Result ManifestValidationError (Unit {0})
check_mapping none refs = ok tt
check_mapping (some primary) none = ok tt
check_mapping (some primary) (some refs) =
    reject_if (not (is_first primary (first_id (some refs)))) invalid_mitre_mapping

unfoldable pub check_limits : SafetySpec → Result ManifestValidationError (Unit {0})
check_limits s = do
  reject_if (ltb 300 s.max_duration_sec) (duration_limit_exceeded s.max_duration_sec)
  reject_if (ltb 85 s.cpu_limit_percent) (cpu_limit_exceeded s.cpu_limit_percent)

unfoldable pub check_scope :
    Option Text → Option TargetScope → Result ManifestValidationError (Unit {0})
check_scope canary scope = do
  check_some path_in_scope invalid_canary_path canary
  check_some path_in_scope invalid_canary_path (scope_path scope)
  check_some net_target_in_scope invalid_network_target (scope_cidr scope)

unfoldable pub check_metadata : ManifestMetadata → Result ManifestValidationError (Unit {0})
check_metadata d = do
  check_some is_known unknown_mitre_technique d.mitre_technique
  check_refs d.mitre_techniques
  check_mapping d.mitre_technique d.mitre_techniques
  check_some (λ f. not (is_none (parse_fidelity f))) invalid_fidelity d.fidelity

unfoldable pub compiled : Result PlanError ExecutionPlan → Result ManifestValidationError (Unit {0})
compiled (ok plan) = ok tt
compiled (err e) = err (budget_limit_exceeded e)

-- `validate_manifest`.
unfoldable pub validate_manifest : ScenarioManifest → Result ManifestValidationError (Unit {0})
validate_manifest m = do
  reject_if (not (any (text_eq m.api_version) supported_api_versions))
      (invalid_api_version m.api_version)
  reject_if (not (is_permitted m.spec.action.nature)) not_synthetic
  check_limits m.spec.safety
  check_scope m.spec.safety.canary_directory_only m.spec.target_scope
  check_metadata m.metadata
  compiled (from_manifest m)
