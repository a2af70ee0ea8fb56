-- ===== src/Runner/Request.antt =====
-- crates/asmodeus-runner/src/service.rs: the check of a request before it is admitted.
use asmodeus.Dsl.Check.{ManifestValidationError}
use asmodeus.Dsl.Json.{Value}
use asmodeus.Dsl.Manifest.{ScenarioManifest}
use asmodeus.Dsl.Parse.{parse_and_validate_manifest}
use asmodeus.Dsl.Plan.{PlanError, ExecutionPlan, from_manifest}
use asmodeus.Runner.{RunnerService, ServiceError, execute}
use asmodeus.Prelude.{
  ℕ, Bool, ◌&&◌, ◌||◌, not, Option, none, some, Text, text_eq, nat_eq, ltb, leb, length, all,
  is_digit, Result, ok, err, ◌>>=◌, ◌>>◌, reject_if,
}

pub record ExecuteRequest : Type 0 where
  pub run_id : Text
  pub scenario_id : Text
  pub manifest : Text
  pub signature : Text
  pub public_key : Text
  pub target_dir : Text
  pub file_count : ℕ
  pub chunk_size_kb : ℕ
  pub timeout_sec : ℕ

-- The messages of the refusals; `stuck` would be a parse out of fuel.
pub data Refusal : Type 0 where
  no_trusted_key untrusted not_utf8 parameters_differ bad_run_id timeout_extends stuck : Refusal
  bad_manifest : ManifestValidationError → Refusal
  bad_plan : PlanError → Refusal

-- `u8::is_ascii_alphanumeric`, `_` and `-`.
unfoldable pub is_identifier_char : ℕ → Bool
is_identifier_char c =
    is_digit c
    || ((leb b'A' c && leb c b'Z')
        || ((leb b'a' c && leb c b'z') || (nat_eq c b'_' || nat_eq c b'-')))

unfoldable pub key_of : Option Text → Result Refusal Text
key_of none = err no_trusted_key
key_of (some key) = ok key

unfoldable pub manifest_of :
    Option (Result ManifestValidationError ScenarioManifest) → Result Refusal ScenarioManifest
manifest_of none = err stuck
manifest_of (some (err e)) = err (bad_manifest e)
manifest_of (some (ok m)) = ok m

unfoldable pub plan_of : Result PlanError ExecutionPlan → Result Refusal ExecutionPlan
plan_of (err e) = err (bad_plan e)
plan_of (ok p) = ok p

-- The checks of the request against the plan that was signed.
unfoldable pub check_request :
    ExecuteRequest → ScenarioManifest → ExecutionPlan → Result Refusal ExecutionPlan
check_request req m plan = do
  reject_if
      (not (text_eq m.metadata.id req.scenario_id)
        || (not (text_eq plan.target_dir req.target_dir)
            || (not (nat_eq plan.file_count req.file_count)
                || not (nat_eq plan.chunk_size_kb req.chunk_size_kb))))
      parameters_differ
  reject_if
      (nat_eq (length req.run_id) 0
        || (ltb 96 (length req.run_id) || not (all is_identifier_char req.run_id)))
      bad_run_id
  reject_if (ltb plan.max_duration_sec req.timeout_sec) timeout_extends
  ok plan

pub data ExecuteError : Type 0 where
  refused : Refusal → ExecuteError
  of_slot : ServiceError → ExecuteError

-- The plan and the number of the run go to the worker that is started.
unfoldable pub admit :
    ExecutionPlan
    → RunnerService × Result ServiceError ℕ
    → RunnerService × Result ExecuteError (ExecutionPlan × ℕ)
admit plan (s, ok serial) = (s, ok (plan, serial))
admit plan (s, err e) = (s, err (of_slot e))

unfoldable pub on_validated :
    ExecuteRequest
    → ℕ
    → RunnerService
    → Result Refusal ExecutionPlan
    → RunnerService × Result ExecuteError (ExecutionPlan × ℕ)
on_validated req now s (err e) = (s, err (refused e))
on_validated req now s (ok plan) = admit plan (execute req.run_id now s)

module _ (from_str : Text → Result Text ScenarioManifest)
    (from_value : Value → Result Text ScenarioManifest) (parse_f64 : Text → Option ℕ)
    (is_valid : Text → Text → Text → Bool) (is_utf8 : Text → Bool) where
  -- `RunnerService::validate`, given the trusted key.
  unfoldable pub validate : Option Text → ExecuteRequest → Result Refusal ExecutionPlan
  validate trusted_key req = do
    key ← key_of trusted_key
    reject_if (not (text_eq key req.public_key) || not (is_valid req.manifest req.signature key))
        untrusted
    reject_if (not (is_utf8 req.manifest)) not_utf8
    m ← manifest_of (parse_and_validate_manifest from_str from_value parse_f64 req.manifest)
    plan ← plan_of (from_manifest m)
    check_request req m plan

  -- `RunnerService::execute`: a request that is valid takes the slot, unless a run holds it.
  unfoldable pub execute_request :
      Option Text
      → ExecuteRequest
      → ℕ
      → RunnerService
      → RunnerService × Result ExecuteError (ExecutionPlan × ℕ)
  execute_request trusted_key req now s = on_validated req now s (validate trusted_key req)
