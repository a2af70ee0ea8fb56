-- ===== src/Execution/Admission.antt =====
-- crates/asmodeus-control-plane/src/execution.rs: what is known of a run that is admitted.
use asmodeus.Common.Category.{synthetic, required_capability}
use asmodeus.Common.Rbac.{Role, can}
use asmodeus.Dsl.Check.Bounded.{IsBounded}
use asmodeus.Dsl.Check.{ManifestValidationError}
use asmodeus.Dsl.Json.{Value}
use asmodeus.Dsl.Manifest.{ScenarioManifest}
use asmodeus.Dsl.Parse.{manifest_text_is_gated}
use asmodeus.Dsl.Plan.{ExecutionPlan, from_manifest}
use asmodeus.Execution.{
  ScenarioEntry, Admitted, compiled_plan, signed_plan, select_runner, check_start,
}
use asmodeus.Prelude.Ensures.{Ensures, succeeds, stops, result_of, after_test, after_step}
use asmodeus.Registry.{RegistryData, RunnerRecord, wanted, find_for_target}
use asmodeus.Prelude.{
  ℕ, ◌≤◌, ◌<◌, ◌≡◌, refl, arith, Bool, true, false, ◌||◌, not, Option, none, some, is_some,
  unwrap_or, Text, nat_eq, ltb, Result, ok, err,
}

signed_plan-Ensures :
    (r : Result ManifestValidationError ScenarioManifest)
    → ((m : ScenarioManifest)
        → r ≡ ok m
        → (m.spec.action.nature ≡ synthetic)
          × ((p : ExecutionPlan) × (from_manifest m ≡ ok p) × IsBounded p))
    → Ensures IsBounded (signed_plan (some r))
unfolding signed_plan compiled_plan
signed_plan-Ensures (err e) h = stops
signed_plan-Ensures (ok m) h = let (nature, (p, is, bounded)) = h m refl in rw is (succeeds bounded)

-- The runner is the one that the registry chooses; without one, none is named and none is needed.
unfoldable pub IsChosen : Option Text → Option RunnerRecord → Bool → Option RunnerRecord → Type 0
IsChosen target found required selected =
    (selected ≡ found) × ((is_some target || required) ≡ true → is_some selected ≡ true)

select_runner-Ensures :
    (target : Option Text) (found : Option RunnerRecord) (required : Bool)
    → Ensures (IsChosen target found required) (select_runner target found required)
unfolding select_runner IsChosen
select_runner-Ensures target (some r) required = succeeds (refl, λ h. refl)
select_runner-Ensures (some t) none required = stops
select_runner-Ensures none none true = stops
select_runner-Ensures none none false = succeeds (refl, λ h. cc)

module _ (from_str : Text → Result Text ScenarioManifest)
    (from_value : Value → Result Text ScenarioManifest) (parse_f64 : Text → Option ℕ)
    (is_valid : Text → Text → Text → Bool) (is_utf8 : Text → Bool) (public_key : Text) where
  -- What is known of a run that is admitted.
  unfoldable pub IsAdmitted : RegistryData → ScenarioEntry → Role → Option Text → Admitted → Type 0
  IsAdmitted registry entry role target a =
      (can role (required_capability entry.category) ≡ true)
      × (is_valid entry.manifest entry.signature public_key ≡ true)
      × IsBounded a.plan
      × (0 < a.timeout)
      × (a.timeout ≤ a.plan.max_duration_sec)
      × IsChosen (wanted target) (find_for_target target registry) registry.require_runner
          a.selected

  -- A scenario run that passes the guards is of a category that the role may run, with a manifest that
  -- is signed under the key of the catalog; its plan is within every bound and its time is positive and
  -- at most that of the plan; its runner is the one that the registry chooses for the target, and
  -- there is one if a target is named or the registry requires it. This holds whatever the
  -- deserialisation and the check of a signature answer.
  pub check_start_lem :
      (registry : RegistryData) (entry : ScenarioEntry) (role : Role) (target : Option Text)
      (timeout_sec : Option ℕ) (a : Admitted)
      → check_start from_str from_value parse_f64 is_valid is_utf8 public_key registry entry role
          target timeout_sec
        ≡ ok a
      → IsAdmitted registry entry role target a
  unfolding check_start IsAdmitted
  check_start_lem registry entry role target timeout_sec a h =
      let (r, is, gated) = manifest_text_is_gated from_str from_value parse_f64 entry.manifest in
      result_of {Q = IsAdmitted registry entry role target}
        (after_test (not (can role (required_capability entry.category))) _ λ may.
          after_test (not (is_valid entry.manifest entry.signature public_key)) _ λ signed.
            after_test (not (is_utf8 entry.manifest)) _ λ utf8. rw is (
              after_step (signed_plan-Ensures r gated) λ plan bounded.
                after_test
                  (nat_eq (unwrap_or timeout_sec plan.max_duration_sec) 0
                    || ltb plan.max_duration_sec (unwrap_or timeout_sec plan.max_duration_sec))
                  _
                  λ time.
                    after_step
                      (select_runner-Ensures (wanted target) (find_for_target target registry)
                        registry.require_runner)
                      λ selected chosen.
                        succeeds (
                          ground arith,
                          ground arith,
                          bounded,
                          ground arith,
                          ground arith,
                          chosen,
                        )))
        h
