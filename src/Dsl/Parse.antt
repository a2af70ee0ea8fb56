-- ===== src/Dsl/Parse.antt =====
-- crates/asmodeus-dsl/src/manifest.rs: from a text to an accepted manifest. The deserialisation of
-- serde, from a JSON text and from a value, is a parameter, with its message as the error.
use asmodeus.Common.Category.{synthetic}
use asmodeus.Dsl.Check.{ManifestValidationError, parse_error, yaml_error, validate_manifest}
use asmodeus.Dsl.Check.Bounded.{IsBounded, validate_manifest-IsBounded}
use asmodeus.Dsl.Json.{Value}
use asmodeus.Dsl.Manifest.{ScenarioManifest}
use asmodeus.Dsl.Plan.{ExecutionPlan, from_manifest}
use asmodeus.Dsl.Yaml.{YamlError, parse_yaml_to_json_value}
use asmodeus.Dsl.Yaml.Total.{parse_yaml_answers}
use asmodeus.Prelude.{
  ℕ, ◌≡◌, refl, subst, Bool-cases, inl, inr, Option, none, some, Text, text, trim, starts_with,
  Result, ok, err, ◌>>=◌, >>=-eq-ok, ◌>>◌, if◌then◌else◌,
}

unfoldable pub schema_checked :
    Result Text ScenarioManifest → Result ManifestValidationError ScenarioManifest
schema_checked (ok m) = ok m
schema_checked (err message) = err (parse_error message)

module _ (from_str : Text → Result Text ScenarioManifest)
    (from_value : Value → Result Text ScenarioManifest) (parse_f64 : Text → Option ℕ) where
  unfoldable pub of_value :
      Option (Result YamlError Value) → Option (Result ManifestValidationError ScenarioManifest)
  of_value none = none
  of_value (some (err e)) = some (err (yaml_error e))
  of_value (some (ok v)) = some (schema_checked (from_value v))

  -- `parse_manifest`; `none` would be a translation out of fuel.
  unfoldable pub parse_manifest : Text → Option (Result ManifestValidationError ScenarioManifest)
  parse_manifest raw =
      if starts_with (trim raw) (text "{")
      then some (schema_checked (from_str (trim raw)))
      else of_value (parse_yaml_to_json_value parse_f64 (trim raw))

  unfoldable pub validated : ScenarioManifest → Result ManifestValidationError ScenarioManifest
  validated m = do validate_manifest m; ok m

  unfoldable pub validated_result :
      Option (Result ManifestValidationError ScenarioManifest)
      → Option (Result ManifestValidationError ScenarioManifest)
  validated_result none = none
  validated_result (some r) = some (r >>= validated)

  -- `parse_and_validate_manifest`.
  unfoldable pub parse_and_validate_manifest :
      Text → Option (Result ManifestValidationError ScenarioManifest)
  parse_and_validate_manifest raw = validated_result (parse_manifest raw)

  parse_manifest-answers :
      (raw : Text)
      → (r : Result ManifestValidationError ScenarioManifest) × (parse_manifest raw ≡ some r)
  unfolding parse_manifest of_value
  parse_manifest-answers raw = elim (Bool-cases (starts_with (trim raw) (text "{"))) [
    | inl t ↦ (schema_checked (from_str (trim raw)), rw t refl)
    | inr t ↦ let (q, is, keyed) = parse_yaml_answers parse_f64 (trim raw) in rw (t, is) (answer q)
  ]
    where
      answer :
          (q : Result YamlError Value)
          → (r : Result ManifestValidationError ScenarioManifest) × (of_value (some q) ≡ some r)
      answer (ok v) = (schema_checked (from_value v), refl)
      answer (err e) = (err (yaml_error e), refl)

  validated-cases :
      (r : Result ManifestValidationError ScenarioManifest) (m : ScenarioManifest)
      → (r >>= validated) ≡ ok m
      → validate_manifest m ≡ ok tt
  unfolding validated
  validated-cases r m h =
      let (m', is, h1) = >>=-eq-ok r validated h in
      let (u, passed, same) = >>=-eq-ok (validate_manifest m') _ h1 in
      let e : m' ≡ m = cc in subst (λ x. validate_manifest x ≡ ok tt) e passed

  -- Every text is answered, with an error or with a manifest that is synthetic and whose plan is
  -- bounded, whatever the deserialisation makes of the text.
  pub manifest_text_is_gated :
      (raw : Text)
      → (r : Result ManifestValidationError ScenarioManifest) × (parse_and_validate_manifest raw
          ≡ some r)
        × ((m : ScenarioManifest)
            → r ≡ ok m
            → (m.spec.action.nature ≡ synthetic)
              × ((p : ExecutionPlan) × (from_manifest m ≡ ok p) × IsBounded p))
  unfolding parse_and_validate_manifest validated_result
  manifest_text_is_gated raw =
      let (r, is) = parse_manifest-answers raw in
      (r >>= validated, rw is refl, λ m h. validate_manifest-IsBounded m (validated-cases r m h))
