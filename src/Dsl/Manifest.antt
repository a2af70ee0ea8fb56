-- ===== src/Dsl/Manifest.antt =====
-- crates/asmodeus-dsl/src/manifest.rs: the declarative manifest and the trust in what it declares.
-- The derived deserialisation into these records is code of serde.
pub mod Ceiling
use asmodeus.Common.Category.{Category, ActionNature}
use asmodeus.Dsl.Fidelity.{
  Fidelity, unspecified, marker_only, behavioral, min_fidelity, parse_fidelity, TechniqueRef,
}
use asmodeus.Dsl.Json.{Value}
use asmodeus.Dsl.Mitre.{MitreTechnique, lookup_technique}
use asmodeus.Prelude.{
  ℕ, Bool, ◌&&◌, ◌||◌, Option, none, some, List, [], ◌∷◌, map, Text, text, text_eq, Map,
  eq_ignore_ascii_case, unwrap_or, if◌then◌else◌,
}
use asmodeus.Prelude.Opt.{◌>>=◌}

pub data ManifestKind : Type 0 where
  attack_scenario chaos_experiment : ManifestKind

pub record ManifestMetadata : Type 0 where
  pub id : Text
  pub name : Text
  pub category : Category
  pub mitre_technique : Option Text
  pub mitre_tactic : Option Text
  pub fidelity : Option Text
  pub mitre_techniques : Option (List TechniqueRef)
  pub severity : Text
  pub description : Option Text

pub record TargetScope : Type 0 where
  pub target_type : Text
  pub selector : Option (Map Text)
  pub target_path : Option Text
  pub target_cidr : Option Text

pub record SafetySpec : Type 0 where
  pub max_duration_sec : ℕ  -- u32
  pub cpu_limit_percent : ℕ  -- u32
  pub canary_directory_only : Option Text
  pub circuit_breaker_on_host_unresponsive : Bool

pub record ActionSpec : Type 0 where
  pub nature : ActionNature
  pub action_type : Text
  pub parameters : Map Value

pub record ExpectedOutcome : Type 0 where
  pub detector : Text
  pub expected_mttd_max_ms : Option ℕ
  pub expected_containment : Option Text

pub record ManifestSpec : Type 0 where
  pub author : Option Text
  pub target_scope : Option TargetScope
  pub safety : SafetySpec
  pub action : ActionSpec
  pub expected_outcome : ExpectedOutcome

pub record ScenarioManifest : Type 0 where
  pub api_version : Text
  pub kind : ManifestKind
  pub metadata : ManifestMetadata
  pub spec : ManifestSpec

abbrev pub api_version_v1alpha1 : Text
api_version_v1alpha1 = text "asmodeus.io/v1alpha1"

abbrev pub api_version_v1alpha2 : Text
api_version_v1alpha2 = text "asmodeus.io/v1alpha2"

unfoldable pub is_legacy : ScenarioManifest → Bool
is_legacy m = text_eq m.api_version api_version_v1alpha1

-- What the executor of an action does, whatever the author declares.
unfoldable pub implemented : Text → Fidelity
implemented action =
    if text_eq action (text "synthetic_canary_encrypt") || text_eq action (text "latency_spike")
    then behavioral
    else marker_only

unfoldable pub declared : Option Text → Fidelity
declared f = unwrap_or (f >>= parse_fidelity) unspecified

-- `ScenarioManifest::effective_fidelity`.
unfoldable pub effective_fidelity : ScenarioManifest → Fidelity
effective_fidelity m =
    if is_legacy m
    then unspecified
    else min_fidelity (declared m.metadata.fidelity) (implemented m.spec.action.action_type)

unfoldable pub first_id : Option (List TechniqueRef) → Option Text
first_id none = none
first_id (some []) = none
first_id (some (r ∷ rs)) = some r.technique_id

unfoldable pub or_else {ℓ} : {A : Type ℓ} → Option A → Option A → Option A
or_else none b = b
or_else (some a) b = some a

-- `ScenarioManifest::primary_technique`.
unfoldable pub primary_technique : ScenarioManifest → Option MitreTechnique
primary_technique m =
    or_else (first_id m.metadata.mitre_techniques) m.metadata.mitre_technique >>= lookup_technique

unfoldable pub technique_fidelity : ScenarioManifest → Text → Fidelity → Fidelity
technique_fidelity m id ceiling =
    if text_eq m.spec.action.action_type (text "synthetic_canary_encrypt")
      && eq_ignore_ascii_case id (text "T1486")
    then ceiling
    else min_fidelity ceiling marker_only

-- One entry of the list of the manifest, clamped.
unfoldable pub clamped : ScenarioManifest → Fidelity → TechniqueRef → TechniqueRef
clamped m ceiling r = record r {
  fidelity = min_fidelity r.fidelity (technique_fidelity m r.technique_id ceiling);
}

unfoldable pub refs_of :
    ScenarioManifest → Fidelity → Option (List TechniqueRef) → Option Text → List TechniqueRef
refs_of m ceiling (some refs) single = map (clamped m ceiling) refs
refs_of m ceiling none (some id) =
    record { technique_id = id; fidelity = technique_fidelity m id ceiling } ∷ []
refs_of m ceiling none none = []

-- `ScenarioManifest::resolved_technique_refs`.
unfoldable pub resolved_technique_refs : ScenarioManifest → List TechniqueRef
resolved_technique_refs m =
    refs_of m (effective_fidelity m) m.metadata.mitre_techniques m.metadata.mitre_technique
