-- ===== src/Dsl/Fidelity.antt =====
-- crates/asmodeus-dsl/src/fidelity.rs: how faithfully a scenario imitates its technique, and what it
-- may claim for that.
use asmodeus.Prelude.{
  ℕ, Bool, true, false, Option, none, some, Text, text, text_eq, trim, to_ascii_lowercase, leb,
  if◌then◌else◌, any, [], ◌∷◌,
}

pub data Fidelity : Type 0 where
  unspecified marker_only behavioral : Fidelity

pub data CoverageClass : Type 0 where
  indicator_only behavioral_signal : CoverageClass

-- The derived order of `Fidelity`, by the number of each variant.
abbrev pub trust : Fidelity → ℕ
trust unspecified = 0
trust marker_only = 1
trust behavioral = 2

-- `Ord::min`: the first of two equals.
unfoldable pub min_fidelity : Fidelity → Fidelity → Fidelity
min_fidelity a b = if leb (trust a) (trust b) then a else b

unfoldable pub parse_name : Text → Option Fidelity
parse_name s =
    if text_eq s (text "unspecified")
    then some unspecified
    else (if any (text_eq s) (text "marker_only" ∷ text "marker-only" ∷ text "markeronly" ∷ [])
        then some marker_only
        else (if any (text_eq s) (text "behavioral" ∷ text "behavioural" ∷ [])
            then some behavioral
            else none))

-- `Fidelity::parse`.
unfoldable pub parse_fidelity : Text → Option Fidelity
unfolding parse_name
parse_fidelity s = parse_name (to_ascii_lowercase (trim s))

unfoldable pub fidelity_as_str : Fidelity → Text
fidelity_as_str unspecified = text "unspecified"
fidelity_as_str marker_only = text "marker_only"
fidelity_as_str behavioral = text "behavioral"

unfoldable pub coverage_class : Fidelity → CoverageClass
coverage_class unspecified = indicator_only
coverage_class marker_only = indicator_only
coverage_class behavioral = behavioral_signal

unfoldable pub is_behavioral_signal : CoverageClass → Bool
is_behavioral_signal indicator_only = false
is_behavioral_signal behavioral_signal = true

unfoldable pub claims_behavioral : Fidelity → Bool
unfolding is_behavioral_signal coverage_class
claims_behavioral f = is_behavioral_signal (coverage_class f)

unfoldable pub permits_prevention_claim : Fidelity → Bool
unfolding claims_behavioral
permits_prevention_claim f = claims_behavioral f

pub record TechniqueRef : Type 0 where
  pub technique_id : Text
  pub fidelity : Fidelity
