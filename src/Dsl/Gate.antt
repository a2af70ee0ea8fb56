-- ===== src/Dsl/Gate.antt =====
-- crates/asmodeus-dsl/src/lib.rs: the INV-0 gates of a file system action and of a network action.
use asmodeus.Common.Category.{ActionNature, synthetic, operational, is_permitted}
use asmodeus.Common.Lifecycle.{RunState, validated}
use asmodeus.Dsl.Net.{net_target_in_scope}
use asmodeus.Dsl.Scope.{path_in_scope}
use asmodeus.Prelude.{◌≡◌, ◌↔◌, true, not, arith, Text, Result, ok, err, ◌>>◌, reject_if}

pub data RejectReason : Type 0 where
  not_synthetic out_of_scope out_of_net_scope : RejectReason

-- `validate`.
unfoldable pub validate : ActionNature → Text → Result RejectReason RunState
validate nature target_path = do
  reject_if (not (is_permitted nature)) not_synthetic
  reject_if (not (path_in_scope target_path)) out_of_scope
  ok validated

-- `validate_net`.
unfoldable pub validate_net : ActionNature → Text → Result RejectReason RunState
validate_net nature target_cidr = do
  reject_if (not (is_permitted nature)) not_synthetic
  reject_if (not (net_target_in_scope target_cidr)) out_of_net_scope
  ok validated

-- Each gate opens exactly for a synthetic action whose target is in scope, and then into the state
-- `validated`; an operational action is refused as such whatever its target.
gates_lem :
    (nature : ActionNature) (target : Text)
    → ((s : RunState)
        → (validate nature target ≡ ok s)
          ↔ ((nature ≡ synthetic) × (path_in_scope target ≡ true) × (s ≡ validated)))
      × ((s : RunState)
          → (validate_net nature target ≡ ok s)
            ↔ ((nature ≡ synthetic) × (net_target_in_scope target ≡ true) × (s ≡ validated)))
      × (nature ≡ operational
          → (validate nature target ≡ err not_synthetic)
            × (validate_net nature target ≡ err not_synthetic))
unfolding validate validate_net is_permitted
gates_lem synthetic target = (
  λ s. (λ h. ground arith, λ h. ground arith),
  λ s. (λ h. ground arith, λ h. ground arith),
  λ h. cc,
)
gates_lem operational target = (λ s. (λ h. cc, λ h. cc), λ s. (λ h. cc, λ h. cc), λ h. ground arith)
