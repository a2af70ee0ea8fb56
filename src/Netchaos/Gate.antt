-- ===== src/Netchaos/Gate.antt =====
-- What the gate of a chaos rule guarantees.
use asmodeus.Dsl.Net.{net_target_in_scope}
use asmodeus.Netchaos.{
  NetChaosSpec, iface_in_scope, validate, max_latency_ms, max_jitter_ms, max_loss_pct,
  max_duration_ms,
}
use asmodeus.Prelude.{◌≤◌, ◌<◌, ◌≡◌, ◌↔◌, true, arith, ok}

pub record InBudget (spec : NetChaosSpec) : Type 0 where
  pub target : net_target_in_scope spec.target_cidr ≡ true
  pub interface : iface_in_scope spec.iface ≡ true
  pub latency : spec.latency_ms ≤ max_latency_ms
  pub jitter : spec.jitter_ms ≤ max_jitter_ms
  pub loss : spec.loss_pct ≤ max_loss_pct
  pub positive : 0 < spec.duration_ms
  pub duration : spec.duration_ms ≤ max_duration_ms

-- A rule passes the gate exactly when its target and its interface are in scope and its latency,
-- jitter, loss and duration are within the budget, the duration positive.
pub validate_iff : (spec : NetChaosSpec) → (validate spec ≡ ok tt) ↔ InBudget spec
unfolding validate
validate_iff spec = (λ h. ground arith, λ v. ground arith)
