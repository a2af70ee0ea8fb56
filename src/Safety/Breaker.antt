-- ===== src/Safety/Breaker.antt =====
-- What a trip of the circuit breaker means.
use asmodeus.Safety.{CircuitBreaker, cpu, timeout, heartbeat, evaluate}
use asmodeus.Prelude.{ℕ, ◌≤◌, ◌<◌, ◌≡◌, ◌↔◌, none, some, arith}

abbrev pub InLimits : CircuitBreaker → ℕ → ℕ → ℕ → Type 0
InLimits b cpu_percent elapsed_ms missed =
    (cpu_percent ≤ b.thresholds.cpu_trip_percent)
    × (elapsed_ms ≤ b.thresholds.max_duration_ms)
    × (missed < b.thresholds.heartbeat_miss_limit)

-- The breaker lets an observation pass exactly when the load, the time and the missed heartbeats
-- are within the limits; a trip names an observed value that breaks its own limit, and the load
-- is named before the time and the time before the heartbeats.
pub evaluate_lem :
    (b : CircuitBreaker) (cpu_percent elapsed_ms missed : ℕ)
    → let limits = b.thresholds in
      let r = evaluate b cpu_percent elapsed_ms missed in
      ((r ≡ none) ↔ InLimits b cpu_percent elapsed_ms missed)
      × ((c : ℕ) → r ≡ some (cpu c) → (c ≡ cpu_percent) × (limits.cpu_trip_percent < c))
      × ((t : ℕ)
          → r ≡ some (timeout t)
          → (t ≡ elapsed_ms)
            × (limits.max_duration_ms < t)
            × (cpu_percent ≤ limits.cpu_trip_percent))
      × ((m : ℕ)
          → r ≡ some (heartbeat m)
          → (m ≡ missed)
            × (limits.heartbeat_miss_limit ≤ m)
            × (cpu_percent ≤ limits.cpu_trip_percent)
            × (elapsed_ms ≤ limits.max_duration_ms))
unfolding evaluate
evaluate_lem b cpu_percent elapsed_ms missed =
    (ground arith, λ c h. ground arith, λ t h. ground arith, λ m h. ground arith)
