-- ===== src/Safety.antt =====
-- crates/asmodeus-safety/src/lib.rs: the circuit breaker and the dead-man switch.
pub mod Breaker
pub mod DeadMan
use asmodeus.Prelude.{
  ℕ, zero, suc, ◌+◌, ◌≡◌, Bool, true, false, Option, none, some, if◌then◌else◌, ltb, leb, is_some,
  min,
}

pub record Thresholds : Type 0 where
  pub cpu_trip_percent : ℕ  -- u8
  pub heartbeat_miss_limit : ℕ  -- u8
  pub max_duration_ms : ℕ  -- u64

-- `Thresholds::default`.
abbrev pub default_thresholds : Thresholds
default_thresholds = record {
  cpu_trip_percent = 85;
  heartbeat_miss_limit = 3;
  max_duration_ms = 120000;
}

pub data Trip : Type 0 where
  cpu timeout heartbeat : ℕ → Trip

-- `CircuitBreaker`, whose one field is the thresholds.
pub record CircuitBreaker : Type 0 where
  pub thresholds : Thresholds

-- `CircuitBreaker::evaluate`.
unfoldable pub evaluate : CircuitBreaker → ℕ → ℕ → ℕ → Option Trip
evaluate b cpu_percent elapsed_ms heartbeats_missed =
    if ltb b.thresholds.cpu_trip_percent cpu_percent
    then some (cpu cpu_percent)
    else if ltb b.thresholds.max_duration_ms elapsed_ms
    then some (timeout elapsed_ms)
    else if leb b.thresholds.heartbeat_miss_limit heartbeats_missed
    then some (heartbeat heartbeats_missed)
    else none

-- `should_trip`.
unfoldable pub should_trip : ℕ → ℕ → Bool
unfolding evaluate
should_trip cpu_percent heartbeats_missed =
    is_some (evaluate (record { thresholds = default_thresholds }) cpu_percent 0 heartbeats_missed)

pub record DeadManSwitch : Type 0 where
  pub limit : ℕ  -- u8
  pub missed : ℕ  -- u8

-- `DeadManSwitch::new`.
unfoldable pub new : ℕ → DeadManSwitch
new limit = record { limit = limit; missed = 0 }

unfoldable pub record_beat : DeadManSwitch → DeadManSwitch
record_beat d = record d { missed = 0 }

-- `saturating_add` of a `u8`.
unfoldable pub miss : DeadManSwitch → DeadManSwitch
miss d = record d { missed = min 255 (d.missed + 1) }

unfoldable pub is_expired : DeadManSwitch → Bool
is_expired d = leb d.limit d.missed
