-- ===== src/Witnesses/Machines.antt =====
-- The state machines of crates/asmodeus-common, crates/asmodeus-safety and of the chaos session at
-- concrete inputs.
use asmodeus.Common.Lifecycle.{
  on, run, idle, completed, injecting, trip_breaker, clean_up, is_terminal,
}
use asmodeus.Common.Lifecycle.Paths.{completed_paths, run_bounded, detected_path, tripped_path}
use asmodeus.Netchaos.{
  SimBackend, sim_backend, sim_apply, NetChaosSpec, Session, start, drop, validate, iface_in_scope,
  is_loopback, strip_prefix, contains,
}
use asmodeus.Netchaos.Rollback.{reverts, rollback, sim_rollback, sim-IsReversible}
use asmodeus.Dsl.Net.{
  net_target_in_scope, parse_ipv4_cidr, parse_octets, from_be_bytes, block_holds, prefix_mask,
}
use asmodeus.Safety.{CircuitBreaker, default_thresholds, evaluate, is_expired, new}
use asmodeus.Safety.Breaker.{evaluate_lem}
use asmodeus.Safety.DeadMan.{beat, missing, after_ticks, silence, expired_iff_silence}
use asmodeus.Prelude.{
  ℕ, ◌≤◌, ◌<◌, ◌≡◌, ◌↔◌, ◌⊎◌, refl, true, arith, [], ◌∷◌, some, ok, text, split, split_from,
  split_once, parse_unsigned, digits_from, is_digit, starts_with, text_eq, length,
}

completed_paths_example :
    (run idle detected_path ≡ ok completed)
    ↔ ((detected_path ≡ detected_path) ⊎ (detected_path ≡ tripped_path))
completed_paths_example = completed_paths detected_path

run_bounded_example :
    (length (trip_breaker ∷ clean_up ∷ []) ≤ 7)
    × (is_terminal injecting ≡ true → trip_breaker ∷ clean_up ∷ [] ≡ [])
unfolding run on
run_bounded_example = run_bounded injecting (trip_breaker ∷ clean_up ∷ []) refl

abbrev breaker : CircuitBreaker
breaker = record { thresholds = default_thresholds }

evaluate_lem_example : (◌≡◌ {A = ℕ} 90 90) × (85 < 90)
unfolding evaluate
evaluate_lem_example = (evaluate_lem breaker 90 10 0).1 90 refl

expired_iff_silence_example :
    (is_expired (after_ticks (missing ∷ missing ∷ beat ∷ []) (new 2)) ≡ true)
    ↔ (2 ≤ silence (missing ∷ missing ∷ beat ∷ []))
expired_iff_silence_example = expired_iff_silence 2 (missing ∷ missing ∷ beat ∷ []) (omega arith)

abbrev quiet : SimBackend
quiet = record { installed = []; next_token = 0 }

abbrev chaos_spec : NetChaosSpec
chaos_spec = record {
  iface = text "veth0";
  target_cidr = text "192.0.2.0/24";
  latency_ms = 100;
  jitter_ms = 10;
  loss_pct = 50;
  duration_ms = 1000;
}

abbrev after_start : SimBackend
after_start = record {
  installed = record { iface = text "veth0"; target_cidr = text "192.0.2.0/24"; token = 0 } ∷ [];
  next_token = 1;
}

abbrev session : Session sim_backend
session = record {
  state = after_start;
  handle = some (record { iface = text "veth0"; target_cidr = text "192.0.2.0/24"; token = 0 });
}

chaos_spec-starts : start sim_backend quiet chaos_spec ≡ (after_start, ok session)
unfolding start sim_apply validate iface_in_scope is_loopback strip_prefix contains starts_with
    text_eq net_target_in_scope block_holds parse_ipv4_cidr parse_octets from_be_bytes prefix_mask
    split split_from split_once parse_unsigned digits_from is_digit
chaos_spec-starts = refl

rollback_example :
    (sim_backend.rules (drop sim_backend (reverts sim_backend 2 session)) ≡ [])
    × (validate chaos_spec ≡ ok tt)
rollback_example =
    rollback sim_backend sim-IsReversible quiet after_start chaos_spec session 2 tt
      chaos_spec-starts

sim_rollback_example :
    ((drop sim_backend (reverts sim_backend 2 session)).installed ≡ [])
    × (validate chaos_spec ≡ ok tt)
sim_rollback_example = sim_rollback quiet after_start chaos_spec session 2 tt chaos_spec-starts
