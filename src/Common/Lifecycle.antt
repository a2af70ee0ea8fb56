-- ===== src/Common/Lifecycle.antt =====
-- crates/asmodeus-common/src/state.rs: the run lifecycle and its transition table.
pub mod Paths
use asmodeus.Prelude.{◌≡◌, refl, Bool, true, false, List, [], ◌∷◌, Result, ok, err, ◌>>=◌}

pub data RunState : Type 0 where
  idle validated armed injecting detected contained circuit_breaker_tripped cleanup completed :
      RunState

pub data RunEvent : Type 0 where
  validate arm inject detect contain trip_breaker clean_up complete : RunEvent

pub record StateError : Type 0 where
  pub from : RunState
  pub event : RunEvent

-- `RunState::on`.
unfoldable pub on : RunState → RunEvent → Result StateError RunState
on idle validate = ok validated
on validated arm = ok armed
on armed inject = ok injecting
on injecting detect = ok detected
on injecting trip_breaker = ok circuit_breaker_tripped
on detected contain = ok contained
on contained clean_up = ok cleanup
on circuit_breaker_tripped clean_up = ok cleanup
on cleanup complete = ok completed
on s e = err (record { from = s; event = e })

-- `RunState::is_terminal`.
unfoldable pub is_terminal : RunState → Bool
is_terminal completed = true
is_terminal _ = false

-- Events applied one after the other, each with `?`.
unfoldable pub run : RunState → List RunEvent → Result StateError RunState
run s [] = ok s
run s (e ∷ es) = on s e >>= λ t. run t es
