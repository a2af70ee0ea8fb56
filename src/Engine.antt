-- ===== src/Engine.antt =====
-- crates/asmodeus-control-plane/src/engine.rs: one scenario driven through the lifecycle.
use asmodeus.Common.Category.{synthetic, is_permitted}
use asmodeus.Common.Lifecycle.{
  RunState, RunEvent, StateError, idle, completed, validate as validate_event, arm, inject, detect,
  contain, clean_up, complete, on,
}
use asmodeus.Dsl.Gate.{RejectReason, validate, out_of_scope}
use asmodeus.Dsl.Scope.{path_in_scope}
use asmodeus.Prelude.{◌≡◌, refl, inl, inr, Bool-cases, if◌then◌else◌, Text, Result, ok, err, ◌>>=◌}

pub data EngineError : Type 0 where
  rejected : RejectReason → EngineError
  transition : StateError → EngineError

pub record Outcome : Type 0 where
  pub final_state : RunState

abbrev map_err : {E F A : Type 0} → (E → F) → Result E A → Result F A
map_err f (ok a) = ok a
map_err f (err e) = err (f e)

-- `state.on(event)?`.
step : RunState → RunEvent → Result EngineError RunState
step s e = map_err transition (on s e)

-- `execute`, of the target path of the entry.
unfoldable pub execute : Text → Result EngineError Outcome
unfolding step
execute target_path = do
  entry ← map_err rejected (validate synthetic target_path)
  s1 ← step idle validate_event
  s2 ← step s1 arm
  s3 ← step s2 inject
  s4 ← step s3 detect
  s5 ← step s4 contain
  s6 ← step s5 clean_up
  s7 ← step s6 complete
  ok (record { final_state = s7 })

-- A scenario in scope always reaches the terminal state, no transition of it being refused; any
-- other is refused before the first.
pub execute_lem :
    (target_path : Text)
    → execute target_path ≡ (
        if path_in_scope target_path
        then ok (record { final_state = completed })
        else err (rejected out_of_scope))
unfolding execute validate is_permitted on
execute_lem target_path = elim (Bool-cases (path_in_scope target_path)) [
  | inl e ↦ rw e refl
  | inr e ↦ rw e refl
]
