-- ===== src/Common/Lifecycle/Paths.antt =====
-- Which sequences of events the lifecycle accepts.
use asmodeus.Common.Lifecycle.{
  RunState, RunEvent, StateError, idle, validated, armed, injecting, detected, contained,
  circuit_breaker_tripped, cleanup, completed, validate, arm, inject, detect, contain, trip_breaker,
  clean_up, complete, on, is_terminal, run,
}
use asmodeus.Prelude.{
  ℕ, suc, ◌+◌, ◌≤◌, ◌<◌, ◌≡◌, refl, ◌↔◌, ◌⊎◌, true, List, [], ◌∷◌, arith, Result, ok, err, ◌>>=◌,
  length,
}

abbrev pub detected_path : List RunEvent
detected_path = validate ∷ arm ∷ inject ∷ detect ∷ contain ∷ clean_up ∷ complete ∷ []

abbrev pub tripped_path : List RunEvent
tripped_path = validate ∷ arm ∷ inject ∷ trip_breaker ∷ clean_up ∷ complete ∷ []

from_completed : (es : List RunEvent) → run completed es ≡ ok completed → es ≡ []
unfolding run on
from_completed [] h = refl
from_completed (e ∷ es) h = ground arith

from_cleanup : (es : List RunEvent) → run cleanup es ≡ ok completed → es ≡ complete ∷ []
unfolding run on
from_cleanup [] h = cc
from_cleanup (e ∷ es) h = ground (arith, from_completed es)

from_contained :
    (es : List RunEvent) → run contained es ≡ ok completed → es ≡ clean_up ∷ complete ∷ []
unfolding run on
from_contained [] h = cc
from_contained (e ∷ es) h = ground (arith, from_cleanup es)

from_tripped :
    (es : List RunEvent)
    → run circuit_breaker_tripped es ≡ ok completed
    → es ≡ clean_up ∷ complete ∷ []
unfolding run on
from_tripped [] h = cc
from_tripped (e ∷ es) h = ground (arith, from_cleanup es)

from_detected :
    (es : List RunEvent) → run detected es ≡ ok completed → es ≡ contain ∷ clean_up ∷ complete ∷ []
unfolding run on
from_detected [] h = cc
from_detected (e ∷ es) h = ground (arith, from_contained es)

from_injecting :
    (es : List RunEvent)
    → run injecting es ≡ ok completed
    → (es ≡ detect ∷ contain ∷ clean_up ∷ complete ∷ [])
      ⊎ (es ≡ trip_breaker ∷ clean_up ∷ complete ∷ [])
unfolding run on
from_injecting [] h = cc
from_injecting (e ∷ es) h = ground (arith, from_detected es, from_tripped es)

from_armed :
    (es : List RunEvent)
    → run armed es ≡ ok completed
    → (es ≡ inject ∷ detect ∷ contain ∷ clean_up ∷ complete ∷ [])
      ⊎ (es ≡ inject ∷ trip_breaker ∷ clean_up ∷ complete ∷ [])
unfolding run on
from_armed [] h = cc
from_armed (e ∷ es) h = ground (arith, from_injecting es)

from_validated :
    (es : List RunEvent)
    → run validated es ≡ ok completed
    → (es ≡ arm ∷ inject ∷ detect ∷ contain ∷ clean_up ∷ complete ∷ [])
      ⊎ (es ≡ arm ∷ inject ∷ trip_breaker ∷ clean_up ∷ complete ∷ [])
unfolding run on
from_validated [] h = cc
from_validated (e ∷ es) h = ground (arith, from_armed es)

from_idle :
    (es : List RunEvent) → run idle es ≡ ok completed → (es ≡ detected_path) ⊎ (es ≡ tripped_path)
unfolding run on
from_idle [] h = cc
from_idle (e ∷ es) h = ground (arith, from_validated es)

-- A run ends as completed by exactly two sequences of events: detection, containment and cleanup,
-- or a trip of the breaker and cleanup; both begin with validation and arming.
pub completed_paths :
    (es : List RunEvent)
    → (run idle es ≡ ok completed) ↔ ((es ≡ detected_path) ⊎ (es ≡ tripped_path))
unfolding run on
completed_paths es = (from_idle es, λ h. ground arith)

abbrev rank : RunState → ℕ
rank idle = 0
rank validated = 1
rank armed = 2
rank injecting = 3
rank detected = 4
rank contained = 5
rank circuit_breaker_tripped = 5
rank cleanup = 6
rank completed = 7

on-rank : (s : RunState) (e : RunEvent) {t : RunState} → on s e ≡ ok t → rank s < rank t
unfolding on
on-rank s e h = ground arith

rank-le : (s : RunState) → rank s ≤ 7
rank-le s = ground arith

run-rank :
    (s : RunState) (es : List RunEvent) {t : RunState}
    → run s es ≡ ok t
    → rank s + length es ≤ rank t
unfolding run
run-rank s [] h = ground arith
run-rank s (e ∷ es) {t} h = go (on s e) refl h (λ u. run-rank u es)
  where
    go :
        (r : Result StateError RunState)
        → on s e ≡ r
        → (r >>= λ u. run u es) ≡ ok t
        → ((u : RunState) → run u es ≡ ok t → rank u + length es ≤ rank t)
        → rank s + suc (length es) ≤ rank t
    go (ok u) q k later = omega (arith, on-rank s e q, later u k)
    go (err x) q k later = cc

-- From any state at most seven events are accepted, and a completed run accepts none.
pub run_bounded :
    (s : RunState) (es : List RunEvent) {t : RunState}
    → run s es ≡ ok t
    → (length es ≤ 7) × (is_terminal s ≡ true → es ≡ [])
unfolding is_terminal
run_bounded s [] {t} h = (omega arith, λ e. refl)
run_bounded s (e ∷ es) {t} h = (
  omega (arith, run-rank s (e ∷ es) h, rank-le t),
  λ q. ground (arith, run-rank s (e ∷ es) h, rank-le t),
)
