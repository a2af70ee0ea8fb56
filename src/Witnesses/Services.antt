-- ===== src/Witnesses/Services.antt =====
-- The service of a runner, and what the control plane takes from it.
use asmodeus.Dispatch.{
  DispatchOutcome, Wake, message, tick, accepted, not_found, beaten, Loop, finished, started,
  dispatch,
}
use asmodeus.Dsl.Plan.{synthetic_canary_encrypt, c2_beacon}
use asmodeus.Runner.{RunnerService, busy, is_terminal, is_busy, execute, cancel}
use asmodeus.Runner.Slot.{
  Op, emitting, finishing, beating, cancelling, apply_all, Spares, HoldsSlot, slot_is_exclusive,
}
use asmodeus.Runner.Reported.{all_seen, seen, quiet, sent, is_answered, end_of, worker_is_reported}
use asmodeus.Runner.Stops.{HasBegun, own_cleanup, first_of, Says, while_waiting, stop_is_reported}
use asmodeus.Runner.Work.{
  Answers, io, reason, body_of, last_event, run_worker, work_in, emit, changed,
}
use asmodeus.Prelude.{
  ◌≡◌, refl, true, false, none, some, List, [], ◌∷◌, Text, text, text_eq, ok, err,
}

abbrev idle : RunnerService
idle = record { active = none; healthy = true; next_serial = 8 }

-- A heartbeat, a late step and the end of an earlier run, and a cancellation.
abbrev ops : List Op
ops =
    beating (text "run-8") 1000
    ∷ emitting 7 (text "COMPLETED")
    ∷ finishing 7 true
    ∷ cancelling (text "run-8")
    ∷ emitting 8 (text "Armed")
    ∷ []

slot_is_exclusive_example :
    ((execute (text "run-8") 0 idle).1 ≡ ok 8)
    × HoldsSlot 8 (text "run-8") (apply_all ops (execute (text "run-8") 0 idle).0).active
    × (execute (text "run-9") 2000 (apply_all ops (execute (text "run-8") 0 idle).0)
        ≡ (apply_all ops (execute (text "run-8") 0 idle).0, err busy))
    × ((cancel (text "run-8") (apply_all ops (execute (text "run-8") 0 idle).0)).1 ≡ ok tt)
unfolding is_busy Spares is_terminal text_eq
slot_is_exclusive_example =
    slot_is_exclusive ops (text "run-8") (text "run-9") 0 2000 idle refl
      (tt, (refl, (refl, (tt, (refl, tt)))))

-- Every call works; two files are written.
abbrev pub answers : Answers
answers = record {
  sandbox_created = none;
  first_check = none;
  waited = none;
  is_sim = false;
  session_started = none;
  session_reverted = none;
  canary_created = none;
  canary_injected = ok (record { files_created = 2; bytes_written = 8192 });
  injector_created = none;
  injected = ok (record { files_created = 1; bytes_written = 10 });
  injector_cleaned = none;
  sandbox_cleaned = none;
  elapsed = λ state. 5;
}

abbrev pub same : Text → Text
same t = t

abbrev pub run_1 : Text
run_1 = text "run-1"

-- The five events of the worker, with two ticks between them.
abbrev pub wakes : List Wake
wakes =
    message (ok (some (changed run_1 answers (text "Validated"))))
    ∷ tick false accepted 5000 beaten 5001
    ∷ message (ok (some (changed run_1 answers (text "Armed"))))
    ∷ message (ok (some (changed run_1 answers (text "Injecting"))))
    ∷ tick true not_found 6100 beaten 6101
    ∷ message (ok (some (changed run_1 answers (text "Cleanup"))))
    ∷ message (ok (some (last_event run_1 answers (body_of synthetic_canary_encrypt answers))))
    ∷ []

worker_is_reported_example :
    (l : Loop) × (o : DispatchOutcome) × (dispatch same run_1 wakes (started 4000)
      ≡ finished l (ok o))
    × (o.terminal ≡ true)
    × (o.final_state ≡ (end_of run_1 synthetic_canary_encrypt answers none).0.state)
    × (o.cleanup_confirmed ≡ (run_worker run_1 synthetic_canary_encrypt answers).1)
    × (o.completed ≡ (end_of run_1 synthetic_canary_encrypt answers none).1)
    × (o.completed ≡ true → o.cleanup_confirmed ≡ true)
unfolding run_worker work_in emit sent is_answered
worker_is_reported_example =
    worker_is_reported same run_1 synthetic_canary_encrypt answers wakes 4000 (
      seen (
        quiet false accepted 5000 5001 refl
          (seen (seen (quiet true not_found 6100 6101 refl (seen (seen all_seen)))))))

-- The lease ends while the beacon waits.
abbrev lost : Answers
lost = record answers { waited = some (io (text "CONTROL_LOST")) }

stop_is_reported_example :
    let last = last_event run_1 lost (body_of c2_beacon lost) in
    (is_terminal last.state ≡ true)
    × ((last.state ≡ text "CONTROL_LOST") × (last.cleanup_confirmed ≡ true))
unfolding reason HasBegun own_cleanup first_of Says
stop_is_reported_example =
    stop_is_reported false false 4000 60_000 3500 (text "CONTROL_LOST") run_1 c2_beacon lost none
      refl (while_waiting refl (refl, (_, refl)) refl)
