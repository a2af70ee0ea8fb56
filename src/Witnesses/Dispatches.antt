-- ===== src/Witnesses/Dispatches.antt =====
-- The dispatch of a run at a concrete stream.
use asmodeus.Dispatch.{
  RunnerEvent, DispatchOutcome, default_outcome, concluded, Wake, message, tick, accepted, beaten,
  Loop, cancel_request, heartbeat_request, is_terminal, on_event, turn, follow, dispatch, beat,
  cancelled, started, noted,
}
use asmodeus.Dispatch.Outcome.{Unfinished, Told, dispatch_lem}
use asmodeus.Prelude.{
  ◌⊎◌, refl, true, false, ok, some, List, [], ◌∷◌, Text, text, text_eq, map, leb, ◌&&◌, ◌-◌,
  if◌then◌else◌,
}

-- Upper case for ASCII.
abbrev upper : Text → Text
upper t = map (λ c. if leb 97 c && leb c 122 then c - 32 else c) t

abbrev changed : RunnerEvent
changed = record {
  kind = 1;
  state = text "injecting";
  files_created = 0;
  bytes_written = 0;
  inject_ms = 0;
  detail = [];
  run_id = text "run-1";
  cleanup_confirmed = false;
  simulated = false;
}

-- The run is cancelled, and cleans up.
abbrev last : RunnerEvent
last = record changed {
  kind = 4;
  state = text "aborted";
  files_created = 2;
  cleanup_confirmed = true;
}

abbrev stream : List Wake
stream =
    tick false accepted 5000 beaten 5001
    ∷ message (ok (some changed))
    ∷ tick true accepted 5100 beaten 5101
    ∷ message (ok (some last))
    ∷ []

abbrev outcome_at_end : DispatchOutcome
outcome_at_end = concluded last (record default_outcome { final_state = text "ABORTED" })

abbrev loop_at_end : Loop
loop_at_end = record {
  outcome = record default_outcome { final_state = text "ABORTED" };
  status = text "ABORTED";
  cancel_sent = true;
  last_beat = 5001;
  requests = cancel_request ∷ heartbeat_request ∷ [];
}

dispatch_lem_example :
    Unfinished upper (text "run-1") outcome_at_end ⊎ Told upper (text "run-1") stream outcome_at_end
unfolding dispatch turn on_event beat cancelled started noted follow is_terminal text_eq
dispatch_lem_example = dispatch_lem upper (text "run-1") stream 5000 loop_at_end outcome_at_end refl
