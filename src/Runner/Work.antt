-- ===== src/Runner/Work.antt =====
-- crates/asmodeus-runner/src/service.rs: the worker of a run and what it reports. The answers of the
-- sandbox, the injectors and the network session are arguments, as are the moments of the events.
use asmodeus.Dispatch.{RunnerEvent, kind_completed, kind_rejected}
use asmodeus.Dsl.Plan.{
  Action, synthetic_canary_encrypt, k8s_escape_probe, c2_beacon, credential_canary,
  log_tamper_canary, persistence_canary, exfiltration_canary, watchdog_probe, latency_spike,
}
use asmodeus.Prelude.{
  ℕ, ◌*◌, ◌^◌, ◌%◌, Bool, true, false, ◌||◌, Option, none, some, List, [], ◌∷◌, Text, text,
  starts_with, nat_eq, leb, ◌++◌, Result, ok, err, if◌then◌else◌,
}

-- `str::contains`.
unfoldable pub contains : Text → Text → Bool
contains [] p = starts_with [] p
contains (c ∷ s) p = starts_with (c ∷ s) p || contains s p

pub record Report : Type 0 where
  pub files_created : ℕ  -- usize
  pub bytes_written : ℕ  -- u64

abbrev pub report0 : Report
report0 = record { files_created = 0; bytes_written = 0 }

pub data InjectError : Type 0 where
  out_of_scope io : Text → InjectError

-- `Display`.
unfoldable pub message_of : InjectError → Text
message_of (out_of_scope p) = text "path out of canary scope: " ++ p
message_of (io e) = text "io error: " ++ e

-- The time of the run, in milliseconds.
unfoldable pub timeout_of : ℕ → ℕ → ℕ
timeout_of timeout_sec max_duration_sec =
    (if nat_eq timeout_sec 0 then max_duration_sec else timeout_sec) * 1000

abbrev pub lease : ℕ
lease = 3000

-- Why the check of a run stops it, or that it does not.
unfoldable pub reason : Bool → Bool → ℕ → ℕ → ℕ → Option Text
reason cancelled is_closed elapsed timeout since_beat =
    if cancelled || is_closed
    then some (text "CANCELLED")
    else if leb timeout elapsed
    then some (text "TIMED_OUT")
    else if leb lease since_beat
    then some (text "CONTROL_LOST")
    else none

-- What each call of the worker answers: its error, or none.
pub record Answers : Type 0 where
  pub sandbox_created : Option Text
  pub first_check : Option InjectError
  pub waited : Option InjectError
  pub is_sim : Bool
  pub session_started : Option Text
  pub session_reverted : Option Text
  pub canary_created : Option InjectError
  pub canary_injected : Result InjectError Report
  pub injector_created : Option InjectError
  pub injected : Result InjectError Report
  pub injector_cleaned : Option Text
  pub sandbox_cleaned : Option Text
  pub elapsed : Text → ℕ

-- The variables of the worker after the run.
pub record Body : Type 0 where
  pub cleanup_error : Option Text
  pub simulated : Bool
  pub result : Result InjectError Report

unfoldable pub failed : InjectError → Body
failed e = record { cleanup_error = none; simulated = false; result = err e }

-- `r` after a step with `?`.
unfoldable pub after : Option InjectError → Result InjectError Report → Result InjectError Report
after none r = r
after (some e) r = err e

unfoldable pub latency_of : Answers → Option Text → Body
latency_of a (some e) = record { cleanup_error = none; simulated = a.is_sim; result = err (io e) }
latency_of a none = record {
  cleanup_error = a.session_reverted;
  simulated = a.is_sim;
  result = after a.waited (ok report0);
}

unfoldable pub written_of :
    Option InjectError → Result InjectError Report → Result InjectError Report
written_of waited (err e) = err e
written_of waited (ok report) = after waited (ok report)

unfoldable pub canary_of : Answers → Body
canary_of a = record {
  cleanup_error = none;
  simulated = false;
  result = after a.canary_created (written_of a.waited a.canary_injected);
}

unfoldable pub waited_of : Option InjectError → Result InjectError Report → Option InjectError
waited_of waited (ok report) = waited
waited_of waited (err e) = none

unfoldable pub injector_of : Answers → Option InjectError → Body
injector_of a (some e) = failed e
injector_of a none = record {
  cleanup_error = a.injector_cleaned;
  simulated = false;
  result = after (waited_of a.waited a.injected) a.injected;
}

-- The action of the plan.
unfoldable pub perform : Action → Answers → Body
perform latency_spike a = latency_of a a.session_started
perform synthetic_canary_encrypt a = canary_of a
perform k8s_escape_probe a = injector_of a a.injector_created
perform c2_beacon a = injector_of a a.injector_created
perform credential_canary a = injector_of a a.injector_created
perform log_tamper_canary a = injector_of a a.injector_created
perform persistence_canary a = injector_of a a.injector_created
perform exfiltration_canary a = injector_of a a.injector_created
perform watchdog_probe a = injector_of a a.injector_created

unfoldable pub checked : Action → Answers → Option InjectError → Body
checked action a (some e) = failed e
checked action a none = perform action a

-- The cleanup of the sandbox is last: its error is the one that is kept.
unfoldable pub with_cleanup : Option Text → Body → Body
with_cleanup none b = b
with_cleanup (some e) b = record b { cleanup_error = some e }

unfoldable pub body_of : Action → Answers → Body
body_of action a = with_cleanup a.sandbox_cleaned (checked action a a.first_check)

pub record Terminal : Type 0 where
  pub kind : ℕ
  pub state : Text
  pub detail : Text
  pub report : Report

unfoldable pub failure_of : Text → Terminal
failure_of detail =
    if contains detail (text "CANCELLED")
    then record { kind = 4; state = text "CANCELLED"; detail = detail; report = report0 }
    else if contains detail (text "TIMED_OUT")
    then record { kind = 6; state = text "TIMED_OUT"; detail = detail; report = report0 }
    else if contains detail (text "CONTROL_LOST")
    then record { kind = 5; state = text "CONTROL_LOST"; detail = detail; report = report0 }
    else record { kind = 5; state = text "FAILED"; detail = detail; report = report0 }

unfoldable pub terminal_of : Option Text → Result InjectError Report → Terminal
terminal_of (some error) r = record {
  kind = 5;
  state = text "CLEANUP_FAILED";
  detail = error;
  report = report0;
}
terminal_of none (ok report) = record {
  kind = kind_completed;
  state = text "COMPLETED";
  detail = [];
  report = report;
}
terminal_of none (err e) = failure_of (message_of e)

-- `event`.
unfoldable pub event : Text → Answers → Terminal → Bool → RunnerEvent
event run_id a t cleanup = record {
  kind = t.kind;
  state = t.state;
  run_id = run_id;
  detail = t.detail;
  cleanup_confirmed = cleanup;
  simulated = false;
  files_created = t.report.files_created % 2 ^ 32;
  bytes_written = t.report.bytes_written;
  inject_ms = a.elapsed t.state % 2 ^ 64;
}

-- What a worker does to what others see: it sets the state of its run, or sends an event.
pub data Act : Type 0 where
  shows : Text → Act
  sends : RunnerEvent → Act

unfoldable pub changed : Text → Answers → Text → RunnerEvent
changed run_id a state =
    event run_id a (record { kind = 1; state = state; detail = []; report = report0 }) false

unfoldable pub emit : Text → Answers → Text → List Act → List Act
emit run_id a state rest = shows state ∷ sends (changed run_id a state) ∷ rest

unfoldable pub is_clean : Option Text → Bool
is_clean none = true
is_clean (some e) = false

unfoldable pub last_event : Text → Answers → Body → RunnerEvent
last_event run_id a b =
    record (event run_id a (terminal_of b.cleanup_error b.result) (is_clean b.cleanup_error)) {
      simulated = b.simulated;
    }

unfoldable pub rejection : Text → Answers → Text → RunnerEvent
rejection run_id a e =
    event run_id a
      (record { kind = kind_rejected; state = text "REJECTED"; detail = e; report = report0 }) false

unfoldable pub work_in : Text → Action → Answers → Option Text → List Act × Bool
work_in run_id action a (some e) = (sends (rejection run_id a e) ∷ [], false)
work_in run_id action a none =
    let b = body_of action a in
    (
      emit run_id a (text "Armed") (
          emit run_id a (text "Injecting") (
            emit run_id a (text "Cleanup") (
              shows (terminal_of b.cleanup_error b.result).state
              ∷ sends (last_event run_id a b)
              ∷ []))),
      is_clean b.cleanup_error,
    )

-- `run_worker`, as what others see of it and whether it has cleaned up.
unfoldable pub run_worker : Text → Action → Answers → List Act × Bool
run_worker run_id action a =
    let (acts, cleaned) = work_in run_id action a a.sandbox_created in
    (emit run_id a (text "Validated") acts, cleaned)
