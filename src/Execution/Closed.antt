-- ===== src/Execution/Closed.antt =====
-- crates/asmodeus-control-plane/src/execution.rs: the record of a run on a runner, from the worker to the
-- audit store.
use asmodeus.Dispatch.{Status, DispatchOutcome}
use asmodeus.Dsl.Plan.{Action}
use asmodeus.Execution.{ExecutionError, runner_incomplete}
use asmodeus.Execution.Finish.{Settled, error_of, settled_of}
use asmodeus.Runner.{is_terminal}
use asmodeus.Runner.Reported.{is_ok, end_of}
use asmodeus.Runner.Work.{
  Report, InjectError, message_of, contains, failure_of, terminal_of, event, rejection, last_event,
  is_clean, body_of, Answers,
}
use asmodeus.Prelude.{
  ◌≡◌, refl, sym, arith, Bool, true, false, ◌&&◌, ◌||◌, not, Bool-cases, inl, inr, Option, none,
  some, is_some, Text, text, text_eq, Result, ok, err, if◌then◌else◌,
}

failure-state :
    (detail : Text)
    → (is_terminal (failure_of detail).state ≡ true)
      × (text_eq (failure_of detail).state (text "COMPLETED") ≡ false)
unfolding failure_of is_terminal text_eq
failure-state detail = elim (Bool-cases (contains detail (text "CANCELLED"))) [
  | inl t ↦ rw t (refl, refl)
  | inr t ↦ elim (Bool-cases (contains detail (text "TIMED_OUT"))) [
    | inl u ↦ rw (t, u) (refl, refl)
    | inr u ↦ elim (Bool-cases (contains detail (text "CONTROL_LOST"))) [
      | inl v ↦ rw (t, u, v) (refl, refl)
      | inr v ↦ rw (t, u, v) (refl, refl)
    ]
  ]
]

terminal-state :
    (cleanup_error : Option Text) (r : Result InjectError Report)
    → (is_terminal (terminal_of cleanup_error r).state ≡ true)
      × (text_eq (terminal_of cleanup_error r).state (text "COMPLETED")
          ≡ (is_clean cleanup_error && is_ok r))
unfolding terminal_of is_clean is_ok is_terminal text_eq
terminal-state (some e) r = (refl, refl)
terminal-state none (ok report) = (refl, refl)
terminal-state none (err e) = failure-state (message_of e)

pub end_of-state :
    (run_id : Text) (action : Action) (a : Answers) (o : Option Text)
    → let (last, done) = end_of run_id action a o in
      (is_terminal last.state ≡ true) × (text_eq last.state (text "COMPLETED") ≡ done)
unfolding end_of rejection last_event event is_terminal text_eq
end_of-state run_id action a (some e) = (refl, refl)
end_of-state run_id action a none =
    let b = body_of action a in terminal-state b.cleanup_error b.result

-- What an outcome of a runner is, whose run has done all or not, and has cleaned up or not.
unfoldable pub Agrees : Bool → Bool → DispatchOutcome → Type 0
Agrees done cleaned o =
    (o.terminal ≡ true)
    × (o.completed ≡ done)
    × (o.cleanup_confirmed ≡ cleaned)
    × (text_eq o.final_state (text "COMPLETED") ≡ done)
    × (is_some o.rejected ≡ true → done ≡ false)
    × (done ≡ true → cleaned ≡ true)

-- What a run comes to.
unfoldable pub Comes : Bool → Bool → Settled → Type 0
Comes done cleaned s =
    (text_eq s.status (text "COMPLETED") ≡ done)
    × (s.cleaned ≡ cleaned)
    × (done ≡ true → s.error ≡ none)

settled-if :
    (t done cleaned : Bool) (state detail : Text) (simulated : Bool)
    → t ≡ false
    → text_eq state (text "COMPLETED") ≡ done
    → let error : Option ExecutionError = if t then some (runner_incomplete state) else none in
      Comes done cleaned (record {
        status = if is_some error then text "FAILED" else state;
        cleaned = cleaned;
        detail = detail;
        error = error;
        simulated = simulated;
      })
unfolding Comes
settled-if false done cleaned state detail simulated h e = (e, refl, λ d. refl)
settled-if true done cleaned state detail simulated h e = cc

pub settled_of-Comes :
    (to_string : Status → Text) (done cleaned : Bool) (o : DispatchOutcome)
    → Agrees done cleaned o
    → Comes done cleaned (settled_of to_string true (ok o))
unfolding Agrees Comes settled_of error_of text_eq
settled_of-Comes to_string done cleaned o (ended, completed, confirmed, named, refused, only) =
    go o.rejected refl
  where
    go :
        (q : Option Text)
        → o.rejected ≡ q
        → let error = error_of true o q in
          Comes done cleaned (record {
            status = if is_some error then text "FAILED" else o.final_state;
            cleaned = o.cleanup_confirmed;
            detail = o.detail;
            error = error;
            simulated = o.simulated;
          })
    go (some reason) e =
        let lost = refused (rw e refl) in (sym lost, confirmed, λ d. absurd (ground arith))
    go none e = rw confirmed (
        settled-if (not o.terminal || (o.completed && not cleaned)) done cleaned o.final_state
          o.detail o.simulated (ground arith) named)
