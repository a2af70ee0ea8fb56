-- ===== src/Runner/Stops.antt =====
-- crates/asmodeus-runner/src/service.rs: a run that its check stops is reported under the reason.
use asmodeus.Dsl.Plan.{
  Action, synthetic_canary_encrypt, k8s_escape_probe, c2_beacon, credential_canary,
  log_tamper_canary, persistence_canary, exfiltration_canary, watchdog_probe, latency_spike,
}
use asmodeus.Dispatch.{RunnerEvent}
use asmodeus.Runner.{is_terminal}
use asmodeus.Runner.Work.{
  contains, lease, reason, Report, InjectError, io, message_of, Answers, failed, after, latency_of,
  written_of, canary_of, waited_of, injector_of, perform, checked, with_cleanup, body_of,
  failure_of, terminal_of, event, is_clean, last_event,
}
use asmodeus.Prelude.{
  ℕ, ◌≡◌, inl, inr, false, refl, sym, subst, Bool, true, ◌||◌, Bool-cases, Option, none, some, Text,
  text, text_eq, starts_with, leb, ok, err,
}

-- Whether what a run needs before it waits has worked.
unfoldable pub HasBegun : Action → Answers → Type 0
HasBegun latency_spike a = a.session_started ≡ none
HasBegun synthetic_canary_encrypt a =
    (a.canary_created ≡ none) × ((report : Report) × (a.canary_injected ≡ ok report))
HasBegun _ a = (a.injector_created ≡ none) × ((report : Report) × (a.injected ≡ ok report))

-- The error of the cleanup that an action has of its own.
unfoldable pub own_cleanup : Action → Answers → Option Text
own_cleanup latency_spike a = a.session_reverted
own_cleanup synthetic_canary_encrypt a = none
own_cleanup _ a = a.injector_cleaned

-- The check stops the run with `r`; the cleanup of the sandbox follows, and that of the action, whose
-- error is `e`.
pub data StopsWith (r : Text) (a : Answers) : Action → Option Text → Type 0 where
  at_start : {action : Action} → a.first_check ≡ some (io r) → StopsWith r a action none
  while_injecting :
      a.first_check ≡ none
      → a.canary_created ≡ none
      → a.canary_injected ≡ err (io r)
      → StopsWith r a synthetic_canary_encrypt none
  while_waiting :
      {action : Action}
      → a.first_check ≡ none
      → HasBegun action a
      → a.waited ≡ some (io r)
      → StopsWith r a action (own_cleanup action a)

perform-stopped :
    (r : Text) (action : Action) (a : Answers)
    → HasBegun action a
    → a.waited ≡ some (io r)
    → ((perform action a).cleanup_error ≡ own_cleanup action a)
      × ((perform action a).result ≡ err (io r))
unfolding HasBegun perform own_cleanup latency_of canary_of injector_of after waited_of written_of
perform-stopped r latency_spike a started w = rw (started, w) (refl, refl)
perform-stopped r synthetic_canary_encrypt a (created, (report, e)) w =
    rw (created, e, w) (refl, refl)
perform-stopped r k8s_escape_probe a (created, (report, e)) w = rw (created, e, w) (refl, refl)
perform-stopped r c2_beacon a (created, (report, e)) w = rw (created, e, w) (refl, refl)
perform-stopped r credential_canary a (created, (report, e)) w = rw (created, e, w) (refl, refl)
perform-stopped r log_tamper_canary a (created, (report, e)) w = rw (created, e, w) (refl, refl)
perform-stopped r persistence_canary a (created, (report, e)) w = rw (created, e, w) (refl, refl)
perform-stopped r exfiltration_canary a (created, (report, e)) w = rw (created, e, w) (refl, refl)
perform-stopped r watchdog_probe a (created, (report, e)) w = rw (created, e, w) (refl, refl)

-- Of the two errors of a cleanup, that of the sandbox is kept.
unfoldable pub first_of : Option Text → Option Text → Option Text
first_of (some e) own = some e
first_of none own = own

body-stopped :
    (r : Text) (action : Action) (a : Answers) (own : Option Text) (check : Option InjectError)
    → a.first_check ≡ check
    → StopsWith r a action own
    → ((checked action a check).cleanup_error ≡ own)
      × ((checked action a check).result ≡ err (io r))
unfolding checked failed perform canary_of after written_of
body-stopped r action a own (some e) i (at_start s) = (refl, cc)
body-stopped r action a own none i (at_start s) = cc
body-stopped r action a own (some e) i (while_injecting s c w) = cc
body-stopped r action a own none i (while_injecting s c w) = rw (c, w) (refl, refl)
body-stopped r action a own (some e) i (while_waiting s b w) = cc
body-stopped r action a own none i (while_waiting s b w) = perform-stopped r action a b w

body_of-stopped :
    (r : Text) (action : Action) (a : Answers) (own : Option Text)
    → StopsWith r a action own
    → ((body_of action a).cleanup_error ≡ first_of a.sandbox_cleaned own)
      × ((body_of action a).result ≡ err (io r))
unfolding body_of with_cleanup first_of
body_of-stopped r action a own s =
    go a.sandbox_cleaned (body-stopped r action a own a.first_check refl s)
  where
    go :
        (cleaned : Option Text)
        → ((checked action a a.first_check).cleanup_error ≡ own)
          × ((checked action a a.first_check).result ≡ err (io r))
        → let b = with_cleanup cleaned (checked action a a.first_check) in
          (b.cleanup_error ≡ first_of cleaned own) × (b.result ≡ err (io r))
    go none h = h
    go (some e) h = (refl, h.1)

-- A text that a failure keeps as its state, which frees the slot.
unfoldable IsReason : Text → Type 0
IsReason r = ((failure_of (message_of (io r))).state ≡ r) × (is_terminal r ≡ true)

reason-IsReason :
    (cancelled is_closed : Bool) (elapsed timeout since_beat : ℕ) (r : Text)
    → reason cancelled is_closed elapsed timeout since_beat ≡ some r
    → IsReason r
unfolding reason IsReason failure_of contains message_of starts_with is_terminal text_eq
reason-IsReason cancelled is_closed elapsed timeout since_beat r h =
    elim (Bool-cases (cancelled || is_closed)) [
      | inl t ↦ is (text "CANCELLED") (rw t at h) (refl, refl)
      | inr t ↦ elim (Bool-cases (leb timeout elapsed)) [
        | inl u ↦ is (text "TIMED_OUT") (rw (t, u) at h) (refl, refl)
        | inr u ↦ elim (Bool-cases (leb lease since_beat)) [
          | inl v ↦ is (text "CONTROL_LOST") (rw (t, u, v) at h) (refl, refl)
          | inr v ↦ cc (rw (t, u, v) at h)
        ]
      ]
    ]
  where
    is : (x : Text) → some x ≡ some r → IsReason x → IsReason r
    is x e h = let same : x ≡ r = cc in subst IsReason same h

-- What the last event of a stopped run says: if every cleanup has worked, the reason, with the cleanup
-- confirmed; if one has not, that the cleanup has failed.
unfoldable pub Says : Text → RunnerEvent → Option Text → Type 0
Says r last none = (last.state ≡ r) × (last.cleanup_confirmed ≡ true)
Says r last (some e) =
    (last.state ≡ text "CLEANUP_FAILED") × (last.detail ≡ e) × (last.cleanup_confirmed ≡ false)

said :
    (r run_id : Text) (a : Answers) (simulated : Bool) (c : Option Text)
    → IsReason r
    → let last = record (event run_id a (terminal_of c (err (io r))) (is_clean c)) {
      simulated = simulated;
    } in
      (is_terminal last.state ≡ true) × Says r last c
unfolding event terminal_of is_clean Says IsReason is_terminal text_eq
said r run_id a simulated none (named, terminal) =
    (subst (λ x. is_terminal x ≡ true) (sym named) terminal, (named, refl))
said r run_id a simulated (some e) h = (refl, (refl, refl, refl))

-- If the check of a run stops it with a reason, at its start, while it injects, or while it waits with
-- all before that done, then the last event of the run has a state that frees the slot of the runner.
-- If the cleanup of the sandbox and the one that the action then has of its own both work, the state is
-- the reason and the cleanup is confirmed; if one fails, the state is CLEANUP_FAILED with the error, and
-- the cleanup is not confirmed.
pub stop_is_reported :
    (cancelled is_closed : Bool) (elapsed timeout since_beat : ℕ) (r run_id : Text)
    (action : Action) (a : Answers) (own : Option Text)
    → reason cancelled is_closed elapsed timeout since_beat ≡ some r
    → StopsWith r a action own
    → let last = last_event run_id a (body_of action a) in
      (is_terminal last.state ≡ true) × Says r last (first_of a.sandbox_cleaned own)
unfolding last_event
stop_is_reported cancelled is_closed elapsed timeout since_beat r run_id action a own h s =
    let (clean, stopped) = body_of-stopped r action a own s in
    let named = reason-IsReason cancelled is_closed elapsed timeout since_beat r h in
    rw (clean, stopped)
      (said r run_id a (body_of action a).simulated (first_of a.sandbox_cleaned own) named)
