-- ===== src/Runner/Reported.antt =====
-- crates/asmodeus-runner/src/service.rs, crates/asmodeus-control-plane/src/dispatch.rs: what the control
-- plane takes from the events of a worker.
use asmodeus.Dispatch.{
  Flow, RunnerEvent, DispatchOutcome, CancelReply, accepted, not_found, refused, timed_out, beaten,
  Wake, message, tick, Loop, going, finished, started, concluded, is_terminal, beat, cancelled,
  follow, noted, on_event, turn, dispatch, kind_completed,
}
use asmodeus.Dsl.Plan.{Action}
use asmodeus.Runner.Work.{
  contains, Report, InjectError, message_of, Answers, body_of, failure_of, terminal_of, event, Act,
  shows, sends, changed, emit, is_clean, last_event, rejection, work_in, run_worker,
}
use asmodeus.Prelude.{
  ℕ, ◌-◌, ◌≡◌, refl, sym, ap, ◌∙◌, arith, Bool, true, false, ◌&&◌, not, Bool-cases, inl, inr,
  Option, none, some, List, [], ◌∷◌, Text, text_eq_iff, text, nat_eq, leb, Result, ok, err,
  if◌then◌else◌,
}

-- The events among what a worker does.
unfoldable pub sent : List Act → List RunnerEvent
sent [] = []
sent (shows state ∷ acts) = sent acts
sent (sends ev ∷ acts) = ev ∷ sent acts

-- A request of the dispatch that the runner answers.
unfoldable pub is_answered : CancelReply → Bool
is_answered accepted = true
is_answered not_found = true
is_answered refused = false
is_answered timed_out = false

-- The wakes of a dispatch to which every event is delivered, in order, with any ticks between them,
-- whose requests the runner answers.
pub data Delivered : List RunnerEvent → List Wake → Type 0 where
  all_seen : {ws : List Wake} → Delivered [] ws
  seen :
      {ev : RunnerEvent} {evs : List RunnerEvent} {ws : List Wake}
      → Delivered evs ws
      → Delivered (ev ∷ evs) (message (ok (some ev)) ∷ ws)
  quiet :
      {evs : List RunnerEvent} {ws : List Wake} (cancelling : Bool) (reply : CancelReply)
      (now later : ℕ)
      → is_answered reply ≡ true
      → Delivered evs ws
      → Delivered evs (tick cancelling reply now beaten later ∷ ws)

-- The events of one run: none is terminal but the last.
pub data Story (run_id : Text) (last : RunnerEvent) : List RunnerEvent → Type 0 where
  ends : last.run_id ≡ run_id → is_terminal last.kind ≡ true → Story run_id last (last ∷ [])
  goes :
      {ev : RunnerEvent} {evs : List RunnerEvent}
      → ev.run_id ≡ run_id
      → is_terminal ev.kind ≡ false
      → Story run_id last evs
      → Story run_id last (ev ∷ evs)

-- The loop goes on, with the outcome as it is.
unfoldable GoesOn : Loop → Flow → Type 0
GoesOn l f = (m : Loop) × (f ≡ going m) × (m.outcome ≡ l.outcome)

going-if :
    (t : Bool) (k l : Loop) → k.outcome ≡ l.outcome → GoesOn l (if t then going k else going l)
unfolding GoesOn
going-if true k l e = (k, refl, e)
going-if false k l e = (l, refl, refl)

beat-going : (now later : ℕ) (l : Loop) → GoesOn l (beat now beaten later l)
unfolding beat
beat-going now later l = going-if (leb 1000 (now - l.last_beat)) _ l refl

cancelled-going :
    (reply : CancelReply) (now later : ℕ) (l : Loop)
    → is_answered reply ≡ true
    → GoesOn l (cancelled reply (beat now beaten later) l)
unfolding GoesOn cancelled is_answered
cancelled-going accepted now later l h = beat-going now later _
cancelled-going not_found now later l h = beat-going now later _
cancelled-going refused now later l h = cc
cancelled-going timed_out now later l h = cc

module _ (to_uppercase : Text → Text) (run_id : Text) where
  tick-going :
      (cancelling : Bool) (reply : CancelReply) (now later : ℕ) (l : Loop)
      → is_answered reply ≡ true
      → GoesOn l (turn to_uppercase run_id (tick cancelling reply now beaten later) l)
  unfolding turn
  tick-going cancelling reply now later l h = elim (Bool-cases (cancelling && not l.cancel_sent)) [
    | inl t ↦ rw t (cancelled-going reply now later l h)
    | inr t ↦ rw t (beat-going now later l)
  ]

  -- The dispatch ends with what the last event says.
  unfoldable pub Concludes : RunnerEvent → List Wake → Loop → Type 0
  Concludes last ws l =
      (m : Loop) × (o : DispatchOutcome) × (dispatch to_uppercase run_id ws l
        ≡ finished m (ok (concluded last o)))
      × (o.final_state ≡ to_uppercase last.state)
      × (o.rejected ≡ none)

  pub dispatch-Concludes :
      (last : RunnerEvent) (evs : List RunnerEvent) (ws : List Wake) (l : Loop)
      → l.outcome.rejected ≡ none
      → Delivered evs ws
      → Story run_id last evs
      → Concludes last ws l
  unfolding Concludes GoesOn dispatch turn on_event noted follow
  dispatch-Concludes last _ _ l r all_seen s = elim s [ ]
  dispatch-Concludes last evs ws l r (seen d) (ends mine t) =
      rw ((text_eq_iff last.run_id run_id).1 mine, t) (_, _, refl, refl, r)
  dispatch-Concludes last evs ws l r (seen d) (goes {ev} mine t s) =
      rw ((text_eq_iff ev.run_id run_id).1 mine, t) (dispatch-Concludes last _ _ _ r d s)
  dispatch-Concludes last evs _ l q (quiet c r now later a d) s =
      let (m, e, same) = tick-going c r now later l a in
      rw e (dispatch-Concludes last _ _ m (ap (λ o. o.rejected) same ∙ q) d s)

-- What the control plane knows of a run.
unfoldable pub is_ok : Result InjectError Report → Bool
is_ok (ok report) = true
is_ok (err e) = false

-- The event that a worker ends with, and whether it has done all that was asked.
unfoldable pub end_of : Text → Action → Answers → Option Text → RunnerEvent × Bool
end_of run_id action a (some e) = (rejection run_id a e, false)
end_of run_id action a none =
    let b = body_of action a in (last_event run_id a b, is_clean b.cleanup_error && is_ok b.result)

failure-terminal :
    (detail : Text)
    → (is_terminal (failure_of detail).kind ≡ true) × (nat_eq (failure_of detail).kind 2 ≡ false)
unfolding failure_of is_terminal
failure-terminal detail =
    let a = contains detail (text "CANCELLED") in
    let b = contains detail (text "TIMED_OUT") in
    let c = contains detail (text "CONTROL_LOST") in
    elim (Bool-cases a) [
      | inl t ↦ rw t (refl, refl)
      | inr t ↦ elim (Bool-cases b) [
        | inl u ↦ rw (t, u) (refl, refl)
        | inr u ↦ elim (Bool-cases c) [
          | inl v ↦ rw (t, u, v) (refl, refl)
          | inr v ↦ rw (t, u, v) (refl, refl)
        ]
      ]
    ]

terminal-kind :
    (cleanup_error : Option Text) (r : Result InjectError Report)
    → let t = terminal_of cleanup_error r in
      (is_terminal t.kind ≡ true)
      × (nat_eq t.kind kind_completed ≡ (is_clean cleanup_error && is_ok r))
unfolding terminal_of is_terminal is_clean is_ok
terminal-kind (some e) r = (refl, refl)
terminal-kind none (ok report) = (refl, refl)
terminal-kind none (err e) = failure-terminal (message_of e)

pub worker-Story :
    (run_id : Text) (action : Action) (a : Answers)
    → Story run_id
        (end_of run_id action a a.sandbox_created).0
        (sent (run_worker run_id action a).0)
unfolding run_worker emit sent work_in end_of is_terminal last_event event changed rejection
worker-Story run_id action a = goes refl refl (inside a.sandbox_created)
  where
    inside :
        (o : Option Text)
        → Story run_id (end_of run_id action a o).0 (sent (work_in run_id action a o).0)
    inside (some e) = ends refl refl
    inside none =
        let b = body_of action a in
        goes refl refl
          (goes refl refl (goes refl refl (ends refl (terminal-kind b.cleanup_error b.result).0)))

pub end-confirmed :
    (run_id : Text) (action : Action) (a : Answers) (o : Option Text)
    → let (last, done) = end_of run_id action a o in
      let cleaned = (work_in run_id action a o).1 in
      (last.cleanup_confirmed ≡ cleaned)
      × (nat_eq last.kind kind_completed ≡ done)
      × (done ≡ true → cleaned ≡ true)
unfolding end_of work_in is_clean last_event body_of event rejection
end-confirmed run_id action a (some e) = (refl, refl, λ h. cc)
end-confirmed run_id action a none =
    let b = body_of action a in
    (refl, (terminal-kind b.cleanup_error b.result).1, λ h. ground arith)

-- If every event of a worker is delivered, in order and with any ticks between them, then the dispatch
-- of its run ends with an outcome: it is terminal, its last state is that of the worker's last event in
-- upper case, it confirms the cleanup exactly if the worker reports itself healthy, it is completed
-- exactly if the sandbox was made, the action succeeded and every cleanup worked, and it is completed
-- only with a confirmed cleanup.
pub worker_is_reported :
    (to_uppercase : Text → Text) (run_id : Text) (action : Action) (a : Answers) (ws : List Wake)
    (now : ℕ)
    → Delivered (sent (run_worker run_id action a).0) ws
    → let (last, done) = end_of run_id action a a.sandbox_created in
      (l : Loop) × (o : DispatchOutcome) × (dispatch to_uppercase run_id ws (started now)
        ≡ finished l (ok o))
      × (o.terminal ≡ true)
      × (o.final_state ≡ to_uppercase last.state)
      × (o.cleanup_confirmed ≡ (run_worker run_id action a).1)
      × (o.completed ≡ done)
      × (o.completed ≡ true → o.cleanup_confirmed ≡ true)
unfolding Concludes concluded run_worker started
worker_is_reported to_uppercase run_id action a ws now d =
    let (last, done) = end_of run_id action a a.sandbox_created in
    let (m, o, e, named, rejected) =
      dispatch-Concludes to_uppercase run_id last _ ws (started now) refl d
        (worker-Story run_id action a) in
    let (confirmed, completed, cleaned) = end-confirmed run_id action a a.sandbox_created in
    (
      m,
      concluded last o,
      e,
      refl,
      named,
      confirmed,
      completed,
      λ h. confirmed ∙ cleaned (sym completed ∙ h),
    )
