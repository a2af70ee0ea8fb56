-- ===== src/RunControl/Admission.antt =====
-- crates/asmodeus-control-plane/src/run_control.rs, with its callers in campaign_execution.rs:
-- `request_cancel` and the admission of a stage in `execute`, in any order.
use asmodeus.RunControl.{CampaignControl, default_control, is_cancelled, cancel, set_current}
use asmodeus.Prelude.{
  ◌≡◌, ◌⊎◌, inl, refl, arith, true, Option, none, some, List, [], ◌∷◌, ◌++◌, Text, if◌then◌else◌,
}

-- A request to cancel the campaign, the admission of the run of a stage, and the end of that stage.
pub data Event : Type 0 where
  requesting finishing : Event
  admitting : Text → Event

-- The control, and the runs for which a cancellation was sent, the last one first.
pub record World : Type 0 where
  pub control : CampaignControl
  pub sent : List Text

-- `if let Some(run_id) = control.cancel() { cancel_scenario(state, &run_id) }`.
unfoldable pub send : Option Text → List Text → List Text
send none sent = sent
send (some run) sent = run ∷ sent

unfoldable pub react : Event → World → World
unfolding send
react requesting w = record {
  control = (cancel w.control).0;
  sent = send (cancel w.control).1 w.sent;
}
react (admitting run) w = record {
  control = (set_current (some run) w.control).0;
  sent = if (set_current (some run) w.control).1 then run ∷ w.sent else w.sent;
}
react finishing w = record w { control = (set_current none w.control).0 }

-- The events, newest first.
unfoldable pub after : List Event → World
after [] = record { control = default_control; sent = [] }
after (e ∷ es) = react e (after es)

-- A cancellation was sent for the run.
unfoldable pub WasSent : Text → List Text → Type 0
WasSent run [] = ⊥
WasSent run (r ∷ rs) = (r ≡ run) ⊎ WasSent run rs

react-cancelled :
    (e : Event) (w : World) (run : Text)
    → (w.control.cancelled ≡ true → w.control.current ≡ some run → WasSent run w.sent)
    → (react e w).control.cancelled ≡ true
    → (react e w).control.current ≡ some run
    → WasSent run (react e w).sent
unfolding react cancel set_current send WasSent
react-cancelled requesting w run h c r = rw r (inl refl)
react-cancelled (admitting next) w run h c r = rw c (inl (ground arith))
react-cancelled finishing w run h c r = cc

after-WasSent :
    (es : List Event) (run : Text)
    → (after es).control.cancelled ≡ true
    → (after es).control.current ≡ some run
    → WasSent run (after es).sent
unfolding after
after-WasSent [] run c r = cc
after-WasSent (e ∷ es) run c r =
    react-cancelled e (after es) run (λ c r. after-WasSent es run c r) c r

stays_cancelled :
    (later earlier : List Event) → (after (later ++ requesting ∷ earlier)).control.cancelled ≡ true
unfolding after react cancel set_current
stays_cancelled [] earlier = refl
stays_cancelled (requesting ∷ later) earlier = refl
stays_cancelled (admitting run ∷ later) earlier = stays_cancelled later earlier
stays_cancelled (finishing ∷ later) earlier = stays_cancelled later earlier

-- In every order of requests, admissions and ends of stages, from the first request on the campaign
-- is cancelled and its current run, if any, has been sent a cancellation, whether the request or the
-- admission of that run came first.
pub cancellation_not_missed :
    (later earlier : List Event)
    → let w = after (later ++ requesting ∷ earlier) in
      (is_cancelled w.control ≡ true)
      × ((run : Text) → w.control.current ≡ some run → WasSent run w.sent)
unfolding is_cancelled
cancellation_not_missed later earlier = (
  stays_cancelled later earlier,
  λ run r. after-WasSent (later ++ requesting ∷ earlier) run (stays_cancelled later earlier) r,
)
