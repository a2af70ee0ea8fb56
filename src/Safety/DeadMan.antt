-- ===== src/Safety/DeadMan.antt =====
-- The dead-man switch over a history of heartbeats.
use asmodeus.Safety.{DeadManSwitch, new, record_beat, miss, is_expired}
use asmodeus.Prelude.{ℕ, suc, ◌≤◌, ◌≡◌, ◌↔◌, true, List, [], ◌∷◌, arith, min}

-- What the runner observes at each tick of its cadence.
pub data Tick : Type 0 where
  beat missing : Tick

pub after_tick : Tick → DeadManSwitch → DeadManSwitch
unfolding record_beat miss
after_tick beat d = record_beat d
after_tick missing d = miss d

-- The ticks, newest first.
pub after_ticks : List Tick → DeadManSwitch → DeadManSwitch
unfolding after_tick
after_ticks [] d = d
after_ticks (t ∷ ts) d = after_tick t (after_ticks ts d)

-- How many heartbeats are missing in a row, up to now.
abbrev pub silence : List Tick → ℕ
silence [] = 0
silence (beat ∷ ts) = 0
silence (missing ∷ ts) = suc (silence ts)

after_ticks-missed :
    (limit : ℕ) (ts : List Tick)
    → ((after_ticks ts (new limit)).missed ≡ min 255 (silence ts))
      × ((after_ticks ts (new limit)).limit ≡ limit)
unfolding after_ticks new
after_ticks-missed limit [] = omega arith
after_ticks-missed limit (beat ∷ ts) = (omega arith, (after_ticks-missed limit ts).1)
after_ticks-missed limit (missing ∷ ts) =
    (omega (arith, after_ticks-missed limit ts), (after_ticks-missed limit ts).1)

-- After any history of heartbeats the switch has expired exactly when at least `limit` of them are
-- missing in a row; a beat resets it, and the saturating counter never hides an expiry.
pub expired_iff_silence :
    (limit : ℕ) (ts : List Tick)
    → limit ≤ 255
    → (is_expired (after_ticks ts (new limit)) ≡ true) ↔ (limit ≤ silence ts)
unfolding is_expired
expired_iff_silence limit ts h = ground (arith, after_ticks-missed limit ts)
