-- ===== src/Runner.antt =====
-- crates/asmodeus-runner/src/service.rs: the service of a runner. The check of a signature and the test
-- for UTF-8 are parameters, as is the deserialisation of the manifest; the identity of an `Arc` is a
-- number that is given out once, and the times are arguments in milliseconds.
pub mod Request
pub mod Gate
pub mod Slot
pub mod Work
pub mod Reported
pub mod Stops
use asmodeus.Prelude.{
  ℕ, suc, ◌-◌, Bool, true, false, ◌&&◌, not, Option, none, some, List, [], ◌∷◌, Text, text, text_eq,
  nat_eq, any, Result, ok, err, if◌then◌else◌,
}

pub record Active : Type 0 where
  pub serial : ℕ
  pub id : Text
  pub state : Text
  pub cancelled : Bool
  pub heartbeat : ℕ

pub record RunnerService : Type 0 where
  pub active : Option Active
  pub healthy : Bool
  pub next_serial : ℕ

pub data ServiceError : Type 0 where
  busy not_found : ServiceError

abbrev pub terminal_states : List Text
terminal_states =
    text "COMPLETED"
    ∷ text "CANCELLED"
    ∷ text "TIMED_OUT"
    ∷ text "CONTROL_LOST"
    ∷ text "FAILED"
    ∷ text "CLEANUP_FAILED"
    ∷ text "REJECTED"
    ∷ []

unfoldable pub is_terminal : Text → Bool
is_terminal state = any (text_eq state) terminal_states

unfoldable pub is_busy : Option Active → Bool
is_busy none = false
is_busy (some current) = not (is_terminal current.state)

unfoldable pub admitted : Text → ℕ → RunnerService → RunnerService
admitted id now s = record s {
  active = some (record {
    serial = s.next_serial;
    id = id;
    state = text "Queued";
    cancelled = false;
    heartbeat = now;
  });
  next_serial = suc s.next_serial;
}

-- `execute`, of a request that has been validated: the slot is taken unless a run holds it.
unfoldable pub execute : Text → ℕ → RunnerService → RunnerService × Result ServiceError ℕ
execute id now s = if is_busy s.active then (s, err busy) else (admitted id now s, ok s.next_serial)

-- What the worker of a run writes to its own state, which is seen only while it holds the slot.
unfoldable pub with_state : ℕ → Text → Option Active → Option Active
with_state serial state none = none
with_state serial state (some a) =
    some (if nat_eq a.serial serial then record a { state = state } else a)

unfoldable pub set_state : ℕ → Text → RunnerService → RunnerService
set_state serial state s = record s { active = with_state serial state s.active }

unfoldable pub released : ℕ → Option Active → Option Active
released serial none = none
released serial (some a) = if nat_eq a.serial serial then none else some a

-- The end of the task of a run, with what the worker returned.
unfoldable pub finish : ℕ → Bool → RunnerService → RunnerService
finish serial cleaned s = record s { active = released serial s.active; healthy = cleaned }

-- Without the two constants, the load and the version.
pub record HeartbeatReply : Type 0 where
  pub state : Text
  pub healthy : Bool
  pub active_exercise_id : Text

unfoldable pub touched : Text → ℕ → Active → Active
touched id now a = if text_eq id a.id then record a { heartbeat = now } else a

unfoldable pub beat_of : Text → ℕ → RunnerService → Option Active → RunnerService × HeartbeatReply
beat_of id now s none =
    (s, record { state = text "Idle"; healthy = s.healthy; active_exercise_id = [] })
beat_of id now s (some a) = (
  record s { active = some (touched id now a) },
  record { state = a.state; healthy = s.healthy; active_exercise_id = a.id },
)

-- `heartbeat`.
unfoldable pub heartbeat : Text → ℕ → RunnerService → RunnerService × HeartbeatReply
heartbeat id now s = beat_of id now s s.active

unfoldable pub cancel_of :
    Text → RunnerService → Option Active → RunnerService × Result ServiceError (Unit {0})
cancel_of id s none = (s, err not_found)
cancel_of id s (some a) =
    if text_eq a.id id
    then (record s { active = some (record a { cancelled = true }) }, ok tt)
    else (s, err not_found)

-- `cancel`.
unfoldable pub cancel : Text → RunnerService → RunnerService × Result ServiceError (Unit {0})
cancel id s = cancel_of id s s.active
