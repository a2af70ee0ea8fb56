-- ===== src/Dispatch.antt =====
-- crates/asmodeus-control-plane/src/dispatch.rs: the loop of `dispatch_controlled` over the stream of
-- one run. What `select!` wakes up for, the replies of the runner and the times, in milliseconds, are
-- arguments; the Unicode tables of `to_uppercase` are a parameter.
pub mod Outcome
use asmodeus.Prelude.{
  ℕ, ◌-◌, Bool, true, false, ◌&&◌, ◌||◌, not, Option, none, some, List, [], ◌∷◌, Text, text_eq,
  nat_eq, leb, Result, ok, err, if◌then◌else◌,
}

pub data Status : Type 0 where
  data_loss unavailable deadline_exceeded : Status
  of_runner : Text → Status

pub record RunnerEvent : Type 0 where
  pub kind : ℕ  -- i32
  pub state : Text
  pub files_created : ℕ
  pub bytes_written : ℕ
  pub inject_ms : ℕ
  pub detail : Text
  pub run_id : Text
  pub cleanup_confirmed : Bool
  pub simulated : Bool

pub record DispatchOutcome : Type 0 where
  pub final_state : Text
  pub files_created : ℕ
  pub bytes_written : ℕ
  pub inject_ms : ℕ
  pub completed : Bool
  pub terminal : Bool
  pub simulated : Bool
  pub cleanup_confirmed : Bool
  pub detail : Text
  pub rejected : Option Text

-- `DispatchOutcome::default`.
abbrev pub default_outcome : DispatchOutcome
default_outcome = record {
  final_state = [];
  files_created = 0;
  bytes_written = 0;
  inject_ms = 0;
  completed = false;
  terminal = false;
  simulated = false;
  cleanup_confirmed = false;
  detail = [];
  rejected = none;
}

-- `EventKind`, as the numbers of the wire.
abbrev pub kind_completed : ℕ
kind_completed = 2

abbrev pub kind_rejected : ℕ
kind_rejected = 3

unfoldable pub is_terminal : ℕ → Bool
is_terminal kind =
    nat_eq kind kind_completed
    || (nat_eq kind kind_rejected || (nat_eq kind 4 || (nat_eq kind 5 || nat_eq kind 6)))

-- The variables of the loop, and the requests made from it, the last one first.
pub data Request : Type 0 where
  cancel_request heartbeat_request : Request

pub record Loop : Type 0 where
  pub outcome : DispatchOutcome
  pub status : Text
  pub cancel_sent : Bool
  pub last_beat : ℕ
  pub requests : List Request

pub data CancelReply : Type 0 where
  accepted not_found : CancelReply
  refused timed_out : CancelReply

pub data BeatReply : Type 0 where
  beaten : BeatReply
  beat_refused : Status → BeatReply
  beat_timed_out : BeatReply

pub data Wake : Type 0 where
  message : Result Status (Option RunnerEvent) → Wake
  tick : Bool → CancelReply → ℕ → BeatReply → ℕ → Wake

pub data Flow : Type 0 where
  going : Loop → Flow
  finished : Loop → Result Status DispatchOutcome → Flow

unfoldable pub started : ℕ → Loop
started now = record {
  outcome = default_outcome;
  status = [];
  cancel_sent = false;
  last_beat = now - 2000;
  requests = [];
}

-- What a terminal event makes of the outcome.
unfoldable pub concluded : RunnerEvent → DispatchOutcome → DispatchOutcome
concluded ev o = record o {
  terminal = true;
  simulated = ev.simulated;
  completed = nat_eq ev.kind kind_completed;
  cleanup_confirmed = ev.cleanup_confirmed;
  files_created = ev.files_created;
  bytes_written = ev.bytes_written;
  inject_ms = ev.inject_ms;
  detail = ev.detail;
  rejected = if nat_eq ev.kind kind_rejected then some ev.detail else o.rejected;
}

unfoldable pub beat : ℕ → BeatReply → ℕ → Loop → Flow
beat now beaten later l =
    if leb 1000 (now - l.last_beat)
    then going (record l { last_beat = later; requests = heartbeat_request ∷ l.requests })
    else going l
beat now (beat_refused s) later l =
    if leb 1000 (now - l.last_beat)
    then finished (record l { requests = heartbeat_request ∷ l.requests }) (err s)
    else going l
beat now beat_timed_out later l =
    if leb 1000 (now - l.last_beat)
    then finished (record l { requests = heartbeat_request ∷ l.requests }) (err deadline_exceeded)
    else going l

unfoldable pub cancelled : CancelReply → (Loop → Flow) → Loop → Flow
cancelled accepted next l =
    next (record l { cancel_sent = true; requests = cancel_request ∷ l.requests })
cancelled not_found next l = next (record l { requests = cancel_request ∷ l.requests })
cancelled refused next l =
    finished (record l { requests = cancel_request ∷ l.requests }) (err unavailable)
cancelled timed_out next l =
    finished (record l { requests = cancel_request ∷ l.requests }) (err unavailable)

unfoldable pub follow : Flow → (Loop → Flow) → Flow
follow (going l) next = next l
follow (finished l r) next = finished l r

module _ (to_uppercase : Text → Text) (run_id : Text) where
  -- The variables after an event of this run has been seen.
  unfoldable pub noted : RunnerEvent → Loop → Loop
  noted ev l = record l {
    outcome = record (l.outcome) { final_state = to_uppercase ev.state };
    status = to_uppercase ev.state;
  }

  unfoldable pub on_event : RunnerEvent → Loop → Flow
  on_event ev l =
      if not (text_eq ev.run_id run_id)
      then finished l (err data_loss)
      else (if is_terminal ev.kind
          then finished (noted ev l) (ok (concluded ev (noted ev l).outcome))
          else going (noted ev l))

  -- One turn of the loop.
  unfoldable pub turn : Wake → Loop → Flow
  turn (message (err s)) l = finished l (err s)
  turn (message (ok none)) l = finished l (ok l.outcome)
  turn (message (ok (some ev))) l = on_event ev l
  turn (tick cancelling reply now beat_reply later) l =
      if cancelling && not l.cancel_sent
      then cancelled reply (beat now beat_reply later) l
      else beat now beat_reply later l

  -- The loop; `going` at the end of the wakes is a dispatch that still waits.
  unfoldable pub dispatch : List Wake → Loop → Flow
  dispatch [] l = going l
  dispatch (w ∷ ws) l = follow (turn w l) (λ m. dispatch ws m)
