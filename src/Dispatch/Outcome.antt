-- ===== src/Dispatch/Outcome.antt =====
-- crates/asmodeus-control-plane/src/dispatch.rs: what the outcome of a run says of its events.
use asmodeus.Dispatch.{
  RunnerEvent, DispatchOutcome, default_outcome, is_terminal, Loop, CancelReply, accepted,
  not_found, refused, timed_out, BeatReply, beaten, beat_refused, beat_timed_out, Wake, message,
  tick, Flow, going, finished, started, concluded, beat, cancelled, noted, on_event, turn, dispatch,
  follow,
}
use asmodeus.Prelude.{
  ℕ, ◌-◌, ◌≡◌, refl, ap, subst, ◌⊎◌, inl, inr, Bool, true, false, Bool-cases, ◌&&◌, not, none, some,
  List, [], ◌∷◌, Text, text_eq, text_eq_iff, leb, ok, err, if◌then◌else◌,
}

-- The stream has the event.
unfoldable pub Arrived : RunnerEvent → List Wake → Type 0
Arrived ev [] = ⊥
Arrived ev (w ∷ ws) = (w ≡ message (ok (some ev))) ⊎ Arrived ev ws

module _ (to_uppercase : Text → Text) (run_id : Text) where
  -- The outcome that has only the name of a state.
  unfoldable pub Unfinished : DispatchOutcome → Type 0
  Unfinished o = (state : Text) × (o ≡ record default_outcome { final_state = state })

  unfoldable pub told : RunnerEvent → DispatchOutcome
  told ev = concluded ev (record default_outcome { final_state = to_uppercase ev.state })

  unfoldable pub Told : List Wake → DispatchOutcome → Type 0
  Told ws o =
      (ev : RunnerEvent) × Arrived ev ws
      × (ev.run_id ≡ run_id)
      × (is_terminal ev.kind ≡ true)
      × (o ≡ told ev)

  IsFaithful : List Wake → Flow → Type 0
  IsFaithful ws (going l) = Unfinished l.outcome
  IsFaithful ws (finished l (ok o)) = Unfinished o ⊎ Told ws o
  IsFaithful ws (finished l (err e)) = Unit {0}

  later-IsFaithful :
      (w : Wake) (ws : List Wake) (f : Flow) → IsFaithful ws f → IsFaithful (w ∷ ws) f
  unfolding IsFaithful Told Arrived
  later-IsFaithful w ws (going l) h = h
  later-IsFaithful w ws (finished l (err e)) h = tt
  later-IsFaithful w ws (finished l (ok o)) (inl u) = inl u
  later-IsFaithful w ws (finished l (ok o)) (inr (ev, a, i, t, e)) = inr (ev, inr a, i, t, e)

  either-IsFaithful :
      (ws : List Wake) (c : Bool) (f g : Flow)
      → IsFaithful ws f
      → IsFaithful ws g
      → IsFaithful ws (if c then f else g)
  either-IsFaithful ws true f g hf hg = hf
  either-IsFaithful ws false f g hf hg = hg

  beat-IsFaithful :
      (ws : List Wake) (now : ℕ) (reply : BeatReply) (later : ℕ) (l : Loop)
      → Unfinished l.outcome
      → IsFaithful ws (beat now reply later l)
  unfolding beat IsFaithful
  beat-IsFaithful ws now beaten later l h =
      either-IsFaithful ws (leb 1000 (now - l.last_beat)) _ _ h h
  beat-IsFaithful ws now (beat_refused s) later l h =
      either-IsFaithful ws (leb 1000 (now - l.last_beat)) _ _ tt h
  beat-IsFaithful ws now beat_timed_out later l h =
      either-IsFaithful ws (leb 1000 (now - l.last_beat)) _ _ tt h

  cancelled-IsFaithful :
      (ws : List Wake) (reply : CancelReply) (next : Loop → Flow) (l : Loop)
      → ((m : Loop) → Unfinished m.outcome → IsFaithful ws (next m))
      → Unfinished l.outcome
      → IsFaithful ws (cancelled reply next l)
  unfolding cancelled IsFaithful
  cancelled-IsFaithful ws accepted next l k h = k _ h
  cancelled-IsFaithful ws not_found next l k h = k _ h
  cancelled-IsFaithful ws refused next l k h = tt
  cancelled-IsFaithful ws timed_out next l k h = tt

  noted-Unfinished :
      (ev : RunnerEvent) (l : Loop)
      → Unfinished l.outcome
      → (noted to_uppercase run_id ev l).outcome
        ≡ record default_outcome { final_state = to_uppercase ev.state }
  unfolding Unfinished noted
  noted-Unfinished ev l (s, e) =
      ap (λ (o : DispatchOutcome). record o { final_state = to_uppercase ev.state }) e

  on_event-IsFaithful :
      (ev : RunnerEvent) (ws : List Wake) (l : Loop)
      → Unfinished l.outcome
      → IsFaithful (message (ok (some ev)) ∷ ws) (on_event to_uppercase run_id ev l)
  unfolding on_event IsFaithful Told told Arrived Unfinished
  on_event-IsFaithful ev ws l h = elim (Bool-cases (text_eq ev.run_id run_id)) [
    | inl mine ↦ elim (Bool-cases (is_terminal ev.kind)) [
      | inl t ↦
          rw (mine, t)
            (inr (
              ev,
              inl refl,
              (text_eq_iff ev.run_id run_id).0 mine,
              t,
              ap (concluded ev) (noted-Unfinished ev l h),
            ))
      | inr t ↦ rw (mine, t) (to_uppercase ev.state, noted-Unfinished ev l h)
    ]
    | inr other ↦ rw other tt
  ]

  turn-IsFaithful :
      (w : Wake) (ws : List Wake) (l : Loop)
      → Unfinished l.outcome
      → IsFaithful (w ∷ ws) (turn to_uppercase run_id w l)
  unfolding turn IsFaithful
  turn-IsFaithful (message (err s)) ws l h = tt
  turn-IsFaithful (message (ok none)) ws l h = inl h
  turn-IsFaithful (message (ok (some ev))) ws l h = on_event-IsFaithful ev ws l h
  turn-IsFaithful (tick cancelling reply now b later) ws l h =
      let all = tick cancelling reply now b later ∷ ws in
      either-IsFaithful all (cancelling && not l.cancel_sent) _ _
        (cancelled-IsFaithful all reply (beat now b later) l
          (λ m k. beat-IsFaithful all now b later m k) h)
        (beat-IsFaithful all now b later l h)

  follow-IsFaithful :
      (w : Wake) (ws : List Wake) (f : Flow) (next : Loop → Flow)
      → IsFaithful (w ∷ ws) f
      → ((l : Loop) → Unfinished l.outcome → IsFaithful ws (next l))
      → IsFaithful (w ∷ ws) (follow f next)
  unfolding follow IsFaithful
  follow-IsFaithful w ws (going l) next h k = later-IsFaithful w ws (next l) (k l h)
  follow-IsFaithful w ws (finished l r) next h k = h

  dispatch-IsFaithful :
      (ws : List Wake) (l : Loop)
      → Unfinished l.outcome
      → IsFaithful ws (dispatch to_uppercase run_id ws l)
  unfolding dispatch IsFaithful
  dispatch-IsFaithful [] l h = h
  dispatch-IsFaithful (w ∷ ws) l h =
      follow-IsFaithful w ws (turn to_uppercase run_id w l) _ (turn-IsFaithful w ws l h)
        (dispatch-IsFaithful ws)

  -- An outcome that the dispatch returns has either the name of a state and nothing else, or is what
  -- a terminal event of this run says, which the stream has.
  pub dispatch_lem :
      (ws : List Wake) (now : ℕ) (l : Loop) (o : DispatchOutcome)
      → dispatch to_uppercase run_id ws (started now) ≡ finished l (ok o)
      → Unfinished o ⊎ Told ws o
  unfolding started IsFaithful Unfinished
  dispatch_lem ws now l o h =
      subst (IsFaithful ws) h (dispatch-IsFaithful ws (started now) ([], refl))
