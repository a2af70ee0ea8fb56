-- ===== src/Worker/Ends.antt =====
-- crates/asmodeus-control-plane/src/campaign_execution.rs: the loop of the worker ends, and leaves a
-- snapshot that a restart accepts.
use asmodeus.Worker.Soundness.{all_completed-any}
use asmodeus.Worker.Stages.{IsReady, IsFinal, IsFine, round-IsFine, ending-IsFine}
use asmodeus.Campaign.Archive.{has_completed}
use asmodeus.Campaign.Resume.{validate-AreSound, AreSound-validate}
use asmodeus.Campaign.Snapshot.{validate}
use asmodeus.Campaign.{
  CampaignRun, CampaignRunStore, completed, is_one_of, is_terminal, next_step, get,
}
use asmodeus.Worker.Results.{restated-IsSound}
use asmodeus.Worker.Store.{Holds-IsSound, IsValid, Holds-IsValid}
use asmodeus.Worker.{
  Stage, WorkerError, Round, going, ended, ending, set_status, round, proceed, execute, update,
}
use asmodeus.Prelude.{
  ℕ, zero, suc, ◌+◌, ◌<◌, ◌≡◌, refl, ap, arith, true, false, ltb, all, some, text_eq, length,
  Result, ok, err, Bool-cases, inl, inr,
}

unfoldable pub store_of : Round → CampaignRunStore
store_of (going store run) = store
store_of (ended store r) = store

-- The worker has ended; a run that it returns is final.
unfoldable pub IsOver : Round → Type 0
IsOver (going store run) = ⊥
IsOver (ended store (ok run)) = IsFinal run
IsOver (ended store (err e)) = Unit

-- A valid snapshot, and the end of the worker if `enough`.
IsSettled : Type 0 → Round → Type 0
IsSettled Enough r = IsValid (store_of r) × (Enough → IsOver r)

proceed-IsSettled :
    (Enough : Type 0) (run : CampaignRun) (r : Round)
    (next : CampaignRunStore → CampaignRun → Round)
    → IsFine run r
    → ((store : CampaignRunStore) (after : CampaignRun)
        → IsFine run (going store after)
        → IsSettled Enough (next store after))
    → IsSettled Enough (proceed next r)
unfolding proceed IsSettled IsOver store_of IsFine
proceed-IsSettled Enough run (going store after) next fine k = k store after fine
proceed-IsSettled Enough run (ended store (ok after)) next fine k = (fine.0, λ e. fine.1)
proceed-IsSettled Enough run (ended store (err e)) next fine k = (fine, λ e. tt)

ending-IsSettled :
    (Enough : Type 0) (run : CampaignRun) (r : CampaignRunStore × Result WorkerError CampaignRun)
    → IsFine run (ending r)
    → IsSettled Enough (ending r)
unfolding IsSettled IsOver store_of IsFine ending
ending-IsSettled Enough run (store, ok after) fine = (fine.0, λ e. fine.1)
ending-IsSettled Enough run (store, err e) fine = (fine, λ e. tt)

completed-IsFine :
    (s : Stage) (store : CampaignRunStore) (run : CampaignRun)
    → IsReady store run
    → ltb (next_step run) (length run.steps) ≡ false
    → IsFine run (ending (update s.first_now s.first_write run.id (set_status completed) store))
unfolding next_step set_status is_terminal is_one_of text_eq
completed-IsFine s store run ready all_done =
    let sound = Holds-IsSound store run ready.held in
    ending-IsFine run s.first_now s.first_write (set_status completed) store run ready.held refl
      (restated-IsSound completed s.first_now run refl
        (λ e. (ground (arith, sound.bounded), all_completed-any run.step_results ready.done)) sound)
      refl

execute-IsSettled :
    (stages : ℕ → Stage) (fuel : ℕ) (store : CampaignRunStore) (run : CampaignRun)
    → IsReady store run
    → IsSettled (length run.steps < fuel + length run.step_results) (execute stages fuel store run)
unfolding execute IsSettled store_of IsOver IsFine
execute-IsSettled stages zero store run ready = (
  Holds-IsValid store run ready.held,
  λ h. absurd (omega (arith, (Holds-IsSound store run ready.held).bounded)),
)
execute-IsSettled stages (suc fuel) store run ready =
    elim (Bool-cases (ltb (next_step run) (length run.steps))) [
      | inl t ↦ rw t (
          proceed-IsSettled _ run (round (stages (next_step run)) store run) (execute stages fuel)
            (round-IsFine (stages (next_step run)) store run ready)
            (λ st after fine.
              let (valid, over) = execute-IsSettled stages fuel st after fine.0 in
              (valid, λ h. over (omega (arith, ap length fine.2, fine.1)))))
      | inr t ↦ rw t (
          ending-IsSettled _ run
            (update (stages (next_step run)).first_now (stages (next_step run)).first_write run.id
              (set_status completed) store)
            (completed-IsFine (stages (next_step run)) store run ready t))
    ]

valid-IsReady :
    (store : CampaignRunStore) (run : CampaignRun)
    → validate store ≡ ok tt
    → get run.id store ≡ some run
    → all has_completed run.step_results ≡ true
    → IsReady store run
valid-IsReady store run h g d =
    let (v, sound) = validate-AreSound store h in
    record { held = record { versioned = v; sound = sound; found = g }; done = d }

-- A worker that starts from a valid snapshot, with a run whose results have all completed, leaves a
-- valid snapshot after any number of rounds, whatever the stages come to, whenever it is cancelled
-- and whichever of its writes fail.
pub worker_keeps_valid :
    (stages : ℕ → Stage) (fuel : ℕ) (store : CampaignRunStore) (run : CampaignRun)
    → validate store ≡ ok tt
    → get run.id store ≡ some run
    → all has_completed run.step_results ≡ true
    → validate (store_of (execute stages fuel store run)) ≡ ok tt
unfolding IsSettled
worker_keeps_valid stages fuel store run h g d =
    let settled = execute-IsSettled stages fuel store run (valid-IsReady store run h g d) in
    AreSound-validate (store_of (execute stages fuel store run)) settled.0.versioned settled.0.sound

-- The worker ends within one round more than the stages that are left: with an error, or with a run
-- that is no longer queued or running, and that is completed only if each of its stages has
-- completed.
pub worker_ends :
    (stages : ℕ → Stage) (fuel : ℕ) (store : CampaignRunStore) (run : CampaignRun)
    → validate store ≡ ok tt
    → get run.id store ≡ some run
    → all has_completed run.step_results ≡ true
    → length run.steps < fuel + length run.step_results
    → IsOver (execute stages fuel store run)
unfolding IsSettled
worker_ends stages fuel store run h g d enough =
    (execute-IsSettled stages fuel store run (valid-IsReady store run h g d)).1 enough
