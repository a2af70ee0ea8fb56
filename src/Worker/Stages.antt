-- ===== src/Worker/Stages.antt =====
-- crates/asmodeus-control-plane/src/campaign_execution.rs: the worker ends, and each of its writes is a
-- snapshot that a restart accepts.
use asmodeus.Campaign.Archive.{has_completed}
use asmodeus.Campaign.Resume.{IsSound}
use asmodeus.Campaign.{
  CampaignStep, CampaignStepResult, CampaignRun, CampaignRunStore, running, completed, cancelled,
  failed, queued, is_one_of, is_prunable, is_terminal, next_step,
}
use asmodeus.Worker.Soundness.{
  IsOf, change_last-append, all_completed-append, Follows, status_after-Follows,
}
use asmodeus.Worker.Results.{
  restated-IsSound, result_of-IsOf, IsStarted, started-IsSound, withdrawn-IsSound, recorded-IsSound,
}
use asmodeus.Worker.Store.{
  Holds, Holds-IsSound, IsValid, Holds-IsValid, written_store, update-cases,
}
use asmodeus.Worker.{
  change_last, Stage, pending, result_of, status_after, outcome_of, Round, going, ended, ending,
  set_status, started, withdrawn, recorded, after_result, after_start, run_stage, round, update,
}
use asmodeus.Prelude.{
  suc, ◌≡◌, refl, ap, ◌∙◌, subst, arith, Bool, true, false, not, nat_eq, any, all, Option, none,
  some, [], ◌∷◌, Text, text_eq, text_eq_iff, length, length-append, get_elem?, ok, err, Bool-cases,
  inl, inr, if◌then◌else◌,
}

-- A worker may go on: its run is in the store, and each of its results has completed.
pub record IsReady (store : CampaignRunStore) (run : CampaignRun) : Type 0 where
  pub held : Holds store run
  pub done : all has_completed run.step_results ≡ true

-- What the worker may return.
unfoldable pub IsFinal : CampaignRun → Type 0
IsFinal run =
    (is_terminal run ≡ true)
    × (text_eq run.status completed ≡ true
        → (length run.step_results ≡ length run.steps)
          × (any (λ r. not (text_eq r.status completed)) run.step_results ≡ false))

-- What a round may come to, from a run.
unfoldable pub IsFine : CampaignRun → Round → Type 0
IsFine from (going store run) =
    IsReady store run
    × (length run.step_results ≡ suc (length from.step_results))
    × (run.steps ≡ from.steps)
IsFine from (ended store (ok run)) = IsValid store × IsFinal run
IsFine from (ended store (err e)) = IsValid store

sound-IsFinal : (run : CampaignRun) → IsSound run → is_terminal run ≡ true → IsFinal run
unfolding IsFinal
sound-IsFinal run s t = (t, s.complete)

-- A last write: it fails, or the run that it saves is final.
pub ending-IsFine :
    (from : CampaignRun) (now : Text) (written : Bool) (change : CampaignRun → CampaignRun)
    (store : CampaignRunStore) (run : CampaignRun)
    → Holds store run
    → let next : CampaignRun = record (change run) { updated_utc = now } in
      next.id ≡ run.id
      → IsSound next
      → is_terminal next ≡ true
      → IsFine from (ending (update now written run.id change store))
unfolding ending IsFine
ending-IsFine from now written change store run h same s t =
    elim (update-cases now written change store run h same s) [
      | inl e ↦ rw e (Holds-IsValid store run h)
      | inr (e, valid, holds) ↦ rw e (valid, sound-IsFinal _ s t)
    ]

running-is_prunable :
    (run : CampaignRun) → text_eq run.status running ≡ true → is_prunable run ≡ false
unfolding is_prunable is_one_of text_eq
running-is_prunable run t = let is = (text_eq_iff run.status running).0 t in rw is running_stays
  where
    running_stays : is_one_of (completed ∷ failed ∷ []) running ≡ false
    running_stays = refl

other-is_terminal :
    (run : CampaignRun)
    → text_eq run.status queued ≡ false
    → text_eq run.status running ≡ false
    → is_terminal run ≡ true
unfolding is_terminal is_one_of
other-is_terminal run q r = rw (q, r) refl

-- The second write of a stage.
after_result-IsFine :
    (now : Text) (written : Bool) (store : CampaignRunStore) (run next : CampaignRun)
    (step : CampaignStep) (id : Text) (result : CampaignStepResult) (status : Text)
    → IsSound run
    → all has_completed run.step_results ≡ true
    → get_elem? run.steps (length run.step_results) ≡ some step
    → IsStarted run next step (pending step id)
    → IsOf step result
    → Follows result.status (nat_eq (suc (length run.step_results)) (length run.steps)) status
    → Holds store next
    → IsFine run (after_result (update now written next.id (recorded result status) store))
unfolding after_result IsFine recorded
after_result-IsFine now written store run next step id result status sound done here i of follows
      held =
    let saved = record (recorded result status next) { updated_utc = now } in
    let good =
      recorded-IsSound run step sound done here next id now (pending step id) result status i of
        follows in
    let grown =
      ap (change_last (λ s. result)) i.one_more
      ∙ change_last-append (λ s. result) run.step_results (pending step id) in
    elim (update-cases now written (recorded result status) store next held refl good) [
      | inl e ↦ rw e (Holds-IsValid store next held)
      | inr (e, valid, holds) ↦ elim (Bool-cases (text_eq status running)) [
        | inl t ↦
            rw (e, t)
              (
                record {
                  held = holds (running-is_prunable saved t);
                  done =
                      rw grown (all_completed-append run.step_results result done (follows.2 t).0);
                },
                ap length grown ∙ length-append run.step_results (result ∷ []) ∙ omega arith,
                i.same_steps,
              )
        | inr t ↦ rw (e, t) (valid, sound-IsFinal saved good (other-is_terminal saved follows.3 t))
      ]
    ]

IsFine-if :
    (run : CampaignRun) (t : Bool) (a b : Round)
    → (t ≡ true → IsFine run a)
    → (t ≡ false → IsFine run b)
    → IsFine run (if t then a else b)
IsFine-if run true a b ha hb = ha refl
IsFine-if run false a b ha hb = hb refl

same_count :
    (run next : CampaignRun) (step : CampaignStep) (r : CampaignStepResult)
    → IsStarted run next step r
    → nat_eq (length next.step_results) (length next.steps)
      ≡ nat_eq (suc (length run.step_results)) (length run.steps)
same_count run next step r i =
    let a : length next.step_results ≡ suc (length run.step_results) =
      ap length i.one_more ∙ length-append run.step_results (r ∷ []) ∙ omega arith in
    let b = ap length i.same_steps in ground arith

-- The end of a stage that has been started.
after_start-IsFine :
    (s : Stage) (store : CampaignRunStore) (run next : CampaignRun) (step : CampaignStep)
    → IsSound run
    → all has_completed run.step_results ≡ true
    → get_elem? run.steps (length run.step_results) ≡ some step
    → IsStarted run next step (pending step s.scenario_run)
    → Holds store next
    → IsFine run (after_start s step (store, ok next))
unfolding after_start next_step withdrawn is_terminal is_one_of text_eq
after_start-IsFine s store run next step sound done here i held =
    let result = result_of step s.scenario_run s.audit in
    let follows = status_after-Follows (outcome_of s) result.status s.cancelled_after in
    IsFine-if run s.cancelled_pending _ _
      (λ c.
        ending-IsFine run s.second_now s.second_write withdrawn store next held refl
          (withdrawn-IsSound run step sound done here next s.scenario_run s.second_now i) refl)
      (λ c.
        after_result-IsFine s.second_now s.second_write store run next step s.scenario_run result _
          sound done here i (result_of-IsOf step s.scenario_run s.audit)
          (subst
            (λ last. Follows result.status last (
              status_after (outcome_of s) result.status s.cancelled_after
                (nat_eq (length next.step_results) (length next.steps))))
            (same_count run next step (pending step s.scenario_run) i)
            (follows (nat_eq (length next.step_results) (length next.steps))))
          held)

start-IsFine :
    (s : Stage) (step : CampaignStep) (store : CampaignRunStore) (run : CampaignRun)
    → IsReady store run
    → get_elem? run.steps (length run.step_results) ≡ some step
    → IsSound run
    → IsFine run (
        after_start s step
          (update s.first_now s.first_write run.id (started step s.scenario_run) store))
unfolding IsFine after_start started is_prunable is_one_of text_eq
start-IsFine s step store run ready e sound =
    let next : CampaignRun = record (started step s.scenario_run run) {
      updated_utc = s.first_now;
    } in
    elim (update-cases s.first_now s.first_write (started step s.scenario_run) store run ready.held
      refl (started-IsSound run step sound ready.done e s.scenario_run s.first_now)) [
        | inl failed_write ↦ rw failed_write (Holds-IsValid store run ready.held)
        | inr (saved, valid, holds) ↦ rw saved (
            after_start-IsFine s (written_store next store) run next step sound ready.done e
              (record { same_id = refl; same_steps = refl; one_more = refl }) (holds refl))
      ]

run_stage-IsFine :
    (s : Stage) (step : Option CampaignStep) (store : CampaignRunStore) (run : CampaignRun)
    → IsReady store run
    → get_elem? run.steps (length run.step_results) ≡ step
    → IsFine run (run_stage s step store run)
unfolding run_stage IsFine
run_stage-IsFine s none store run ready e = Holds-IsValid store run ready.held
run_stage-IsFine s (some step) store run ready e =
    start-IsFine s step store run ready e (Holds-IsSound store run ready.held)

pub round-IsFine :
    (s : Stage) (store : CampaignRunStore) (run : CampaignRun)
    → IsReady store run
    → IsFine run (round s store run)
unfolding round next_step set_status is_terminal is_one_of text_eq
round-IsFine s store run ready =
    IsFine-if run s.cancelled_before _ _
      (λ c.
        ending-IsFine run s.first_now s.first_write (set_status cancelled) store run ready.held refl
          (restated-IsSound cancelled s.first_now run refl (λ e. cc)
            (Holds-IsSound store run ready.held))
          refl)
      (λ c. run_stage-IsFine s (get_elem? run.steps (length run.step_results)) store run ready refl)
