-- ===== src/Worker/Results.antt =====
-- crates/asmodeus-control-plane/src/campaign_execution.rs: each run that a stage saves is sound.
use asmodeus.Campaign.Archive.{has_completed}
use asmodeus.Campaign.Resume.{IsSound}
use asmodeus.Campaign.{CampaignStep, CampaignStepResult, CampaignRun, completed, is_one_of}
use asmodeus.Telemetry.Audit.{AuditRecord}
use asmodeus.Worker.Soundness.{
  IsOf, with_result-IsSound, change_last-append, Follows, known_statuses,
}
use asmodeus.Worker.{change_last, pending, result_of, started, withdrawn, recorded}
use asmodeus.Prelude.{
  suc, ◌≡◌, refl, ap, ◌∙◌, arith, true, false, not, nat_eq, any, all, Option, none, some, [], ◌∷◌,
  ◌++◌, Text, text_eq, length, get_elem?,
}

pub restated-IsSound :
    (status now : Text) (run : CampaignRun)
    → is_one_of known_statuses status ≡ true
    → (text_eq status completed ≡ true
        → (length run.step_results ≡ length run.steps)
          × (any (λ r. not (text_eq r.status completed)) run.step_results ≡ false))
    → IsSound run
    → IsSound (record run { status = status; updated_utc = now })
restated-IsSound status now run k c s = record {
  named = s.named;
  planned = s.planned;
  bounded = s.bounded;
  known = k;
  rising = s.rising;
  in_step = s.in_step;
  complete = c;
}

pub result_of-IsOf :
    (step : CampaignStep) (id : Text) (audit : Option AuditRecord)
    → IsOf step (result_of step id audit)
unfolding result_of pending
result_of-IsOf step id none = (refl, refl)
result_of-IsOf step id (some r) = (refl, refl)

-- The run of a stage that has been started, from a ready one.
pub record IsStarted (run next : CampaignRun) (step : CampaignStep) (r : CampaignStepResult)
    : Type 0 where
  pub same_id : next.id ≡ run.id
  pub same_steps : next.steps ≡ run.steps
  pub one_more : next.step_results ≡ run.step_results ++ r ∷ []

module _ (run : CampaignRun) (step : CampaignStep) (sound : IsSound run)
    (done : all has_completed run.step_results ≡ true)
    (here : get_elem? run.steps (length run.step_results) ≡ some step) where
  pub started-IsSound :
      (id now : Text) → IsSound (record (started step id run) { updated_utc = now })
  unfolding started is_one_of text_eq pending
  started-IsSound id now =
      with_result-IsSound run _ step (pending step id) sound done here (refl, refl) refl refl refl
        refl (λ e. cc)

  pub withdrawn-IsSound :
      (next : CampaignRun) (id now : Text)
      → IsStarted run next step (pending step id)
      → IsSound (record (withdrawn next) { updated_utc = now })
  unfolding withdrawn is_one_of text_eq pending
  withdrawn-IsSound next id now i =
      with_result-IsSound run _ step _ sound done here (refl, refl) i.same_id i.same_steps
        (ap (change_last _) i.one_more ∙ change_last-append _ run.step_results (pending step id))
        refl (λ e. cc)

  pub recorded-IsSound :
      (next : CampaignRun) (id now : Text) (r result : CampaignStepResult) (status : Text)
      → IsStarted run next step r
      → IsOf step result
      → Follows result.status (nat_eq (suc (length run.step_results)) (length run.steps)) status
      → IsSound (record (recorded result status next) { updated_utc = now })
  unfolding recorded
  recorded-IsSound next id now r result status i of follows =
      with_result-IsSound run _ step result sound done here of i.same_id i.same_steps
        (ap (change_last _) i.one_more ∙ change_last-append _ run.step_results r) follows.0
        (λ e. ((follows.1 e).0, ground arith))
