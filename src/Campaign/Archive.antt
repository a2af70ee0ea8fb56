-- ===== src/Campaign/Archive.antt =====
-- crates/asmodeus-control-plane/src/campaign_run.rs: the results that a resumption keeps and archives.
use asmodeus.Campaign.{
  CampaignStep, CampaignStepResult, CampaignRun, CampaignRunStore, not_found, not_resumable, queued,
  completed, cancelled, interrupted, is_one_of, get, archive, resumed, begin_resume, resume_found,
  interrupt_last,
}
use asmodeus.Campaign.Snapshot.{is_empty, progress_ok}
use asmodeus.Prelude.{
  suc, ◌≤◌, ◌≡◌, refl, ap, arith, Bool, true, false, List, [], ◌∷◌, ◌++◌, length, all, Text,
  text_eq, none, some, ok, err,
}

abbrev pub has_completed : CampaignStepResult → Bool
has_completed r = text_eq r.status completed

pub archive-append : (rs : List CampaignStepResult) → (archive rs).0 ++ (archive rs).1 ≡ rs
unfolding archive
archive-append [] = refl
archive-append (r ∷ []) = ground arith
archive-append (r ∷ s ∷ rs) = ap (◌∷◌ r) (archive-append (s ∷ rs))

pub archive-length : (rs : List CampaignStepResult) → length (archive rs).1 ≤ 1
unfolding archive
archive-length [] = omega arith
archive-length (r ∷ []) = ground arith
archive-length (r ∷ s ∷ rs) = archive-length (s ∷ rs)

pub archive-length_le : (rs : List CampaignStepResult) → length (archive rs).0 ≤ length rs
unfolding archive
archive-length_le [] = omega arith
archive-length_le (r ∷ []) = ground arith
archive-length_le (r ∷ s ∷ rs) = omega (arith, archive-length_le (s ∷ rs))

pub archive-completed :
    (steps : List CampaignStep) (rs : List CampaignStepResult)
    → progress_ok steps rs ≡ true
    → all has_completed (archive rs).0 ≡ true
unfolding progress_ok is_empty archive
archive-completed [] [] h = refl
archive-completed (s ∷ steps) [] h = refl
archive-completed [] (r ∷ rs) h = cc
archive-completed (s ∷ steps) (r ∷ []) h = ground arith
archive-completed (s ∷ steps) (r ∷ r' ∷ rs) h = ground (arith, archive-completed steps (r' ∷ rs))

pub archive-progress_ok :
    (steps : List CampaignStep) (rs : List CampaignStepResult)
    → progress_ok steps rs ≡ true
    → progress_ok steps (archive rs).0 ≡ true
unfolding progress_ok is_empty archive
archive-progress_ok [] [] h = refl
archive-progress_ok (s ∷ steps) [] h = refl
archive-progress_ok [] (r ∷ rs) h = cc
archive-progress_ok (s ∷ steps) (r ∷ []) h = ground arith
archive-progress_ok (s ∷ steps) (r ∷ r' ∷ rs) h =
    ground (arith, archive-progress_ok steps (r' ∷ rs))

pub interrupt_last-progress_ok :
    (steps : List CampaignStep) (rs : List CampaignStepResult)
    → progress_ok steps rs ≡ true
    → progress_ok steps (interrupt_last rs) ≡ true
unfolding progress_ok is_empty interrupt_last
interrupt_last-progress_ok [] [] h = refl
interrupt_last-progress_ok (s ∷ steps) [] h = refl
interrupt_last-progress_ok [] (r ∷ rs) h = cc
interrupt_last-progress_ok (s ∷ steps) (r ∷ []) h = ground arith
interrupt_last-progress_ok (s ∷ steps) (r ∷ r' ∷ rs) h =
    ground (arith, interrupt_last-progress_ok steps (r' ∷ rs))

pub interrupt_last-length : (rs : List CampaignStepResult) → length (interrupt_last rs) ≡ length rs
unfolding interrupt_last
interrupt_last-length [] = refl
interrupt_last-length (r ∷ []) = refl
interrupt_last-length (r ∷ s ∷ rs) = ap suc (interrupt_last-length (s ∷ rs))

-- A run that the source accepts is resumed at its first stage that has not completed: the completed
-- results stay, at most one attempt is archived and none is lost, and the run is queued; the store
-- refuses an unknown run and one of any other status, and then stays as it is.
pub begin_resume_lem :
    (now id : Text) (store : CampaignRunStore)
    → (get id store ≡ none → begin_resume now id store ≡ (store, err not_found))
      × ((run : CampaignRun)
          → get id store ≡ some run
          → is_one_of (interrupted ∷ cancelled ∷ []) run.status ≡ false
          → begin_resume now id store ≡ (store, err (not_resumable run.status)))
      × ((run : CampaignRun)
          → get id store ≡ some run
          → is_one_of (interrupted ∷ cancelled ∷ []) run.status ≡ true
          → progress_ok run.steps run.step_results ≡ true
          → (next : CampaignRun) × (attempt : List CampaignStepResult) × ((begin_resume now id
                store).1
              ≡ ok next)
            × (next.step_results ++ attempt ≡ run.step_results)
            × (all has_completed next.step_results ≡ true)
            × (length attempt ≤ 1)
            × (next.superseded_results ≡ run.superseded_results ++ attempt)
            × (next.status ≡ queued))
unfolding begin_resume resume_found resumed
begin_resume_lem now id store = (
  λ e. rw e refl,
  λ run e s. rw (e, s) refl,
  λ run e s p. (
    resumed now run,
    (archive run.step_results).1,
    rw (e, s) refl,
    archive-append run.step_results,
    archive-completed run.steps run.step_results p,
    archive-length run.step_results,
    refl,
    refl,
  ),
)
