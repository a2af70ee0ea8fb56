-- ===== src/Worker/Soundness.antt =====
-- crates/asmodeus-control-plane/src/campaign_execution.rs: what a stage makes of a sound run.
use asmodeus.Campaign.Archive.{has_completed}
use asmodeus.Campaign.Resume.{IsSound}
use asmodeus.Campaign.Snapshot.{progress_ok, is_empty}
use asmodeus.Campaign.{
  CampaignStep, CampaignStepResult, CampaignRun, running, completed, cancelled, failed, interrupted,
  queued, is_one_of,
}
use asmodeus.Worker.{change_last, status_after}
use asmodeus.Prelude.{
  ℕ, zero, suc, ◌<◌, ◌≡◌, refl, ap, ◌∙◌, arith, Bool, true, false, ◌&&◌, ◌||◌, not, any, all, some,
  List, [], ◌∷◌, ◌++◌, Text, text_eq, text_eq_iff, length, length-append, get_elem?, if◌then◌else◌,
}

pub change_last-append :
    (f : CampaignStepResult → CampaignStepResult) (rs : List CampaignStepResult)
    (r : CampaignStepResult)
    → change_last f (rs ++ r ∷ []) ≡ rs ++ f r ∷ []
unfolding change_last
change_last-append f [] r = refl
change_last-append f (s ∷ []) r = refl
change_last-append f (s ∷ t ∷ rs) r = ap (◌∷◌ s) (change_last-append f (t ∷ rs) r)

-- The result belongs to the step.
abbrev pub IsOf : CampaignStep → CampaignStepResult → Type 0
IsOf step r = (step.order ≡ r.step_order) × (step.scenario_id ≡ r.scenario_id)

-- One more result, of its step, after completed ones.
progress_ok-append :
    (steps : List CampaignStep) (rs : List CampaignStepResult) (step : CampaignStep)
    (r : CampaignStepResult)
    → progress_ok steps rs ≡ true
    → all has_completed rs ≡ true
    → get_elem? steps (length rs) ≡ some step
    → IsOf step r
    → progress_ok steps (rs ++ r ∷ []) ≡ true
unfolding progress_ok is_empty
progress_ok-append [] [] step r p c g i = cc
progress_ok-append [] (s ∷ rs) step r p c g i = cc
progress_ok-append (t ∷ steps) [] step r p c g i =
    let same : t ≡ step = cc in ground (arith, text_eq_iff t.scenario_id r.scenario_id)
progress_ok-append (t ∷ steps) (s ∷ []) step r p c g i =
    ground (arith, progress_ok-append steps [] step r refl refl g i)
progress_ok-append (t ∷ steps) (s ∷ u ∷ rs) step r p c g i =
    ground (arith, progress_ok-append steps (u ∷ rs) step r (ground arith) (ground arith) g i)

get_elem?-bound :
    {A : Type 0} (xs : List A) (n : ℕ) (x : A) → get_elem? xs n ≡ some x → n < length xs
get_elem?-bound [] n x e = cc
get_elem?-bound (y ∷ ys) zero x e = omega arith
get_elem?-bound (y ∷ ys) (suc n) x e = omega (arith, get_elem?-bound ys n x e)

pub all_completed-append :
    (rs : List CampaignStepResult) (r : CampaignStepResult)
    → all has_completed rs ≡ true
    → text_eq r.status completed ≡ true
    → all has_completed (rs ++ r ∷ []) ≡ true
all_completed-append [] r c e = ground arith
all_completed-append (s ∷ rs) r c e = ground (arith, all_completed-append rs r (ground arith) e)

pub all_completed-any :
    (rs : List CampaignStepResult)
    → all has_completed rs ≡ true
    → any (λ r. not (text_eq r.status completed)) rs ≡ false
all_completed-any [] c = refl
all_completed-any (r ∷ rs) c = ground (arith, all_completed-any rs)

abbrev pub known_statuses : List Text
known_statuses = queued ∷ running ∷ completed ∷ failed ∷ cancelled ∷ interrupted ∷ []

-- A run whose results have completed, with one more result of the next step.
pub with_result-IsSound :
    (run next : CampaignRun) (step : CampaignStep) (r : CampaignStepResult)
    → IsSound run
    → all has_completed run.step_results ≡ true
    → get_elem? run.steps (length run.step_results) ≡ some step
    → IsOf step r
    → next.id ≡ run.id
    → next.steps ≡ run.steps
    → next.step_results ≡ run.step_results ++ r ∷ []
    → is_one_of known_statuses next.status ≡ true
    → (text_eq next.status completed ≡ true
        → (text_eq r.status completed ≡ true) × (suc (length run.step_results) ≡ length run.steps))
    → IsSound next
with_result-IsSound run next step r s c g i id steps results k full = record {
  named = rw id s.named;
  planned = rw steps s.planned;
  bounded =
      rw (results, steps)
        (omega (
          arith,
          length-append run.step_results (r ∷ []),
          get_elem?-bound run.steps (length run.step_results) step g,
        ));
  known = k;
  rising = rw steps s.rising;
  in_step =
      rw (results, steps) (progress_ok-append run.steps run.step_results step r s.in_step c g i);
  complete = λ e.
      let (last, count) = full e in
      (
        rw (results, steps) (length-append run.step_results (r ∷ []) ∙ omega (arith, count)),
        rw results (
            all_completed-any (run.step_results ++ r ∷ [])
              (all_completed-append run.step_results r c last)),
      );
}

-- What `status_after` allows.
abbrev pub Follows : Text → Bool → Text → Type 0
Follows status last next =
    (is_one_of known_statuses next ≡ true)
    × (text_eq next completed ≡ true → (text_eq status completed ≡ true) × (last ≡ true))
    × (text_eq next running ≡ true → (text_eq status completed ≡ true) × (last ≡ false))
    × (text_eq next queued ≡ false)

chosen-Follows :
    (status : Text) (last a b c d : Bool)
    → (c ≡ false → text_eq status completed ≡ true)
    → Follows status last (
        if a
        then interrupted
        else (if b
            then cancelled
            else (if c
                then failed
                else (if d then cancelled else (if last then completed else running)))))
unfolding is_one_of text_eq
chosen-Follows status last true b c d h = (refl, λ e. cc, λ e. cc, refl)
chosen-Follows status last false true c d h = (refl, λ e. cc, λ e. cc, refl)
chosen-Follows status last false false true d h = (refl, λ e. cc, λ e. cc, refl)
chosen-Follows status last false false false true h = (refl, λ e. cc, λ e. cc, refl)
chosen-Follows status true false false false false h = (refl, λ e. (h refl, refl), λ e. cc, refl)
chosen-Follows status false false false false false h = (refl, λ e. cc, λ e. (h refl, refl), refl)

pub status_after-Follows :
    (outcome : Bool) (status : Text) (is_cancelled is_last : Bool)
    → Follows status is_last (status_after outcome status is_cancelled is_last)
unfolding status_after
status_after-Follows outcome status is_cancelled is_last =
    chosen-Follows status is_last (not outcome && is_one_of (queued ∷ running ∷ []) status)
      (text_eq status cancelled) (not (text_eq status completed) || not outcome) is_cancelled
      (λ h. ground arith)
