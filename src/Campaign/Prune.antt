-- ===== src/Campaign/Prune.antt =====
-- crates/asmodeus-control-plane/src/campaign_run.rs: which runs are forgotten.
use asmodeus.Campaign.{CampaignRun, CampaignRunStore, is_prunable, retain, prune, max_terminal_runs}
use asmodeus.Prelude.{
  ℕ, zero, suc, ◌-◌, ◌≡◌, refl, ap, ◌∙◌, arith, not, List, [], ◌∷◌, length, filter, drop,
  length-drop, min,
}

retain-none : (rs : List CampaignRun) → retain 0 rs ≡ rs
unfolding retain
retain-none [] = refl
retain-none (r ∷ rs) = ground (arith, retain-none rs)

filter-retain :
    (n : ℕ) (rs : List CampaignRun)
    → filter is_prunable (retain n rs) ≡ drop n (filter is_prunable rs)
unfolding retain
filter-retain zero rs = rw (retain-none rs) refl
filter-retain (suc n) [] = refl
filter-retain (suc n) (r ∷ rs) = ground (arith, filter-retain n rs, filter-retain (suc n) rs)

filter-not-retain :
    (n : ℕ) (rs : List CampaignRun)
    → filter (λ r. not (is_prunable r)) (retain n rs) ≡ filter (λ r. not (is_prunable r)) rs
unfolding retain
filter-not-retain n [] = refl
filter-not-retain n (r ∷ rs) = ground (arith, filter-not-retain n rs, filter-not-retain (n - 1) rs)

-- Pruning keeps each run that has neither completed nor failed, in order, and of the others the
-- newest, at most 200, in order.
pub prune_lem :
    (store : CampaignRunStore)
    → let finished = filter is_prunable store.runs in
      (filter (λ r. not (is_prunable r)) (prune store).runs
        ≡ filter (λ r. not (is_prunable r)) store.runs)
      × (filter is_prunable (prune store).runs
          ≡ drop (length finished - max_terminal_runs) finished)
      × (length (filter is_prunable (prune store).runs) ≡ min max_terminal_runs (length finished))
unfolding prune
prune_lem store =
    let finished = filter is_prunable store.runs in
    let n = length finished - max_terminal_runs in
    let kept = filter-retain n store.runs in
    (filter-not-retain n store.runs, kept, ap length kept ∙ omega (arith, length-drop n finished))
