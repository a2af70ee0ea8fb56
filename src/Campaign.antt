-- ===== src/Campaign.antt =====
-- crates/asmodeus-control-plane/src/campaign.rs and campaign_run.rs: the catalog of campaigns and the
-- durable store of their runs. The time is an argument.
pub mod Snapshot
pub mod Prune
pub mod Archive
pub mod Resume
use asmodeus.Telemetry.Audit.{RunEvidence}
use asmodeus.Prelude.{
  ℕ, suc, ◌-◌, ◌%◌, ◌^◌, Bool, true, false, ◌&&◌, ◌||◌, not, Option, none, some, List, [], ◌∷◌,
  ◌++◌, if◌then◌else◌, Text, text, text_eq, nat_eq, ltb, leb, length, any, all, filter, find, take,
  reverse, eq_ignore_ascii_case, Result, ok, err, ◌>>=◌, ◌>>◌, reject_if, is_some,
}

pub record CampaignStep : Type 0 where
  pub order : ℕ
  pub scenario_id : Text

pub record Campaign : Type 0 where
  pub id : Text
  pub name : Text
  pub description : Text
  pub steps : List CampaignStep

pub record CampaignStepResult : Type 0 where
  pub step_order : ℕ
  pub scenario_id : Text
  pub run_id : Text
  pub status : Text
  pub mttd_ms : ℕ  -- u64
  pub mttr_ms : ℕ  -- u64
  pub detected : Bool
  pub evidence : Option RunEvidence

-- `CampaignCatalog::get`, of the list that is its one field.
unfoldable pub get_campaign : Text → List Campaign → Option Campaign
get_campaign id campaigns = find (λ c. eq_ignore_ascii_case c.id id) campaigns

-- `CampaignCatalog::register`: the first campaign of the id is replaced.
unfoldable pub register : Campaign → List Campaign → List Campaign
register campaign [] = campaign ∷ []
register campaign (c ∷ cs) =
    if eq_ignore_ascii_case c.id campaign.id then campaign ∷ cs else c ∷ register campaign cs

-- `CampaignCatalog::deregister`.
unfoldable pub deregister : Text → List Campaign → List Campaign × Bool
deregister id campaigns =
    let kept = filter (λ c. not (eq_ignore_ascii_case c.id id)) campaigns in
    (kept, ltb (length kept) (length campaigns))

abbrev pub max_terminal_runs : ℕ
max_terminal_runs = 200

abbrev pub queued : Text
queued = text "QUEUED"

abbrev pub running : Text
running = text "RUNNING"

abbrev pub completed : Text
completed = text "COMPLETED"

abbrev pub failed : Text
failed = text "FAILED"

abbrev pub cancelled : Text
cancelled = text "CANCELLED"

abbrev pub interrupted : Text
interrupted = text "INTERRUPTED"

pub record CampaignRun : Type 0 where
  pub id : Text
  pub campaign_id : Text
  pub campaign_name : Text
  pub initiator : Text
  pub target_override : Option Text
  pub timeout_sec : Option ℕ
  pub steps : List CampaignStep
  pub status : Text
  pub step_results : List CampaignStepResult
  pub superseded_results : List CampaignStepResult
  pub resume_count : ℕ  -- u32
  pub created_utc : Text
  pub updated_utc : Text

-- `matches!(status, a | b | …)`.
unfoldable pub is_one_of : List Text → Text → Bool
is_one_of names status = any (text_eq status) names

-- `CampaignRun::is_terminal`.
unfoldable pub is_terminal : CampaignRun → Bool
is_terminal run = not (is_one_of (queued ∷ running ∷ []) run.status)

-- `CampaignRun::next_step`.
unfoldable pub next_step : CampaignRun → ℕ
next_step run = length run.step_results

pub data ResumeError : Type 0 where
  not_found : ResumeError
  not_resumable : Text → ResumeError

-- `CampaignRunStore`.
pub record CampaignRunStore : Type 0 where
  pub version : ℕ  -- u32
  pub runs : List CampaignRun

-- `CampaignRunStore::get`.
unfoldable pub get : Text → CampaignRunStore → Option CampaignRun
get id store = find (λ r. text_eq r.id id) store.runs

unfoldable pub admits : Option Text → Text → Bool
admits none value = true
admits (some wanted) value = eq_ignore_ascii_case value wanted

-- `CampaignRunStore::list`.
unfoldable pub list : Option ℕ → Option Text → Option Text → CampaignRunStore → List CampaignRun
list limit campaign_id status store =
    let chosen =
      filter (λ r. admits status r.status)
        (filter (λ r. admits campaign_id r.campaign_id) (reverse store.runs)) in
    elim limit [ none ↦ chosen | some n ↦ take n chosen ]

-- The runs that `prune` may take.
unfoldable pub is_prunable : CampaignRun → Bool
is_prunable run = is_one_of (completed ∷ failed ∷ []) run.status

-- The `retain` of `prune`: the first `excess` prunable runs go.
unfoldable pub retain : ℕ → List CampaignRun → List CampaignRun
retain excess [] = []
retain excess (run ∷ runs) =
    let kept = run ∷ retain excess runs in
    let dropped = retain (excess - 1) runs in
    if ltb 0 excess && is_prunable run then dropped else kept

-- `CampaignRunStore::prune`.
unfoldable pub prune : CampaignRunStore → CampaignRunStore
prune store = record store {
  runs = retain (length (filter is_prunable store.runs) - max_terminal_runs) store.runs;
}

-- `CampaignRunStore::insert`.
unfoldable pub insert : CampaignRun → CampaignRunStore → CampaignRunStore
insert run store = prune (record store { runs = store.runs ++ run ∷ [] })

-- The last result, if it was running, is interrupted.
unfoldable pub interrupt_last : List CampaignStepResult → List CampaignStepResult
interrupt_last [] = []
interrupt_last (r ∷ []) =
    (if text_eq r.status running then record r { status = interrupted } else r) ∷ []
interrupt_last (r ∷ s ∷ rs) = r ∷ interrupt_last (s ∷ rs)

unfoldable pub interrupt : Text → CampaignRun → CampaignRun
interrupt now run = record run {
  step_results = interrupt_last run.step_results;
  status = interrupted;
  updated_utc = now;
}

unfoldable pub interrupt_all : Text → List CampaignRun → List CampaignRun
interrupt_all now [] = []
interrupt_all now (run ∷ runs) =
    (if is_terminal run then run else interrupt now run) ∷ interrupt_all now runs

-- `CampaignRunStore::recover_interrupted`, and how many runs it has touched.
unfoldable pub recover_interrupted : Text → CampaignRunStore → CampaignRunStore × ℕ
recover_interrupted now store = (
  record store { runs = interrupt_all now store.runs },
  length (filter (λ r. not (is_terminal r)) store.runs),
)

-- The results without the unfinished attempt, and the attempt.
unfoldable pub archive : List CampaignStepResult → List CampaignStepResult × List CampaignStepResult
archive [] = ([], [])
archive (r ∷ []) = if text_eq r.status completed then (r ∷ [], []) else ([], r ∷ [])
archive (r ∷ s ∷ rs) = (r ∷ (archive (s ∷ rs)).0, (archive (s ∷ rs)).1)

-- What `begin_resume` makes of a run that it accepts; `+= 1` of a `u32` wraps.
unfoldable pub resumed : Text → CampaignRun → CampaignRun
resumed now run = record run {
  step_results = (archive run.step_results).0;
  superseded_results = run.superseded_results ++ (archive run.step_results).1;
  status = queued;
  resume_count = suc run.resume_count % 2 ^ 32;
  updated_utc = now;
}

-- The first run of the id becomes `run`.
unfoldable pub put : CampaignRun → List CampaignRun → List CampaignRun
put run [] = []
put run (r ∷ rs) = if text_eq r.id run.id then run ∷ rs else r ∷ put run rs

unfoldable pub resume_found :
    Text → Option CampaignRun → CampaignRunStore → CampaignRunStore × Result ResumeError CampaignRun
resume_found now none store = (store, err not_found)
resume_found now (some run) store =
    if is_one_of (interrupted ∷ cancelled ∷ []) run.status
    then (record store { runs = put (resumed now run) store.runs }, ok (resumed now run))
    else (store, err (not_resumable run.status))

-- `CampaignRunStore::begin_resume`.
unfoldable pub begin_resume :
    Text → Text → CampaignRunStore → CampaignRunStore × Result ResumeError CampaignRun
unfolding resume_found
begin_resume now id store = resume_found now (get id store) store
