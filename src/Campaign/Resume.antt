-- ===== src/Campaign/Resume.antt =====
-- crates/asmodeus-control-plane/src/campaign_run.rs: a restart and a resumption keep the store valid.
use asmodeus.Campaign.Archive.{
  archive-length_le, archive-progress_ok, interrupt_last-progress_ok, interrupt_last-length,
}
use asmodeus.Campaign.{
  CampaignRun, CampaignRunStore, queued, running, completed, failed, cancelled, interrupted,
  is_one_of, is_terminal, get, resumed, put, begin_resume, resume_found, interrupt, interrupt_all,
  recover_interrupted,
}
use asmodeus.Campaign.Snapshot.{plan_ok, progress_ok, validate_run, validate_runs, validate}
use asmodeus.Prelude.{
  ◌≤◌, ◌≡◌, refl, sym, subst, arith, true, false, not, List, [], ◌∷◌, length, any, nat_eq, Text,
  text_eq, text_eq_iff, Option, none, some, Bool-cases, inl, inr, ok, reject_if-eq-ok, >>=-eq-ok,
  find,
}

-- What `validate` asks of one run, apart from its id being new.
pub record IsSound (run : CampaignRun) : Type 0 where
  pub named : nat_eq (length run.id) 0 ≡ false
  pub planned : nat_eq (length run.steps) 0 ≡ false
  pub bounded : length run.step_results ≤ length run.steps
  pub known :
      is_one_of (queued ∷ running ∷ completed ∷ failed ∷ cancelled ∷ interrupted ∷ []) run.status
      ≡ true
  pub rising : plan_ok 0 run.steps ≡ true
  pub in_step : progress_ok run.steps run.step_results ≡ true
  pub complete :
      text_eq run.status completed ≡ true
      → (length run.step_results ≡ length run.steps)
        × (any (λ r. not (text_eq r.status completed)) run.step_results ≡ false)

validate_run-IsSound :
    (ids : List Text) (run : CampaignRun)
    → validate_run ids run ≡ ok tt
    → IsSound run × (any (text_eq run.id) ids ≡ false)
unfolding validate_run
validate_run-IsSound ids run h = ground arith

IsSound-validate_run :
    (ids : List Text) (run : CampaignRun)
    → IsSound run
    → any (text_eq run.id) ids ≡ false
    → validate_run ids run ≡ ok tt
unfolding validate_run
IsSound-validate_run ids run s h = ground arith

resumed-IsSound : (now : Text) (run : CampaignRun) → IsSound run → IsSound (resumed now run)
unfolding resumed is_one_of text_eq
resumed-IsSound now run s = record {
  named = s.named;
  planned = s.planned;
  bounded = omega (arith, s.bounded, archive-length_le run.step_results);
  known = refl;
  rising = s.rising;
  in_step = archive-progress_ok run.steps run.step_results s.in_step;
  complete = λ h. absurd (ground arith);
}

interrupt-IsSound : (now : Text) (run : CampaignRun) → IsSound run → IsSound (interrupt now run)
unfolding interrupt is_one_of text_eq
interrupt-IsSound now run s = record {
  named = s.named;
  planned = s.planned;
  bounded = omega (arith, s.bounded, interrupt_last-length run.step_results);
  known = refl;
  rising = s.rising;
  in_step = interrupt_last-progress_ok run.steps run.step_results s.in_step;
  complete = λ h. absurd (ground arith);
}

-- The runs are sound and their ids differ from each other and from `ids`.
unfoldable pub AreSound : List Text → List CampaignRun → Type 0
AreSound ids [] = Unit
AreSound ids (run ∷ runs) =
    IsSound run × (any (text_eq run.id) ids ≡ false) × AreSound (run.id ∷ ids) runs

validate_runs-AreSound :
    (ids : List Text) (runs : List CampaignRun) → validate_runs ids runs ≡ ok tt → AreSound ids runs
unfolding validate_runs AreSound
validate_runs-AreSound ids [] h = tt
validate_runs-AreSound ids (run ∷ runs) h =
    let (u, first, rest) = >>=-eq-ok (validate_run ids run) _ h in
    let (sound, fresh) = validate_run-IsSound ids run first in
    (sound, fresh, validate_runs-AreSound (run.id ∷ ids) runs rest)

AreSound-validate_runs :
    (ids : List Text) (runs : List CampaignRun) → AreSound ids runs → validate_runs ids runs ≡ ok tt
unfolding validate_runs AreSound
AreSound-validate_runs ids [] h = refl
AreSound-validate_runs ids (run ∷ runs) h =
    rw (IsSound-validate_run ids run h.0 h.1) (AreSound-validate_runs (run.id ∷ ids) runs h.2)

interrupt_all-AreSound :
    (now : Text) (ids : List Text) (runs : List CampaignRun)
    → AreSound ids runs
    → AreSound ids (interrupt_all now runs)
unfolding interrupt_all AreSound interrupt
interrupt_all-AreSound now ids [] h = tt
interrupt_all-AreSound now ids (run ∷ runs) h =
    let rest = interrupt_all-AreSound now (run.id ∷ ids) runs h.2 in
    elim (Bool-cases (is_terminal run)) [
      | inl e ↦ rw e (h.0, h.1, rest)
      | inr e ↦ rw e (interrupt-IsSound now run h.0, h.1, rest)
    ]

pub put-AreSound :
    (ids : List Text) (runs : List CampaignRun) (run next : CampaignRun)
    → next.id ≡ run.id
    → (IsSound run → IsSound next)
    → find (λ r. text_eq r.id run.id) runs ≡ some run
    → AreSound ids runs
    → AreSound ids (put next runs)
unfolding put AreSound
put-AreSound ids [] run next same keeps e h = cc
put-AreSound ids (r ∷ rs) run next same keeps e h = elim (Bool-cases (text_eq r.id run.id)) [
  | inl t ↦
      let is : r ≡ run = ground arith in
      let h' : AreSound ids (run ∷ rs) = rw is at h in
      let t' : text_eq r.id next.id ≡ true = rw same t in
      rw t' (keeps h'.0, rw same h'.1, rw same h'.2)
  | inr t ↦
      let t' : text_eq r.id next.id ≡ false = rw same t in
      rw t' (h.0, h.1, put-AreSound (r.id ∷ ids) rs run next same keeps (rw t at e) h.2)
]

pub validate-AreSound :
    (store : CampaignRunStore)
    → validate store ≡ ok tt
    → (nat_eq store.version 1 ≡ true) × AreSound [] store.runs
unfolding validate
validate-AreSound store h =
    let (v, rest) = reject_if-eq-ok (not (nat_eq store.version 1)) _ _ h in
    (ground arith, validate_runs-AreSound [] store.runs rest)

pub AreSound-validate :
    (store : CampaignRunStore)
    → nat_eq store.version 1 ≡ true
    → AreSound [] store.runs
    → validate store ≡ ok tt
unfolding validate
AreSound-validate store v h = rw v (AreSound-validate_runs [] store.runs h)

pub find-id :
    (id : Text) (runs : List CampaignRun) (run : CampaignRun)
    → find (λ r. text_eq r.id id) runs ≡ some run
    → run.id ≡ id
find-id id [] run e = cc
find-id id (r ∷ rs) run e = ground (arith, find-id id rs run, text_eq_iff r.id id)

begin_resume-validate :
    (now id : Text) (store : CampaignRunStore)
    → validate store ≡ ok tt
    → validate (begin_resume now id store).0 ≡ ok tt
unfolding begin_resume resume_found get resumed
begin_resume-validate now id store h = go (get id store) refl
  where
    go :
        (found : Option CampaignRun)
        → get id store ≡ found
        → validate (resume_found now found store).0 ≡ ok tt
    go none e = h
    go (some run) e =
        let (v, sound) = validate-AreSound store h in
        let is = find-id id store.runs run e in
        let next : CampaignRunStore = record store { runs = put (resumed now run) store.runs } in
        let valid : validate next ≡ ok tt = AreSound-validate next v (
          put-AreSound [] store.runs run (resumed now run) refl (resumed-IsSound now run)
            (subst (λ i. find (λ r. text_eq r.id i) store.runs ≡ some run) (sym is) e) sound) in
        elim (Bool-cases (is_one_of (interrupted ∷ cancelled ∷ []) run.status)) [
          | inl s ↦ rw s valid
          | inr s ↦ rw s h
        ]

-- A snapshot that `validate` accepts is still accepted after a restart has interrupted its runs and
-- after any request to resume one of them, accepted or not.
pub restart_keeps_valid :
    (now id : Text) (store : CampaignRunStore)
    → validate store ≡ ok tt
    → (validate (recover_interrupted now store).0 ≡ ok tt)
      × (validate (begin_resume now id store).0 ≡ ok tt)
unfolding recover_interrupted
restart_keeps_valid now id store h =
    let (v, sound) = validate-AreSound store h in
    (
      AreSound-validate (recover_interrupted now store).0 v
          (interrupt_all-AreSound now [] store.runs sound),
      begin_resume-validate now id store h,
    )
