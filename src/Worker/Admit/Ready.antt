-- ===== src/Worker/Admit/Ready.antt =====
-- crates/asmodeus-control-plane/src/campaign_execution.rs: an accepted resumption is safe, and the run is
-- ready for a worker.
use asmodeus.Campaign.Archive.{has_completed, archive-completed}
use asmodeus.Campaign.Resume.{
  IsSound, put-AreSound, validate-AreSound, AreSound-validate, find-id, restart_keeps_valid,
}
use asmodeus.Campaign.Snapshot.{progress_ok, is_empty, validate}
use asmodeus.Campaign.{
  CampaignStep, CampaignStepResult, CampaignRun, CampaignRunStore, completed, cancelled,
  interrupted, is_one_of, get, put, archive, resumed, begin_resume, resume_found,
}
use asmodeus.Telemetry.Audit.{AuditRecord, is_terminal}
use asmodeus.Worker.Admit.{
  is_simulated, is_cleaned, settled, settle, Answer, on_audit, on_last, on_found, prepare_resume,
}
use asmodeus.Worker.Store.{find-put, find-IsSound}
use asmodeus.Worker.{change_last}
use asmodeus.Prelude.{
  suc, ◌≡◌, ◌⊎◌, refl, sym, ap, ◌∙◌, subst, arith, Bool, true, false, ◌&&◌, ◌||◌, not, all, find,
  Option, none, some, List, [], ◌∷◌, Text, text_eq, text_eq_iff, length, last?, ok, err, Bool-cases,
  inl, inr, if◌then◌else◌,
}

length-change_last :
    (f : CampaignStepResult → CampaignStepResult) (rs : List CampaignStepResult)
    → length (change_last f rs) ≡ length rs
unfolding change_last
length-change_last f [] = refl
length-change_last f (r ∷ []) = refl
length-change_last f (r ∷ s ∷ rs) = ap suc (length-change_last f (s ∷ rs))

settled-progress_ok :
    (a : AuditRecord) (steps : List CampaignStep) (rs : List CampaignStepResult)
    → progress_ok steps rs ≡ true
    → progress_ok steps (change_last (settled a) rs) ≡ true
unfolding progress_ok is_empty change_last settled
settled-progress_ok a [] [] h = refl
settled-progress_ok a (s ∷ steps) [] h = refl
settled-progress_ok a [] (r ∷ rs) h = cc
settled-progress_ok a (s ∷ steps) (r ∷ []) h = ground arith
settled-progress_ok a (s ∷ steps) (r ∷ t ∷ []) h =
    ground (arith, settled-progress_ok a steps (t ∷ []))
settled-progress_ok a (s ∷ steps) (r ∷ t ∷ u ∷ rs) h =
    ground (arith, settled-progress_ok a steps (t ∷ u ∷ rs))

-- A last result that has completed is kept.
archive-settled :
    (a : AuditRecord) (rs : List CampaignStepResult)
    → text_eq a.status completed ≡ true
    → length (archive (change_last (settled a) rs)).0 ≡ length rs
unfolding archive change_last settled
archive-settled a [] h = refl
archive-settled a (r ∷ []) h = rw h refl
archive-settled a (r ∷ s ∷ []) h = rw h refl
archive-settled a (r ∷ s ∷ t ∷ rs) h = ap suc (archive-settled a (s ∷ t ∷ rs) h)

resumable-not_completed :
    (status : Text)
    → is_one_of (interrupted ∷ cancelled ∷ []) status ≡ true
    → text_eq status completed ≡ false
unfolding is_one_of text_eq
resumable-not_completed status h = elim (Bool-cases (text_eq status completed)) [
  | inl e ↦ let is = (text_eq_iff status completed).0 e in cc (rw is at h)
  | inr e ↦ e
]

settle-IsSound :
    (a : AuditRecord) (run : CampaignRun)
    → is_one_of (interrupted ∷ cancelled ∷ []) run.status ≡ true
    → IsSound run
    → IsSound (settle a run)
unfolding settle
settle-IsSound a run r s = record {
  named = s.named;
  planned = s.planned;
  bounded = ground (arith, length-change_last (settled a) run.step_results, s.bounded);
  known = s.known;
  rising = s.rising;
  in_step = settled-progress_ok a run.steps run.step_results s.in_step;
  complete = λ e. absurd (ground (arith, resumable-not_completed run.status r));
}

-- What a worker asks of the store and of its run.
unfoldable pub IsLaunchable : CampaignRunStore → CampaignRun → Type 0
IsLaunchable store run =
    (validate store ≡ ok tt)
    × (get run.id store ≡ some run)
    × (all has_completed run.step_results ≡ true)

-- Of an accepted answer.
unfoldable pub WhenOk : (CampaignRunStore → CampaignRun → Type 0) → Answer → Type 0
WhenOk P (store, ok run) = P store run
WhenOk P (store, err e) = Unit

WhenOk-map :
    (P Q : CampaignRunStore → CampaignRun → Type 0) (a : Answer)
    → ((store : CampaignRunStore) (run : CampaignRun) → P store run → Q store run)
    → WhenOk P a
    → WhenOk Q a
unfolding WhenOk
WhenOk-map P Q (store, ok run) f h = f store run h
WhenOk-map P Q (store, err e) f h = tt

WhenOk-if :
    (P : CampaignRunStore → CampaignRun → Type 0) (t : Bool) (a b : Answer)
    → (t ≡ true → WhenOk P a)
    → (t ≡ false → WhenOk P b)
    → WhenOk P (if t then a else b)
WhenOk-if P true a b ha hb = ha refl
WhenOk-if P false a b ha hb = hb refl

find-resumed :
    (now id : Text) (store : CampaignRunStore) (run : CampaignRun)
    → get id store ≡ some run
    → get run.id (record store { runs = put (resumed now run) store.runs }) ≡ some (resumed now run)
unfolding get resumed
find-resumed now id store run e =
    let same = find-id id store.runs run e in
    find-put run.id (resumed now run) run store.runs refl
      (subst (λ i. find (λ r. text_eq r.id i) store.runs ≡ some run) (sym same) e)

-- The answer of `begin_resume` for a run that is in the store.
unfoldable pub Resumes : Text → CampaignRun → CampaignRunStore → CampaignRun → Type 0
Resumes now run store next = IsLaunchable store next × (next ≡ resumed now run)

-- A resumption of the store gives a run that a worker can take.
begin_resume-IsLaunchable :
    (now id : Text) (store : CampaignRunStore) (run : CampaignRun)
    → validate store ≡ ok tt
    → get id store ≡ some run
    → WhenOk
        (λ st next. IsLaunchable st next × (next ≡ resumed now run))
        (begin_resume now id store)
unfolding begin_resume resume_found WhenOk Resumes IsLaunchable resumed get
begin_resume-IsLaunchable now id store run h e =
    elim (Bool-cases (is_one_of (interrupted ∷ cancelled ∷ []) run.status)) [
      | inl s ↦
          let (versioned, sound) = validate-AreSound store h in
          let valid = rw (e, s) at (restart_keeps_valid now id store h).1 in
          rw (e, s)
            (
              (
                valid,
                find-resumed now id store run e,
                archive-completed run.steps run.step_results
                    (find-IsSound [] id store.runs run sound e).in_step,
              ),
              refl,
            )
      | inr s ↦ rw (e, s) tt
    ]

settle-validate :
    (a : AuditRecord) (id : Text) (store : CampaignRunStore) (run : CampaignRun)
    → validate store ≡ ok tt
    → get id store ≡ some run
    → is_one_of (interrupted ∷ cancelled ∷ []) run.status ≡ true
    → let next : CampaignRunStore = record store { runs = put (settle a run) store.runs } in
      (validate next ≡ ok tt) × (get id next ≡ some (settle a run))
unfolding get settle
settle-validate a id store run h e r =
    let (versioned, sound) = validate-AreSound store h in
    let same = find-id id store.runs run e in
    (
      AreSound-validate (record store { runs = put (settle a run) store.runs }) versioned
          (put-AreSound [] store.runs run (settle a run) refl (settle-IsSound a run r)
            (subst (λ i. find (λ r. text_eq r.id i) store.runs ≡ some run) (sym same) e) sound),
      find-put id (settle a run) run store.runs same e,
    )

-- Why the last stage of the run may be tried again, or is not: its audit record is terminal and its
-- cleanup confirmed, and a completed stage is kept; or it was cancelled before it was admitted.
unfoldable pub IsJustified :
    (Text → Option AuditRecord) → CampaignRun → CampaignStepResult → CampaignRun → Type 0
IsJustified audit run last next =
    ((a : AuditRecord) × (audit last.run_id ≡ some a)
      × (is_terminal a ≡ true)
      × ((is_simulated a || is_cleaned a) ≡ true)
      × (text_eq a.status completed ≡ true → length next.step_results ≡ length run.step_results))
    ⊎ ((audit last.run_id ≡ none)
        × (text_eq last.status cancelled ≡ true)
        × (is_empty last.run_id ≡ true))

-- What an accepted resumption promises.
IsGood :
    (Text → Option AuditRecord)
    → CampaignRun
    → CampaignStepResult
    → CampaignRunStore
    → CampaignRun
    → Type 0
IsGood audit run last store next = IsLaunchable store next × IsJustified audit run last next

confirmed : (t s c : Bool) → (not t || (not s && not c)) ≡ false → (t ≡ true) × ((s || c) ≡ true)
confirmed t s c h = ground arith

-- The same id is found after the last result has been settled.
on_audit-IsGood :
    (audit : Text → Option AuditRecord) (now id : Text) (store : CampaignRunStore)
    (run : CampaignRun) (last : CampaignStepResult) (a : Option AuditRecord)
    → validate store ≡ ok tt
    → get id store ≡ some run
    → is_one_of (interrupted ∷ cancelled ∷ []) run.status ≡ true
    → audit last.run_id ≡ a
    → WhenOk (IsGood audit run last) (on_audit now id store run last a)
unfolding on_audit IsGood IsJustified WhenOk Resumes resumed settle
on_audit-IsGood audit now id store run last none h e r is =
    WhenOk-if (IsGood audit run last) (text_eq last.status cancelled && is_empty last.run_id) _ _
      (λ t.
        WhenOk-map (Resumes now run) (IsGood audit run last) (begin_resume now id store)
          (λ st next k. (k.0, inr (is, ground arith, ground arith)))
          (begin_resume-IsLaunchable now id store run h e))
      (λ t. tt)
on_audit-IsGood audit now id store run last (some a) h e r is =
    WhenOk-if (IsGood audit run last)
      (not (is_terminal a) || (not (is_simulated a) && not (is_cleaned a))) _ _ (λ t. tt)
      (λ t.
        let (over, clean) = confirmed (is_terminal a) (is_simulated a) (is_cleaned a) t in
        WhenOk-if (IsGood audit run last) (text_eq a.status completed) _ _
          (λ won.
            let (valid, found) = settle-validate a id store run h e r in
            WhenOk-map (Resumes now (settle a run)) (IsGood audit run last) (begin_resume now id _)
              (λ st next k. (
                k.0,
                inl (
                  a,
                  is,
                  over,
                  clean,
                  λ _. ap (λ n. length n.step_results) k.1 ∙ archive-settled a run.step_results won,
                ),
              ))
              (begin_resume-IsLaunchable now id _ (settle a run) valid found))
          (λ lost.
            WhenOk-map (Resumes now run) (IsGood audit run last) (begin_resume now id store)
              (λ st next k. (k.0, inl (a, is, over, clean, λ w. absurd (ground arith))))
              (begin_resume-IsLaunchable now id store run h e)))

-- Why a resumption is accepted, by the last result of the run: there is none, or it has completed, and
-- then the run resumes as it is; or it has not completed, and its stage may be tried again.
unfoldable pub IsAccepted :
    (Text → Option AuditRecord)
    → Text
    → CampaignRun
    → Option CampaignStepResult
    → CampaignRun
    → Type 0
IsAccepted audit now run none next = next ≡ resumed now run
IsAccepted audit now run (some last) next =
    ((text_eq last.status completed ≡ true) × (next ≡ resumed now run))
    ⊎ ((text_eq last.status completed ≡ false) × IsJustified audit run last next)

-- What an accepted resumption of the run promises.
IsReady :
    (Text → Option AuditRecord)
    → Text
    → CampaignRun
    → Option CampaignStepResult
    → CampaignRunStore
    → CampaignRun
    → Type 0
IsReady audit now run q store next = IsLaunchable store next × IsAccepted audit now run q next

on_last-IsReady :
    (audit : Text → Option AuditRecord) (now id : Text) (store : CampaignRunStore)
    (run : CampaignRun) (q : Option CampaignStepResult)
    → validate store ≡ ok tt
    → get id store ≡ some run
    → is_one_of (interrupted ∷ cancelled ∷ []) run.status ≡ true
    → WhenOk (IsReady audit now run q) (on_last audit now id store run q)
unfolding on_last IsReady IsAccepted Resumes IsGood
on_last-IsReady audit now id store run none h e r = begin_resume-IsLaunchable now id store run h e
on_last-IsReady audit now id store run (some last) h e r =
    WhenOk-if (IsReady audit now run (some last)) (text_eq last.status completed) _ _
      (λ t.
        WhenOk-map (Resumes now run) (IsReady audit now run (some last)) (begin_resume now id store)
          (λ st next k. (k.0, inl (t, k.1))) (begin_resume-IsLaunchable now id store run h e))
      (λ t.
        WhenOk-map (IsGood audit run last) (IsReady audit now run (some last)) _
          (λ st next k. (k.0, inr (t, k.1)))
          (on_audit-IsGood audit now id store run last (audit last.run_id) h e r refl))

-- A resumption that is accepted is of a run of the store; it leaves a valid snapshot with a run that a
-- worker can take, every result of which has completed. If the run has no result, or its last one has
-- completed, it resumes as it is. Otherwise either the signed audit record of the last stage is terminal
-- and its cleanup is confirmed or its run was simulated, and the stage is not run again if the record
-- says that it has completed; or the stage was cancelled before it was admitted.
pub prepare_resume_lem :
    (audit : Text → Option AuditRecord) (now id : Text) (store after : CampaignRunStore)
    (next : CampaignRun)
    → validate store ≡ ok tt
    → prepare_resume audit now id store ≡ (after, ok next)
    → (run : CampaignRun) × (get id store ≡ some run)
      × IsLaunchable after next
      × IsAccepted audit now run (last? run.step_results) next
unfolding prepare_resume on_found IsReady WhenOk
prepare_resume_lem audit now id store after next h eq = go (get id store) refl eq
  where
    go :
        (q : Option CampaignRun)
        → get id store ≡ q
        → on_found audit now id store q ≡ (after, ok next)
        → (run : CampaignRun) × (get id store ≡ some run)
          × IsLaunchable after next
          × IsAccepted audit now run (last? run.step_results) next
    go none e k = cc
    go (some run) e k =
        let (launchable, accepted) =
          subst (WhenOk (IsReady audit now run (last? run.step_results))) k (
            WhenOk-if (IsReady audit now run (last? run.step_results))
              (not (is_one_of (interrupted ∷ cancelled ∷ []) run.status)) _ _ (λ t. tt)
              (λ t.
                on_last-IsReady audit now id store run (last? run.step_results) h e
                  (ground arith))) in
        (run, e, launchable, accepted)
