-- ===== src/Schedule/Feedback.antt =====
-- crates/asmodeus-control-plane/src/scheduler.rs: feedback that arrives twice.
use asmodeus.Schedule.{Sample, ScheduledJob, ScheduleCatalog, is_text, each}
use asmodeus.Schedule.Observe.{
  bool_eq, is_bool, observed_mttd, of_run, is_same, answered, set_sample, latest, on_sample,
  observe, raise, feed, record_feedback,
}
use asmodeus.Telemetry.Audit.{AuditRecord, is_terminal, has_confirmed_feedback}
use mathlib.Core.List.{append-nil, append_assoc}
use asmodeus.Prelude.{
  ℕ, ◌≡◌, refl, sym, ap, ◌∙◌, arith, Bool, true, false, ◌&&◌, Option, none, some, List, [], ◌∷◌,
  ◌++◌, Text, Bool-cases, inl, inr, nat_eq_iff, find, Map, All,
}

bool_eq_refl : (b : Bool) → bool_eq b b ≡ true
bool_eq_refl true = refl
bool_eq_refl false = refl

module _ {F : Type 0} where
  find-of_run :
      (run_id : Text) (xs : List (Sample F)) (s : Sample F)
      → find (of_run run_id) xs ≡ some s
      → of_run run_id s ≡ true
  find-of_run run_id [] s e = cc
  find-of_run run_id (t ∷ ts) s e = elim (Bool-cases (of_run run_id t)) [
    | inl q ↦ let is : t ≡ s = ground arith in rw is at q
    | inr q ↦ find-of_run run_id ts s (rw q at e)
  ]

  find-set_sample :
      (run_id : Text) (xs : List (Sample F)) (s t : Sample F)
      → find (of_run run_id) xs ≡ some s
      → of_run run_id t ≡ true
      → find (of_run run_id) (set_sample run_id t xs) ≡ some t
  unfolding set_sample
  find-set_sample run_id [] s t e h = cc
  find-set_sample run_id (x ∷ xs) s t e h = elim (Bool-cases (of_run run_id x)) [
    | inl q ↦ rw q (rw h refl)
    | inr q ↦ rw q (rw q (find-set_sample run_id xs s t (rw q at e) h))
  ]

  is_same-answered :
      (r : AuditRecord) (s : Sample F)
      → s.feedback_received ≡ true
      → s.mttd_ms ≡ observed_mttd r
      → s.detected ≡ some r.measurements.blue_team_detected
      → is_same r s ≡ true
  unfolding is_same is_bool
  is_same-answered r s f m d = ground (
    arith,
    bool_eq_refl r.measurements.blue_team_detected,
    nat_eq_iff s.mttd_ms (observed_mttd r),
  )

module _ {F : Type 0} (ratio : ℕ → ℕ → F) (drifted : F → Bool) (zero_factor : F) where
  abbrev IsSettled : AuditRecord → ScheduledJob F → Type 0
  IsSettled r job = observe ratio drifted zero_factor r job ≡ (job, false)

  IsSettled-same :
      (r : AuditRecord) (job : ScheduledJob F) (s : Sample F)
      → find (of_run r.run_id) job.run_history ≡ some s
      → is_same r s ≡ true
      → IsSettled r job
  unfolding observe on_sample
  IsSettled-same r job s e q = rw (e, q) refl

  IsSettled-none :
      (r : AuditRecord) (job : ScheduledJob F)
      → find (of_run r.run_id) job.run_history ≡ none
      → IsSettled r job
  unfolding observe on_sample
  IsSettled-none r job e = rw e refl

  latest-IsSettled :
      (r : AuditRecord) (job : ScheduledJob F) (s : Sample F)
      → find (of_run r.run_id) job.run_history ≡ some s
      → IsSettled r (latest ratio drifted zero_factor r s job)
  unfolding latest answered of_run
  latest-IsSettled r job s e =
      let job' = latest ratio drifted zero_factor r s job in
      let s' : Sample F = record (answered r s) {
        drift_detected = job'.drift_detected;
        drift_factor = job'.drift_factor;
      } in
      IsSettled-same r job' s'
        (find-set_sample r.run_id job.run_history s s' e (find-of_run r.run_id job.run_history s e))
        (is_same-answered r s' refl refl refl)

  older-IsSettled :
      (r : AuditRecord) (job : ScheduledJob F) (s : Sample F)
      → find (of_run r.run_id) job.run_history ≡ some s
      → IsSettled r
          (record job { run_history = set_sample r.run_id (answered r s) job.run_history })
  unfolding answered of_run
  older-IsSettled r job s e =
      IsSettled-same r
        (record job { run_history = set_sample r.run_id (answered r s) job.run_history })
        (answered r s)
        (find-set_sample r.run_id job.run_history s (answered r s) e
          (find-of_run r.run_id job.run_history s e))
        (is_same-answered r (answered r s) refl refl refl)

  on_sample-IsSettled :
      (r : AuditRecord) (job : ScheduledJob F) (found : Option (Sample F))
      → find (of_run r.run_id) job.run_history ≡ found
      → IsSettled r (on_sample ratio drifted zero_factor r job found).0
  unfolding on_sample
  on_sample-IsSettled r job none e = IsSettled-none r job e
  on_sample-IsSettled r job (some s) e = elim (Bool-cases (is_same r s)) [
    | inl q ↦ rw q (IsSettled-same r job s e q)
    | inr q ↦ elim (Bool-cases (is_text job.last_run_id r.run_id)) [
      | inl l ↦ rw (q, l) (latest-IsSettled r job s e)
      | inr l ↦ rw (q, l) (older-IsSettled r job s e)
    ]
  ]

  observe-IsSettled :
      (r : AuditRecord) (job : ScheduledJob F)
      → IsSettled r (observe ratio drifted zero_factor r job).0
  unfolding observe
  observe-IsSettled r job = on_sample-IsSettled r job (find (of_run r.run_id) job.run_history) refl

  AllSettled : AuditRecord → Map (ScheduledJob F) → Type 0
  AllSettled r jobs = All (λ (e : Text × ScheduledJob F). IsSettled r e.1) jobs

  each-AllSettled :
      (r : AuditRecord) (jobs : Map (ScheduledJob F))
      → AllSettled r (each (λ job. (observe ratio drifted zero_factor r job).0) jobs)
  unfolding AllSettled each
  each-AllSettled r [] = tt
  each-AllSettled r ((k, job) ∷ jobs) = (observe-IsSettled r job, each-AllSettled r jobs)

  feed-jobs :
      (r : AuditRecord) (done todo : Map (ScheduledJob F)) (cat : ScheduleCatalog F)
      → (feed ratio drifted zero_factor r done todo cat).jobs
        ≡ done ++ each (λ job. (observe ratio drifted zero_factor r job).0) todo
  unfolding feed each
  feed-jobs r done [] cat = sym (append-nil done)
  feed-jobs r done ((k, job) ∷ todo) cat =
      feed-jobs r (done ++ (k, (observe ratio drifted zero_factor r job).0) ∷ []) todo (
        raise ratio drifted zero_factor r (observe ratio drifted zero_factor r job).0
          (observe ratio drifted zero_factor r job).1 cat)
      ∙ append_assoc done ((k, (observe ratio drifted zero_factor r job).0) ∷ [])
          (each (λ job. (observe ratio drifted zero_factor r job).0) todo)

  feed-settled :
      (r : AuditRecord) (done todo : Map (ScheduledJob F)) (cat : ScheduleCatalog F)
      → AllSettled r todo
      → feed ratio drifted zero_factor r done todo cat ≡ record cat { jobs = done ++ todo }
  unfolding feed AllSettled raise
  feed-settled r done [] cat h = ap (λ jobs. record cat { jobs = jobs }) (sym (append-nil done))
  feed-settled r done ((k, job) ∷ todo) cat h = rw h.0 (
      feed-settled r (done ++ (k, job) ∷ []) todo cat h.1
      ∙ ap (λ jobs. record cat { jobs = jobs }) (append_assoc done ((k, job) ∷ []) todo))

  feed-again :
      (r : AuditRecord) (cat : ScheduleCatalog F)
      → let once = feed ratio drifted zero_factor r [] cat.jobs cat in
        feed ratio drifted zero_factor r [] once.jobs once ≡ once
  feed-again r cat =
      let once = feed ratio drifted zero_factor r [] cat.jobs cat in
      feed-settled r [] once.jobs once
        (rw (feed-jobs r [] cat.jobs cat) (each-AllSettled r cat.jobs))

  -- Feedback that is recorded a second time changes nothing: no sample, no baseline, no drift state
  -- and no further alert, however many jobs have run it.
  pub record_feedback_idempotent :
      (r : AuditRecord) (cat : ScheduleCatalog F)
      → let once = record_feedback ratio drifted zero_factor r cat in
        record_feedback ratio drifted zero_factor r once ≡ once
  unfolding record_feedback
  record_feedback_idempotent r cat = elim (Bool-cases (is_terminal r && has_confirmed_feedback r)) [
    | inl e ↦ rw e (feed-again r cat)
    | inr e ↦ rw e refl
  ]
