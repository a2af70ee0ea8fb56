-- ===== src/Schedule/Bounds.antt =====
-- crates/asmodeus-control-plane/src/scheduler.rs: the histories and the alerts stay bounded.
use asmodeus.Schedule.{
  Sample, ScheduledJob, ScheduleCatalog, PendingOutcome, pop_over, noted, apply_entry, apply,
  claimed, claim, claim_due, interrupt, each, recover_interrupted, enabled_entry, register,
  set_enabled, deregister, max_history_per_job, max_alerts, skipped, running, is_due, is_text,
}
use asmodeus.Schedule.Observe.{
  set_sample, of_run, latest, on_sample, observe, raise, feed, record_feedback, is_same,
}
use asmodeus.Telemetry.Audit.{AuditRecord, is_terminal, has_confirmed_feedback}
use asmodeus.Prelude.{
  ℕ, ◌-◌, ◌≤◌, ◌≡◌, refl, subst, arith, Bool, true, false, ◌&&◌, Option, none, some, List, [], ◌∷◌,
  ◌++◌, Text, text_eq, Bool-cases, inl, inr, length, length-drop, find, Map, lookup, insert, remove,
  All, All-append,
}

length-pop_over {ℓ} : {A : Type ℓ} (limit : ℕ) (xs : List A) → length (pop_over limit xs) ≤ limit
unfolding pop_over
length-pop_over limit xs = omega (arith, length-drop (length xs - limit) xs)

module _ {F : Type 0} where
  abbrev pub IsShort : ScheduledJob F → Type 0
  IsShort job = length job.run_history ≤ max_history_per_job

  -- Each job keeps at most 50 samples, and the catalog at most 200 alerts.
  pub record IsBounded (cat : ScheduleCatalog F) : Type 0 where
    pub histories : All (λ (e : Text × ScheduledJob F). IsShort e.1) cat.jobs
    pub alerts_le : length cat.alerts ≤ max_alerts

  noted-IsShort : (o : PendingOutcome) (job : ScheduledJob F) → IsShort job → IsShort (noted o job)
  unfolding noted
  noted-IsShort o job h = elim (Bool-cases (text_eq o.status skipped)) [
    | inl e ↦ rw e h
    | inr e ↦ rw e (length-pop_over max_history_per_job _)
  ]

  length-set_sample :
      (run_id : Text) (s : Sample F) (xs : List (Sample F))
      → length (set_sample run_id s xs) ≡ length xs
  unfolding set_sample
  length-set_sample run_id s [] = refl
  length-set_sample run_id s (x ∷ xs) = ground (arith, length-set_sample run_id s xs)

  insert-All :
      (P : ScheduledJob F → Type 0) (k : Text) (job : ScheduledJob F) (m : Map (ScheduledJob F))
      → P job
      → All (λ (e : Text × ScheduledJob F). P e.1) m
      → All (λ (e : Text × ScheduledJob F). P e.1) (insert k job m)
  unfolding insert
  insert-All P k job [] p h = (p, tt)
  insert-All P k job ((j, x) ∷ m) p h = elim (Bool-cases (text_eq j k)) [
    | inl e ↦ rw e (p, h.1)
    | inr e ↦ rw e (h.0, insert-All P k job m p h.1)
  ]

  remove-All :
      (P : ScheduledJob F → Type 0) (k : Text) (m : Map (ScheduledJob F))
      → All (λ (e : Text × ScheduledJob F). P e.1) m
      → All (λ (e : Text × ScheduledJob F). P e.1) (remove k m)
  unfolding remove
  remove-All P k [] h = tt
  remove-All P k ((j, x) ∷ m) h = elim (Bool-cases (text_eq j k)) [
    | inl e ↦ rw e (remove-All P k m h.1)
    | inr e ↦ rw e (h.0, remove-All P k m h.1)
  ]

  lookup-All :
      (P : ScheduledJob F → Type 0) (k : Text) (m : Map (ScheduledJob F)) (job : ScheduledJob F)
      → All (λ (e : Text × ScheduledJob F). P e.1) m
      → lookup k m ≡ some job
      → P job
  unfolding lookup
  lookup-All P k [] job h e = cc
  lookup-All P k ((j, x) ∷ m) job h e = elim (Bool-cases (text_eq j k)) [
    | inl t ↦ let is : x ≡ job = ground arith in subst P is h.0
    | inr t ↦ lookup-All P k m job h.1 (rw t at e)
  ]

  apply_entry-histories :
      (o : PendingOutcome) (found : Option (ScheduledJob F)) (cat : ScheduleCatalog F)
      → lookup o.job_id cat.jobs ≡ found
      → IsBounded cat
      → IsBounded (apply_entry o found cat)
  unfolding apply_entry
  apply_entry-histories o none cat e h = h
  apply_entry-histories o (some job) cat e h =
      elim (Bool-cases (text_eq job.generation o.generation)) [
        | inl g ↦ rw g (record {
          histories =
              insert-All IsShort o.job_id (noted o job) cat.jobs
                (noted-IsShort o job (lookup-All IsShort o.job_id cat.jobs job h.histories e))
                h.histories;
          alerts_le = h.alerts_le;
        })
        | inr g ↦ rw g h
      ]

  claim-histories :
      (now : ℕ) (now_utc : Text) (jobs : Map (ScheduledJob F))
      → All (λ (e : Text × ScheduledJob F). IsShort e.1) jobs
      → All (λ (e : Text × ScheduledJob F). IsShort e.1) (claim now now_utc jobs).0
  unfolding claim claimed
  claim-histories now now_utc [] h = tt
  claim-histories now now_utc ((k, job) ∷ jobs) h = elim (Bool-cases (is_due now job)) [
    | inl e ↦ rw e (h.0, claim-histories now now_utc jobs h.1)
    | inr e ↦ rw e (h.0, claim-histories now now_utc jobs h.1)
  ]

  interrupt-histories :
      (jobs : Map (ScheduledJob F))
      → All (λ (e : Text × ScheduledJob F). IsShort e.1) jobs
      → All (λ (e : Text × ScheduledJob F). IsShort e.1) (each interrupt jobs)
  unfolding each interrupt
  interrupt-histories [] h = tt
  interrupt-histories ((k, job) ∷ jobs) h = elim (Bool-cases (is_text job.last_status running)) [
    | inl e ↦ rw e (h.0, interrupt-histories jobs h.1)
    | inr e ↦ rw e (h.0, interrupt-histories jobs h.1)
  ]

  enabled_entry-IsBounded :
      (id : Text) (enabled : Bool) (found : Option (ScheduledJob F)) (cat : ScheduleCatalog F)
      → lookup id cat.jobs ≡ found
      → IsBounded cat
      → IsBounded (enabled_entry id enabled found cat).0
  unfolding enabled_entry
  enabled_entry-IsBounded id enabled none cat e h = h
  enabled_entry-IsBounded id enabled (some job) cat e h = record {
    histories =
        insert-All IsShort id (record job { enabled = enabled }) cat.jobs
          (lookup-All IsShort id cat.jobs job h.histories e) h.histories;
    alerts_le = h.alerts_le;
  }

module _ {F : Type 0} (ratio : ℕ → ℕ → F) (drifted : F → Bool) (zero_factor : F) where
  on_sample-history :
      (r : AuditRecord) (job : ScheduledJob F) (found : Option (Sample F))
      → length (on_sample ratio drifted zero_factor r job found).0.run_history
        ≡ length job.run_history
  unfolding on_sample latest
  on_sample-history r job none = refl
  on_sample-history r job (some s) = elim (Bool-cases (is_same r s)) [
    | inl q ↦ rw q refl
    | inr q ↦ elim (Bool-cases (is_text job.last_run_id r.run_id)) [
      | inl l ↦ rw (q, l) (length-set_sample r.run_id _ job.run_history)
      | inr l ↦ rw (q, l) (length-set_sample r.run_id _ job.run_history)
    ]
  ]

  observe-IsShort :
      (r : AuditRecord) (job : ScheduledJob F)
      → IsShort job
      → IsShort (observe ratio drifted zero_factor r job).0
  unfolding observe
  observe-IsShort r job h =
      omega (arith, on_sample-history r job (find (of_run r.run_id) job.run_history))

  raise-alerts_le :
      (r : AuditRecord) (job : ScheduledJob F) (alert : Bool) (cat : ScheduleCatalog F)
      → length cat.alerts ≤ max_alerts
      → length (raise ratio drifted zero_factor r job alert cat).alerts ≤ max_alerts
  unfolding raise
  raise-alerts_le r job true cat h = length-pop_over max_alerts _
  raise-alerts_le r job false cat h = h

  feed-IsBounded :
      (r : AuditRecord) (done todo : Map (ScheduledJob F)) (cat : ScheduleCatalog F)
      → All (λ (e : Text × ScheduledJob F). IsShort e.1) done
      → All (λ (e : Text × ScheduledJob F). IsShort e.1) todo
      → length cat.alerts ≤ max_alerts
      → IsBounded (feed ratio drifted zero_factor r done todo cat)
  unfolding feed
  feed-IsBounded r done [] cat d t a = record { histories = d; alerts_le = a }
  feed-IsBounded r done ((k, job) ∷ todo) cat d t a =
      let seen = observe ratio drifted zero_factor r job in
      feed-IsBounded r (done ++ (k, seen.0) ∷ []) todo
        (raise ratio drifted zero_factor r seen.0 seen.1 cat)
        (All-append (λ (e : Text × ScheduledJob F). IsShort e.1) done ((k, seen.0) ∷ []) d
          (observe-IsShort r job t.0, tt))
        t.1 (raise-alerts_le r seen.0 seen.1 cat a)

  -- A catalog whose jobs keep at most 50 samples, and which keeps at most 200 alerts, stays so under
  -- every claim, outcome, feedback and restart, when a job is enabled, disabled or removed, and when one
  -- is registered that itself has at most 50 samples.
  pub catalog-IsBounded :
      (cat : ScheduleCatalog F) (now : ℕ) (now_utc : Text) (o : PendingOutcome) (r : AuditRecord)
      (job : ScheduledJob F) (id : Text) (enabled : Bool)
      → IsBounded cat
      → IsShort job
      → IsBounded (claim_due now now_utc cat).0
        × IsBounded (apply o cat)
        × IsBounded (record_feedback ratio drifted zero_factor r cat)
        × IsBounded (recover_interrupted cat)
        × IsBounded (register job cat)
        × IsBounded (set_enabled id enabled cat).0
        × IsBounded (deregister id cat).0
  unfolding claim_due apply record_feedback recover_interrupted register set_enabled deregister
  catalog-IsBounded cat now now_utc o r job id enabled h short = (
    record {
      histories = claim-histories now now_utc cat.jobs h.histories;
      alerts_le = h.alerts_le;
    },
    apply_entry-histories o (lookup o.job_id cat.jobs) cat refl h,
    elim (Bool-cases (is_terminal r && has_confirmed_feedback r)) [
      | inl e ↦ rw e (feed-IsBounded r [] cat.jobs cat tt h.histories h.alerts_le)
      | inr e ↦ rw e h
    ],
    record { histories = interrupt-histories cat.jobs h.histories; alerts_le = h.alerts_le },
    record {
      histories = insert-All IsShort job.id job cat.jobs short h.histories;
      alerts_le = h.alerts_le;
    },
    enabled_entry-IsBounded id enabled (lookup id cat.jobs) cat refl h,
    record { histories = remove-All IsShort id cat.jobs h.histories; alerts_le = h.alerts_le },
  )
