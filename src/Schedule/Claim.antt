-- ===== src/Schedule/Claim.antt =====
-- crates/asmodeus-control-plane/src/scheduler.rs: a job is admitted once.
use asmodeus.Schedule.{
  ScheduledJob, ScheduleCatalog, is_text, is_due, claimed, claim, claim_due, sort_by_id,
  insert_by_id, running,
}
use asmodeus.Prelude.{
  ℕ, suc, ◌+◌, ◌≤◌, ◌≡◌, refl, arith, true, false, List, [], ◌∷◌, Text, text_lt, text_eq,
  text_eq_iff, text_eq_refl, Bool-cases, inl, inr, length, Map, All, some,
}

differs-sym : (a b : Text) → text_eq a b ≡ false → text_eq b a ≡ false
differs-sym a b h = ground (arith, text_eq_iff a b, text_eq_iff b a)

module _ {F : Type 0} where
  insert_by_id-length :
      (job : ScheduledJob F) (js : List (ScheduledJob F))
      → length (insert_by_id job js) ≡ suc (length js)
  unfolding insert_by_id
  insert_by_id-length job [] = refl
  insert_by_id-length job (j ∷ js) = ground (arith, insert_by_id-length job js)

  sort_by_id-length : (js : List (ScheduledJob F)) → length (sort_by_id js) ≡ length js
  unfolding sort_by_id
  sort_by_id-length [] = refl
  sort_by_id-length (j ∷ js) =
      omega (arith, insert_by_id-length j (sort_by_id js), sort_by_id-length js)

  -- A job as it is admitted at a time.
  pub IsAdmitted : ℕ → ScheduledJob F → Type 0
  IsAdmitted now job =
      (job.enabled ≡ true) × (job.last_status ≡ some running) × (job.last_run_epoch_secs ≡ some now)

  insert_by_id-All :
      (P : ScheduledJob F → Type 0) (job : ScheduledJob F) (js : List (ScheduledJob F))
      → P job
      → All P js
      → All P (insert_by_id job js)
  unfolding insert_by_id
  insert_by_id-All P job [] p h = (p, tt)
  insert_by_id-All P job (j ∷ js) p h = elim (Bool-cases (text_lt j.id job.id)) [
    | inl e ↦ rw e (h.0, insert_by_id-All P job js p h.1)
    | inr e ↦ rw e (p, h)
  ]

  sort_by_id-All :
      (P : ScheduledJob F → Type 0) (js : List (ScheduledJob F)) → All P js → All P (sort_by_id js)
  unfolding sort_by_id
  sort_by_id-All P [] h = tt
  sort_by_id-All P (j ∷ js) h = insert_by_id-All P j (sort_by_id js) h.0 (sort_by_id-All P js h.1)

  claimed-is_due :
      (now later : ℕ) (now_utc : Text) (job : ScheduledJob F)
      → is_due later (claimed now now_utc job) ≡ false
  unfolding is_due claimed is_text
  claimed-is_due now later now_utc job = ground (arith, text_eq_refl running)

  claim-twice :
      (now later : ℕ) (now_utc later_utc : Text) (jobs : Map (ScheduledJob F))
      → length (claim now now_utc jobs).1
          + length (claim later later_utc (claim now now_utc jobs).0).1
        ≤ length jobs
  unfolding claim
  claim-twice now later now_utc later_utc [] = omega arith
  claim-twice now later now_utc later_utc ((k, job) ∷ jobs) =
      let rest = claim-twice now later now_utc later_utc jobs in
      elim (Bool-cases (is_due now job)) [
        | inl e ↦ rw (e, claimed-is_due now later now_utc job) (omega (arith, rest))
        | inr e ↦ rw e (elim (Bool-cases (is_due later job)) [
          | inl d ↦ rw d (omega (arith, rest))
          | inr d ↦ rw d (omega (arith, rest))
        ])
      ]

  enabled_of : (now : ℕ) (job : ScheduledJob F) → is_due now job ≡ true → job.enabled ≡ true
  unfolding is_due
  enabled_of now job e = ground arith

  claim-All :
      (now : ℕ) (now_utc : Text) (jobs : Map (ScheduledJob F))
      → All (IsAdmitted now) (claim now now_utc jobs).1
  unfolding claim IsAdmitted claimed
  claim-All now now_utc [] = tt
  claim-All now now_utc ((k, job) ∷ jobs) = elim (Bool-cases (is_due now job)) [
    | inl e ↦ rw e ((enabled_of now job e, refl, refl), claim-All now now_utc jobs)
    | inr e ↦ rw e (claim-All now now_utc jobs)
  ]

  -- No two entries hold jobs of one id, as in a map that is keyed by the ids.
  unfoldable pub HasDistinctIds : Map (ScheduledJob F) → Type 0
  HasDistinctIds [] = Unit
  HasDistinctIds ((k, job) ∷ jobs) =
      All (λ (e : Text × ScheduledJob F). text_eq job.id e.1.id ≡ false) jobs × HasDistinctIds jobs

  -- What holds of the ids of the jobs holds of those that are claimed, and of the jobs afterwards.
  claim-ids :
      (P : Text → Type 0) (now : ℕ) (now_utc : Text) (jobs : Map (ScheduledJob F))
      → All (λ (e : Text × ScheduledJob F). P e.1.id) jobs
      → All (λ (e : Text × ScheduledJob F). P e.1.id) (claim now now_utc jobs).0
        × All (λ (j : ScheduledJob F). P j.id) (claim now now_utc jobs).1
  unfolding claim claimed
  claim-ids P now now_utc [] h = (tt, tt)
  claim-ids P now now_utc ((k, job) ∷ jobs) h =
      let (after, taken) = claim-ids P now now_utc jobs h.1 in
      elim (Bool-cases (is_due now job)) [
        | inl e ↦ rw e ((h.0, after), (h.0, taken))
        | inr e ↦ rw e ((h.0, after), taken)
      ]

  -- The id of `b` is that of none of the jobs.
  abbrev pub IsApart : List (ScheduledJob F) → ScheduledJob F → Type 0
  IsApart js b = All (λ (a : ScheduledJob F). text_eq a.id b.id ≡ false) js

  cons-IsApart :
      (a : ScheduledJob F) (js bs : List (ScheduledJob F))
      → All (λ (b : ScheduledJob F). text_eq a.id b.id ≡ false) bs
      → All (IsApart js) bs
      → All (IsApart (a ∷ js)) bs
  cons-IsApart a js [] h k = tt
  cons-IsApart a js (b ∷ bs) h k = ((h.0, k.0), cons-IsApart a js bs h.1 k.1)

  sort_by_id-IsApart :
      (js bs : List (ScheduledJob F)) → All (IsApart js) bs → All (IsApart (sort_by_id js)) bs
  sort_by_id-IsApart js [] h = tt
  sort_by_id-IsApart js (b ∷ bs) h =
      (sort_by_id-All (λ a. text_eq a.id b.id ≡ false) js h.0, sort_by_id-IsApart js bs h.1)

  swapped :
      (job : ScheduledJob F) (jobs : Map (ScheduledJob F))
      → All (λ (e : Text × ScheduledJob F). text_eq job.id e.1.id ≡ false) jobs
      → All (λ (e : Text × ScheduledJob F). text_eq e.1.id job.id ≡ false) jobs
  swapped job [] h = tt
  swapped job ((k, j) ∷ jobs) h = (differs-sym job.id j.id h.0, swapped job jobs h.1)

  claim-IsApart :
      (now later : ℕ) (now_utc later_utc : Text) (jobs : Map (ScheduledJob F))
      → HasDistinctIds jobs
      → All
          (IsApart (claim now now_utc jobs).1)
          (claim later later_utc (claim now now_utc jobs).0).1
  unfolding claim claimed HasDistinctIds
  claim-IsApart now later now_utc later_utc [] h = tt
  claim-IsApart now later now_utc later_utc ((k, job) ∷ jobs) (fresh, distinct) =
      let rest = claim-IsApart now later now_utc later_utc jobs distinct in
      let differs = λ (id : Text). text_eq job.id id ≡ false in
      let differed = λ (id : Text). text_eq id job.id ≡ false in
      let ids = claim-ids differs now now_utc jobs fresh in
      elim (Bool-cases (is_due now job)) [
        | inl e ↦
            rw (e, claimed-is_due now later now_utc job)
              (cons-IsApart (claimed now now_utc job) _ _
                (claim-ids differs later later_utc (claim now now_utc jobs).0 ids.0).1 rest)
        | inr e ↦ rw e (elim (Bool-cases (is_due later job)) [
          | inl d ↦ rw d ((claim-ids differed now now_utc jobs (swapped job jobs fresh)).1, rest)
          | inr d ↦ rw d rest
        ])
      ]

  -- Every job that is claimed was enabled and is running from then on, and two claims in a row, however
  -- much later the second is, claim no more jobs together than there are. If no two jobs have one id,
  -- no job of the second claim has the id of a job of the first.
  pub claim_due_lem :
      (now later : ℕ) (now_utc later_utc : Text) (cat : ScheduleCatalog F)
      → HasDistinctIds cat.jobs
      → let first = claim_due now now_utc cat in
        let second = claim_due later later_utc first.0 in
        All (IsAdmitted now) first.1
        × (length first.1 + length second.1 ≤ length cat.jobs)
        × All (IsApart first.1) second.1
  unfolding claim_due
  claim_due_lem now later now_utc later_utc cat distinct =
      let first = claim now now_utc cat.jobs in
      let second = claim later later_utc first.0 in
      (
        sort_by_id-All (IsAdmitted now) first.1 (claim-All now now_utc cat.jobs),
        omega (
          arith,
          sort_by_id-length first.1,
          sort_by_id-length second.1,
          claim-twice now later now_utc later_utc cat.jobs,
        ),
        sort_by_id-All (IsApart (sort_by_id first.1)) second.1 (
            sort_by_id-IsApart first.1 second.1
              (claim-IsApart now later now_utc later_utc cat.jobs distinct)),
      )
