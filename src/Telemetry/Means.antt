-- ===== src/Telemetry/Means.antt =====
-- crates/asmodeus-telemetry/src/lib.rs: the rolling aggregate is that of the records.
use asmodeus.Telemetry.Audit.{AuditRecord}
use asmodeus.Telemetry.Aggregate.{
  Aggregate, one_if, confirmed, contribution, merge, combine, record_run, update_run, from_records,
}
use asmodeus.Prelude.{
  ℕ, ◌-◌, ◌*◌, ◌^◌, ◌≤◌, ◌<◌, ◌≡◌, refl, List, [], ◌∷◌, ◌++◌, length, length-append, All-append,
  All-split, arith, All,
}
use asmodeus.Telemetry.Fields.{IsField, sum_of, update_run-field}

-- The two durations of the record are of 64 bits.
unfoldable pub IsU64 : AuditRecord → Type 0
IsU64 r = (r.measurements.mttd_ms < 2 ^ 64) × (r.measurements.mttr_ms < 2 ^ 64)

module _ (field : Aggregate → ℕ) where
  sum_of-le :
      (bound : ℕ) (rs : List AuditRecord)
      → ((r : AuditRecord) → IsU64 r → field (contribution r) ≤ bound)
      → All IsU64 rs
      → sum_of field rs ≤ length rs * bound
  unfolding sum_of
  sum_of-le bound [] h all = omega arith
  sum_of-le bound (r ∷ rs) h all = omega (arith, h r all.0, sum_of-le bound rs h all.1)

contribution-counts :
    (r : AuditRecord)
    → let c = contribution r in
      (c.scenarios_executed ≤ 1)
      × (c.detected ≤ 1)
      × (c.feedback_received ≤ 1)
      × (c.simulated_runs ≤ 1)
      × (c.pending_feedback ≤ 1)
      × (c.contained ≤ 1)
      × (c.detection_samples ≤ 1)
      × (c.containment_samples ≤ 1)
unfolding contribution confirmed one_if
contribution-counts r = ground arith

contribution-sums :
    (r : AuditRecord)
    → IsU64 r
    → ((contribution r).sum_mttd_ms ≤ 2 ^ 64 - 1) × ((contribution r).sum_mttr_ms ≤ 2 ^ 64 - 1)
unfolding contribution confirmed IsU64
contribution-sums r h = ground arith

-- The records of a trail of which one, `old`, becomes `new`.
record Revised (old new : AuditRecord) (before after : List AuditRecord) : Type 0 where
  length_lt : length (before ++ old ∷ after) < 2 ^ 64
  before_u64 : All IsU64 before
  after_u64 : All IsU64 after
  old_u64 : IsU64 old
  new_u64 : IsU64 new

module _ (old new : AuditRecord) (before after : List AuditRecord)
    (v : Revised old new before after) where
  All-IsU64 : (r : AuditRecord) → IsU64 r → All IsU64 (before ++ r ∷ after)
  All-IsU64 r h = All-append IsU64 before (r ∷ after) v.before_u64 (h, v.after_u64)

  Revised-field :
      (field : Aggregate → ℕ) (w bound : ℕ)
      → IsField w field
      → ((r : AuditRecord) → IsU64 r → field (contribution r) ≤ bound)
      → ((n : ℕ) → n < 2 ^ 64 → n * bound < 2 ^ w)
      → field (update_run old new (from_records (before ++ old ∷ after)))
        ≡ field (from_records (before ++ new ∷ after))
  Revised-field field w bound h le fits =
      update_run-field field w old new before after h
        (omega (
          arith,
          sum_of-le field bound (before ++ old ∷ after) le (All-IsU64 old v.old_u64),
          fits (length (before ++ old ∷ after)) v.length_lt,
        ))
        (omega (
          arith,
          sum_of-le field bound (before ++ new ∷ after) le (All-IsU64 new v.new_u64),
          fits (length (before ++ new ∷ after)) (
              omega (
                arith,
                v.length_lt,
                length-append before (old ∷ after),
                length-append before (new ∷ after),
              )),
        ))

  Revised-count :
      (field : Aggregate → ℕ)
      → IsField 64 field
      → ((r : AuditRecord) → field (contribution r) ≤ 1)
      → field (update_run old new (from_records (before ++ old ∷ after)))
        ≡ field (from_records (before ++ new ∷ after))
  Revised-count field h le = Revised-field field 64 1 h (λ r u. le r) (λ n small. omega arith)

  Revised-sum :
      (field : Aggregate → ℕ)
      → IsField 128 field
      → ((r : AuditRecord) → IsU64 r → field (contribution r) ≤ 2 ^ 64 - 1)
      → field (update_run old new (from_records (before ++ old ∷ after)))
        ≡ field (from_records (before ++ new ∷ after))
  Revised-sum field h le = Revised-field field 128 (2 ^ 64 - 1) h le (λ n small. omega arith)

scenarios_executed-IsField : IsField 64 (λ a. a.scenarios_executed)
unfolding record_run update_run combine merge
scenarios_executed-IsField = record {
  start = refl;
  recorded = λ r a. refl;
  updated = λ old new a. refl;
}

detected-IsField : IsField 64 (λ a. a.detected)
unfolding record_run update_run combine merge
detected-IsField = record { start = refl; recorded = λ r a. refl; updated = λ old new a. refl }

feedback_received-IsField : IsField 64 (λ a. a.feedback_received)
unfolding record_run update_run combine merge
feedback_received-IsField = record {
  start = refl;
  recorded = λ r a. refl;
  updated = λ old new a. refl;
}

simulated_runs-IsField : IsField 64 (λ a. a.simulated_runs)
unfolding record_run update_run combine merge
simulated_runs-IsField = record {
  start = refl;
  recorded = λ r a. refl;
  updated = λ old new a. refl;
}

pending_feedback-IsField : IsField 64 (λ a. a.pending_feedback)
unfolding record_run update_run combine merge
pending_feedback-IsField = record {
  start = refl;
  recorded = λ r a. refl;
  updated = λ old new a. refl;
}

contained-IsField : IsField 64 (λ a. a.contained)
unfolding record_run update_run combine merge
contained-IsField = record { start = refl; recorded = λ r a. refl; updated = λ old new a. refl }

detection_samples-IsField : IsField 64 (λ a. a.detection_samples)
unfolding record_run update_run combine merge
detection_samples-IsField = record {
  start = refl;
  recorded = λ r a. refl;
  updated = λ old new a. refl;
}

containment_samples-IsField : IsField 64 (λ a. a.containment_samples)
unfolding record_run update_run combine merge
containment_samples-IsField = record {
  start = refl;
  recorded = λ r a. refl;
  updated = λ old new a. refl;
}

sum_mttd_ms-IsField : IsField 128 (λ a. a.sum_mttd_ms)
unfolding record_run update_run combine merge
sum_mttd_ms-IsField = record { start = refl; recorded = λ r a. refl; updated = λ old new a. refl }

sum_mttr_ms-IsField : IsField 128 (λ a. a.sum_mttr_ms)
unfolding record_run update_run combine merge
sum_mttr_ms-IsField = record { start = refl; recorded = λ r a. refl; updated = λ old new a. refl }

aggregate_ext :
    (a b : Aggregate)
    → a.scenarios_executed ≡ b.scenarios_executed
    → a.detected ≡ b.detected
    → a.feedback_received ≡ b.feedback_received
    → a.simulated_runs ≡ b.simulated_runs
    → a.pending_feedback ≡ b.pending_feedback
    → a.contained ≡ b.contained
    → a.detection_samples ≡ b.detection_samples
    → a.containment_samples ≡ b.containment_samples
    → a.sum_mttd_ms ≡ b.sum_mttd_ms
    → a.sum_mttr_ms ≡ b.sum_mttr_ms
    → a ≡ b
aggregate_ext a b h0 h1 h2 h3 h4 h5 h6 h7 h8 h9 = ground arith

Revised-aggregate :
    (old new : AuditRecord) (before after : List AuditRecord)
    → Revised old new before after
    → update_run old new (from_records (before ++ old ∷ after))
      ≡ from_records (before ++ new ∷ after)
Revised-aggregate old new before after v =
    let count = Revised-count old new before after v in
    let sum = Revised-sum old new before after v in
    aggregate_ext (update_run old new (from_records (before ++ old ∷ after)))
      (from_records (before ++ new ∷ after))
      (count (λ a. a.scenarios_executed) scenarios_executed-IsField
        (λ r. (contribution-counts r).0))
      (count (λ a. a.detected) detected-IsField (λ r. (contribution-counts r).1))
      (count (λ a. a.feedback_received) feedback_received-IsField (λ r. (contribution-counts r).2))
      (count (λ a. a.simulated_runs) simulated_runs-IsField (λ r. (contribution-counts r).3))
      (count (λ a. a.pending_feedback) pending_feedback-IsField (λ r. (contribution-counts r).4))
      (count (λ a. a.contained) contained-IsField (λ r. (contribution-counts r).5))
      (count (λ a. a.detection_samples) detection_samples-IsField (λ r. (contribution-counts r).6))
      (count (λ a. a.containment_samples) containment_samples-IsField
        (λ r. (contribution-counts r).7))
      (sum (λ a. a.sum_mttd_ms) sum_mttd_ms-IsField (λ r u. (contribution-sums r u).0))
      (sum (λ a. a.sum_mttr_ms) sum_mttr_ms-IsField (λ r u. (contribution-sums r u).1))

-- Where one record of a trail is revised, the aggregate that was adjusted for it is the one that is
-- built from the revised trail, whatever the two revisions are, as long as the trail has fewer than
-- 2^64 records, whose durations are of 64 bits: no counter is off by one or cut off at zero.
pub update_run_lem :
    (old new : AuditRecord) (before after : List AuditRecord)
    → length (before ++ old ∷ after) < 2 ^ 64
    → All IsU64 (before ++ old ∷ after)
    → IsU64 new
    → update_run old new (from_records (before ++ old ∷ after))
      ≡ from_records (before ++ new ∷ after)
update_run_lem old new before after small all u =
    let parts = All-split IsU64 before (old ∷ after) all in
    Revised-aggregate old new before after (record {
      length_lt = small;
      before_u64 = parts.0;
      after_u64 = parts.1.1;
      old_u64 = parts.1.0;
      new_u64 = u;
    })
