-- ===== src/Telemetry/Fields.antt =====
-- crates/asmodeus-telemetry/src/lib.rs: one field of the aggregate, as a sum over the records.
use asmodeus.Telemetry.Audit.{AuditRecord}
use asmodeus.Telemetry.Aggregate.{
  Aggregate, default_aggregate, contribution, record_run, update_run, record_all, from_records,
}
use native.Mathlib.Nat.{mod-eq_of_lt}
use asmodeus.Prelude.{ℕ, ◌+◌, ◌-◌, ◌%◌, ◌^◌, ◌<◌, ◌≡◌, ◌∙◌, List, [], ◌∷◌, ◌++◌, arith}

-- A field of the aggregate, of `w` bits, and how the two steps change it.
pub record IsField (w : ℕ) (field : Aggregate → ℕ) : Type 0 where
  pub start : field default_aggregate ≡ 0
  pub recorded :
      (r : AuditRecord) (a : Aggregate)
      → field (record_run r a) ≡ (field a + field (contribution r)) % 2 ^ w
  pub updated :
      (old new : AuditRecord) (a : Aggregate)
      → field (update_run old new a)
        ≡ (field a - field (contribution old) + field (contribution new)) % 2 ^ w

module _ (field : Aggregate → ℕ) where
  unfoldable pub sum_of : List AuditRecord → ℕ
  sum_of [] = 0
  sum_of (r ∷ rs) = field (contribution r) + sum_of rs

  sum_of-append : (xs ys : List AuditRecord) → sum_of (xs ++ ys) ≡ sum_of xs + sum_of ys
  unfolding sum_of
  sum_of-append [] ys = omega arith
  sum_of-append (x ∷ xs) ys = omega (arith, sum_of-append xs ys)

  record_all-field :
      (w : ℕ) (rs : List AuditRecord) (a : Aggregate)
      → IsField w field
      → field a + sum_of rs < 2 ^ w
      → field (record_all rs a) ≡ field a + sum_of rs
  unfolding sum_of record_all
  record_all-field w [] a h small = omega arith
  record_all-field w (r ∷ rs) a h small =
      let step : field (record_run r a) ≡ field a + field (contribution r) =
        h.recorded r a ∙ mod-eq_of_lt (omega arith) in
      omega (arith, step, record_all-field w rs (record_run r a) h (omega (arith, step)))

  from_records-field :
      (w : ℕ) (rs : List AuditRecord)
      → IsField w field
      → sum_of rs < 2 ^ w
      → field (from_records rs) ≡ sum_of rs
  unfolding from_records
  from_records-field w rs h small =
      omega (arith, h.start, record_all-field w rs default_aggregate h (omega (arith, h.start)))

  pub update_run-field :
      (w : ℕ) (old new : AuditRecord) (before after : List AuditRecord)
      → IsField w field
      → sum_of (before ++ old ∷ after) < 2 ^ w
      → sum_of (before ++ new ∷ after) < 2 ^ w
      → field (update_run old new (from_records (before ++ old ∷ after)))
        ≡ field (from_records (before ++ new ∷ after))
  unfolding sum_of
  update_run-field w old new before after h small_old small_new =
      let sum_old = sum_of-append before (old ∷ after) in
      let sum_new = sum_of-append before (new ∷ after) in
      let was = from_records-field w (before ++ old ∷ after) h small_old in
      let all = from_records (before ++ old ∷ after) in
      let small : field all - field (contribution old) + field (contribution new) < 2 ^ w =
        omega (arith, sum_old, sum_new, was) in
      h.updated old new all
      ∙ mod-eq_of_lt small
      ∙ omega
          (arith, sum_old, sum_new, was, from_records-field w (before ++ new ∷ after) h small_new)
