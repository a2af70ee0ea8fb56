-- ===== src/AuditStore/Reload.antt =====
-- crates/asmodeus-control-plane/src/audit_store.rs: what was published is what a restart loads.
use asmodeus.AuditStore.Present.{filter-AllPresent}
use asmodeus.AuditStore.Durable.{
  is_torn, IsDurable, append-IsDurable, commit-IsDurable, recover_all-IsDurable,
}
use asmodeus.AuditStore.Log.{is_whole, is_one_line}
use asmodeus.AuditStore.{Write, AuditStore, StoreError, load, append, update, recover_incomplete}
use asmodeus.Telemetry.Audit.{AuditRecord, get, from_jsonl, is_terminal}
use asmodeus.Prelude.{
  ◌≡◌, All, true, refl, ap, ◌∙◌, arith, false, not, some, List, [], ◌∷◌, Text, nat_eq, length, trim,
  filter, Result, ok, >>=-eq-ok,
}

-- What may be asked of the store, with what becomes of the write to the disk.
pub data Commit : Type 0 where
  appending : Write → AuditRecord → Commit
  updating : Write → Text → (AuditRecord → Result StoreError AuditRecord) → Commit
  recovering :
      Text → (AuditRecord → Result StoreError (Text × Text)) → (AuditRecord → Write) → Commit

-- The store after a request.
unfoldable pub after : (AuditRecord → Text) → Commit → AuditStore → AuditStore
after to_line (appending w r) store = (append to_line w r store).0
after to_line (updating w run_id change) store = (update to_line w run_id change store).0
after to_line (recovering now signature w) store =
    (recover_incomplete to_line now signature w store).0

unfoldable pub after_all : (AuditRecord → Text) → List Commit → AuditStore → AuditStore
unfolding after
after_all to_line [] store = store
after_all to_line (c ∷ cs) store = after_all to_line cs (after to_line c store)

-- Each write of the request that fails is undone.
unfoldable pub KeepsLog : Commit → Type 0
KeepsLog (appending w r) = is_torn w ≡ false
KeepsLog (updating w run_id change) = is_torn w ≡ false
KeepsLog (recovering now signature w) = (r : AuditRecord) → is_torn (w r) ≡ false

module _ {E : Type 0} (from_str : Text → Result E AuditRecord) (to_line : AuditRecord → Text)
    (decodes : (r : AuditRecord) → from_str (trim (to_line r)) ≡ ok r)
    (not_blank : (r : AuditRecord) → nat_eq (length (trim (to_line r))) 0 ≡ false)
    (one_line : (r : AuditRecord) → is_one_line (to_line r) ≡ true) where
  after-IsDurable :
      (c : Commit) (store : AuditStore)
      → KeepsLog c
      → IsDurable from_str to_line decodes not_blank one_line store
      → IsDurable from_str to_line decodes not_blank one_line (after to_line c store)
  unfolding after recover_incomplete update KeepsLog
  after-IsDurable (appending w r) store k h =
      append-IsDurable from_str to_line decodes not_blank one_line w r store k h
  after-IsDurable (updating w run_id change) store k h =
      commit-IsDurable from_str to_line decodes not_blank one_line w run_id change
        (get run_id store.trail) store k h refl
  after-IsDurable (recovering now signature w) store k h =
      recover_all-IsDurable from_str to_line decodes not_blank one_line now signature w
        (filter (λ r. not (is_terminal r)) store.trail.records) store k
        (filter-AllPresent (λ r. not (is_terminal r)) store.trail.records) h

  after_all-IsDurable :
      (cs : List Commit) (store : AuditStore)
      → All KeepsLog cs
      → IsDurable from_str to_line decodes not_blank one_line store
      → IsDurable from_str to_line decodes not_blank one_line (after_all to_line cs store)
  unfolding after_all
  after_all-IsDurable [] store k h = h
  after_all-IsDurable (c ∷ cs) store k h =
      after_all-IsDurable cs (after to_line c store) k.1 (after-IsDurable c store k.0 h)

  load-IsDurable :
      (before : Text) (store : AuditStore)
      → is_whole before ≡ true
      → load from_str (some before) ≡ ok store
      → IsDurable from_str to_line decodes not_blank one_line store
  unfolding load IsDurable
  load-IsDurable before store whole e bytes f =
      let (trail, q, k) = >>=-eq-ok (from_jsonl from_str before) _ e in
      let same : bytes ≡ before = ground arith in
      let is : trail ≡ store.trail = ground arith in rw same (whole, q ∙ ap ok is)

  -- A store that was loaded from a log whose last line is ended, or that is empty, and has seen any
  -- appends, updates and recoveries, holds the trail that a restart loads from the bytes of the log as
  -- they then are, and the last line of the log is ended. Any of the writes may have failed, if the
  -- log got its old length back.
  pub reload_lem :
      (before bytes : Text) (store : AuditStore) (cs : List Commit)
      → is_whole before ≡ true
      → All KeepsLog cs
      → load from_str (some before) ≡ ok store
      → (after_all to_line cs store).file ≡ some bytes
      → (is_whole bytes ≡ true)
        × (from_jsonl from_str bytes ≡ ok (after_all to_line cs store).trail)
  unfolding IsDurable
  reload_lem before bytes store cs whole kept e f =
      after_all-IsDurable cs store kept (load-IsDurable before store whole e) bytes f
