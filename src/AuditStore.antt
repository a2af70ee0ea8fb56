-- ===== src/AuditStore.antt =====
-- crates/asmodeus-control-plane/src/audit_store.rs, crates/asmodeus-telemetry/src/audit.rs: commits to the
-- audit trail. The JSON of a record (`to_line`, `from_str`) is of serde; what becomes of a write to the
-- disk and what the operator's signature makes of a record are arguments.
pub mod Log
pub mod Present
pub mod Durable
pub mod Reload
use asmodeus.Telemetry.Audit.{
  AuditRecord, RunEvidence, AuditTrail, get, append as append_record, update as update_record,
  from_jsonl, is_terminal,
}
use asmodeus.Telemetry.Aggregate.{Aggregate, from_records, record_run, update_run}
use asmodeus.Prelude.{
  ℕ, Bool, true, false, not, Option, none, some, List, [], ◌∷◌, ◌++◌, filter, take, Text, text,
  text_eq, Result, ok, err, ◌>>=◌, is_some, if◌then◌else◌,
}

pub data StoreError : Type 0 where
  already_exists invalid_input write_failed : StoreError
  other : Text → StoreError

-- `AuditStore` with its `Snapshot`; `file` holds the bytes of the log where a path is configured; a log that
-- is not there yet is an empty one.
pub record AuditStore : Type 0 where
  pub trail : AuditTrail
  pub aggregate : Aggregate
  pub file : Option Text

-- `AuditStore::load`, of the bytes of the file.
unfoldable pub load :
    {E : Type 0} → (Text → Result E AuditRecord) → Option Text → Result E AuditStore
load from_str none =
    ok (record { trail = record { records = [] }; aggregate = from_records []; file = none })
load from_str (some bytes) = do
  trail ← from_jsonl from_str bytes
  ok (record { trail = trail; aggregate = from_records trail.records; file = some bytes })

unfoldable pub unconfirmed : Option RunEvidence → Option RunEvidence
unconfirmed none = none
unconfirmed (some e) = some (record e {
  cleanup_confirmed = false;
  failure_reason = some (text "control-plane restarted before terminal acknowledgement");
})

-- What a restart makes of a record that is not terminal.
unfoldable pub interrupted : Text → AuditRecord → AuditRecord
interrupted now r = record r {
  status = text "INTERRUPTED";
  cleanup_status = text "UNCONFIRMED";
  evidence = unconfirmed r.evidence;
  timestamp_utc = now;
}

-- `AuditRecord::sign`, of the signature and the public key that the operator's key gives, in hex.
unfoldable pub sign :
    (AuditRecord → Result StoreError (Text × Text)) → AuditRecord → Result StoreError AuditRecord
sign signature r = do
  (signature_hex, public_key_hex) ← signature r
  ok (record r { signature_hex = signature_hex; public_key_hex = public_key_hex })

-- What becomes of the write of a revision: it is made; it fails and the file gets its old length back; or
-- that fails too, and some first bytes of the revision are left.
pub data Write : Type 0 where
  written rolled_back : Write
  torn : ℕ → Write

-- `AuditTrail::append_to_file`, of a line, at the end of the bytes.
unfoldable pub append_to_file : Write → Text → Text → Text × Result StoreError (Unit {0})
append_to_file written line bytes = (bytes ++ line ++ b'\n' ∷ [], ok tt)
append_to_file rolled_back line bytes = (bytes, err write_failed)
append_to_file (torn n) line bytes = (bytes ++ take n (line ++ b'\n' ∷ []), err write_failed)

module _ (to_line : AuditRecord → Text) where
  -- `AuditStore::persist`.
  unfoldable pub persist :
      Write → AuditRecord → Option Text → Option Text × Result StoreError (Unit {0})
  persist w r none = (none, ok tt)
  persist w r (some bytes) =
      let (next, answer) = append_to_file w (to_line r) bytes in (some next, answer)

  -- The store in which a new record has been published.
  unfoldable pub publish_new :
      AuditRecord
      → AuditStore
      → Option Text × Result StoreError (Unit {0})
      → AuditStore × Result StoreError (Unit {0})
  publish_new r store (file, err e) = (record store { file = file }, err e)
  publish_new r store (file, ok u) = (
    record {
      trail = append_record r store.trail;
      aggregate = record_run r store.aggregate;
      file = file;
    },
    ok tt,
  )

  -- `AuditStore::append`.
  unfoldable pub append :
      Write → AuditRecord → AuditStore → AuditStore × Result StoreError (Unit {0})
  append w r store =
      if is_some (get r.run_id store.trail)
      then (store, err already_exists)
      else publish_new r store (persist w r store.file)

  -- The store in which `r` has taken the place of `old`.
  unfoldable pub publish : AuditRecord → AuditRecord → Option Text → AuditStore → AuditStore
  publish old r file store = record {
    trail = (update_record r.run_id r store.trail).0;
    aggregate = update_run old r store.aggregate;
    file = file;
  }

  -- With the answer of the caller.
  unfoldable pub published {ℓ} :
      {B : Type ℓ}
      → B
      → AuditRecord
      → AuditRecord
      → AuditStore
      → Option Text × Result StoreError (Unit {0})
      → AuditStore × Result StoreError B
  published b old r store (file, err e) = (record store { file = file }, err e)
  published b old r store (file, ok u) = (publish old r file store, ok b)

  unfoldable pub commit_changed :
      Write
      → Text
      → AuditRecord
      → Result StoreError AuditRecord
      → AuditStore
      → AuditStore × Result StoreError (Option AuditRecord)
  commit_changed w run_id old (err e) store = (store, err e)
  commit_changed w run_id old (ok r) store =
      if not (text_eq r.run_id run_id)
      then (store, err invalid_input)
      else published (some r) old r store (persist w r store.file)

  unfoldable pub commit :
      Write
      → Text
      → (AuditRecord → Result StoreError AuditRecord)
      → Option AuditRecord
      → AuditStore
      → AuditStore × Result StoreError (Option AuditRecord)
  commit w run_id change none store = (store, ok none)
  commit w run_id change (some old) store = commit_changed w run_id old (change old) store

  -- `AuditStore::update`.
  unfoldable pub update :
      Write
      → Text
      → (AuditRecord → Result StoreError AuditRecord)
      → AuditStore
      → AuditStore × Result StoreError (Option AuditRecord)
  unfolding commit
  update w run_id change store = commit w run_id change (get run_id store.trail) store

  unfoldable pub recover_signed :
      Write
      → AuditRecord
      → Result StoreError AuditRecord
      → AuditStore
      → AuditStore × Result StoreError (Unit {0})
  recover_signed w old (err e) store = (store, err e)
  recover_signed w old (ok r) store = published tt old r store (persist w r store.file)

  -- One record of the loop of `recover_incomplete`.
  unfoldable pub recover_one :
      Text
      → (AuditRecord → Result StoreError (Text × Text))
      → Write
      → AuditRecord
      → AuditStore
      → AuditStore × Result StoreError (Unit {0})
  recover_one now signature w old store =
      recover_signed w old (sign signature (interrupted now old)) store

  -- `?` in the loop: a failure ends it with the store as it is.
  abbrev pub and_then :
      AuditStore × Result StoreError (Unit {0})
      → (AuditStore → AuditStore × Result StoreError (Unit {0}))
      → AuditStore × Result StoreError (Unit {0})
  and_then (next, ok u) rest = rest next
  and_then (store, err e) rest = (store, err e)

  -- The loop of `recover_incomplete` over the records, each with the outcome of its write; it ends at
  -- the first failure, and what is published stays.
  unfoldable pub recover_all :
      Text
      → (AuditRecord → Result StoreError (Text × Text))
      → (AuditRecord → Write)
      → List AuditRecord
      → AuditStore
      → AuditStore × Result StoreError (Unit {0})
  recover_all now signature w [] store = (store, ok tt)
  recover_all now signature w (old ∷ rs) store =
      and_then (recover_one now signature (w old) old store)
        (λ next. recover_all now signature w rs next)

  -- `AuditStore::recover_incomplete`.
  unfoldable pub recover_incomplete :
      Text
      → (AuditRecord → Result StoreError (Text × Text))
      → (AuditRecord → Write)
      → AuditStore
      → AuditStore × Result StoreError (Unit {0})
  recover_incomplete now signature w store =
      recover_all now signature w (filter (λ r. not (is_terminal r)) store.trail.records) store
