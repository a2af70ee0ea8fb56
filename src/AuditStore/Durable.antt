-- ===== src/AuditStore/Durable.antt =====
-- crates/asmodeus-control-plane/src/audit_store.rs: each commit leaves the file in step with memory.
use asmodeus.AuditStore.Present.{
  get-some, append_record-upsert, update_record-upsert, AllPresent, upsert-AllPresent,
}
use asmodeus.AuditStore.Log.{is_whole, is_one_line, lines-append, append-is_whole}
use asmodeus.AuditStore.{
  AuditStore, StoreError, Write, written, rolled_back, torn, append_to_file, and_then, persist,
  publish_new, append, publish, published, commit_changed, commit, sign, interrupted,
  recover_signed, recover_one, recover_all,
}
use asmodeus.Telemetry.Audit.{AuditRecord, AuditTrail, get, position, lines, from_jsonl}
use asmodeus.Telemetry.Replay.{upsert, from_lines-snoc}
use asmodeus.Prelude.{
  Bool-cases, inl, inr, ℕ, ◌≡◌, refl, sym, ap, ◌∙◌, subst, arith, Bool, true, false, Option, none,
  some, is_some, List, [], ◌∷◌, ◌++◌, Text, text_eq, text_eq_iff, nat_eq, length, trim, Result, ok,
  err, >>=-eq-ok,
}

sign-run_id :
    (signature : AuditRecord → Result StoreError (Text × Text)) (r s : AuditRecord)
    → sign signature r ≡ ok s
    → s.run_id ≡ r.run_id
unfolding sign
sign-run_id signature r s e = let (hex, drawn, k) = >>=-eq-ok (signature r) _ e in ground (arith, k)

-- A write that is not made is undone.
unfoldable pub is_torn : Write → Bool
is_torn written = false
is_torn rolled_back = false
is_torn (torn n) = true

module _ {E : Type 0} (from_str : Text → Result E AuditRecord) (to_line : AuditRecord → Text)
    (decodes : (r : AuditRecord) → from_str (trim (to_line r)) ≡ ok r)
    (not_blank : (r : AuditRecord) → nat_eq (length (trim (to_line r))) 0 ≡ false)
    (one_line : (r : AuditRecord) → is_one_line (to_line r) ≡ true) where
  -- The file, where there is one, loads as the trail in memory.
  unfoldable pub IsDurable : AuditStore → Type 0
  IsDurable store =
      (bytes : Text)
      → store.file ≡ some bytes
      → (is_whole bytes ≡ true) × (from_jsonl from_str bytes ≡ ok store.trail)

  appended-IsDurable :
      (bytes : Text) (r : AuditRecord) (trail : AuditTrail)
      → (is_whole bytes ≡ true) × (from_jsonl from_str bytes ≡ ok trail)
      → let next = bytes ++ to_line r ++ b'\n' ∷ [] in
        (is_whole next ≡ true)
        × (from_jsonl from_str next ≡ ok (record { records = upsert r trail.records }))
  unfolding from_jsonl
  appended-IsDurable bytes r trail (whole, loads) = (
    append-is_whole bytes (to_line r),
    rw (lines-append bytes (to_line r) whole (one_line r))
        (from_lines-snoc from_str to_line decodes not_blank (lines bytes) r trail loads),
  )

  -- A write that succeeds has taken in the revision, and one that fails has changed nothing.
  unfoldable Persists :
      AuditRecord → AuditStore → Option Text × Result StoreError (Unit {0}) → Type 0
  Persists r store (file, ok u) =
      (bytes : Text)
      → file ≡ some bytes
      → (is_whole bytes ≡ true)
        × (from_jsonl from_str bytes ≡ ok (record { records = upsert r store.trail.records }))
  Persists r store (file, err e) = file ≡ store.file

  persist-Persists :
      (w : Write) (r : AuditRecord) (store : AuditStore)
      → is_torn w ≡ false
      → IsDurable store
      → Persists r store (persist to_line w r store.file)
  unfolding IsDurable persist append_to_file is_torn Persists
  persist-Persists w r store t h = go w store.file refl t
    where
      go :
          (w : Write) (q : Option Text)
          → store.file ≡ q
          → is_torn w ≡ false
          → Persists r store (persist to_line w r q)
      go w none a t = λ bytes e. absurd (ground arith)
      go written (some before) a t = λ bytes e.
          let is : before ++ to_line r ++ b'\n' ∷ [] ≡ bytes = ground arith in
          subst
            (λ b.
              (is_whole b ≡ true)
              × (from_jsonl from_str b ≡ ok (record { records = upsert r store.trail.records })))
            is (appended-IsDurable before r store.trail (h before a))
      go rolled_back (some before) a t = sym a
      go (torn n) (some before) a t = cc

  -- The store with the file of a write that has failed.
  failed-IsDurable :
      (file : Option Text) (store : AuditStore)
      → file ≡ store.file
      → IsDurable store
      → IsDurable (record store { file = file })
  unfolding IsDurable
  failed-IsDurable file store e h bytes f = h bytes (sym e ∙ f)

  publish_new-IsDurable :
      (r : AuditRecord) (store : AuditStore) (p : Option Text × Result StoreError (Unit {0}))
      → get r.run_id store.trail ≡ none
      → Persists r store p
      → IsDurable store
      → IsDurable (publish_new to_line r store p).0
  unfolding publish_new Persists IsDurable
  publish_new-IsDurable r store (file, err e) fresh p h = failed-IsDurable file store p h
  publish_new-IsDurable r store (file, ok u) fresh p h =
      λ bytes f. rw (append_record-upsert r store.trail fresh) (p bytes f)

  pub append-IsDurable :
      (w : Write) (r : AuditRecord) (store : AuditStore)
      → is_torn w ≡ false
      → IsDurable store
      → IsDurable (append to_line w r store).0
  unfolding append
  append-IsDurable w r store t h = elim (Bool-cases (is_some (get r.run_id store.trail))) [
    | inl e ↦ rw e h
    | inr e ↦ rw e (
        publish_new-IsDurable r store (persist to_line w r store.file) (ground arith)
          (persist-Persists w r store t h) h)
  ]

  published-IsDurable :
      {B : Type 0} (b : B) (old r : AuditRecord) (store : AuditStore) (n : ℕ)
      (p : Option Text × Result StoreError (Unit {0}))
      → position r.run_id store.trail.records ≡ some n
      → Persists r store p
      → IsDurable store
      → IsDurable (published to_line b old r store p).0
  unfolding published publish Persists IsDurable
  published-IsDurable b old r store n (file, err e) at p h = failed-IsDurable file store p h
  published-IsDurable b old r store n (file, ok u) at p h =
      λ bytes f. rw (update_record-upsert r store.trail n at) (p bytes f)

  pub commit-IsDurable :
      (w : Write) (run_id : Text) (change : AuditRecord → Result StoreError AuditRecord)
      (found : Option AuditRecord) (store : AuditStore)
      → is_torn w ≡ false
      → IsDurable store
      → get run_id store.trail ≡ found
      → IsDurable (commit to_line w run_id change found store).0
  unfolding commit commit_changed
  commit-IsDurable w run_id change none store t h at = h
  commit-IsDurable w run_id change (some old) store t h at = go (change old)
    where
      go :
          (q : Result StoreError AuditRecord)
          → IsDurable (commit_changed to_line w run_id old q store).0
      go (err e) = h
      go (ok r) = elim (Bool-cases (text_eq r.run_id run_id)) [
        | inl e ↦
            let is = (text_eq_iff r.run_id run_id).0 e in
            let (n, q) = get-some run_id store.trail.records old at in
            rw e (
              published-IsDurable (some r) old r store n (persist to_line w r store.file)
                (subst (λ i. position i store.trail.records ≡ some n) (sym is) q)
                (persist-Persists w r store t h) h)
        | inr e ↦ rw e h
      ]

  publish-records :
      (old r : AuditRecord) (store : AuditStore) (file : Option Text) (n : ℕ)
      → position r.run_id store.trail.records ≡ some n
      → (publish to_line old r file store).trail.records ≡ upsert r store.trail.records
  unfolding publish
  publish-records old r store file n at =
      ap (λ (t : AuditTrail). t.records) (update_record-upsert r store.trail n at)

  -- A recovery that goes on has taken in a revision of the run of `old`.
  unfoldable GoesOn : AuditRecord → AuditStore → AuditStore × Result StoreError (Unit {0}) → Type 0
  GoesOn old store (next, ok u) =
      (r : AuditRecord) × (r.run_id ≡ old.run_id)
      × (next.trail.records ≡ upsert r store.trail.records)
  GoesOn old store (next, err e) = Unit

  published-GoesOn :
      (old r : AuditRecord) (store : AuditStore) (n : ℕ)
      (p : Option Text × Result StoreError (Unit {0}))
      → r.run_id ≡ old.run_id
      → position r.run_id store.trail.records ≡ some n
      → GoesOn old store (published to_line tt old r store p)
  unfolding published GoesOn
  published-GoesOn old r store n (file, err e) is at = tt
  published-GoesOn old r store n (file, ok u) is at = (r, is, publish-records old r store file n at)

  recover_one-IsDurable :
      (now : Text) (signature : AuditRecord → Result StoreError (Text × Text)) (w : Write)
      (old : AuditRecord) (store : AuditStore) (n : ℕ)
      → is_torn w ≡ false
      → IsDurable store
      → position old.run_id store.trail.records ≡ some n
      → let next = recover_one to_line now signature w old store in
        IsDurable next.0 × GoesOn old store next
  unfolding recover_one recover_signed interrupted GoesOn
  recover_one-IsDurable now signature w old store n t h at =
      go (sign signature (interrupted now old)) refl
    where
      go :
          (q : Result StoreError AuditRecord)
          → sign signature (interrupted now old) ≡ q
          → let next = recover_signed to_line w old q store in
            IsDurable next.0 × GoesOn old store next
      go (err e) s = (h, tt)
      go (ok r) s =
          let is = sign-run_id signature (interrupted now old) r s in
          let place = subst (λ i. position i store.trail.records ≡ some n) (sym is) at in
          (
            published-IsDurable tt old r store n (persist to_line w r store.file) place
                (persist-Persists w r store t h) h,
            published-GoesOn old r store n (persist to_line w r store.file) is place,
          )

  pub recover_all-IsDurable :
      (now : Text) (signature : AuditRecord → Result StoreError (Text × Text))
      (w : AuditRecord → Write) (rs : List AuditRecord) (store : AuditStore)
      → ((r : AuditRecord) → is_torn (w r) ≡ false)
      → AllPresent rs store.trail.records
      → IsDurable store
      → IsDurable (recover_all to_line now signature w rs store).0
  unfolding recover_all GoesOn
  recover_all-IsDurable now signature w [] store t present h = h
  recover_all-IsDurable now signature w (old ∷ rs) store t present h =
      let (durable, on) =
        recover_one-IsDurable now signature (w old) old store present.0.0 (t old) h present.0.1 in
      go (recover_one to_line now signature (w old) old store) durable on
        (λ next p k. recover_all-IsDurable now signature w rs next t p k)
    where
      go :
          (q : AuditStore × Result StoreError (Unit {0}))
          → IsDurable q.0
          → GoesOn old store q
          → ((next : AuditStore)
              → AllPresent rs next.trail.records
              → IsDurable next
              → IsDurable (recover_all to_line now signature w rs next).0)
          → IsDurable (and_then to_line q (λ next. recover_all to_line now signature w rs next)).0
      go (next, ok u) durable (r, is, records) later =
          later next (rw records (upsert-AllPresent r rs store.trail.records present.1)) durable
      go (next, err x) durable on later = durable
