-- ===== src/Persistent/Transaction.antt =====
-- crates/asmodeus-control-plane/src/persistent.rs: an update is a transaction that a restart keeps.
use asmodeus.Persistent.{
  IoError, Snapshot, bytes_of, Persistent, Disk, loaded, load, exists, replace, write_changed, kept,
  saved, published, updated, update,
}
use asmodeus.Prelude.{
  ◌≡◌, ◌⊎◌, inl, inr, refl, subst, arith, Bool, true, false, ◌&&◌, Bool-cases, Option, none, some,
  Text, text_eq, text_eq_iff, Result, ok, err,
}

module _ {ℓ} {A : Type ℓ} (to_vec : A → Result IoError Text) (from_slice : Text → Result IoError A)
    (decodes : (a : A) (b : Text) → to_vec a ≡ ok b → from_slice b ≡ ok a) (fallback : A) where
  -- A restart gives the value, with the path as it is.
  unfoldable pub IsDurable : Persistent A → Type ℓ
  IsDurable s = load to_vec from_slice s.path fallback ≡ ok s

  replaced-loads :
      (writes : Bool) (bytes : Text) (f : Snapshot) (next : A)
      → from_slice bytes ≡ ok next
      → replace writes bytes ≡ ok f
      → load to_vec from_slice (some f) fallback ≡ ok (record { value = next; path = some f })
  unfolding load loaded replace
  replaced-loads true bytes f next h e =
      let is : bytes_of bytes ≡ f = cc in
      subst
        (λ x.
          load to_vec from_slice (some x) fallback ≡ ok (record { value = next; path = some x }))
        is (rw h refl)
  replaced-loads false bytes f next h e = cc

  -- The path that an update leaves loads as the next value.
  saved-loads :
      (disk : Disk) (value next : A) (file f : Snapshot)
      → load to_vec from_slice (some file) fallback
        ≡ ok (record { value = value; path = some file })
      → write_changed to_vec from_slice disk file (to_vec next) (to_vec value) ≡ ok f
      → load to_vec from_slice (some f) fallback ≡ ok (record { value = next; path = some f })
  unfolding load loaded write_changed exists replace
  saved-loads disk value next file f h e = go (to_vec next) (to_vec value) refl refl e
    where
      go :
          (p q : Result IoError Text)
          → to_vec next ≡ p
          → to_vec value ≡ q
          → write_changed to_vec from_slice disk file p q ≡ ok f
          → load to_vec from_slice (some f) fallback ≡ ok (record { value = next; path = some f })
      go (err x) q a b e = cc
      go (ok bytes) (err x) a b e = cc
      go (ok bytes) (ok previous) a b e =
          elim (Bool-cases (text_eq bytes previous && exists file)) [
            | inl t ↦
                let is = (text_eq_iff bytes previous).0 (ground arith) in
                let mine = decodes next bytes a in
                let theirs = decodes value previous b in
                let same : value ≡ next = cc in
                let unmoved : file ≡ f = cc (rw t at e) in
                subst
                  (λ v.
                    load to_vec from_slice (some f) fallback
                    ≡ ok (record { value = v; path = some f }))
                  same
                  (subst
                    (λ x.
                      load to_vec from_slice (some x) fallback
                      ≡ ok (record { value = value; path = some x }))
                    unmoved h)
            | inr t ↦ replaced-loads disk.writes bytes f next (decodes next bytes a) (rw t at e)
          ]

  -- What an update comes to: the next value, or nothing.
  unfoldable pub Commits :
      {R : Type 0} → A × Result IoError R → Persistent A → Persistent A × Result IoError R → Type ℓ
  Commits {R} (next, result) s (t, answer) =
      ((r : R) × (result ≡ ok r) × (answer ≡ ok r) × (t.value ≡ next))
      ⊎ ((e : IoError) × (answer ≡ err e) × (t ≡ s))

  published-Commits :
      {R : Type 0} (disk : Disk) (next : A) (r : R) (s : Persistent A) (file : Snapshot)
      → load to_vec from_slice (some file) fallback
        ≡ ok (record { value = s.value; path = some file })
      → IsDurable s
      → let after =
          published to_vec from_slice next r s
            (saved to_vec from_slice disk s.value next (some file)) in
        IsDurable after.0 × Commits (next, ok r) s after
  unfolding published saved kept IsDurable Commits
  published-Commits {R} disk next r s file h d =
      go disk.has_directory
        (write_changed to_vec from_slice disk file (to_vec next) (to_vec s.value))
        (λ f e. saved-loads disk s.value next file f h e)
    where
      go :
          (b : Bool) (w : Result IoError Snapshot)
          → ((f : Snapshot)
              → w ≡ ok f
              → load to_vec from_slice (some f) fallback
                ≡ ok (record { value = next; path = some f }))
          → let after = published to_vec from_slice next r s (kept b w) in
            IsDurable after.0 × Commits (next, ok r) s after
      go true (ok f) k = (k f refl, inl (r, refl, refl, refl))
      go true (err x) k = (d, inr (x, refl, refl))
      go false w k = (d, inr (_, refl, refl))

  -- Where a file is configured and a restart would give the value, a restart still gives the value after
  -- any update, whatever the disk does: an update that succeeds has the next value, and one that fails,
  -- in the change or on the disk, has changed neither the value nor the file. A text of the value must
  -- decode to it.
  pub update_lem :
      {R : Type 0} (disk : Disk) (change : A → A × Result IoError R) (s : Persistent A)
      (file : Snapshot)
      → s.path ≡ some file
      → IsDurable s
      → IsDurable (update to_vec from_slice disk change s).0
        × Commits (change s.value) s (update to_vec from_slice disk change s)
  unfolding update updated IsDurable Commits
  update_lem {R} disk change s file p h = go (change s.value)
    where
      go :
          (c : A × Result IoError R)
          → IsDurable (updated to_vec from_slice disk s c).0
            × Commits c s (updated to_vec from_slice disk s c)
      go (next, err e) = (h, inr (e, refl, refl))
      go (next, ok r) = at s.path refl p
        where
          at :
              (q : Option Snapshot)
              → s.path ≡ q
              → q ≡ some file
              → IsDurable
                  (published to_vec from_slice next r s
                    (saved to_vec from_slice disk s.value next q)).0
                × Commits
                    (next, ok r)
                    s
                    (published to_vec from_slice next r s
                      (saved to_vec from_slice disk s.value next q))
          at none e i = cc
          at (some f) e i =
              published-Commits disk next r s f
                (subst
                  (λ x.
                    load to_vec from_slice x fallback ≡ ok (record { value = s.value; path = x }))
                  e h)
                h
