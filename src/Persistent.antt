-- ===== src/Persistent.antt =====
-- crates/asmodeus-control-plane/src/persistent.rs: a value with a snapshot of it in a file. The JSON of
-- serde (`to_vec`, `from_slice`) is a parameter, and what the file system does is an argument: a write
-- is made to a temporary file that takes the place of the snapshot only once it is whole.
pub mod Transaction
use asmodeus.Prelude.{
  Bool, true, false, ◌&&◌, Option, none, some, List, [], ◌∷◌, Text, text_eq, Result, ok, err,
  if◌then◌else◌,
}

pub data IoError : Type 0 where
  not_json read_failed no_directory write_failed : IoError
  of_update : Text → IoError

-- The snapshot of a path.
pub data Snapshot : Type 0 where
  missing unreadable : Snapshot
  bytes_of : Text → Snapshot

-- `path` is none where no file is configured.
pub record Persistent {ℓ} (A : Type ℓ) : Type ℓ where
  pub value : A
  pub path : Option Snapshot

-- Whether the directory is there or can be made, and whether the write and the rename succeed.
pub record Disk : Type 0 where
  pub has_directory : Bool
  pub writes : Bool

unfoldable pub exists : Snapshot → Bool
exists missing = false
exists unreadable = true
exists (bytes_of b) = true

unfoldable pub replace : Bool → Text → Result IoError Snapshot
replace true bytes = ok (bytes_of bytes)
replace false bytes = err write_failed

unfoldable pub kept : Bool → Result IoError Snapshot → Result IoError (Option Snapshot)
kept true (ok file) = ok (some file)
kept true (err e) = err e
kept false w = err no_directory

module _ {ℓ} {A : Type ℓ} (to_vec : A → Result IoError Text)
    (from_slice : Text → Result IoError A) where
  unfoldable pub loaded : Option Snapshot → Result IoError A → Result IoError (Persistent A)
  loaded path (err e) = err e
  loaded path (ok value) = ok (record { value = value; path = path })

  -- `Persistent::load`.
  unfoldable pub load : Option Snapshot → A → Result IoError (Persistent A)
  load none fallback = loaded none (ok fallback)
  load (some missing) fallback = loaded (some missing) (ok fallback)
  load (some unreadable) fallback = err read_failed
  load (some (bytes_of b)) fallback = loaded (some (bytes_of b)) (from_slice b)

  unfoldable pub write_changed :
      Disk → Snapshot → Result IoError Text → Result IoError Text → Result IoError Snapshot
  write_changed disk file (err e) previous = err e
  write_changed disk file (ok bytes) (err e) = err e
  write_changed disk file (ok bytes) (ok previous) =
      if text_eq bytes previous && exists file then ok file else replace disk.writes bytes

  -- What `update` does to the path before it publishes the next value.
  unfoldable pub saved : Disk → A → A → Option Snapshot → Result IoError (Option Snapshot)
  saved disk value next none = ok none
  saved disk value next (some file) =
      kept disk.has_directory (write_changed disk file (to_vec next) (to_vec value))

  module _ {κ} {R : Type κ} where
    unfoldable pub published :
        A → R → Persistent A → Result IoError (Option Snapshot) → Persistent A × Result IoError R
    published next result s (ok path) = (record { value = next; path = path }, ok result)
    published next result s (err e) = (s, err e)

    unfoldable pub updated :
        Disk → Persistent A → A × Result IoError R → Persistent A × Result IoError R
    updated disk s (next, err e) = (s, err e)
    updated disk s (next, ok result) = published next result s (saved disk s.value next s.path)

    -- `Persistent::update`, of a change that gives the next value and its own result.
    unfoldable pub update :
        Disk → (A → A × Result IoError R) → Persistent A → Persistent A × Result IoError R
    update disk change s = updated disk s (change s.value)
