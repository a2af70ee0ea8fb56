-- ===== src/Witnesses/Snapshots.antt =====
-- A value with a snapshot, at a concrete input: a text is its own JSON.
use asmodeus.Persistent.{IoError, missing, Persistent, Disk, loaded, load, update}
use asmodeus.Persistent.Transaction.{IsDurable, Commits, update_lem}
use asmodeus.Prelude.{◌≡◌, refl, true, some, ◌++◌, Text, text, Result, ok}

abbrev to_vec : Text → Result IoError Text
to_vec t = ok t

abbrev from_slice : Text → Result IoError Text
from_slice t = ok t

decodes : (a b : Text) → to_vec a ≡ ok b → from_slice b ≡ ok a
decodes a b e = cc

abbrev seeded : Persistent Text
seeded = record { value = text "a"; path = some missing }

abbrev disk : Disk
disk = record { has_directory = true; writes = true }

-- The value grows, and the old one is the result.
abbrev grow : Text → Text × Result IoError Text
grow t = (t ++ text "b", ok t)

update_lem_example :
    IsDurable to_vec from_slice decodes (text "a") (update to_vec from_slice disk grow seeded).0
    × Commits to_vec from_slice decodes
        (text "a")
        (grow (text "a"))
        seeded
        (update to_vec from_slice disk grow seeded)
unfolding IsDurable load loaded
update_lem_example =
    update_lem to_vec from_slice decodes (text "a") disk grow seeded missing refl refl
