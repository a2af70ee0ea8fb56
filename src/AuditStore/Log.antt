-- ===== src/AuditStore/Log.antt =====
-- crates/asmodeus-telemetry/src/audit.rs: the lines of a log to which a revision is appended.
use asmodeus.Telemetry.Audit.{on_first, lines}
use asmodeus.Prelude.{
  ℕ, ◌≡◌, refl, arith, Bool, true, false, not, List, [], ◌∷◌, ◌++◌, Text, nat_eq, all, Bool-cases,
  inl, inr,
}

-- The log is empty, or its last line is ended.
unfoldable pub is_whole : Text → Bool
is_whole [] = true
is_whole (c ∷ []) = nat_eq c b'\n'
is_whole (c ∷ d ∷ s) = is_whole (d ∷ s)

unfoldable pub is_one_line : Text → Bool
is_one_line line = all (λ c. not (nat_eq c b'\n')) line

lines-line : (line : Text) → is_one_line line ≡ true → lines (line ++ b'\n' ∷ []) ≡ line ∷ []
unfolding lines is_one_line on_first
lines-line [] h = refl
lines-line (c ∷ line) h =
    let not_end : nat_eq c b'\n' ≡ false = ground arith in
    rw (not_end, lines-line line (ground arith)) refl

-- The lines of bytes that are not empty are not empty.
on_first-append :
    (c d : ℕ) (s line : Text)
    → on_first c (lines (d ∷ s) ++ line ∷ []) ≡ on_first c (lines (d ∷ s)) ++ line ∷ []
unfolding lines on_first
on_first-append c d s line = elim (Bool-cases (nat_eq d b'\n')) [
  | inl e ↦ rw e refl
  | inr e ↦ rw e (go (lines s))
]
  where
    go :
        (ls : List Text)
        → on_first c (on_first d ls ++ line ∷ []) ≡ on_first c (on_first d ls) ++ line ∷ []
    go [] = refl
    go (l ∷ ls) = refl

pub lines-append :
    (bytes line : Text)
    → is_whole bytes ≡ true
    → is_one_line line ≡ true
    → lines (bytes ++ line ++ b'\n' ∷ []) ≡ lines bytes ++ line ∷ []
unfolding lines is_whole on_first
lines-append [] line w h = lines-line line h
lines-append (c ∷ []) line w h = rw (w, lines-line line h) refl
lines-append (c ∷ d ∷ s) line w h = elim (Bool-cases (nat_eq c b'\n')) [
  | inl e ↦ rw (e, lines-append (d ∷ s) line w h) refl
  | inr e ↦ rw (e, lines-append (d ∷ s) line w h) (on_first-append c d s line)
]

pub append-is_whole : (bytes line : Text) → is_whole (bytes ++ line ++ b'\n' ∷ []) ≡ true
unfolding is_whole
append-is_whole [] [] = refl
append-is_whole [] (c ∷ []) = refl
append-is_whole [] (c ∷ d ∷ line) = append-is_whole [] (d ∷ line)
append-is_whole (c ∷ []) [] = refl
append-is_whole (c ∷ []) (d ∷ line) = append-is_whole [] (d ∷ line)
append-is_whole (c ∷ d ∷ s) line = append-is_whole (d ∷ s) line
