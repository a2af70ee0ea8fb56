-- ===== src/Dsl/Scope.antt =====
-- crates/asmodeus-dsl/src/lib.rs: the file system that an action may touch.
pub mod Resolve
use asmodeus.Prelude.{
  ℕ, ◌≡◌, Bool, true, false, ◌||◌, List, [], ◌∷◌, reverse, if◌then◌else◌, Text, text, any,
  starts_with, split, ◌==◌, Text_eq, nat_eq, text_eq,
}

-- `CANARY_PREFIXES`.
abbrev pub canary_prefixes : List Text
canary_prefixes = text "/var/tmp/asmodeus-canary/" ∷ text "/tmp/asmodeus-canary/" ∷ []

unfoldable pub drop_leading : ℕ → Text → Text
drop_leading sep [] = []
drop_leading sep (c ∷ s) = if nat_eq c sep then drop_leading sep s else c ∷ s

-- `str::trim_end_matches` of one character.
unfoldable pub trim_end_matches : ℕ → Text → Text
unfolding drop_leading
trim_end_matches sep s = reverse (drop_leading sep (reverse s))

-- `path_in_scope`.
unfoldable pub path_in_scope : Text → Bool
path_in_scope path =
    if any (λ component. component == text "..") (split b'/' path)
    then false
    else let trimmed = trim_end_matches b'/' path in
      trimmed == text "/var/tmp/asmodeus-canary"
      || trimmed == text "/tmp/asmodeus-canary"
      || any (λ p. starts_with path p) canary_prefixes
