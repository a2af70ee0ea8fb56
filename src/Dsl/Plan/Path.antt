-- ===== src/Dsl/Plan/Path.antt =====
-- `Path::starts_with` of the standard library, on Unix: by components.
use asmodeus.Prelude.{
  Bool, true, false, ◌&&◌, ◌||◌, not, List, [], ◌∷◌, Text, text, text_eq, split, filter,
  starts_with, length, nat_eq, if◌then◌else◌,
}

-- An empty component and a `.` are no components.
unfoldable pub is_component : Text → Bool
is_component c = not (nat_eq (length c) 0 || text_eq c (text "."))

-- A `.` counts at the front of a relative path.
unfoldable pub with_front : List Text → List Text
with_front [] = []
with_front (c ∷ cs) =
    if text_eq c (text ".") then text "." ∷ filter is_component cs else filter is_component (c ∷ cs)

-- `Path::components`, the root as `/`.
unfoldable pub components : Text → List Text
components path =
    if starts_with path (text "/")
    then text "/" ∷ filter is_component (split b'/' path)
    else with_front (split b'/' path)

unfoldable pub begins : List Text → List Text → Bool
begins cs [] = true
begins [] (d ∷ ds) = false
begins (c ∷ cs) (d ∷ ds) = text_eq c d && begins cs ds

unfoldable pub path_starts_with : Text → Text → Bool
path_starts_with path base = begins (components path) (components base)
