-- ===== src/Prelude/Texts.antt =====
-- A `String` of the source is the list of its bytes; a literal is `text "…"`.
use Prim.Native.Char.{code}
use Prim.Native.Nat.{ℕ, ◌+◌, ◌*◌, ◌-◌, ◌≤◌}
use Prim.Native.String.{String}
use mathlib.Core.Path.{◌≡◌, refl}
use mathlib.Core.Logic.{◌↔◌}
use mathlib.Core.Bool.{Bool, true, false, ◌&&◌, ◌||◌}
use mathlib.Core.List.{List, [], ◌∷◌, map, reverse}
use mathlib.Core.Option.{Option, none, some}
use native.Mathlib.Omega.{arith}
use asmodeus.Prelude.Tests.{ltb, leb, nat_eq, if◌then◌else◌, Eq}

abbrev pub Text : Type 0
Text = List ℕ

abbrev pub text : String → Text
text String.[] = []
text (String.◌∷◌ c s) = code c ∷ text s

unfoldable pub text_eq : Text → Text → Bool
text_eq [] [] = true
text_eq [] (y ∷ ys) = false
text_eq (x ∷ xs) [] = false
text_eq (x ∷ xs) (y ∷ ys) = nat_eq x y && text_eq xs ys

pub text_eq_iff : (a b : Text) → (text_eq a b ≡ true) ↔ (a ≡ b)
unfolding text_eq
text_eq_iff [] [] = ground arith
text_eq_iff [] (y ∷ ys) = ground arith
text_eq_iff (x ∷ xs) [] = ground arith
text_eq_iff (x ∷ xs) (y ∷ ys) = ground (arith, text_eq_iff xs ys)

pub text_eq_refl : (a : Text) → text_eq a a ≡ true
text_eq_refl a = (text_eq_iff a a).1 refl

instance abbrev pub Text_eq : Eq Text
Text_eq = record { beq = text_eq; beq_iff = text_eq_iff }

-- `str::to_ascii_lowercase` of one byte.
unfoldable pub ascii_lower : ℕ → ℕ
ascii_lower c = if leb b'A' c && leb c b'Z' then c + 32 else c

unfoldable pub to_ascii_lowercase : Text → Text
unfolding ascii_lower
to_ascii_lowercase s = map ascii_lower s

unfoldable pub eq_ignore_ascii_case : Text → Text → Bool
unfolding to_ascii_lowercase text_eq
eq_ignore_ascii_case a b = text_eq (to_ascii_lowercase a) (to_ascii_lowercase b)

-- White space of `str::trim`, of the ASCII range: the source also removes the spaces of Unicode
-- beyond it, which no text of the model is trimmed of.
unfoldable pub is_space : ℕ → Bool
is_space c = nat_eq c 32 || (leb 9 c && leb c 13)

unfoldable pub trim_start : Text → Text
unfolding is_space
trim_start [] = []
trim_start (c ∷ s) = if is_space c then trim_start s else c ∷ s

unfoldable pub trim : Text → Text
unfolding trim_start
trim s = reverse (trim_start (reverse (trim_start s)))

unfoldable pub starts_with : Text → Text → Bool
starts_with s [] = true
starts_with [] (p ∷ ps) = false
starts_with (c ∷ s) (p ∷ ps) = nat_eq c p && starts_with s ps

-- `str::split` at one ASCII character: never empty.
unfoldable pub split_from : ℕ → Text → Text → List Text
split_from sep acc [] = reverse acc ∷ []
split_from sep acc (c ∷ s) =
    let cut = reverse acc ∷ split_from sep [] s in
    let on = split_from sep (c ∷ acc) s in if nat_eq c sep then cut else on

unfoldable pub split : ℕ → Text → List Text
unfolding split_from
split sep s = split_from sep [] s

-- The lexicographic order of `str::cmp`.
unfoldable pub text_lt : Text → Text → Bool
text_lt xs [] = false
text_lt [] (y ∷ ys) = true
text_lt (x ∷ xs) (y ∷ ys) = ltb x y || (nat_eq x y && text_lt xs ys)

-- `str::split_once` at one ASCII character.
unfoldable pub split_once : ℕ → Text → Option (Text × Text)
split_once sep [] = none
split_once sep (c ∷ s) =
    if nat_eq c sep
    then some ([], s)
    else elim (split_once sep s) [ none ↦ none | some (a, b) ↦ some (c ∷ a, b) ]

unfoldable pub is_digit : ℕ → Bool
is_digit c = leb b'0' c && leb c b'9'

unfoldable pub digits_from : ℕ → ℕ → Text → Option ℕ
unfolding is_digit
digits_from limit acc [] = some acc
digits_from limit acc (c ∷ s) =
    let v = acc * 10 + (c - b'0') in
    let rest = digits_from limit v s in
    if is_digit c then (if ltb limit v then none else rest) else none

-- `str::parse` of an unsigned type whose greatest value is `limit`: a sign `+` is accepted.
unfoldable pub parse_unsigned : ℕ → Text → Option ℕ
unfolding digits_from
parse_unsigned limit [] = none
parse_unsigned limit (c ∷ []) = digits_from limit 0 (c ∷ [])
parse_unsigned limit (c ∷ d ∷ s) = digits_from limit 0 (if nat_eq c b'+' then d ∷ s else c ∷ d ∷ s)

digits_from-le :
    (limit acc v : ℕ) (s : Text) → acc ≤ limit → digits_from limit acc s ≡ some v → v ≤ limit
unfolding digits_from
digits_from-le limit acc v [] h e = ground arith
digits_from-le limit acc v (c ∷ s) h e =
    ground (arith, digits_from-le limit (acc * 10 + (c - b'0')) v s)

pub parse_unsigned-le : (limit : ℕ) (s : Text) {v : ℕ} → parse_unsigned limit s ≡ some v → v ≤ limit
unfolding parse_unsigned
parse_unsigned-le limit [] e = cc
parse_unsigned-le limit (c ∷ []) {v} e = digits_from-le limit 0 v (c ∷ []) (omega arith) e
parse_unsigned-le limit (c ∷ d ∷ s) {v} e =
    digits_from-le limit 0 v (if nat_eq c b'+' then d ∷ s else c ∷ d ∷ s) (omega arith) e
