-- ===== src/Dsl/Yaml.antt =====
-- crates/asmodeus-dsl/src/manifest.rs: the translator of indented key-value lines to JSON. The parse
-- of a float, to its 64 bits, is a parameter.
pub mod Total
use asmodeus.Dsl.Json.{
  Value, null, boolean, pos_int, neg_int, float, string, object, Fields, no_fields, field,
  get_field,
}
use asmodeus.Prelude.{
  ℕ, zero, suc, ◌+◌, ◌-◌, ◌/◌, ◌%◌, ◌^◌, Bool, true, false, ◌&&◌, ◌||◌, not, Option, none, some,
  List, [], ◌∷◌, Text, text, text_eq, trim, trim_start, starts_with, reverse, length, take, drop,
  nat_eq, ltb, leb, is_some, is_digit, split, split_once, digits_from, parse_unsigned, Result, ok,
  err, ◌>>=◌, if◌then◌else◌,
}

pub data YamlError : Type 0 where
  empty_input : YamlError
  unexpected_indentation expected_pair duplicate_key : Text → YamlError

-- `str::ends_with` of one character.
unfoldable pub ends_with : Text → ℕ → Bool
ends_with s c = starts_with (reverse s) (c ∷ [])

unfoldable pub is_quoted : ℕ → Text → Bool
is_quoted q s = starts_with s (q ∷ []) && ends_with s q

unfoldable pub negated : Option ℕ → Option Value
negated none = none
negated (some zero) = some (pos_int 0)
negated (some (suc n)) = some (neg_int n)

unfoldable pub positive : Option ℕ → Option Value
positive none = none
positive (some n) = some (pos_int n)

-- `str::parse::<i64>`.
unfoldable pub parse_i64 : Text → Option Value
parse_i64 [] = none
parse_i64 (c ∷ []) = positive (parse_unsigned (2 ^ 63 - 1) (c ∷ []))
parse_i64 (c ∷ d ∷ s) =
    if nat_eq c b'-'
    then negated (digits_from (2 ^ 63) 0 (d ∷ s))
    else positive (parse_unsigned (2 ^ 63 - 1) (c ∷ d ∷ s))

-- `Number::from_f64`: a float is a number if its exponent is not full.
unfoldable pub finite_or : Text → Option ℕ → Value
finite_or s none = string s
finite_or s (some bits) = if nat_eq (bits / 2 ^ 52 % 2 ^ 11) 2047 then string s else float bits

unfoldable pub int_or : Value → Option Value → Value
int_or other none = other
int_or other (some v) = v

-- A line that counts, with its indentation.
abbrev pub Line : Type 0
Line = ℕ × Text

unfoldable pub lines_of : List Text → List Line
lines_of [] = []
lines_of (l ∷ ls) =
    if nat_eq (length (trim l)) 0 || starts_with (trim l) (text "#")
    then lines_of ls
    else (length l - length (trim_start l), trim l) ∷ lines_of ls

-- The indentation of the block below a key without a value, if there is one.
unfoldable pub child_indent : ℕ → List Line → Option ℕ
child_indent indent [] = none
child_indent indent ((i, l) ∷ ls) = if ltb indent i then some i else none

abbrev pub Parsed : Type 0
Parsed = Result YamlError (Fields × List Line)

unfoldable pub inserted : Text → Value → Fields → Result YamlError Fields
inserted key v fs =
    if is_some (get_field key fs) then err (duplicate_key key) else ok (field key v fs)

-- The rest of the loop, after the value of a key.
unfoldable pub stored :
    (ℕ → Fields → List Line → Option Parsed)
    → ℕ
    → List Line
    → Result YamlError Fields
    → Option Parsed
stored rec current rest (err e) = some (err e)
stored rec current rest (ok fs) = rec current fs rest

unfoldable pub after_child :
    (ℕ → Fields → List Line → Option Parsed) → ℕ → Text → Fields → Option Parsed → Option Parsed
after_child rec current key fs none = none
after_child rec current key fs (some (err e)) = some (err e)
after_child rec current key fs (some (ok (child, rest))) =
    stored rec current rest (inserted key (object child) fs)

unfoldable pub child_block :
    (ℕ → Fields → List Line → Option Parsed)
    → ℕ
    → Text
    → Fields
    → List Line
    → Option ℕ
    → Option Parsed
child_block rec current key fs ls none = stored rec current ls (inserted key null fs)
child_block rec current key fs ls (some indent) =
    after_child rec current key fs (rec indent no_fields ls)

unfoldable pub whole : Option Parsed → Option (Result YamlError Value)
whole none = none
whole (some (err e)) = some (err e)
whole (some (ok (fs, rest))) = some (ok (object fs))

module _ (parse_f64 : Text → Option ℕ) where
  unfoldable pub parse_scalar_value : Text → Value
  parse_scalar_value raw =
      let s = trim raw in
      if (is_quoted b'"' s || is_quoted b'\'' s) && leb 2 (length s)
      then string (take (length s - 2) (drop 1 s))
      else (if text_eq s (text "true")
          then boolean true
          else (if text_eq s (text "false")
              then boolean false
              else (if text_eq s (text "null")
                  then null
                  else int_or (finite_or s (parse_f64 s)) (parse_i64 s))))

  unfoldable pub pair :
      (ℕ → Fields → List Line → Option Parsed)
      → ℕ
      → Fields
      → Line
      → List Line
      → Option (Text × Text)
      → Option Parsed
  pair rec current fs (indent, l) ls none = some (err (expected_pair l))
  pair rec current fs (indent, l) ls (some (key, val)) =
      if nat_eq (length (trim val)) 0
      then child_block rec current (trim key) fs ls (child_indent indent ls)
      else stored rec current ls (inserted (trim key) (parse_scalar_value (trim val)) fs)

  -- One round of the loop of `parse_yaml_map`, on the lines from the index on.
  unfoldable pub round :
      (ℕ → Fields → List Line → Option Parsed) → ℕ → Fields → List Line → Option Parsed
  round rec current fs [] = some (ok (fs, []))
  round rec current fs ((indent, l) ∷ ls) =
      if ltb indent current
      then some (ok (fs, (indent, l) ∷ ls))
      else (if ltb current indent
          then some (err (unexpected_indentation l))
          else pair rec current fs (indent, l) ls (split_once b':' l))

  -- `parse_yaml_map`; `none` is out of fuel.
  unfoldable pub parse_yaml_map : ℕ → ℕ → Fields → List Line → Option Parsed
  parse_yaml_map zero current fs ls = none
  parse_yaml_map (suc fuel) current fs ls = round (parse_yaml_map fuel) current fs ls

  unfoldable pub translate : List Line → Option (Result YamlError Value)
  translate [] = some (err empty_input)
  translate (l ∷ ls) = whole (parse_yaml_map (suc (length (l ∷ ls))) 0 no_fields (l ∷ ls))

  -- `parse_yaml_to_json_value`.
  unfoldable pub parse_yaml_to_json_value : Text → Option (Result YamlError Value)
  parse_yaml_to_json_value s = translate (lines_of (split b'\n' s))
