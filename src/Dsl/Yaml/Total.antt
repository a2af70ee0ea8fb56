-- ===== src/Dsl/Yaml/Total.antt =====
-- crates/asmodeus-dsl/src/manifest.rs: the translator ends on every text, and its objects have no key
-- twice.
use asmodeus.Dsl.Json.{
  Value, null, boolean, pos_int, neg_int, float, string, array, object, Values, no_values, value,
  Fields, no_fields, field, get_field,
}
use asmodeus.Dsl.Yaml.{
  Line, Parsed, YamlError, duplicate_key, empty_input, is_quoted, negated, positive, parse_i64,
  finite_or, int_or, child_indent, inserted, parse_scalar_value, stored, after_child, child_block,
  pair, round, parse_yaml_map, whole, translate, parse_yaml_to_json_value, lines_of,
}
use asmodeus.Prelude.{
  ℕ, zero, suc, ◌/◌, ◌%◌, ◌^◌, ◌≤◌, ◌<◌, ◌≡◌, refl, subst, ◌⊎◌, arith, Bool, true, false, ◌&&◌,
  ◌||◌, Option, none, some, List, [], ◌∷◌, Text, text, text_eq, trim, length, nat_eq, ltb, leb,
  split_once, split, inl, inr, Bool-cases, Option-cases, Result, ok, err, if◌then◌else◌,
}

unfoldable mutual
  pub WellKeyed : Value → Type 0
  WellKeyed null = Unit
  WellKeyed (boolean b) = Unit
  WellKeyed (pos_int n) = Unit
  WellKeyed (neg_int n) = Unit
  WellKeyed (float n) = Unit
  WellKeyed (string s) = Unit
  WellKeyed (array vs) = AllKeyed vs
  WellKeyed (object fs) = IsDistinct fs

  pub AllKeyed : Values → Type 0
  AllKeyed no_values = Unit
  AllKeyed (value v vs) = WellKeyed v × AllKeyed vs

  pub IsDistinct : Fields → Type 0
  IsDistinct no_fields = Unit
  IsDistinct (field k v fs) = (get_field k fs ≡ none) × WellKeyed v × IsDistinct fs

ok_injective : (v w : Value) → ◌≡◌ {A = Result YamlError Value} (ok v) (ok w) → v ≡ w
ok_injective v w e = cc

-- An answer that leaves at most `n` lines.
Settles : ℕ → Option Parsed → Type 0
Settles n none = ⊥
Settles n (some (err e)) = Unit
Settles n (some (ok (fs, rest))) = IsDistinct fs × (length rest ≤ n)

Settles-le : (m n : ℕ) (r : Option Parsed) → m ≤ n → Settles m r → Settles n r
unfolding Settles
Settles-le m n none h s = s
Settles-le m n (some (err e)) h s = tt
Settles-le m n (some (ok (fs, rest))) h s = (s.0, omega (arith, s.1))

inserted-cases :
    (key : Text) (v : Value) (fs : Fields)
    → WellKeyed v
    → IsDistinct fs
    → ((e : YamlError) × (inserted key v fs ≡ err e))
      ⊎ ((gs : Fields) × (inserted key v fs ≡ ok gs) × IsDistinct gs)
unfolding inserted IsDistinct
inserted-cases key v fs hv hf = elim (Option-cases (get_field key fs)) [
  | inl absent ↦ inr (field key v fs, rw absent refl, (absent, hv, hf))
  | inr (w, is) ↦ inl (duplicate_key key, rw is refl)
]

if-WellKeyed : (t : Bool) (v w : Value) → WellKeyed v → WellKeyed w → WellKeyed (if t then v else w)
if-WellKeyed true v w hv hw = hv
if-WellKeyed false v w hv hw = hw

int_or-WellKeyed : (v : Value) (n : Option ℕ) → WellKeyed v → WellKeyed (int_or v (positive n))
unfolding int_or positive WellKeyed
int_or-WellKeyed v none h = h
int_or-WellKeyed v (some n) h = tt

int_or-negated-WellKeyed :
    (v : Value) (n : Option ℕ) → WellKeyed v → WellKeyed (int_or v (negated n))
unfolding int_or negated WellKeyed
int_or-negated-WellKeyed v none h = h
int_or-negated-WellKeyed v (some zero) h = tt
int_or-negated-WellKeyed v (some (suc n)) h = tt

number-WellKeyed : (v : Value) (s : Text) → WellKeyed v → WellKeyed (int_or v (parse_i64 s))
unfolding parse_i64 int_or
number-WellKeyed v [] h = h
number-WellKeyed v (c ∷ []) h = int_or-WellKeyed v _ h
number-WellKeyed v (c ∷ d ∷ s) h = elim (Bool-cases (nat_eq c b'-')) [
  | inl t ↦ rw t (int_or-negated-WellKeyed v _ h)
  | inr t ↦ rw t (int_or-WellKeyed v _ h)
]

finite_or-WellKeyed : (s : Text) (bits : Option ℕ) → WellKeyed (finite_or s bits)
unfolding finite_or WellKeyed
finite_or-WellKeyed s none = tt
finite_or-WellKeyed s (some bits) = if-WellKeyed (nat_eq (bits / 2 ^ 52 % 2 ^ 11) 2047) _ _ tt tt

scalar-WellKeyed :
    (parse_f64 : Text → Option ℕ) (raw : Text) → WellKeyed (parse_scalar_value parse_f64 raw)
unfolding parse_scalar_value WellKeyed
scalar-WellKeyed parse_f64 raw =
    let s = trim raw in
    if-WellKeyed ((is_quoted b'"' s || is_quoted b'\'' s) && leb 2 (length s)) _ _ tt (
      if-WellKeyed (text_eq s (text "true")) _ _ tt (
        if-WellKeyed (text_eq s (text "false")) _ _ tt (
          if-WellKeyed (text_eq s (text "null")) _ _ tt (
            number-WellKeyed (finite_or s (parse_f64 s)) s (finite_or-WellKeyed s (parse_f64 s))))))

module _ (parse_f64 : Text → Option ℕ) (rec : ℕ → Fields → List Line → Option Parsed) (n : ℕ)
    (settles : (current : ℕ) (fs : Fields) (ls : List Line)
      → length ls ≤ n
      → IsDistinct fs
      → Settles (length ls) (rec current fs ls)) where
  stored-Settles :
      (current : ℕ) (rest : List Line) (key : Text) (v : Value) (fs : Fields)
      → length rest ≤ n
      → WellKeyed v
      → IsDistinct fs
      → Settles (length rest) (stored rec current rest (inserted key v fs))
  unfolding stored Settles
  stored-Settles current rest key v fs h hv hf = elim (inserted-cases key v fs hv hf) [
    | inl (e, is) ↦ rw is tt
    | inr (gs, is, d) ↦ rw is (settles current gs rest h d)
  ]

  after_child-Settles :
      (current : ℕ) (key : Text) (fs : Fields) (r : Option Parsed) (k : ℕ)
      → k ≤ n
      → IsDistinct fs
      → Settles k r
      → Settles k (after_child rec current key fs r)
  unfolding after_child Settles WellKeyed
  after_child-Settles current key fs none k h d s = s
  after_child-Settles current key fs (some (err e)) k h d s = tt
  after_child-Settles current key fs (some (ok (child, rest))) k h d s =
      Settles-le (length rest) k _ s.1
        (stored-Settles current rest key (object child) fs (omega (arith, s.1)) s.0 d)

  child_block-Settles :
      (current : ℕ) (key : Text) (fs : Fields) (ls : List Line) (indent : Option ℕ)
      → length ls ≤ n
      → IsDistinct fs
      → Settles (length ls) (child_block rec current key fs ls indent)
  unfolding child_block WellKeyed IsDistinct
  child_block-Settles current key fs ls none h d = stored-Settles current ls key null fs h tt d
  child_block-Settles current key fs ls (some i) h d =
      after_child-Settles current key fs (rec i no_fields ls) (length ls) h d
        (settles i no_fields ls h tt)

  pair-Settles :
      (current : ℕ) (fs : Fields) (l : Line) (ls : List Line) (kv : Option (Text × Text))
      → length ls ≤ n
      → IsDistinct fs
      → Settles (length ls) (pair parse_f64 rec current fs l ls kv)
  unfolding pair Settles
  pair-Settles current fs (indent, l) ls none h d = tt
  pair-Settles current fs (indent, l) ls (some (key, val)) h d =
      elim (Bool-cases (nat_eq (length (trim val)) 0)) [
        | inl t ↦ rw t (child_block-Settles current (trim key) fs ls (child_indent indent ls) h d)
        | inr t ↦ rw t (
            stored-Settles current ls (trim key) (parse_scalar_value parse_f64 (trim val)) fs h
              (scalar-WellKeyed parse_f64 (trim val)) d)
      ]

  round-Settles :
      (current : ℕ) (fs : Fields) (ls : List Line)
      → length ls ≤ suc n
      → IsDistinct fs
      → Settles (length ls) (round parse_f64 rec current fs ls)
  unfolding round Settles
  round-Settles current fs [] h d = (d, omega arith)
  round-Settles current fs ((indent, l) ∷ ls) h d = elim (Bool-cases (ltb indent current)) [
    | inl t ↦ rw t (d, omega arith)
    | inr t ↦ elim (Bool-cases (ltb current indent)) [
      | inl t' ↦ rw (t, t') tt
      | inr t' ↦
          rw (t, t')
            (Settles-le (length ls) (suc (length ls)) _ (omega arith)
              (pair-Settles current fs (indent, l) ls (split_once b':' l) (omega arith) d))
    ]
  ]

parse_yaml_map-Settles :
    (parse_f64 : Text → Option ℕ) (fuel current : ℕ) (fs : Fields) (ls : List Line)
    → length ls < fuel
    → IsDistinct fs
    → Settles (length ls) (parse_yaml_map parse_f64 fuel current fs ls)
unfolding parse_yaml_map round Settles IsDistinct
parse_yaml_map-Settles parse_f64 zero current fs ls h d = absurd (omega arith)
parse_yaml_map-Settles parse_f64 (suc fuel) current fs [] h d = (d, omega arith)
parse_yaml_map-Settles parse_f64 (suc fuel) current fs (l ∷ ls) h d =
    round-Settles parse_f64 (parse_yaml_map parse_f64 fuel) (length ls)
      (λ c gs ms q k. parse_yaml_map-Settles parse_f64 fuel c gs ms (omega arith) k) current fs
      (l ∷ ls) (omega arith) d

whole-Settles :
    (n : ℕ) (r : Option Parsed)
    → Settles n r
    → (q : Result YamlError Value) × (whole r ≡ some q) × ((v : Value) → q ≡ ok v → WellKeyed v)
unfolding whole Settles WellKeyed
whole-Settles n none s = elim s [ ]
whole-Settles n (some (err e)) s = (err e, refl, λ v h. cc)
whole-Settles n (some (ok (fs, rest))) s =
    (ok (object fs), refl, λ v h. subst WellKeyed (ok_injective (object fs) v h) s.0)

translate-WellKeyed :
    (parse_f64 : Text → Option ℕ) (ls : List Line)
    → (q : Result YamlError Value) × (translate parse_f64 ls ≡ some q)
      × ((v : Value) → q ≡ ok v → WellKeyed v)
unfolding translate IsDistinct
translate-WellKeyed parse_f64 [] = (err empty_input, refl, λ v h. cc)
translate-WellKeyed parse_f64 (l ∷ ls) =
    whole-Settles (length (l ∷ ls)) _ (
      parse_yaml_map-Settles parse_f64 (suc (length (l ∷ ls))) 0 no_fields (l ∷ ls) (omega arith)
        tt)

-- The translator answers every text, with an error or with a value in which no object has a key
-- twice.
pub parse_yaml_answers :
    (parse_f64 : Text → Option ℕ) (s : Text)
    → (q : Result YamlError Value) × (parse_yaml_to_json_value parse_f64 s ≡ some q)
      × ((v : Value) → q ≡ ok v → WellKeyed v)
unfolding parse_yaml_to_json_value
parse_yaml_answers parse_f64 s = translate-WellKeyed parse_f64 (lines_of (split b'\n' s))
