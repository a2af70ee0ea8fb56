-- ===== src/Dsl/Check/Parts.antt =====
-- crates/asmodeus-dsl/src/manifest.rs, execution.rs: what each check of a manifest leaves behind.
use asmodeus.Common.Category.{ActionNature, synthetic, operational, is_permitted}
use asmodeus.Dsl.Check.{ManifestValidationError, check_some}
use asmodeus.Dsl.Json.{Value, null, boolean, pos_int, neg_int, float, array, object, string, as_u64}
use asmodeus.Dsl.Manifest.{or_else}
use asmodeus.Dsl.Net.{
  net_target_in_scope, parse_ipv4_cidr, parse_octets, from_be_bytes, prefix_mask, block_holds,
}
use asmodeus.Dsl.Plan.{PlanError, in_range, number_of, number, iface_of}
use asmodeus.Dsl.Scope.{path_in_scope, trim_end_matches, drop_leading}
use asmodeus.Prelude.{
  ℕ, ◌≤◌, ◌<◌, ◌^◌, ◌≡◌, refl, sym, arith, inl, inr, Bool, true, Option, none, some, Text, text,
  text_eq, Map, lookup, length, unwrap_or, Result, ok, Option-cases, Bool-cases, split_once,
  parse_unsigned, split,
}

ok_injective : (s t : Text) → ◌≡◌ {A = Result PlanError Text} (ok s) (ok t) → s ≡ t
ok_injective s t e = cc

in_range_bounds :
    (name : Text) (lo hi n : ℕ) (v : Option ℕ)
    → hi < 2 ^ 32
    → in_range name lo hi v ≡ ok n
    → (lo ≤ n) × (n ≤ hi)
unfolding in_range
in_range_bounds name lo hi n none h e = cc
in_range_bounds name lo hi n (some v) h e = ground arith

-- A number is in the range that its name gives it, or the fallback.
pub number_bounds :
    (ps : Map Value) (name : Text) (fallback lo hi n low : ℕ)
    → number ps name fallback lo hi ≡ ok n
    → hi < 2 ^ 32
    → low ≤ lo
    → low ≤ fallback
    → fallback ≤ hi
    → (low ≤ n) × (n ≤ hi)
unfolding number number_of
number_bounds ps name fallback lo hi n low e h a b c = elim (Option-cases (lookup name ps)) [
  | inl absent ↦ let e' : ok fallback ≡ ok n = rw absent at e in ground arith
  | inr (v, is) ↦ let range = in_range_bounds name lo hi n (as_u64 v) h (rw is at e) in omega arith
]

pub iface_bounds :
    (v : Option Value) (s : Text) → iface_of v ≡ ok s → (0 < length s) × (length s ≤ 15)
unfolding iface_of
iface_bounds none s e = rw (sym (ok_injective (text "lo") s e)) (omega arith)
iface_bounds (some null) s e = cc
iface_bounds (some (boolean b)) s e = cc
iface_bounds (some (pos_int n)) s e = cc
iface_bounds (some (neg_int n)) s e = cc
iface_bounds (some (float n)) s e = cc
iface_bounds (some (array vs)) s e = cc
iface_bounds (some (object fs)) s e = cc
iface_bounds (some (string t)) s e = ground arith

pub default_dir_in_scope : path_in_scope (text "/tmp/asmodeus-canary") ≡ true
unfolding path_in_scope split text_eq trim_end_matches drop_leading
default_dir_in_scope = refl

pub default_cidr_in_scope : net_target_in_scope (text "127.0.0.1/32") ≡ true
unfolding net_target_in_scope parse_ipv4_cidr parse_octets from_be_bytes prefix_mask block_holds
    split_once parse_unsigned split
default_cidr_in_scope = refl

-- What is there has passed the test.
pub Passes : (Text → Bool) → Option Text → Type 0
Passes test o = (t : Text) → o ≡ some t → test t ≡ true

pub check_some-Passes :
    (test : Text → Bool) (e : Text → ManifestValidationError) (o : Option Text)
    → check_some test e o ≡ ok tt
    → Passes test o
unfolding check_some Passes
check_some-Passes test e none h t q = cc
check_some-Passes test e (some u) h t q = ground (arith, Bool-cases (test u))

pub or_else-Passes :
    (test : Text → Bool) (a b : Option Text) (d : Text)
    → Passes test a
    → Passes test b
    → test d ≡ true
    → test (unwrap_or (or_else a b) d) ≡ true
unfolding Passes or_else
or_else-Passes test none none d ha hb hd = hd
or_else-Passes test none (some u) d ha hb hd = hb u refl
or_else-Passes test (some t) b d ha hb hd = ha t refl

pub unwrap_or-Passes :
    (test : Text → Bool) (a : Option Text) (d : Text)
    → Passes test a
    → test d ≡ true
    → test (unwrap_or a d) ≡ true
unfolding Passes
unwrap_or-Passes test none d ha hd = hd
unwrap_or-Passes test (some t) d ha hd = ha t refl

pub permitted : (n : ActionNature) → is_permitted n ≡ true → n ≡ synthetic
unfolding is_permitted
permitted synthetic h = refl
permitted operational h = cc
