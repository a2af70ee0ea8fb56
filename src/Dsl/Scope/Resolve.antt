-- ===== src/Dsl/Scope/Resolve.antt =====
-- A path in scope, resolved component by component, stays inside a canary directory.
use mathlib.Core.List.{reverse-reverse, reverse-append, append_assoc, append-nil}
use asmodeus.Dsl.Scope.{path_in_scope, trim_end_matches, drop_leading}
use asmodeus.Prelude.{
  zero, suc, ◌≡◌, refl, sym, ap, ◌∙◌, ◌⊎◌, inl, inr, Bool, true, false, ◌||◌, List, [], ◌∷◌, ◌++◌,
  reverse, arith, if◌then◌else◌, Text, text, text_eq, text_eq_iff, any, starts_with, split,
  split_from, Text_eq, nat_eq, nat_eq_iff, Bool-cases, any-cons, replicate, reverse-replicate, ℕ,
}

abbrev parent : List Text → List Text
parent [] = []
parent (d ∷ ds) = ds

-- Where one component leads from a directory, given as its names, the deepest first.
abbrev pub enter : List Text → Text → List Text
enter ds c =
    if text_eq c [] || text_eq c (text ".")
    then ds
    else if text_eq c (text "..")
    then parent ds
    else c ∷ ds

pub resolve : List Text → List Text → List Text
resolve ds [] = ds
resolve ds (c ∷ cs) = resolve (enter ds c) cs

abbrev pub canary_dir : List Text
canary_dir = text "asmodeus-canary" ∷ text "tmp" ∷ []

abbrev pub var_canary_dir : List Text
var_canary_dir = text "asmodeus-canary" ∷ text "tmp" ∷ text "var" ∷ []

-- The directory is `root` or below it.
abbrev pub Inside : List Text → List Text → Type 0
Inside root ds = (below : List Text) × (ds ≡ below ++ root)

abbrev is_up : Text → Bool
is_up c = text_eq c (text "..")

abbrev deeper : List Text → Text → List Text
deeper below c = if text_eq c [] || text_eq c (text ".") then below else c ∷ below

enter-append :
    (root below : List Text) (c : Text)
    → is_up c ≡ false
    → enter (below ++ root) c ≡ deeper below c ++ root
enter-append root below c h = ground arith

resolve-Inside :
    (root below cs : List Text) → any is_up cs ≡ false → Inside root (resolve (below ++ root) cs)
unfolding resolve
resolve-Inside root below [] h = (below, refl)
resolve-Inside root below (c ∷ cs) h =
    let (here, later) = any-cons is_up c cs h in
    rw (enter-append root below c here) (resolve-Inside root (deeper below c) cs later)

-- The directory itself, or a path below it.
abbrev Extends : Text → Text → Type 0
Extends root p = (p ≡ root) ⊎ ((rest : Text) × (p ≡ root ++ b'/' ∷ rest))

starts_with-append : (s p : Text) → starts_with s p ≡ true → (rest : Text) × (s ≡ p ++ rest)
unfolding starts_with
starts_with-append s [] h = (s, refl)
starts_with-append [] (p ∷ ps) h = cc
starts_with-append (c ∷ s) (p ∷ ps) h =
    let (rest, e) = starts_with-append s ps (ground arith) in
    (rest, ground (arith, e, nat_eq_iff c p))

drop_leading-replicate :
    (sep : ℕ) (s : Text) → (n : ℕ) × (s ≡ replicate n sep ++ drop_leading sep s)
unfolding drop_leading
drop_leading-replicate sep [] = (0, refl)
drop_leading-replicate sep (c ∷ s) = elim (Bool-cases (nat_eq c sep)) [
  | inl e ↦
      let (n, h) = drop_leading-replicate sep s in
      (suc n, rw (e, drop_leading) (ground (arith, h, nat_eq_iff c sep)))
  | inr e ↦ (0, rw (e, drop_leading))
]

trim_end_matches-append :
    (sep : ℕ) (s : Text) → (n : ℕ) × (s ≡ trim_end_matches sep s ++ replicate n sep)
unfolding trim_end_matches
trim_end_matches-append sep s =
    let (n, h) = drop_leading-replicate sep (reverse s) in
    (
      n,
      sym (reverse-reverse s)
          ∙ ap reverse h
          ∙ reverse-append (replicate n sep) (drop_leading sep (reverse s))
          ∙ ap (◌++◌ (reverse (drop_leading sep (reverse s)))) (reverse-replicate n sep),
    )

trimmed-Extends : (root p : Text) → trim_end_matches b'/' p ≡ root → Extends root p
trimmed-Extends root p e = go (trim_end_matches-append b'/' p)
  where
    go : ((n : ℕ) × (p ≡ trim_end_matches b'/' p ++ replicate n b'/')) → Extends root p
    go (zero, h) = inl (h ∙ append-nil _ ∙ e)
    go (suc n, h) = inr (replicate n b'/', rw e at h)

prefixed-Extends : (root p : Text) → starts_with p (root ++ b'/' ∷ []) ≡ true → Extends root p
prefixed-Extends root p h =
    let (rest, e) = starts_with-append p (root ++ b'/' ∷ []) h in
    inr (rest, e ∙ append_assoc root (b'/' ∷ []) rest)

abbrev Tests : Text → Type 0
Tests p =
    (text_eq (trim_end_matches b'/' p) (text "/var/tmp/asmodeus-canary") ≡ true)
    ⊎ (text_eq (trim_end_matches b'/' p) (text "/tmp/asmodeus-canary") ≡ true)
    ⊎ (starts_with p (text "/var/tmp/asmodeus-canary/") ≡ true)
    ⊎ (starts_with p (text "/tmp/asmodeus-canary/") ≡ true)

path_in_scope-Tests :
    (p : Text) → path_in_scope p ≡ true → (any is_up (split b'/' p) ≡ false) × Tests p
unfolding path_in_scope
path_in_scope-Tests p h = ground arith

Tests-Extends :
    (p : Text)
    → Tests p
    → Extends (text "/var/tmp/asmodeus-canary") p ⊎ Extends (text "/tmp/asmodeus-canary") p
Tests-Extends p (inl e) = inl (trimmed-Extends _ p ((text_eq_iff _ _).0 e))
Tests-Extends p (inr (inl e)) = inr (trimmed-Extends _ p ((text_eq_iff _ _).0 e))
Tests-Extends p (inr (inr (inl e))) = inl (prefixed-Extends (text "/var/tmp/asmodeus-canary") p e)
Tests-Extends p (inr (inr (inr e))) = inr (prefixed-Extends (text "/tmp/asmodeus-canary") p e)

-- The components of a path that extends a canary directory begin with those of the directory.
split-var :
    (p : Text)
    → Extends (text "/var/tmp/asmodeus-canary") p
    → (cs : List Text) × (split b'/' p ≡ [] ∷ text "var" ∷ text "tmp" ∷ text "asmodeus-canary" ∷ cs)
unfolding split
split-var p (inl e) = ([], rw e)
split-var p (inr (rest, e)) = (split_from b'/' [] rest, rw e)

split-tmp :
    (p : Text)
    → Extends (text "/tmp/asmodeus-canary") p
    → (cs : List Text) × (split b'/' p ≡ [] ∷ text "tmp" ∷ text "asmodeus-canary" ∷ cs)
unfolding split
split-tmp p (inl e) = ([], rw e)
split-tmp p (inr (rest, e)) = (split_from b'/' [] rest, rw e)

resolve-var :
    (cs : List Text)
    → any is_up ([] ∷ text "var" ∷ text "tmp" ∷ text "asmodeus-canary" ∷ cs) ≡ false
    → Inside var_canary_dir
        (resolve [] ([] ∷ text "var" ∷ text "tmp" ∷ text "asmodeus-canary" ∷ cs))
unfolding resolve text_eq
resolve-var cs h = resolve-Inside var_canary_dir [] cs h

resolve-tmp :
    (cs : List Text)
    → any is_up ([] ∷ text "tmp" ∷ text "asmodeus-canary" ∷ cs) ≡ false
    → Inside canary_dir (resolve [] ([] ∷ text "tmp" ∷ text "asmodeus-canary" ∷ cs))
unfolding resolve text_eq
resolve-tmp cs h = resolve-Inside canary_dir [] cs h

-- A path in scope, resolved from the root one component after the other ("." and an empty one
-- stay, ".." goes up), leads to one of the two canary directories or below it.
pub path_in_scope_confined :
    (p : Text)
    → path_in_scope p ≡ true
    → Inside var_canary_dir (resolve [] (split b'/' p))
      ⊎ Inside canary_dir (resolve [] (split b'/' p))
path_in_scope_confined p h = go (Tests-Extends p (path_in_scope-Tests p h).1)
  where
    go :
        Extends (text "/var/tmp/asmodeus-canary") p ⊎ Extends (text "/tmp/asmodeus-canary") p
        → Inside var_canary_dir (resolve [] (split b'/' p))
          ⊎ Inside canary_dir (resolve [] (split b'/' p))
    go (inl e) =
        let (cs, q) = split-var p e in
        inl (rw q (resolve-var cs (rw q at (path_in_scope-Tests p h).0)))
    go (inr e) =
        let (cs, q) = split-tmp p e in
        inr (rw q (resolve-tmp cs (rw q at (path_in_scope-Tests p h).0)))
