-- ===== src/Registry/Restore.antt =====
-- crates/asmodeus-control-plane/src/registry_store.rs: what a restart knows of the runners.
use mathlib.Core.List.{append_assoc, append-nil}
use asmodeus.Registry.{
  RunnerRecord, RegisteredRunner, RegistryData, is_active, is_draining, draining, unresponsive,
  least, has_tag, by_tag, by_id, prefer, wanted, find_for_target,
}
use asmodeus.Registry.Snapshot.{
  RunnerConfig, RegistrySnapshot, Url, config_of, configs, validate_identity, validate_runners,
  validate, restored, collect, into_data,
}
use asmodeus.Prelude.{
  ℕ, suc, ◌≡◌, refl, sym, ap, ◌∙◌, arith, Bool, true, false, ◌&&◌, Option, none, some, inl, inr,
  Bool-cases, List, [], ◌∷◌, ◌++◌, Text, text_eq, text_eq_iff, any, filter, map, Map, lookup,
  insert, lookup-insert, values, ok, reject_if-eq-ok, >>=-eq-ok, if◌then◌else◌, All,
}

-- The ids that are not among `ids` have no entry.
NewIds : List Text → Map RegisteredRunner → Type 0
NewIds ids m = (k : Text) → any (text_eq k) ids ≡ false → lookup k m ≡ none

insert-NewIds :
    (id : Text) (v : RegisteredRunner) (ids : List Text) (m : Map RegisteredRunner)
    → NewIds ids m
    → NewIds (id ∷ ids) (insert id v m)
unfolding NewIds
insert-NewIds id v ids m h k e =
    ground (arith, lookup-insert id k v m, h k, text_eq_iff id k, text_eq_iff k id)

insert-configs :
    (id : Text) (v : RegisteredRunner) (m : Map RegisteredRunner)
    → lookup id m ≡ none
    → configs (insert id v m) ≡ configs m ++ config_of v.record_ ∷ []
unfolding insert lookup configs
insert-configs id v [] h = refl
insert-configs id v ((j, w) ∷ m) h = elim (Bool-cases (text_eq j id)) [
  | inl e ↦ absurd (ground arith)
  | inr e ↦ rw e (ap (◌∷◌ (config_of w.record_)) (insert-configs id v m (rw e at h)))
]

is_draining-restored : (b : Bool) → is_draining (if b then draining else unresponsive) ≡ b
is_draining-restored true = refl
is_draining-restored false = refl

restored-config : (epoch : ℕ) (c : RunnerConfig) → config_of (restored epoch c).record_ ≡ c
unfolding config_of restored
restored-config epoch c = ap (λ b. record c { draining = b }) (is_draining-restored c.draining)

NewIds-none :
    (k : Text) (ids : List Text) (m : Map RegisteredRunner)
    → NewIds ids m
    → any (text_eq k) ids ≡ false
    → lookup k m ≡ none
unfolding NewIds
NewIds-none k ids m h e = h k e

NewIds-start : NewIds [] []
unfolding NewIds lookup
NewIds-start k e = refl

-- No runner of the map is active.
AllInactive : Map RegisteredRunner → Type 0
AllInactive m = All (λ (e : Text × RegisteredRunner). is_active e.1.record_.status ≡ false) m

is_active-restored : (b : Bool) → is_active (if b then draining else unresponsive) ≡ false
is_active-restored true = refl
is_active-restored false = refl

insert-AllInactive :
    (id : Text) (v : RegisteredRunner) (m : Map RegisteredRunner)
    → is_active v.record_.status ≡ false
    → AllInactive m
    → AllInactive (insert id v m)
unfolding insert AllInactive
insert-AllInactive id v [] q h = (q, tt)
insert-AllInactive id v ((j, w) ∷ m) q h = elim (Bool-cases (text_eq j id)) [
  | inl e ↦ rw e (q, h.1)
  | inr e ↦ rw e (h.0, insert-AllInactive id v m q h.1)
]

collect-AllInactive :
    (epoch : ℕ) (cs : List RunnerConfig) (m : Map RegisteredRunner)
    → AllInactive m
    → AllInactive (collect epoch cs m)
unfolding collect restored
collect-AllInactive epoch [] m h = h
collect-AllInactive epoch (c ∷ cs) m h =
    collect-AllInactive (suc epoch) cs (insert c.id (restored epoch c) m)
      (insert-AllInactive c.id (restored epoch c) m (is_active-restored c.draining) h)

lookup-AllInactive :
    (id : Text) (m : Map RegisteredRunner) (r : RegisteredRunner)
    → AllInactive m
    → lookup id m ≡ some r
    → is_active r.record_.status ≡ false
unfolding lookup AllInactive
lookup-AllInactive id [] r h e = cc
lookup-AllInactive id ((j, w) ∷ m) r h e = elim (Bool-cases (text_eq j id)) [
  | inl t ↦ ground arith
  | inr t ↦ lookup-AllInactive id m r h.1 (rw t at e)
]

filter-AllInactive :
    (w : Option Text) (m : Map RegisteredRunner)
    → AllInactive m
    → filter (λ r. is_active r.status && has_tag w r) (map (λ e. e.record_) (values m)) ≡ []
unfolding AllInactive
filter-AllInactive w [] h = refl
filter-AllInactive w ((j, e) ∷ m) h = rw h.0 (filter-AllInactive w m h.1)

prefer-none :
    (q : Option RegisteredRunner) (rest : Option RunnerRecord)
    → ((r : RegisteredRunner) → q ≡ some r → is_active r.record_.status ≡ false)
    → rest ≡ none
    → prefer q rest ≡ none
unfolding prefer
prefer-none none rest h e = e
prefer-none (some r) rest h e = rw (h r refl) refl

by_id-inactive :
    (w : Option Text) (d : RegistryData) (r : RegisteredRunner)
    → AllInactive d.runners
    → by_id w d ≡ some r
    → is_active r.record_.status ≡ false
unfolding by_id
by_id-inactive none d r h e = cc
by_id-inactive (some t) d r h e = lookup-AllInactive t d.runners r h e

by_tag-inactive : (w : Option Text) (d : RegistryData) → AllInactive d.runners → by_tag w d ≡ none
unfolding by_tag least
by_tag-inactive w d h = rw (filter-AllInactive w d.runners h) refl

find_for_target-inactive :
    (target : Option Text) (d : RegistryData)
    → AllInactive d.runners
    → find_for_target target d ≡ none
unfolding find_for_target
find_for_target-inactive target d h =
    prefer-none (by_id (wanted target) d) (by_tag (wanted target) d)
      (λ r e. by_id-inactive (wanted target) d r h e) (by_tag-inactive (wanted target) d h)

module _ (parse_url : Text → Option Url) (is_channel : Text → Bool) where
  collect-configs :
      (epoch : ℕ) (cs : List RunnerConfig) (ids : List Text) (m : Map RegisteredRunner)
      → NewIds ids m
      → validate_runners parse_url is_channel ids cs ≡ ok tt
      → configs (collect epoch cs m) ≡ configs m ++ cs
  unfolding collect validate_runners
  collect-configs epoch [] ids m new h = sym (append-nil (configs m))
  collect-configs epoch (c ∷ cs) ids m new h =
      let (u, named, h1) = >>=-eq-ok (validate_identity parse_url is_channel c.id c.endpoint) _ h in
      let (fresh, h2) = reject_if-eq-ok (any (text_eq c.id) ids) _ _ h1 in
      let added = insert c.id (restored epoch c) m in
      collect-configs (suc epoch) cs (c.id ∷ ids) added
        (insert-NewIds c.id (restored epoch c) ids m new) h2
      ∙ ap (λ xs. xs ++ cs)
          (insert-configs c.id (restored epoch c) m (NewIds-none c.id ids m new fresh))
      ∙ append_assoc (configs m) (config_of (restored epoch c).record_ ∷ []) cs
      ∙ ap (λ x. configs m ++ x ∷ cs) (restored-config epoch c)

  -- What a restart restores from a snapshot that it accepts has the configuration of each runner, in
  -- order, and no health: no runner is routed, whatever the target, before a probe has answered.
  pub restart_lem :
      (epoch : ℕ) (s : RegistrySnapshot) (target : Option Text)
      → validate parse_url is_channel s ≡ ok tt
      → (configs (into_data epoch s).runners ≡ s.runners)
        × ((into_data epoch s).require_runner ≡ s.require_runner)
        × (find_for_target target (into_data epoch s) ≡ none)
  unfolding validate into_data AllInactive configs
  restart_lem epoch s target h =
      let (fits, h1) = reject_if-eq-ok _ _ _ h in
      (
        collect-configs epoch s.runners [] [] NewIds-start h1,
        refl,
        find_for_target-inactive target (into_data epoch s)
            (collect-AllInactive epoch s.runners [] tt),
      )
