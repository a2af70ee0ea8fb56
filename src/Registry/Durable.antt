-- ===== src/Registry/Durable.antt =====
-- crates/asmodeus-control-plane/src/registry.rs: the snapshot file has the configuration of the
-- table that is in use.
use mathlib.Core.Option.{some-injective}
use asmodeus.Registry.{
  RunnerStatus, RunnerRecord, RunnerProbe, RegisteredRunner, RegistryData, is_draining, active,
  unresponsive, draining, begin_probe, probe_entry, update_heartbeat, mark_unresponsive, answer,
  heartbeat_of, silenced, register, set_draining, deregister,
}
use asmodeus.Registry.Ops.{
  Op, registering, setting_draining, deregistering, probing, beating, missing, submitted,
}
use asmodeus.Registry.Snapshot.{
  RunnerConfig, RegistrySnapshot, SnapshotError, Url, config_of, configs, from_data, sort_by_id,
  validate_identity,
}
use asmodeus.Registry.Store.{
  Store, UpdateError, bool_eq, tags_eq, config_eq, configs_eq, snapshot_eq, update,
  register_checked, call, call_all,
}
use asmodeus.Prelude.{
  ℕ, ◌≡◌, refl, sym, ap, ◌∙◌, arith, Bool, true, false, ◌&&◌, not, Option, some, inl, inr,
  Bool-cases, Option-cases, List, [], ◌∷◌, Text, text_eq, text_eq_iff, nat_eq, nat_eq_iff, Map,
  lookup, insert, Result, ok, err, if◌then◌else◌,
}

&&-split : (a b : Bool) → (a && b) ≡ true → (a ≡ true) × (b ≡ true)
&&-split a b h = ground arith

bool_eq→≡ : (a b : Bool) → bool_eq a b ≡ true → a ≡ b
unfolding bool_eq
bool_eq→≡ a b h = ground arith

tags_eq→≡ : (ts us : List Text) → tags_eq ts us ≡ true → ts ≡ us
unfolding tags_eq
tags_eq→≡ [] [] h = refl
tags_eq→≡ [] (u ∷ us) h = cc
tags_eq→≡ (t ∷ ts) [] h = cc
tags_eq→≡ (t ∷ ts) (u ∷ us) h =
    let (a, b) = &&-split (text_eq t u) (tags_eq ts us) h in
    rw ((text_eq_iff t u).0 a, tags_eq→≡ ts us b) refl

config_eq→≡ : (a b : RunnerConfig) → config_eq a b ≡ true → a ≡ b
unfolding config_eq
config_eq→≡ a b h =
    let (i, h1) = &&-split (text_eq a.id b.id) _ h in
    let (n, h2) = &&-split (text_eq a.name b.name) _ h1 in
    let (e, h3) = &&-split (text_eq a.endpoint b.endpoint) _ h2 in
    let (t, h4) = &&-split (tags_eq a.tags b.tags) _ h3 in
    let (d, r) = &&-split (bool_eq a.draining b.draining) _ h4 in
    λ k. record {
      id = (text_eq_iff a.id b.id).0 i k;
      name = (text_eq_iff a.name b.name).0 n k;
      endpoint = (text_eq_iff a.endpoint b.endpoint).0 e k;
      tags = tags_eq→≡ a.tags b.tags t k;
      draining = bool_eq→≡ a.draining b.draining d k;
      registered_at_utc = (nat_eq_iff a.registered_at_utc b.registered_at_utc).0 r k;
    }

configs_eq→≡ : (cs bs : List RunnerConfig) → configs_eq cs bs ≡ true → cs ≡ bs
unfolding configs_eq
configs_eq→≡ [] [] h = refl
configs_eq→≡ [] (b ∷ bs) h = cc
configs_eq→≡ (a ∷ cs) [] h = cc
configs_eq→≡ (a ∷ cs) (b ∷ bs) h =
    let (x, y) = &&-split (config_eq a b) (configs_eq cs bs) h in
    λ k. config_eq→≡ a b x k ∷ configs_eq→≡ cs bs y k

snapshot_eq→≡ : (a b : RegistrySnapshot) → snapshot_eq a b ≡ true → a ≡ b
unfolding snapshot_eq
snapshot_eq→≡ a b h =
    let (v, h1) = &&-split (nat_eq a.version b.version) _ h in
    let (q, r) = &&-split (bool_eq a.require_runner b.require_runner) _ h1 in
    λ k. record {
      version = (nat_eq_iff a.version b.version).0 v k;
      require_runner = bool_eq→≡ a.require_runner b.require_runner q k;
      runners = configs_eq→≡ a.runners b.runners r k;
    }

-- An entry that is replaced by one of the same configuration.
insert-same :
    (id : Text) (v r : RegisteredRunner) (m : Map RegisteredRunner)
    → lookup id m ≡ some r
    → config_of v.record_ ≡ config_of r.record_
    → configs (insert id v m) ≡ configs m
unfolding lookup insert configs
insert-same id v r [] h e = cc
insert-same id v r ((j, w) ∷ m) h e = elim (Bool-cases (text_eq j id)) [
  | inl t ↦ rw t (
      ap (λ c. c ∷ configs m)
        (e ∙ ap (λ x. config_of x.record_) (sym (some-injective w r (rw t at h)))))
  | inr t ↦ rw t (ap (◌∷◌ (config_of w.record_)) (insert-same id v r m (rw t at h) e))
]

heartbeat-draining :
    (s : RunnerStatus) (healthy : Bool)
    → is_draining (if is_draining s then s else (if healthy then active else unresponsive))
      ≡ is_draining s
heartbeat-draining active true = refl
heartbeat-draining active false = refl
heartbeat-draining unresponsive true = refl
heartbeat-draining unresponsive false = refl
heartbeat-draining draining healthy = refl

heartbeat-config :
    (now : ℕ) (healthy : Bool) (cpu : ℕ) (v : Text) (r : RunnerRecord)
    → config_of (heartbeat_of now healthy cpu v r) ≡ config_of r
unfolding config_of heartbeat_of
heartbeat-config now healthy cpu v r =
    ap (λ b. record (config_of r) { draining = b }) (heartbeat-draining r.status healthy)

silenced-config : (r : RunnerRecord) → config_of (silenced r) ≡ config_of r
unfolding config_of silenced
silenced-config r =
    ap (λ b. record (config_of r) { draining = b }) (heartbeat-draining r.status false)

configs→from_data :
    (d : RegistryData) (m : Map RegisteredRunner) (n : ℕ)
    → configs m ≡ configs d.runners
    → from_data (record d { runners = m; next_epoch = n }) ≡ from_data d
unfolding from_data
configs→from_data d m n h = ap (λ cs. record (from_data d) { runners = sort_by_id cs }) h

-- What `begin_probe` changes is no configuration.
probe-config : (id : Text) (d : RegistryData) → from_data (begin_probe id d).0 ≡ from_data d
unfolding begin_probe probe_entry
probe-config id d = elim (Option-cases (lookup id d.runners)) [
  | inl e ↦ rw e refl
  | inr (r, e) ↦ rw e (
      configs→from_data d _ _
        (insert-same id (record r { epoch = d.next_epoch }) r d.runners e refl))
]

-- A reply that keeps the configuration of its runner.
answer-config :
    (f : RunnerRecord → RunnerRecord) (probe : RunnerProbe) (d : RegistryData)
    → ((r : RunnerRecord) → config_of (f r) ≡ config_of r)
    → from_data (answer f probe (lookup probe.record_.id d.runners) d).0 ≡ from_data d
unfolding answer
answer-config f probe d keep = elim (Option-cases (lookup probe.record_.id d.runners)) [
  | inl e ↦ rw e refl
  | inr (r, e) ↦ elim (Bool-cases (nat_eq r.epoch probe.epoch)) [
    | inl t ↦
        rw (e, t)
          (configs→from_data d _ d.next_epoch (
            insert-same probe.record_.id (record r { record_ = f r.record_ }) r d.runners e
              (keep r.record_)))
    | inr t ↦ rw (e, t) refl
  ]
]

-- The file has the configuration of the table.
unfoldable pub InSync : Store → Type 0
InSync s = s.disk ≡ some (from_data s.data_)

observed-InSync :
    (s : Store) (d : RegistryData)
    → from_data d ≡ from_data s.data_
    → InSync s
    → InSync (record s { data_ = d })
unfolding InSync
observed-InSync s d e h = h ∙ ap some (sym e)

written-InSync :
    (s : Store) (d : RegistryData) → InSync (record s { data_ = d; disk = some (from_data d) })
unfolding InSync
written-InSync s d = refl

-- A property of each of the three ends of an update.
nested_if :
    {A : Type 0} (P : A → Type 0) (c w : Bool) (x y z : A)
    → P x
    → P y
    → (c ≡ false → P z)
    → P (if c then (if w then x else y) else z)
nested_if P true true x y z px py pz = px
nested_if P true false x y z px py pz = py
nested_if P false w x y z px py pz = pz refl

unchanged : (p e : Bool) → p ≡ true → (p && not e) ≡ false → e ≡ true
unchanged p e h q = ground arith

update-InSync :
    {R : Type 0} (f : RegistryData → RegistryData × R) (written : Bool) (s : Store)
    → s.has_path ≡ true
    → InSync s
    → InSync (update f written s).0 × ((update f written s).0.has_path ≡ true)
unfolding update
update-InSync {R = R} f written s p h =
    let same = snapshot_eq (from_data s.data_) (from_data (f s.data_).0) in
    nested_if (λ (o : Store × Result UpdateError R). InSync o.0 × (o.0.has_path ≡ true))
      (s.has_path && not same) written _ _ _ (written-InSync s (f s.data_).0, p) (h, p)
      (λ q. (
        observed-InSync s (f s.data_).0 (sym (snapshot_eq→≡ _ _ (unchanged s.has_path same p q))) h,
        p,
      ))

-- The file is in step with the table, and stays so.
unfoldable pub IsDurable : Store → Type 0
IsDurable s = InSync s × (s.has_path ≡ true)

module _ (parse_url : Text → Option Url) (is_channel : Text → Bool) where
  register_checked-IsDurable :
      (r : RunnerRecord) (written : Bool) (q : Result SnapshotError (Unit {0})) (s : Store)
      → IsDurable s
      → IsDurable (register_checked parse_url is_channel r written q s)
  unfolding register_checked IsDurable
  register_checked-IsDurable r written (err e) s h = h
  register_checked-IsDurable r written (ok u) s h =
      update-InSync (register (submitted r)) written s h.1 h.0

  call-IsDurable :
      (op : Op) (written : Bool) (s : Store)
      → IsDurable s
      → IsDurable (call parse_url is_channel op written s)
  unfolding call IsDurable update_heartbeat mark_unresponsive
  call-IsDurable (registering r) written s h =
      register_checked-IsDurable r written (validate_identity parse_url is_channel r.id r.endpoint)
        s h
  call-IsDurable (setting_draining id drain) written s h =
      update-InSync (set_draining id drain) written s h.1 h.0
  call-IsDurable (deregistering id) written s h = update-InSync (deregister id) written s h.1 h.0
  call-IsDurable (probing id) written s h = (observed-InSync s _ (probe-config id s.data_) h.0, h.1)
  call-IsDurable (beating now probe healthy cpu v) written s h = (
    observed-InSync s _
        (answer-config (heartbeat_of now healthy cpu v) probe s.data_
          (heartbeat-config now healthy cpu v))
        h.0,
    h.1,
  )
  call-IsDurable (missing probe) written s h =
      (observed-InSync s _ (answer-config silenced probe s.data_ silenced-config) h.0, h.1)

  call_all-IsDurable :
      (ops : List (Op × Bool)) (s : Store)
      → IsDurable s
      → IsDurable (call_all parse_url is_channel ops s)
  unfolding call_all
  call_all-IsDurable [] s h = h
  call_all-IsDurable ((op, written) ∷ ops) s h =
      call_all-IsDurable ops (call parse_url is_channel op written s)
        (call-IsDurable op written s h)

  -- With a snapshot file that has the configuration of the table at first, the file has it after any
  -- sequence of registrations, maintenance changes, removals, probes and replies, whichever of the
  -- writes fail.
  pub file_in_step :
      (ops : List (Op × Bool)) (s : Store)
      → s.has_path ≡ true
      → s.disk ≡ some (from_data s.data_)
      → (call_all parse_url is_channel ops s).disk
        ≡ some (from_data (call_all parse_url is_channel ops s).data_)
  unfolding IsDurable InSync
  file_in_step ops s p h = (call_all-IsDurable ops s (h, p)).0
