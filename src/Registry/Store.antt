-- ===== src/Registry/Store.antt =====
-- crates/asmodeus-control-plane/src/registry.rs: the registry with its snapshot file. The writer
-- lock orders the configuration calls, and a call is one step here; whether the file can be written
-- is an argument. The source changes a copy, writes it, and repeats the change on the live table, so
-- that a probe or a reply may arrive in between; such an arrival is placed before the call here.
use asmodeus.Registry.{
  RunnerRecord, RegistryData, register, set_draining, deregister, begin_probe, update_heartbeat,
  mark_unresponsive,
}
use asmodeus.Registry.Ops.{
  Op, registering, setting_draining, deregistering, probing, beating, missing, submitted,
}
use asmodeus.Registry.Snapshot.{
  RunnerConfig, RegistrySnapshot, SnapshotError, Url, from_data, validate_identity,
}
use asmodeus.Prelude.{
  Bool, true, false, ◌&&◌, not, Option, some, List, [], ◌∷◌, Text, text_eq, nat_eq, Result, ok, err,
  if◌then◌else◌,
}

pub record Store : Type 0 where
  pub data_ : RegistryData
  pub has_path : Bool
  pub disk : Option RegistrySnapshot

pub data UpdateError : Type 0 where
  write_failed : UpdateError

unfoldable pub bool_eq : Bool → Bool → Bool
bool_eq true b = b
bool_eq false b = not b

-- The derived `PartialEq` of a list of tags.
unfoldable pub tags_eq : List Text → List Text → Bool
tags_eq [] [] = true
tags_eq [] (u ∷ us) = false
tags_eq (t ∷ ts) [] = false
tags_eq (t ∷ ts) (u ∷ us) = text_eq t u && tags_eq ts us

unfoldable pub config_eq : RunnerConfig → RunnerConfig → Bool
config_eq a b =
    text_eq a.id b.id
    && (text_eq a.name b.name
        && (text_eq a.endpoint b.endpoint
            && (tags_eq a.tags b.tags
                && (bool_eq a.draining b.draining
                    && nat_eq a.registered_at_utc b.registered_at_utc))))

unfoldable pub configs_eq : List RunnerConfig → List RunnerConfig → Bool
configs_eq [] [] = true
configs_eq [] (b ∷ bs) = false
configs_eq (a ∷ cs) [] = false
configs_eq (a ∷ cs) (b ∷ bs) = config_eq a b && configs_eq cs bs

unfoldable pub snapshot_eq : RegistrySnapshot → RegistrySnapshot → Bool
snapshot_eq a b =
    nat_eq a.version b.version
    && (bool_eq a.require_runner b.require_runner && configs_eq a.runners b.runners)

-- `RunnerRegistry::update`: the snapshot is written before the new table is published. The change on
-- the copy and its repetition on the live table are one application, with no observation in between.
unfoldable pub update :
    {R : Type 0} → (RegistryData → RegistryData × R) → Bool → Store → Store × Result UpdateError R
update f written s =
    let next = f s.data_ in
    let after = from_data next.0 in
    if s.has_path && not (snapshot_eq (from_data s.data_) after)
    then (if written
        then (record s { data_ = next.0; disk = some after }, ok next.1)
        else (s, err write_failed))
    else (record s { data_ = next.0 }, ok next.1)

module _ (parse_url : Text → Option Url) (is_channel : Text → Bool) where
  unfoldable pub register_checked :
      RunnerRecord → Bool → Result SnapshotError (Unit {0}) → Store → Store
  register_checked r written (err e) s = s
  register_checked r written (ok u) s = (update (register (submitted r)) written s).0

  -- One call of the registry.
  unfoldable pub call : Op → Bool → Store → Store
  call (registering r) written s =
      register_checked r written (validate_identity parse_url is_channel r.id r.endpoint) s
  call (setting_draining id drain) written s = (update (set_draining id drain) written s).0
  call (deregistering id) written s = (update (deregister id) written s).0
  call (probing id) written s = record s { data_ = (begin_probe id s.data_).0 }
  call (beating now probe healthy cpu_pct version) written s = record s {
    data_ = (update_heartbeat now probe healthy cpu_pct version s.data_).0;
  }
  call (missing probe) written s = record s { data_ = (mark_unresponsive probe s.data_).0 }

  unfoldable pub call_all : List (Op × Bool) → Store → Store
  call_all [] s = s
  call_all ((op, written) ∷ ops) s = call_all ops (call op written s)
