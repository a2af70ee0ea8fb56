-- ===== src/Registry/Ops.antt =====
-- crates/asmodeus-control-plane/src/registry.rs: what a caller may do to the registry, as one type,
-- so that any order of requests and of replies is a list.
use asmodeus.Registry.{
  RunnerRecord, RunnerProbe, RegistryData, register, set_draining, deregister, begin_probe,
  update_heartbeat, mark_unresponsive, is_draining, unresponsive,
}
use asmodeus.Prelude.{ℕ, Bool, none, List, [], ◌∷◌, Text, if◌then◌else◌}

-- `RunnerRegistry::register`, before it reaches the table: the health that a caller sends is
-- dropped, the maintenance state kept.
unfoldable pub submitted : RunnerRecord → RunnerRecord
submitted r = record r {
  status = if is_draining r.status then r.status else unresponsive;
  last_heartbeat_utc = none;
  cpu_usage_pct = 0;
  version = [];
}

pub data Op : Type 0 where
  registering : RunnerRecord → Op
  setting_draining : Text → Bool → Op
  deregistering : Text → Op
  probing : Text → Op
  beating : ℕ → RunnerProbe → Bool → ℕ → Text → Op
  missing : RunnerProbe → Op

unfoldable pub apply : Op → RegistryData → RegistryData
apply (registering r) d = (register (submitted r) d).0
apply (setting_draining id drain) d = (set_draining id drain d).0
apply (deregistering id) d = (deregister id d).0
apply (probing id) d = (begin_probe id d).0
apply (beating now probe healthy cpu_pct version) d =
    (update_heartbeat now probe healthy cpu_pct version d).0
apply (missing probe) d = (mark_unresponsive probe d).0

unfoldable pub apply_all : List Op → RegistryData → RegistryData
apply_all [] d = d
apply_all (op ∷ ops) d = apply_all ops (apply op d)
