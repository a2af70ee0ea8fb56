-- ===== src/Registry.antt =====
-- crates/asmodeus-control-plane/src/registry.rs: the runner registry. The identity of an epoch (the
-- address of its `Arc`) is a number that the registry never gives out twice; the time is an argument.
pub mod Ops
pub mod Snapshot
pub mod Store
pub mod Restore
pub mod Durable
pub mod Supersede
pub mod Drain
pub mod Select
use asmodeus.Prelude.{
  ℕ, suc, Bool, true, false, ◌&&◌, not, Option, none, some, if◌then◌else◌, List, [], ◌∷◌, Text,
  text_eq, text_lt, nat_eq, length, trim, any, filter, eq_ignore_ascii_case, Map, lookup, insert,
  remove, values, is_some, map,
}

pub data RunnerStatus : Type 0 where
  active unresponsive draining : RunnerStatus

abbrev pub is_active : RunnerStatus → Bool
is_active active = true
is_active unresponsive = false
is_active draining = false

abbrev pub is_draining : RunnerStatus → Bool
is_draining active = false
is_draining unresponsive = false
is_draining draining = true

pub record RunnerRecord : Type 0 where
  pub id : Text
  pub name : Text
  pub endpoint : Text
  pub tags : List Text
  pub status : RunnerStatus
  pub last_heartbeat_utc : Option ℕ
  pub cpu_usage_pct : ℕ  -- u32
  pub version : Text
  pub registered_at_utc : ℕ  -- u64

pub record RunnerProbe : Type 0 where
  pub record_ : RunnerRecord
  pub epoch : ℕ

pub record RegisteredRunner : Type 0 where
  pub record_ : RunnerRecord
  pub epoch : ℕ

-- `RegistryData`, and the epoch that the next `Arc::new(())` gives.
pub record RegistryData : Type 0 where
  pub runners : Map RegisteredRunner
  pub require_runner : Bool
  pub next_epoch : ℕ

-- What an existing entry hands on to the record that replaces it.
unfoldable pub carried_over : RunnerRecord → Option RegisteredRunner → RunnerRecord
carried_over r none = r
carried_over r (some previous) =
    if text_eq r.endpoint previous.record_.endpoint
    then record r {
      status = previous.record_.status;
      registered_at_utc = previous.record_.registered_at_utc;
      last_heartbeat_utc = previous.record_.last_heartbeat_utc;
      cpu_usage_pct = previous.record_.cpu_usage_pct;
      version = previous.record_.version;
    }
    else record r {
      status = if is_draining previous.record_.status then draining else unresponsive;
      registered_at_utc = previous.record_.registered_at_utc;
      last_heartbeat_utc = none;
      cpu_usage_pct = 0;
      version = [];
    }

-- The entry that `register` puts in place.
unfoldable pub renewed : RunnerRecord → RegistryData → RegisteredRunner
renewed r d = record { record_ = carried_over r (lookup r.id d.runners); epoch = d.next_epoch }

-- `RegistryData::register`.
unfoldable pub register : RunnerRecord → RegistryData → RegistryData × RunnerRecord
unfolding renewed
register r d = (
  record {
    runners = insert r.id (renewed r d) d.runners;
    require_runner = true;
    next_epoch = suc d.next_epoch;
  },
  (renewed r d).record_,
)

-- What `set_draining` makes of one runner, given a fresh epoch.
unfoldable pub drained : Bool → ℕ → RegisteredRunner → RegisteredRunner
drained true fresh runner =
    if is_draining runner.record_.status
    then runner
    else record { record_ = record (runner.record_) { status = draining }; epoch = fresh }
drained false fresh runner =
    if is_draining runner.record_.status
    then record {
      record_ = record (runner.record_) { status = unresponsive; last_heartbeat_utc = none };
      epoch = fresh;
    }
    else runner

unfoldable pub set_entry :
    Text → Option RegisteredRunner → RegistryData → RegistryData × Option RunnerRecord
set_entry id none d = (d, none)
set_entry id (some runner) d = (
  record d { runners = insert id runner d.runners; next_epoch = suc d.next_epoch },
  some runner.record_,
)

unfoldable pub map_option : {A B : Type 0} → (A → B) → Option A → Option B
map_option f none = none
map_option f (some a) = some (f a)

-- `RegistryData::set_draining`.
unfoldable pub set_draining : Text → Bool → RegistryData → RegistryData × Option RunnerRecord
unfolding set_entry map_option
set_draining id drain d =
    set_entry id (map_option (drained drain d.next_epoch) (lookup id d.runners)) d

-- The update that `RunnerRegistry::deregister` makes.
unfoldable pub deregister : Text → RegistryData → RegistryData × Bool
deregister id d = (record d { runners = remove id d.runners }, is_some (lookup id d.runners))

unfoldable pub probe_entry :
    Text → Option RegisteredRunner → RegistryData → RegistryData × Option RunnerProbe
probe_entry id none d = (d, none)
probe_entry id (some runner) d = (
  record d {
    runners = insert id (record runner { epoch = d.next_epoch }) d.runners;
    next_epoch = suc d.next_epoch;
  },
  some (record { record_ = runner.record_; epoch = d.next_epoch }),
)

-- `RunnerRegistry::begin_probe`.
unfoldable pub begin_probe : Text → RegistryData → RegistryData × Option RunnerProbe
begin_probe id d = probe_entry id (lookup id d.runners) d

-- A reply that belongs to the present epoch of its runner changes it by `f`; any other is dropped.
unfoldable pub answer :
    (RunnerRecord → RunnerRecord)
    → RunnerProbe
    → Option RegisteredRunner
    → RegistryData
    → RegistryData × Bool
answer f probe none d = (d, false)
answer f probe (some runner) d =
    if nat_eq runner.epoch probe.epoch
    then (
      record d {
        runners = insert probe.record_.id (record runner { record_ = f runner.record_ }) d.runners;
      },
      true,
    )
    else (d, false)

unfoldable pub heartbeat_of : ℕ → Bool → ℕ → Text → RunnerRecord → RunnerRecord
heartbeat_of now healthy cpu_pct version r = record r {
  status = if is_draining r.status then r.status else (if healthy then active else unresponsive);
  cpu_usage_pct = cpu_pct;
  last_heartbeat_utc = some now;
  version = if nat_eq (length version) 0 then r.version else version;
}

-- `RunnerRegistry::update_heartbeat`.
unfoldable pub update_heartbeat :
    ℕ → RunnerProbe → Bool → ℕ → Text → RegistryData → RegistryData × Bool
update_heartbeat now probe healthy cpu_pct version d =
    answer (heartbeat_of now healthy cpu_pct version) probe (lookup probe.record_.id d.runners) d

unfoldable pub silenced : RunnerRecord → RunnerRecord
silenced r = record r { status = if is_draining r.status then r.status else unresponsive }

-- `RunnerRegistry::mark_unresponsive`.
unfoldable pub mark_unresponsive : RunnerProbe → RegistryData → RegistryData × Bool
mark_unresponsive probe d = answer silenced probe (lookup probe.record_.id d.runners) d

-- `target.map(str::trim).filter(|t| !t.is_empty())`.
unfoldable pub wanted : Option Text → Option Text
wanted none = none
wanted (some t) = if nat_eq (length (trim t)) 0 then none else some (trim t)

unfoldable pub has_tag : Option Text → RunnerRecord → Bool
has_tag none r = true
has_tag (some t) r = any (λ tag. eq_ignore_ascii_case tag t) r.tags

unfoldable pub lesser : RunnerRecord → Option RunnerRecord → RunnerRecord
lesser r none = r
lesser r (some m) = if text_lt m.id r.id then m else r

-- `min_by` on the ids: the first of the least.
unfoldable pub least : List RunnerRecord → Option RunnerRecord
least [] = none
least (r ∷ rs) = some (lesser r (least rs))

unfoldable pub by_tag : Option Text → RegistryData → Option RunnerRecord
by_tag target d =
    least (
      filter (λ r. is_active r.status && has_tag target r)
        (map (λ e. e.record_) (values d.runners)))

unfoldable pub by_id : Option Text → RegistryData → Option RegisteredRunner
by_id none d = none
by_id (some t) d = lookup t d.runners

-- An exact id never falls back to the tags.
unfoldable pub prefer : Option RegisteredRunner → Option RunnerRecord → Option RunnerRecord
prefer none tagged = tagged
prefer (some runner) tagged = if is_active runner.record_.status then some runner.record_ else none

-- `RunnerRegistry::find_for_target`.
unfoldable pub find_for_target : Option Text → RegistryData → Option RunnerRecord
find_for_target target d = prefer (by_id (wanted target) d) (by_tag (wanted target) d)
