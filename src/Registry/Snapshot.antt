-- ===== src/Registry/Snapshot.antt =====
-- crates/asmodeus-control-plane/src/registry_store.rs: the durable configuration of the runners. The
-- URL parser and the check of the gRPC transport are of other libraries and are parameters.
use asmodeus.Registry.{
  RunnerRecord, RegisteredRunner, RegistryData, is_draining, draining, unresponsive,
}
use asmodeus.Prelude.{
  ℕ, suc, ◌+◌, Bool, ◌||◌, ◌&&◌, not, Option, none, some, List, [], ◌∷◌, if◌then◌else◌, Text, text,
  text_eq, text_lt, nat_eq, length, trim, any, map, Map, insert, values, Result, ok, err, ◌>>◌,
  reject_if, is_some,
}

pub record RunnerConfig : Type 0 where
  pub id : Text
  pub name : Text
  pub endpoint : Text
  pub tags : List Text
  pub draining : Bool
  pub registered_at_utc : ℕ  -- u64

pub record RegistrySnapshot : Type 0 where
  pub version : ℕ  -- u32
  pub require_runner : Bool
  pub runners : List RunnerConfig

pub data SnapshotError : Type 0 where
  invalid_url invalid_uri invalid_runner inconsistent duplicate_id : SnapshotError

-- What the checks read of a parsed URL.
pub record Url : Type 0 where
  pub scheme : Text
  pub host : Option Text
  pub username : Text
  pub password : Option Text
  pub fragment : Option Text

-- One runner in `RegistrySnapshot::from_data`.
unfoldable pub config_of : RunnerRecord → RunnerConfig
config_of r = record {
  id = r.id;
  name = r.name;
  endpoint = r.endpoint;
  tags = r.tags;
  draining = is_draining r.status;
  registered_at_utc = r.registered_at_utc;
}

unfoldable pub insert_by_id : RunnerConfig → List RunnerConfig → List RunnerConfig
insert_by_id c [] = c ∷ []
insert_by_id c (d ∷ ds) =
    let later = insert_by_id c ds in if text_lt d.id c.id then d ∷ later else c ∷ d ∷ ds

unfoldable pub sort_by_id : List RunnerConfig → List RunnerConfig
sort_by_id [] = []
sort_by_id (c ∷ cs) = insert_by_id c (sort_by_id cs)

-- The configurations of a registry. The source's hash map has no order of its own: the order of the
-- association list stands for one iteration, and a snapshot sorts it by id.
unfoldable pub configs : Map RegisteredRunner → List RunnerConfig
configs runners = map (λ e. config_of e.record_) (values runners)

-- `RegistrySnapshot::from_data`.
unfoldable pub from_data : RegistryData → RegistrySnapshot
from_data d = record {
  version = 1;
  require_runner = d.require_runner;
  runners = sort_by_id (configs d.runners);
}

module _ (parse_url : Text → Option Url) (is_channel : Text → Bool) where
  unfoldable pub check_url : Text → Text → Option Url → Result SnapshotError (Unit {0})
  check_url id endpoint none = err invalid_url
  check_url id endpoint (some url) = do
    reject_if (not (is_channel endpoint)) invalid_uri
    reject_if
        (nat_eq (length id) 0
          || not (text_eq (trim id) id)
          || not (text_eq url.scheme (text "http") || text_eq url.scheme (text "https"))
          || not (is_some url.host)
          || not (nat_eq (length url.username) 0)
          || is_some url.password
          || is_some url.fragment)
        invalid_runner
    ok tt

  -- `validate_identity`.
  unfoldable pub validate_identity : Text → Text → Result SnapshotError (Unit {0})
  validate_identity id endpoint = check_url id endpoint (parse_url endpoint)

  -- The loop of `RegistrySnapshot::validate`, with the ids before it.
  unfoldable pub validate_runners : List Text → List RunnerConfig → Result SnapshotError (Unit {0})
  validate_runners ids [] = ok tt
  validate_runners ids (c ∷ cs) = do
    validate_identity c.id c.endpoint
    reject_if (any (text_eq c.id) ids) duplicate_id
    validate_runners (c.id ∷ ids) cs

  -- `RegistrySnapshot::validate`.
  unfoldable pub validate : RegistrySnapshot → Result SnapshotError (Unit {0})
  validate s = do
    reject_if
        (not (nat_eq s.version 1) || (not s.require_runner && not (nat_eq (length s.runners) 0)))
        inconsistent
    validate_runners [] s.runners

unfoldable pub restored : ℕ → RunnerConfig → RegisteredRunner
restored epoch c = record {
  record_ = record {
    id = c.id;
    name = c.name;
    endpoint = c.endpoint;
    tags = c.tags;
    status = if c.draining then draining else unresponsive;
    last_heartbeat_utc = none;
    cpu_usage_pct = 0;
    version = [];
    registered_at_utc = c.registered_at_utc;
  };
  epoch = epoch;
}

-- The `collect` of `into_data`, from the map so far.
unfoldable pub collect : ℕ → List RunnerConfig → Map RegisteredRunner → Map RegisteredRunner
collect epoch [] m = m
collect epoch (c ∷ cs) m = collect (suc epoch) cs (insert c.id (restored epoch c) m)

-- `RegistrySnapshot::into_data`, with fresh epochs from a number on.
unfoldable pub into_data : ℕ → RegistrySnapshot → RegistryData
into_data epoch s = record {
  runners = collect epoch s.runners [];
  require_runner = s.require_runner;
  next_epoch = epoch + length s.runners;
}
