-- ===== src/Witnesses/Runners.antt =====
-- The runner registry and the control of a campaign at concrete inputs.
use asmodeus.Registry.{
  RunnerRecord, RunnerProbe, RegisteredRunner, RegistryData, active, draining, by_id, has_tag,
  wanted, find_for_target, prefer, mark_unresponsive,
}
use asmodeus.Registry.Ops.{Op, registering, setting_draining, probing, apply, apply_all}
use asmodeus.Registry.Supersede.{Supersedes, superseded_probe}
use asmodeus.Registry.Drain.{status_of, KeepsDrain, AllKeepDrain, drain_sticky}
use asmodeus.Registry.Select.{IsIn, records, find_for_target_lem}
use asmodeus.Registry.Snapshot.{
  RegistrySnapshot, Url, configs, from_data, into_data, validate, validate_runners,
  validate_identity, check_url,
}
use asmodeus.Registry.Restore.{restart_lem}
use asmodeus.Registry.Store.{Store, call_all}
use asmodeus.Registry.Durable.{file_in_step}
use asmodeus.RunControl.{is_cancelled}
use asmodeus.RunControl.Admission.{requesting, admitting, after, WasSent, cancellation_not_missed}
use asmodeus.Prelude.{
  Text, Bool, Option, trim, trim_start, is_space, ◌≡◌, ◌≢◌, ◌⊎◌, refl, true, false, arith, [], ◌∷◌,
  some, none, text, text_eq, lookup, List, trim, trim_start, is_space,
}

abbrev pub node : RunnerRecord
node = record {
  id = text "r1";
  name = text "node";
  endpoint = text "http://10.0.0.1:1";
  tags = text "endpoint_agent" ∷ [];
  status = active;
  last_heartbeat_utc = some 100;
  cpu_usage_pct = 3;
  version = text "0.1";
  registered_at_utc = 50;
}

abbrev pub table : RegistryData
table = record {
  runners = (text "r1", record { record_ = node; epoch = 4 }) ∷ [];
  require_runner = true;
  next_epoch = 5;
}

abbrev in_maintenance : RegistryData
in_maintenance = record table {
  runners = (text "r1", record { record_ = record node { status = draining }; epoch = 4 }) ∷ [];
}

abbrev probe : RunnerProbe
probe = record { record_ = node; epoch = 4 }

superseded_probe_example :
    mark_unresponsive probe
      (apply_all (probing (text "r2") ∷ []) (apply (probing (text "r1")) table))
    ≡ (apply_all (probing (text "r2") ∷ []) (apply (probing (text "r1")) table), false)
unfolding Supersedes
superseded_probe_example =
    (superseded_probe probe (probing (text "r1")) (probing (text "r2") ∷ []) table (omega arith)
      refl).1

drain_sticky_example :
    (status_of (text "r1") (apply_all (registering node ∷ []) in_maintenance) ≡ some draining)
    × (find_for_target (some (text " r1")) (apply_all (registering node ∷ []) in_maintenance)
        ≡ none)
unfolding status_of KeepsDrain AllKeepDrain wanted trim trim_start is_space lookup text_eq
drain_sticky_example =
    drain_sticky (text "r1") (text " r1") (registering node ∷ []) in_maintenance (tt, tt) refl refl

find_for_target_lem_example :
    ((e : RegisteredRunner) × (by_id (wanted (some (text "r1"))) in_maintenance ≡ some e)
      × (e.record_.status ≢ active))
    ⊎ ((r : RunnerRecord)
        → IsIn r (records in_maintenance)
        → r.status ≡ active
        → has_tag (wanted (some (text "r1"))) r ≡ false)
unfolding find_for_target prefer by_id wanted trim trim_start is_space lookup text_eq
find_for_target_lem_example = (find_for_target_lem (some (text "r1")) in_maintenance).1 refl

abbrev snapshot : RegistrySnapshot
snapshot = record {
  version = 1;
  require_runner = true;
  runners =
      record {
        id = text "r1";
        name = text "node";
        endpoint = text "http://10.0.0.1:1";
        tags = [];
        draining = true;
        registered_at_utc = 50;
      }
      ∷ [];
}

-- The parse of the one endpoint above.
abbrev parse_url : Text → Option Url
parse_url endpoint = some (record {
  scheme = text "http";
  host = some (text "10.0.0.1");
  username = [];
  password = none;
  fragment = none;
})

abbrev is_channel : Text → Bool
is_channel endpoint = true

restart_lem_example :
    (configs (into_data 7 snapshot).runners ≡ snapshot.runners)
    × ((into_data 7 snapshot).require_runner ≡ true)
    × (find_for_target (some (text "r1")) (into_data 7 snapshot) ≡ none)
unfolding validate validate_runners validate_identity check_url text_eq trim trim_start is_space
restart_lem_example = restart_lem parse_url is_channel 7 snapshot (some (text "r1")) refl

abbrev stored : Store
stored = record { data_ = table; has_path = true; disk = some (from_data table) }

-- A write that fails, a probe, and a write that succeeds.
abbrev calls : List (Op × Bool)
calls =
    (registering (record node { id = text "r2" }), false)
    ∷ (probing (text "r1"), true)
    ∷ (setting_draining (text "r1") true, true)
    ∷ []

file_in_step_example :
    (call_all parse_url is_channel calls stored).disk
    ≡ some (from_data (call_all parse_url is_channel calls stored).data_)
file_in_step_example = file_in_step parse_url is_channel calls stored refl refl

cancellation_not_missed_example :
    let w = after (admitting (text "run-1") ∷ requesting ∷ []) in
    (is_cancelled w.control ≡ true)
    × ((run : Text) → w.control.current ≡ some run → WasSent run w.sent)
cancellation_not_missed_example = cancellation_not_missed (admitting (text "run-1") ∷ []) []
