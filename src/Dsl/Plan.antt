-- ===== src/Dsl/Plan.antt =====
-- crates/asmodeus-dsl/src/execution.rs: the bounded plan that a manifest is compiled to. The order in
-- which the parameters are looked at is the one of the map.
pub mod Path
use asmodeus.Dsl.Json.{Value, string, as_u64}
use asmodeus.Dsl.Manifest.{ScenarioManifest, TargetScope, SafetySpec, or_else}
use asmodeus.Dsl.Plan.Path.{path_starts_with}
use asmodeus.Prelude.{
  ℕ, ◌*◌, ◌%◌, ◌^◌, min, Bool, true, false, ◌&&◌, ◌||◌, not, Option, none, some, List, [], ◌∷◌,
  Text, text, text_eq, Map, lookup, length, any, nat_eq, ltb, leb, is_some, unwrap_or, Result, ok,
  err, ◌>>=◌, ◌>>◌, reject_if, if◌then◌else◌,
}
use asmodeus.Prelude.Opt

pub data Action : Type 0 where
  synthetic_canary_encrypt k8s_escape_probe c2_beacon credential_canary : Action
  log_tamper_canary persistence_canary exfiltration_canary watchdog_probe : Action
  latency_spike : Action

pub record ExecutionPlan : Type 0 where
  pub action : Action
  pub target_dir : Text
  pub file_count : ℕ  -- u32
  pub chunk_size_kb : ℕ  -- u32
  pub io_rate_per_sec : ℕ  -- u32
  pub duration_ms : ℕ  -- u32
  pub max_duration_sec : ℕ  -- u32
  pub cpu_limit_percent : ℕ  -- u32
  pub target_cidr : Text
  pub iface : Text
  pub latency_ms : ℕ  -- u32
  pub jitter_ms : ℕ  -- u32
  pub loss_percent : ℕ  -- u8

-- The messages of `BudgetLimitExceeded`.
pub data PlanError : Type 0 where
  unsupported_action unsupported_parameter : Text → PlanError
  not_in_range : Text → ℕ → ℕ → PlanError
  no_duration no_cpu selector_unsupported lease_disabled outside_canary : PlanError
  too_much_data bad_iface duration_too_long cidr_unsupported : PlanError

-- The names that serde gives the variants of `Action`.
abbrev pub action_names : List (Text × Action)
action_names =
    (text "synthetic_canary_encrypt", synthetic_canary_encrypt)
    ∷ (text "k8s_escape_probe", k8s_escape_probe)
    ∷ (text "c2_beacon", c2_beacon)
    ∷ (text "credential_canary", credential_canary)
    ∷ (text "log_tamper_canary", log_tamper_canary)
    ∷ (text "persistence_canary", persistence_canary)
    ∷ (text "exfiltration_canary", exfiltration_canary)
    ∷ (text "watchdog_probe", watchdog_probe)
    ∷ (text "latency_spike", latency_spike)
    ∷ []

unfoldable pub action_of : Text → Option Action → Result PlanError Action
action_of name none = err (unsupported_action name)
action_of name (some a) = ok a

unfoldable pub is_latency_spike : Action → Bool
is_latency_spike latency_spike = true
is_latency_spike _ = false

unfoldable pub is_c2_beacon : Action → Bool
is_c2_beacon c2_beacon = true
is_c2_beacon _ = false

-- The parameters of an action beside `duration_ms`.
unfoldable pub own_parameters : Action → List Text
own_parameters synthetic_canary_encrypt =
    text "file_count" ∷ text "chunk_size_kb" ∷ text "io_rate_per_sec" ∷ []
own_parameters c2_beacon = text "file_count" ∷ []
own_parameters exfiltration_canary = text "chunk_size_kb" ∷ []
own_parameters latency_spike =
    text "latency_ms" ∷ text "jitter_ms" ∷ text "loss_percent" ∷ text "iface" ∷ []
own_parameters _ = []

unfoldable pub is_allowed : Action → Text → Bool
is_allowed action name =
    text_eq name (text "duration_ms") || any (text_eq name) (own_parameters action)

-- The loop over the names of the parameters.
unfoldable pub check_names : Action → Map Value → Result PlanError (Unit {0})
check_names action [] = ok tt
check_names action ((name, v) ∷ ps) = do
  reject_if (not (is_allowed action name)) (unsupported_parameter name)
  check_names action ps

unfoldable pub in_range : Text → ℕ → ℕ → Option ℕ → Result PlanError ℕ
in_range name lo hi none = err (not_in_range name lo hi)
in_range name lo hi (some n) =
    if leb lo n && leb n hi then ok (n % 2 ^ 32) else err (not_in_range name lo hi)

unfoldable pub number_of : Text → ℕ → ℕ → ℕ → Option Value → Result PlanError ℕ
number_of name fallback lo hi none = ok fallback
number_of name fallback lo hi (some v) = in_range name lo hi (as_u64 v)

-- The closure `number`.
unfoldable pub number : Map Value → Text → ℕ → ℕ → ℕ → Result PlanError ℕ
number parameters name fallback lo hi = number_of name fallback lo hi (lookup name parameters)

unfoldable pub iface_of : Option Value → Result PlanError Text
iface_of none = ok (text "lo")
iface_of (some (string s)) =
    if not (nat_eq (length s) 0) && leb (length s) 15 then ok s else err bad_iface
iface_of (some _) = err bad_iface

unfoldable pub has_selector : Option TargetScope → Bool
has_selector none = false
has_selector (some s) = elim s.selector [ none ↦ false | some m ↦ not (nat_eq (length m) 0) ]

unfoldable pub scope_path : Option TargetScope → Option Text
scope_path none = none
scope_path (some s) = s.target_path

unfoldable pub scope_cidr : Option TargetScope → Option Text
scope_cidr none = none
scope_cidr (some s) = s.target_cidr

unfoldable pub target_dir_of : Option TargetScope → Option Text → Text
target_dir_of scope canary =
    unwrap_or (or_else (scope_path scope) canary) (text "/tmp/asmodeus-canary")

unfoldable pub check_inside : Text → Option Text → Result PlanError (Unit {0})
check_inside target_dir none = ok tt
check_inside target_dir (some scope) =
    reject_if (not (path_starts_with target_dir scope)) outside_canary

-- `u32::saturating_mul`.
abbrev pub saturating_mul : ℕ → ℕ → ℕ
saturating_mul a b = min (a * b) 0xffff_ffff

-- The checks before the numbers are read.
unfoldable pub check_safety : SafetySpec → Option TargetScope → Result PlanError (Unit {0})
check_safety safety scope = do
  reject_if (nat_eq safety.max_duration_sec 0) no_duration
  reject_if (nat_eq safety.cpu_limit_percent 0) no_cpu
  reject_if (has_selector scope) selector_unsupported
  reject_if (not safety.circuit_breaker_on_host_unresponsive) lease_disabled
  check_inside (target_dir_of scope safety.canary_directory_only) safety.canary_directory_only

-- The file count and the size of a chunk.
unfoldable pub canary_size : Action → Map Value → Result PlanError (ℕ × ℕ)
canary_size action parameters = do
  file_count ← number parameters (text "file_count") 20 1 (if is_c2_beacon action then 100 else 200)
  chunk_size_kb ← number parameters (text "chunk_size_kb") 64 1 256
  reject_if (ltb (20 * 1024) (file_count * chunk_size_kb)) too_much_data
  ok (file_count, chunk_size_kb)

unfoldable pub duration_of : ℕ → Map Value → Result PlanError ℕ
duration_of max_duration_sec parameters = do
  duration_ms ← number parameters (text "duration_ms") 0 0 120_000
  reject_if (ltb (saturating_mul max_duration_sec 1000) duration_ms) duration_too_long
  ok duration_ms

-- The rate, the latency, the jitter and the loss.
unfoldable pub network_of : Map Value → Result PlanError (ℕ × ℕ × ℕ × ℕ)
network_of parameters = do
  io_rate_per_sec ← number parameters (text "io_rate_per_sec") 0 1 1000
  latency_ms ← number parameters (text "latency_ms") 100 0 5000
  jitter_ms ← number parameters (text "jitter_ms") 0 0 1000
  loss_percent ← number parameters (text "loss_percent") 0 0 50
  ok (io_rate_per_sec, latency_ms, jitter_ms, loss_percent % 256)

-- `ExecutionPlan::from_manifest`.
unfoldable pub from_manifest : ScenarioManifest → Result PlanError ExecutionPlan
from_manifest m = do
  let spec = m.spec
  let parameters = spec.action.parameters
  action ← action_of spec.action.action_type (lookup spec.action.action_type action_names)
  check_names action parameters
  check_safety spec.safety spec.target_scope
  (file_count, chunk_size_kb) ← canary_size action parameters
  iface ← iface_of (lookup (text "iface") parameters)
  duration_ms ← duration_of spec.safety.max_duration_sec parameters
  reject_if (not (is_latency_spike action) && is_some (scope_cidr spec.target_scope))
      cidr_unsupported
  (io_rate_per_sec, latency_ms, jitter_ms, loss_percent) ← network_of parameters
  ok (record {
    action = action;
    target_dir = target_dir_of spec.target_scope spec.safety.canary_directory_only;
    file_count = file_count;
    chunk_size_kb = chunk_size_kb;
    io_rate_per_sec = io_rate_per_sec;
    duration_ms = duration_ms;
    max_duration_sec = spec.safety.max_duration_sec;
    cpu_limit_percent = spec.safety.cpu_limit_percent;
    target_cidr = unwrap_or (scope_cidr spec.target_scope) (text "127.0.0.1/32");
    iface = iface;
    latency_ms = latency_ms;
    jitter_ms = jitter_ms;
    loss_percent = loss_percent;
  })

-- `action_for_scenario`.
unfoldable pub action_for_scenario : Text → Text
action_for_scenario id =
    unwrap_or
      (lookup id (
        (text "RANSOMWARE_CANARY_SPIKE", text "synthetic_canary_encrypt")
        ∷ (text "K8S_ESCAPE_SIMULATION", text "k8s_escape_probe")
        ∷ (text "C2_BEACONING_SIMULATION", text "c2_beacon")
        ∷ (text "CREDENTIAL_ACCESS_CANARY", text "credential_canary")
        ∷ (text "LOG_TAMPER_CANARY", text "log_tamper_canary")
        ∷ (text "PERSISTENCE_CRON_CANARY", text "persistence_canary")
        ∷ (text "DATA_EXFILTRATION_CANARY", text "exfiltration_canary")
        ∷ (text "DEFENSE_IMPAIRMENT_CANARY", text "watchdog_probe")
        ∷ (text "AGENT_CRASH_ENDPOINT", text "watchdog_probe")
        ∷ (text "LATENCY_SPIKE_VM", text "latency_spike")
        ∷ (text "DNS_RPZ_SINKHOLE_DROP", text "latency_spike")
        ∷ []))
      (text "unsupported")
