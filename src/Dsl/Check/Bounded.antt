-- ===== src/Dsl/Check/Bounded.antt =====
-- crates/asmodeus-dsl/src/manifest.rs, execution.rs: an accepted manifest has a plan, and the plan is
-- within every bound.
use asmodeus.Common.Category.{synthetic, is_permitted}
use asmodeus.Dsl.Check.{
  ManifestValidationError, invalid_canary_path, invalid_network_target, supported_api_versions,
  check_some, check_limits, check_scope, check_metadata, compiled, validate_manifest,
}
use asmodeus.Dsl.Check.Parts.{
  number_bounds, iface_bounds, default_dir_in_scope, default_cidr_in_scope, Passes,
  check_some-Passes, or_else-Passes, unwrap_or-Passes, permitted,
}
use asmodeus.Dsl.Json.{Value}
use asmodeus.Dsl.Manifest.{ScenarioManifest, SafetySpec, TargetScope}
use asmodeus.Dsl.Net.{net_target_in_scope}
use asmodeus.Dsl.Plan.{
  Action, ExecutionPlan, PlanError, canary_size, has_selector, selector_unsupported, lease_disabled,
  cidr_unsupported, duration_of, network_of, action_of, check_names, number, iface_of, scope_path,
  scope_cidr, target_dir_of, check_safety, from_manifest, is_c2_beacon, saturating_mul,
}
use asmodeus.Prelude.Ensures.{
  Ensures, succeeds, from_ok, result_of, after_test, after_step, after_any,
}
use asmodeus.Dsl.Scope.{path_in_scope}
use asmodeus.Prelude.{
  ℕ, ◌≤◌, ◌<◌, ◌*◌, ◌^◌, ◌≡◌, refl, arith, Bool, true, not, any, nat_eq, ltb, Option, Text, text,
  Map, length, unwrap_or, Result, ok, err, reject_if, if◌then◌else◌, text_eq,
}

-- What the runner relies on in a plan.
pub record IsBounded (p : ExecutionPlan) : Type 0 where
  pub dir_in_scope : path_in_scope p.target_dir ≡ true
  pub cidr_in_scope : net_target_in_scope p.target_cidr ≡ true
  pub file_count_pos : 1 ≤ p.file_count
  pub file_count_le : p.file_count ≤ 200
  pub chunk_size_pos : 1 ≤ p.chunk_size_kb
  pub chunk_size_le : p.chunk_size_kb ≤ 256
  pub canary_data_le : p.file_count * p.chunk_size_kb ≤ 20480
  pub io_rate_le : p.io_rate_per_sec ≤ 1000
  pub max_duration_pos : 0 < p.max_duration_sec
  pub max_duration_le : p.max_duration_sec ≤ 300
  pub duration_le : p.duration_ms ≤ p.max_duration_sec * 1000
  pub duration_le_limit : p.duration_ms ≤ 120_000
  pub cpu_pos : 0 < p.cpu_limit_percent
  pub cpu_le : p.cpu_limit_percent ≤ 85
  pub iface_pos : 0 < length p.iface
  pub iface_le : length p.iface ≤ 15
  pub latency_le : p.latency_ms ≤ 5000
  pub jitter_le : p.jitter_ms ≤ 1000
  pub loss_le : p.loss_percent ≤ 50

number-Ensures :
    (ps : Map Value) (name : Text) (fallback lo hi low : ℕ)
    → hi < 2 ^ 32
    → low ≤ lo
    → low ≤ fallback
    → fallback ≤ hi
    → Ensures (λ n. (low ≤ n) × (n ≤ hi)) (number ps name fallback lo hi)
number-Ensures ps name fallback lo hi low h a b c =
    from_ok _ λ n e. number_bounds ps name fallback lo hi n low e h a b c

file_limit : Bool → ℕ
file_limit b = if b then 100 else 200

file_limit_bounds : (b : Bool) → (20 ≤ file_limit b) × (file_limit b ≤ 200)
unfolding file_limit
file_limit_bounds b = ground arith

canary_size-Ensures :
    (action : Action) (ps : Map Value)
    → Ensures
        (λ (n : ℕ × ℕ). (1 ≤ n.0) × (n.0 ≤ 200) × (1 ≤ n.1) × (n.1 ≤ 256) × (n.0 * n.1 ≤ 20480))
        (canary_size action ps)
unfolding canary_size file_limit
canary_size-Ensures action ps =
    let (least, most) = file_limit_bounds (is_c2_beacon action) in
    after_step
      (number-Ensures ps (text "file_count") 20 1 (file_limit (is_c2_beacon action)) 1 (omega arith)
        (omega arith) (omega arith) least)
      λ files a.
        after_step
          (number-Ensures ps (text "chunk_size_kb") 64 1 256 1 (omega arith) (omega arith)
            (omega arith) (omega arith))
          λ chunk b.
            after_test (ltb (20 * 1024) (files * chunk)) _
              λ small. succeeds (a.0, omega (arith, a.1), b.0, b.1, ground arith)

duration_of-Ensures :
    (limit : ℕ) (ps : Map Value)
    → limit ≤ 300
    → Ensures (λ n. (n ≤ limit * 1000) × (n ≤ 120_000)) (duration_of limit ps)
unfolding duration_of
duration_of-Ensures limit ps h =
    after_step
      (number-Ensures ps (text "duration_ms") 0 0 120_000 0 (omega arith) (omega arith)
        (omega arith) (omega arith))
      λ n b. after_test (ltb (saturating_mul limit 1000) n) _ λ short. succeeds (ground arith, b.1)

network_of-Ensures :
    (ps : Map Value)
    → Ensures
        (λ (n : ℕ × ℕ × ℕ × ℕ). (n.0 ≤ 1000) × (n.1 ≤ 5000) × (n.2 ≤ 1000) × (n.3 ≤ 50))
        (network_of ps)
unfolding network_of
network_of-Ensures ps =
    after_step
      (number-Ensures ps (text "io_rate_per_sec") 0 1 1000 0 (omega arith) (omega arith)
        (omega arith) (omega arith))
      λ io a.
        after_step
          (number-Ensures ps (text "latency_ms") 100 0 5000 0 (omega arith) (omega arith)
            (omega arith) (omega arith))
          λ latency b.
            after_step
              (number-Ensures ps (text "jitter_ms") 0 0 1000 0 (omega arith) (omega arith)
                (omega arith) (omega arith))
              λ jitter c.
                after_step
                  (number-Ensures ps (text "loss_percent") 0 0 50 0 (omega arith) (omega arith)
                    (omega arith) (omega arith))
                  λ loss d. succeeds (a.1, b.1, c.1, omega (arith, d.1))

check_safety-Ensures :
    (s : SafetySpec) (scope : Option TargetScope)
    → Ensures (λ _. (0 < s.max_duration_sec) × (0 < s.cpu_limit_percent)) (check_safety s scope)
unfolding check_safety
check_safety-Ensures s scope = after_test (nat_eq s.max_duration_sec 0) _ λ a.
    after_test (nat_eq s.cpu_limit_percent 0) _ λ b.
      after_any (reject_if (has_selector scope) selector_unsupported) λ u.
        after_any (reject_if (not s.circuit_breaker_on_host_unresponsive) lease_disabled)
          λ v. from_ok _ λ w e. ground arith

-- The plan of a manifest whose limits and scope have been checked.
from_manifest-Ensures :
    (m : ScenarioManifest)
    → m.spec.safety.max_duration_sec ≤ 300
    → m.spec.safety.cpu_limit_percent ≤ 85
    → path_in_scope (target_dir_of m.spec.target_scope m.spec.safety.canary_directory_only) ≡ true
    → net_target_in_scope (unwrap_or (scope_cidr m.spec.target_scope) (text "127.0.0.1/32")) ≡ true
    → Ensures IsBounded (from_manifest m)
unfolding from_manifest
from_manifest-Ensures m dur cpu dir cidr =
    let ps = m.spec.action.parameters in
    after_any (action_of m.spec.action.action_type _) λ action.
      after_any (check_names action ps) λ u.
        after_step (check_safety-Ensures m.spec.safety m.spec.target_scope) λ v pos.
          after_step (canary_size-Ensures action ps) λ size canary.
            after_step (from_ok (iface_of _) (λ s e. iface_bounds _ s e)) λ iface named.
              after_step (duration_of-Ensures m.spec.safety.max_duration_sec ps dur)
                λ duration short. after_any (reject_if _ cidr_unsupported) λ w.
                  after_step (network_of-Ensures ps) λ net bounds. succeeds (record {
                    dir_in_scope = dir;
                    cidr_in_scope = cidr;
                    file_count_pos = canary.0;
                    file_count_le = canary.1;
                    chunk_size_pos = canary.2;
                    chunk_size_le = canary.3;
                    canary_data_le = canary.4;
                    io_rate_le = bounds.0;
                    max_duration_pos = pos.0;
                    max_duration_le = dur;
                    duration_le = short.0;
                    duration_le_limit = short.1;
                    cpu_pos = pos.1;
                    cpu_le = cpu;
                    iface_pos = named.0;
                    iface_le = named.1;
                    latency_le = bounds.1;
                    jitter_le = bounds.2;
                    loss_le = bounds.3;
                  })

compiled-ok :
    (r : Result PlanError ExecutionPlan) → compiled r ≡ ok tt → (p : ExecutionPlan) × (r ≡ ok p)
unfolding compiled
compiled-ok (ok p) h = (p, refl)
compiled-ok (err e) h = cc

check_limits-Ensures :
    (s : SafetySpec)
    → Ensures (λ _. (s.max_duration_sec ≤ 300) × (s.cpu_limit_percent ≤ 85)) (check_limits s)
unfolding check_limits
check_limits-Ensures s =
    after_test (ltb 300 s.max_duration_sec) _ λ a. from_ok _ λ u e. ground arith

check_some-Ensures :
    (test : Text → Bool) (e : Text → ManifestValidationError) (o : Option Text)
    → Ensures (λ _. Passes test o) (check_some test e o)
check_some-Ensures test e o = from_ok _ λ u h. check_some-Passes test e o h

check_scope-Ensures :
    (canary : Option Text) (scope : Option TargetScope)
    → Ensures
        (λ _.
          (path_in_scope (target_dir_of scope canary) ≡ true)
          × (net_target_in_scope (unwrap_or (scope_cidr scope) (text "127.0.0.1/32")) ≡ true))
        (check_scope canary scope)
unfolding check_scope target_dir_of
check_scope-Ensures canary scope =
    after_step (check_some-Ensures path_in_scope invalid_canary_path canary) λ u a.
      after_step (check_some-Ensures path_in_scope invalid_canary_path (scope_path scope)) λ v b.
        from_ok _ λ w e. (
          or_else-Passes path_in_scope (scope_path scope) canary _ b a default_dir_in_scope,
          unwrap_or-Passes net_target_in_scope (scope_cidr scope) _
              (check_some-Passes net_target_in_scope invalid_network_target (scope_cidr scope) e)
              default_cidr_in_scope,
        )

-- A manifest that is accepted is synthetic and is compiled to a plan, and the plan keeps to the canary
-- directory, to the reserved networks and to every limit of time, load, data and disturbance.
pub validate_manifest-IsBounded :
    (m : ScenarioManifest)
    → validate_manifest m ≡ ok tt
    → (m.spec.action.nature ≡ synthetic)
      × ((p : ExecutionPlan) × (from_manifest m ≡ ok p) × IsBounded p)
unfolding validate_manifest
validate_manifest-IsBounded m =
    result_of
      {Q = λ _.
        (m.spec.action.nature ≡ synthetic)
        × ((p : ExecutionPlan) × (from_manifest m ≡ ok p) × IsBounded p)}
      (after_test (not (any (text_eq m.api_version) supported_api_versions)) _ λ version.
        after_test (not (is_permitted m.spec.action.nature)) _ λ nature.
          after_step (check_limits-Ensures m.spec.safety) λ u limits.
            after_step (check_scope-Ensures m.spec.safety.canary_directory_only m.spec.target_scope)
              λ v scope. after_any (check_metadata m.metadata) λ w. from_ok _ λ x e.
                let (p, is) = compiled-ok (from_manifest m) e in
                (
                  permitted m.spec.action.nature (ground arith),
                  (p, is, result_of (from_manifest-Ensures m limits.0 limits.1 scope.0 scope.1) is),
                ))
