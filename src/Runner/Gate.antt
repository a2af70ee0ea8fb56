-- ===== src/Runner/Gate.antt =====
-- crates/asmodeus-runner/src/service.rs: what the runner knows of a request that it accepts.
use asmodeus.Common.Category.{synthetic}
use asmodeus.Dsl.Check.Bounded.{IsBounded}
use asmodeus.Dsl.Check.{ManifestValidationError}
use asmodeus.Dsl.Json.{Value}
use asmodeus.Dsl.Manifest.{ScenarioManifest}
use asmodeus.Dsl.Parse.{manifest_text_is_gated}
use asmodeus.Dsl.Plan.{PlanError, ExecutionPlan, from_manifest}
use asmodeus.Runner.{RunnerService, ServiceError, is_busy, admitted, execute}
use asmodeus.Runner.Slot.{HoldsSlot, admitted-HoldsSlot}
use asmodeus.Runner.Request.{
  Refusal, admit, on_validated, execute_request, ExecuteRequest, is_identifier_char, key_of,
  manifest_of, plan_of, check_request, validate,
}
use asmodeus.Prelude.Ensures.{Ensures, succeeds, stops, from_ok, result_of, after_test, after_step}
use asmodeus.Prelude.{
  Bool-cases, inl, inr, ℕ, ◌≤◌, ◌<◌, ◌≡◌, refl, sym, ap, subst, arith, Bool, true, false, ◌||◌, not,
  Option, none, some, Text, text_eq, text_eq_iff, nat_eq, ltb, length, all, Result, ok, err,
}

-- The request asks for what its plan says, under an identifier, within the signed time.
pub record IsFaithful (req : ExecuteRequest) (plan : ExecutionPlan) : Type 0 where
  pub same_dir : req.target_dir ≡ plan.target_dir
  pub same_files : req.file_count ≡ plan.file_count
  pub same_chunks : req.chunk_size_kb ≡ plan.chunk_size_kb
  pub named : 0 < length req.run_id
  pub short_name : length req.run_id ≤ 96
  pub plain_name : all is_identifier_char req.run_id ≡ true
  pub in_time : req.timeout_sec ≤ plan.max_duration_sec

differ-false :
    (a b c d : Bool)
    → (not a || (not b || (not c || not d))) ≡ false
    → (a ≡ true) × (b ≡ true) × (c ≡ true) × (d ≡ true)
differ-false a b c d h = ground arith

check_request-Ensures :
    (req : ExecuteRequest) (m : ScenarioManifest) (plan : ExecutionPlan)
    → Ensures (λ p. (p ≡ plan) × IsFaithful req plan) (check_request req m plan)
unfolding check_request
check_request-Ensures req m plan =
    after_test
      (not (text_eq m.metadata.id req.scenario_id)
        || (not (text_eq plan.target_dir req.target_dir)
            || (not (nat_eq plan.file_count req.file_count)
                || not (nat_eq plan.chunk_size_kb req.chunk_size_kb))))
      _
      λ same.
        after_test
          (nat_eq (length req.run_id) 0
            || (ltb 96 (length req.run_id) || not (all is_identifier_char req.run_id)))
          _
          λ name. after_test (ltb plan.max_duration_sec req.timeout_sec) _ λ time.
            let (a, b, c, d) = differ-false (text_eq m.metadata.id req.scenario_id) _ _ _ same in
            succeeds (
              refl,
              record {
                same_dir = sym ((text_eq_iff plan.target_dir req.target_dir).0 b);
                same_files = ground arith;
                same_chunks = ground arith;
                named = ground arith;
                short_name = ground arith;
                plain_name = ground arith;
                in_time = ground arith;
              },
            )

plan_of-Ensures :
    (m : ScenarioManifest) (r : Result PlanError ExecutionPlan)
    → from_manifest m ≡ r
    → Ensures (λ p. from_manifest m ≡ ok p) (plan_of r)
unfolding plan_of
plan_of-Ensures m (ok p) e = succeeds e
plan_of-Ensures m (err x) e = stops

-- What is known of a manifest that passes the gate.
unfoldable IsGated : ScenarioManifest → Type 0
IsGated m =
    (m.spec.action.nature ≡ synthetic)
    × ((p : ExecutionPlan) × (from_manifest m ≡ ok p) × IsBounded p)

manifest_of-Ensures :
    (r : Result ManifestValidationError ScenarioManifest)
    → ((m : ScenarioManifest) → r ≡ ok m → IsGated m)
    → Ensures IsGated (manifest_of (some r))
unfolding manifest_of
manifest_of-Ensures (ok m) h = succeeds (h m refl)
manifest_of-Ensures (err e) h = stops

gated-IsBounded :
    (m : ScenarioManifest) (plan : ExecutionPlan)
    → IsGated m
    → from_manifest m ≡ ok plan
    → IsBounded plan
unfolding IsGated
gated-IsBounded m plan (nature, (p, is, bounded)) e =
    let same : p ≡ plan = cc in subst IsBounded same bounded

module _ (from_str : Text → Result Text ScenarioManifest)
    (from_value : Value → Result Text ScenarioManifest) (parse_f64 : Text → Option ℕ)
    (is_valid : Text → Text → Text → Bool) (is_utf8 : Text → Bool) where
  -- What is known of a request that has been accepted, and of its plan.
  unfoldable pub IsAccepted : Option Text → ExecuteRequest → ExecutionPlan → Type 0
  IsAccepted trusted_key req plan =
      (trusted_key ≡ some req.public_key)
      × (is_valid req.manifest req.signature req.public_key ≡ true)
      × IsBounded plan
      × IsFaithful req plan

  trusted-key :
      (key : Text) (req : ExecuteRequest)
      → (not (text_eq key req.public_key) || not (is_valid req.manifest req.signature key)) ≡ false
      → (some key ≡ some req.public_key)
        × (is_valid req.manifest req.signature req.public_key ≡ true)
  trusted-key key req h =
      let e : text_eq key req.public_key ≡ true = ground arith in
      let same = (text_eq_iff key req.public_key).0 e in
      (ap some same, subst (λ k. is_valid req.manifest req.signature k ≡ true) same (ground arith))

  -- What `validate` promises of a plan.
  validate-IsBounded :
      (trusted_key : Option Text) (req : ExecuteRequest) (plan : ExecutionPlan)
      → validate from_str from_value parse_f64 is_valid is_utf8 trusted_key req ≡ ok plan
      → IsAccepted trusted_key req plan
  unfolding validate key_of IsGated IsAccepted
  validate-IsBounded none req plan h = cc
  validate-IsBounded (some key) req plan h =
      let (r, is, gated) = manifest_text_is_gated from_str from_value parse_f64 req.manifest in
      result_of
        {Q = λ p.
          (some key ≡ some req.public_key)
          × (is_valid req.manifest req.signature req.public_key ≡ true)
          × IsBounded p
          × IsFaithful req p}
        (after_test
          (not (text_eq key req.public_key) || not (is_valid req.manifest req.signature key)) _
          λ trusted. after_test (not (is_utf8 req.manifest)) _ λ utf8.
            let (same, signed) = trusted-key key req trusted in
            rw is (
              after_step (manifest_of-Ensures r (λ m e. gated m e)) λ m good.
                after_step (plan_of-Ensures m (from_manifest m) refl) λ q planned.
                  from_ok (check_request req m q) λ p e.
                    let (one, faithful) = result_of (check_request-Ensures req m q) e in
                    let fits : IsFaithful req p = subst (IsFaithful req) (sym one) faithful in
                    (
                      same,
                      signed,
                      gated-IsBounded m p good
                          (subst (λ x. from_manifest m ≡ ok x) (sym one) planned),
                      fits,
                    )))
        h

  accepted_by :
      (trusted_key : Option Text) (req : ExecuteRequest) (now : ℕ) (s after : RunnerService)
      (plan : ExecutionPlan) (serial : ℕ) (r : Result Refusal ExecutionPlan)
      → on_validated req now s r ≡ (after, ok (plan, serial))
      → (r ≡ ok plan) × (execute req.run_id now s ≡ (after, ok serial))
  unfolding on_validated admit
  accepted_by trusted_key req now s after plan serial (err e) h = cc
  accepted_by trusted_key req now s after plan serial (ok p) h =
      let (same, taken) = admitted-by p (execute req.run_id now s) h in (ap ok same, taken)
    where
      admitted-by :
          (p : ExecutionPlan) (a : RunnerService × Result ServiceError ℕ)
          → admit p a ≡ (after, ok (plan, serial))
          → (p ≡ plan) × (a ≡ (after, ok serial))
      admitted-by p (t, ok n) e = (cc, cc)
      admitted-by p (t, err x) e = cc

  -- A run that the runner admits names the key that the runner trusts, and the signature of its
  -- manifest holds under that key; its plan is within every bound, the request asks for the directory,
  -- the files and the chunks that the plan says, its run id is of 1 to 96 letters, digits, `_` and
  -- `-`, and its time is at most that of the plan; and no run held the slot, which the run holds from
  -- then on. This holds whatever the deserialisation and the check of a signature answer.
  pub execute_request_lem :
      (trusted_key : Option Text) (req : ExecuteRequest) (now : ℕ) (s after : RunnerService)
      (plan : ExecutionPlan) (serial : ℕ)
      → execute_request from_str from_value parse_f64 is_valid is_utf8 trusted_key req now s
        ≡ (after, ok (plan, serial))
      → IsAccepted trusted_key req plan
        × (is_busy s.active ≡ false)
        × HoldsSlot serial req.run_id after.active
  unfolding execute_request execute
  execute_request_lem trusted_key req now s after plan serial h =
      let (valid, taken) = accepted_by trusted_key req now s after plan serial _ h in
      elim (Bool-cases (is_busy s.active)) [
        | inl t ↦ cc (rw t at taken)
        | inr t ↦
            let slot = rw t at taken in
            let kept : admitted req.run_id now s ≡ after = cc in
            let numbered : s.next_serial ≡ serial = cc in
            (
              validate-IsBounded trusted_key req plan valid,
              t,
              subst (λ x. HoldsSlot serial req.run_id x.active) kept
                  (subst (λ k. HoldsSlot k req.run_id (admitted req.run_id now s).active) numbered
                    (admitted-HoldsSlot req.run_id now s)),
            )
      ]
