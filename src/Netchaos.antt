-- ===== src/Netchaos.antt =====
-- crates/asmodeus-runner/src/netchaos.rs: the gate of a chaos rule, the backend, the session that
-- rolls the rule back. A budget error holds the field and its value in place of the message.
pub mod Gate
pub mod Rollback
use asmodeus.Dsl.Net.{net_target_in_scope}
use asmodeus.Prelude.{
  ℕ, ◌+◌, ◌%◌, ◌^◌, ◌≡◌, Bool, true, false, ◌&&◌, ◌||◌, not, List, [], ◌∷◌, ◌++◌, Option, none,
  some, if◌then◌else◌, Text, text, text_eq, nat_eq, ltb, leb, any, all, filter, length, starts_with,
  is_digit, Result, ok, err, ◌>>=◌, ◌>>◌, reject_if, ◌==◌, Text_eq,
}

abbrev pub max_latency_ms : ℕ
max_latency_ms = 5000

abbrev pub max_jitter_ms : ℕ
max_jitter_ms = 1000

abbrev pub max_loss_pct : ℕ
max_loss_pct = 50

abbrev pub max_duration_ms : ℕ
max_duration_ms = 120000

-- `IFACE_MARKERS`.
abbrev pub iface_markers : List Text
iface_markers = text "test" ∷ text "chaos" ∷ text "veth" ∷ text "dummy" ∷ []

pub record NetChaosSpec : Type 0 where
  pub iface : Text
  pub target_cidr : Text
  pub latency_ms : ℕ  -- u32
  pub jitter_ms : ℕ  -- u32
  pub loss_pct : ℕ  -- u8
  pub duration_ms : ℕ  -- u32

pub data Budget : Type 0 where
  latency jitter loss duration : Budget

pub data NetChaosError : Type 0 where
  out_of_scope : Text → NetChaosError
  iface_out_of_scope : Text → NetChaosError
  budget_exceeded : Budget → ℕ → NetChaosError
  backend : Text → NetChaosError

-- `str::strip_prefix`.
unfoldable pub strip_prefix : Text → Text → Option Text
strip_prefix s [] = some s
strip_prefix [] (p ∷ ps) = none
strip_prefix (c ∷ s) (p ∷ ps) = if nat_eq c p then strip_prefix s ps else none

-- `str::contains`.
unfoldable pub contains : Text → Text → Bool
contains [] needle = starts_with [] needle
contains (c ∷ s) needle = starts_with (c ∷ s) needle || contains s needle

-- The loopback test of `iface_in_scope`, and `is_loopback` of aya_backend.rs.
unfoldable pub is_loopback : Text → Bool
is_loopback iface = iface == text "lo" || elim (strip_prefix iface (text "lo")) [
  | none ↦ false
  | some rest ↦ not (nat_eq (length rest) 0) && all is_digit rest
]

-- `iface_in_scope`.
unfoldable pub iface_in_scope : Text → Bool
iface_in_scope iface =
    if nat_eq (length iface) 0 || ltb 15 (length iface)
    then false
    else is_loopback iface || any (contains iface) iface_markers

-- `NetChaosSpec::validate`.
unfoldable pub validate : NetChaosSpec → Result NetChaosError (Unit {0})
validate spec = do
  reject_if (not (net_target_in_scope spec.target_cidr)) (out_of_scope spec.target_cidr)
  reject_if (not (iface_in_scope spec.iface)) (iface_out_of_scope spec.iface)
  reject_if (ltb max_latency_ms spec.latency_ms) (budget_exceeded latency spec.latency_ms)
  reject_if (ltb max_jitter_ms spec.jitter_ms) (budget_exceeded jitter spec.jitter_ms)
  reject_if (ltb max_loss_pct spec.loss_pct) (budget_exceeded loss spec.loss_pct)
  reject_if (nat_eq spec.duration_ms 0 || ltb max_duration_ms spec.duration_ms)
      (budget_exceeded duration spec.duration_ms)
  ok tt

pub record RuleHandle : Type 0 where
  pub iface : Text
  pub target_cidr : Text
  pub token : ℕ  -- u64

-- `SimBackend`: the installed rules, the newest last, and the next token.
pub record SimBackend : Type 0 where
  pub installed : List RuleHandle
  pub next_token : ℕ  -- u64

-- `SimBackend::apply`, which never fails; `fetch_add` wraps.
unfoldable pub sim_apply : SimBackend → NetChaosSpec → SimBackend × Result NetChaosError RuleHandle
sim_apply b spec =
    let handle : RuleHandle = record {
      iface = spec.iface;
      target_cidr = spec.target_cidr;
      token = b.next_token;
    } in
    (
      record { installed = b.installed ++ handle ∷ []; next_token = (b.next_token + 1) % 2 ^ 64 },
      ok handle,
    )

unfoldable pub without_token : ℕ → List RuleHandle → List RuleHandle
without_token token rules = filter (λ r. not (nat_eq r.token token)) rules

-- `SimBackend::revert`.
unfoldable pub sim_revert : SimBackend → RuleHandle → SimBackend × Result NetChaosError (Unit {0})
sim_revert b handle =
    let rules = without_token handle.token b.installed in
    (
      record b { installed = rules },
      if nat_eq (length rules) (length b.installed)
          then err (backend (text "no such rule"))
          else ok tt,
    )

-- The trait `NetChaosBackend`: a state, the rules that it has installed, and the two operations.
pub record Backend : Type 1 where
  pub State : Type 0
  pub rules : State → List RuleHandle
  pub apply : State → NetChaosSpec → State × Result NetChaosError RuleHandle
  pub revert : State → RuleHandle → State × Result NetChaosError (Unit {0})

abbrev pub sim_backend : Backend
sim_backend = record {
  State = SimBackend;
  rules = λ b. b.installed;
  apply = sim_apply;
  revert = sim_revert;
}

-- `NetChaosSession` beside the state of its backend.
pub record Session (b : Backend) : Type 0 where
  pub state : b.State
  pub handle : Option RuleHandle

module _ (b : Backend) where
  after_apply :
      b.State × Result NetChaosError RuleHandle → b.State × Result NetChaosError (Session b)
  after_apply (s, ok handle) = (s, ok (record { state = s; handle = some handle }))
  after_apply (s, err e) = (s, err e)

  -- `NetChaosSession::start`.
  unfoldable pub start : b.State → NetChaosSpec → b.State × Result NetChaosError (Session b)
  unfolding after_apply
  start s spec = elim (validate spec) [ ok u ↦ after_apply (b.apply s spec) | err e ↦ (s, err e) ]

  take_handle : b.State → Option RuleHandle → Session b × Result NetChaosError (Unit {0})
  take_handle s none = (record { state = s; handle = none }, ok tt)
  take_handle s (some h) = (record { state = (b.revert s h).0; handle = none }, (b.revert s h).1)

  -- `NetChaosSession::revert`: the handle is taken before the backend is called.
  unfoldable pub revert : Session b → Session b × Result NetChaosError (Unit {0})
  unfolding take_handle
  revert ses = take_handle ses.state ses.handle

  -- `Drop::drop`: what the backend answers is only logged.
  unfoldable pub drop : Session b → b.State
  unfolding revert
  drop ses = (revert ses).0.state
