-- ===== src/Netchaos/Rollback.antt =====
-- A session leaves no rule behind.
use asmodeus.Netchaos.{
  NetChaosSpec, NetChaosError, RuleHandle, SimBackend, sim_apply, sim_revert, without_token,
  Backend, sim_backend, Session, start, revert, drop, validate,
}
use asmodeus.Prelude.{
  ℕ, zero, suc, ◌<◌, ◌≡◌, refl, ap, ◌∙◌, List, [], ◌∷◌, ◌++◌, none, some, arith, Result, ok, err,
  All, length, length-append,
}

-- What a backend promises: a rule that was just installed is removed by its handle, and the rules
-- are those of before.
pub record IsReversible (b : Backend) (Ready : b.State → Type 0) : Type 0 where
  pub undo :
      (s t : b.State) (spec : NetChaosSpec) (h : RuleHandle)
      → Ready s
      → b.apply s spec ≡ (t, ok h)
      → ((b.revert t h).1 ≡ ok tt) × (b.rules (b.revert t h).0 ≡ b.rules s)

module _ (b : Backend) where
  -- Explicit calls of `revert`, one after the other.
  pub reverts : ℕ → Session b → Session b
  reverts zero ses = ses
  reverts (suc n) ses = reverts n (revert b ses).0

  reverts_settled :
      (n : ℕ) (s : b.State)
      → reverts n (record { state = s; handle = none }) ≡ record { state = s; handle = none }
  unfolding reverts revert
  reverts_settled zero s = refl
  reverts_settled (suc n) s = reverts_settled n s

  reverts_rules :
      (n : ℕ) (t : b.State) (h : RuleHandle)
      → b.rules (drop b (reverts n (record { state = t; handle = some h })))
        ≡ b.rules (b.revert t h).0
  unfolding reverts drop
  reverts_rules zero t h = refl
  reverts_rules (suc n) t h = ap (λ u. b.rules (drop b u)) (reverts_settled n (b.revert t h).0)

  start-eq-ok :
      (s t : b.State) (spec : NetChaosSpec) (ses : Session b)
      → start b s spec ≡ (t, ok ses)
      → (h : RuleHandle) × (b.apply s spec ≡ (t, ok h))
        × (ses ≡ record { state = t; handle = some h })
        × (validate spec ≡ ok tt)
  unfolding start
  start-eq-ok s t spec ses e = go (validate spec) refl (b.apply s spec) refl
    where
      go :
          (r : Result NetChaosError (Unit {0}))
          → validate spec ≡ r
          → (q : b.State × Result NetChaosError RuleHandle) → b.apply s spec ≡ q
          → (h : RuleHandle) × (b.apply s spec ≡ (t, ok h))
            × (ses ≡ record { state = t; handle = some h })
            × (validate spec ≡ ok tt)
      go (ok u) v (s', ok h) a = (h, ground arith, ground arith, v)
      go (ok u) v (s', err x) a = absurd (ground arith)
      go (err x) v q a = absurd (ground arith)

  -- Once a session has started, the rules of the backend after any number of explicit reverts and
  -- the drop of the session are those of before the start; nothing starts without the gate.
  pub rollback :
      {Ready : b.State → Type 0}
      → IsReversible b Ready
      → (s t : b.State) (spec : NetChaosSpec) (ses : Session b) (n : ℕ) → Ready s
      → start b s spec ≡ (t, ok ses)
      → (b.rules (drop b (reverts n ses)) ≡ b.rules s) × (validate spec ≡ ok tt)
  rollback law s t spec ses n ready e =
      let (h, applied, is, valid) = start-eq-ok s t spec ses e in
      (rw is (reverts_rules n t h ∙ (law.undo s t spec h ready applied).1), valid)

-- Every token in use is older than the next one.
abbrev pub IsFresh : SimBackend → Type 0
IsFresh s = All (λ (r : RuleHandle). r.token < s.next_token) s.installed

without_token-fresh :
    (h : RuleHandle) (rs : List RuleHandle)
    → All (λ (r : RuleHandle). r.token < h.token) rs
    → without_token h.token (rs ++ h ∷ []) ≡ rs
unfolding without_token
without_token-fresh h [] fresh = ground arith
without_token-fresh h (r ∷ rs) fresh = ground (arith, without_token-fresh h rs fresh.1)

pub sim-IsReversible : IsReversible sim_backend IsFresh
unfolding sim_apply sim_revert
sim-IsReversible = record { undo = undo }
  where
    undo :
        (s t : SimBackend) (spec : NetChaosSpec) (h : RuleHandle)
        → IsFresh s
        → sim_apply s spec ≡ (t, ok h)
        → ((sim_revert t h).1 ≡ ok tt) × ((sim_revert t h).0.installed ≡ s.installed)
    undo s t spec h fresh e =
        let i : t.installed ≡ s.installed ++ h ∷ [] = ground arith in
        let k : h.token ≡ s.next_token = ground arith in
        let w : without_token h.token t.installed ≡ s.installed =
          rw i (without_token-fresh h s.installed (rw k fresh)) in
        (ground (arith, ap length w, ap length i, length-append s.installed (h ∷ [])), w)

-- On the simulated backend, a session that has started leaves the installed rules as they were before
-- it, after any number of explicit reverts and the drop, as long as each installed rule has a token
-- below the next one; and no session starts without the gate.
pub sim_rollback :
    (s t : SimBackend) (spec : NetChaosSpec) (ses : Session sim_backend) (n : ℕ)
    → IsFresh s
    → start sim_backend s spec ≡ (t, ok ses)
    → ((drop sim_backend (reverts sim_backend n ses)).installed ≡ s.installed)
      × (validate spec ≡ ok tt)
sim_rollback s t spec ses n fresh e = rollback sim_backend sim-IsReversible s t spec ses n fresh e
