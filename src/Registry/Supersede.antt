-- ===== src/Registry/Supersede.antt =====
-- crates/asmodeus-control-plane/src/registry.rs: a reply that comes too late.
use asmodeus.Registry.{
  RunnerRecord, RunnerProbe, RegisteredRunner, RegistryData, register, set_draining, deregister,
  begin_probe, update_heartbeat, mark_unresponsive, is_draining, drained, answer, renewed,
  heartbeat_of, silenced, probe_entry, set_entry, map_option,
}
use asmodeus.Registry.Ops.{
  Op, registering, setting_draining, deregistering, probing, beating, missing, apply, apply_all,
  submitted,
}
use asmodeus.Prelude.{
  ◌≡◌, ◌≢◌, ◌<◌, ◌≤◌, ◌⊎◌, inl, inr, Bool-cases, suc, Option, refl, arith, ℕ, Bool, true, false,
  not, none, some, List, [], ◌∷◌, Text, text_eq_iff, text_eq_refl, nat_eq, nat_eq_iff, lookup,
  insert, remove, lookup-insert, lookup-remove,
}

-- The epoch of the probe was given out, and its runner does not stand in it.
pub IsStale : RunnerProbe → RegistryData → Type 0
IsStale p d =
    (p.epoch < d.next_epoch)
    × ((r : RegisteredRunner) → lookup p.record_.id d.runners ≡ some r → r.epoch ≢ p.epoch)

-- The step ends the epoch of the runner `id`: it is registered anew, taken out, probed again, or its
-- maintenance state changes.
unfoldable pub Supersedes : Text → RegistryData → Op → Type 0
Supersedes id d (registering r) = r.id ≡ id
Supersedes id d (setting_draining i drain) =
    (i ≡ id)
    × ((r : RegisteredRunner)
        → lookup id d.runners ≡ some r
        → is_draining r.record_.status ≡ not drain)
Supersedes id d (deregistering i) = i ≡ id
Supersedes id d (probing i) = i ≡ id
Supersedes id d (beating now probe healthy cpu_pct version) = ⊥
Supersedes id d (missing probe) = ⊥

IsStale-kept :
    (p : RunnerProbe) (d : RegistryData) (r : RegisteredRunner)
    → IsStale p d
    → lookup p.record_.id d.runners ≡ some r
    → r.epoch ≢ p.epoch
unfolding IsStale
IsStale-kept p d r h e = h.1 r e

IsStale-fresh : (p : RunnerProbe) (d : RegistryData) → IsStale p d → d.next_epoch ≢ p.epoch
unfolding IsStale
IsStale-fresh p d h = omega arith

IsStale-insert :
    (p : RunnerProbe) (d : RegistryData) (k : Text) (e : RegisteredRunner) (b : Bool) (n : ℕ)
    → IsStale p d
    → d.next_epoch ≤ n
    → (k ≡ p.record_.id → e.epoch ≢ p.epoch)
    → IsStale p (record { runners = insert k e d.runners; require_runner = b; next_epoch = n })
unfolding IsStale
IsStale-insert p d k e b n h le apart = (
  omega arith,
  λ r found same.
      ground
        (arith, lookup-insert k p.record_.id e d.runners, text_eq_iff k p.record_.id, h.1 r, apart),
)

IsStale-answer :
    (p : RunnerProbe) (f : RunnerRecord → RunnerRecord) (probe : RunnerProbe)
    (found : Option RegisteredRunner) (d : RegistryData)
    → lookup probe.record_.id d.runners ≡ found
    → IsStale p d
    → IsStale p (answer f probe found d).0
unfolding answer
IsStale-answer p f probe none d e h = h
IsStale-answer p f probe (some r) d e h = elim (Bool-cases (nat_eq r.epoch probe.epoch)) [
  | inl t ↦ rw t (
      IsStale-insert p d probe.record_.id (record r { record_ = f r.record_ }) d.require_runner
        d.next_epoch h (omega arith) (λ same. IsStale-kept p d r h (rw same at e)))
  | inr t ↦ rw t h
]

IsStale-probe_entry :
    (p : RunnerProbe) (id : Text) (found : Option RegisteredRunner) (d : RegistryData)
    → lookup id d.runners ≡ found
    → IsStale p d
    → IsStale p (probe_entry id found d).0
unfolding probe_entry
IsStale-probe_entry p id none d e h = h
IsStale-probe_entry p id (some r) d e h =
    IsStale-insert p d id (record r { epoch = d.next_epoch }) d.require_runner (suc d.next_epoch) h
      (omega arith) (λ same. IsStale-fresh p d h)

drained-epoch :
    (drain : Bool) (n : ℕ) (r : RegisteredRunner)
    → ((drained drain n r).epoch ≡ n) ⊎ ((drained drain n r).epoch ≡ r.epoch)
unfolding drained
drained-epoch true n r = ground arith
drained-epoch false n r = ground arith

IsStale-set_entry :
    (p : RunnerProbe) (id : Text) (drain : Bool) (found : Option RegisteredRunner)
    (d : RegistryData)
    → lookup id d.runners ≡ found
    → IsStale p d
    → IsStale p (set_entry id (map_option (drained drain d.next_epoch) found) d).0
unfolding set_entry map_option
IsStale-set_entry p id drain none d e h = h
IsStale-set_entry p id drain (some r) d e h =
    IsStale-insert p d id (drained drain d.next_epoch r) d.require_runner (suc d.next_epoch) h
      (omega arith) (λ same. apart_of (rw same at e))
  where
    apart_of :
        lookup p.record_.id d.runners ≡ some r → (drained drain d.next_epoch r).epoch ≢ p.epoch
    apart_of at =
        ground
          (arith, drained-epoch drain d.next_epoch r, IsStale-kept p d r h at, IsStale-fresh p d h)

IsStale-removed :
    (p : RunnerProbe) (id : Text) (d : RegistryData)
    → IsStale p d
    → IsStale p (record d { runners = remove id d.runners })
unfolding IsStale
IsStale-removed p id d h = (
  h.0,
  λ r found same.
      ground (arith, lookup-remove id p.record_.id d.runners, text_eq_iff id p.record_.id, h.1 r),
)

apply-IsStale :
    (p : RunnerProbe) (op : Op) (d : RegistryData) → IsStale p d → IsStale p (apply op d)
unfolding apply register renewed submitted set_draining deregister begin_probe update_heartbeat
    mark_unresponsive
apply-IsStale p (registering r) d h =
    IsStale-insert p d r.id (renewed (submitted r) d) true (suc d.next_epoch) h (omega arith)
      (λ e. IsStale-fresh p d h)
apply-IsStale p (setting_draining id drain) d h =
    IsStale-set_entry p id drain (lookup id d.runners) d refl h
apply-IsStale p (deregistering id) d h = IsStale-removed p id d h
apply-IsStale p (probing id) d h = IsStale-probe_entry p id (lookup id d.runners) d refl h
apply-IsStale p (beating now probe healthy cpu_pct version) d h =
    IsStale-answer p (heartbeat_of now healthy cpu_pct version) probe
      (lookup probe.record_.id d.runners) d refl h
apply-IsStale p (missing probe) d h =
    IsStale-answer p silenced probe (lookup probe.record_.id d.runners) d refl h

apply_all-IsStale :
    (p : RunnerProbe) (ops : List Op) (d : RegistryData) → IsStale p d → IsStale p (apply_all ops d)
unfolding apply_all
apply_all-IsStale p [] d h = h
apply_all-IsStale p (op ∷ ops) d h = apply_all-IsStale p ops (apply op d) (apply-IsStale p op d h)

set_entry-stales :
    (p : RunnerProbe) (drain : Bool) (found : Option RegisteredRunner) (d : RegistryData)
    → lookup p.record_.id d.runners ≡ found
    → p.epoch < d.next_epoch
    → ((r : RegisteredRunner) → found ≡ some r → is_draining r.record_.status ≡ not drain)
    → IsStale p (set_entry p.record_.id (map_option (drained drain d.next_epoch) found) d).0
unfolding IsStale set_entry map_option drained
set_entry-stales p drain none d e issued moves = (issued, λ r found. ground arith)
set_entry-stales p true (some s) d e issued moves = (
  omega arith,
  λ r found same. ground (
    arith,
    moves s refl,
    lookup-insert p.record_.id p.record_.id (drained true d.next_epoch s) d.runners,
    text_eq_refl p.record_.id,
  ),
)
set_entry-stales p false (some s) d e issued moves = (
  omega arith,
  λ r found same. ground (
    arith,
    moves s refl,
    lookup-insert p.record_.id p.record_.id (drained false d.next_epoch s) d.runners,
    text_eq_refl p.record_.id,
  ),
)

probe_entry-stales :
    (p : RunnerProbe) (found : Option RegisteredRunner) (d : RegistryData)
    → lookup p.record_.id d.runners ≡ found
    → p.epoch < d.next_epoch
    → IsStale p (probe_entry p.record_.id found d).0
unfolding IsStale probe_entry
probe_entry-stales p none d e issued = (issued, λ r found. ground arith)
probe_entry-stales p (some s) d e issued = (
  omega arith,
  λ r found same. ground (
    arith,
    lookup-insert p.record_.id p.record_.id (record s { epoch = d.next_epoch }) d.runners,
    text_eq_refl p.record_.id,
  ),
)

Supersedes-IsStale :
    (p : RunnerProbe) (op : Op) (d : RegistryData)
    → p.epoch < d.next_epoch
    → Supersedes p.record_.id d op
    → IsStale p (apply op d)
unfolding IsStale Supersedes apply register submitted renewed set_draining deregister begin_probe
Supersedes-IsStale p (registering r) d issued h = (
  omega arith,
  λ s found same. ground (
    arith,
    h,
    lookup-insert r.id p.record_.id (renewed (submitted r) d) d.runners,
    text_eq_iff r.id p.record_.id,
  ),
)
Supersedes-IsStale p (setting_draining id drain) d issued h =
    rw h.0 (set_entry-stales p drain (lookup p.record_.id d.runners) d refl issued h.1)
Supersedes-IsStale p (deregistering id) d issued h = (
  issued,
  λ s found same.
      ground (arith, h, lookup-remove id p.record_.id d.runners, text_eq_iff id p.record_.id),
)
Supersedes-IsStale p (probing id) d issued h =
    rw h (probe_entry-stales p (lookup p.record_.id d.runners) d refl issued)
Supersedes-IsStale p (beating now probe healthy cpu_pct version) d issued h = absurd h
Supersedes-IsStale p (missing probe) d issued h = absurd h

answer-IsStale :
    (p : RunnerProbe) (f : RunnerRecord → RunnerRecord) (found : Option RegisteredRunner)
    (d : RegistryData)
    → lookup p.record_.id d.runners ≡ found
    → IsStale p d
    → answer f p found d ≡ (d, false)
unfolding IsStale answer
answer-IsStale p f none d e h = refl
answer-IsStale p f (some r) d e h = ground (arith, h.1 r e, nat_eq_iff r.epoch p.epoch)

-- Once a step has superseded a probe that the registry had issued, no later reply to it has an
-- effect, whatever requests and replies come in between: both replies are refused and the registry
-- stays as it is.
pub superseded_probe :
    (p : RunnerProbe) (op : Op) (ops : List Op) (d : RegistryData)
    → p.epoch < d.next_epoch
    → Supersedes p.record_.id d op
    → (let later = apply_all ops (apply op d) in
        ((now : ℕ) (healthy : Bool) (cpu_pct : ℕ) (version : Text)
          → update_heartbeat now p healthy cpu_pct version later ≡ (later, false))
        × (mark_unresponsive p later ≡ (later, false)))
unfolding update_heartbeat mark_unresponsive
superseded_probe p op ops d issued h =
    let later = apply_all ops (apply op d) in
    let stale = apply_all-IsStale p ops (apply op d) (Supersedes-IsStale p op d issued h) in
    (
      λ now healthy cpu_pct version.
          answer-IsStale p (heartbeat_of now healthy cpu_pct version)
            (lookup p.record_.id later.runners) later refl stale,
      answer-IsStale p silenced (lookup p.record_.id later.runners) later refl stale,
    )
