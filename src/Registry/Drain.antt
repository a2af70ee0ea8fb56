-- ===== src/Registry/Drain.antt =====
-- crates/asmodeus-control-plane/src/registry.rs: maintenance holds until an operator ends it.
use asmodeus.Registry.{
  RunnerStatus, RunnerRecord, RunnerProbe, RegisteredRunner, RegistryData, register, set_draining,
  deregister, begin_probe, update_heartbeat, mark_unresponsive, draining, drained, answer, renewed,
  carried_over, heartbeat_of, silenced, probe_entry, set_entry, map_option, find_for_target, by_id,
  prefer, wanted,
}
use asmodeus.Registry.Ops.{
  Op, registering, setting_draining, deregistering, probing, beating, missing, apply, apply_all,
  submitted,
}
use asmodeus.Prelude.{
  ◌≡◌, ◌≢◌, refl, arith, ℕ, suc, Bool, true, false, Option, none, some, inl, inr, List, [], ◌∷◌,
  Text, text_eq_iff, nat_eq, Bool-cases, lookup, insert, remove, lookup-insert, lookup-remove,
}

-- The state of the runner `id`.
unfoldable pub status_of : Text → RegistryData → Option RunnerStatus
unfolding map_option
status_of id d = map_option (λ r. r.record_.status) (lookup id d.runners)

-- The step is no order to resume the runner `id` or to take it out.
unfoldable pub KeepsDrain : Text → Op → Type 0
KeepsDrain id (registering r) = Unit
KeepsDrain id (setting_draining i drain) = i ≡ id → drain ≡ true
KeepsDrain id (deregistering i) = i ≢ id
KeepsDrain id (probing i) = Unit
KeepsDrain id (beating now probe healthy cpu_pct version) = Unit
KeepsDrain id (missing probe) = Unit

unfoldable pub AllKeepDrain : Text → List Op → Type 0
unfolding KeepsDrain
AllKeepDrain id [] = Unit
AllKeepDrain id (op ∷ ops) = KeepsDrain id op × AllKeepDrain id ops

status_of-found :
    (id : Text) (r : RegisteredRunner) (d : RegistryData)
    → lookup id d.runners ≡ some r
    → status_of id d ≡ some draining
    → r.record_.status ≡ draining
unfolding status_of map_option
status_of-found id r d e h = ground arith

status_of-insert :
    (id k : Text) (e : RegisteredRunner) (b : Bool) (n : ℕ) (d : RegistryData)
    → (k ≡ id → e.record_.status ≡ draining)
    → status_of id d ≡ some draining
    → status_of id (record { runners = insert k e d.runners; require_runner = b; next_epoch = n })
      ≡ some draining
unfolding status_of map_option
status_of-insert id k e b n d same h =
    ground (arith, lookup-insert k id e d.runners, text_eq_iff k id, same)

renewed-drained :
    (r : RunnerRecord) (d : RegistryData)
    → status_of r.id d ≡ some draining
    → (renewed r d).record_.status ≡ draining
unfolding renewed carried_over status_of map_option
renewed-drained r d h = ground arith

drained-drained :
    (drain : Bool) (n : ℕ) (r : RegisteredRunner)
    → drain ≡ true
    → r.record_.status ≡ draining
    → (drained drain n r).record_.status ≡ draining
unfolding drained
drained-drained true n r so h = ground arith
drained-drained false n r so h = ground arith

set_entry-drained :
    (id i : Text) (drain : Bool) (found : Option RegisteredRunner) (d : RegistryData)
    → lookup i d.runners ≡ found
    → (i ≡ id → drain ≡ true)
    → status_of id d ≡ some draining
    → status_of id (set_entry i (map_option (drained drain d.next_epoch) found) d).0 ≡ some draining
unfolding set_entry map_option
set_entry-drained id i drain none d e k h = h
set_entry-drained id i drain (some r) d e k h =
    status_of-insert id i (drained drain d.next_epoch r) d.require_runner (suc d.next_epoch) d
      (λ same.
        drained-drained drain d.next_epoch r (k same) (status_of-found id r d (rw same at e) h))
      h

probe_entry-drained :
    (id i : Text) (found : Option RegisteredRunner) (d : RegistryData)
    → lookup i d.runners ≡ found
    → status_of id d ≡ some draining
    → status_of id (probe_entry i found d).0 ≡ some draining
unfolding probe_entry
probe_entry-drained id i none d e h = h
probe_entry-drained id i (some r) d e h =
    status_of-insert id i (record r { epoch = d.next_epoch }) d.require_runner (suc d.next_epoch) d
      (λ same. status_of-found id r d (rw same at e) h) h

-- What a reply makes of a draining runner.
answer-drained :
    (f : RunnerRecord → RunnerRecord)
    → ((r : RunnerRecord) → r.status ≡ draining → (f r).status ≡ draining)
    → (id : Text) (probe : RunnerProbe) (found : Option RegisteredRunner) (d : RegistryData)
    → lookup probe.record_.id d.runners ≡ found
    → status_of id d ≡ some draining
    → status_of id (answer f probe found d).0 ≡ some draining
unfolding answer
answer-drained f keeps id probe none d e h = h
answer-drained f keeps id probe (some r) d e h = elim (Bool-cases (nat_eq r.epoch probe.epoch)) [
  | inl t ↦ rw t (
      status_of-insert id probe.record_.id (record r { record_ = f r.record_ }) d.require_runner
        d.next_epoch d (λ same. keeps r.record_ (status_of-found id r d (rw same at e) h)) h)
  | inr t ↦ rw t h
]

heartbeat_of-drained :
    (now : ℕ) (healthy : Bool) (cpu_pct : ℕ) (version : Text) (r : RunnerRecord)
    → r.status ≡ draining
    → (heartbeat_of now healthy cpu_pct version r).status ≡ draining
unfolding heartbeat_of
heartbeat_of-drained now healthy cpu_pct version r h = ground arith

silenced-drained : (r : RunnerRecord) → r.status ≡ draining → (silenced r).status ≡ draining
unfolding silenced
silenced-drained r h = ground arith

status_of-removed :
    (id i : Text) (d : RegistryData)
    → i ≢ id
    → status_of id d ≡ some draining
    → status_of id (record d { runners = remove i d.runners }) ≡ some draining
unfolding status_of map_option
status_of-removed id i d apart h = ground (arith, lookup-remove i id d.runners, text_eq_iff i id)

apply-drained :
    (id : Text) (op : Op) (d : RegistryData)
    → KeepsDrain id op
    → status_of id d ≡ some draining
    → status_of id (apply op d) ≡ some draining
unfolding apply KeepsDrain register renewed set_draining deregister begin_probe update_heartbeat
    mark_unresponsive submitted
apply-drained id (registering r) d k h =
    status_of-insert id r.id (renewed (submitted r) d) true (suc d.next_epoch) d
      (λ same. renewed-drained (submitted r) d (rw same h)) h
apply-drained id (setting_draining i drain) d k h =
    set_entry-drained id i drain (lookup i d.runners) d refl k h
apply-drained id (deregistering i) d k h = status_of-removed id i d k h
apply-drained id (probing i) d k h = probe_entry-drained id i (lookup i d.runners) d refl h
apply-drained id (beating now probe healthy cpu_pct version) d k h =
    answer-drained (heartbeat_of now healthy cpu_pct version)
      (heartbeat_of-drained now healthy cpu_pct version) id probe
      (lookup probe.record_.id d.runners) d refl h
apply-drained id (missing probe) d k h =
    answer-drained silenced silenced-drained id probe (lookup probe.record_.id d.runners) d refl h

apply_all-drained :
    (id : Text) (ops : List Op) (d : RegistryData)
    → AllKeepDrain id ops
    → status_of id d ≡ some draining
    → status_of id (apply_all ops d) ≡ some draining
unfolding apply_all AllKeepDrain
apply_all-drained id [] d k h = h
apply_all-drained id (op ∷ ops) d k h =
    apply_all-drained id ops (apply op d) k.1 (apply-drained id op d k.0 h)

find_for_target-drained :
    (target id : Text) (d : RegistryData)
    → wanted (some target) ≡ some id
    → status_of id d ≡ some draining
    → find_for_target (some target) d ≡ none
unfolding find_for_target prefer status_of map_option by_id
find_for_target-drained target id d e h = ground arith

-- A runner that was put into maintenance stays in it, whatever registrations, probes and replies
-- follow, until an order resumes it or takes it out; and all that time no dispatch that names it
-- is routed, to it or to another.
pub drain_sticky :
    (id target : Text) (ops : List Op) (d : RegistryData)
    → AllKeepDrain id ops
    → status_of id d ≡ some draining
    → wanted (some target) ≡ some id
    → (status_of id (apply_all ops d) ≡ some draining)
      × (find_for_target (some target) (apply_all ops d) ≡ none)
drain_sticky id target ops d k h e =
    let still = apply_all-drained id ops d k h in
    (still, find_for_target-drained target id (apply_all ops d) e still)
