-- ===== src/Runner/Slot.antt =====
-- crates/asmodeus-runner/src/service.rs: a run that has been admitted holds the slot until its end.
use asmodeus.Runner.{
  Active, RunnerService, ServiceError, busy, is_terminal, is_busy, admitted, execute, with_state,
  set_state, released, finish, touched, beat_of, heartbeat, cancel_of, cancel,
}
use asmodeus.Prelude.{
  ℕ, ◌≡◌, refl, sym, subst, arith, Bool, true, false, ◌&&◌, Option, none, some, List, [], ◌∷◌, Text,
  text_eq, text_eq_refl, nat_eq, All, Bool-cases, inl, inr, Result, ok, err,
}

-- What may happen to the service: a request, a state that the worker of a run sets, the end of a run,
-- a heartbeat and a cancellation.
pub data Op : Type 0 where
  executing : Text → ℕ → Op
  emitting : ℕ → Text → Op
  finishing : ℕ → Bool → Op
  beating : Text → ℕ → Op
  cancelling : Text → Op

unfoldable pub apply : Op → RunnerService → RunnerService
apply (executing id now) s = (execute id now s).0
apply (emitting serial state) s = set_state serial state s
apply (finishing serial cleaned) s = finish serial cleaned s
apply (beating id now) s = (heartbeat id now s).0
apply (cancelling id) s = (cancel id s).0

unfoldable pub apply_all : List Op → RunnerService → RunnerService
apply_all [] s = s
apply_all (op ∷ ops) s = apply_all ops (apply op s)

-- The step is not the end of the run, nor a terminal state of it.
unfoldable pub Spares : ℕ → Op → Type 0
Spares n (executing id now) = Unit
Spares n (emitting serial state) = (nat_eq n serial && is_terminal state) ≡ false
Spares n (finishing serial cleaned) = nat_eq n serial ≡ false
Spares n (beating id now) = Unit
Spares n (cancelling id) = Unit

-- The run `n`, of the id, holds the slot, and has not come to a terminal state.
unfoldable pub HoldsSlot : ℕ → Text → Option Active → Type 0
HoldsSlot n id none = ⊥
HoldsSlot n id (some a) = (a.serial ≡ n) × (a.id ≡ id) × (is_terminal a.state ≡ false)

held :
    (n : ℕ) (id : Text) (o : Option Active)
    → HoldsSlot n id o
    → (a : Active) × (o ≡ some a) × (a.serial ≡ n) × (a.id ≡ id) × (is_terminal a.state ≡ false)
unfolding HoldsSlot
held n id none h = elim h [ ]
held n id (some a) h = (a, refl, h.0, h.1, h.2)

with_state-HoldsSlot :
    (n serial : ℕ) (id state : Text) (o : Option Active)
    → (nat_eq n serial && is_terminal state) ≡ false
    → HoldsSlot n id o
    → HoldsSlot n id (with_state serial state o)
unfolding HoldsSlot with_state
with_state-HoldsSlot n serial id state none k h = h
with_state-HoldsSlot n serial id state (some a) k h = (ground arith, ground arith, ground arith)

released-HoldsSlot :
    (n serial : ℕ) (id : Text) (o : Option Active)
    → nat_eq n serial ≡ false
    → HoldsSlot n id o
    → HoldsSlot n id (released serial o)
unfolding HoldsSlot released
released-HoldsSlot n serial id none k h = h
released-HoldsSlot n serial id (some a) k h =
    let other : nat_eq a.serial serial ≡ false = ground arith in rw other h

beat_of-HoldsSlot :
    (n now : ℕ) (id other : Text) (s : RunnerService) (o : Option Active)
    → s.active ≡ o
    → HoldsSlot n id o
    → HoldsSlot n id (beat_of other now s o).0.active
unfolding HoldsSlot beat_of touched
beat_of-HoldsSlot n now id other s none e h = elim h [ ]
beat_of-HoldsSlot n now id other s (some a) e h = (ground arith, ground arith, ground arith)

cancel_of-HoldsSlot :
    (n : ℕ) (id other : Text) (s : RunnerService) (o : Option Active)
    → s.active ≡ o
    → HoldsSlot n id o
    → HoldsSlot n id (cancel_of other s o).0.active
unfolding HoldsSlot cancel_of
cancel_of-HoldsSlot n id other s none e h = elim h [ ]
cancel_of-HoldsSlot n id other s (some a) e h = elim (Bool-cases (text_eq a.id other)) [
  | inl t ↦ rw t h
  | inr t ↦ rw t (subst (HoldsSlot n id) (sym e) h)
]

execute-busy :
    (n now : ℕ) (id other : Text) (s : RunnerService)
    → HoldsSlot n id s.active
    → execute other now s ≡ (s, err busy)
unfolding execute is_busy
execute-busy n now id other s h =
    let (a, e, serial, name, live) = held n id s.active h in
    let taken : is_busy s.active ≡ true = ground arith in rw taken refl

apply-HoldsSlot :
    (n : ℕ) (id : Text) (op : Op) (s : RunnerService)
    → Spares n op
    → HoldsSlot n id s.active
    → HoldsSlot n id (apply op s).active
unfolding apply Spares set_state finish heartbeat cancel
apply-HoldsSlot n id (executing other now) s k h =
    subst (λ (r : RunnerService × Result ServiceError ℕ). HoldsSlot n id r.0.active)
      (sym (execute-busy n now id other s h)) h
apply-HoldsSlot n id (emitting serial state) s k h =
    with_state-HoldsSlot n serial id state s.active k h
apply-HoldsSlot n id (finishing serial cleaned) s k h = released-HoldsSlot n serial id s.active k h
apply-HoldsSlot n id (beating other now) s k h = beat_of-HoldsSlot n now id other s s.active refl h
apply-HoldsSlot n id (cancelling other) s k h = cancel_of-HoldsSlot n id other s s.active refl h

apply_all-HoldsSlot :
    (n : ℕ) (id : Text) (ops : List Op) (s : RunnerService)
    → All (Spares n) ops
    → HoldsSlot n id s.active
    → HoldsSlot n id (apply_all ops s).active
unfolding apply_all
apply_all-HoldsSlot n id [] s k h = h
apply_all-HoldsSlot n id (op ∷ ops) s k h =
    apply_all-HoldsSlot n id ops (apply op s) k.1 (apply-HoldsSlot n id op s k.0 h)

cancel-held :
    (n : ℕ) (id : Text) (s : RunnerService) → HoldsSlot n id s.active → (cancel id s).1 ≡ ok tt
unfolding cancel cancel_of
cancel-held n id s h =
    let (a, e, serial, name, live) = held n id s.active h in rw (e, name, text_eq_refl id) refl

pub admitted-HoldsSlot :
    (id : Text) (now : ℕ) (s : RunnerService)
    → HoldsSlot s.next_serial id (admitted id now s).active
unfolding admitted HoldsSlot is_terminal text_eq
admitted-HoldsSlot id now s = (refl, refl, refl)

-- A run that is admitted holds the slot through any requests, heartbeats, cancellations and steps of
-- other workers, late ones of earlier runs among them, until its own worker reports a terminal state or
-- ends: until then every other request is refused as busy, with nothing changed, and the run itself
-- can be cancelled.
pub slot_is_exclusive :
    (ops : List Op) (id other : Text) (now later : ℕ) (s : RunnerService)
    → is_busy s.active ≡ false
    → All (Spares s.next_serial) ops
    → let t = apply_all ops (execute id now s).0 in
      ((execute id now s).1 ≡ ok s.next_serial)
      × HoldsSlot s.next_serial id t.active
      × (execute other later t ≡ (t, err busy))
      × ((cancel id t).1 ≡ ok tt)
unfolding execute
slot_is_exclusive ops id other now later s free spared =
    let kept =
      apply_all-HoldsSlot s.next_serial id ops (admitted id now s) spared
        (admitted-HoldsSlot id now s) in
    rw free (
      refl,
      kept,
      execute-busy s.next_serial later id other (apply_all ops (admitted id now s)) kept,
      cancel-held s.next_serial id (apply_all ops (admitted id now s)) kept,
    )
