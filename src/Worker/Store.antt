-- ===== src/Worker/Store.antt =====
-- crates/asmodeus-control-plane/src/campaign_execution.rs: one write of the worker keeps the store valid.
use asmodeus.Campaign.Resume.{IsSound, AreSound, put-AreSound}
use asmodeus.Campaign.{CampaignRun, CampaignRunStore, is_prunable, retain, prune, put, get}
use asmodeus.Worker.{write_failed, update, update_found}
use asmodeus.Prelude.{
  ℕ, ◌-◌, ◌≡◌, ◌⊎◌, refl, sym, subst, arith, Bool, true, false, ◌&&◌, some, List, [], ◌∷◌, Text,
  text_eq, text_eq_iff, nat_eq, ltb, any, find, Bool-cases, inl, inr, ok, err,
}

AreSound-weaken :
    (ids js : List Text) (runs : List CampaignRun)
    → ((k : Text) → any (text_eq k) ids ≡ false → any (text_eq k) js ≡ false)
    → AreSound ids runs
    → AreSound js runs
unfolding AreSound
AreSound-weaken ids js [] h s = tt
AreSound-weaken ids js (r ∷ rs) h s =
    (s.0, h r.id s.1, AreSound-weaken (r.id ∷ ids) (r.id ∷ js) rs (λ k e. ground (arith, h k)) s.2)

retain-AreSound :
    (n : ℕ) (ids : List Text) (runs : List CampaignRun)
    → AreSound ids runs
    → AreSound ids (retain n runs)
unfolding AreSound retain
retain-AreSound n ids [] s = tt
retain-AreSound n ids (r ∷ rs) s = elim (Bool-cases (ltb 0 n && is_prunable r)) [
  | inl t ↦ rw t (
      retain-AreSound (n - 1) ids rs
        (AreSound-weaken (r.id ∷ ids) ids rs (λ k e. ground arith) s.2))
  | inr t ↦ rw t (s.0, s.1, retain-AreSound n (r.id ∷ ids) rs s.2)
]

find-retain :
    (n : ℕ) (id : Text) (runs : List CampaignRun) (run : CampaignRun)
    → find (λ r. text_eq r.id id) runs ≡ some run
    → is_prunable run ≡ false
    → find (λ r. text_eq r.id id) (retain n runs) ≡ some run
unfolding retain
find-retain n id [] run e p = cc
find-retain n id (r ∷ rs) run e p =
    ground (arith, find-retain n id rs run, find-retain (n - 1) id rs run)

pub find-put :
    (id : Text) (next run : CampaignRun) (runs : List CampaignRun)
    → next.id ≡ id
    → find (λ r. text_eq r.id id) runs ≡ some run
    → find (λ r. text_eq r.id id) (put next runs) ≡ some next
unfolding put
find-put id next run [] i e = cc
find-put id next run (r ∷ rs) i e = ground (
  arith,
  find-put id next run rs i,
  text_eq_iff next.id id,
  text_eq_iff r.id next.id,
  text_eq_iff r.id id,
)

pub find-IsSound :
    (ids : List Text) (id : Text) (runs : List CampaignRun) (run : CampaignRun)
    → AreSound ids runs
    → find (λ r. text_eq r.id id) runs ≡ some run
    → IsSound run
unfolding AreSound
find-IsSound ids id [] run s e = cc
find-IsSound ids id (r ∷ rs) run s e = elim (Bool-cases (text_eq r.id id)) [
  | inl t ↦ let same : r ≡ run = ground arith in subst IsSound same s.0
  | inr t ↦ find-IsSound (r.id ∷ ids) id rs run s.2 (rw t at e)
]

-- The store is valid and holds the run of the worker.
pub record Holds (store : CampaignRunStore) (run : CampaignRun) : Type 0 where
  pub versioned : nat_eq store.version 1 ≡ true
  pub sound : AreSound [] store.runs
  pub found : get run.id store ≡ some run

pub Holds-IsSound : (store : CampaignRunStore) (run : CampaignRun) → Holds store run → IsSound run
unfolding get
Holds-IsSound store run h = find-IsSound [] run.id store.runs run h.sound h.found

-- A store that a restart accepts.
pub record IsValid (store : CampaignRunStore) : Type 0 where
  pub versioned : nat_eq store.version 1 ≡ true
  pub sound : AreSound [] store.runs

pub Holds-IsValid : (store : CampaignRunStore) (run : CampaignRun) → Holds store run → IsValid store
Holds-IsValid store run h = record { versioned = h.versioned; sound = h.sound }

-- The store after a write that succeeds.
pub written_store : CampaignRun → CampaignRunStore → CampaignRunStore
written_store next store = prune (record store { runs = put next store.runs })

written_store-IsValid :
    (store : CampaignRunStore) (run next : CampaignRun)
    → Holds store run
    → next.id ≡ run.id
    → IsSound next
    → IsValid (written_store next store)
unfolding written_store prune get
written_store-IsValid store run next h same s = record {
  versioned = h.versioned;
  sound =
      retain-AreSound _ [] (put next store.runs)
        (put-AreSound [] store.runs run next same (λ _. s) h.found h.sound);
}

written_store-Holds :
    (store : CampaignRunStore) (run next : CampaignRun)
    → Holds store run
    → next.id ≡ run.id
    → IsSound next
    → is_prunable next ≡ false
    → Holds (written_store next store) next
unfolding written_store prune get
written_store-Holds store run next h same s p = record {
  versioned = h.versioned;
  sound = (written_store-IsValid store run next h same s).sound;
  found =
      subst (λ i. find (λ r. text_eq r.id i) (written_store next store).runs ≡ some next) (sym same)
        (find-retain _ run.id (put next store.runs) next
          (find-put run.id next run store.runs same h.found) p);
}

-- A write of the worker leaves the store as it is, or puts the changed run in.
pub update-cases :
    (now : Text) (written : Bool) (change : CampaignRun → CampaignRun) (store : CampaignRunStore)
    (run : CampaignRun)
    → Holds store run
    → let next : CampaignRun = record (change run) { updated_utc = now } in
      next.id ≡ run.id
      → IsSound next
      → (update now written run.id change store ≡ (store, err write_failed))
        ⊎ ((update now written run.id change store ≡ (written_store next store, ok next))
            × IsValid (written_store next store)
            × (is_prunable next ≡ false → Holds (written_store next store) next))
unfolding update update_found written_store
update-cases now true change store run h same s = inr (
  rw h.found refl,
  written_store-IsValid store run _ h same s,
  λ p. written_store-Holds store run _ h same s p,
)
update-cases now false change store run h same s = inl (rw h.found refl)
