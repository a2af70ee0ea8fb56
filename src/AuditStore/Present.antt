-- ===== src/AuditStore/Present.antt =====
-- crates/asmodeus-telemetry/src/audit.rs: appending and updating, as revisions of a trail.
use asmodeus.Telemetry.Audit.{
  AuditRecord, AuditTrail, get, append as append_record, update as update_record, position,
  replaced,
}
use asmodeus.Telemetry.Replay.{upsert, upsert-position, place_upsert, position-upsert, index_of}
use asmodeus.Prelude.{
  ℕ, suc, ◌≡◌, refl, ap, ◌∙◌, arith, Bool, none, some, inl, inr, Bool-cases, List, [], ◌∷◌, Text,
  text_eq, text_eq_refl, All, filter,
}

pub get-none :
    (run_id : Text) (rs : List AuditRecord)
    → get run_id (record { records = rs }) ≡ none
    → position run_id rs ≡ none
unfolding get position
get-none run_id [] e = refl
get-none run_id (r ∷ rs) e = ground (arith, get-none run_id rs)

pub get-some :
    (run_id : Text) (rs : List AuditRecord) (old : AuditRecord)
    → get run_id (record { records = rs }) ≡ some old
    → (n : ℕ) × (position run_id rs ≡ some n)
unfolding get position
get-some run_id [] old e = cc
get-some run_id (r ∷ rs) old e = elim (Bool-cases (text_eq r.run_id run_id)) [
  | inl t ↦ rw t (0, refl)
  | inr t ↦ let (n, q) = get-some run_id rs old (rw t at e) in rw (t, q) (suc n, refl)
]

pub append_record-upsert :
    (r : AuditRecord) (trail : AuditTrail)
    → get r.run_id trail ≡ none
    → append_record r trail ≡ record { records = upsert r trail.records }
unfolding append_record place_upsert
append_record-upsert r trail e =
    ap (λ rs. record { records = rs })
      (rw (get-none r.run_id trail.records e) at (upsert-position r trail.records))

pub update_record-upsert :
    (r : AuditRecord) (trail : AuditTrail) (n : ℕ)
    → position r.run_id trail.records ≡ some n
    → (update_record r.run_id r trail).0 ≡ record { records = upsert r trail.records }
unfolding update_record replaced place_upsert
update_record-upsert r trail n e =
    rw e (ap (λ rs. record { records = rs }) (rw e at (upsert-position r trail.records)))

get-upsert :
    (r : AuditRecord) (rs : List AuditRecord)
    → get r.run_id (record { records = upsert r rs }) ≡ some r
unfolding get upsert
get-upsert r [] = rw (text_eq_refl r.run_id) refl
get-upsert r (s ∷ rs) = elim (Bool-cases (text_eq s.run_id r.run_id)) [
  | inl t ↦ rw (t, text_eq_refl r.run_id) refl
  | inr t ↦ rw (t, t) (get-upsert r rs)
]

-- A revision is what the trail gives for its run.
pub get-update :
    (r old : AuditRecord) (trail : AuditTrail)
    → get r.run_id trail ≡ some old
    → get r.run_id (update_record r.run_id r trail).0 ≡ some r
get-update r old trail e =
    let (n, at) = get-some r.run_id trail.records old e in
    rw (update_record-upsert r trail n at) (get-upsert r trail.records)

-- The run has a record.
abbrev pub IsPresent : Text → List AuditRecord → Type 0
IsPresent run_id records = (n : ℕ) × (position run_id records ≡ some n)

-- Each record of the list is of a run of the trail.
abbrev pub AllPresent : List AuditRecord → List AuditRecord → Type 0
AllPresent rs records = All (λ (r : AuditRecord). IsPresent r.run_id records) rs

upsert-IsPresent :
    (r : AuditRecord) (run_id : Text) (records : List AuditRecord)
    → IsPresent run_id records
    → IsPresent run_id (upsert r records)
upsert-IsPresent r run_id records (n, q) = elim (Bool-cases (text_eq r.run_id run_id)) [
  | inl e ↦
      (index_of (position r.run_id records) records, position-upsert run_id r records ∙ rw e refl)
  | inr e ↦ (n, position-upsert run_id r records ∙ rw e q)
]

pub upsert-AllPresent :
    (r : AuditRecord) (rs records : List AuditRecord)
    → AllPresent rs records
    → AllPresent rs (upsert r records)
upsert-AllPresent r [] records h = tt
upsert-AllPresent r (s ∷ rs) records h =
    (upsert-IsPresent r s.run_id records h.0, upsert-AllPresent r rs records h.1)

cons-IsPresent :
    (s : AuditRecord) (run_id : Text) (records : List AuditRecord)
    → IsPresent run_id records
    → IsPresent run_id (s ∷ records)
unfolding position
cons-IsPresent s run_id records (n, q) = elim (Bool-cases (text_eq s.run_id run_id)) [
  | inl e ↦ (0, rw e refl)
  | inr e ↦ (suc n, rw (e, q) refl)
]

cons-AllPresent :
    (s : AuditRecord) (rs records : List AuditRecord)
    → AllPresent rs records
    → AllPresent rs (s ∷ records)
cons-AllPresent s [] records h = tt
cons-AllPresent s (r ∷ rs) records h =
    (cons-IsPresent s r.run_id records h.0, cons-AllPresent s rs records h.1)

pub filter-AllPresent :
    (p : AuditRecord → Bool) (records : List AuditRecord) → AllPresent (filter p records) records
unfolding position
filter-AllPresent p [] = tt
filter-AllPresent p (s ∷ records) =
    let rest = cons-AllPresent s (filter p records) records (filter-AllPresent p records) in
    elim (Bool-cases (p s)) [
      | inl e ↦ rw e ((0, rw (text_eq_refl s.run_id) refl), rest)
      | inr e ↦ rw e rest
    ]
