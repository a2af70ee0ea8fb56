-- ===== src/Telemetry/Replay.antt =====
-- crates/asmodeus-telemetry/src/audit.rs: what a restart loads.
use asmodeus.Telemetry.Audit.{
  AuditRecord, AuditTrail, Replay, one_later, position, set_at, place, revise, replay, from_lines,
}
use asmodeus.Prelude.{
  ℕ, suc, ◌≡◌, refl, sym, ap, ◌∙◌, arith, false, Option, none, some, inl, inr, Bool-cases, List, [],
  ◌∷◌, ◌++◌, Text, text_eq, text_eq_iff, nat_eq, length, trim, map, lookup, lookup-insert,
  if◌then◌else◌, Result, ok, err, ◌>>=◌, >>=-eq-ok, subst,
}

-- The last revision of a run wins, at the place of the first.
unfoldable pub upsert : AuditRecord → List AuditRecord → List AuditRecord
upsert r [] = r ∷ []
upsert r (s ∷ rs) = if text_eq s.run_id r.run_id then r ∷ rs else s ∷ upsert r rs

unfoldable pub place_upsert : Option ℕ → AuditRecord → List AuditRecord → List AuditRecord
place_upsert none r rs = rs ++ r ∷ []
place_upsert (some n) r rs = set_at n r rs

place_upsert-one_later :
    (q : Option ℕ) (r s : AuditRecord) (rs : List AuditRecord)
    → place_upsert (one_later q) r (s ∷ rs) ≡ s ∷ place_upsert q r rs
unfolding place_upsert set_at
place_upsert-one_later none r s rs = refl
place_upsert-one_later (some n) r s rs = refl

pub upsert-position :
    (r : AuditRecord) (rs : List AuditRecord)
    → place_upsert (position r.run_id rs) r rs ≡ upsert r rs
unfolding upsert place_upsert position set_at
upsert-position r [] = refl
upsert-position r (s ∷ rs) = elim (Bool-cases (text_eq s.run_id r.run_id)) [
  | inl e ↦ rw e refl
  | inr e ↦
      rw e
        (place_upsert-one_later (position r.run_id rs) r s rs ∙ ap (◌∷◌ s) (upsert-position r rs))
]

-- The index that a new revision of a run gets.
pub index_of : Option ℕ → List AuditRecord → ℕ
index_of none rs = length rs
index_of (some n) rs = n

index_of-one_later :
    (q : Option ℕ) (s : AuditRecord) (rs : List AuditRecord)
    → index_of (one_later q) (s ∷ rs) ≡ suc (index_of q rs)
unfolding index_of
index_of-one_later none s rs = refl
index_of-one_later (some n) s rs = refl

pub position-upsert :
    (run_id : Text) (r : AuditRecord) (rs : List AuditRecord)
    → position run_id (upsert r rs) ≡ (
        if text_eq r.run_id run_id
        then some (index_of (position r.run_id rs) rs)
        else position run_id rs)
unfolding position upsert index_of
position-upsert run_id r [] = ground arith
position-upsert run_id r (s ∷ rs) = elim (Bool-cases (text_eq s.run_id r.run_id)) [
  | inl e ↦ rw e (
      ground (
        arith,
        text_eq_iff s.run_id r.run_id,
        text_eq_iff s.run_id run_id,
        text_eq_iff r.run_id run_id,
      ))
  | inr e ↦ rw e (
      ground (
        arith,
        position-upsert run_id r rs,
        index_of-one_later (position r.run_id rs) s rs,
        text_eq_iff s.run_id r.run_id,
        text_eq_iff s.run_id run_id,
        text_eq_iff r.run_id run_id,
      ))
]

-- The positions are those of the records.
pub IsSynced : Replay → Type 0
IsSynced s = (run_id : Text) → lookup run_id s.positions ≡ position run_id s.records

revise-upsert :
    (r : AuditRecord) (s : Replay) → IsSynced s → (revise r s).records ≡ upsert r s.records
unfolding revise IsSynced place place_upsert
revise-upsert r s h =
    rw (h r.run_id) (go (position r.run_id s.records)) ∙ upsert-position r s.records
  where
    go : (q : Option ℕ) → (place q r s).records ≡ place_upsert q r s.records
    go none = refl
    go (some n) = refl

place-positions :
    (q : Option ℕ) (r : AuditRecord) (s : Replay) (run_id : Text)
    → lookup r.run_id s.positions ≡ q
    → lookup run_id (place q r s).positions
      ≡ (if text_eq r.run_id run_id then some (index_of q s.records) else lookup run_id s.positions)
unfolding place index_of
place-positions none r s run_id e = lookup-insert r.run_id run_id (length s.records) s.positions
place-positions (some n) r s run_id e = ground (arith, text_eq_iff r.run_id run_id)

revise-IsSynced : (r : AuditRecord) (s : Replay) → IsSynced s → IsSynced (revise r s)
unfolding revise IsSynced
revise-IsSynced r s h run_id =
    place-positions (lookup r.run_id s.positions) r s run_id refl
    ∙ rw (h r.run_id, h run_id) refl
    ∙ sym (position-upsert run_id r s.records)
    ∙ sym (ap (position run_id) (revise-upsert r s h))

start-IsSynced : IsSynced (record { records = []; positions = [] })
unfolding IsSynced lookup position
start-IsSynced run_id = refl

-- The records after the revisions `rs`, oldest first.
pub upserts : List AuditRecord → List AuditRecord → List AuditRecord
upserts [] acc = acc
upserts (r ∷ rs) acc = upserts rs (upsert r acc)

pub upserts-snoc :
    (rs : List AuditRecord) (r : AuditRecord) (acc : List AuditRecord)
    → upserts (rs ++ r ∷ []) acc ≡ upsert r (upserts rs acc)
unfolding upserts
upserts-snoc [] r acc = refl
upserts-snoc (s ∷ rs) r acc = upserts-snoc rs r (upsert s acc)

module _ {E : Type 0} (from_str : Text → Result E AuditRecord) (to_line : AuditRecord → Text)
    (decodes : (r : AuditRecord) → from_str (trim (to_line r)) ≡ ok r)
    (not_blank : (r : AuditRecord) → nat_eq (length (trim (to_line r))) 0 ≡ false) where
  replay-upserts :
      (rs : List AuditRecord) (s : Replay)
      → IsSynced s
      → (t : Replay) × (replay from_str (map to_line rs) s ≡ ok t)
        × (t.records ≡ upserts rs s.records)
  unfolding replay upserts
  replay-upserts [] s h = (s, refl, refl)
  replay-upserts (r ∷ rs) s h =
      let (t, e, q) = replay-upserts rs (revise r s) (revise-IsSynced r s h) in
      (t, rw (not_blank r, decodes r) e, q ∙ ap (upserts rs) (revise-upsert r s h))

  replay-append :
      (xs ys : List Text) (s : Replay)
      → replay from_str (xs ++ ys) s ≡ (replay from_str xs s >>= λ t. replay from_str ys t)
  unfolding replay
  replay-append [] ys s = refl
  replay-append (x ∷ xs) ys s = elim (Bool-cases (nat_eq (length (trim x)) 0)) [
    | inl e ↦ rw e (replay-append xs ys s)
    | inr e ↦ rw e (go (from_str (trim x)) (λ r. replay-append xs ys (revise r s)))
  ]
    where
      go :
          (q : Result E AuditRecord)
          → ((r : AuditRecord)
              → replay from_str (xs ++ ys) (revise r s)
                ≡ (replay from_str xs (revise r s) >>= λ t. replay from_str ys t))
          → (q >>= λ r. replay from_str (xs ++ ys) (revise r s))
            ≡ ((q >>= λ r. replay from_str xs (revise r s)) >>= λ t. replay from_str ys t)
      go (ok r) h = h r
      go (err e) h = refl

  replay-IsSynced :
      (xs : List Text) (s t : Replay) → IsSynced s → replay from_str xs s ≡ ok t → IsSynced t
  unfolding replay
  replay-IsSynced [] s t h e = let same : s ≡ t = ground arith in subst IsSynced same h
  replay-IsSynced (x ∷ xs) s t h e = elim (Bool-cases (nat_eq (length (trim x)) 0)) [
    | inl b ↦ replay-IsSynced xs s t h (rw b at e)
    | inr b ↦
        let (r, q, k) =
          >>=-eq-ok (from_str (trim x)) (λ r. replay from_str xs (revise r s)) (rw b at e) in
        replay-IsSynced xs (revise r s) t (revise-IsSynced r s h) k
  ]

  -- One more line.
  pub from_lines-snoc :
      (lines : List Text) (r : AuditRecord) (trail : AuditTrail)
      → from_lines from_str lines ≡ ok trail
      → from_lines from_str (lines ++ to_line r ∷ [])
        ≡ ok (record { records = upsert r trail.records })
  unfolding from_lines replay
  from_lines-snoc lines r trail e =
      let (t, q, k) = >>=-eq-ok (replay from_str lines start) _ e in
      let synced = replay-IsSynced lines start t start-IsSynced q in
      let is : t.records ≡ trail.records = ground arith in
      rw (replay-append lines (to_line r ∷ []) start, q, not_blank r, decodes r)
        (ap (λ rs. ok (record { records = rs })) (revise-upsert r t synced ∙ ap (upsert r) is))
    where
      start : Replay
      start = record { records = []; positions = [] }

  -- A file that holds revisions loads as the trail in which the last revision of each run stands at
  -- the place of the first, whatever the runs and their order.
  pub from_lines_lem :
      (rs : List AuditRecord)
      → from_lines from_str (map to_line rs) ≡ ok (record { records = upserts rs [] })
  unfolding from_lines
  from_lines_lem rs =
      let (t, e, q) = replay-upserts rs (record { records = []; positions = [] }) start-IsSynced in
      rw (e, q) refl
