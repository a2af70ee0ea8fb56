-- ===== src/Registry/Select.antt =====
-- crates/asmodeus-control-plane/src/registry.rs: which runner a dispatch goes to.
use asmodeus.Registry.{
  RunnerRecord, RunnerStatus, RegisteredRunner, RegistryData, is_active, active, unresponsive,
  draining, least, lesser, has_tag, by_tag, by_id, prefer, wanted, find_for_target,
}
use asmodeus.Prelude.{
  ◌≡◌, ◌≢◌, refl, arith, Bool, true, false, ◌&&◌, Option, none, some, ◌⊎◌, inl, inr, List, [], ◌∷◌,
  Text, text_lt, Bool-cases, Option-cases, values, map, filter,
}

text_lt-asym : (a b : Text) → text_lt a b ≡ true → text_lt b a ≡ false
unfolding text_lt
text_lt-asym [] [] e = ground arith
text_lt-asym [] (y ∷ b) e = ground arith
text_lt-asym (x ∷ a) [] e = ground arith
text_lt-asym (x ∷ a) (y ∷ b) e = ground (arith, text_lt-asym a b)

text_lt-trans_not : (a b c : Text) → text_lt a c ≡ true → text_lt b c ≡ false → text_lt a b ≡ true
unfolding text_lt
text_lt-trans_not a b [] h k = ground arith
text_lt-trans_not a [] (z ∷ c) h k = ground arith
text_lt-trans_not [] (y ∷ b) (z ∷ c) h k = ground arith
text_lt-trans_not (x ∷ a) (y ∷ b) (z ∷ c) h k = ground (arith, text_lt-trans_not a b c)

-- One of the records is `r`.
pub IsIn : RunnerRecord → List RunnerRecord → Type 0
IsIn r [] = ⊥
IsIn r (s ∷ rs) = (s ≡ r) ⊎ IsIn r rs

lesser-cases :
    (r m : RunnerRecord) (q : Option RunnerRecord) → lesser r q ≡ m → (r ≡ m) ⊎ (q ≡ some m)
unfolding lesser
lesser-cases r m none e = inl e
lesser-cases r m (some n) e = ground arith

least-IsIn : (rs : List RunnerRecord) (m : RunnerRecord) → least rs ≡ some m → IsIn m rs
unfolding least IsIn
least-IsIn [] m e = cc
least-IsIn (r ∷ rs) m e = elim (lesser-cases r m (least rs) (ground arith)) [
  | inl f ↦ inl f
  | inr f ↦ inr (least-IsIn rs m f)
]

least-none : (rs : List RunnerRecord) (r : RunnerRecord) → least rs ≡ none → IsIn r rs → ⊥
unfolding least IsIn
least-none [] r e i = i
least-none (s ∷ rs) r e i = ground arith

text_lt_irrefl : (a : Text) → text_lt a a ≡ false
text_lt_irrefl a = ground (arith, text_lt-asym a a)

lesser-head : (r : RunnerRecord) (q : Option RunnerRecord) → text_lt r.id (lesser r q).id ≡ false
unfolding lesser
lesser-head r none = text_lt_irrefl r.id
lesser-head r (some n) = ground (arith, text_lt_irrefl r.id, text_lt-asym n.id r.id)

lesser-below :
    (x : Text) (r n : RunnerRecord)
    → text_lt x n.id ≡ false
    → text_lt x (lesser r (some n)).id ≡ false
unfolding lesser
lesser-below x r n h = ground (arith, text_lt-trans_not x n.id r.id)

least-minimal :
    (rs : List RunnerRecord) (m r : RunnerRecord)
    → least rs ≡ some m
    → IsIn r rs
    → text_lt r.id m.id ≡ false
unfolding least IsIn
least-minimal [] m r e i = absurd i
least-minimal (s ∷ rs) m r e (inl f) = ground (arith, lesser-head s (least rs))
least-minimal (s ∷ rs) m r e (inr i) = elim (Option-cases (least rs)) [
  | inl n ↦ absurd (least-none rs r n i)
  | inr (n, f) ↦ ground (arith, lesser-below r.id s n, least-minimal rs n r f i)
]

module _ (p : RunnerRecord → Bool) where
  filter-IsIn :
      (rs : List RunnerRecord) (r : RunnerRecord) → IsIn r (filter p rs) → IsIn r rs × (p r ≡ true)
  unfolding IsIn
  filter-IsIn [] r i = absurd i
  filter-IsIn (s ∷ rs) r i = elim (Bool-cases (p s)) [
    | inl e ↦ elim (rw e at i) [
      | inl f ↦ (inl f, ground arith)
      | inr j ↦ (inr (filter-IsIn rs r j).0, (filter-IsIn rs r j).1)
    ]
    | inr e ↦ (inr (filter-IsIn rs r (rw e at i)).0, (filter-IsIn rs r (rw e at i)).1)
  ]

  IsIn-filter :
      (rs : List RunnerRecord) (r : RunnerRecord) → IsIn r rs → p r ≡ true → IsIn r (filter p rs)
  unfolding IsIn
  IsIn-filter [] r i e = i
  IsIn-filter (s ∷ rs) r i e = elim (Bool-cases (p s)) [
    | inl t ↦ rw t (elim i [ inl f ↦ inl f | inr j ↦ inr (IsIn-filter rs r j e) ])
    | inr t ↦ rw t (elim i [ inl f ↦ absurd (ground arith) | inr j ↦ IsIn-filter rs r j e ])
  ]

-- The records of the registry.
pub records : RegistryData → List RunnerRecord
records d = map (λ e. e.record_) (values d.runners)

is_active_iff : (s : RunnerStatus) → (is_active s ≡ true) → s ≡ active
is_active_iff active e = refl
is_active_iff unresponsive e = cc
is_active_iff draining e = cc

by_tag-some :
    (w : Option Text) (d : RegistryData) (r : RunnerRecord)
    → by_tag w d ≡ some r
    → (r.status ≡ active)
      × IsIn r (records d)
      × (has_tag w r ≡ true)
      × ((s : RunnerRecord)
          → IsIn s (records d)
          → s.status ≡ active
          → has_tag w s ≡ true
          → text_lt s.id r.id ≡ false)
unfolding by_tag records
by_tag-some w d r e =
    let fits : RunnerRecord → Bool = λ r. is_active r.status && has_tag w r in
    let h = filter-IsIn fits (records d) r (least-IsIn (filter fits (records d)) r e) in
    (
      is_active_iff r.status (ground arith),
      h.0,
      ground arith,
      λ s i a t.
          least-minimal (filter fits (records d)) r s e
            (IsIn-filter fits (records d) s i (ground arith)),
    )

by_tag-none :
    (w : Option Text) (d : RegistryData) (r : RunnerRecord)
    → by_tag w d ≡ none
    → IsIn r (records d)
    → r.status ≡ active
    → has_tag w r ≡ false
unfolding by_tag records
by_tag-none w d r e i a =
    let fits : RunnerRecord → Bool = λ r. is_active r.status && has_tag w r in
    elim (Bool-cases (has_tag w r)) [
      | inl t ↦ absurd (
          least-none (filter fits (records d)) r e
            (IsIn-filter fits (records d) r i (ground arith)))
      | inr f ↦ f
    ]

-- A runner that is chosen is active; it is the one of the wanted id, or else no runner has that id
-- and it has the wanted tag and the least id of all that are active and have it. When none is
-- chosen, the runner of the wanted id is not active, or no active runner has the wanted tag.
pub find_for_target_lem :
    (target : Option Text) (d : RegistryData)
    → ((r : RunnerRecord)
        → find_for_target target d ≡ some r
        → (r.status ≡ active)
          × (((e : RegisteredRunner) × (by_id (wanted target) d ≡ some e) × (e.record_ ≡ r))
              ⊎ ((by_id (wanted target) d ≡ none)
                  × IsIn r (records d)
                  × (has_tag (wanted target) r ≡ true)
                  × ((s : RunnerRecord)
                      → IsIn s (records d)
                      → s.status ≡ active
                      → has_tag (wanted target) s ≡ true
                      → text_lt s.id r.id ≡ false))))
      × (find_for_target target d ≡ none
          → ((e : RegisteredRunner) × (by_id (wanted target) d ≡ some e)
              × (e.record_.status ≢ active))
            ⊎ ((r : RunnerRecord)
                → IsIn r (records d)
                → r.status ≡ active
                → has_tag (wanted target) r ≡ false))
unfolding find_for_target prefer
find_for_target_lem target d = elim (Option-cases (by_id (wanted target) d)) [
  | inl n ↦ (
    λ r e. let h = by_tag-some (wanted target) d r (rw n at e) in (h.0, inr (n, h.1, h.2, h.3)),
    λ e. inr (λ r i a. by_tag-none (wanted target) d r (rw n at e) i a),
  )
  | inr (s, f) ↦ (
    λ r e. (is_active_iff r.status (ground arith), inl (s, f, ground arith)),
    λ e. inl (s, f, λ a. ground arith),
  )
]
