-- ===== src/Dsl/Manifest/Ceiling.antt =====
-- crates/asmodeus-dsl/src/manifest.rs: which trust a manifest can claim for its techniques.
use asmodeus.Dsl.Fidelity.{
  Fidelity, unspecified, marker_only, behavioral, trust, min_fidelity, permits_prevention_claim,
  TechniqueRef,
}
use asmodeus.Dsl.Manifest.{
  ScenarioManifest, is_legacy, implemented, declared, effective_fidelity, technique_fidelity,
  clamped, refs_of, resolved_technique_refs,
}
use asmodeus.Prelude.{
  ◌≤◌, ◌≡◌, refl, arith, true, false, Option, none, some, List, [], ◌∷◌, map, Text, text, text_eq,
  text_eq_iff, eq_ignore_ascii_case, All,
}

min_fidelity-behavioral :
    (a b : Fidelity) → min_fidelity a b ≡ behavioral → (a ≡ behavioral) × (b ≡ behavioral)
unfolding min_fidelity
min_fidelity-behavioral unspecified unspecified h = cc
min_fidelity-behavioral unspecified marker_only h = cc
min_fidelity-behavioral unspecified behavioral h = cc
min_fidelity-behavioral marker_only unspecified h = cc
min_fidelity-behavioral marker_only marker_only h = cc
min_fidelity-behavioral marker_only behavioral h = cc
min_fidelity-behavioral behavioral unspecified h = cc
min_fidelity-behavioral behavioral marker_only h = cc
min_fidelity-behavioral behavioral behavioral h = (refl, refl)

min_fidelity-le :
    (a b : Fidelity) → (trust (min_fidelity a b) ≤ trust a) × (trust (min_fidelity a b) ≤ trust b)
unfolding min_fidelity
min_fidelity-le a b = ground arith

prevention-behavioral : (f : Fidelity) → permits_prevention_claim f ≡ true → f ≡ behavioral
unfolding permits_prevention_claim
prevention-behavioral unspecified h = cc
prevention-behavioral marker_only h = cc
prevention-behavioral behavioral h = refl

-- What a reference may claim: no more than the manifest, and more than a marker only for the one
-- technique that the executor imitates, where the author has declared it.
unfoldable pub IsHonest : ScenarioManifest → TechniqueRef → Type 0
IsHonest m r =
    (trust r.fidelity ≤ trust (effective_fidelity m))
    × (permits_prevention_claim r.fidelity ≡ true
        → (is_legacy m ≡ false)
          × (declared m.metadata.fidelity ≡ behavioral)
          × (m.spec.action.action_type ≡ text "synthetic_canary_encrypt")
          × (eq_ignore_ascii_case r.technique_id (text "T1486") ≡ true))

effective-behavioral :
    (m : ScenarioManifest)
    → effective_fidelity m ≡ behavioral
    → (is_legacy m ≡ false) × (declared m.metadata.fidelity ≡ behavioral)
unfolding effective_fidelity
effective-behavioral m h = ground (
  arith,
  min_fidelity-behavioral (declared m.metadata.fidelity) (implemented m.spec.action.action_type),
)

technique_fidelity-behavioral :
    (m : ScenarioManifest) (id : Text) (ceiling : Fidelity)
    → technique_fidelity m id ceiling ≡ behavioral
    → (ceiling ≡ behavioral)
      × (text_eq m.spec.action.action_type (text "synthetic_canary_encrypt") ≡ true)
      × (eq_ignore_ascii_case id (text "T1486") ≡ true)
unfolding technique_fidelity
technique_fidelity-behavioral m id ceiling h =
    ground (arith, min_fidelity-behavioral ceiling marker_only)

technique_fidelity-le :
    (m : ScenarioManifest) (id : Text) (ceiling : Fidelity)
    → trust (technique_fidelity m id ceiling) ≤ trust ceiling
unfolding technique_fidelity
technique_fidelity-le m id ceiling = ground (arith, min_fidelity-le ceiling marker_only)

-- A fidelity below what the manifest gives the technique makes an honest reference.
below-IsHonest :
    (m : ScenarioManifest) (id : Text) (f : Fidelity)
    → trust f ≤ trust (technique_fidelity m id (effective_fidelity m))
    → (f ≡ behavioral → technique_fidelity m id (effective_fidelity m) ≡ behavioral)
    → IsHonest m (record { technique_id = id; fidelity = f })
unfolding IsHonest
below-IsHonest m id f low whole = (
  omega (arith, technique_fidelity-le m id (effective_fidelity m)),
  λ h.
      let (most, encrypts, impact) =
        technique_fidelity-behavioral m id (effective_fidelity m)
          (whole (prevention-behavioral f h)) in
      let (current, stated) = effective-behavioral m most in
      (
        current,
        stated,
        (text_eq_iff m.spec.action.action_type (text "synthetic_canary_encrypt")).0 encrypts,
        impact,
      ),
)

clamped-IsHonest :
    (m : ScenarioManifest) (refs : List TechniqueRef)
    → All (IsHonest m) (map (clamped m (effective_fidelity m)) refs)
unfolding clamped
clamped-IsHonest m [] = tt
clamped-IsHonest m (r ∷ rs) = (
  below-IsHonest m r.technique_id
      (min_fidelity r.fidelity (technique_fidelity m r.technique_id (effective_fidelity m)))
      (min_fidelity-le r.fidelity (technique_fidelity m r.technique_id (effective_fidelity m))).1
      (λ h. (min_fidelity-behavioral r.fidelity _ h).1),
  clamped-IsHonest m rs,
)

refs_of-IsHonest :
    (m : ScenarioManifest) (refs : Option (List TechniqueRef)) (single : Option Text)
    → All (IsHonest m) (refs_of m (effective_fidelity m) refs single)
unfolding refs_of
refs_of-IsHonest m (some refs) single = clamped-IsHonest m refs
refs_of-IsHonest m none none = tt
refs_of-IsHonest m none (some id) = (
  below-IsHonest m id (technique_fidelity m id (effective_fidelity m)) (omega arith) (λ h. h),
  tt,
)

-- No technique of a manifest is trusted more than the manifest, and one may back a claim of
-- prevention only if it is the encryption for impact, exercised by the action that imitates it, in a
-- manifest of the current version that declares behavioural fidelity.
pub resolved_technique_refs-IsHonest :
    (m : ScenarioManifest) → All (IsHonest m) (resolved_technique_refs m)
unfolding resolved_technique_refs
resolved_technique_refs-IsHonest m =
    refs_of-IsHonest m m.metadata.mitre_techniques m.metadata.mitre_technique
