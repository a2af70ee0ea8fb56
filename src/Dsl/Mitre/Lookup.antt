-- ===== src/Dsl/Mitre/Lookup.antt =====
-- crates/asmodeus-dsl/src/mitre.rs: what a lookup in the pinned taxonomy gives.
use asmodeus.Dsl.Mitre.{
  MitreTechnique, lookup_technique, is_known_id, base_technique, all_defs, of_parent,
  t1486_data_encrypted_for_impact, t1611_escape_to_host, t1059_command_and_scripting_interpreter,
  t1071_application_layer_protocol, t1568_dynamic_resolution, t1003_os_credential_dumping,
  t1070_indicator_removal, t1053_scheduled_task_job, t1041_exfiltration_over_c2,
  t1562_impair_defenses, t1609_container_administration_command,
}
use asmodeus.Prelude.{
  ◌≡◌, refl, arith, eq_ignore_ascii_case, inl, inr, Bool, true, List, [], ◌∷◌, none, some, Text,
  find, All, Option-cases,
}

find-All :
    (p : MitreTechnique → Bool) (P : MitreTechnique → Type 0) (xs : List MitreTechnique)
    (t : MitreTechnique)
    → All P xs
    → find p xs ≡ some t
    → P t
find-All p P [] t all e = cc
find-All p P (x ∷ xs) t all e = ground (arith, find-All p P xs t)

HasBase : MitreTechnique → Type 0
HasBase t = (b : MitreTechnique) × (of_parent t t.parent ≡ some b) × (b.parent ≡ none)

all_defs-HasBase : All HasBase all_defs
unfolding HasBase of_parent lookup_technique eq_ignore_ascii_case
all_defs-HasBase = (
  (t1486_data_encrypted_for_impact, refl, refl),
  (
    (t1611_escape_to_host, refl, refl),
    (
      (t1059_command_and_scripting_interpreter, refl, refl),
      (
        (t1071_application_layer_protocol, refl, refl),
        (
          (t1568_dynamic_resolution, refl, refl),
          (
            (t1003_os_credential_dumping, refl, refl),
            (
              (t1070_indicator_removal, refl, refl),
              (
                (t1053_scheduled_task_job, refl, refl),
                (
                  (t1041_exfiltration_over_c2, refl, refl),
                  (
                    (t1562_impair_defenses, refl, refl),
                    (
                      (t1609_container_administration_command, refl, refl),
                      (
                        (t1059_command_and_scripting_interpreter, refl, refl),
                        (
                          (t1071_application_layer_protocol, refl, refl),
                          (
                            (t1071_application_layer_protocol, refl, refl),
                            ((t1562_impair_defenses, refl, refl), tt),
                          ),
                        ),
                      ),
                    ),
                  ),
                ),
              ),
            ),
          ),
        ),
      ),
    ),
  ),
)

lookup_technique-HasBase :
    (id : Text) (t : MitreTechnique) → lookup_technique id ≡ some t → HasBase t
unfolding lookup_technique
lookup_technique-HasBase id t e =
    find-All (λ t. eq_ignore_ascii_case t.id id) HasBase all_defs t all_defs-HasBase e

-- A known id, however it is cased, resolves to a base technique, never to a sub-technique; an
-- unknown one resolves to none.
base_technique_lem :
    (id : Text)
    → is_known_id id ≡ true
    → (b : MitreTechnique) × (base_technique id ≡ some b) × (b.parent ≡ none)
unfolding is_known_id base_technique HasBase
base_technique_lem id known = elim (Option-cases (lookup_technique id)) [
  | inl e ↦ cc
  | inr (t, e) ↦ let h = lookup_technique-HasBase id t e in (h.0, rw e h.1, h.2)
]
