-- ===== src/Dsl/Mitre.antt =====
-- crates/asmodeus-dsl/src/mitre.rs: the pinned taxonomy. The names and the descriptions of the
-- techniques, which no code decides on, are left out.
pub mod Lookup
use asmodeus.Prelude.{
  Bool, List, [], ◌∷◌, Option, none, some, Text, text, find, eq_ignore_ascii_case, is_some,
}
use asmodeus.Prelude.Opt.{◌>>=◌}

pub record MitreTechnique : Type 0 where
  pub id : Text
  pub tactic : Text
  pub tactics : List Text
  pub parent : Option Text

abbrev pub t1486_data_encrypted_for_impact : MitreTechnique
t1486_data_encrypted_for_impact = record {
  id = text "T1486";
  tactic = text "Impact";
  tactics = text "Impact" ∷ [];
  parent = none;
}

abbrev pub t1611_escape_to_host : MitreTechnique
t1611_escape_to_host = record {
  id = text "T1611";
  tactic = text "Privilege Escalation";
  tactics = text "Privilege Escalation" ∷ [];
  parent = none;
}

abbrev pub t1059_command_and_scripting_interpreter : MitreTechnique
t1059_command_and_scripting_interpreter = record {
  id = text "T1059";
  tactic = text "Execution";
  tactics = text "Execution" ∷ [];
  parent = none;
}

abbrev pub t1071_application_layer_protocol : MitreTechnique
t1071_application_layer_protocol = record {
  id = text "T1071";
  tactic = text "Command and Control";
  tactics = text "Command and Control" ∷ [];
  parent = none;
}

abbrev pub t1568_dynamic_resolution : MitreTechnique
t1568_dynamic_resolution = record {
  id = text "T1568";
  tactic = text "Command and Control";
  tactics = text "Command and Control" ∷ [];
  parent = none;
}

abbrev pub t1003_os_credential_dumping : MitreTechnique
t1003_os_credential_dumping = record {
  id = text "T1003";
  tactic = text "Credential Access";
  tactics = text "Credential Access" ∷ [];
  parent = none;
}

abbrev pub t1070_indicator_removal : MitreTechnique
t1070_indicator_removal = record {
  id = text "T1070";
  tactic = text "Defense Evasion";
  tactics = text "Defense Evasion" ∷ [];
  parent = none;
}

abbrev pub t1053_scheduled_task_job : MitreTechnique
t1053_scheduled_task_job = record {
  id = text "T1053";
  tactic = text "Persistence";
  tactics = text "Persistence" ∷ text "Execution" ∷ text "Privilege Escalation" ∷ [];
  parent = none;
}

abbrev pub t1041_exfiltration_over_c2 : MitreTechnique
t1041_exfiltration_over_c2 = record {
  id = text "T1041";
  tactic = text "Exfiltration";
  tactics = text "Exfiltration" ∷ [];
  parent = none;
}

abbrev pub t1562_impair_defenses : MitreTechnique
t1562_impair_defenses = record {
  id = text "T1562";
  tactic = text "Defense Evasion";
  tactics = text "Defense Evasion" ∷ [];
  parent = none;
}

abbrev pub t1609_container_administration_command : MitreTechnique
t1609_container_administration_command = record {
  id = text "T1609";
  tactic = text "Execution";
  tactics = text "Execution" ∷ [];
  parent = none;
}

abbrev pub t1059_004_unix_shell : MitreTechnique
t1059_004_unix_shell = record {
  id = text "T1059.004";
  tactic = text "Execution";
  tactics = text "Execution" ∷ [];
  parent = some (text "T1059");
}

abbrev pub t1071_001_web_protocols : MitreTechnique
t1071_001_web_protocols = record {
  id = text "T1071.001";
  tactic = text "Command and Control";
  tactics = text "Command and Control" ∷ [];
  parent = some (text "T1071");
}

abbrev pub t1071_004_dns : MitreTechnique
t1071_004_dns = record {
  id = text "T1071.004";
  tactic = text "Command and Control";
  tactics = text "Command and Control" ∷ [];
  parent = some (text "T1071");
}

abbrev pub t1562_001_disable_or_modify_tools : MitreTechnique
t1562_001_disable_or_modify_tools = record {
  id = text "T1562.001";
  tactic = text "Defense Evasion";
  tactics = text "Defense Evasion" ∷ [];
  parent = some (text "T1562");
}

-- `ALL_DEFS`.
abbrev pub all_defs : List MitreTechnique
all_defs =
    t1486_data_encrypted_for_impact ∷ t1611_escape_to_host ∷ t1059_command_and_scripting_interpreter
    ∷ t1071_application_layer_protocol ∷ t1568_dynamic_resolution ∷ t1003_os_credential_dumping
    ∷ t1070_indicator_removal ∷ t1053_scheduled_task_job ∷ t1041_exfiltration_over_c2
    ∷ t1562_impair_defenses ∷ t1609_container_administration_command ∷ t1059_004_unix_shell
    ∷ t1071_001_web_protocols ∷ t1071_004_dns ∷ t1562_001_disable_or_modify_tools ∷ []

-- `lookup_technique`.
unfoldable pub lookup_technique : Text → Option MitreTechnique
lookup_technique id = find (λ t. eq_ignore_ascii_case t.id id) all_defs

-- `is_known_id`.
unfoldable pub is_known_id : Text → Bool
unfolding lookup_technique
is_known_id id = is_some (lookup_technique id)

of_parent : MitreTechnique → Option Text → Option MitreTechnique
of_parent t none = some t
of_parent t (some parent_id) = lookup_technique parent_id

-- `base_technique`.
unfoldable pub base_technique : Text → Option MitreTechnique
unfolding of_parent
base_technique id = do t ← lookup_technique id; of_parent t t.parent
