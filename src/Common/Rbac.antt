-- ===== src/Common/Rbac.antt =====
-- crates/asmodeus-common/src/rbac.rs: the roles, the actions that they guard, and the matrix.
use asmodeus.Prelude.{
  ◌≡◌, refl, ◌↔◌, ◌⊎◌, Bool, true, false, ◌&&◌, ◌||◌, arith, if◌then◌else◌, Result, ok, err, Text,
  text, text_eq, to_ascii_lowercase, trim, ◌==◌, Text_eq,
}

pub data Role : Type 0 where
  admin red_team dev_sec_ops ciso sec_ops auditor : Role

pub data Capability : Type 0 where
  run_red_team inject_chaos view_reports manage_scenarios : Capability

-- `Role::can`, row by row.
unfoldable pub can : Role → Capability → Bool
can admin _ = true
can red_team run_red_team = true
can red_team view_reports = true
can red_team manage_scenarios = true
can red_team inject_chaos = false
can dev_sec_ops inject_chaos = true
can dev_sec_ops view_reports = true
can dev_sec_ops manage_scenarios = true
can dev_sec_ops run_red_team = false
can ciso view_reports = true
can sec_ops view_reports = true
can auditor view_reports = true
can ciso _ = false
can sec_ops _ = false
can auditor _ = false

-- `Role::as_str`.
unfoldable pub role_as_str : Role → Text
role_as_str admin = text "admin"
role_as_str red_team = text "red_team"
role_as_str dev_sec_ops = text "devsecops"
role_as_str ciso = text "ciso"
role_as_str sec_ops = text "secops"
role_as_str auditor = text "auditor"

role_of_key : Text → Result (Unit {0}) Role
role_of_key s =
    if s == text "admin"
    then ok admin
    else if s == text "red_team" || s == text "redteam"
    then ok red_team
    else if s == text "devsecops"
    then ok dev_sec_ops
    else if s == text "ciso"
    then ok ciso
    else if s == text "secops" || s == text "soc" || s == text "blue_team"
    then ok sec_ops
    else if s == text "auditor"
    then ok auditor
    else err tt

-- `Role::from_str`.
unfoldable pub role_from_str : Text → Result (Unit {0}) Role
unfolding role_of_key to_ascii_lowercase trim text_eq
role_from_str s = role_of_key (to_ascii_lowercase (trim s))

-- The wire spelling of a role parses back to the role.
role_from_str-as_str : (r : Role) → role_from_str (role_as_str r) ≡ ok r
unfolding role_from_str role_as_str
role_from_str-as_str admin = refl
role_from_str-as_str red_team = refl
role_from_str-as_str dev_sec_ops = refl
role_from_str-as_str ciso = refl
role_from_str-as_str sec_ops = refl
role_from_str-as_str auditor = refl

-- The three observers of FTT §3.
abbrev pub IsReadOnly : Role → Type 0
IsReadOnly r = (r ≡ ciso) ⊎ (r ≡ sec_ops) ⊎ (r ≡ auditor)

-- A role is one of the three observers exactly when it can neither launch nor inject nor edit, a
-- role that can both launch and inject is the administrator, and every role sees the reports.
separation_of_duties :
    (r : Role)
    → (IsReadOnly r
        ↔ ((can r run_red_team || can r inject_chaos || can r manage_scenarios) ≡ false))
      × (((can r run_red_team && can r inject_chaos) ≡ true) ↔ (r ≡ admin))
      × (can r view_reports ≡ true)
unfolding can
separation_of_duties admin = ground arith
separation_of_duties red_team = ground arith
separation_of_duties dev_sec_ops = ground arith
separation_of_duties ciso = ground arith
separation_of_duties sec_ops = ground arith
separation_of_duties auditor = ground arith
