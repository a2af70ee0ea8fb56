-- ===== src/Common/Category.antt =====
-- crates/asmodeus-common/src/lib.rs: the category of a scenario and the nature of an action.
use asmodeus.Common.Rbac.{Capability, run_red_team, inject_chaos}
use asmodeus.Prelude.{
  ◌∷◌, Bool, true, false, ◌||◌, if◌then◌else◌, Result, ok, err, Text, text, text_eq,
  to_ascii_lowercase, trim, ◌==◌, Text_eq,
}

pub data Category : Type 0 where
  red_team chaos : Category

-- `Category::required_capability`.
unfoldable pub required_capability : Category → Capability
required_capability red_team = run_red_team
required_capability chaos = inject_chaos

-- `Category::tag`, whose first character is given by its bytes.
unfoldable pub category_tag : Category → Text
category_tag red_team = 240 ∷ 159 ∷ 148 ∷ 180 ∷ text " [RED TEAM EXERCISE]"
category_tag chaos = 226 ∷ 154 ∷ 161 ∷ text " [CHAOS TEST]"

-- `Category::as_str`.
unfoldable pub category_as_str : Category → Text
category_as_str red_team = text "red_team"
category_as_str chaos = text "chaos"

category_of_key : Text → Result (Unit {0}) Category
category_of_key s =
    if s == text "red_team" || s == text "redteam"
    then ok red_team
    else if s == text "chaos"
    then ok chaos
    else err tt

-- `Category::from_str`; the message of the error is left out.
unfoldable pub category_from_str : Text → Result (Unit {0}) Category
unfolding category_of_key to_ascii_lowercase trim text_eq
category_from_str s = category_of_key (to_ascii_lowercase (trim s))

pub data ActionNature : Type 0 where
  synthetic operational : ActionNature

-- `ActionNature::is_permitted`: the INV-0 gate.
unfoldable pub is_permitted : ActionNature → Bool
is_permitted synthetic = true
is_permitted operational = false
