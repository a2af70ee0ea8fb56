-- ===== src/RunControl.antt =====
-- crates/asmodeus-control-plane/src/run_control.rs: cancellation of a run and of a campaign. Each
-- operation is one critical section; a run id is a text.
pub mod Admission
use asmodeus.Common.Category.{Category}
use asmodeus.Prelude.{Bool, true, false, ◌&&◌, Option, none, some, Text, text, is_some}

-- `ActiveRun`: the flag and the status that the worker reads.
pub record ActiveRun : Type 0 where
  pub category : Category
  pub cancel : Bool
  pub status : Text

-- `ActiveRun::new`.
unfoldable pub new : Category → ActiveRun
new category = record { category = category; cancel = false; status = text "QUEUED" }

-- `ActiveRun::cancel`.
unfoldable pub cancel_run : ActiveRun → ActiveRun
cancel_run run = record run { cancel = true; status = text "CANCELLING" }

-- `CampaignControlState`.
pub record CampaignControl : Type 0 where
  pub cancelled : Bool
  pub current : Option Text

abbrev pub default_control : CampaignControl
default_control = record { cancelled = false; current = none }

-- `CampaignControl::is_cancelled`.
unfoldable pub is_cancelled : CampaignControl → Bool
is_cancelled c = c.cancelled

-- `CampaignControl::cancel`: the run that the caller must cancel.
unfoldable pub cancel : CampaignControl → CampaignControl × Option Text
cancel c = (record c { cancelled = true }, c.current)

-- `CampaignControl::set_current`: whether the caller must cancel the run itself.
unfoldable pub set_current : Option Text → CampaignControl → CampaignControl × Bool
set_current run c = (record c { current = run }, c.cancelled && is_some run)
