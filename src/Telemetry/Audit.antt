-- ===== src/Telemetry/Audit.antt =====
-- crates/asmodeus-telemetry/src/audit.rs: audit records and the trail. The JSON of a line is read by
-- serde, which is a parameter of the replay.
use asmodeus.Prelude.{
  ℕ, zero, suc, Bool, true, false, ◌&&◌, ◌||◌, not, List, [], ◌∷◌, ◌++◌, Option, none, some,
  if◌then◌else◌, Text, text, text_eq, nat_eq, length, trim, filter, take, reverse, find,
  eq_ignore_ascii_case, Map, lookup, insert, Result, ok, ◌>>=◌, ◌==◌, Text_eq,
}

pub record Measurements : Type 0 where
  pub mttd_ms : ℕ  -- u64
  pub mttr_ms : ℕ  -- u64
  pub blue_team_detected : Bool

pub record RunEvidence : Type 0 where
  pub execution_mode : Text
  pub feedback_received : Bool
  pub contained : Bool
  pub cleanup_confirmed : Bool
  pub failure_reason : Option Text

pub record AuditRecord : Type 0 where
  pub run_id : Text
  pub scenario_id : Text
  pub scenario_name : Text
  pub category : Text
  pub mitre_technique : Text
  pub mitre_tactic : Text
  pub severity : Text
  pub tag : Text
  pub initiator : Text
  pub runner_id : Text
  pub status : Text
  pub measurements : Measurements
  pub detection_source : Text
  pub containment_action : Text
  pub cleanup_status : Text
  pub timestamp_utc : Text
  pub signature_hex : Text
  pub public_key_hex : Text
  pub evidence : Option RunEvidence

unfoldable pub evidence_is : (RunEvidence → Bool) → AuditRecord → Bool
evidence_is p r = elim r.evidence [ none ↦ false | some e ↦ p e ]

-- `AuditRecord::has_confirmed_feedback`.
unfoldable pub has_confirmed_feedback : AuditRecord → Bool
unfolding evidence_is
has_confirmed_feedback r =
    evidence_is (λ e. text_eq e.execution_mode (text "runner") && e.feedback_received) r

-- `AuditRecord::is_terminal`.
unfoldable pub is_terminal : AuditRecord → Bool
is_terminal r =
    not (r.status == text "QUEUED" || r.status == text "RUNNING" || r.status == text "CANCELLING")

-- `AuditTrail`, whose one field is the records, in the order of insertion.
pub record AuditTrail : Type 0 where
  pub records : List AuditRecord

-- `AuditTrail::append`.
unfoldable pub append : AuditRecord → AuditTrail → AuditTrail
append r t = record { records = t.records ++ r ∷ [] }

-- `AuditTrail::get`.
unfoldable pub get : Text → AuditTrail → Option AuditRecord
get run_id t = find (λ r. text_eq r.run_id run_id) t.records

abbrev pub one_later : Option ℕ → Option ℕ
one_later none = none
one_later (some n) = some (suc n)

-- `position` of the first record of a run.
unfoldable pub position : Text → List AuditRecord → Option ℕ
position run_id [] = none
position run_id (r ∷ rs) =
    let rest = position run_id rs in if text_eq r.run_id run_id then some zero else one_later rest

-- `records[n] = r`, at an index in range.
unfoldable pub set_at : ℕ → AuditRecord → List AuditRecord → List AuditRecord
set_at n r [] = []
set_at zero r (s ∷ rs) = r ∷ rs
set_at (suc n) r (s ∷ rs) = s ∷ set_at n r rs

unfoldable pub replaced : Option ℕ → AuditRecord → AuditTrail → AuditTrail × Bool
replaced none r t = (t, false)
replaced (some n) r t = (record { records = set_at n r t.records }, true)

-- `AuditTrail::update`.
unfoldable pub update : Text → AuditRecord → AuditTrail → AuditTrail × Bool
unfolding replaced
update run_id updated t = replaced (position run_id t.records) updated t

unfoldable pub matches_filter : Option Text → Text → Bool
matches_filter none value = true
matches_filter (some wanted) value = eq_ignore_ascii_case value wanted

-- `AuditTrail::list`.
unfoldable pub list : Option ℕ → Option Text → Option Text → AuditTrail → List AuditRecord
list limit scenario_id status t =
    let chosen =
      filter (λ r. matches_filter scenario_id r.scenario_id && matches_filter status r.status)
        (reverse t.records) in
    elim limit [ none ↦ chosen | some n ↦ take n chosen ]

-- The records that are read so far, and the index of each run.
pub record Replay : Type 0 where
  pub records : List AuditRecord
  pub positions : Map ℕ

unfoldable pub place : Option ℕ → AuditRecord → Replay → Replay
place (some n) r s = record s { records = set_at n r s.records }
place none r s = record {
  records = s.records ++ r ∷ [];
  positions = insert r.run_id (length s.records) s.positions;
}

-- A revision that was read.
unfoldable pub revise : AuditRecord → Replay → Replay
revise r s = place (lookup r.run_id s.positions) r s

-- One more byte of the first line.
unfoldable pub on_first : ℕ → List Text → List Text
on_first c [] = (c ∷ []) ∷ []
on_first c (l ∷ ls) = (c ∷ l) ∷ ls

-- `BufRead::lines`: a line feed ends a line, and the last line may be without one. The carriage return
-- of a line end stays, which the trim of a line takes away.
unfoldable pub lines : Text → List Text
lines [] = []
lines (c ∷ s) = let rest = lines s in if nat_eq c b'\n' then [] ∷ rest else on_first c rest

module _ {E : Type 0} (from_str : Text → Result E AuditRecord) where
  -- The loop of `from_jsonl` over the lines.
  unfoldable pub replay : List Text → Replay → Result E Replay
  replay [] s = ok s
  replay (line ∷ lines) s =
      if nat_eq (length (trim line)) 0
      then replay lines s
      else do r ← from_str (trim line); replay lines (revise r s)

  unfoldable pub from_lines : List Text → Result E AuditTrail
  from_lines ls = do
    s ← replay ls (record { records = []; positions = [] })
    ok (record { records = s.records })

  -- `AuditTrail::from_jsonl`, of the bytes of the log.
  unfoldable pub from_jsonl : Text → Result E AuditTrail
  from_jsonl bytes = from_lines (lines bytes)
