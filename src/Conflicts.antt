-- ===== src/Conflicts.antt =====
-- services/conformance/separation.py: `Conflict`; and services/conformance/runner.py: how it becomes a
-- detection.
pub mod Keys
mod Tests
use airspace_conformance_pla.Base.{
  String, Option, none, some, List, [], ◌∷◌, ◌++◌, Float, join, or_else, sorted, if◌then◌else◌,
}
use airspace_conformance_pla.Contracts.{predicted_conflict, Severity, advisory, caution, warning}
use airspace_conformance_pla.Alerts.{Detection}

pub record Conflict (F : Type 0) : Type 0 where
  pub first_track_id : String
  pub second_track_id : String
  pub first_callsign : Option String
  pub second_callsign : Option String
  pub time_to_cpa_s : F
  pub min_horizontal_nm : F
  pub min_vertical_ft : F
  pub current_horizontal_nm : F
  pub current_vertical_ft : F
  pub lookahead_s : F
  pub horizontal_standard_nm : F
  pub vertical_standard_ft : F
  pub probability : Option F

-- The key of two track identities, in their order.
abbrev pub pair_key : List String → String
unfolding join
pair_key (first ∷ second ∷ _) = join ("predicted_conflict:" ∷ first ∷ ":" ∷ second ∷ [])
pair_key _ = ""

module _ {F : Type 0} where
  unfoldable pub key : Conflict F → String
  unfolding pair_key sorted
  key c = pair_key (sorted (c.first_track_id ∷ c.second_track_id ∷ []))

module _ {F : Type 0} ⦃float : Float F⦄ where
  open float use {literal, le, lt, format}

  unfoldable pub reason_codes : Conflict F → List String
  reason_codes c =
      ("horizontal_below_standard" ∷ "vertical_below_standard" ∷ [])
      ++ (if le c.time_to_cpa_s (literal 0)
          then "already_in_conflict" ∷ []
          else if lt c.time_to_cpa_s (literal 60)
          then "imminent" ∷ []
          else [])
      ++ (if lt c.current_horizontal_nm c.horizontal_standard_nm
          then "currently_within_horizontal_standard" ∷ []
          else [])

  unfoldable pub severity_for : Conflict F → Severity
  severity_for c =
      if le c.time_to_cpa_s (literal 60)
      then warning
      else if le c.time_to_cpa_s (literal 180)
      then caution
      else advisory

  unfoldable pub as_detection : Conflict F → Detection F
  unfolding key severity_for reason_codes join or_else
  as_detection c =
      let first = or_else c.first_callsign c.first_track_id in
      let second = or_else c.second_callsign c.second_track_id in
      record {
        key = key c;
        kind = predicted_conflict;
        severity = severity_for c;
        summary = join (
            first
            ∷ " and "
            ∷ second
            ∷ ": predicted separation "
            ∷ format ".1f" c.min_horizontal_nm
            ∷ " NM / "
            ∷ format ".0f" c.min_vertical_ft
            ∷ " ft in "
            ∷ format ".0f" c.time_to_cpa_s
            ∷ " s"
            ∷ []);
        reason_codes = reason_codes c;
        track_ids = c.first_track_id ∷ c.second_track_id ∷ [];
        conflict = some (record {
          time_to_cpa_s = c.time_to_cpa_s;
          min_horizontal_sep_nm = c.min_horizontal_nm;
          min_vertical_sep_ft = c.min_vertical_ft;
          lookahead_s = c.lookahead_s;
          horizontal_standard_nm = c.horizontal_standard_nm;
          vertical_standard_ft = c.vertical_standard_ft;
        });
        conformance = none;
        scenario_id = none;
      }
