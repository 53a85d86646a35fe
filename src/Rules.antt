-- ===== src/Rules.antt =====
-- services/conformance/rules.py: the tests on a single track, over any type of floats.
pub mod Keys
pub mod Escalation
mod Tests
use airspace_conformance_pla.Base.{
  String, Bool, not, ◌&&◌, ◌||◌, Option, none, some, List, [], ◌∷◌, ◌++◌, Float, join, or_else,
  ◌==◌, string_eq, if◌then◌else◌,
}
use airspace_conformance_pla.Contracts.{
  AlertKind, emergency_squawk, excessive_descent, Severity, warning, caution, TrackUpdate,
  kind_value,
}

pub record RuleFinding : Type 0 where
  pub track_id : String
  pub kind : AlertKind
  pub severity : Severity
  pub summary : String
  pub reason_codes : List String

-- The property `key` of `RuleFinding`.
unfoldable pub key : RuleFinding → String
unfolding join kind_value
key f = join (kind_value f.kind ∷ ":" ∷ f.track_id ∷ [])

-- `EMERGENCY_SQUAWKS`: the description and the code.
unfoldable pub emergency_squawks : String → Option (String × String)
emergency_squawks squawk =
    if squawk == "7500"
    then some ("unlawful interference", "squawk_7500_hijack")
    else if squawk == "7600"
    then some ("radio failure", "squawk_7600_radio_failure")
    else if squawk == "7700"
    then some ("general emergency", "squawk_7700_emergency")
    else none

abbrev pub to_list {ℓ} : {A : Type ℓ} → Option A → List A
to_list none = []
to_list (some a) = a ∷ []

module _ {F : Type 0} ⦃float : Float F⦄ where
  open float use {literal, negate, abs, round, le, lt, format}

  abbrev pub excessive_descent_fpm : F
  excessive_descent_fpm = negate (literal 6000)

  abbrev pub low_altitude_ft : F
  low_altitude_ft = literal 10000

  abbrev pub low_altitude_descent_fpm : F
  low_altitude_descent_fpm = negate (literal 3000)

  -- The locals `low_and_steep` and `very_steep` of `_descent_finding`.
  abbrev pub low_and_steep : TrackUpdate F → Bool
  low_and_steep track =
      lt track.altitude_ft low_altitude_ft && le track.vertical_rate_fpm low_altitude_descent_fpm

  abbrev pub very_steep : TrackUpdate F → Bool
  very_steep track = le track.vertical_rate_fpm excessive_descent_fpm

  -- What `_descent_finding` returns past its guards.
  abbrev pub descent_record : TrackUpdate F → String → RuleFinding
  descent_record track label = record {
    track_id = track.track_id;
    kind = excessive_descent;
    severity = if low_and_steep track then warning else caution;
    summary = join (
        label
        ∷ " descending at "
        ∷ format ",.0f" (abs (round track.vertical_rate_fpm))
        ∷ " fpm through "
        ∷ format ",.0f" (round track.altitude_ft)
        ∷ " ft"
        ∷ []);
    reason_codes =
        (if very_steep track then "descent_rate_above_6000_fpm" ∷ [] else [])
        ++ (if low_and_steep track then "steep_descent_below_10000_ft" ∷ [] else []);
  }

  unfoldable pub descent_finding : TrackUpdate F → String → Option RuleFinding
  descent_finding track label =
      if le (literal 0) track.vertical_rate_fpm
      then none
      else if not (low_and_steep track || very_steep track)
      then none
      else some (descent_record track label)

  unfoldable pub squawk_finding : TrackUpdate F → String → Option RuleFinding
  unfolding emergency_squawks
  squawk_finding track label = elim track.squawk [
    | none ↦ none
    | some squawk ↦ elim (emergency_squawks squawk) [
      | none ↦ none
      | some (description, code) ↦ some (record {
        track_id = track.track_id;
        kind = emergency_squawk;
        severity = warning;
        summary = join (label ∷ " squawking " ∷ squawk ∷ " (" ∷ description ∷ ")" ∷ []);
        reason_codes = code ∷ [];
      })
    ]
  ]

  unfoldable pub check : TrackUpdate F → List RuleFinding
  unfolding squawk_finding descent_finding or_else
  check track =
      let label = or_else track.callsign track.icao24 in
      to_list (squawk_finding track label) ++ to_list (descent_finding track label)
