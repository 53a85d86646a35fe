-- ===== src/Rules/Tests.antt =====
-- Runs of the rules, and their theorems at concrete inputs.
use airspace_conformance_pla.Base.{◌≡◌, ◌≤◌, refl, none, some, [], ◌∷◌, join}
use airspace_conformance_pla.Base.Whole.{ℤ, pos, negsuc, whole, whole-IsOrdered}
use airspace_conformance_pla.Contracts.{
  TrackUpdate, confirmed, simulator, warning, emergency_squawk,
}
use airspace_conformance_pla.Rules.{check, descent_finding, descent_record}
use airspace_conformance_pla.Rules.Escalation.{rank, descent_finding_mono}

-- An aircraft at 9000 ft, descending at 4000 ft a minute, squawking 7700.
abbrev low : TrackUpdate ℤ
low = record {
  track_id = "trk-abc123";
  icao24 = "abc123";
  callsign = some "";
  updated_at = 0;
  last_report_at = 0;
  state = confirmed;
  lat = pos 0;
  lon = pos 0;
  altitude_ft = pos 9000;
  ground_speed_kt = pos 300;
  track_deg = pos 0;
  vertical_rate_fpm = negsuc 3999;
  turn_rate_deg_s = pos 0;
  position_uncertainty_m = pos 0;
  update_count = 9;
  innovation_nm = none;
  velocity_uncertainty_kt = none;
  altitude_uncertainty_ft = none;
  vertical_rate_uncertainty_fpm = none;
  squawk = some "7700";
  source = simulator;
  scenario_id = none;
}

abbrev lower : TrackUpdate ℤ
lower = record low { altitude_ft = pos 5000; vertical_rate_fpm = negsuc 6999 }

found :
    check low
    ≡ record {
      track_id = "trk-abc123";
      kind = emergency_squawk;
      severity = warning;
      summary = "abc123 squawking 7700 (general emergency)";
      reason_codes = "squawk_7700_emergency" ∷ [];
    }
      ∷ descent_record low "abc123"
      ∷ []
unfolding check join
found = refl

descent_finding_mono_example :
    (descent_finding lower "b" ≡ some (descent_record lower "b"))
    × (3 ≤ rank (descent_record lower "b").severity)
unfolding descent_finding
descent_finding_mono_example =
    descent_finding_mono whole-IsOrdered low lower "a" "b" {f = descent_record low "a"} refl refl
      refl
