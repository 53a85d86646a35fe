-- ===== src/Conformance/Tests.antt =====
-- The theorems about the monitor at concrete inputs. An error is the distance between two latitudes.
use airspace_conformance_pla.Base.{
  ◌≡◌, refl, true, none, some, List, [], ◌∷◌, lookup, string_eq, arith,
}
use airspace_conformance_pla.Base.Whole.{ℤ, pos, whole, whole-IsOrdered}
use airspace_conformance_pla.Contracts.{TrackUpdate, confirmed, simulator}
use airspace_conformance_pla.Conformance.{
  PendingPrediction, Predictor, Settings, ConformanceMonitor, check_queue, deviation,
}
use airspace_conformance_pla.Conformance.Matching.{IsWorst, candidates, check_queue-IsWorst}
use airspace_conformance_pla.Conformance.Bounds.{IsBounded}

abbrev flat : Predictor ℤ
flat = record {
  predict = λ window. record {
    lat = pos 0;
    lon = pos 0;
    altitude_ft = pos 0;
    used_model = true;
    predictor_version = "v1";
  };
  dead_reckon = λ u h. (pos 0, pos 0);
  haversine_nm = λ a b c d. whole.abs (whole.sub a c);
}

abbrev settings : Settings ℤ
settings = record {
  horizon_s = pos 60;
  horizon = 60000000;
  threshold_factor = pos 3;
  minimum_threshold_nm = pos 2;
  model_nm = some (pos 1);
  physics_nm = none;
}

abbrev here : TrackUpdate ℤ
here = record {
  track_id = "trk-abc123";
  icao24 = "abc123";
  callsign = none;
  updated_at = 70000000;
  last_report_at = 70000000;
  state = confirmed;
  lat = pos 10;
  lon = pos 0;
  altitude_ft = pos 9000;
  ground_speed_kt = pos 300;
  track_deg = pos 0;
  vertical_rate_fpm = pos 0;
  turn_rate_deg_s = pos 0;
  position_uncertainty_m = pos 0;
  update_count = 9;
  innovation_nm = none;
  velocity_uncertainty_kt = none;
  altitude_uncertainty_ft = none;
  vertical_rate_uncertainty_fpm = none;
  squawk = none;
  source = simulator;
  scenario_id = none;
}

abbrev ahead : PendingPrediction ℤ
ahead = record {
  valid_at = 70000000;
  predicted_at = 10000000;
  lat = pos 0;
  lon = pos 0;
  altitude_ft = pos 0;
  baseline_lat = pos 0;
  baseline_lon = pos 0;
  used_model = true;
  predictor_version = "v1";
}

-- One whose window has passed, two that are due, and one that is not.
abbrev queue : List (PendingPrediction ℤ)
queue =
    record ahead { valid_at = 60000000 }
    ∷ ahead
    ∷ record ahead { valid_at = 71000000; lat = pos 4 }
    ∷ record ahead { valid_at = 80000000 }
    ∷ []

found : (check_queue flat settings here queue none).1 ≡ some (deviation flat settings here ahead)
unfolding check_queue
found = refl

check_queue-IsWorst_example :
    ((check_queue flat settings here queue none).0 ≡ record ahead { valid_at = 80000000 } ∷ [])
    × IsWorst (check_queue flat settings here queue none).1 (candidates flat settings here queue)
check_queue-IsWorst_example = check_queue-IsWorst flat settings whole-IsOrdered here queue

abbrev fresh : ConformanceMonitor ℤ
fresh = record { windows = []; pending = [] }

fresh-IsBounded : IsBounded fresh
unfolding lookup
fresh-IsBounded k = (omega arith, omega arith)
