-- ===== src/Samples.antt =====
-- Concrete inputs that several tests share.
use airspace_conformance_pla.Base.{
  ℕ, true, false, none, some, String, List, [], ◌∷◌, lookup, string_eq,
}
use airspace_conformance_pla.Base.Whole.{ℤ, pos, whole}
use airspace_conformance_pla.Contracts.{TrackUpdate, confirmed, terminated, simulator}
use airspace_conformance_pla.Alerts.Invariant.{IsKeyed}
use airspace_conformance_pla.Conflicts.{Conflict}
use airspace_conformance_pla.Conformance.{Predictor, Settings}
use airspace_conformance_pla.ConformanceRunner.{ConformanceRunner}
use airspace_conformance_pla.ConformanceRunner.Release.{Call, update, tick}
use airspace_conformance_pla.Contracts.{SurveillanceReport}
use airspace_conformance_pla.Kalman.{Algebra}
use airspace_conformance_pla.Tracks.{initiate}
use airspace_conformance_pla.TrackRunner.{TrackRunner, TopicPartition}

abbrev pub flat : Predictor ℤ
flat = record {
  predict = λ window. record {
    lat = pos 0;
    lon = pos 0;
    altitude_ft = pos 0;
    used_model = true;
    predictor_version = "v1";
  };
  dead_reckon = λ u h. (pos 0, pos 0);
  haversine_nm = λ a b c d. whole.abs (whole.sub a c);
}

abbrev pub settings : Settings ℤ
settings = record {
  horizon_s = pos 60;
  horizon = 60000000;
  threshold_factor = pos 3;
  minimum_threshold_nm = pos 2;
  model_nm = some (pos 1);
  physics_nm = none;
}

-- An aircraft that squawks 7700.
abbrev pub mayday : TrackUpdate ℤ
mayday = record {
  track_id = "trk-a";
  icao24 = "a";
  callsign = none;
  updated_at = 100;
  last_report_at = 100;
  state = confirmed;
  lat = pos 10;
  lon = pos 0;
  altitude_ft = pos 9000;
  ground_speed_kt = pos 300;
  track_deg = pos 0;
  vertical_rate_fpm = pos 0;
  turn_rate_deg_s = pos 0;
  position_uncertainty_m = pos 0;
  update_count = 9;
  innovation_nm = none;
  velocity_uncertainty_kt = none;
  altitude_uncertainty_ft = none;
  vertical_rate_uncertainty_fpm = none;
  squawk = some "7700";
  source = simulator;
  scenario_id = none;
}

abbrev pub quiet : ConformanceRunner ℤ
quiet = record {
  picture = [];
  gone = [];
  pending_conformance = [];
  updates = 0;
  scans = 0;
  alerts = 0;
  latest_seen = none;
  conformance = none;
  stale_after = 50;
  manager = record { active = []; clear_after_scans = 3; sustain_interval = 10; drawn = 0 };
}

abbrev pub no_conflicts : List (TrackUpdate ℤ) → List (Conflict ℤ)
no_conflicts tracks = []

abbrev pub name : ℕ → String
name n = "id"

pub quiet-IsKeyed : IsKeyed quiet.manager.active
unfolding lookup
quiet-IsKeyed = (tt, λ k. tt)

abbrev pub events : List (Call ℤ)
events =
    update 100 mayday
    ∷ tick 110
    ∷ update 120 (record mayday { state = terminated; updated_at = 120 })
    ∷ tick 130
    ∷ []

-- A filter with no state.
instance abbrev pub still : Algebra ℤ Unit
still = record {
  start = λ s. tt;
  propagate = λ f dt. tt;
  correct = λ f z. tt;
  estimate = λ f. record {
    lat = pos 40;
    lon = pos 50;
    altitude_ft = pos 9000;
    ground_speed_kt = pos 300;
    track_deg = pos 90;
    vertical_rate_fpm = pos 0;
    position_uncertainty_m = pos 1;
    velocity_uncertainty_kt = pos 1;
    altitude_uncertainty_ft = pos 1;
    vertical_rate_uncertainty_fpm = pos 1;
    innovation_nm = pos 0;
  };
}

abbrev pub heard : SurveillanceReport ℤ
heard = record {
  report_id = "r1";
  icao24 = "abc123";
  callsign = none;
  observed_at = 10;
  lat = pos 40;
  lon = pos 50;
  altitude_baro_ft = none;
  ground_speed_kt = none;
  track_deg = none;
  vertical_rate_fpm = none;
  squawk = none;
  on_ground = false;
  source = simulator;
  scenario_id = none;
}

abbrev pub idle : TrackRunner ℤ Unit
idle = record {
  estimator = record {
    tracks = [];
    coast_after = 20;
    terminate_after = 100;
    confirmation_updates = 3;
  };
  batch_size = 2;
  flush_interval = 1000;
  pending = [];
  reports = 0;
  published = 0;
  terminated_count = 0;
  released = 0;
  last_flush = 0;
  partition_of = [];
  revoked = [];
  discarded = 0;
}

-- Two aircraft on two partitions.
abbrev pub busy : TrackRunner ℤ Unit
busy = record idle {
  estimator = record {
    tracks = ("abc123", initiate heard) ∷ [];
    coast_after = 20;
    terminate_after = 100;
    confirmation_updates = 3;
  };
  partition_of = ("abc123", 4) ∷ ("fff000", 7) ∷ [];
}

abbrev pub fourth : List TopicPartition
fourth = record { topic = "surveillance.reports.v1"; partition = 4 } ∷ []
