-- ===== src/Simulation/Samples.antt =====
-- Concrete worlds and scenarios of the tests.
use airspace_conformance_pla.Base.{ℕ, ◌+◌, ◌%◌, if◌then◌else◌, none, some, List, [], ◌∷◌}
use airspace_conformance_pla.Base.Whole.{ℤ, pos, whole}
use airspace_conformance_pla.Geodesy.Sphere.{Trig}
use airspace_conformance_pla.Scenario.{Scenario, AircraftSpec, turn_to, climb_to, chars}
use airspace_conformance_pla.Flight.{World}
use airspace_conformance_pla.Simulation.{Call, advancing, observing}

-- A flat earth.
instance abbrev pub flat_earth : Trig ℤ
flat_earth = record {
  radians = λ x. x;
  degrees = λ x. x;
  sin = λ x. some x;
  cos = λ x. some (pos 1);
  asin = λ x. some x;
  atan2 = λ y x. y;
  sqrt = λ x. some x;
  square = λ x. whole.mul x x;
  copysign = λ x y. if whole.lt y (pos 0) then whole.negate x else x;
  earth_radius_nm = pos 3440;
  tiny = pos 0;
}

-- A generator that counts its draws.
abbrev pub counting : World ℤ ℕ
counting = record {
  generator = λ seed. seed;
  random = λ g. (pos (g % 2), g + 1);
  gauss = λ sigma g. (pos (g % 3), g + 1);
  digest = λ text. chars text ∷ [];
  decimal = λ seed. "7";
  padded = λ n. "n";
  after = λ start elapsed. some start;
  degrees_per_metre = pos 1;
  billionth = pos 1;
  hundredth = pos 1;
}

abbrev pub northbound : AircraftSpec ℤ
northbound = record {
  icao24 = "abc123";
  callsign = "NB1";
  initial = record {
    lat = pos 40;
    lon = pos 50;
    altitude_ft = pos 9000;
    ground_speed_kt = pos 300;
    track_deg = pos 0;
    vertical_rate_fpm = pos 0;
  };
  squawk = none;
  entry_time_s = pos 0;
  plan =
      record { at_s = pos 5; order = turn_to (pos 90) (pos 3) }
      ∷ record { at_s = pos 12; order = climb_to (pos 12000) (pos 1800) }
      ∷ [];
}

abbrev pub arrival : AircraftSpec ℤ
arrival = record northbound {
  icao24 = "def456";
  callsign = "AR2";
  entry_time_s = pos 10;
  plan = [];
}

abbrev pub two_aircraft : Scenario ℤ
two_aircraft = record {
  scenario_id = "two-aircraft";
  seed = pos 7;
  duration_s = pos 30;
  reference = record { lat = pos 40; lon = pos 50 };
  sensor = record {
    report_interval_s = pos 10;
    position_sigma_m = pos 1;
    altitude_sigma_ft = pos 1;
    speed_sigma_kt = pos 1;
    track_sigma_deg = pos 1;
    dropout_probability = pos 1;
  };
  aircraft = northbound ∷ arrival ∷ [];
}

abbrev pub rounds : List (Call ℤ)
rounds = advancing (pos 10) ∷ observing ∷ advancing (pos 10) ∷ observing ∷ []
