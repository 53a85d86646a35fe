-- ===== src/Estimator/Tests.antt =====
-- Runs of the estimator, and its theorems at concrete inputs. A filter is the clock that it has been
-- run forward by, in microseconds.
use airspace_conformance_pla.Base.{
  false, ◌+◌, ◌≡◌, refl, none, some, [], ◌∷◌, foldl, lookup, insert, string_eq, arith,
}
use airspace_conformance_pla.Base.Whole.{ℤ, pos, whole, pos_part}
use airspace_conformance_pla.Contracts.{simulator, SurveillanceReport}
use airspace_conformance_pla.Kalman.{Algebra, predict, update}
use airspace_conformance_pla.Tracks.{TrackRecord, initiate, measurement, to_update, update_record}
use airspace_conformance_pla.Estimator.{TrackEstimator, on_report, sweep, sweep_one, state_differs}
use airspace_conformance_pla.Estimator.Redelivery.{on_report_twice}
use airspace_conformance_pla.Estimator.Invariant.{
  IsConsistent, report, tick, give_up, prune, perform, perform_all-IsConsistent,
}
use airspace_conformance_pla.Estimator.Sweeping.{IsAged, announcements, sweep-IsAged, sweep-updates}
use airspace_conformance_pla.Estimator.Coasting.{standing_filter, coasting_silence}

instance abbrev clock : Algebra ℤ ℤ
clock = record {
  start = λ s. pos 0;
  propagate = λ f dt. pos (pos_part f + pos_part dt);
  correct = λ f z. f;
  estimate = λ f. record {
    lat = f;
    lon = pos 0;
    altitude_ft = pos 9000;
    ground_speed_kt = pos 300;
    track_deg = pos 90;
    vertical_rate_fpm = pos 0;
    position_uncertainty_m = pos 1;
    velocity_uncertainty_kt = pos 1;
    altitude_uncertainty_ft = pos 1;
    vertical_rate_uncertainty_fpm = pos 1;
    innovation_nm = pos 0;
  };
}

abbrev first : SurveillanceReport ℤ
first = record {
  report_id = "r1";
  icao24 = "abc123";
  callsign = none;
  observed_at = 10;
  lat = pos 40;
  lon = pos 50;
  altitude_baro_ft = some (pos 9000);
  ground_speed_kt = none;
  track_deg = none;
  vertical_rate_fpm = none;
  squawk = none;
  on_ground = false;
  source = simulator;
  scenario_id = none;
}

abbrev later : SurveillanceReport ℤ
later = record first { report_id = "r2"; observed_at = 50 }

abbrev empty : TrackEstimator ℤ ℤ
empty = record { tracks = []; coast_after = 20; terminate_after = 100; confirmation_updates = 3 }

abbrev flying : TrackRecord ℤ ℤ
flying = initiate first

abbrev one_track : TrackEstimator ℤ ℤ
one_track = record empty { tracks = ("abc123", flying) ∷ [] }

-- Silent from 10 to 40, heard of at 50: the clock of the filter shows 30 + 40.
twice_counted : standing_filter "abc123" (on_report later (sweep 40 one_track).0).0 ≡ some (pos 70)
unfolding on_report sweep lookup initiate insert to_update update_record
twice_counted = refl

on_report_twice_example : on_report later (on_report later one_track).0 ≡ on_report later one_track
on_report_twice_example = on_report_twice later one_track

empty-IsConsistent : IsConsistent empty
unfolding lookup
empty-IsConsistent = (tt, λ k. tt)

perform_all-IsConsistent_example : IsConsistent (
    foldl
      (λ s c. perform c s)
      empty
      (report first ∷ tick 40 ∷ prune 200 50 ∷ give_up ("abc123" ∷ []) ∷ []))
perform_all-IsConsistent_example =
    perform_all-IsConsistent (report first ∷ tick 40 ∷ prune 200 50 ∷ give_up ("abc123" ∷ []) ∷ [])
      empty empty-IsConsistent

abbrev after_sweep : TrackRecord ℤ ℤ
after_sweep = (sweep_one 20 100 40 flying).0

sweep-IsAged_example : IsAged 20 100 40 after_sweep
unfolding sweep lookup
sweep-IsAged_example = sweep-IsAged 40 one_track "abc123" after_sweep refl

sweep-updates_example :
    (sweep 40 one_track).1 ≡ announcements 40 one_track.tracks (sweep 40 one_track).0.tracks
sweep-updates_example = sweep-updates 40 one_track

coasting_silence_example :
    (standing_filter "abc123" (on_report later one_track).0
      ≡ some (update flying.filter (pos 40) (measurement later)))
    × (standing_filter "abc123" (on_report later (sweep 40 one_track).0).0
        ≡ some (update (predict flying.filter (pos 30)) (pos 40) (measurement later)))
unfolding lookup initiate state_differs
coasting_silence_example =
    coasting_silence 40 later one_track flying refl refl refl (omega arith) (omega arith)
      (omega arith) (omega arith)
