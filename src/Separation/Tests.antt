-- ===== src/Separation/Tests.antt =====
-- The detector at concrete inputs.
use airspace_conformance_pla.Base.{
  List, [], ◌∷◌, String, Bool, any, found, sorted_pair, ◌≡◌, refl, true, ◌&&◌, none, some, Option,
  ◌≼◌, fmax, fmin,
}
use airspace_conformance_pla.Base.Whole.{ℤ, pos, negsuc, whole, whole-IsOrdered}
use airspace_conformance_pla.Contracts.{TrackUpdate, confirmed, simulator}
use airspace_conformance_pla.Geodesy.{knots_to_nm_per_second}
use airspace_conformance_pla.Conflicts.{Conflict}
use airspace_conformance_pla.Separation.{
  Analysis, Kinematics, SeparationMonitor, Interval, overlap, quadratic_below, linear_within,
}
use airspace_conformance_pla.Separation.Pairs.{
  vertical_slack, probability, rel_v_east, rel_v_north, is_out_of_reach, closing_speed_sq, closing,
  t_cpa, window, geometry_at, t_report, min_horizontal, min_vertical, conflict, decide, test_pair,
}
use airspace_conformance_pla.Separation.Grid.{Floors, cell_of, candidate_pairs, states_of, scan}
use airspace_conformance_pla.Separation.Grid.Loops.{has_key, IsOnce, matches}
use airspace_conformance_pla.Separation.Grid.Complete.{are_adjacent, name_of, candidate_pairs_lem}
use airspace_conformance_pla.Separation.Grid.Scan.{IsSorted, scan_lem}
use airspace_conformance_pla.Separation.Windows.{is_inside, is_inside-overlap}
use airspace_conformance_pla.Separation.Reports.{test_pair-in_window}

-- Enough of `math` for tracks that fly side by side.
abbrev grid : Analysis ℤ
grid = record {
  infinity = pos 1000000;
  tiny = pos 1;
  square = λ x. whole.mul x x;
  sqrt = λ x. x;
  hypot = λ x y. whole.add (whole.abs x) (whole.abs y);
  radians = λ x. x;
  sin = λ x. x;
  cos = λ x. x;
  to_local_enu = λ a b c d. (pos 0, pos 0);
  conflict_probability = λ a b c d e f. pos 0;
}

abbrev level : Kinematics ℤ
level = record {
  track = record {
    track_id = "trk-a";
    icao24 = "a";
    callsign = none;
    updated_at = 0;
    last_report_at = 0;
    state = confirmed;
    lat = pos 0;
    lon = pos 0;
    altitude_ft = pos 10000;
    ground_speed_kt = pos 0;
    track_deg = pos 0;
    vertical_rate_fpm = pos 0;
    turn_rate_deg_s = pos 0;
    position_uncertainty_m = pos 0;
    update_count = 9;
    innovation_nm = none;
    velocity_uncertainty_kt = none;
    altitude_uncertainty_ft = none;
    vertical_rate_uncertainty_fpm = none;
    squawk = none;
    source = simulator;
    scenario_id = none;
  };
  east_nm = pos 0;
  north_nm = pos 0;
  v_east_kt = pos 0;
  v_north_kt = pos 0;
  altitude_ft = pos 10000;
  v_alt_fpm = pos 0;
}

-- It starts 900 ft lower, and climbs through the other's level at 1800 ft a minute.
abbrev climbing : Kinematics ℤ
climbing = record level { north_nm = pos 1; altitude_ft = pos 9100; v_alt_fpm = pos 1800 }

abbrev monitor : SeparationMonitor ℤ
monitor = record {
  horizontal_nm = pos 5;
  vertical_ft = pos 1000;
  lookahead_s = pos 300;
  probability_threshold = none;
}

abbrev common : Option (Interval ℤ)
common = some (pos 3, pos 63)

program : Unit {0}
unfolding test_pair is_out_of_reach vertical_slack window closing_speed_sq closing rel_v_east
    rel_v_north knots_to_nm_per_second quadratic_below linear_within overlap fmax fmin decide
    probability conflict t_cpa t_report min_horizontal min_vertical geometry_at
program = tt

-- The levels cross at 30 s, within the window, and the reported vertical separation is 810 ft.
crossing :
    (window grid monitor level climbing ≡ common)
    × (is_inside (pos 30) common ≡ true)
    × ((geometry_at grid monitor level climbing (pos 30)).1 ≡ pos 0)
    × (min_vertical grid monitor level climbing common ≡ pos 810)
unfolding program
crossing = (refl, refl, refl, refl)

abbrev reported : Conflict ℤ
reported = conflict grid monitor level climbing common none

test_pair-in_window_example :
    (w : Interval ℤ) × (window grid monitor level climbing ≡ some w)
    × (w.0 ≼ reported.time_to_cpa_s)
    × (reported.time_to_cpa_s ≼ w.1)
unfolding program
test_pair-in_window_example =
    test_pair-in_window grid monitor level climbing whole-IsOrdered reported refl refl

is_inside-overlap_example :
    is_inside (pos 30) (overlap (some (negsuc 9, pos 90)) common (pos 300)) ≡ (
      is_inside (pos 30) (some (negsuc 9, pos 90))
      && is_inside (pos 30) common
      && is_inside (pos 30) (some (pos 0, pos 300)))
is_inside-overlap_example =
    is_inside-overlap whole-IsOrdered (some (negsuc 9, pos 90)) common (pos 300) (pos 30)
      (refl, refl) (refl, refl) refl refl

-- Cells as large as the numbers: every track is in the first.
abbrev floors : Floors ℤ
floors = record { floor_div = λ x y. pos 0 }

abbrev second : Kinematics ℤ
second = record climbing { track = record level.track { track_id = "trk-b" } }

candidate_pairs_lem_example :
    let cell = cell_of grid floors monitor in
    let pairs = candidate_pairs grid floors monitor (level ∷ second ∷ []) in
    ((key : String × String)
      → has_key name_of cell key pairs
        ≡ any
            (λ a.
              any
                (λ b. are_adjacent (cell a) (cell b) && matches name_of cell key a b)
                (level ∷ second ∷ []))
            (level ∷ second ∷ []))
    × IsOnce name_of cell pairs
    × ((s t : String) → sorted_pair s t ≡ sorted_pair t s)
candidate_pairs_lem_example = candidate_pairs_lem grid floors monitor (level ∷ second ∷ [])

abbrev flown : List (TrackUpdate ℤ)
flown = level.track ∷ second.track ∷ []

scan_lem_example :
    IsSorted grid floors monitor (scan grid floors monitor 3 flown)
    × ((q : Conflict ℤ → Bool)
        → any q (scan grid floors monitor 3 flown)
          ≡ any
              (λ p. found q (test_pair grid monitor p.0 p.1))
              (candidate_pairs grid floors monitor (states_of grid floors monitor flown)))
scan_lem_example = scan_lem grid floors monitor whole-IsOrdered 3 flown refl
