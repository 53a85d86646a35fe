-- ===== src/Conflicts/Tests.antt =====
-- The key of a conflict at a concrete input.
use airspace_conformance_pla.Base.{◌≡◌, refl, none, sorted, put_in, join}
use airspace_conformance_pla.Base.Whole.{ℤ, pos}
use airspace_conformance_pla.Conflicts.{Conflict, key}

abbrev closing : Conflict ℤ
closing = record {
  first_track_id = "trk-b";
  second_track_id = "trk-a";
  first_callsign = none;
  second_callsign = none;
  time_to_cpa_s = pos 50;
  min_horizontal_nm = pos 1;
  min_vertical_ft = pos 100;
  current_horizontal_nm = pos 9;
  current_vertical_ft = pos 200;
  lookahead_s = pos 300;
  horizontal_standard_nm = pos 5;
  vertical_standard_ft = pos 1000;
  probability = none;
}

ordered : key closing ≡ "predicted_conflict:trk-a:trk-b"
unfolding key sorted put_in join
ordered = refl
