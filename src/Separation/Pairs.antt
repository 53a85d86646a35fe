-- ===== src/Separation/Pairs.antt =====
-- services/conformance/separation.py: `_vertical_slack`, `_probability` and `_test_pair`, for one pair of
-- tracks. The local variables of `_test_pair` are definitions.
use airspace_conformance_pla.Base.{Option, none, some, Bool, Float, fmax, fmin, if◌then◌else◌}
use airspace_conformance_pla.Geodesy.{knots_to_nm_per_second}
use airspace_conformance_pla.Conflicts.{Conflict}
use airspace_conformance_pla.Separation.{
  Analysis, Kinematics, SeparationMonitor, Interval, uncertainty, projected_sigma, vertical_sigma,
  quadratic_below, linear_within, overlap,
}

module _ {F : Type 0} ⦃float : Float F⦄ (world : Analysis F) where
  open float use {literal, negate, abs, add, sub, mul, div, le, lt}
  open world use {tiny, square, hypot, conflict_probability}

  module _ (m : SeparationMonitor F) (first second : Kinematics F) where
    -- `_vertical_slack`
    unfoldable pub vertical_slack : F
    unfolding uncertainty vertical_sigma
    vertical_slack = elim m.probability_threshold [
      | none ↦ literal 0
      | some _ ↦ elim (uncertainty world first.track) [
        | none ↦ literal 0
        | some a ↦ elim (uncertainty world second.track) [
          | none ↦ literal 0
          | some b ↦ mul (literal 9) (vertical_sigma world a b m.lookahead_s)
        ]
      ]
    ]

    -- `_probability`
    unfoldable pub probability : F → F → F → Option F
    unfolding uncertainty projected_sigma vertical_sigma knots_to_nm_per_second
    probability min_horizontal_nm min_vertical_ft t_cpa_s = elim m.probability_threshold [
      | none ↦ none
      | some _ ↦ elim (uncertainty world first.track) [
        | none ↦ none
        | some a ↦ elim (uncertainty world second.track) [
          | none ↦ none
          | some b ↦
              let horizontal_sigma =
                projected_sigma world a.position_nm b.position_nm
                  (knots_to_nm_per_second a.velocity_kt) (knots_to_nm_per_second b.velocity_kt)
                  t_cpa_s in
              some (
                conflict_probability min_horizontal_nm min_vertical_ft horizontal_sigma
                  (vertical_sigma world a b t_cpa_s) m.horizontal_nm m.vertical_ft)
        ]
      ]
    ]

    -- The local variables of `_test_pair`.
    abbrev pub rel_east : F
    rel_east = sub second.east_nm first.east_nm

    abbrev pub rel_north : F
    rel_north = sub second.north_nm first.north_nm

    unfoldable pub rel_v_east : F
    unfolding knots_to_nm_per_second
    rel_v_east = knots_to_nm_per_second (sub second.v_east_kt first.v_east_kt)

    unfoldable pub rel_v_north : F
    unfolding knots_to_nm_per_second
    rel_v_north = knots_to_nm_per_second (sub second.v_north_kt first.v_north_kt)

    abbrev pub rel_alt : F
    rel_alt = sub second.altitude_ft first.altitude_ft

    abbrev pub rel_v_alt_ft_s : F
    rel_v_alt_ft_s = div (sub second.v_alt_fpm first.v_alt_fpm) (literal 60)

    -- The first rejection: too far apart vertically for the whole lookahead.
    unfoldable pub is_out_of_reach : Bool
    unfolding vertical_slack
    is_out_of_reach =
        let vertical_now = abs (sub second.altitude_ft first.altitude_ft) in
        let max_vertical_closure =
          mul (div (abs (sub second.v_alt_fpm first.v_alt_fpm)) (literal 60)) m.lookahead_s in
        le m.vertical_ft (sub (sub vertical_now max_vertical_closure) vertical_slack)

    unfoldable pub closing_speed_sq : F
    unfolding rel_v_east rel_v_north
    closing_speed_sq = add (square rel_v_east) (square rel_v_north)

    -- rel_east * rel_v_east + rel_north * rel_v_north
    unfoldable pub closing : F
    unfolding rel_v_east rel_v_north
    closing = add (mul rel_east rel_v_east) (mul rel_north rel_v_north)

    unfoldable pub t_cpa : F
    unfolding closing_speed_sq closing fmax fmin
    t_cpa =
        if lt closing_speed_sq tiny
        then literal 0
        else fmax (literal 0) (fmin m.lookahead_s (div (negate closing) closing_speed_sq))

    unfoldable pub window : Option (Interval F)
    unfolding closing_speed_sq closing quadratic_below linear_within overlap
    window =
        overlap
          (quadratic_below world closing_speed_sq (mul (literal 2) closing)
            (sub (add (square rel_east) (square rel_north)) (square m.horizontal_nm)))
          (linear_within world rel_alt rel_v_alt_ft_s m.vertical_ft) m.lookahead_s

    unfoldable pub geometry_at : F → F × F
    unfolding rel_v_east rel_v_north
    geometry_at t = (
      hypot (add rel_east (mul rel_v_east t)) (add rel_north (mul rel_v_north t)),
      abs (add rel_alt (mul rel_v_alt_ft_s t)),
    )

    -- `t_report`, and the separations that are reported.
    unfoldable pub t_report : Option (Interval F) → F
    unfolding t_cpa fmax fmin
    t_report none = t_cpa
    t_report (some w) = fmax w.0 (fmin w.1 t_cpa)

    unfoldable pub min_horizontal : Option (Interval F) → F
    unfolding geometry_at t_report
    min_horizontal w = (geometry_at (t_report w)).0

    unfoldable pub min_vertical : Option (Interval F) → F
    unfolding geometry_at t_report fmin
    min_vertical none = (geometry_at (t_report none)).1
    min_vertical (some w) = fmin (geometry_at w.0).1 (geometry_at w.1).1

    unfoldable pub conflict : Option (Interval F) → Option F → Conflict F
    unfolding t_report min_horizontal min_vertical
    conflict w p = record {
      first_track_id = first.track.track_id;
      second_track_id = second.track.track_id;
      first_callsign = first.track.callsign;
      second_callsign = second.track.callsign;
      time_to_cpa_s = t_report w;
      min_horizontal_nm = min_horizontal w;
      min_vertical_ft = min_vertical w;
      current_horizontal_nm = hypot rel_east rel_north;
      current_vertical_ft = abs (sub second.altitude_ft first.altitude_ft);
      lookahead_s = m.lookahead_s;
      horizontal_standard_nm = m.horizontal_nm;
      vertical_standard_ft = m.vertical_ft;
      probability = p;
    }

    -- `self._probability_threshold or 0.0`
    abbrev pub threshold : F
    threshold = elim m.probability_threshold [ none ↦ literal 0 | some p ↦ p ]

    -- The decision, from the window and the probability.
    unfoldable pub decide : Option (Interval F) → Option F → Option (Conflict F)
    unfolding conflict
    decide none none = none
    decide (some w) none = some (conflict (some w) none)
    decide w (some p) = if lt p threshold then none else some (conflict w (some p))

    unfoldable pub test_pair : Option (Conflict F)
    unfolding is_out_of_reach window decide probability min_horizontal min_vertical t_report
    test_pair =
        if is_out_of_reach
        then none
        else decide window
            (probability (min_horizontal window) (min_vertical window) (t_report window))
