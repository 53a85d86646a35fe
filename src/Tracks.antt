-- ===== src/Tracks.antt =====
-- services/track/estimator.py: one track, `TrackRecord`, and what the estimator does with it. `S` is
-- the state of one Kalman filter.
use Prim.Native.String.{◌++◌ as str_append}
use airspace_conformance_pla.Base.{
  ℕ, ◌+◌, ◌-◌, String, Bool, false, ◌&&◌, Option, none, some, leb, ltb, Float, fmax, or_optional,
  if◌then◌else◌,
}
use airspace_conformance_pla.Contracts.{
  Timestamp, SurveillanceReport, TrackState, initiating, confirmed, TrackUpdate, simulator,
}
use airspace_conformance_pla.Geodesy.{bearing_difference_deg}
use airspace_conformance_pla.Kalman.{Algebra, Measurement, predict, update, reference_for}

pub record TrackRecord (F S : Type 0) : Type 0 where
  pub track_id : String
  pub icao24 : String
  pub callsign : Option String
  pub first_seen_at : Timestamp
  pub last_report_at : Timestamp
  pub filter : S
  pub lat : F
  pub lon : F
  pub altitude_ft : F
  pub ground_speed_kt : F
  pub track_deg : F
  pub vertical_rate_fpm : F
  pub turn_rate_deg_s : F
  pub position_uncertainty_m : F
  pub velocity_uncertainty_kt : F
  pub altitude_uncertainty_ft : F
  pub vertical_rate_uncertainty_fpm : F
  pub innovation_nm : F
  pub squawk : Option String
  pub scenario_id : Option String
  pub update_count : ℕ
  pub state : TrackState
  pub is_terminated : Bool

unfoldable pub track_id_for : String → String
track_id_for icao24 = str_append "trk-" icao24

module _ {F : Type 0} where
  abbrev pub measurement : SurveillanceReport F → Measurement F
  measurement report = record {
    lat = report.lat;
    lon = report.lon;
    altitude_ft = report.altitude_baro_ft;
    ground_speed_kt = report.ground_speed_kt;
    track_deg = report.track_deg;
    vertical_rate_fpm = report.vertical_rate_fpm;
  }

module _ {F : Type 0} ⦃float : Float F⦄ where
  open float use {literal, le}

  -- `x or 0.0`
  unfoldable pub or_zero : Option F → F
  or_zero none = literal 0
  or_zero (some x) = if le x (literal 0) && le (literal 0) x then literal 0 else x

module _ {F S : Type 0} ⦃float : Float F⦄ ⦃algebra : Algebra F S⦄ where
  open float use {literal, div, mod_of, seconds}
  open algebra use {start, estimate}

  unfoldable pub initiate : SurveillanceReport F → TrackRecord F S
  unfolding or_zero track_id_for reference_for
  initiate report =
      let (ref_lat, ref_lon) = reference_for report.lat report.lon in
      let f = start (record {
        ref_lat = ref_lat;
        ref_lon = ref_lon;
        lat = report.lat;
        lon = report.lon;
        altitude_ft = or_zero report.altitude_baro_ft;
        ground_speed_kt = or_zero report.ground_speed_kt;
        track_deg = or_zero report.track_deg;
        vertical_rate_fpm = or_zero report.vertical_rate_fpm;
      }) in
      let e = estimate f in
      record {
        track_id = track_id_for report.icao24;
        icao24 = report.icao24;
        callsign = report.callsign;
        first_seen_at = report.observed_at;
        last_report_at = report.observed_at;
        filter = f;
        lat = e.lat;
        lon = e.lon;
        altitude_ft = e.altitude_ft;
        ground_speed_kt = e.ground_speed_kt;
        track_deg = e.track_deg;
        vertical_rate_fpm = e.vertical_rate_fpm;
        turn_rate_deg_s = literal 0;
        position_uncertainty_m = e.position_uncertainty_m;
        velocity_uncertainty_kt = e.velocity_uncertainty_kt;
        altitude_uncertainty_ft = e.altitude_uncertainty_ft;
        vertical_rate_uncertainty_fpm = e.vertical_rate_uncertainty_fpm;
        innovation_nm = literal 0;
        squawk = report.squawk;
        scenario_id = report.scenario_id;
        update_count = 1;
        state = initiating;
        is_terminated = false;
      }

  -- `_update` past its guard, `dt_s` seconds after the last report.
  unfoldable pub fold_in : ℕ → TrackRecord F S → SurveillanceReport F → F → TrackRecord F S
  unfolding update bearing_difference_deg or_optional
  fold_in confirmation_updates r report dt_s =
      let f = update r.filter dt_s (measurement report) in
      let e = estimate f in
      record r {
        filter = f;
        turn_rate_deg_s = div (bearing_difference_deg r.track_deg e.track_deg) dt_s;
        lat = e.lat;
        lon = e.lon;
        altitude_ft = e.altitude_ft;
        ground_speed_kt = e.ground_speed_kt;
        track_deg = e.track_deg;
        vertical_rate_fpm = e.vertical_rate_fpm;
        position_uncertainty_m = e.position_uncertainty_m;
        velocity_uncertainty_kt = e.velocity_uncertainty_kt;
        altitude_uncertainty_ft = e.altitude_uncertainty_ft;
        vertical_rate_uncertainty_fpm = e.vertical_rate_uncertainty_fpm;
        innovation_nm = e.innovation_nm;
        squawk = or_optional report.squawk r.squawk;
        callsign = or_optional report.callsign r.callsign;
        last_report_at = report.observed_at;
        update_count = r.update_count + 1;
        state = if leb confirmation_updates (r.update_count + 1) then confirmed else initiating;
      }

  -- `_update`: a report that is not newer than the last one is dropped.
  unfoldable pub update_record : ℕ → TrackRecord F S → SurveillanceReport F → TrackRecord F S
  unfolding fold_in
  update_record confirmation_updates r report =
      if leb report.observed_at r.last_report_at
      then r
      else fold_in confirmation_updates r report (seconds (report.observed_at - r.last_report_at))

  -- `_to_update`: the track after it, and the message. A silent track is run forward by prediction.
  unfoldable pub coast : TrackRecord F S → Timestamp → TrackRecord F S
  unfolding predict
  coast r at =
      if ltb r.last_report_at at
      then (let f = predict r.filter (seconds (at - r.last_report_at)) in
          let e = estimate f in
          record r {
            filter = f;
            lat = e.lat;
            lon = e.lon;
            altitude_ft = e.altitude_ft;
            position_uncertainty_m = e.position_uncertainty_m;
            velocity_uncertainty_kt = e.velocity_uncertainty_kt;
            altitude_uncertainty_ft = e.altitude_uncertainty_ft;
            vertical_rate_uncertainty_fpm = e.vertical_rate_uncertainty_fpm;
          })
      else r

  abbrev pub message : TrackRecord F S → Timestamp → TrackUpdate F
  message r at = record {
    track_id = r.track_id;
    icao24 = r.icao24;
    callsign = r.callsign;
    updated_at = at;
    last_report_at = r.last_report_at;
    state = r.state;
    lat = r.lat;
    lon = r.lon;
    altitude_ft = r.altitude_ft;
    ground_speed_kt = fmax (literal 0) r.ground_speed_kt;
    track_deg = mod_of r.track_deg (literal 360);
    vertical_rate_fpm = r.vertical_rate_fpm;
    turn_rate_deg_s = r.turn_rate_deg_s;
    position_uncertainty_m = r.position_uncertainty_m;
    update_count = r.update_count;
    innovation_nm = some r.innovation_nm;
    velocity_uncertainty_kt = some r.velocity_uncertainty_kt;
    altitude_uncertainty_ft = some r.altitude_uncertainty_ft;
    vertical_rate_uncertainty_fpm = some r.vertical_rate_uncertainty_fpm;
    squawk = r.squawk;
    source = simulator;
    scenario_id = r.scenario_id;
  }

  unfoldable pub to_update : TrackRecord F S → Timestamp → TrackRecord F S × TrackUpdate F
  unfolding coast
  to_update r at = let r' = coast r at in (r', message r' at)
