-- ===== src/Sensor.antt =====
-- sim/engine.py: what the sensor makes of one aircraft.
use airspace_conformance_pla.Base.{
  ℕ, String, Bool, true, false, ◌&&◌, Option, none, some, ◌>>=◌, List, [], ◌∷◌, Float, fmax, fmin,
  string_eq, join, if◌then◌else◌,
}
use airspace_conformance_pla.Contracts.{simulator, Timestamp, SurveillanceReport}
use airspace_conformance_pla.Geodesy.{normalize_bearing}
use airspace_conformance_pla.Geodesy.Sphere.{Trig, wrap_longitude}
use airspace_conformance_pla.Scenario.{
  SensorModel, has_shape, is_lower_hex, is_latitude, is_longitude, is_bearing, is_code,
}
use airspace_conformance_pla.Flight.{World, AircraftTruth}

module _ {F : Type 0} ⦃float : Float F⦄ where
  -- `_clamp`
  unfoldable pub clamp : F → F → F → F
  unfolding fmax fmin
  clamp value low high = fmax low (fmin high value)

module _ {F : Type 0} ⦃float : Float F⦄ where
  abbrev pub none_or : (F → Bool) → Option F → Bool
  none_or p none = true
  none_or p (some x) = p x

  -- What pydantic asks of a `SurveillanceReport`.
  unfoldable pub report_is_valid : SurveillanceReport F → Bool
  report_is_valid r =
      has_shape is_lower_hex 6 r.icao24
      && is_latitude r.lat
      && is_longitude r.lon
      && none_or (float.le (float.literal 0)) r.ground_speed_kt
      && none_or is_bearing r.track_deg
      && is_code r.squawk

module _ {F G : Type 0} ⦃float : Float F⦄ ⦃trig : Trig F⦄ (world : World F G) where
  open float use {literal, negate, abs, add, mul, div, lt}

  -- What pydantic makes of the fields of a report.
  unfoldable pub checked_report : SurveillanceReport F → G → Option (SurveillanceReport F × G)
  unfolding report_is_valid
  checked_report report g = if report_is_valid report then some (report, g) else none

  -- `_observe_one`, by the number of the report: the report, and the generator after its draws.
  -- `none` where `math.cos` raises, the time overflows or the report is not valid.
  unfoldable pub observe_one :
      String
      → SensorModel F
      → Option Timestamp
      → ℕ
      → AircraftTruth F
      → G
      → Option (SurveillanceReport F × G)
  unfolding join clamp wrap_longitude normalize_bearing fmax checked_report
  observe_one scenario_id sensor now number s g0 =
      let (north_m, g1) = world.gauss sensor.position_sigma_m g0 in
      let north_deg = mul north_m world.degrees_per_metre in
      let (east_m, g2) = world.gauss sensor.position_sigma_m g1 in
      let (altitude_noise, g3) = world.gauss sensor.altitude_sigma_ft g2 in
      let (speed_noise, g4) = world.gauss sensor.speed_sigma_kt g3 in
      let (track_noise, g5) = world.gauss sensor.track_sigma_deg g4 in
      do
        cosine ← trig.cos (trig.radians s.lat)
        let cos_lat = fmax world.hundredth (abs cosine)
        let east_deg = div (mul east_m world.degrees_per_metre) cos_lat
        observed_at ← now
        let report : SurveillanceReport F = record {
          report_id = join (scenario_id ∷ "-" ∷ world.padded number ∷ []);
          icao24 = s.icao24;
          callsign = some s.callsign;
          observed_at = observed_at;
          lat = clamp (add s.lat north_deg) (negate (literal 90)) (literal 90);
          lon = wrap_longitude (add s.lon east_deg);
          altitude_baro_ft = some (add s.altitude_ft altitude_noise);
          ground_speed_kt = some (fmax (literal 0) (add s.ground_speed_kt speed_noise));
          track_deg = some (normalize_bearing (add s.track_deg track_noise));
          vertical_rate_fpm = some s.vertical_rate_fpm;
          squawk = s.squawk;
          on_ground = false;
          source = simulator;
          scenario_id = some scenario_id;
        }
        checked_report report g5

  -- The draws for one aircraft in the air: its report, unless it is lost.
  unfoldable pub sense :
      String
      → SensorModel F
      → Option Timestamp
      → ℕ
      → AircraftTruth F
      → G
      → Option (List (SurveillanceReport F) × G)
  unfolding observe_one
  sense scenario_id sensor now number s g0 =
      let (chance, g) = world.random g0 in
      let heard = do
        (report, g') ← observe_one scenario_id sensor now number s g
        some (report ∷ [], g')
      in if lt chance sensor.dropout_probability then some ([], g) else heard
