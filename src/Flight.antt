-- ===== src/Flight.antt =====
-- sim/engine.py: how one aircraft flies: its commands, its targets and its motion.
use airspace_conformance_pla.Base.{
  ℕ, String, Bool, true, false, ◌&&◌, Option, some, ◌>>=◌, List, [], ◌∷◌, Float, fmax, fmin,
  string_eq, if◌then◌else◌,
}
use airspace_conformance_pla.Base.Whole.{ℤ}
use airspace_conformance_pla.Contracts.{Timestamp}
use airspace_conformance_pla.Geodesy.{
  bearing_difference_deg, fpm_to_ft_per_second, normalize_bearing,
}
use airspace_conformance_pla.Geodesy.Sphere.{Trig, project_forward, equal}
use airspace_conformance_pla.Scenario.{
  AircraftSpec, Command, Order, turn_to, climb_to, change_speed, set_squawk,
}

-- `G` is the type of `random.Random`: a seeded generator, a draw, and a draw of a Gauss distribution
-- of mean zero, by its sigma. `digest` is SHA-256 of a text's bytes, `decimal` formats an integer and
-- `padded` a sequence number (`:09d`).
pub record World (F G : Type 0) : Type 0 where
  pub generator : ℕ → G
  pub random : G → F × G
  pub gauss : F → G → F × G
  pub digest : String → List ℕ
  pub decimal : ℤ → String
  pub padded : ℕ → String
  -- start_time + timedelta(seconds=elapsed); `none` where it overflows.
  pub after : Timestamp → F → Option Timestamp
  -- `_DEGREES_PER_METRE`, 1e-9 and 0.01.
  pub degrees_per_metre : F
  pub billionth : F
  pub hundredth : F

pub record AircraftTruth (F : Type 0) : Type 0 where
  pub icao24 : String
  pub callsign : String
  pub lat : F
  pub lon : F
  pub altitude_ft : F
  pub ground_speed_kt : F
  pub track_deg : F
  pub vertical_rate_fpm : F
  pub squawk : Option String
  pub airborne : Bool
  pub target_track_deg : F
  pub turn_rate_deg_s : F
  pub target_altitude_ft : F
  pub climb_rate_fpm : F
  pub target_speed_kt : F
  pub acceleration_kt_s : F

module _ {F : Type 0} ⦃float : Float F⦄ where
  open float use {literal, negate, abs, add, sub, mul, div, le, lt}

  unfoldable pub phase : AircraftTruth F → String
  unfolding bearing_difference_deg
  phase s =
      if lt (literal 300) s.vertical_rate_fpm
      then "climb"
      else if lt s.vertical_rate_fpm (negate (literal 300))
      then "descent"
      else if lt (literal 1) (abs (bearing_difference_deg s.track_deg s.target_track_deg))
      then "turn"
      else "cruise"

  -- A command whose time has come.
  abbrev pub obey : Order F → AircraftTruth F → AircraftTruth F
  obey (turn_to heading rate) s = record s { target_track_deg = heading; turn_rate_deg_s = rate }
  obey (climb_to altitude rate) s = record s {
    target_altitude_ft = altitude;
    climb_rate_fpm = rate;
  }
  obey (change_speed speed acceleration) s = record s {
    target_speed_kt = speed;
    acceleration_kt_s = acceleration;
  }
  obey (set_squawk squawk) s = record s { squawk = some squawk }

  unfoldable pub apply_commands : F → F → List (Command F) → AircraftTruth F → AircraftTruth F
  apply_commands from_s to_s [] s = s
  apply_commands from_s to_s (c ∷ plan) s =
      apply_commands from_s to_s plan
        (if lt from_s c.at_s && le c.at_s to_s then obey c.order s else s)

module _ {F G : Type 0} ⦃float : Float F⦄ (world : World F G) where
  open float use {literal, abs, lt, le}

  unfoldable pub initial_truth : AircraftSpec F → AircraftTruth F
  initial_truth spec =
      let start = spec.initial in
      let rate = start.vertical_rate_fpm in
      record {
        icao24 = spec.icao24;
        callsign = spec.callsign;
        lat = start.lat;
        lon = start.lon;
        altitude_ft = start.altitude_ft;
        ground_speed_kt = start.ground_speed_kt;
        track_deg = start.track_deg;
        vertical_rate_fpm = rate;
        squawk = spec.squawk;
        airborne = le spec.entry_time_s (literal 0);
        target_track_deg = start.track_deg;
        turn_rate_deg_s = literal 3;
        target_altitude_ft =
            if lt (abs rate) world.billionth
            then start.altitude_ft
            else if lt (literal 0) rate
            then literal 60000
            else literal 0;
        climb_rate_fpm = if equal (abs rate) (literal 0) then literal 1800 else abs rate;
        target_speed_kt = start.ground_speed_kt;
        acceleration_kt_s = literal 1;
      }

module _ {F : Type 0} ⦃float : Float F⦄ ⦃trig : Trig F⦄ where
  open float use {literal, abs, add, sub, mul, div, le, lt}

  -- math.copysign(min(abs(gap), limit), gap): a step towards a target, bounded by a limit.
  unfoldable pub chase : F → F → F
  unfolding fmin
  chase gap limit = trig.copysign (fmin (abs gap) limit) gap

  -- `_advance_aircraft`; `none` where `math` raises.
  unfoldable pub advance_aircraft : F → Bool → AircraftTruth F → Option (AircraftTruth F)
  unfolding chase bearing_difference_deg normalize_bearing fpm_to_ft_per_second project_forward fmax
  advance_aircraft dt_s false s = some (record s { airborne = false })
  advance_aircraft dt_s true s =
      let turn =
        chase (bearing_difference_deg s.track_deg s.target_track_deg)
          (mul s.turn_rate_deg_s dt_s) in
      let speed_kt =
        add s.ground_speed_kt
          (chase (sub s.target_speed_kt s.ground_speed_kt) (mul s.acceleration_kt_s dt_s)) in
      let climb_ft =
        chase (sub s.target_altitude_ft s.altitude_ft)
          (mul (fpm_to_ft_per_second s.climb_rate_fpm) dt_s) in
      let mid_track = normalize_bearing (add s.track_deg (div turn (literal 2))) in
      let mid_speed = div (add s.ground_speed_kt speed_kt) (literal 2) in
      do
        place ← project_forward s.lat s.lon mid_track mid_speed dt_s
        some (record s {
          lat = place.0;
          lon = place.1;
          altitude_ft = fmax (literal 0) (add s.altitude_ft climb_ft);
          ground_speed_kt = speed_kt;
          track_deg = normalize_bearing (add s.track_deg turn);
          vertical_rate_fpm =
              if lt (literal 0) dt_s then mul (div climb_ft dt_s) (literal 60) else literal 0;
          airborne = true;
        })

  -- The body of the loop of `advance`.
  unfoldable pub advance_one :
      F → F → F → AircraftSpec F → AircraftTruth F → Option (AircraftTruth F)
  unfolding advance_aircraft apply_commands
  advance_one dt_s from_s to_s spec s =
      advance_aircraft dt_s (le spec.entry_time_s to_s) (apply_commands from_s to_s spec.plan s)
