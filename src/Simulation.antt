-- ===== src/Simulation.antt =====
-- sim/engine.py: `Simulation`, over the interface `World` of Flight.
pub mod Names
pub mod Ready
pub mod Sharing
pub mod Apart
pub mod Identities
pub mod Commands
pub mod Samples
mod Tests
use airspace_conformance_pla.Base.{
  ℕ, zero, suc, ◌+◌, ◌*◌, String, Bool, true, false, not, ◌&&◌, Option, none, some, List, [], ◌∷◌,
  ◌++◌, map, select, length, ◌>>=◌, Float, fmax, fmin, string_eq, Dict, lookup, insert, from_pairs,
  join, if◌then◌else◌,
}
use airspace_conformance_pla.Base.Whole.{ℤ}
use airspace_conformance_pla.Contracts.{Timestamp, SurveillanceReport}
use airspace_conformance_pla.Geodesy.{
  bearing_difference_deg, fpm_to_ft_per_second, normalize_bearing,
}
use airspace_conformance_pla.Geodesy.Sphere.{Trig, project_forward, wrap_longitude, equal}
use airspace_conformance_pla.Scenario.{
  Scenario, SensorModel, AircraftSpec, has_shape, is_lower_hex, is_latitude, is_longitude,
  is_bearing, Command, Order, turn_to, climb_to, change_speed, set_squawk,
}
use airspace_conformance_pla.Flight.{World, AircraftTruth, phase, initial_truth, advance_one}
use airspace_conformance_pla.Sensor.{sense}

-- contracts.py: `TruthState`, without the constants of the version.
pub record TruthState (F : Type 0) : Type 0 where
  pub icao24 : String
  pub scenario_id : String
  pub valid_at : Timestamp
  pub lat : F
  pub lon : F
  pub altitude_ft : F
  pub ground_speed_kt : F
  pub track_deg : F
  pub vertical_rate_fpm : F
  pub phase : String

pub record Simulation (F G : Type 0) : Type 0 where
  pub scenario : Scenario F
  pub start_time : Timestamp
  pub elapsed_s : F
  pub report_sequence : ℕ
  pub specs : Dict String (AircraftSpec F)
  pub noise : Dict String G
  pub state : Dict String (AircraftTruth F)

-- int.from_bytes(bytes[:k], "big"), from what has been read.
unfoldable pub from_bytes : ℕ → List ℕ → ℕ → ℕ
from_bytes zero bytes n = n
from_bytes (suc k) [] n = n
from_bytes (suc k) (b ∷ bytes) n = from_bytes k bytes (n * 256 + b)

module _ {F G : Type 0} ⦃float : Float F⦄ (world : World F G) where
  open float use {literal, abs, add, le, lt}

  unfoldable pub seed_for : ℤ → String → ℕ
  unfolding join from_bytes
  seed_for seed icao24 =
      from_bytes 8 (world.digest (join (world.decimal seed ∷ ":" ∷ icao24 ∷ []))) 0

  -- `__init__`
  unfoldable pub start : Scenario F → Timestamp → Simulation F G
  unfolding initial_truth seed_for from_pairs
  start scenario start_time = record {
    scenario = scenario;
    start_time = start_time;
    elapsed_s = literal 0;
    report_sequence = 0;
    specs = from_pairs (map (λ a. (a.icao24, a)) scenario.aircraft);
    noise = from_pairs (
        map (λ a. (a.icao24, world.generator (seed_for scenario.seed a.icao24))) scenario.aircraft);
    state = from_pairs (map (λ a. (a.icao24, initial_truth world a)) scenario.aircraft);
  }

  -- `none` where it raises `OverflowError`.
  unfoldable pub now : Simulation F G → Option Timestamp
  now sim = world.after sim.start_time sim.elapsed_s

module _ {F G : Type 0} ⦃float : Float F⦄ where
  unfoldable pub finished : Simulation F G → Bool
  finished sim = float.le sim.scenario.duration_s sim.elapsed_s

module _ {F : Type 0} ⦃float : Float F⦄ ⦃trig : Trig F⦄ where
  open float use {literal, abs, add, sub, mul, div, le, lt}

  -- `none` where a key of the states has no specification, which raises `KeyError`, or the motion of
  -- an aircraft raises.
  unfoldable pub advance_all :
      F
      → F
      → F
      → Dict String (AircraftSpec F)
      → Dict String (AircraftTruth F)
      → Option (Dict String (AircraftTruth F))
  unfolding lookup advance_one
  advance_all dt_s from_s to_s specs [] = some []
  advance_all dt_s from_s to_s specs ((icao24, s) ∷ states) = do
    spec ← lookup icao24 specs
    next ← advance_one dt_s from_s to_s spec s
    rest ← advance_all dt_s from_s to_s specs states
    some ((icao24, next) ∷ rest)

  unfoldable pub advance : {G : Type 0} → F → Simulation F G → Option (Simulation F G)
  unfolding advance_all
  advance dt_s sim =
      let to_s = add sim.elapsed_s dt_s in
      let moved = do
        state ← advance_all dt_s sim.elapsed_s to_s sim.specs sim.state
        some (record sim { elapsed_s = to_s; state = state })
      in if le dt_s (literal 0) then none else moved

module _ {F G : Type 0} ⦃float : Float F⦄ (world : World F G) where
  open float use {literal, add, sub, mul, div, lt}

  abbrev truth_of : Scenario F → Timestamp → AircraftTruth F → TruthState F
  unfolding normalize_bearing phase
  truth_of scenario valid_at s = record {
    icao24 = s.icao24;
    scenario_id = scenario.scenario_id;
    valid_at = valid_at;
    lat = s.lat;
    lon = s.lon;
    altitude_ft = s.altitude_ft;
    ground_speed_kt = s.ground_speed_kt;
    track_deg = normalize_bearing s.track_deg;
    vertical_rate_fpm = s.vertical_rate_fpm;
    phase = phase s;
  }

  -- What pydantic asks of a `TruthState`.
  unfoldable pub truth_is_valid : TruthState F → Bool
  truth_is_valid t =
      has_shape is_lower_hex 6 t.icao24
      && is_latitude t.lat
      && is_longitude t.lon
      && float.le (literal 0) t.ground_speed_kt
      && is_bearing t.track_deg

  unfoldable pub checked_truth :
      Scenario F → Option Timestamp → AircraftTruth F → Option (TruthState F)
  unfolding truth_of truth_is_valid
  checked_truth scenario at s = do
    valid_at ← at
    let state = truth_of scenario valid_at s
    if truth_is_valid state then some state else none

  -- The truth of all that are in the air; `none` where it raises.
  unfoldable pub truths :
      Scenario F → Option Timestamp → Dict String (AircraftTruth F) → Option (List (TruthState F))
  unfolding checked_truth
  truths scenario at [] = some []
  truths scenario at ((icao24, s) ∷ states) =
      let rest = truths scenario at states in
      let more = do first ← checked_truth scenario at s; later ← rest; some (first ∷ later)
      in if s.airborne then more else rest

  unfoldable pub truth : Simulation F G → Option (List (TruthState F))
  unfolding truths now
  truth sim = truths sim.scenario (now world sim) sim.state

module _ {F G : Type 0} ⦃float : Float F⦄ ⦃trig : Trig F⦄ (world : World F G) where
  open float use {literal, negate, abs, add, mul, div, lt}

  -- One aircraft of the loop of `observe`, at `self.now`, with the generators and `_report_sequence`. `none` where
  -- it has no generator, which raises `KeyError`, or its report cannot be made.
  unfoldable pub observe_state :
      String
      → SensorModel F
      → Option Timestamp
      → AircraftTruth F
      → Dict String G
      → ℕ
      → Option (Dict String G × ℕ × List (SurveillanceReport F))
  unfolding sense lookup insert
  observe_state scenario_id sensor observed_at s noise sequence =
      let sensed = do
        g ← lookup s.icao24 noise
        seen ← sense world scenario_id sensor observed_at (sequence + 1) s g
        some (insert s.icao24 seen.1 noise, sequence + length seen.0, seen.0)
      in if s.airborne then sensed else some (noise, sequence, [])

  unfoldable pub observe_all :
      String
      → SensorModel F
      → Option Timestamp
      → Dict String (AircraftTruth F)
      → Dict String G
      → ℕ
      → Option (Dict String G × ℕ × List (SurveillanceReport F))
  unfolding observe_state
  observe_all scenario_id sensor observed_at [] noise sequence = some (noise, sequence, [])
  observe_all scenario_id sensor observed_at ((icao24, s) ∷ states) noise sequence = do
    (noise', sequence', first) ← observe_state scenario_id sensor observed_at s noise sequence
    (noise'', sequence'', rest) ← observe_all scenario_id sensor observed_at states noise' sequence'
    some (noise'', sequence'', first ++ rest)

  unfoldable pub observe : Simulation F G → Option (Simulation F G × List (SurveillanceReport F))
  unfolding observe_all now
  observe sim = do
    (noise, sequence, reports) ←
        observe_all sim.scenario.scenario_id sim.scenario.sensor (now world sim) sim.state sim.noise
          sim.report_sequence
    some (record sim { noise = noise; report_sequence = sequence }, reports)

-- What drives a simulation.
pub data Call (F : Type 0) : Type 0 where
  advancing : F → Call F
  observing : Call F

module _ {F G : Type 0} ⦃float : Float F⦄ ⦃trig : Trig F⦄ (world : World F G) where
  unfoldable pub perform :
      Call F → Simulation F G → Option (Simulation F G × List (SurveillanceReport F))
  unfolding advance observe
  perform (advancing dt_s) sim = do moved ← advance dt_s sim; some (moved, [])
  perform observing sim = observe world sim

  -- Calls one after another, and all that was observed.
  unfoldable pub perform_all :
      List (Call F) → Simulation F G → Option (Simulation F G × List (SurveillanceReport F))
  unfolding perform
  perform_all [] sim = some (sim, [])
  perform_all (c ∷ calls) sim = do
    (sim', first) ← perform c sim
    (sim'', rest) ← perform_all calls sim'
    some (sim'', first ++ rest)
