-- ===== src/Simulation/Names.antt =====
-- sim/engine.py: the identities of the reports.
use airspace_conformance_pla.Base.{
  ℕ, ◌+◌, ◌≡◌, refl, ◌∙◌, String, List, [], ◌∷◌, ◌++◌, length, Float, Dict, lookup, string_eq, join,
  arith, Ends, Ends-bind, Ends-always, if_cases, none, some, Option,
}
use mathlib.Core.Path.{subst}
use airspace_conformance_pla.Contracts.{Timestamp, SurveillanceReport}
use airspace_conformance_pla.Geodesy.Sphere.{Trig}
use airspace_conformance_pla.Scenario.{SensorModel}
use airspace_conformance_pla.Flight.{World, AircraftTruth}
use airspace_conformance_pla.Sensor.{report_is_valid, checked_report, observe_one, sense}
use airspace_conformance_pla.Simulation.{
  Simulation, observe_state, observe_all, observe, advance, advance_all, Call, advancing, observing,
  perform, perform_all,
}

module _ {F G : Type 0} ⦃float : Float F⦄ ⦃trig : Trig F⦄ (world : World F G) where
  -- f"{scenario_id}-{n:09d}"
  abbrev pub name : String → ℕ → String
  unfolding join
  name scenario_id n = join (scenario_id ∷ "-" ∷ world.padded n ∷ [])

  -- The identities of reports count on by one each, from after one number to another.
  abbrev pub IsNumbered : String → ℕ → ℕ → List (SurveillanceReport F) → Type 0
  unfolding join
  IsNumbered scenario_id n m [] = m ≡ n
  IsNumbered scenario_id n m (r ∷ out) =
      (r.report_id ≡ name scenario_id (n + 1)) × IsNumbered scenario_id (n + 1) m out

  IsNumbered-append :
      (scenario_id : String) (n m l : ℕ) (first rest : List (SurveillanceReport F))
      → IsNumbered scenario_id n m first
      → IsNumbered scenario_id m l rest
      → IsNumbered scenario_id n l (first ++ rest)
  unfolding join
  IsNumbered-append scenario_id n m l [] rest h k = rw (← h) k
  IsNumbered-append scenario_id n m l (r ∷ first) rest h k =
      (h.0, IsNumbered-append scenario_id (n + 1) m l first rest h.1 k)

  -- What the sensor of an aircraft gives.
  abbrev IsHeard : String → ℕ → List (SurveillanceReport F) × G → Type 0
  unfolding join
  IsHeard scenario_id n (out, g) = IsNumbered scenario_id n (n + length out) out

  abbrev IsNamed : String → SurveillanceReport F × G → Type 0
  IsNamed id (r, g) = r.report_id ≡ id

  checked_report-IsNamed :
      (r : SurveillanceReport F) (g : G) → Ends (IsNamed r.report_id) (checked_report world r g)
  unfolding checked_report
  checked_report-IsNamed r g =
      if_cases (Ends (IsNamed r.report_id)) (report_is_valid r) (some (r, g)) none (λ fine. refl)
        (λ refused. tt)

  observe_one-IsNamed :
      (scenario_id : String) (sensor : SensorModel F) (at : Option Timestamp) (n : ℕ)
      (s : AircraftTruth F) (g : G)
      → Ends (IsNamed (name scenario_id n)) (observe_one world scenario_id sensor at n s g)
  unfolding observe_one join
  observe_one-IsNamed scenario_id sensor at n s g =
      let IsThat = IsNamed (name scenario_id n) in
      Ends-bind {A = F} (λ a. Unit {0}) IsThat (trig.cos (trig.radians s.lat)) _ (Ends-always _)
        (λ cosine _.
          Ends-bind (λ a. Unit {0}) IsThat at _ (Ends-always at)
            (λ observed_at _. search checked_report-IsNamed))

  sense-IsNumbered :
      (scenario_id : String) (sensor : SensorModel F) (at : Option Timestamp) (n : ℕ)
      (s : AircraftTruth F) (g : G)
      → Ends (IsHeard scenario_id n) (sense world scenario_id sensor at (n + 1) s g)
  unfolding sense join
  sense-IsNumbered scenario_id sensor at n s g =
      if_cases (Ends (IsHeard scenario_id n))
        (float.lt (world.random g).0 sensor.dropout_probability) _ _ (λ lost. omega arith)
        (λ heard.
          Ends-bind (IsNamed (name scenario_id (n + 1))) (IsHeard scenario_id n)
            (observe_one world scenario_id sensor at (n + 1) s (world.random g).1) _
            (observe_one-IsNamed scenario_id sensor at (n + 1) s (world.random g).1)
            (λ (r, g') named. (named, omega arith)))

  -- The last two parts of what a loop of `observe` gives.
  abbrev IsCounted : String → ℕ → Dict String G × ℕ × List (SurveillanceReport F) → Type 0
  unfolding join
  IsCounted scenario_id n (noise, m, out) = IsNumbered scenario_id n m out

  observe_state-IsNumbered :
      (scenario_id : String) (sensor : SensorModel F) (at : Option Timestamp) (s : AircraftTruth F)
      (noise : Dict String G) (n : ℕ)
      → Ends (IsCounted scenario_id n) (observe_state world scenario_id sensor at s noise n)
  unfolding observe_state join
  observe_state-IsNumbered scenario_id sensor at s noise n =
      if_cases (Ends (IsCounted scenario_id n)) s.airborne _ _
        (λ up. Ends-bind _ _ (lookup s.icao24 noise) _ (Ends-always (lookup s.icao24 noise)) (λ g _.
          Ends-bind (IsHeard scenario_id n) (IsCounted scenario_id n)
            (sense world scenario_id sensor at (n + 1) s g) _
            (sense-IsNumbered scenario_id sensor at n s g) (λ (out, g') h. h)))
        (λ down. refl)

  observe_all-IsNumbered :
      (scenario_id : String) (sensor : SensorModel F) (at : Option Timestamp)
      (states : Dict String (AircraftTruth F)) (noise : Dict String G) (n : ℕ)
      → Ends (IsCounted scenario_id n) (observe_all world scenario_id sensor at states noise n)
  unfolding observe_all join
  observe_all-IsNumbered scenario_id sensor at [] noise n = refl
  observe_all-IsNumbered scenario_id sensor at ((k, s) ∷ states) noise n =
      Ends-bind _ _ _ _ (observe_state-IsNumbered scenario_id sensor at s noise n)
        (λ (noise', m, first) h.
          Ends-bind _ _ _ _ (observe_all-IsNumbered scenario_id sensor at states noise' m)
            (λ (noise'', l, rest) i. IsNumbered-append scenario_id n m l first rest h i))

  -- After a call, the reports of the call are numbered on from the ones before it.
  abbrev pub Continues : Simulation F G → Simulation F G × List (SurveillanceReport F) → Type 0
  unfolding join
  Continues sim (sim', out) =
      (sim'.scenario ≡ sim.scenario)
      × IsNumbered sim.scenario.scenario_id sim.report_sequence sim'.report_sequence out

  -- A step in time keeps what the names are made of.
  abbrev IsKept : Simulation F G → Simulation F G → Type 0
  IsKept sim moved = (moved.scenario ≡ sim.scenario) × (moved.report_sequence ≡ sim.report_sequence)

  advance-IsKept : (dt_s : F) (sim : Simulation F G) → Ends (IsKept sim) (advance dt_s sim)
  unfolding advance
  advance-IsKept dt_s sim =
      if_cases (Ends (IsKept sim)) (float.le dt_s (float.literal 0)) none _ (λ backward. tt)
        (λ forward.
          Ends-bind (λ a. Unit {0}) (IsKept sim)
            (advance_all dt_s sim.elapsed_s _ sim.specs sim.state) _ (Ends-always _)
            (λ state _. (refl, refl)))

  perform-Continues :
      (c : Call F) (sim : Simulation F G) → Ends (Continues sim) (perform world c sim)
  unfolding perform observe join
  perform-Continues (advancing dt_s) sim =
      Ends-bind (IsKept sim) (Continues sim) (advance dt_s sim) _ (advance-IsKept dt_s sim)
        (λ moved kept. kept)
  perform-Continues observing sim =
      let id = sim.scenario.scenario_id in
      Ends-bind (IsCounted id sim.report_sequence) (Continues sim) _ _
        (observe_all-IsNumbered id sim.scenario.sensor _ sim.state sim.noise sim.report_sequence)
        (λ (noise, m, out) h. (refl, h))

  -- Over any calls from a simulation, nothing having raised, the reports are named by the scenario
  -- and by numbers that count on by one each, in the order of observation.
  pub perform_all-Continues :
      (calls : List (Call F)) (sim : Simulation F G)
      → Ends (Continues sim) (perform_all world calls sim)
  unfolding perform_all join
  perform_all-Continues [] sim = (refl, refl)
  perform_all-Continues (c ∷ calls) sim =
      Ends-bind (Continues sim) (Continues sim) (perform world c sim) _ (perform-Continues c sim)
        (λ (sim', first) (same, h).
          Ends-bind (Continues sim') (Continues sim) (perform_all world calls sim') _
            (perform_all-Continues calls sim')
            (λ (sim'', rest) (same', h'). (
              same' ∙ same,
              IsNumbered-append _ _ _ _ first rest h (
                  subst
                    (λ s. IsNumbered s.scenario_id sim'.report_sequence sim''.report_sequence rest)
                    same h'),
            )))
