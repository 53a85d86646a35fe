-- ===== src/Feed/Played.antt =====
-- services/feed/runner.py: the messages that a simulation gives by itself.
use airspace_conformance_pla.Base.{
  ℕ, zero, suc, Bool, true, false, Option, none, some, List, [], ◌∷◌, ◌++◌, map, select, not,
  length, Float, if◌then◌else◌,
}
use airspace_conformance_pla.Contracts.{SurveillanceReport}
use airspace_conformance_pla.Geodesy.Sphere.{Trig}
use airspace_conformance_pla.Flight.{World}
use airspace_conformance_pla.Simulation.{TruthState, Simulation, finished, truth}
use airspace_conformance_pla.Feed.{Message, report, truth_state, FeedRunner, step}

-- The states, if there is a list of them.
abbrev pub or_none : {A : Type 0} → Option (List A) → List A
or_none none = []
or_none (some states) = states

-- The messages of some steps.
unfoldable pub all_of : {A : Type 0} → List (List A) → List A
all_of [] = []
all_of (ms ∷ rest) = ms ++ all_of rest

module _ {F G : Type 0} ⦃float : Float F⦄ ⦃trig : Trig F⦄ (world : World F G)
    (runner : FeedRunner F) where
  -- The truth states of a step, if they are published at all.
  abbrev pub truths_of : Simulation F G → List (TruthState F)
  truths_of sim = if runner.publish_truth then or_none (truth world sim) else []

  -- The messages of a step: its reports, and then its truth.
  abbrev pub messages_of : Simulation F G → List (SurveillanceReport F) → List (Message F)
  messages_of sim reports = map report reports ++ map truth_state (truths_of sim)

  -- The messages that a simulation gives by itself, step by step, until it is finished.
  abbrev pub then_played :
      (Simulation F G → List (List (Message F)))
      → Option (Simulation F G × List (SurveillanceReport F))
      → List (List (Message F))
  then_played rest none = []
  then_played rest (some (sim, reports)) = messages_of sim reports ∷ rest sim

  unfoldable pub played : ℕ → Simulation F G → List (List (Message F))
  played zero sim = []
  played (suc n) sim =
      let next = then_played (played n) (step world runner.scenario.sensor.report_interval_s sim) in
      if finished sim then [] else next

module _ {F : Type 0} where
  -- How many of some messages are reports, and how many are truth states.
  abbrev pub is_report : Message F → Bool
  is_report (report r) = true
  is_report (truth_state t) = false

  abbrev pub reports_in : List (Message F) → ℕ
  reports_in ms = length (select is_report ms)

  abbrev pub truths_in : List (Message F) → ℕ
  truths_in ms = length (select (λ m. not (is_report m)) ms)
