-- ===== src/Feed/Ends.antt =====
-- services/feed/runner.py: a run ends.
use native.Mathlib.Nat.{eq-or-lt_of_le}
use mathlib.Core.Path.{subst}
use airspace_conformance_pla.Base.{
  ℕ, zero, suc, ◌+◌, ◌<◌, ◌≤◌, ◌≡◌, refl, sym, ap, ◌∙◌, String, true, false, Option, none, some,
  List, Float, arith, Bool-cases, inl, inr, Ends, Ends-bind, Ends-always, if_cases,
}
use airspace_conformance_pla.Contracts.{Timestamp, SurveillanceReport}
use airspace_conformance_pla.Geodesy.Sphere.{Trig}
use airspace_conformance_pla.Messaging.Publisher.{Producer, Encoder, Tracing}
use airspace_conformance_pla.Flight.{World}
use airspace_conformance_pla.Simulation.{
  Simulation, start, now, finished, observe, observe_all, advance, advance_all,
}
use airspace_conformance_pla.Feed.{
  Message, Feed, FeedStats, FeedRunner, Outcome, complete, raised, running, step, publish_step,
  with_reports, with_truth, tick, after_tick, loop, run,
}

module _ {F : Type 0} ⦃float : Float F⦄ (runner : FeedRunner F) where
  -- The time of a simulation after so many steps, added up as the code does.
  unfoldable pub time_after : ℕ → F
  time_after zero = float.literal 0
  time_after (suc k) = float.add (time_after k) runner.scenario.sensor.report_interval_s

  -- So many steps are the first that reach the duration.
  abbrev pub IsFirst : ℕ → Type 0
  IsFirst n =
      (float.le runner.scenario.duration_s (time_after n) ≡ true)
      × ((i : ℕ) → i < n → float.le runner.scenario.duration_s (time_after i) ≡ false)

  IsEarly-suc :
      (n : ℕ)
      → ((i : ℕ) → i < n → float.le runner.scenario.duration_s (time_after i) ≡ false)
      → float.le runner.scenario.duration_s (time_after n) ≡ false
      → (i : ℕ) → i < suc n
      → float.le runner.scenario.duration_s (time_after i) ≡ false
  IsEarly-suc n early not_yet i lt =
      elim (eq-or-lt_of_le (let le : i ≤ n = omega (arith, lt) in le)) [
        | inl same ↦
            subst (λ m. float.le runner.scenario.duration_s (time_after m) ≡ false) (sym same)
              not_yet
        | inr below ↦ early i below
      ]

  -- The run is over: it raised, or it returned after exactly those steps.
  abbrev pub IsOver : {P : Type 0} → Feed P × Outcome → Type 0
  IsOver (feed, complete stats) = IsFirst stats.steps
  IsOver (feed, raised) = Unit
  IsOver (feed, running) = ⊥

  abbrev interval : F
  interval = runner.scenario.sensor.report_interval_s

module _ {F G : Type 0} ⦃float : Float F⦄ (runner : FeedRunner F) where
  -- The time has gone on by a step.
  abbrev IsNext : Simulation F G → Simulation F G → Type 0
  IsNext sim sim' =
      (sim'.scenario ≡ sim.scenario) × (sim'.elapsed_s ≡ float.add sim.elapsed_s (interval runner))

  abbrev IsStepped : Simulation F G → Simulation F G × List (SurveillanceReport F) → Type 0
  IsStepped sim (sim', reports) = IsNext sim sim'

  -- A round of the loop that does not raise takes a step.
  abbrev IsMoved : {P : Type 0} → Simulation F G → Feed P × Option (Simulation F G × ℕ × ℕ) → Type 0
  IsMoved sim (feed, none) = Unit
  IsMoved sim (feed, some (sim', n, k)) = IsNext sim sim'

  -- A simulation of this scenario that has taken so many steps, none of which reached the duration.
  abbrev IsUnder : ℕ → Simulation F G → FeedStats → Type 0
  IsUnder j sim stats =
      (sim.scenario ≡ runner.scenario)
      × (sim.elapsed_s ≡ time_after runner j)
      × (stats.steps ≡ j)
      × ((i : ℕ) → i < j → float.le runner.scenario.duration_s (time_after runner i) ≡ false)

module _ {F G : Type 0} ⦃float : Float F⦄ ⦃trig : Trig F⦄ (world : World F G)
    (runner : FeedRunner F) where
  advance-IsNext : (sim : Simulation F G) → Ends (IsNext runner sim) (advance (interval runner) sim)
  unfolding advance
  advance-IsNext sim =
      if_cases (Ends (IsNext runner sim)) (float.le (interval runner) (float.literal 0)) none _
        (λ backward. tt)
        (λ forward.
          Ends-bind (λ a. Unit {0}) (IsNext runner sim)
            (advance_all (interval runner) sim.elapsed_s _ sim.specs sim.state) _ (Ends-always _)
            (λ state _. (refl, refl)))

  observe-IsStepped :
      (sim moved : Simulation F G)
      → IsNext runner sim moved
      → Ends (IsStepped runner sim) (observe world moved)
  unfolding observe now
  observe-IsStepped sim moved next =
      Ends-bind (λ a. Unit {0}) (IsStepped runner sim)
        (observe_all world moved.scenario.scenario_id moved.scenario.sensor (now world moved)
          moved.state moved.noise moved.report_sequence)
        _ (Ends-always _) (λ seen _. next)

  step-IsStepped :
      (sim : Simulation F G) → Ends (IsStepped runner sim) (step world (interval runner) sim)
  unfolding step
  step-IsStepped sim =
      Ends-bind (IsNext runner sim) (IsStepped runner sim) (advance (interval runner) sim) _
        (advance-IsNext sim) (observe-IsStepped sim)

module _ {B F G P : Type 0} ⦃float : Float F⦄ ⦃trig : Trig F⦄ (world : World F G)
    (encoder : Encoder B (Message F)) ⦃producer : Producer B P⦄ (uuid : ℕ → String)
    (tracing : ℕ → Tracing) (runner : FeedRunner F) where
  with_truth-IsMoved :
      (sim sim' : Simulation F G) (n : ℕ) (r : Feed P × Option ℕ)
      → IsNext runner sim sim'
      → IsMoved runner sim (with_truth world encoder uuid tracing runner sim' n r)
  with_truth-IsMoved sim sim' n (feed, none) next = tt
  with_truth-IsMoved sim sim' n (feed, some k) next = next

  with_reports-IsMoved :
      (sim sim' : Simulation F G) (r : Feed P × Option ℕ)
      → IsNext runner sim sim'
      → IsMoved runner sim (with_reports world encoder uuid tracing runner sim' r)
  with_reports-IsMoved sim sim' (feed, none) next = tt
  with_reports-IsMoved sim sim' (feed, some n) next = with_truth-IsMoved sim sim' n _ next

  publish_step-IsMoved :
      (sim : Simulation F G) (o : Option (Simulation F G × List (SurveillanceReport F)))
      (feed : Feed P)
      → Ends (IsStepped runner sim) o
      → IsMoved runner sim (publish_step world encoder uuid tracing runner o feed)
  publish_step-IsMoved sim none feed next = tt
  publish_step-IsMoved sim (some (sim', reports)) feed next = with_reports-IsMoved sim sim' _ next

  tick-IsMoved :
      (sim : Simulation F G) (feed : Feed P)
      → IsMoved runner sim (tick world encoder uuid tracing runner sim feed)
  unfolding tick
  tick-IsMoved sim feed = publish_step-IsMoved sim _ feed (step-IsStepped world runner sim)

  after_tick-IsOver :
      (rest : Simulation F G → FeedStats → Feed P → Feed P × Outcome) (sim : Simulation F G)
      (stats : FeedStats) (r : Feed P × Option (Simulation F G × ℕ × ℕ))
      → IsMoved runner sim r
      → ((sim' : Simulation F G) (stats' : FeedStats) (feed : Feed P)
          → IsNext runner sim sim'
          → stats'.steps ≡ suc stats.steps
          → IsOver runner (rest sim' stats' feed))
      → IsOver runner (after_tick world encoder uuid tracing runner rest stats r)
  after_tick-IsOver rest sim stats (feed, none) next over = tt
  after_tick-IsOver rest sim stats (feed, some (sim', n, k)) next over =
      over sim' _ feed next (omega arith)

  loop-IsOver :
      (n j k : ℕ) (sim : Simulation F G) (stats : FeedStats) (feed : Feed P)
      → j + n ≡ suc k
      → float.le runner.scenario.duration_s (time_after runner k) ≡ true
      → IsUnder runner j sim stats
      → IsOver runner (loop world encoder uuid tracing runner n sim stats feed)
  unfolding loop finished time_after
  loop-IsOver zero j k sim stats feed fuel late (same, at, count, early) =
      absurd (let h : false ≡ true = sym (early k (omega (arith, fuel))) ∙ late in cc)
  loop-IsOver (suc n) j k sim stats feed fuel late (same, at, count, early) =
      let when : float.le sim.scenario.duration_s sim.elapsed_s
          ≡ float.le runner.scenario.duration_s (time_after runner j) =
        λ i. float.le (same i).duration_s (at i) in
      elim (Bool-cases (float.le sim.scenario.duration_s sim.elapsed_s)) [
        | inl over ↦ rw over (subst (IsFirst runner) (sym count) (sym when ∙ over, early))
        | inr going ↦ rw going (
            after_tick-IsOver (loop world encoder uuid tracing runner n) sim stats _
              (tick-IsMoved sim feed)
              (λ sim' stats' mid (kept, later) more.
                loop-IsOver n (suc j) k sim' stats' mid (omega (arith, fuel)) late (
                  kept ∙ same,
                  later ∙ ap (λ t. float.add t (interval runner)) at,
                  more ∙ ap suc count,
                  IsEarly-suc runner j early (sym when ∙ going),
                )))
      ]

  -- If so many report intervals, added up, reach the duration, one round more than that is enough
  -- for `run` to end, whatever the world and the publisher do: either something raises, or it
  -- returns its figures, and then its steps are exactly as many as it takes, interval by interval,
  -- to reach the duration first.
  pub run-IsOver :
      (k : ℕ) (start_time : Timestamp) (feed : Feed P)
      → float.le runner.scenario.duration_s (time_after runner k) ≡ true
      → IsOver runner (run world encoder uuid tracing runner (suc k) start_time feed)
  unfolding run start time_after
  run-IsOver k start_time feed late =
      loop-IsOver (suc k) 0 k (start world runner.scenario start_time) _ feed (omega arith) late
        (refl, refl, refl, λ i lt. absurd (omega (arith, lt)))
