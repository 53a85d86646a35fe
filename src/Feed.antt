-- ===== src/Feed.antt =====
-- services/feed/runner.py: `FeedRunner`. The pacing against the wall clock and the logs are left out. A
-- message is a report or a truth state; where a span is active at the n-th call of the publisher is
-- given.
pub mod Counts
pub mod Played
pub mod Account
pub mod Ends
mod Tests
use airspace_conformance_pla.Base.{
  ℕ, zero, suc, ◌+◌, ◌>>=◌, String, Bool, true, false, Option, none, some, List, [], ◌∷◌, Float,
  if◌then◌else◌,
}
use airspace_conformance_pla.Contracts.{Timestamp, SurveillanceReport}
use airspace_conformance_pla.Geodesy.Sphere.{Trig}
use airspace_conformance_pla.Messaging.Publisher.{
  Producer, Encoder, Tracing, Publisher, Published, sent, unstarted, failed, publish,
}
use airspace_conformance_pla.Scenario.{Scenario}
use airspace_conformance_pla.Flight.{World}
use airspace_conformance_pla.Simulation.{
  TruthState, Simulation, start, finished, advance, observe, truth,
}

pub data Message (F : Type 0) : Type 0 where
  report : SurveillanceReport F → Message F
  truth_state : TruthState F → Message F

-- `TOPIC_SURVEILLANCE_REPORTS` and `TOPIC_SIM_TRUTH`
abbrev pub topic_of : {F : Type 0} → Message F → String
topic_of (report r) = "surveillance.reports.v1"
topic_of (truth_state t) = "sim.truth.v1"

abbrev pub key_of : {F : Type 0} → Message F → String
key_of (report r) = r.icao24
key_of (truth_state t) = t.icao24

-- The publisher, the context variable `trace_id_var`, the calls of `uuid4`, and those of `publish`.
pub record Feed (P : Type 0) : Type 0 where
  pub publisher : Publisher P
  pub trace_id : Option String
  pub minted : ℕ
  pub calls : ℕ

pub record FeedStats : Type 0 where
  pub steps : ℕ
  pub reports_published : ℕ
  pub truth_published : ℕ

abbrev pub returned : Published → Bool
returned sent = true
returned unstarted = false
returned failed = false

-- count += 1, at the end of a loop that has not raised.
abbrev pub and_one : Option ℕ → Option ℕ
and_one none = none
and_one (some n) = some (suc n)

module _ {B F P : Type 0} (encoder : Encoder B (Message F)) ⦃producer : Producer B P⦄
    (uuid : ℕ → String) (tracing : ℕ → Tracing) where
  -- One message, under a trace id: the feed, and whether the call returned.
  unfoldable pub send_under : Option String → Message F → Feed P → Feed P × Bool
  unfolding publish
  send_under trace_id m feed =
      let (publisher, minted, how) =
        publish encoder uuid (tracing feed.calls) trace_id (topic_of m) (key_of m) m feed.publisher
          feed.minted in
      (record feed { publisher = publisher; minted = minted; calls = feed.calls + 1 }, returned how)

  -- The body of the loop of `_publish_reports`: the report has a trace id of its own, and the
  -- variable is reset whether or not the call returns.
  unfoldable pub send_report : SurveillanceReport F → Feed P → Feed P × Bool
  unfolding send_under
  send_report r feed =
      send_under (some (uuid feed.minted)) (report r) (record feed { minted = feed.minted + 1 })

  unfoldable pub send_truth : TruthState F → Feed P → Feed P × Bool
  unfolding send_under
  send_truth t feed = send_under feed.trace_id (truth_state t) feed

  -- A loop of calls, and how many returned; it ends at the first that raises, with `none`.
  abbrev pub counted : (Feed P → Feed P × Option ℕ) → Feed P × Bool → Feed P × Option ℕ
  counted rest (feed, false) = (feed, none)
  counted rest (feed, true) = let (feed', n) = rest feed in (feed', and_one n)

  unfoldable pub send_each :
      {A : Type 0} → (A → Feed P → Feed P × Bool) → List A → Feed P → Feed P × Option ℕ
  send_each send [] feed = (feed, some 0)
  send_each send (x ∷ xs) feed = counted (send_each send xs) (send x feed)

  unfoldable pub publish_reports : List (SurveillanceReport F) → Feed P → Feed P × Option ℕ
  unfolding send_each send_report
  publish_reports reports feed = send_each send_report reports feed

  unfoldable pub publish_truth_states : List (TruthState F) → Feed P → Feed P × Option ℕ
  unfolding send_each send_truth
  publish_truth_states states feed = send_each send_truth states feed

pub record FeedRunner (F : Type 0) : Type 0 where
  pub scenario : Scenario F
  pub publish_truth : Bool

-- How a run stands: it returned, it raised, or its rounds are used up.
pub data Outcome : Type 0 where
  complete : FeedStats → Outcome
  raised running : Outcome

module _ {F G : Type 0} ⦃float : Float F⦄ ⦃trig : Trig F⦄ (world : World F G) where
  -- One step of the simulation and what is seen of it.
  unfoldable pub step : F → Simulation F G → Option (Simulation F G × List (SurveillanceReport F))
  unfolding advance observe
  step interval sim = do moved ← advance interval sim; observe world moved

module _ {B F G P : Type 0} ⦃float : Float F⦄ ⦃trig : Trig F⦄ (world : World F G)
    (encoder : Encoder B (Message F)) ⦃producer : Producer B P⦄ (uuid : ℕ → String)
    (tracing : ℕ → Tracing) (runner : FeedRunner F) where
  abbrev pub with_truth :
      Simulation F G → ℕ → Feed P × Option ℕ → Feed P × Option (Simulation F G × ℕ × ℕ)
  with_truth sim reports (feed, none) = (feed, none)
  with_truth sim reports (feed, some truths) = (feed, some (sim, reports, truths))

  abbrev pub publish_truth_of : Option (List (TruthState F)) → Feed P → Feed P × Option ℕ
  publish_truth_of none feed = (feed, none)
  publish_truth_of (some states) feed = publish_truth_states encoder uuid tracing states feed

  abbrev pub with_reports :
      Simulation F G → Feed P × Option ℕ → Feed P × Option (Simulation F G × ℕ × ℕ)
  with_reports sim (feed, none) = (feed, none)
  with_reports sim (feed, some reports) =
      with_truth sim reports
        (if runner.publish_truth then publish_truth_of (truth world sim) feed else (feed, some 0))

  abbrev pub publish_step :
      Option (Simulation F G × List (SurveillanceReport F))
      → Feed P
      → Feed P × Option (Simulation F G × ℕ × ℕ)
  publish_step none feed = (feed, none)
  publish_step (some (sim, reports)) feed =
      with_reports sim (publish_reports encoder uuid tracing reports feed)

  -- The body of the loop of `run`; `none` where it raises.
  unfoldable pub tick : Simulation F G → Feed P → Feed P × Option (Simulation F G × ℕ × ℕ)
  unfolding step publish_reports publish_truth_states truth
  tick sim feed = publish_step (step world runner.scenario.sensor.report_interval_s sim) feed

  abbrev pub after_tick :
      (Simulation F G → FeedStats → Feed P → Feed P × Outcome)
      → FeedStats
      → Feed P × Option (Simulation F G × ℕ × ℕ)
      → Feed P × Outcome
  after_tick rest stats (feed, none) = (feed, raised)
  after_tick rest stats (feed, some (sim, reports, truths)) =
      rest sim
        (record {
          steps = stats.steps + 1;
          reports_published = stats.reports_published + reports;
          truth_published = stats.truth_published + truths;
        })
        feed

  unfoldable pub loop : ℕ → Simulation F G → FeedStats → Feed P → Feed P × Outcome
  unfolding tick finished
  loop zero sim stats feed = (feed, running)
  loop (suc n) sim stats feed =
      let next = after_tick (loop n) stats (tick sim feed) in
      if finished sim then (feed, complete stats) else next

  -- `run`, for as many rounds at most.
  unfoldable pub run : ℕ → Timestamp → Feed P → Feed P × Outcome
  unfolding loop start
  run n start_time feed =
      loop n (start world runner.scenario start_time)
        (record { steps = 0; reports_published = 0; truth_published = 0 }) feed
