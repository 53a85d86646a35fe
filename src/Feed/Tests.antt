-- ===== src/Feed/Tests.antt =====
-- A feed of two aircraft, whose messages are their own bytes.
use mathlib.Core.Option.{some_inj}
use airspace_conformance_pla.Base.{
  ℕ, ◌≡◌, refl, sym, String, true, false, none, some, List, [], ◌∷◌, ◌++◌, length,
}
use airspace_conformance_pla.Base.Whole.{ℤ, whole}
use airspace_conformance_pla.Messaging.Publisher.{Outgoing, Producer, Encoder, Tracing}
use airspace_conformance_pla.Messaging.RoundTrip.{IsProducer}
use airspace_conformance_pla.Simulation.{start}
use airspace_conformance_pla.Simulation.Samples.{flat_earth, counting, two_aircraft}
use airspace_conformance_pla.Feed.{Message, Feed, FeedStats, FeedRunner, Outcome, run}
use airspace_conformance_pla.Feed.Account.{run-IsAccounted}
use airspace_conformance_pla.Feed.Played.{played, all_of, reports_in, truths_in}
use airspace_conformance_pla.Feed.Counts.{HasSent}
use airspace_conformance_pla.Feed.Ends.{IsOver, time_after, run-IsOver}

-- Bytes: a text, or a message.
data Bytes : Type 0 where
  text : String → Bytes
  json : Message ℤ → Bytes

abbrev as_bytes : Encoder Bytes (Message ℤ)
as_bytes = record { encode = text; dump = json }

instance abbrev taking : Producer Bytes (List (Outgoing Bytes))
taking = record { send = λ out p. some (p ++ (out ∷ [])) }

abbrev log_of : List (Outgoing Bytes) → List (Outgoing Bytes)
log_of p = p

taking-IsProducer : IsProducer log_of
taking-IsProducer = record { log-send = λ out p p' e. sym (some_inj.0 e) }

abbrev fresh : ℕ → String
fresh n = "id"

abbrev dark : ℕ → Tracing
dark n = record { available = false; active = none; carrier = [] }

abbrev runner : FeedRunner ℤ
runner = record { scenario = two_aircraft; publish_truth = true }

abbrev open_feed : Feed (List (Outgoing Bytes))
open_feed = record {
  publisher = record { producer = some []; client_id = "feed"; published = [] };
  trace_id = none;
  minted = 0;
  calls = 0;
}

run-IsOver_example : IsOver runner (run counting as_bytes fresh dark runner 4 1000 open_feed)
unfolding time_after
run-IsOver_example = run-IsOver counting as_bytes fresh dark runner 3 1000 open_feed refl

abbrev ended : Feed (List (Outgoing Bytes)) × Outcome
unfolding run
ended = run counting as_bytes fresh dark runner 4 1000 open_feed

figures : FeedStats
figures = record { steps = 3; reports_published = 4; truth_published = 6 }

run-IsAccounted_example :
    let steps = played counting runner 4 (start counting two_aircraft 1000) in
    HasSent as_bytes log_of fresh dark (all_of steps) open_feed ended.0
    × (figures.steps ≡ length steps)
    × (figures.reports_published ≡ reports_in (all_of steps))
    × (figures.truth_published ≡ truths_in (all_of steps))
unfolding run figures
run-IsAccounted_example =
    run-IsAccounted counting as_bytes log_of taking-IsProducer fresh dark runner 4 1000 open_feed
      ended.0 figures refl
