-- ===== src/Waiting/Tests.antt =====
-- The theorems about the waits at a world that is only a time.
use airspace_conformance_pla.Base.{
  ℕ, ◌+◌, ◌≤◌, ◌≡◌, ◌≢◌, Bool, true, false, leb, some, if◌then◌else◌, arith,
}
use airspace_conformance_pla.Waiting.{
  Clock, Admin, Engine, version, unreachable, broke, Ending, wait, poll_broker, poll_schema,
  broker_is_up, then_list,
}
use airspace_conformance_pla.Waiting.Ends.{IsClock, IsEnd, broker-IsEnd}

instance abbrev clock : Clock ℕ
clock = record { monotonic = λ w. w; sleep = λ n w. w + n }

-- The broker is up from the fifth second on, and the schema is there from the fifth on.
instance abbrev admin : Admin ℕ
admin = record { start = λ w. (leb 5000000 w, w); list_topics = λ w. (true, w); close = λ w. w }

instance abbrev engine : Engine ℕ
engine = record {
  query = λ w. (if leb 5000000 w then version "0002" else unreachable, w);
  dispose = λ w. w;
}

still : (b : Bool) (w : ℕ) → w ≤ (then_list (b, w)).1
still true w = omega arith
still false w = omega arith

broker-IsClock : IsClock {W = ℕ} poll_broker
unfolding broker_is_up poll_broker
broker-IsClock = record {
  monotonic-poll = λ w. still (leb 5000000 w) w;
  monotonic-sleep = λ n w. omega arith;
}

schema-IsClock : IsClock {W = ℕ} (poll_schema "0002")
unfolding poll_schema
schema-IsClock = record { monotonic-poll = λ w. omega arith; monotonic-sleep = λ n w. omega arith }

broker-IsEnd_example :
    (e : Ending × ℕ) × (wait 121 poll_broker 240000000 0 ≡ some e)
    × IsEnd poll_broker 240000000 e
    × (e.0 ≢ broke)
broker-IsEnd_example = broker-IsEnd broker-IsClock 120 240000000 0 (omega arith)
