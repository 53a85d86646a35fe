-- ===== src/Messaging/Tests.antt =====
-- A client of one partition, and the theorems about the subscriber at concrete inputs.
mod Log
pub mod Wire
use airspace_conformance_pla.Base.{
  ℕ, ◌+◌, ◌≤◌, ◌<◌, ◌≡◌, refl, sym, ap, true, false, Bool, not, none, some, Option, String, List,
  [], ◌∷◌, ◌++◌, ◌==◌, string_eq, pair_eq, lookup, insert, delete, if◌then◌else◌, arith,
}
use mathlib.Core.List.{Memᴰ}
use airspace_conformance_pla.Messaging.{
  Record, Codec, Envelope, Subscriber, Fate, malformed, handled, abandoned, goes_on, deliver,
  stream, release, record_lag, trace_id_from, settle,
}
use airspace_conformance_pla.Messaging.Delivery.{sessions, finished}
use airspace_conformance_pla.Messaging.AtLeastOnce.{sessions-Covers, deliver-committed}
use airspace_conformance_pla.Messaging.Gauges.{release-deliver-lags}
use airspace_conformance_pla.Messaging.Publisher.{
  Outgoing, Publisher, sent, current_trace_id, publish,
}
use airspace_conformance_pla.Messaging.RoundTrip.{stored, received, publish-deliver}
use airspace_conformance_pla.Messaging.Tests.Wire.{
  plain, as_text, plain-IsInverse, appending, whole_log, appending-IsProducer, no_tracing, opened,
}
use airspace_conformance_pla.Messaging.Tests.Log.{
  Client, entry, client, restart, at, client-IsConsumer,
}

-- Messages are texts; one of them cannot be read.
abbrev codec : Codec String String
codec = record {
  parse = λ b. if b == "bad" then none else some b;
  decode = λ b. some b;
  decode_replacing = λ b. b;
  is_empty = λ b. b == "";
}

-- The caller keeps the messages, and breaks off at one of them the first time.
abbrev keep : Envelope String → List String → List String × Bool
keep e [] = (e.message ∷ [], not (e.message == "stop"))
keep e (m ∷ ms) = (e.message ∷ m ∷ ms, true)

abbrev name : ℕ → String
name n = "id"

abbrev values : List String
values = "stop" ∷ "bad" ∷ "b" ∷ []

abbrev start : Subscriber Client
start = record {
  consumer = record { position = 0; committed = 0 };
  trace_id = "";
  lags = [];
  discarded = 0;
  minted = 0;
}

-- The first session breaks off at the first record, the second handles it, skips the second record
-- and handles the third.
sessions-Covers_example : Memᴰ (entry 2 "b") (
    finished
      (sessions ⦃client = client values⦄ codec name keep restart (λ h. h) (5 ∷ 5 ∷ []) start []).2)
unfolding sessions stream deliver record_lag trace_id_from insert
sessions-Covers_example =
    sessions-Covers ⦃client = client values⦄ codec name keep (at values) restart
      (client-IsConsumer values) (λ h. h) (5 ∷ 5 ∷ []) start [] "t" 0 2 (entry 2 "b") (omega arith)
      (omega arith) refl

-- A report is published under a trace id of its own.
after_publish : Publisher (List (Outgoing String)) × ℕ
after_publish =
    let (p, minted, end) = publish as_text name no_tracing (some "t1") "r" "k" "hello" opened 0 in
    (p, minted)

publish-deliver_example :
    let trace_id = (current_trace_id name no_tracing (some "t1") 0).0 in
    (old : List (Outgoing String)) × (new : List (Outgoing String)) × (out : Outgoing String)
    × (opened.producer ≡ some old)
    × (after_publish.0.producer ≡ some new)
    × (whole_log new ≡ whole_log old ++ (out ∷ []))
    × ((partition offset : ℕ) (s : Subscriber Client) (h : List String)
        → deliver ⦃client = client values⦄ plain name keep (stored out partition offset) s h ≡ (
            let s' = record_lag String ⦃client = client values⦄ "r" partition offset s in
            settle ⦃client = client values⦄ plain name keep s'.trace_id
              (record s' { trace_id = trace_id })
              (keep (received "r" "k" "hello" partition offset trace_id) h)))
unfolding publish after_publish
publish-deliver_example =
    publish-deliver plain as_text plain-IsInverse whole_log appending-IsProducer
      ⦃client = client values⦄ name name keep no_tracing (some "t1") "r" "k" "hello" opened
      after_publish.0 0 after_publish.1 refl
