-- ===== src/Messaging.antt =====
-- common/messaging.py: `MessageSubscriber`. The Kafka client is an interface, and so are the decoding of
-- bytes and the validation of messages. The logs and the spans are left out.
pub mod Delivery
pub mod AtLeastOnce
pub mod Gauges
pub mod Publisher
pub mod RoundTrip
mod Tests
use airspace_conformance_pla.Base.{
  ℕ, zero, suc, ◌+◌, ◌-◌, String, Bool, true, false, Option, none, some, List, [], ◌∷◌, foldl, ◌==◌,
  string_eq, pair_eq, Dict, insert, delete, if◌then◌else◌,
}

-- A record of a topic, over the type of byte strings.
pub record Record (B : Type 0) : Type 0 where
  pub topic : String
  pub partition : ℕ
  pub offset : ℕ
  pub key : Option B
  pub value : B
  pub headers : Option (List (String × B))

-- What the subscriber asks of the client: the next record, with the client that has handed it out;
-- `commit`, which commits the positions of all its partitions; and the cached high-water mark.
pub record Consumer (B C : Type 0) : Type 0 where
  pub next : C → Option (Record B × C)
  pub commit : C → C
  pub highwater : String → ℕ → C → Option ℕ

-- `model_validate_json`, `bytes.decode()`, `bytes.decode(errors="replace")`, and the test of a byte
-- string as a condition.
pub record Codec (B M : Type 0) : Type 0 where
  pub parse : B → Option M
  pub decode : B → Option String
  pub decode_replacing : B → String
  pub is_empty : B → Bool

pub record Envelope (M : Type 0) : Type 0 where
  pub message : M
  pub key : Option String
  pub topic : String
  pub partition : ℕ
  pub offset : ℕ
  pub trace_id : String

-- `trace_id` is the context variable, `lags` the gauge `consumer_lag` of this client, `discarded`
-- the counter `messages_discarded`, and `minted` counts the calls of `uuid4`.
pub record Subscriber (C : Type 0) : Type 0 where
  pub consumer : C
  pub trace_id : String
  pub lags : Dict (String × ℕ) ℕ
  pub discarded : ℕ
  pub minted : ℕ

-- What came of a record: it was malformed and is committed; the loop body ran over it to its end
-- and it is committed; its key could not be decoded, which raises; the loop body raised or left.
pub data Fate : Type 0 where
  malformed handled undecodable abandoned : Fate

-- Whether the loop asks for another record.
abbrev pub goes_on : Fate → Bool
goes_on malformed = true
goes_on handled = true
goes_on undecodable = false
goes_on abandoned = false

-- `TRACE_HEADER`
abbrev pub trace_header : String
trace_header = "x-acp-trace-id"

abbrev pub lag_of : ℕ → ℕ → ℕ
lag_of highwater offset = highwater - (offset + 1)

-- `max(0, ...)` is what subtraction on the naturals gives.
abbrev pub set_lag : {C : Type 0} → String × ℕ → ℕ → Option ℕ → Subscriber C → Subscriber C
set_lag place offset none s = s
set_lag place offset (some zero) s = s
set_lag place offset (some (suc n)) s = record s {
  lags = insert place (lag_of (suc n) offset) s.lags;
}

module _ (B : Type 0) {C : Type 0} ⦃client : Consumer B C⦄ where
  unfoldable pub record_lag : String → ℕ → ℕ → Subscriber C → Subscriber C
  record_lag topic partition offset s =
      set_lag (topic, partition) offset (client.highwater topic partition s.consumer) s

-- The part of `_release` that is the subscriber's own.
unfoldable pub release : {C : Type 0} → List (String × ℕ) → Subscriber C → Subscriber C
release revoked s = record s { lags = foldl (λ m partition. delete partition m) s.lags revoked }

module _ {B M : Type 0} (codec : Codec B M) (uuid : ℕ → String) where
  -- The first header of the name, if any.
  abbrev pub find_trace : List (String × B) → Option String
  find_trace [] = none
  find_trace ((name, value) ∷ headers) =
      if name == trace_header then some (codec.decode_replacing value) else find_trace headers

  abbrev pub or_mint : ℕ → Option String → String × ℕ
  or_mint minted none = (uuid minted, minted + 1)
  or_mint minted (some id) = (id, minted)

  unfoldable pub trace_id_from : Option (List (String × B)) → ℕ → String × ℕ
  trace_id_from none minted = or_mint minted none
  trace_id_from (some headers) minted = or_mint minted (find_trace headers)

-- `record.key.decode() if record.key else None`; `none` where it raises.
abbrev pub key_of : {B M : Type 0} → Codec B M → Option B → Option (Option String)
key_of codec none = some none
key_of codec (some bytes) =
    if codec.is_empty bytes
    then some none
    else elim (codec.decode bytes) [ none ↦ none | some key ↦ some (some key) ]

-- `H` is all that the body of the caller's loop reads and writes; it says whether it asks for the
-- next message.
module _ {B M C H : Type 0} ⦃client : Consumer B C⦄ (codec : Codec B M) (uuid : ℕ → String)
    (handle : Envelope M → H → H × Bool) where
  -- After the loop body: commit if it asks for the next message.
  abbrev pub settle : String → Subscriber C → H × Bool → Subscriber C × H × Fate
  settle previous s (h, true) =
      (record s { consumer = client.commit s.consumer; trace_id = previous }, h, handled)
  settle previous s (h, false) = (record s { trace_id = previous }, h, abandoned)

  abbrev pub offer :
      String → Record B → M → Option (Option String) → Subscriber C → H → Subscriber C × H × Fate
  offer previous r message none s h = (record s { trace_id = previous }, h, undecodable)
  offer previous r message (some key) s h = settle previous s (
      handle
        (record {
          message = message;
          key = key;
          topic = r.topic;
          partition = r.partition;
          offset = r.offset;
          trace_id = s.trace_id;
        })
        h)

  abbrev pub open_record : String → Record B → Option M → Subscriber C → H → Subscriber C × H × Fate
  open_record previous r none s h = (
    record s {
      discarded = s.discarded + 1;
      consumer = client.commit s.consumer;
      trace_id = previous;
    },
    h,
    malformed,
  )
  open_record previous r (some message) s h = offer previous r message (key_of codec r.key) s h

  -- The body of the loop of `stream`.
  unfoldable pub deliver : Record B → Subscriber C → H → Subscriber C × H × Fate
  unfolding record_lag trace_id_from
  deliver r s0 h =
      let s = record_lag B r.topic r.partition r.offset s0 in
      let (trace_id, minted) = trace_id_from codec uuid r.headers s.minted in
      open_record s.trace_id r (codec.parse r.value)
        (record s { trace_id = trace_id; minted = minted }) h

  -- The subscriber, the caller and the fates of the records, from those after one record.
  abbrev pub then_rest :
      (Subscriber C → H → Subscriber C × H × List (Record B × Fate))
      → Record B
      → Subscriber C × H × Fate
      → Subscriber C × H × List (Record B × Fate)
  then_rest rest r (s, h, fate) =
      let (s', h', fates) = rest s h in
      if goes_on fate then (s', h', (r, fate) ∷ fates) else (s, h, (r, fate) ∷ [])

  abbrev pub after_next :
      (Subscriber C → H → Subscriber C × H × List (Record B × Fate))
      → Subscriber C
      → H
      → Option (Record B × C)
      → Subscriber C × H × List (Record B × Fate)
  after_next rest s h none = (s, h, [])
  after_next rest s h (some (r, c)) = then_rest rest r (deliver r (record s { consumer = c }) h)

  -- `stream`, for as many records at most: until the client stops, or a record ends the loop.
  unfoldable pub stream : ℕ → Subscriber C → H → Subscriber C × H × List (Record B × Fate)
  unfolding deliver
  stream zero s h = (s, h, [])
  stream (suc n) s h = after_next (stream n) s h (client.next s.consumer)
