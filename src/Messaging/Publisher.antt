-- ===== src/Messaging/Publisher.antt =====
-- common/messaging.py: `MessagePublisher`, with what it calls of common/tracing.py. The producer of the
-- Kafka client and the encoding of messages are interfaces; where a span is active is given.
use airspace_conformance_pla.Base.{
  ℕ, ◌+◌, String, Bool, Option, none, some, List, [], ◌∷◌, ◌++◌, map, ◌==◌, string_eq, names_eq,
  Dict, lookup, insert, if◌then◌else◌,
}
use airspace_conformance_pla.Messaging.{trace_header}

-- What is handed to `send_and_wait`.
pub record Outgoing (B : Type 0) : Type 0 where
  pub topic : String
  pub key : B
  pub value : B
  pub headers : List (String × B)

-- `none` where sending raises.
pub record Producer (B P : Type 0) : Type 0 where
  pub send : Outgoing B → P → Option P

-- `str.encode()` and `model_dump_json().encode()`.
pub record Encoder (B M : Type 0) : Type 0 where
  pub encode : String → B
  pub dump : M → B

-- Whether OpenTelemetry is there, the trace id of the active span if it is valid, and what
-- `inject` writes into the carrier.
pub record Tracing : Type 0 where
  pub available : Bool
  pub active : Option String
  pub carrier : List (String × String)

-- `published` is the counter `messages_published`, by service and topic.
pub record Publisher (P : Type 0) : Type 0 where
  pub producer : Option P
  pub client_id : String
  pub published : Dict (String × String) ℕ

-- How `publish` ends: it returns, it raises since it is not started, or sending raises.
pub data Published : Type 0 where
  sent unstarted failed : Published

-- trace_id_var.get() or uuid.uuid4().hex
abbrev pub or_uuid : (ℕ → String) → Option String → ℕ → String × ℕ
or_uuid uuid none minted = (uuid minted, minted + 1)
or_uuid uuid (some id) minted = if id == "" then (uuid minted, minted + 1) else (id, minted)

abbrev pub prefer : Option String → String × ℕ → ℕ → String × ℕ
prefer none fallback minted = fallback
prefer (some id) fallback minted = (id, minted)

unfoldable pub current_trace_id : (ℕ → String) → Tracing → Option String → ℕ → String × ℕ
current_trace_id uuid tracing ambient minted =
    let fallback = or_uuid uuid ambient minted in
    if tracing.available then prefer tracing.active fallback minted else fallback

abbrev pub one_more : Option ℕ → ℕ
one_more none = 1
one_more (some n) = n + 1

abbrev pub after_send :
    {P : Type 0} → Publisher P → String → ℕ → Option P → Publisher P × ℕ × Published
after_send p topic minted none = (p, minted, failed)
after_send p topic minted (some producer) = (
  record p {
    producer = some producer;
    published =
        insert (p.client_id, topic) (one_more (lookup (p.client_id, topic) p.published))
          p.published;
  },
  minted,
  sent,
)

module _ {B M : Type 0} (encoder : Encoder B M) where
  unfoldable pub inject_headers : Tracing → List (String × B) → List (String × B)
  inject_headers tracing headers =
      if tracing.available
      then headers ++ map (λ e. (e.0, encoder.encode e.1)) tracing.carrier
      else headers

  unfoldable pub outgoing : Tracing → String → String → String → M → Outgoing B
  unfolding inject_headers
  outgoing tracing trace_id topic key message = record {
    topic = topic;
    key = encoder.encode key;
    value = encoder.dump message;
    headers = inject_headers tracing ((trace_header, encoder.encode trace_id) ∷ []);
  }

  module _ {P : Type 0} ⦃client : Producer B P⦄ (uuid : ℕ → String) where
    abbrev pub publish_started :
        Tracing
        → Option String
        → String
        → String
        → M
        → Publisher P
        → ℕ
        → Option P
        → Publisher P × ℕ × Published
    publish_started tracing ambient topic key message p minted none = (p, minted, unstarted)
    publish_started tracing ambient topic key message p minted (some producer) =
        let (trace_id, minted') = current_trace_id uuid tracing ambient minted in
        after_send p topic minted'
          (client.send (outgoing tracing trace_id topic key message) producer)

    -- `minted` counts the calls of `uuid4`.
    unfoldable pub publish :
        Tracing
        → Option String
        → String
        → String
        → M
        → Publisher P
        → ℕ
        → Publisher P × ℕ × Published
    unfolding outgoing current_trace_id
    publish tracing ambient topic key message p minted =
        publish_started tracing ambient topic key message p minted p.producer

-- `__aenter__` and `__aexit__`, less the options of the producer.
abbrev pub enter : {P : Type 0} → P → Publisher P → Publisher P
enter producer p = record p { producer = some producer }

abbrev pub leave : {P : Type 0} → Publisher P → Publisher P
leave p = record p { producer = none }
