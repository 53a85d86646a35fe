-- ===== src/Messaging/RoundTrip.antt =====
-- common/messaging.py: what is published is what is delivered.
use airspace_conformance_pla.Base.{
  ℕ, ◌≡◌, refl, ap, sym, ◌∙◌, String, Bool, Option, none, some, List, [], ◌∷◌, ◌++◌, ◌==◌,
  string_eq, Bool-cases, inl, inr, if◌then◌else◌, arith,
}
use airspace_conformance_pla.Messaging.{
  Record, Consumer, Codec, Envelope, Subscriber, record_lag, trace_header, trace_id_from, key_of,
  settle, offer, open_record, deliver,
}
use airspace_conformance_pla.Messaging.Publisher.{
  Outgoing, Producer, Encoder, Tracing, Publisher, sent, current_trace_id, inject_headers, outgoing,
  publish, publish_started, after_send,
}

-- What is documented of the encodings: JSON and UTF-8 are read back as they were written, and only
-- the empty text has no bytes.
pub record IsInverse {B M : Type 0} (codec : Codec B M) (encoder : Encoder B M) : Type 0 where
  pub parse-dump : (m : M) → codec.parse (encoder.dump m) ≡ some m
  pub decode-encode : (s : String) → codec.decode (encoder.encode s) ≡ some s
  pub decode_replacing-encode : (s : String) → codec.decode_replacing (encoder.encode s) ≡ s
  pub is_empty-encode : (s : String) → codec.is_empty (encoder.encode s) ≡ (s == "")

-- What Kafka documents of a producer: a message that was sent is the next one of its log.
pub record IsProducer {B P : Type 0} ⦃client : Producer B P⦄ (log : P → List (Outgoing B))
    : Type 0 where
  pub log-send :
      (out : Outgoing B) (p p' : P) → client.send out p ≡ some p' → log p' ≡ log p ++ (out ∷ [])

-- The record that a consumer gets for a message, by its place.
abbrev pub stored : {B : Type 0} → Outgoing B → ℕ → ℕ → Record B
stored out partition offset = record {
  topic = out.topic;
  partition = partition;
  offset = offset;
  key = some out.key;
  value = out.value;
  headers = some out.headers;
}

-- The key of an envelope: an empty one counts as none.
abbrev pub received_key : String → Option String
received_key key = if key == "" then none else some key

-- What a consumer is given of a message.
abbrev pub received : {M : Type 0} → String → String → M → ℕ → ℕ → String → Envelope M
received topic key m partition offset trace_id = record {
  message = m;
  key = received_key key;
  topic = topic;
  partition = partition;
  offset = offset;
  trace_id = trace_id;
}

-- What a publication that returns went through.
module _ {B M P : Type 0} (encoder : Encoder B M) ⦃producer : Producer B P⦄
    (uuid : ℕ → String) where
  after_send-sent :
      (p p' : Publisher P) (topic : String) (n n' : ℕ) (r : Option P)
      → after_send p topic n r ≡ (p', n', sent)
      → (new : P) × (r ≡ some new) × (p'.producer ≡ some new)
  after_send-sent p p' topic n n' none e = let e' = ap (λ x. x.2) e in cc
  after_send-sent p p' topic n n' (some new) e = (new, refl, ap (λ x. x.0.producer) (sym e))

  pub publish_started-sent :
      (tracing : Tracing) (ambient : Option String) (topic key : String) (m : M)
      (p p' : Publisher P) (n n' : ℕ) (o : Option P)
      → publish_started encoder uuid tracing ambient topic key m p n o ≡ (p', n', sent)
      → let out =
          outgoing encoder tracing (current_trace_id uuid tracing ambient n).0 topic key m in
        (old : P) × (new : P) × (o ≡ some old)
        × (p'.producer ≡ some new)
        × (producer.send out old ≡ some new)
  publish_started-sent tracing ambient topic key m p p' n n' none e = let e' = ap (λ x. x.2) e in cc
  publish_started-sent tracing ambient topic key m p p' n n' (some old) e =
      let (new, f, g) = after_send-sent p p' topic _ n' _ e in (old, new, refl, g, f)

module _ {B M : Type 0} (codec : Codec B M) (encoder : Encoder B M)
    (inverse : IsInverse codec encoder) where
  open inverse use {parse-dump, decode-encode, decode_replacing-encode, is_empty-encode}

  trace_id_from-inject :
      (uuid : ℕ → String) (tracing : Tracing) (trace_id : String) (minted : ℕ)
      → trace_id_from codec uuid
          (some (inject_headers encoder tracing ((trace_header, encoder.encode trace_id) ∷ [])))
          minted
        ≡ (trace_id, minted)
  unfolding inject_headers trace_id_from
  trace_id_from-inject uuid tracing trace_id minted =
      let back = decode_replacing-encode trace_id in
      elim (Bool-cases tracing.available) [
        | inl on ↦ rw on (λ i. (back i, minted))
        | inr off ↦ rw off (λ i. (back i, minted))
      ]

  key_of-encode :
      (key : String) → key_of codec (some (encoder.encode key)) ≡ some (received_key key)
  key_of-encode key = ground (arith, is_empty-encode key, decode-encode key)

  module _ {C H : Type 0} ⦃client : Consumer B C⦄ (uuid : ℕ → String)
      (handle : Envelope M → H → H × Bool) where
    deliver-stored :
        (tracing : Tracing) (trace_id topic key : String) (m : M) (partition offset : ℕ)
        (s : Subscriber C) (h : H)
        → deliver codec uuid handle
            (stored (outgoing encoder tracing trace_id topic key m) partition offset)
            s
            h
          ≡ (let s' = record_lag B topic partition offset s in
              settle codec uuid handle s'.trace_id
                (record s' { trace_id = trace_id })
                (handle (received topic key m partition offset trace_id) h))
    unfolding deliver outgoing
    deliver-stored tracing trace_id topic key m partition offset s h =
        let s' = record_lag B topic partition offset s in
        let out = outgoing encoder tracing trace_id topic key m in
        let r = stored out partition offset in
        let traced = trace_id_from-inject uuid tracing trace_id s'.minted in
        (λ i.
          open_record codec uuid handle s'.trace_id r (parse-dump m i)
            (record s' { trace_id = (traced i).0; minted = (traced i).1 }) h)
        ∙ (λ i.
            offer codec uuid handle s'.trace_id r m (key_of-encode key i)
              (record s' { trace_id = trace_id }) h)

  -- With a producer that logs what it sends, and encodings that are read back: a message whose
  -- publication returns is the next one of the log, and whoever consumes it, at whatever place of
  -- its topic, is given the same message, its key unless that is empty, and the trace id that was
  -- current when it was published.
  pub publish-deliver :
      {P : Type 0} ⦃producer : Producer B P⦄ (log : P → List (Outgoing B)) (logged : IsProducer log)
      {C H : Type 0} ⦃client : Consumer B C⦄ (uuid uuid' : ℕ → String)
      (handle : Envelope M → H → H × Bool) (tracing : Tracing) (ambient : Option String)
      (topic key : String) (m : M) (p p' : Publisher P) (minted minted' : ℕ)
      → publish encoder uuid tracing ambient topic key m p minted ≡ (p', minted', sent)
      → let trace_id = (current_trace_id uuid tracing ambient minted).0 in
        (old : P) × (new : P) × (out : Outgoing B) × (p.producer ≡ some old)
        × (p'.producer ≡ some new)
        × (log new ≡ log old ++ (out ∷ []))
        × ((partition offset : ℕ) (s : Subscriber C) (h : H)
            → deliver codec uuid' handle (stored out partition offset) s h ≡ (
                let s' = record_lag B topic partition offset s in
                settle codec uuid' handle s'.trace_id
                  (record s' { trace_id = trace_id })
                  (handle (received topic key m partition offset trace_id) h)))
  unfolding publish
  publish-deliver ⦃producer⦄ log logged uuid uuid' handle tracing ambient topic key m p p' minted
        minted' e =
      let trace_id = (current_trace_id uuid tracing ambient minted).0 in
      let out = outgoing encoder tracing trace_id topic key m in
      let (old, new, f, g, done) =
        publish_started-sent encoder uuid tracing ambient topic key m p p' minted minted' p.producer
          e in
      (
        old,
        new,
        out,
        f,
        g,
        logged.log-send out old new done,
        deliver-stored uuid' handle tracing trace_id topic key m,
      )
