-- ===== src/Feed/Counts.antt =====
-- services/feed/runner.py: what a run has published, and what it says of it.
use mathlib.Core.List.{append_assoc, append-nil}
use mathlib.Core.Option.{some_inj}
use mathlib.Core.Path.{subst}
use airspace_conformance_pla.Base.{
  ℕ, suc, ◌+◌, ◌≡◌, refl, sym, ap, ◌∙◌, String, Bool, true, false, Option, none, some, List, [],
  ◌∷◌, ◌++◌, map, length,
}
use airspace_conformance_pla.Contracts.{SurveillanceReport}
use airspace_conformance_pla.Messaging.Publisher.{
  Outgoing, Producer, Encoder, Tracing, Publisher, Published, sent, unstarted, failed, publish,
  outgoing, current_trace_id, inject_headers, after_send, publish_started,
}
use airspace_conformance_pla.Messaging.{trace_header}
use airspace_conformance_pla.Messaging.RoundTrip.{IsProducer, publish_started-sent}
use airspace_conformance_pla.Simulation.{TruthState}
use airspace_conformance_pla.Feed.{
  Message, report, truth_state, topic_of, key_of, Feed, returned, send_under, send_report,
  send_truth, and_one, counted, send_each,
}

-- The trace id that is current where a message is published, and how often `uuid4` has been called
-- by then: a report has a new one, a truth state that of the run.
abbrev pub ambient : {F : Type 0} → (ℕ → String) → Option String → Message F → ℕ → Option String × ℕ
ambient uuid t (report r) minted = (some (uuid minted), minted + 1)
ambient uuid t (truth_state s) minted = (t, minted)

-- The trace id that goes out with a message at the n-th call of the publisher, and the calls of
-- `uuid4` after that.
pub traced :
    {F : Type 0} → (ℕ → String) → (ℕ → Tracing) → Option String → ℕ → ℕ → Message F → String × ℕ
traced uuid tracing t n minted m =
    let (current, minted') = ambient uuid t m minted in
    current_trace_id uuid (tracing n) current minted'

module _ {B F : Type 0} (encoder : Encoder B (Message F)) (uuid : ℕ → String)
    (tracing : ℕ → Tracing) (t : Option String) where
  -- A message of the client is one of the feed, on its topic, with its key, its bytes and its trace
  -- id.
  abbrev pub Carries : ℕ → ℕ → Message F → Outgoing B → Type 0
  Carries n minted m out =
      (out.topic ≡ topic_of m)
      × (out.key ≡ encoder.encode (key_of m))
      × (out.value ≡ encoder.dump m)
      × (out.headers
          ≡ inject_headers encoder (tracing n)
              ((trace_header, encoder.encode (traced uuid tracing t n minted m).0) ∷ []))

  -- One after another, and no others, from some calls of the publisher and of `uuid4` to others.
  abbrev pub AreCarried : List (Message F) → List (Outgoing B) → ℕ × ℕ → ℕ × ℕ → Type 0
  AreCarried [] [] at to = at ≡ to
  AreCarried [] (out ∷ outs) at to = ⊥
  AreCarried (m ∷ ms) [] at to = ⊥
  AreCarried (m ∷ ms) (out ∷ outs) (n, minted) to =
      Carries n minted m out × AreCarried ms outs (n + 1, (traced uuid tracing t n minted m).1) to

  AreCarried-append :
      (ms ns : List (Message F)) (xs ys : List (Outgoing B)) (a b c : ℕ × ℕ)
      → AreCarried ms xs a b
      → AreCarried ns ys b c
      → AreCarried (ms ++ ns) (xs ++ ys) a c
  AreCarried-append [] ns [] ys a b c h k = subst (λ p. AreCarried ns ys p c) (sym h) k
  AreCarried-append [] ns (x ∷ xs) ys a b c h k = absurd h
  AreCarried-append (m ∷ ms) ns [] ys a b c h k = absurd h
  AreCarried-append (m ∷ ms) ns (x ∷ xs) ys (n, minted) b c h k =
      (h.0, AreCarried-append ms ns xs ys _ b c h.1 k)

module _ {B F P : Type 0} (encoder : Encoder B (Message F)) (log : P → List (Outgoing B))
    (uuid : ℕ → String) (tracing : ℕ → Tracing) where
  abbrev pub logs : Option P → List (Outgoing B)
  logs none = []
  logs (some p) = log p

  -- From one feed to another the log has grown by some messages of the feed, under its trace id.
  abbrev pub HasSent : List (Message F) → Feed P → Feed P → Type 0
  HasSent ms feed feed' =
      (outs : List (Outgoing B)) × (logs feed'.publisher.producer
        ≡ logs feed.publisher.producer ++ outs)
      × AreCarried encoder uuid tracing feed.trace_id ms outs (feed.calls, feed.minted)
          (feed'.calls, feed'.minted)
      × (feed'.trace_id ≡ feed.trace_id)

  pub HasSent-nothing : (feed feed' : Feed P) → feed ≡ feed' → HasSent [] feed feed'
  HasSent-nothing feed feed' e = (
    [],
    ap (λ (x : Feed P). logs x.publisher.producer) (sym e) ∙ sym (append-nil _),
    (λ i. ((e i).calls, (e i).minted)),
    ap (λ (x : Feed P). x.trace_id) (sym e),
  )

  pub HasSent-append :
      (ms ns : List (Message F)) (a b c : Feed P)
      → HasSent ms a b
      → HasSent ns b c
      → HasSent (ms ++ ns) a c
  HasSent-append ms ns a b c (xs, e, h, s) (ys, f, k, u) = (
    xs ++ ys,
    f ∙ ap (λ l. l ++ ys) e ∙ append_assoc _ xs ys,
    AreCarried-append encoder uuid tracing a.trace_id ms ns xs ys _ _ _ h (
        subst (λ t. AreCarried encoder uuid tracing t ns ys (b.calls, b.minted) (c.calls, c.minted))
          s k),
    u ∙ s,
  )

module _ {B F P : Type 0} (encoder : Encoder B (Message F)) ⦃producer : Producer B P⦄
    (log : P → List (Outgoing B)) (logged : IsProducer log) (uuid : ℕ → String)
    (tracing : ℕ → Tracing) where
  after_send-minted :
      (p p' : Publisher P) (topic : String) (n n' : ℕ) (r : Option P)
      → after_send p topic n r ≡ (p', n', sent)
      → n' ≡ n
  after_send-minted p p' topic n n' none e = let e' = ap (λ x. x.2) e in cc
  after_send-minted p p' topic n n' (some new) e = ap (λ x. x.1) (sym e)

  publish_started-minted :
      (trace : Tracing) (t : Option String) (topic key : String) (m : Message F)
      (p p' : Publisher P) (n n' : ℕ) (o : Option P)
      → publish_started encoder uuid trace t topic key m p n o ≡ (p', n', sent)
      → n' ≡ (current_trace_id uuid trace t n).1
  publish_started-minted trace t topic key m p p' n n' none e = let e' = ap (λ x. x.2) e in cc
  publish_started-minted trace t topic key m p p' n n' (some old) e =
      after_send-minted p p' topic _ n' _ e

  -- What a call that returns has logged: one message, under the trace id that was current.
  publish-IsLogged :
      (trace : Tracing) (t : Option String) (m : Message F) (p p' : Publisher P) (n n' : ℕ)
      (how : Published)
      → publish encoder uuid trace t (topic_of m) (key_of m) m p n ≡ (p', n', how)
      → returned how ≡ true
      → let id = current_trace_id uuid trace t n in
        (logs encoder log uuid tracing p'.producer
          ≡ logs encoder log uuid tracing p.producer
            ++ (outgoing encoder trace id.0 (topic_of m) (key_of m) m ∷ []))
        × (n' ≡ id.1)
  unfolding publish
  publish-IsLogged trace t m p p' n n' unstarted e h = cc
  publish-IsLogged trace t m p p' n n' failed e h = cc
  publish-IsLogged trace t m p p' n n' sent e h =
      let (old, new, f, g, done) =
        publish_started-sent encoder uuid trace t (topic_of m) (key_of m) m p p' n n' p.producer
          e in
      let id = (current_trace_id uuid trace t n).0 in
      let log_now = logs encoder log uuid tracing in
      (
        ap log_now g
            ∙ logged.log-send _ old new done
            ∙ ap (λ o. log_now o ++ (outgoing encoder trace id (topic_of m) (key_of m) m ∷ []))
                (sym f),
        publish_started-minted trace t (topic_of m) (key_of m) m p p' n n' p.producer e,
      )

  send_under-IsLogged :
      (t : Option String) (m : Message F) (feed : Feed P)
      → (send_under encoder uuid tracing t m feed).1 ≡ true
      → let feed' = (send_under encoder uuid tracing t m feed).0 in
        let id = current_trace_id uuid (tracing feed.calls) t feed.minted in
        (logs encoder log uuid tracing feed'.publisher.producer
          ≡ logs encoder log uuid tracing feed.publisher.producer
            ++ (outgoing encoder (tracing feed.calls) id.0 (topic_of m) (key_of m) m ∷ []))
        × (feed'.minted ≡ id.1)
  unfolding send_under
  send_under-IsLogged t m feed h =
      publish-IsLogged (tracing feed.calls) t m feed.publisher _ feed.minted _ _ refl h

  and_one-some : (o : Option ℕ) (n : ℕ) → and_one o ≡ some n → (k : ℕ) × (o ≡ some k) × (n ≡ suc k)
  and_one-some none n e = cc
  and_one-some (some k) n e = (k, refl, sym (some_inj.0 e))

  counted-some :
      (rest : Feed P → Feed P × Option ℕ) (r : Feed P × Bool) (feed' : Feed P) (n : ℕ)
      → counted encoder uuid tracing rest r ≡ (feed', some n)
      → (k : ℕ) × (r.1 ≡ true) × (rest r.0 ≡ (feed', some k)) × (n ≡ suc k)
  counted-some rest (feed, false) feed' n e = let e' = ap (λ x. x.1) e in cc
  counted-some rest (feed, true) feed' n e =
      let (k, f, g) = and_one-some (rest feed).1 n (ap (λ x. x.1) e) in
      (k, refl, λ i. ((e i).0, f i), g)

  pub send_each-HasSent :
      {A : Type 0} (as_message : A → Message F) (send : A → Feed P → Feed P × Bool)
      → ((x : A) (feed : Feed P)
          → (send x feed).1 ≡ true
          → HasSent encoder log uuid tracing (as_message x ∷ []) feed (send x feed).0)
      → (xs : List A) (feed feed' : Feed P) (n : ℕ)
      → send_each encoder uuid tracing send xs feed ≡ (feed', some n)
      → HasSent encoder log uuid tracing (map as_message xs) feed feed' × (n ≡ length xs)
  unfolding send_each
  send_each-HasSent as_message send one [] feed feed' n e = (
    HasSent-nothing encoder log uuid tracing feed feed' (ap (λ x. x.0) e),
    sym (some_inj.0 (ap (λ x. x.1) e)),
  )
  send_each-HasSent as_message send one (x ∷ xs) feed feed' n e =
      let (k, went, f, g) =
        counted-some (send_each encoder uuid tracing send xs) (send x feed) feed' n e in
      let (sent_rest, same) = send_each-HasSent as_message send one xs (send x feed).0 feed' k f in
      (
        HasSent-append encoder log uuid tracing (as_message x ∷ []) (map as_message xs) feed
            (send x feed).0 feed' (one x feed went) sent_rest,
        g ∙ ap suc same,
      )

  pub send_report-HasSent :
      (r : SurveillanceReport F) (feed : Feed P)
      → (send_report encoder uuid tracing r feed).1 ≡ true
      → HasSent encoder log uuid tracing
          (report r ∷ [])
          feed
          (send_report encoder uuid tracing r feed).0
  unfolding send_report send_under outgoing traced
  send_report-HasSent r feed h =
      let (e, m) =
        send_under-IsLogged (some (uuid feed.minted)) (report r)
          (record feed { minted = feed.minted + 1 }) h in
      (_, e, ((refl, refl, refl, refl), λ i. (feed.calls + 1, sym m i)), refl)

  pub send_truth-HasSent :
      (t : TruthState F) (feed : Feed P)
      → (send_truth encoder uuid tracing t feed).1 ≡ true
      → HasSent encoder log uuid tracing
          (truth_state t ∷ [])
          feed
          (send_truth encoder uuid tracing t feed).0
  unfolding send_truth send_under outgoing traced
  send_truth-HasSent t feed h =
      let (e, m) = send_under-IsLogged feed.trace_id (truth_state t) feed h in
      (_, e, ((refl, refl, refl, refl), λ i. (feed.calls + 1, sym m i)), refl)
