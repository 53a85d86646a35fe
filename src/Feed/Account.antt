-- ===== src/Feed/Account.antt =====
-- services/feed/runner.py: what a run has published, and what it says of it.
use mathlib.Core.List.{append_assoc}
use mathlib.Core.Path.{subst}
use mathlib.Core.Option.{some_inj}
use airspace_conformance_pla.Base.{
  ℕ, zero, suc, ◌+◌, ◌≡◌, refl, sym, ap, ◌∙◌, String, Bool, true, false, Option, none, some, List,
  [], ◌∷◌, ◌++◌, map, length, Float, if◌then◌else◌, arith, Bool-cases, inl, inr,
}
use airspace_conformance_pla.Contracts.{Timestamp, SurveillanceReport}
use airspace_conformance_pla.Geodesy.Sphere.{Trig}
use airspace_conformance_pla.Messaging.Publisher.{Outgoing, Producer, Encoder, Tracing}
use airspace_conformance_pla.Messaging.RoundTrip.{IsProducer}
use airspace_conformance_pla.Flight.{World}
use airspace_conformance_pla.Simulation.{TruthState, Simulation, start, finished, truth}
use airspace_conformance_pla.Feed.Counts.{
  HasSent, HasSent-append, send_each-HasSent, send_report-HasSent, send_truth-HasSent,
  HasSent-nothing,
}
use airspace_conformance_pla.Feed.{
  Message, report, truth_state, Feed, FeedStats, FeedRunner, publish_reports, publish_truth_states,
  publish_truth_of, Outcome, complete, tick, loop, run, with_truth, with_reports, publish_step,
  after_tick,
}
use airspace_conformance_pla.Feed.Played.{
  or_none, all_of, truths_of, messages_of, played, reports_in, truths_in,
}

complete_inj : {a b : FeedStats} → complete a ≡ complete b → a ≡ b
complete_inj e = cc

module _ {B F G P : Type 0} ⦃float : Float F⦄ ⦃trig : Trig F⦄ (world : World F G)
    (encoder : Encoder B (Message F)) ⦃producer : Producer B P⦄ (log : P → List (Outgoing B))
    (logged : IsProducer log) (uuid : ℕ → String) (tracing : ℕ → Tracing)
    (runner : FeedRunner F) where
  truth_of-HasSent :
      (o : Option (List (TruthState F))) (feed feed' : Feed P) (n : ℕ)
      → publish_truth_of world encoder uuid tracing runner o feed ≡ (feed', some n)
      → HasSent encoder log uuid tracing (map truth_state (or_none o)) feed feed'
        × (n ≡ length (or_none o))
  unfolding publish_truth_states
  truth_of-HasSent none feed feed' n e = let e' = ap (λ x. x.1) e in cc
  truth_of-HasSent (some states) feed feed' n e =
      send_each-HasSent encoder log logged uuid tracing truth_state _
        (send_truth-HasSent encoder log logged uuid tracing) states feed feed' n e

  truths-HasSent :
      (sim : Simulation F G) (feed feed' : Feed P) (n : ℕ) (flag : Bool)
      → (if flag
          then publish_truth_of world encoder uuid tracing runner (truth world sim) feed
          else (feed, some 0))
        ≡ (feed', some n)
      → let truths = if flag then or_none (truth world sim) else [] in
        HasSent encoder log uuid tracing (map truth_state truths) feed feed' × (n ≡ length truths)
  truths-HasSent sim feed feed' n true e = truth_of-HasSent (truth world sim) feed feed' n e
  truths-HasSent sim feed feed' n false e = (
    HasSent-nothing encoder log uuid tracing feed feed' (ap (λ x. x.0) e),
    sym (some_inj.0 (ap (λ x. x.1) e)),
  )

  -- What a step that returns has sent and says.
  abbrev IsTicked : Feed P → Feed P → Simulation F G → List (SurveillanceReport F) → ℕ → ℕ → Type 0
  IsTicked feed feed' sim reports n k =
      HasSent encoder log uuid tracing (messages_of world runner sim reports) feed feed'
      × (n ≡ length reports)
      × (k ≡ length (truths_of world runner sim))

  with_truth-some :
      (sim sim' : Simulation F G) (n n' k : ℕ) (r : Feed P × Option ℕ) (feed' : Feed P)
      → with_truth world encoder uuid tracing runner sim n r ≡ (feed', some (sim', n', k))
      → (r ≡ (feed', some k)) × (sim ≡ sim') × (n ≡ n')
  with_truth-some sim sim' n n' k (feed, none) feed' e = let e' = ap (λ x. x.1) e in cc
  with_truth-some sim sim' n n' k (feed, some truths) feed' e =
      let f = some_inj.0 (ap (λ x. x.1) e) in
      (λ i. ((e i).0, some (f i).2), ap (λ x. x.0) f, ap (λ x. x.1) f)

  with_reports-some :
      (sim sim' : Simulation F G) (n k : ℕ) (reports : List (SurveillanceReport F))
      (feed feed' : Feed P) (r : Feed P × Option ℕ)
      → publish_reports encoder uuid tracing reports feed ≡ r
      → with_reports world encoder uuid tracing runner sim r ≡ (feed', some (sim', n, k))
      → (sim ≡ sim') × IsTicked feed feed' sim reports n k
  unfolding publish_reports
  with_reports-some sim sim' n k reports feed feed' (mid, none) p e = let e' = ap (λ x. x.1) e in cc
  with_reports-some sim sim' n k reports feed feed' (mid, some m) p e =
      let (f, same, count) = with_truth-some sim sim' m n k _ feed' e in
      let (sent_truth, truths) = truths-HasSent sim mid feed' k runner.publish_truth f in
      let (sent_reports, number) =
        send_each-HasSent encoder log logged uuid tracing report _
          (send_report-HasSent encoder log logged uuid tracing) reports feed mid m p in
      (
        same,
        (
          HasSent-append encoder log uuid tracing (map report reports) _ feed mid feed' sent_reports
              sent_truth,
          sym count ∙ number,
          truths,
        ),
      )

  publish_step-some :
      (o : Option (Simulation F G × List (SurveillanceReport F))) (feed feed' : Feed P)
      (sim' : Simulation F G) (n k : ℕ)
      → publish_step world encoder uuid tracing runner o feed ≡ (feed', some (sim', n, k))
      → (reports : List (SurveillanceReport F)) × (o ≡ some (sim', reports))
        × IsTicked feed feed' sim' reports n k
  publish_step-some none feed feed' sim' n k e = let e' = ap (λ x. x.1) e in cc
  publish_step-some (some (sim, reports)) feed feed' sim' n k e =
      let (same, (went, number, truths)) =
        with_reports-some sim sim' n k reports feed feed' _ refl e in
      (
        reports,
        (λ i. some (same i, reports)),
        subst (λ s. IsTicked feed feed' s reports n k) same (went, number, truths),
      )

  after_tick-complete :
      (rest : Simulation F G → FeedStats → Feed P → Feed P × Outcome) (stats stats' : FeedStats)
      (r : Feed P × Option (Simulation F G × ℕ × ℕ)) (feed' : Feed P)
      → after_tick world encoder uuid tracing runner rest stats r ≡ (feed', complete stats')
      → (mid : Feed P) × (sim : Simulation F G) × (n : ℕ) × (k : ℕ) × (r ≡ (mid, some (sim, n, k)))
        × (rest sim
              (record {
                steps = stats.steps + 1;
                reports_published = stats.reports_published + n;
                truth_published = stats.truth_published + k;
              })
              mid
            ≡ (feed', complete stats'))
  after_tick-complete rest stats stats' (mid, none) feed' e = let e' = ap (λ x. x.1) e in cc
  after_tick-complete rest stats stats' (mid, some (sim, n, k)) feed' e = (mid, sim, n, k, refl, e)

  -- The messages of the steps were sent, and the figures have grown by their numbers.
  abbrev pub IsAccounted :
      List (List (Message F)) → FeedStats → Feed P → FeedStats → Feed P → Type 0
  IsAccounted steps stats feed stats' feed' =
      HasSent encoder log uuid tracing (all_of steps) feed feed'
      × (stats'.steps ≡ stats.steps + length steps)
      × (stats'.reports_published ≡ stats.reports_published + reports_in (all_of steps))
      × (stats'.truth_published ≡ stats.truth_published + truths_in (all_of steps))

  IsAccounted-nothing :
      {stats stats' : FeedStats} {feed feed' : Feed P}
      → ◌≡◌ {A = Feed P × Outcome} (feed, complete stats) (feed', complete stats')
      → IsAccounted [] stats feed stats' feed'
  unfolding all_of
  IsAccounted-nothing {feed} {feed'} e =
      let same = complete_inj (ap (λ x. x.1) e) in
      (
        HasSent-nothing encoder log uuid tracing feed feed' (ap (λ x. x.0) e),
        omega (arith, ap (λ (x : FeedStats). x.steps) same),
        omega (arith, ap (λ (x : FeedStats). x.reports_published) same),
        omega (arith, ap (λ (x : FeedStats). x.truth_published) same),
      )

  reports_in-reports :
      (reports : List (SurveillanceReport F)) (rest : List (Message F))
      → (reports_in (map report reports ++ rest) ≡ length reports + reports_in rest)
        × (truths_in (map report reports ++ rest) ≡ truths_in rest)
  reports_in-reports [] rest = omega arith
  reports_in-reports (r ∷ reports) rest = omega (arith, reports_in-reports reports rest)

  truths_in-truths :
      (truths : List (TruthState F)) (rest : List (Message F))
      → (reports_in (map truth_state truths ++ rest) ≡ reports_in rest)
        × (truths_in (map truth_state truths ++ rest) ≡ length truths + truths_in rest)
  truths_in-truths [] rest = omega arith
  truths_in-truths (t ∷ truths) rest = omega (arith, truths_in-truths truths rest)

  reports_in-messages_of :
      (sim : Simulation F G) (reports : List (SurveillanceReport F)) (rest : List (Message F))
      → (reports_in (messages_of world runner sim reports ++ rest)
          ≡ length reports + reports_in rest)
        × (truths_in (messages_of world runner sim reports ++ rest)
            ≡ length (truths_of world runner sim) + truths_in rest)
  reports_in-messages_of sim reports rest =
      let later = map truth_state (truths_of world runner sim) ++ rest in
      let (p, q) = reports_in-reports reports later in
      let (f, g) = truths_in-truths (truths_of world runner sim) rest in
      rw (append_assoc (map report reports) (map truth_state (truths_of world runner sim)) rest)
        (p ∙ ap (λ n. length reports + n) f, q ∙ g)

  -- One step's account, and then the rest's.
  step-IsAccounted :
      (sim : Simulation F G) (reports : List (SurveillanceReport F))
      (rest : List (List (Message F))) (n k : ℕ) (stats stats' : FeedStats)
      (feed mid feed' : Feed P)
      → IsTicked feed mid sim reports n k
      → IsAccounted rest
          (record {
            steps = stats.steps + 1;
            reports_published = stats.reports_published + n;
            truth_published = stats.truth_published + k;
          })
          mid
          stats'
          feed'
      → IsAccounted (messages_of world runner sim reports ∷ rest) stats feed stats' feed'
  unfolding all_of
  step-IsAccounted sim reports rest n k stats stats' feed mid feed' (went, number, truths)
        (later, count, r, t) =
      let (p, q) = reports_in-messages_of sim reports (all_of rest) in
      (
        HasSent-append encoder log uuid tracing (messages_of world runner sim reports) (all_of rest)
            feed mid feed' went later,
        omega (arith, count),
        omega (arith, p, number, r),
        omega (arith, q, truths, t),
      )

  loop-IsAccounted :
      (m : ℕ) (sim : Simulation F G) (stats stats' : FeedStats) (feed feed' : Feed P)
      → loop world encoder uuid tracing runner m sim stats feed ≡ (feed', complete stats')
      → IsAccounted (played world runner m sim) stats feed stats' feed'
  unfolding loop tick played
  loop-IsAccounted zero sim stats stats' feed feed' e = let e' = ap (λ x. x.1) e in cc
  loop-IsAccounted (suc m) sim stats stats' feed feed' e = elim (Bool-cases (finished sim)) [
    | inl over ↦ rw over (IsAccounted-nothing (rw (over, loop) at e))
    | inr going ↦
        let (mid, sim', n, k, f, g) =
          after_tick-complete (loop world encoder uuid tracing runner m) stats stats'
            (tick world encoder uuid tracing runner sim feed) feed' (rw (going, loop) at e) in
        let (reports, h, ticked) = publish_step-some _ feed mid sim' n k f in
        let next : FeedStats = record {
          steps = stats.steps + 1;
          reports_published = stats.reports_published + n;
          truth_published = stats.truth_published + k;
        } in
        rw (going, h)
          (step-IsAccounted sim' reports (played world runner m sim') n k stats stats' feed mid
            feed' ticked (loop-IsAccounted m sim' next stats' mid feed' g))
  ]

  -- With a producer that logs what it sends: a run that completes has sent exactly the messages
  -- that its simulation gives by itself, step by step, in each step the reports and then, if truth
  -- is published, the truth states, each on its topic and with its address as the key. The trace id
  -- in a message's headers is that of the active span if there is one, and otherwise, for a report,
  -- a new `uuid4` of its own, and for a truth state the trace id of the run, or a new one if the run
  -- has none. The figures that the run returns are the numbers of the steps, of the reports and of
  -- the truth states.
  pub run-IsAccounted :
      (m : ℕ) (start_time : Timestamp) (feed feed' : Feed P) (stats : FeedStats)
      → run world encoder uuid tracing runner m start_time feed ≡ (feed', complete stats)
      → let steps = played world runner m (start world runner.scenario start_time) in
        HasSent encoder log uuid tracing (all_of steps) feed feed'
        × (stats.steps ≡ length steps)
        × (stats.reports_published ≡ reports_in (all_of steps))
        × (stats.truth_published ≡ truths_in (all_of steps))
  unfolding run
  run-IsAccounted m start_time feed feed' stats e =
      let none_yet : FeedStats = record { steps = 0; reports_published = 0; truth_published = 0 } in
      let (went, count, r, t) =
        loop-IsAccounted m (start world runner.scenario start_time) none_yet stats feed feed' e in
      (went, omega (arith, count), omega (arith, r), omega (arith, t))
