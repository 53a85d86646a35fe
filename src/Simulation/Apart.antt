-- ===== src/Simulation/Apart.antt =====
-- sim/engine.py: each aircraft flies, and is observed, as if it were alone.
use mathlib.Core.Path.{subst}
use mathlib.Core.Option.{some_inj}
use airspace_conformance_pla.Base.{
  ◌≡◌, refl, sym, ap, ◌∙◌, String, false, none, some, Option, List, [], ◌∷◌, ◌++◌, map, foldl,
  Float, Dict, lookup, insert, from_pairs, string_eq, ◌==◌, any, arith, lookup-insert_self,
  lookup-insert_ne, Ends, Ends-bind, Ends-some, if_cases, ◌>>=◌,
}
use airspace_conformance_pla.Contracts.{Timestamp, SurveillanceReport}
use airspace_conformance_pla.Geodesy.Sphere.{Trig}
use airspace_conformance_pla.Scenario.{Scenario, AircraftSpec, model_validate}
use airspace_conformance_pla.Scenario.Accepted.{IsNodup, model_validate-checks}
use airspace_conformance_pla.Flight.{World, AircraftTruth, initial_truth}
use airspace_conformance_pla.Simulation.{
  Simulation, start, seed_for, now, advance, advance_all, observe, observe_all, Call, advancing,
  observing, perform, perform_all,
}
use airspace_conformance_pla.Simulation.Ready.{
  IsReady, IsReady-insert, about, about-append, moved, IsMoved, advance_all-IsMoved,
}
use airspace_conformance_pla.Simulation.Sharing.{share, IsObserved, observe_all-IsObserved}

-- What is kept for one aircraft: the time, its specification, its state and its generator.
abbrev pub View : Type 0 → Type 0 → Type 0
View F G = F × Option (AircraftSpec F) × Option (AircraftTruth F) × Option G

module _ {F G : Type 0} ⦃float : Float F⦄ ⦃trig : Trig F⦄ (world : World F G) where
  abbrev pub view : String → Simulation F G → View F G
  view k sim = (sim.elapsed_s, lookup k sim.specs, lookup k sim.state, lookup k sim.noise)

  -- One aircraft's own step, and what is seen of it; `none` where it raises.
  abbrev pub fly_once :
      Scenario F → Timestamp → Call F → View F G → Option (View F G × List (SurveillanceReport F))
  fly_once scenario start_time (advancing dt_s) (elapsed, spec, state, g) = do
    state' ← moved dt_s elapsed (float.add elapsed dt_s) state spec
    some ((float.add elapsed dt_s, spec, state', g), [])
  fly_once scenario start_time observing (elapsed, spec, state, g) = do
    seen ← share world scenario.scenario_id scenario.sensor (world.after start_time elapsed) state g
    some ((elapsed, spec, state, seen.1), seen.0)

  abbrev pub fly :
      Scenario F → Timestamp → List (Call F) → View F G → Option (List (SurveillanceReport F))
  fly scenario start_time [] v = some []
  fly scenario start_time (c ∷ calls) v = do
    seen ← fly_once scenario start_time c v
    rest ← fly scenario start_time calls seen.0
    some (seen.1 ++ rest)

  -- What a call leaves of a simulation, seen from every aircraft.
  abbrev pub IsFlown :
      Call F → Simulation F G → Simulation F G × List (SurveillanceReport F) → Type 0
  IsFlown c sim (sim', out) =
      IsReady sim'.state
      × (sim'.scenario ≡ sim.scenario)
      × (sim'.start_time ≡ sim.start_time)
      × ((k : String)
          → fly_once sim.scenario sim.start_time c (view k sim) ≡ some (view k sim', about k out))

  abbrev IsAdvanced : F → Simulation F G → Simulation F G → Type 0
  IsAdvanced dt_s sim sim' = IsFlown (advancing dt_s) sim (sim', [])

  advance-IsAdvanced :
      (dt_s : F) (sim : Simulation F G)
      → IsReady sim.state
      → Ends (IsAdvanced dt_s sim) (advance dt_s sim)
  unfolding advance
  advance-IsAdvanced dt_s sim ready =
      let to_s = float.add sim.elapsed_s dt_s in
      if_cases (Ends (IsAdvanced dt_s sim)) (float.le dt_s (float.literal 0)) none _
        (λ backward. tt)
        (λ forward.
          Ends-bind (IsMoved dt_s sim.elapsed_s to_s sim.specs sim.state) (IsAdvanced dt_s sim)
            (advance_all dt_s sim.elapsed_s to_s sim.specs sim.state) _
            (advance_all-IsMoved dt_s sim.elapsed_s to_s sim.specs sim.state ready)
            (λ states (ready', gone). (
              ready',
              refl,
              refl,
              λ k i.
                  gone k i >>= (λ t. some ((to_s, lookup k sim.specs, t, lookup k sim.noise), [])),
            )))

  perform-IsFlown :
      (c : Call F) (sim : Simulation F G)
      → IsReady sim.state
      → Ends (IsFlown c sim) (perform world c sim)
  unfolding perform observe now
  perform-IsFlown (advancing dt_s) sim ready =
      Ends-bind (IsAdvanced dt_s sim) (IsFlown (advancing dt_s) sim) (advance dt_s sim) _
        (advance-IsAdvanced dt_s sim ready) (λ sim' flown. flown)
  perform-IsFlown observing sim ready =
      let id = sim.scenario.scenario_id in
      let at = world.after sim.start_time sim.elapsed_s in
      Ends-bind (IsObserved world id sim.scenario.sensor at sim.noise sim.state)
        (IsFlown observing sim)
        (observe_all world id sim.scenario.sensor at sim.state sim.noise sim.report_sequence) _
        (observe_all-IsObserved world id sim.scenario.sensor at sim.state sim.noise
          sim.report_sequence ready)
        (λ (noise, number, out) seen. (
          ready,
          refl,
          refl,
          λ k i.
              seen k i
              >>= (λ x. some ((sim.elapsed_s, lookup k sim.specs, lookup k sim.state, x.1), x.0)),
        ))

  abbrev IsHeard :
      List (Call F) → Simulation F G → Simulation F G × List (SurveillanceReport F) → Type 0
  IsHeard calls sim (sim', out) =
      (k : String) → fly sim.scenario sim.start_time calls (view k sim) ≡ some (about k out)

  perform_all-IsHeard :
      (calls : List (Call F)) (sim : Simulation F G)
      → IsReady sim.state
      → Ends (IsHeard calls sim) (perform_all world calls sim)
  unfolding perform_all
  perform_all-IsHeard [] sim ready = λ k. refl
  perform_all-IsHeard (c ∷ calls) sim ready =
      Ends-bind (IsFlown c sim) (IsHeard (c ∷ calls) sim) (perform world c sim) _
        (perform-IsFlown c sim ready)
        (λ (sim', first) (ready', same, begun, flown).
          Ends-bind (IsHeard calls sim') (IsHeard (c ∷ calls) sim) (perform_all world calls sim') _
            (perform_all-IsHeard calls sim' ready')
            (λ (sim'', rest) later k.
              (λ i. flown k i >>= (λ x.
                fly sim.scenario sim.start_time calls x.0 >>= (λ more. some (x.1 ++ more))))
              ∙ (λ i.
                  fly (sym same i) (sym begun i) calls (view k sim')
                  >>= (λ more. some (about k first ++ more)))
              ∙ (λ i. later k i >>= (λ more. some (about k first ++ more)))
              ∙ ap some (sym (about-append k first rest))))

  -- A dictionary that is built from the aircraft, each under its own address.
  abbrev built :
      {V : Type 0} → (AircraftSpec F → V) → Dict String V → List (AircraftSpec F) → Dict String V
  built {V} f m xs =
      foldl (λ n (p : String × V). insert p.0 p.1 n) m (map (λ a. (a.icao24, f a)) xs)

  lookup-built_absent :
      {V : Type 0} (f : AircraftSpec F → V) (m : Dict String V) (xs : List (AircraftSpec F))
      (k : String)
      → any (λ y. y == k) (map (λ a. a.icao24) xs) ≡ false
      → lookup k (built f m xs) ≡ lookup k m
  lookup-built_absent f m [] k h = refl
  lookup-built_absent f m (a ∷ xs) k h =
      lookup-built_absent f (insert a.icao24 (f a) m) xs k (ground arith)
      ∙ lookup-insert_ne a.icao24 k (f a) m (ground arith)

  lookup-built :
      {V : Type 0} (f : AircraftSpec F → V) (m : Dict String V)
      (before after : List (AircraftSpec F)) (spec : AircraftSpec F)
      → any (λ y. y == spec.icao24) (map (λ a. a.icao24) after) ≡ false
      → lookup spec.icao24 (built f m (before ++ spec ∷ after)) ≡ some (f spec)
  lookup-built f m [] after spec h =
      lookup-built_absent f _ after spec.icao24 h ∙ lookup-insert_self spec.icao24 (f spec) m
  lookup-built f m (a ∷ before) after spec h =
      lookup-built f (insert a.icao24 (f a) m) before after spec h

  IsNodup-after :
      (before after : List (AircraftSpec F)) (spec : AircraftSpec F)
      → IsNodup (map (λ a. a.icao24) (before ++ spec ∷ after))
      → any (λ y. y == spec.icao24) (map (λ a. a.icao24) after) ≡ false
  IsNodup-after [] after spec d = d.0
  IsNodup-after (a ∷ before) after spec d = IsNodup-after before after spec d.1

  built-IsReady :
      (t : AircraftSpec F → AircraftTruth F) (states : Dict String (AircraftTruth F))
      (xs : List (AircraftSpec F))
      → ((a : AircraftSpec F) → (t a).icao24 ≡ a.icao24)
      → IsReady states
      → IsReady (built t states xs)
  built-IsReady t states [] filed r = r
  built-IsReady t states (a ∷ xs) filed r =
      built-IsReady t (insert a.icao24 (t a) states) xs filed
        (IsReady-insert states a.icao24 (t a) (filed a) r)

  start-IsReady : (scenario : Scenario F) (at : Timestamp) → IsReady (start world scenario at).state
  unfolding start initial_truth from_pairs
  start-IsReady scenario at = built-IsReady _ [] scenario.aircraft (λ a. refl) tt

  lookup-built_alone :
      {V : Type 0} (f : AircraftSpec F → V) (before after : List (AircraftSpec F))
      (spec : AircraftSpec F)
      → any (λ y. y == spec.icao24) (map (λ a. a.icao24) after) ≡ false
      → lookup spec.icao24 (built f [] (before ++ spec ∷ after))
        ≡ lookup spec.icao24 (built f [] (spec ∷ []))
  lookup-built_alone f before after spec h =
      lookup-built f [] before after spec h ∙ sym (lookup-built f [] [] [] spec refl)

  -- The scenario with one of its aircraft only.
  abbrev pub alone : Scenario F → AircraftSpec F → Scenario F
  alone scenario spec = record scenario { aircraft = spec ∷ [] }

  view-start :
      (scenario : Scenario F) (at : Timestamp) (before after : List (AircraftSpec F))
      (spec : AircraftSpec F)
      → scenario.aircraft ≡ (before ++ spec ∷ after)
      → IsNodup (map (λ a. a.icao24) scenario.aircraft)
      → view spec.icao24 (start world scenario at)
        ≡ view spec.icao24 (start world (alone scenario spec) at)
  unfolding start from_pairs
  view-start scenario at before after spec e d =
      let absent =
        IsNodup-after before after spec (subst (λ xs. IsNodup (map (λ a. a.icao24) xs)) e d) in
      let generator =
        λ (a : AircraftSpec F). world.generator (seed_for world scenario.seed a.icao24) in
      let own = λ (a : AircraftSpec F). a in
      λ i. (
        float.literal 0,
        (ap (λ xs. lookup spec.icao24 (built own [] xs)) e
              ∙ lookup-built_alone own before after spec absent)
            i,
        (ap (λ xs. lookup spec.icao24 (built (initial_truth world) [] xs)) e
              ∙ lookup-built_alone (initial_truth world) before after spec absent)
            i,
        (ap (λ xs. lookup spec.icao24 (built generator [] xs)) e
              ∙ lookup-built_alone generator before after spec absent)
            i,
      )

  -- In a scenario that is accepted, over any calls: if none of them raises, neither in the scenario
  -- nor in the one with a single aircraft of it, what is reported of that aircraft is the same in
  -- both, but for the identities of the reports.
  pub perform_all-alone :
      (scenario : Scenario F) (at : Timestamp) (calls : List (Call F))
      (before after : List (AircraftSpec F)) (spec : AircraftSpec F)
      (full single : Simulation F G × List (SurveillanceReport F))
      → scenario.aircraft ≡ (before ++ spec ∷ after)
      → model_validate scenario ≡ none
      → perform_all world calls (start world scenario at) ≡ some full
      → perform_all world calls (start world (alone scenario spec) at) ≡ some single
      → about spec.icao24 full.1 ≡ about spec.icao24 single.1
  unfolding start
  perform_all-alone scenario at calls before after spec full single e accepted p q =
      let distinct = ((model_validate-checks scenario).0 accepted).1 in
      let together = start world scenario at in
      let apart = start world (alone scenario spec) at in
      let heard =
        Ends-some (IsHeard calls together) (perform_all world calls together)
          (perform_all-IsHeard calls together (start-IsReady scenario at)) p in
      let heard_alone =
        Ends-some (IsHeard calls apart) (perform_all world calls apart)
          (perform_all-IsHeard calls apart (start-IsReady (alone scenario spec) at)) q in
      some_inj.0 (
        sym (heard spec.icao24)
        ∙ ap (fly scenario at calls) (view-start scenario at before after spec e distinct)
        ∙ heard_alone spec.icao24)
