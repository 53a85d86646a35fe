-- ===== src/Simulation/Sharing.antt =====
-- sim/engine.py: what a round of observation does to one aircraft, read off its own entries.
use airspace_conformance_pla.Base.{
  ℕ, ◌+◌, ◌≡◌, refl, sym, ap, ◌∙◌, String, false, Option, none, some, List, [], ◌∷◌, ◌++◌, Float,
  Dict, lookup, lookup-insert_ne, lookup-insert_self, string_eq, ◌==◌, ==_refl, ==_cases,
  Bool-cases, Option-cases, inl, inr, if◌then◌else◌, ◌>>=◌, Ends, Ends-bind, Ends-any, Ends-always,
  if_cases,
}
use mathlib.Core.Path.{subst}
use mathlib.Core.List.{append-nil}
use mathlib.Core.Option.{some_inj}
use airspace_conformance_pla.Contracts.{Timestamp, SurveillanceReport}
use airspace_conformance_pla.Geodesy.Sphere.{Trig}
use airspace_conformance_pla.Scenario.{SensorModel}
use airspace_conformance_pla.Flight.{World, AircraftTruth}
use airspace_conformance_pla.Sensor.{report_is_valid, checked_report, observe_one, sense}
use airspace_conformance_pla.Simulation.{observe_state, observe_all}
use airspace_conformance_pla.Simulation.Ready.{IsReady, Ends-both, about, about-append}

module _ {F G : Type 0} ⦃float : Float F⦄ ⦃trig : Trig F⦄ (world : World F G) where
  -- What is seen of one aircraft by its reports.
  abbrev pub peek :
      String
      → Option (List (SurveillanceReport F) × G)
      → Option (List (SurveillanceReport F) × Option G)
  peek k none = none
  peek k (some (out, g)) = some (about k out, some g)

  abbrev one : Option (SurveillanceReport F × G) → Option (List (SurveillanceReport F) × G)
  one o = do (report, g') ← o; some (report ∷ [], g')

  peek-checked_report :
      (k id : String) (r : SurveillanceReport F) (g : G)
      → peek k (one (checked_report world r g))
        ≡ peek k (one (checked_report world (record r { report_id = id }) g))
  unfolding checked_report report_is_valid
  peek-checked_report k id r g = elim (Bool-cases (report_is_valid r)) [
    | inl fine ↦ elim (Bool-cases (r.icao24 == k)) [
      | inl same ↦ rw (fine, same) refl
      | inr other ↦ rw (fine, other) refl
    ]
    | inr refused ↦ rw refused refl
  ]

module _ {F G : Type 0} ⦃float : Float F⦄ ⦃trig : Trig F⦄ (world : World F G) (scenario_id : String)
    (sensor : SensorModel F) (at : Option Timestamp) where
  abbrev seen : ℕ → AircraftTruth F → G → Option (List (SurveillanceReport F) × G)
  seen number s g = sense world scenario_id sensor at number s g

  peek-observe_one :
      (k : String) (n m : ℕ) (s : AircraftTruth F) (g : G)
      → peek world k (one world (observe_one world scenario_id sensor at n s g))
        ≡ peek world k (one world (observe_one world scenario_id sensor at m s g))
  unfolding observe_one
  peek-observe_one k n m s g = elim (Option-cases (trig.cos (trig.radians s.lat))) [
    | inl raised ↦ rw raised refl
    | inr (cosine, e) ↦ elim (Option-cases at) [
      | inl raised ↦ rw (e, raised) refl
      | inr (t, f) ↦ rw (e, f) (search (peek-checked_report world))
    ]
  ]

  -- The number of a report is in its identity only.
  peek-sense :
      (k : String) (n m : ℕ) (s : AircraftTruth F) (g : G)
      → peek world k (seen n s g) ≡ peek world k (seen m s g)
  unfolding sense
  peek-sense k n m s g =
      elim (Bool-cases (float.lt (world.random g).0 sensor.dropout_probability)) [
        | inl lost ↦ rw lost refl
        | inr heard ↦ rw heard (peek-observe_one k n m s (world.random g).1)
      ]

  -- Reports about no other aircraft.
  abbrev IsAbout : String → List (SurveillanceReport F) × G → Type 0
  IsAbout k (out, g) = (j : String) → (k == j) ≡ false → about j out ≡ []

  abbrev IsFrom : String → SurveillanceReport F × G → Type 0
  IsFrom k (r, g) = r.icao24 ≡ k

  checked_report-IsFrom :
      (r : SurveillanceReport F) (g : G) → Ends (IsFrom r.icao24) (checked_report world r g)
  unfolding checked_report
  checked_report-IsFrom r g =
      if_cases (Ends (IsFrom r.icao24)) (report_is_valid r) (some (r, g)) none (λ fine. refl)
        (λ refused. tt)

  observe_one-IsFrom :
      (n : ℕ) (s : AircraftTruth F) (g : G)
      → Ends (IsFrom s.icao24) (observe_one world scenario_id sensor at n s g)
  unfolding observe_one
  observe_one-IsFrom n s g =
      Ends-bind {A = F} (λ a. Unit {0}) (IsFrom s.icao24) (trig.cos (trig.radians s.lat)) _
        (Ends-always _)
        (λ cosine _.
          Ends-bind (λ a. Unit {0}) (IsFrom s.icao24) at _ (Ends-always at)
            (λ observed_at _. search checked_report-IsFrom))

  sense-IsAbout : (n : ℕ) (s : AircraftTruth F) (g : G) → Ends (IsAbout s.icao24) (seen n s g)
  unfolding sense
  sense-IsAbout n s g =
      if_cases (Ends (IsAbout s.icao24)) (float.lt (world.random g).0 sensor.dropout_probability) _
        _ (λ lost j other. refl)
        (λ heard.
          Ends-bind (IsFrom s.icao24) (IsAbout s.icao24)
            (observe_one world scenario_id sensor at n s (world.random g).1) _
            (observe_one-IsFrom n s (world.random g).1)
            (λ (r, g') filed j other. rw (filed, other) refl))

  -- What a round of observation gives of an aircraft, and its generator after it, by its entries;
  -- `none` where it raises.
  abbrev pub share :
      Option (AircraftTruth F) → Option G → Option (List (SurveillanceReport F) × Option G)
  share none g = some ([], g)
  share (some s) none = if s.airborne then none else some ([], none)
  share (some s) (some g) =
      if s.airborne then peek world s.icao24 (seen 0 s g) else some ([], some g)

  share_down :
      (s : AircraftTruth F) (g : Option G) → s.airborne ≡ false → share (some s) g ≡ some ([], g)
  share_down s none down = rw down refl
  share_down s (some g) down = rw down refl

  -- The shares of all aircraft in a round.
  abbrev pub IsObserved :
      Dict String G
      → Dict String (AircraftTruth F)
      → Dict String G × ℕ × List (SurveillanceReport F)
      → Type 0
  IsObserved noise states (noise', number, out) =
      (k : String) → share (lookup k states) (lookup k noise) ≡ some (about k out, lookup k noise')

  -- One aircraft of the round leaves the others alone.
  abbrev IsSensed :
      AircraftTruth F → Dict String G → Dict String G × ℕ × List (SurveillanceReport F) → Type 0
  IsSensed s noise (noise', number, out) =
      (share (some s) (lookup s.icao24 noise) ≡ some (about s.icao24 out, lookup s.icao24 noise'))
      × ((j : String)
          → (s.icao24 == j) ≡ false
          → (about j out ≡ []) × (lookup j noise' ≡ lookup j noise))

  observe_state-IsSensed :
      (s : AircraftTruth F) (noise : Dict String G) (n : ℕ)
      → Ends (IsSensed s noise) (observe_state world scenario_id sensor at s noise n)
  unfolding observe_state
  observe_state-IsSensed s noise n =
      if_cases (Ends (IsSensed s noise)) s.airborne _ _
        (λ up.
          Ends-bind (λ g. lookup s.icao24 noise ≡ some g) (IsSensed s noise) (lookup s.icao24 noise)
            _ (Ends-any (lookup s.icao24 noise))
            (λ g e.
              Ends-bind (λ x. (seen (n + 1) s g ≡ some x) × IsAbout s.icao24 x) (IsSensed s noise)
                (seen (n + 1) s g) _
                (Ends-both (IsAbout s.icao24) (seen (n + 1) s g) (sense-IsAbout (n + 1) s g))
                (λ (out, g') (f, about_it). (
                  rw (e, up)
                      (peek-sense s.icao24 0 (n + 1) s g ∙ ap (peek world s.icao24) f ∙ (λ i.
                        some (about s.icao24 out, sym (lookup-insert_self s.icao24 g' noise) i))),
                  λ j other. (about_it j other, lookup-insert_ne s.icao24 j g' noise other),
                ))))
        (λ down. (share_down s (lookup s.icao24 noise) down, λ j other. (refl, refl)))

  pub observe_all-IsObserved :
      (states : Dict String (AircraftTruth F)) (noise : Dict String G) (n : ℕ)
      → IsReady states
      → Ends (IsObserved noise states) (observe_all world scenario_id sensor at states noise n)
  unfolding observe_all lookup
  observe_all-IsObserved [] noise n r = λ k. refl
  observe_all-IsObserved ((k, s) ∷ states) noise n (filed, fresh, r) =
      let IsAll = IsObserved noise ((k, s) ∷ states) in
      Ends-bind (IsSensed s noise) IsAll (observe_state world scenario_id sensor at s noise n) _
        (observe_state-IsSensed s noise n)
        (λ (noise1, n1, first) (own, others).
          Ends-bind (IsObserved noise1 states) IsAll
            (observe_all world scenario_id sensor at states noise1 n1) _
            (observe_all-IsObserved states noise1 n1 r)
            (λ (noise2, n2, rest) observed j. elim (==_cases k j) [
              | inl same ↦
                  let mine =
                    subst
                      (λ x. share (some s) (lookup x noise) ≡ some (about x first, lookup x noise1))
                      filed own in
                  let unmoved : ◌≡◌ {A = List (SurveillanceReport F) × Option G}
                      ([], lookup k noise1) (about k rest, lookup k noise2) =
                    some_inj.0 (ap (λ o. share o (lookup k noise1)) (sym fresh) ∙ observed k) in
                  subst
                    (λ x.
                      share (lookup x ((k, s) ∷ states)) (lookup x noise)
                      ≡ some (about x (first ++ rest), lookup x noise2))
                    same
                    (rw (==_refl k) (
                      mine ∙ (λ i. some (
                        (sym (append-nil (about k first))
                              ∙ ap
                                  (λ (x : List (SurveillanceReport F) × Option G).
                                    about k first ++ x.0)
                                  unmoved
                              ∙ sym (about-append k first rest))
                            i,
                        (unmoved i).1,
                      ))))
              | inr other ↦
                  let (silent, kept) = others j (rw filed other) in
                  rw other (
                    ap (λ g. share (lookup j states) g) (sym kept) ∙ observed j ∙ (λ i. some (
                      (ap (λ l. l ++ about j rest) (sym silent) ∙ sym (about-append j first rest))
                          i,
                      lookup j noise2,
                    )))
            ]))
