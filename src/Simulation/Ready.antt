-- ===== src/Simulation/Ready.antt =====
-- sim/engine.py: a step in time moves each aircraft by itself.
use airspace_conformance_pla.Base.{
  ◌≡◌, refl, sym, ap, ◌∙◌, String, Bool, true, false, Option, none, some, List, [], ◌∷◌, ◌++◌, map,
  select, Float, Dict, lookup, insert, lookup-insert_ne, string_eq, ◌==◌, ==_refl, ==_cases,
  ==_symm, arith, inl, inr, Ends, Ends-bind, Ends-any, Ends-always, ◌>>=◌,
}
use mathlib.Core.Path.{subst}
use mathlib.Core.Option.{some_inj}
use airspace_conformance_pla.Contracts.{SurveillanceReport}
use airspace_conformance_pla.Geodesy.Sphere.{Trig, project_forward}
use airspace_conformance_pla.Scenario.{
  AircraftSpec, Command, Order, turn_to, climb_to, change_speed, set_squawk,
}
use airspace_conformance_pla.Geodesy.{bearing_difference_deg, normalize_bearing}
use airspace_conformance_pla.Flight.{
  chase, AircraftTruth, obey, apply_commands, advance_aircraft, advance_one,
}
use airspace_conformance_pla.Simulation.{advance_all}

-- The states are each filed once, under its own address.
abbrev pub IsReady : {F : Type 0} → Dict String (AircraftTruth F) → Type 0
IsReady [] = Unit
IsReady ((k, s) ∷ states) = (s.icao24 ≡ k) × (lookup k states ≡ none) × IsReady states

-- What is computed, with what holds of it.
pub Ends-both :
    {A : Type 0} (P : A → Type 0) (m : Option A) → Ends P m → Ends (λ a. (m ≡ some a) × P a) m
Ends-both P none h = tt
Ends-both P (some a) h = (refl, h)

module _ {F : Type 0} ⦃float : Float F⦄ where
  icao24-obey : (o : Order F) (s : AircraftTruth F) → (obey o s).icao24 ≡ s.icao24
  icao24-obey (turn_to h r) s = refl
  icao24-obey (climb_to a r) s = refl
  icao24-obey (change_speed v a) s = refl
  icao24-obey (set_squawk q) s = refl

  icao24-apply_commands :
      (a b : F) (plan : List (Command F)) (s : AircraftTruth F)
      → (apply_commands a b plan s).icao24 ≡ s.icao24
  unfolding apply_commands
  icao24-apply_commands a b [] s = refl
  icao24-apply_commands a b (c ∷ plan) s =
      icao24-apply_commands a b plan _ ∙ ground (arith, icao24-obey c.order s)

module _ {F : Type 0} ⦃float : Float F⦄ ⦃trig : Trig F⦄ where
  abbrev IsOf : AircraftTruth F → AircraftTruth F → Type 0
  IsOf s t = t.icao24 ≡ s.icao24

  icao24-advance_aircraft :
      (dt_s : F) (up : Bool) (s : AircraftTruth F) → Ends (IsOf s) (advance_aircraft dt_s up s)
  unfolding advance_aircraft
  icao24-advance_aircraft dt_s false s = refl
  icao24-advance_aircraft dt_s true s =
      let turn =
        chase (bearing_difference_deg s.track_deg s.target_track_deg)
          (float.mul s.turn_rate_deg_s dt_s) in
      let speed_kt = float.add s.ground_speed_kt (
        chase (float.sub s.target_speed_kt s.ground_speed_kt)
          (float.mul s.acceleration_kt_s dt_s)) in
      Ends-bind (λ (p : F × F). Unit {0}) (IsOf s)
        (project_forward s.lat s.lon
          (normalize_bearing (float.add s.track_deg (float.div turn (float.literal 2))))
          (float.div (float.add s.ground_speed_kt speed_kt) (float.literal 2)) dt_s)
        _ (Ends-always _) (λ a _. refl)

  icao24-advance_one :
      (dt_s a b : F) (spec : AircraftSpec F) (s : AircraftTruth F)
      → Ends (IsOf s) (advance_one dt_s a b spec s)
  unfolding advance_one
  icao24-advance_one dt_s a b spec s =
      subst
        (λ (k : String). Ends (λ (t : AircraftTruth F). t.icao24 ≡ k) (advance_one dt_s a b spec s))
        (icao24-apply_commands a b spec.plan s)
        (icao24-advance_aircraft dt_s (float.le spec.entry_time_s b)
          (apply_commands a b spec.plan s))

  -- What a step in time makes of an aircraft, by its entries; `none` where it raises.
  abbrev pub moved :
      F
      → F
      → F
      → Option (AircraftTruth F)
      → Option (AircraftSpec F)
      → Option (Option (AircraftTruth F))
  moved dt_s a b none spec = some none
  moved dt_s a b (some s) none = none
  moved dt_s a b (some s) (some spec) = do t ← advance_one dt_s a b spec s; some (some t)

  abbrev pub IsMoved :
      F
      → F
      → F
      → Dict String (AircraftSpec F)
      → Dict String (AircraftTruth F)
      → Dict String (AircraftTruth F)
      → Type 0
  IsMoved dt_s a b specs states states' =
      IsReady states'
      × ((k : String) → moved dt_s a b (lookup k states) (lookup k specs) ≡ some (lookup k states'))

  pub advance_all-IsMoved :
      (dt_s a b : F) (specs : Dict String (AircraftSpec F)) (states : Dict String (AircraftTruth F))
      → IsReady states
      → Ends (IsMoved dt_s a b specs states) (advance_all dt_s a b specs states)
  unfolding advance_all lookup
  advance_all-IsMoved dt_s a b specs [] r = (tt, λ k. refl)
  advance_all-IsMoved dt_s a b specs ((k, s) ∷ states) (filed, fresh, r) =
      let IsAll = IsMoved dt_s a b specs ((k, s) ∷ states) in
      Ends-bind (λ spec. lookup k specs ≡ some spec) IsAll (lookup k specs) _
        (Ends-any (lookup k specs))
        (λ spec f.
          Ends-bind (λ t. (advance_one dt_s a b spec s ≡ some t) × (t.icao24 ≡ s.icao24)) IsAll
            (advance_one dt_s a b spec s) _
            (Ends-both (IsOf s) (advance_one dt_s a b spec s) (icao24-advance_one dt_s a b spec s))
            (λ t (e, own).
              Ends-bind (IsMoved dt_s a b specs states) IsAll (advance_all dt_s a b specs states) _
                (advance_all-IsMoved dt_s a b specs states r)
                (λ states' (r', m). (
                  (own ∙ filed, fresh_after k states states' (m k) fresh, r'),
                  λ j. elim (==_cases k j) [
                    | inl same ↦ rw (← same, ==_refl k, f, e) refl
                    | inr other ↦ rw other (m j)
                  ],
                ))))
    where
      fresh_after :
          (k : String) (states states' : Dict String (AircraftTruth F))
          → moved dt_s a b (lookup k states) (lookup k specs) ≡ some (lookup k states')
          → lookup k states ≡ none
          → lookup k states' ≡ none
      fresh_after k states states' m fresh =
          sym (some_inj.0 (ap (λ o. moved dt_s a b o (lookup k specs)) (sym fresh) ∙ m))

pub IsReady-insert :
    {F : Type 0} (states : Dict String (AircraftTruth F)) (k : String) (s : AircraftTruth F)
    → s.icao24 ≡ k
    → IsReady states
    → IsReady (insert k s states)
unfolding insert lookup
IsReady-insert [] k s filed r = (filed, refl, tt)
IsReady-insert ((j, w) ∷ states) k s filed (old, fresh, r) = elim (==_cases j k) [
  | inl same ↦ rw (same, ==_refl k) (filed, rw (← same) fresh, r)
  | inr other ↦ rw other (
    old,
    lookup-insert_ne k j s states (==_symm j k other) ∙ fresh,
    IsReady-insert states k s filed r,
  )
]

-- A report without its own identity, and the reports about one aircraft so.
abbrev blank : {F : Type 0} → SurveillanceReport F → SurveillanceReport F
blank r = record r { report_id = "" }

abbrev pub about : {F : Type 0} → String → List (SurveillanceReport F) → List (SurveillanceReport F)
about k out = map blank (select (λ r. r.icao24 == k) out)

pub about-append :
    {F : Type 0} (k : String) (xs ys : List (SurveillanceReport F))
    → about k (xs ++ ys) ≡ about k xs ++ about k ys
about-append k [] ys = refl
about-append k (x ∷ xs) ys = ground (arith, about-append k xs ys)
