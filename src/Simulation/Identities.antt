-- ===== src/Simulation/Identities.antt =====
-- sim/engine.py: the identities of the reports of a whole simulation.
use text.Mathlib.TextLemmas.{append_cancel_left}
use airspace_conformance_pla.Base.{
  ℕ, ◌+◌, ◌≤◌, ◌≡◌, refl, sym, ◌∙◌, String, false, some, List, [], ◌∷◌, map, any, length, Float,
  string_eq, ◌==◌, join, arith, ==_cases, inl, inr, Ends-some,
}
use airspace_conformance_pla.Contracts.{Timestamp, SurveillanceReport}
use airspace_conformance_pla.Geodesy.Sphere.{Trig}
use airspace_conformance_pla.Scenario.{Scenario}
use airspace_conformance_pla.Scenario.Accepted.{IsNodup}
use airspace_conformance_pla.Flight.{World}
use airspace_conformance_pla.Simulation.{Simulation, start, Call, perform_all}
use airspace_conformance_pla.Simulation.Names.{name, IsNumbered, Continues, perform_all-Continues}

-- No two numbers are formatted alike.
abbrev pub IsReadable : {F G : Type 0} → World F G → Type 0
IsReadable world = (n m : ℕ) → world.padded n ≡ world.padded m → n ≡ m

module _ {F G : Type 0} ⦃float : Float F⦄ ⦃trig : Trig F⦄ (world : World F G) where
  name-injective :
      (scenario_id : String) (n m : ℕ)
      → IsReadable world
      → name world scenario_id n ≡ name world scenario_id m
      → n ≡ m
  unfolding join
  name-injective scenario_id n m readable e =
      readable n m (append_cancel_left "-" _ _ (append_cancel_left scenario_id _ _ e))

  length-IsNumbered :
      (scenario_id : String) (n m : ℕ) (out : List (SurveillanceReport F))
      → IsNumbered world scenario_id n m out
      → m ≡ n + length out
  unfolding join
  length-IsNumbered scenario_id n m [] h = omega (arith, h)
  length-IsNumbered scenario_id n m (r ∷ out) h =
      omega (arith, length-IsNumbered scenario_id (n + 1) m out h.1)

  -- A number that has been given is not given again.
  any-IsNumbered :
      (scenario_id : String) (k n m : ℕ) (out : List (SurveillanceReport F))
      → IsReadable world
      → k ≤ n
      → IsNumbered world scenario_id n m out
      → any (λ y. y == name world scenario_id k) (map (λ r. r.report_id) out) ≡ false
  unfolding join
  any-IsNumbered scenario_id k n m [] readable le h = refl
  any-IsNumbered scenario_id k n m (r ∷ out) readable le h =
      let rest = any-IsNumbered scenario_id k (n + 1) m out readable (omega (arith, le)) h.1 in
      elim (==_cases r.report_id (name world scenario_id k)) [
        | inl same ↦
            let e = name-injective scenario_id (n + 1) k readable (sym h.0 ∙ same) in
            absurd (omega (arith, e, le))
        | inr other ↦ rw other rest
      ]

  IsNodup-IsNumbered :
      (scenario_id : String) (n m : ℕ) (out : List (SurveillanceReport F))
      → IsReadable world
      → IsNumbered world scenario_id n m out
      → IsNodup (map (λ r. r.report_id) out)
  unfolding join
  IsNodup-IsNumbered scenario_id n m [] readable h = tt
  IsNodup-IsNumbered scenario_id n m (r ∷ out) readable h = (
    rw h.0 (any-IsNumbered scenario_id (n + 1) (n + 1) m out readable (omega arith) h.1),
    IsNodup-IsNumbered scenario_id (n + 1) m out readable h.1,
  )

  -- If no two numbers are formatted alike: over any calls of a simulation from its start, if none
  -- of them raises, the simulation counts its reports. They are named by the scenario and by the
  -- numbers from one on, in the order of observation, and no two have one identity.
  pub perform_all-identities :
      (scenario : Scenario F) (at : Timestamp) (calls : List (Call F)) (sim : Simulation F G)
      (out : List (SurveillanceReport F))
      → IsReadable world
      → perform_all world calls (start world scenario at) ≡ some (sim, out)
      → (sim.report_sequence ≡ length out)
        × IsNumbered world scenario.scenario_id 0 (length out) out
        × IsNodup (map (λ r. r.report_id) out)
  unfolding start join
  perform_all-identities scenario at calls sim out readable e =
      let begun = start world scenario at in
      let counted =
        Ends-some (Continues world begun) (perform_all world calls begun)
          (perform_all-Continues world calls begun) e in
      let total : sim.report_sequence ≡ length out =
        omega (arith, length-IsNumbered scenario.scenario_id 0 sim.report_sequence out counted.1) in
      (
        total,
        rw (← total) counted.1,
        IsNodup-IsNumbered scenario.scenario_id 0 sim.report_sequence out readable counted.1,
      )
