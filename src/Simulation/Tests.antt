-- ===== src/Simulation/Tests.antt =====
-- A simulation of two aircraft, of which one arrives later.
use airspace_conformance_pla.Base.{
  ℕ, zero, suc, ◌≡◌, refl, sym, ap, ◌∙◌, length, none, some, List, [], ◌∷◌, map, Option, String,
  string_eq,
}
use airspace_conformance_pla.Base.Whole.{ℤ, pos, whole, whole-IsOrdered}
use airspace_conformance_pla.Contracts.{SurveillanceReport}
use airspace_conformance_pla.Scenario.{model_validate, chars}
use airspace_conformance_pla.Flight.{World, initial_truth, apply_commands}
use airspace_conformance_pla.Simulation.{Simulation, start, perform_all}
use airspace_conformance_pla.Simulation.Apart.{perform_all-alone, alone}
use airspace_conformance_pla.Simulation.Ready.{about}
use airspace_conformance_pla.Simulation.Commands.{apply_commands_split}
use airspace_conformance_pla.Simulation.Names.{IsNumbered}
use airspace_conformance_pla.Simulation.Identities.{IsReadable, perform_all-identities}
use airspace_conformance_pla.Scenario.Accepted.{IsNodup}
use airspace_conformance_pla.Simulation.Samples.{
  flat_earth, counting, arrival, northbound, two_aircraft, rounds,
}

begun : Simulation ℤ ℕ
begun = start counting two_aircraft 1000

-- Both are lost in the first round, and heard in the second.
heard : Option (List String)
heard = elim (perform_all counting rounds begun) [
  | none ↦ none
  | some (sim, out) ↦ some (map (λ r. r.icao24) out)
]

who_is_heard : heard ≡ some ("abc123" ∷ "def456" ∷ [])
unfolding heard begun start perform_all
who_is_heard = refl

accepted : model_validate two_aircraft ≡ none
unfolding model_validate
accepted = refl

-- A world whose numbers are written as so many strokes.
abbrev strokes : ℕ → String
strokes zero = ""
strokes (suc n) = String.◌∷◌ "x" (strokes n)

abbrev tallying : World ℤ ℕ
tallying = record counting { padded = strokes }

chars-strokes : (n : ℕ) → chars (strokes n) ≡ n
chars-strokes zero = refl
chars-strokes (suc n) = ap suc (chars-strokes n)

tallying-IsReadable : IsReadable tallying
tallying-IsReadable n m e = sym (chars-strokes n) ∙ ap chars e ∙ chars-strokes m

abbrev flown : Option (Simulation ℤ ℕ × List (SurveillanceReport ℤ))
unfolding start perform_all
flown = perform_all tallying rounds (start tallying two_aircraft 1000)

-- What is there, or else what is said.
abbrev found : {A : Type 0} → A → Option A → A
found a none = a
found a (some b) = b

abbrev ended : Simulation ℤ ℕ × List (SurveillanceReport ℤ)
unfolding start perform_all
ended = found (start tallying two_aircraft 1000, []) flown

perform_all-identities_example :
    (ended.0.report_sequence ≡ length ended.1)
    × IsNumbered tallying "two-aircraft" 0 (length ended.1) ended.1
    × IsNodup (map (λ r. r.report_id) ended.1)
unfolding start perform_all
perform_all-identities_example =
    perform_all-identities tallying two_aircraft 1000 rounds ended.0 ended.1 tallying-IsReadable
      refl

abbrev together : Simulation ℤ ℕ × List (SurveillanceReport ℤ)
unfolding start perform_all
together =
    found (start counting two_aircraft 1000, [])
      (perform_all counting rounds (start counting two_aircraft 1000))

abbrev by_itself : Simulation ℤ ℕ × List (SurveillanceReport ℤ)
unfolding start perform_all
by_itself =
    found (start counting two_aircraft 1000, [])
      (perform_all counting rounds (start counting (alone counting two_aircraft arrival) 1000))

perform_all-alone_example : about "def456" together.1 ≡ about "def456" by_itself.1
unfolding start perform_all
perform_all-alone_example =
    perform_all-alone counting two_aircraft 1000 rounds (northbound ∷ []) [] arrival together
      by_itself refl accepted refl refl

apply_commands_split_example :
    apply_commands (pos 0) (pos 20) northbound.plan (initial_truth counting northbound)
    ≡ apply_commands
        (pos 10)
        (pos 20)
        northbound.plan
        (apply_commands (pos 0) (pos 10) northbound.plan (initial_truth counting northbound))
apply_commands_split_example =
    apply_commands_split whole-IsOrdered (pos 0) (pos 10) (pos 20) northbound.plan
      (initial_truth counting northbound) refl refl (refl, (refl, tt), (refl, tt, tt))
