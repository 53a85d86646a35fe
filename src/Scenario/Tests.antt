-- ===== src/Scenario/Tests.antt =====
-- Scenarios that are accepted and refused.
use airspace_conformance_pla.Base.{◌≡◌, ◌↔◌, refl, false, none, some, [], ◌∷◌, map, All}
use airspace_conformance_pla.Base.Whole.{whole}
use airspace_conformance_pla.Scenario.{model_validate, duplicate_icao24}
use airspace_conformance_pla.Scenario.Accepted.{IsNodup}
use airspace_conformance_pla.Scenario.Bounds.{ScenarioBounds, model_validate-accepts}
use airspace_conformance_pla.Simulation.Samples.{two_aircraft, northbound}

accepted : model_validate two_aircraft ≡ none
unfolding model_validate
accepted = refl

refused :
    model_validate (record two_aircraft { aircraft = northbound ∷ northbound ∷ [] })
    ≡ some (duplicate_icao24 ("abc123" ∷ "abc123" ∷ []))
unfolding model_validate
refused = refl

model_validate-accepts_example : (model_validate two_aircraft ≡ none) ↔ (
    ScenarioBounds two_aircraft
    × IsNodup (map (λ a. a.icao24) two_aircraft.aircraft)
    × IsNodup (map (λ a. a.callsign) two_aircraft.aircraft)
    × All (λ a. whole.le two_aircraft.duration_s a.entry_time_s ≡ false) two_aircraft.aircraft)
model_validate-accepts_example = model_validate-accepts two_aircraft
