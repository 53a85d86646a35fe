-- ===== src/ConflictTruth/Tests.antt =====
-- Two encounters of one pair, of which the first dips below the standard twice.
use mathlib.Core.List.{Perm}
use airspace_conformance_pla.Base.{
  ◌≡◌, refl, true, List, [], ◌∷◌, any, All, insert, lookup, names_eq, map, ℕ,
}
use airspace_conformance_pla.Base.Whole.{ℤ, pos, whole}
use airspace_conformance_pla.ConflictTruth.{
  Violation, TruthConflictFinder, sort_violations, runs_of, events,
}
use airspace_conformance_pla.ConflictTruth.Events.{covers}
use airspace_conformance_pla.ConflictTruth.Evidence.{IsBorne, events_lem}
use airspace_conformance_pla.ConflictTruth.Runs.{flatten, IsRun, AreApart, runs_of-AreRuns}
use airspace_conformance_pla.ConflictTruth.Sorting.{IsSorted}

abbrev dip : ℕ → Violation ℤ
dip at = record { pair = ("a", "b"); at = at; horizontal_nm = pos 3; vertical_ft = pos 500 }

-- Seconds 10, 80 and 20, in the order of observation.
abbrev dips : List (Violation ℤ)
dips = dip 10000000 ∷ dip 80000000 ∷ dip 20000000 ∷ []

abbrev finder : TruthConflictFinder ℤ
finder = record { horizontal_nm = pos 5; vertical_ft = pos 1000; violations = dips }

two_events :
    map {B = ℕ × ℕ} (λ e. (e.started_at, e.ended_at)) (events finder)
    ≡ (10000000, 20000000) ∷ (80000000, 80000000) ∷ []
unfolding events insert lookup
two_events = refl

runs_of-AreRuns_example :
    let runs = runs_of (sort_violations [] dips) in
    Perm (flatten runs) dips × IsSorted (flatten runs) × All IsRun runs × AreApart runs
runs_of-AreRuns_example = runs_of-AreRuns dips

events_lem_example :
    All (λ v. any (covers v.pair v.at) (events finder) ≡ true) dips
    × All (IsBorne dips) (events finder)
events_lem_example = events_lem finder
