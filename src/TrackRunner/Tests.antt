-- ===== src/TrackRunner/Tests.antt =====
-- Runs of the tracker, and its theorems at concrete inputs.
use airspace_conformance_pla.Base.{
  refl, ◌≡◌, ◌⊎◌, any, true, List, [], ◌∷◌, lookup, string_eq, nat_eq,
}
use airspace_conformance_pla.Base.Whole.{ℤ, whole}
use airspace_conformance_pla.Samples.{still, heard, idle, busy, fourth}
use airspace_conformance_pla.TrackRunner.Losses.{is_refused, perform_all-Balances}
use airspace_conformance_pla.TrackRunner.{
  taken, unrecorded, unshown, release_partitions, report_partitions,
}
use airspace_conformance_pla.TrackRunner.History.{
  Call, arrival, envelope, revoke, assign, tick, stop, perform_all, Balances, lost_of,
}
use airspace_conformance_pla.TrackRunner.Rebalance.{LetGo, release_partitions-LetGo}

-- History raises in the sweep.
abbrev day : List (Call ℤ)
day =
    arrival heard 4
    ∷ envelope taken 5 6 heard 4
    ∷ tick unrecorded 30 40
    ∷ revoke unshown 50 fourth
    ∷ envelope taken 60 61 heard 4
    ∷ assign fourth
    ∷ stop taken 70
    ∷ []

perform_all-Balances_example :
    Balances idle (perform_all day idle)
    × ((any is_refused day ≡ true) ⊎ (lost_of (perform_all day idle).1 ≡ []))
perform_all-Balances_example = perform_all-Balances day idle

release_partitions-LetGo_example : LetGo "abc123" 4 (release_partitions taken 50 fourth busy)
unfolding lookup report_partitions
release_partitions-LetGo_example = release_partitions-LetGo 50 fourth busy "abc123" 4 refl refl
