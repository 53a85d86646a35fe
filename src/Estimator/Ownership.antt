-- ===== src/Estimator/Ownership.antt =====
-- Releasing the aircraft of a partition, and pruning what has ended.
use airspace_conformance_pla.Base.{
  ℕ, ◌+◌, ◌≡◌, ◌∙◌, refl, none, lookup, delete, contains, string_eq, ◌==◌, arith, String, Dict,
  Distinct, lookup-delete, lookup-delete_where, found, delete-Distinct, any, length, List, [], ◌∷◌,
  if◌then◌else◌,
}
use airspace_conformance_pla.Contracts.{Timestamp}
use airspace_conformance_pla.Tracks.{TrackRecord}
use airspace_conformance_pla.Estimator.{TrackEstimator, release, prune_terminated, is_stale}

module _ {F S : Type 0} where
  -- After a release, an address is found exactly if it was not released, with the track it had.
  pub lookup-release :
      (ids : List String) (e : TrackEstimator F S) (k : String)
      → lookup k (release ids e).0.tracks
        ≡ (if any (λ j. j == k) ids then none else lookup k e.tracks)
  unfolding release
  lookup-release [] e k = refl
  lookup-release (j ∷ ids) e k =
      lookup-release ids (record e { tracks = delete j e.tracks }) k
      ∙ ground (arith, lookup-delete j k e.tracks)

  length-delete :
      (k : String) (m : Dict String (TrackRecord F S))
      → Distinct m
      → length (delete k m) + (if contains k m then 1 else 0) ≡ length m
  unfolding delete contains lookup
  length-delete k [] d = refl
  length-delete k ((j, r) ∷ m) d =
      ground (arith, length-delete k m d.1, string_eq.equals_iff j k, string_eq.equals_iff k j)

  -- From a dictionary that holds every address once, what a release reports is how many tracks it
  -- dropped.
  pub length-release :
      (ids : List String) (e : TrackEstimator F S)
      → Distinct e.tracks
      → (release ids e).1 + length (release ids e).0.tracks ≡ length e.tracks
  unfolding release
  length-release [] e d = omega arith
  length-release (j ∷ ids) e d = ground (
    arith,
    length-delete j e.tracks d,
    length-release ids (record e { tracks = delete j e.tracks }) (delete-Distinct j e.tracks d),
  )

  -- In a dictionary that holds every address once, pruning drops exactly the terminated tracks
  -- that were last heard of more than the given time ago, and leaves the others as they are.
  pub lookup-prune_terminated :
      (now : Timestamp) (older_than : ℕ) (e : TrackEstimator F S) (k : String)
      → Distinct e.tracks
      → lookup k (prune_terminated now older_than e).0.tracks
        ≡ (if found (is_stale now older_than) (lookup k e.tracks) then none else lookup k e.tracks)
  unfolding prune_terminated
  lookup-prune_terminated now older_than e k d =
      lookup-delete_where (is_stale now older_than) e.tracks k d
