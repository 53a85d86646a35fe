-- ===== src/TrackRunner/Pruning.antt =====
-- The map of partitions does not outlive the tracks.
use airspace_conformance_pla.Base.{
  ℕ, ◌+◌, length, ◌≡◌, ◌∙◌, refl, ap, String, Bool, not, ◌&&◌, none, List, [], ◌∷◌, foldl, select,
  any, Float, arith, ◌==◌, string_eq, Dict, lookup, lookup-delete_all, delete, contains, keys,
  if◌then◌else◌,
}
use airspace_conformance_pla.Contracts.{Timestamp, TrackUpdate}
use airspace_conformance_pla.Kalman.{Algebra}
use airspace_conformance_pla.Estimator.{known_addresses, prune_terminated, sweep}
use airspace_conformance_pla.TrackRunner.{
  taken, TrackRunner, forget_pruned, publish_all, announce_sweep, sweep_now, flush, prune_after,
  has_ended,
}

any-select :
    (p : String → Bool) (ks : List String) (k : String)
    → any (λ j. j == k) (select p ks) ≡ (any (λ j. j == k) ks && p k)
any-select p [] k = refl
any-select p (j ∷ ks) k = ground (arith, any-select p ks k, string_eq.equals_iff j k)

any-keys-contains :
    {V : Type 0} (m : Dict String V) (k : String) → any (λ j. j == k) (keys m) ≡ contains k m
unfolding keys contains lookup
any-keys-contains [] k = refl
any-keys-contains ((j, v) ∷ m) k = ground (arith, any-keys-contains m k)

-- Deleting the keys that are not among some addresses.
lookup-delete_unknown :
    {V : Type 0} (m : Dict String ℕ) (tracks : Dict String V) (k : String)
    → lookup k
        (foldl (λ n j. delete j n) m (select (λ a. not (any (λ j. j == a) (keys tracks))) (keys m)))
      ≡ (if contains k tracks then lookup k m else none)
unfolding contains
lookup-delete_unknown m tracks k =
    lookup-delete_all (select (λ a. not (any (λ j. j == a) (keys tracks))) (keys m)) m k
    ∙ rw
        (
          any-select (λ a. not (any (λ j. j == a) (keys tracks))) (keys m) k,
          any-keys-contains m k,
          any-keys-contains tracks k,
        )
        (ground arith)

module _ {F S : Type 0} where
  -- The place of an aircraft is kept exactly if it still has a track.
  abbrev pub IsTrimmed : String → TrackRunner F S → TrackRunner F S → Type 0
  IsTrimmed k r s =
      lookup k s.partition_of
      ≡ (if contains k s.estimator.tracks then lookup k r.partition_of else none)

  forget_pruned-IsTrimmed :
      (now : Timestamp) (r : TrackRunner F S) (k : String) → IsTrimmed k r (forget_pruned now r)
  unfolding forget_pruned known_addresses
  forget_pruned-IsTrimmed now r k =
      let (e, _) = prune_terminated now prune_after r.estimator in
      lookup-delete_unknown r.partition_of e.tracks k

  publish_all-partition_of :
      (us : List (TrackUpdate F)) (r : TrackRunner F S)
      → (publish_all us r).0.partition_of ≡ r.partition_of
  unfolding publish_all
  publish_all-partition_of [] r = refl
  publish_all-partition_of (u ∷ us) r =
      publish_all-partition_of us (record r { published = r.published + 1 })

  announce_sweep-IsTrimmed :
      (done : ℕ) (now : Timestamp) (us : List (TrackUpdate F)) (r : TrackRunner F S) (k : String)
      → IsTrimmed k r (announce_sweep taken done now us r).0
  unfolding announce_sweep flush
  announce_sweep-IsTrimmed done now [] r k = forget_pruned-IsTrimmed now r k
  announce_sweep-IsTrimmed done now (u ∷ us) r k =
      let s = (publish_all (u ∷ us) r).0 in
      let ended = length (select has_ended (u ∷ us)) in
      let t = record s {
        pending = [];
        last_flush = done;
        terminated_count = s.terminated_count + ended;
      } in
      forget_pruned-IsTrimmed now t k
      ∙ ap
          (λ m.
            if contains k (announce_sweep taken done now (u ∷ us) r).0.estimator.tracks
            then lookup k m
            else none)
          (publish_all-partition_of (u ∷ us) r)

module _ {F S : Type 0} ⦃float : Float F⦄ ⦃algebra : Algebra F S⦄ where
  -- After a sweep whose writes the stores take, the map of partitions has an entry only for an aircraft that still has a track,
  -- and there it has the entry that it had.
  pub sweep_now-IsTrimmed :
      (done : ℕ) (now : Timestamp) (r : TrackRunner F S) (k : String)
      → IsTrimmed k r (sweep_now taken done now r).0
  unfolding sweep_now
  sweep_now-IsTrimmed done now r k =
      let (e, changed) = sweep now r.estimator in
      announce_sweep-IsTrimmed done now changed (record r { estimator = e }) k
