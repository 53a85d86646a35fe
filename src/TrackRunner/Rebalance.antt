-- ===== src/TrackRunner/Rebalance.antt =====
-- What a runner lets go of when partitions are taken away.
use mathlib.Core.List.{append-nil}
use mathlib.Core.Path.{subst}
use airspace_conformance_pla.Base.{
  ℕ, ◌+◌, ◌≡◌, ◌∙◌, refl, sym, String, Bool, true, false, none, some, List, [], ◌∷◌, ◌++◌, map,
  length, select, any, All, All-map, Float, arith, ◌==◌, nat_eq, string_eq, Dict, lookup, insert,
  keys, lookup-delete_all, Distinct,
}
use airspace_conformance_pla.Contracts.{SurveillanceReport, TrackUpdate}
use airspace_conformance_pla.Kalman.{Algebra}
use airspace_conformance_pla.Tracks.{track_id_for}
use airspace_conformance_pla.Estimator.Ownership.{lookup-release}
use airspace_conformance_pla.TrackRunner.{
  Write, taken, arrive, Effect, shown, TrackRunner, Step, TopicPartition, report_partitions,
  write_batch, show, not_excluded, flush, give_up, release_partitions, handle, consume,
  addresses_on, is_member,
}
use airspace_conformance_pla.TrackRunner.History.{sent_of, write_batch-lem}

module _ {F : Type 0} where
  -- All that was written to the live picture.
  abbrev pub shown_of : List (Effect F) → List (TrackUpdate F)
  shown_of [] = []
  shown_of (shown us ∷ fx) = us ++ shown_of fx
  shown_of (_ ∷ fx) = shown_of fx

  All-select_test :
      (p : TrackUpdate F → Bool) (us : List (TrackUpdate F)) → All (λ u. p u ≡ true) (select p us)
  All-select_test p [] = tt
  All-select_test p (u ∷ us) = ground (arith, All-select_test p us)

  shown_of-show : (us : List (TrackUpdate F)) → shown_of (show us) ≡ us
  shown_of-show [] = refl
  shown_of-show (u ∷ us) = append-nil (u ∷ us)

  shown_of-write_batch :
      (exclude : List String) (us : List (TrackUpdate F))
      → All (λ u. not_excluded exclude u ≡ true) (shown_of (write_batch exclude us))
  shown_of-write_batch exclude [] = tt
  shown_of-write_batch exclude (u ∷ us) =
      subst (λ ws. All (λ w. not_excluded exclude w ≡ true) ws) (sym (shown_of-show _))
        (All-select_test (not_excluded exclude) (u ∷ us))

pub any-addresses_on :
    (ps : List ℕ) (m : Dict String ℕ) (k : String) (p : ℕ)
    → lookup k m ≡ some p
    → is_member p ps ≡ true
    → any (λ j. j == k) (addresses_on ps m) ≡ true
unfolding lookup keys
any-addresses_on ps [] k p h i = absurd (cc)
any-addresses_on ps ((j, q) ∷ m) k p h i = ground (arith, any-addresses_on ps m k p)

any-addresses_on-none :
    (ps : List ℕ) (m : Dict String ℕ) (k : String)
    → lookup k m ≡ none
    → any (λ j. j == k) (addresses_on ps m) ≡ false
unfolding lookup keys
any-addresses_on-none ps [] k h = refl
any-addresses_on-none ps ((j, q) ∷ m) k h = ground (arith, any-addresses_on-none ps m k)

any-addresses_on-other :
    (ps : List ℕ) (m : Dict String ℕ) (k : String) (p : ℕ)
    → Distinct m
    → lookup k m ≡ some p
    → is_member p ps ≡ false
    → any (λ j. j == k) (addresses_on ps m) ≡ false
unfolding lookup keys
any-addresses_on-other ps [] k p d h i = absurd (cc)
any-addresses_on-other ps ((j, q) ∷ m) k p d h i = ground (
  arith,
  string_eq.equals_iff j k,
  any-addresses_on-none ps m j,
  any-addresses_on-other ps m k p d.1,
)

module _ {F : Type 0} where
  -- What is not excluded is not about an aircraft that is.
  not_excluded-differ :
      (ks : List String) (k : String) (u : TrackUpdate F)
      → any (λ j. j == k) ks ≡ true
      → not_excluded (map track_id_for ks) u ≡ true
      → (track_id_for k == u.track_id) ≡ false
  not_excluded-differ [] k u h i = absurd (cc)
  not_excluded-differ (j ∷ ks) k u h i =
      ground (arith, string_eq.equals_iff j k, not_excluded-differ ks k u)

module _ {F S : Type 0} where
  -- The runner has let an aircraft go, and said nothing of it to the shared picture.
  pub record LetGo (k : String) (p : ℕ) (u : Step F S) : Type 0 where
    pub untracked : lookup k u.0.estimator.tracks ≡ none
    pub unplaced : lookup k u.0.partition_of ≡ none
    pub refused : is_member p u.0.revoked ≡ true
    pub unpublished : sent_of u.1 ≡ []
    pub unshown : All (λ w. (track_id_for k == w.track_id) ≡ false) (shown_of u.1)

  give_up-LetGo :
      (done : ℕ) (ps : List ℕ) (r : TrackRunner F S) (k : String) (p : ℕ)
      → lookup k r.partition_of ≡ some p
      → is_member p ps ≡ true
      → LetGo k p (give_up taken done ps r)
  unfolding give_up flush
  give_up-LetGo done [] r k p h i = absurd (cc)
  give_up-LetGo done (q ∷ ps) r k p h i =
      let ks = addresses_on (q ∷ ps) r.partition_of in
      let j = any-addresses_on (q ∷ ps) r.partition_of k p h i in
      record {
        untracked = lookup-release ks r.estimator k ∙ rw j refl;
        unplaced = lookup-delete_all ks r.partition_of k ∙ rw j refl;
        refused = any-append p (q ∷ ps) r.revoked i;
        unpublished = (write_batch-lem (map track_id_for ks) r.pending).0;
        unshown =
            All-map _ _ _ (λ u. not_excluded-differ ks k u j)
              (shown_of-write_batch (map track_id_for ks) r.pending);
      }
    where
      any-append : (x : ℕ) (xs ys : List ℕ) → is_member x xs ≡ true → is_member x (xs ++ ys) ≡ true
      any-append x [] ys i = absurd (cc)
      any-append x (y ∷ xs) ys i = ground (arith, any-append x xs ys)

  -- When partitions of the reports' topic are taken away, and the stores take the buffer: every
  -- aircraft on them is dropped from the estimator and from the map of partitions, its partition is
  -- among the revoked ones, nothing at all is published, and no buffered update about it is written
  -- to the live picture.
  pub release_partitions-LetGo :
      (done : ℕ) (tps : List TopicPartition) (r : TrackRunner F S) (k : String) (p : ℕ)
      → lookup k r.partition_of ≡ some p
      → is_member p (report_partitions tps) ≡ true
      → LetGo k p (release_partitions taken done tps r)
  unfolding release_partitions
  release_partitions-LetGo done tps r k p h i = give_up-LetGo done (report_partitions tps) r k p h i

  give_up-others :
      (done : ℕ) (ps : List ℕ) (r : TrackRunner F S) (k : String) (p : ℕ)
      → Distinct r.partition_of
      → lookup k r.partition_of ≡ some p
      → is_member p ps ≡ false
      → (lookup k (give_up taken done ps r).0.estimator.tracks ≡ lookup k r.estimator.tracks)
        × (lookup k (give_up taken done ps r).0.partition_of ≡ some p)
  unfolding give_up flush
  give_up-others done [] r k p d h i = (refl, h)
  give_up-others done (q ∷ ps) r k p d h i =
      let ks = addresses_on (q ∷ ps) r.partition_of in
      let j = any-addresses_on-other (q ∷ ps) r.partition_of k p d h i in
      (lookup-release ks r.estimator k ∙ rw j refl, lookup-delete_all ks r.partition_of k ∙ rw j h)

  -- In a map of partitions that names every aircraft once, an aircraft on a partition that stays
  -- keeps its track and its place.
  pub release_partitions-others :
      (done : ℕ) (tps : List TopicPartition) (r : TrackRunner F S) (k : String) (p : ℕ)
      → Distinct r.partition_of
      → lookup k r.partition_of ≡ some p
      → is_member p (report_partitions tps) ≡ false
      → (lookup k (release_partitions taken done tps r).0.estimator.tracks
          ≡ lookup k r.estimator.tracks)
        × (lookup k (release_partitions taken done tps r).0.partition_of ≡ some p)
  unfolding release_partitions
  release_partitions-others done tps r k p d h i =
      give_up-others done (report_partitions tps) r k p d h i

-- A report in flight: the clock when it is handled, and its partition.
pub record InFlight (F : Type 0) : Type 0 where
  pub report : SurveillanceReport F
  pub partition : ℕ
  pub now : ℕ

module _ {F S : Type 0} ⦃float : Float F⦄ ⦃algebra : Algebra F S⦄ where
  unfoldable pub consume_all : Write → List (InFlight F) → TrackRunner F S → Step F S
  unfolding consume
  consume_all write [] r = (r, [])
  consume_all write (f ∷ fs) r =
      let (s, fx) = consume write f.now f.now f.report f.partition r in
      let (t, gx) = consume_all write fs s in (t, fx ++ gx)

  abbrev pub marked : InFlight F → TrackRunner F S → TrackRunner F S
  marked f r = record r {
    partition_of = insert f.report.icao24 f.partition r.partition_of;
    discarded = r.discarded + 1;
  }

  consume-revoked :
      (write : Write) (f : InFlight F) (r : TrackRunner F S)
      → is_member f.partition r.revoked ≡ true
      → consume write f.now f.now f.report f.partition r ≡ (marked f r, [])
  unfolding consume handle arrive
  consume-revoked write f r h = rw h refl

  -- What stays as it was, `n` discarded reports later.
  abbrev pub Discards : ℕ → TrackRunner F S → Step F S → Type 0
  Discards n r u =
      (u.1 ≡ [])
      × (u.0.estimator ≡ r.estimator)
      × (u.0.pending ≡ r.pending)
      × (u.0.discarded ≡ r.discarded + n)

  -- However many reports of revoked partitions are still in flight, none has an effect, none touches
  -- a track or the buffer, and each is counted as discarded.
  pub consume_all-revoked :
      (write : Write) (fs : List (InFlight F)) (r : TrackRunner F S)
      → All (λ f. is_member f.partition r.revoked ≡ true) fs
      → Discards (length fs) r (consume_all write fs r)
  unfolding consume_all
  consume_all-revoked write [] r h = (refl, refl, refl, omega arith)
  consume_all-revoked write (f ∷ fs) r h =
      let rest = consume_all-revoked write fs (marked f r) h.1 in
      subst
        (λ (p : Step F S).
          Discards (length (f ∷ fs)) r
            ((consume_all write fs p.0).0, p.1 ++ (consume_all write fs p.0).1))
        (sym (consume-revoked write f r h.0)) (rest.0, rest.1, rest.2, rest.3 ∙ omega arith)
