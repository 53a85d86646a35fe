-- ===== src/TrackRunner/Losses.antt =====
-- services/track/runner.py: what is lost to history, and what is not.
use airspace_conformance_pla.Base.{
  ℕ, ◌+◌, ◌≡◌, ◌∙◌, refl, String, Bool, true, false, ◌||◌, List, [], ◌∷◌, ◌++◌, length, leb, select,
  any, Float, if_cases, map, Bool-cases, inl, inr, ◌⊎◌, arith,
}
use airspace_conformance_pla.Contracts.{Timestamp, SurveillanceReport, TrackUpdate}
use airspace_conformance_pla.Kalman.{Algebra}
use airspace_conformance_pla.Tracks.{track_id_for}
use airspace_conformance_pla.Estimator.{on_report, sweep}
use airspace_conformance_pla.TrackRunner.{
  Write, taken, unrecorded, unshown, Effect, sent, TrackRunner, Step, report_partitions,
  write_batch, show, not_excluded, returns, write_part, flush, give_up, release_partitions, publish,
  publish_all, handle, sweep_now, announce_sweep, addresses_on, has_ended, forget_ended, is_member,
}
use airspace_conformance_pla.TrackRunner.History.{
  Call, arrival, envelope, revoke, assign, tick, stop, perform, perform_all, Balances, balance_all,
  lost_of, lost_of-append,
}

-- History raises on a batch.
abbrev pub refuses : Write → Bool
refuses taken = false
refuses unrecorded = true
refuses unshown = false

abbrev pub is_refused : {F : Type 0} → Call F → Bool
is_refused (arrival report p) = false
is_refused (envelope write now done report p) = refuses write
is_refused (revoke write done tps) = refuses write
is_refused (assign tps) = false
is_refused (tick write done now) = refuses write
is_refused (stop write done) = refuses write

module _ {F : Type 0} where
  lost_of-show : (us : List (TrackUpdate F)) → lost_of (show us) ≡ []
  lost_of-show [] = refl
  lost_of-show (u ∷ us) = refl

  lost_of-write_batch :
      (exclude : List String) (us : List (TrackUpdate F)) → lost_of (write_batch exclude us) ≡ []
  lost_of-write_batch exclude [] = refl
  lost_of-write_batch exclude (u ∷ us) = lost_of-show (select (not_excluded exclude) (u ∷ us))

  lost_of-write_part :
      (write : Write) (us : List (TrackUpdate F))
      → refuses write ≡ false
      → lost_of (write_part write us) ≡ []
  lost_of-write_part taken us h = refl
  lost_of-write_part unrecorded us h = absurd (cc)
  lost_of-write_part unshown us h = refl

  lost_of-forget_ended : (us : List (TrackUpdate F)) → lost_of (forget_ended us) ≡ []
  lost_of-forget_ended [] = refl
  lost_of-forget_ended (u ∷ us) = refl

  both_empty :
      (fx gx : List (Effect F)) → lost_of fx ≡ [] → lost_of gx ≡ [] → lost_of (fx ++ gx) ≡ []
  both_empty fx gx h k = lost_of-append fx gx ∙ λ i. h i ++ k i

module _ {F S : Type 0} where
  -- A step loses nothing.
  abbrev Keeps : Step F S → Type 0
  Keeps u = lost_of u.1 ≡ []

  flush-Keeps :
      (write : Write) (done : ℕ) (exclude : List String) (r : TrackRunner F S)
      → refuses write ≡ false
      → Keeps (flush write done exclude r)
  unfolding flush
  flush-Keeps write done exclude r h =
      if_cases Keeps (returns write exclude r.pending) _ _
        (λ all. lost_of-write_batch exclude r.pending)
        (λ part. lost_of-write_part write r.pending h)

  give_up-Keeps :
      (write : Write) (done : ℕ) (ps : List ℕ) (r : TrackRunner F S)
      → refuses write ≡ false
      → Keeps (give_up write done ps r)
  unfolding give_up
  give_up-Keeps write done [] r h = refl
  give_up-Keeps write done (p ∷ ps) r h =
      let exclude = map track_id_for (addresses_on (p ∷ ps) r.partition_of) in
      let marked = record r { revoked = (p ∷ ps) ++ r.revoked } in
      if_cases Keeps (returns write exclude r.pending) _ _
        (λ all. flush-Keeps write done exclude marked h)
        (λ part. flush-Keeps write done exclude marked h)

  publish_all-Keeps : (us : List (TrackUpdate F)) (r : TrackRunner F S) → Keeps (publish_all us r)
  unfolding publish_all publish
  publish_all-Keeps [] r = refl
  publish_all-Keeps (u ∷ us) r = publish_all-Keeps us (record r { published = r.published + 1 })

  announce_sweep-Keeps :
      (write : Write) (done : ℕ) (now : Timestamp) (us : List (TrackUpdate F)) (r : TrackRunner F S)
      → refuses write ≡ false
      → Keeps (announce_sweep write done now us r)
  unfolding announce_sweep
  announce_sweep-Keeps write done now [] r h = refl
  announce_sweep-Keeps write done now (u ∷ us) r h =
      let changed = u ∷ us in
      let s = (publish_all changed r).0 in
      let t = record s { pending = s.pending ++ changed } in
      let fx = (publish_all changed r).1 in
      let gx = (flush write done [] t).1 in
      let published = publish_all-Keeps changed r in
      let flushed = flush-Keeps write done [] t h in
      if_cases Keeps (returns write [] t.pending) _ _
        (λ whole.
          both_empty (fx ++ gx) (forget_ended (select has_ended changed))
            (both_empty fx gx published flushed) (lost_of-forget_ended (select has_ended changed)))
        (λ part. both_empty fx gx published flushed)

module _ {F S : Type 0} ⦃float : Float F⦄ ⦃algebra : Algebra F S⦄ where
  handle-Keeps :
      (write : Write) (now done : ℕ) (report : SurveillanceReport F) (p : ℕ) (r : TrackRunner F S)
      → refuses write ≡ false
      → Keeps (handle write now done report p r)
  unfolding handle publish
  handle-Keeps write now done report p r h =
      let (e, u) = on_report report r.estimator in
      let t = record r {
        reports = r.reports + 1;
        estimator = e;
        published = r.published + 1;
        pending = r.pending ++ u ∷ [];
      } in
      if_cases Keeps (is_member p r.revoked) _ _ (λ revoked. refl)
        (λ owned.
          if_cases Keeps
            (leb t.batch_size (length t.pending) || leb (t.last_flush + t.flush_interval) now) _ _
            (λ full.
              both_empty (sent u ∷ []) (flush write done [] t).1 refl
                (flush-Keeps write done [] t h))
            (λ more. refl))

  perform-Keeps : (c : Call F) (r : TrackRunner F S) → is_refused c ≡ false → Keeps (perform c r)
  unfolding perform release_partitions sweep_now
  perform-Keeps (arrival report p) r h = refl
  perform-Keeps (envelope write now done report p) r h = handle-Keeps write now done report p r h
  perform-Keeps (revoke write done tps) r h = give_up-Keeps write done (report_partitions tps) r h
  perform-Keeps (assign tps) r h = refl
  perform-Keeps (tick write done now) r h =
      let (e, changed) = sweep now r.estimator in
      announce_sweep-Keeps write done now changed (record r { estimator = e }) h
  perform-Keeps (stop write done) r h = flush-Keeps write done [] r h

  perform_all-Keeps :
      (cs : List (Call F)) (r : TrackRunner F S)
      → any is_refused cs ≡ false
      → Keeps (perform_all cs r)
  unfolding perform_all
  perform_all-Keeps [] r h = refl
  perform_all-Keeps (c ∷ cs) r h =
      let (mine, rest) = neither (is_refused c) (any is_refused cs) h in
      let (s, fx) = perform c r in
      both_empty fx (perform_all cs s).1 (perform-Keeps c r mine) (perform_all-Keeps cs s rest)
    where
      neither : (a b : Bool) → (a || b) ≡ false → (a ≡ false) × (b ≡ false)
      neither a b h = ground arith

  -- As long as the broker takes what is published: over any steps, rebalances and sweeps included,
  -- and whichever writes to the stores raise, the updates that were waiting and then those published
  -- are, in order, exactly those given to history and then those still waiting. Of the ones given,
  -- nothing is lost unless history raised on a batch.
  pub perform_all-Balances :
      (cs : List (Call F)) (r : TrackRunner F S)
      → Balances r (perform_all cs r)
        × ((any is_refused cs ≡ true) ⊎ (lost_of (perform_all cs r).1 ≡ []))
  perform_all-Balances cs r = (
    balance_all cs r,
    elim (Bool-cases (any is_refused cs)) [
      | inl refused ↦ inl refused
      | inr kept ↦ inr (perform_all-Keeps cs r kept)
    ],
  )
