-- ===== src/TrackRunner/History.antt =====
-- Nothing that was published is lost to history.
use mathlib.Core.List.{append-nil, append_assoc}
use airspace_conformance_pla.Base.{
  false, Bool-cases, inl, inr, ℕ, ◌+◌, ◌≡◌, ◌∙◌, refl, sym, ap, String, ◌||◌, List, [], ◌∷◌, ◌++◌,
  length, leb, select, Float, string_eq, if_cases, map,
}
use airspace_conformance_pla.Contracts.{Timestamp, SurveillanceReport, TrackUpdate}
use airspace_conformance_pla.Kalman.{Algebra}
use airspace_conformance_pla.Tracks.{track_id_for}
use airspace_conformance_pla.Estimator.{on_report, sweep}
use airspace_conformance_pla.TrackRunner.{
  Write, taken, unrecorded, unshown, lost, returns, write_part, arrive, Effect, sent, recorded,
  shown, forgotten, TrackRunner, Step, TopicPartition, report_partitions, write_batch, show,
  not_excluded, flush, give_up, release_partitions, claim_partitions, publish, publish_all,
  forget_pruned, handle, sweep_now, announce_sweep, addresses_on, has_ended, forget_ended,
  is_member,
}

module _ {F : Type 0} where
  -- All that was published to the broker, all that was given to history, and what of it was lost
  -- because history raised, in order.
  abbrev pub sent_of : List (Effect F) → List (TrackUpdate F)
  sent_of [] = []
  sent_of (sent u ∷ fx) = u ∷ sent_of fx
  sent_of (_ ∷ fx) = sent_of fx

  abbrev pub given_of : List (Effect F) → List (TrackUpdate F)
  given_of [] = []
  given_of (recorded us ∷ fx) = us ++ given_of fx
  given_of (lost us ∷ fx) = us ++ given_of fx
  given_of (_ ∷ fx) = given_of fx

  abbrev pub lost_of : List (Effect F) → List (TrackUpdate F)
  lost_of [] = []
  lost_of (lost us ∷ fx) = us ++ lost_of fx
  lost_of (_ ∷ fx) = lost_of fx

  pub sent_of-append : (fx gx : List (Effect F)) → sent_of (fx ++ gx) ≡ sent_of fx ++ sent_of gx
  sent_of-append [] gx = refl
  sent_of-append (sent u ∷ fx) gx = ap (λ us. u ∷ us) (sent_of-append fx gx)
  sent_of-append (recorded us ∷ fx) gx = sent_of-append fx gx
  sent_of-append (lost us ∷ fx) gx = sent_of-append fx gx
  sent_of-append (shown us ∷ fx) gx = sent_of-append fx gx
  sent_of-append (forgotten ids ∷ fx) gx = sent_of-append fx gx

  given_of-append : (fx gx : List (Effect F)) → given_of (fx ++ gx) ≡ given_of fx ++ given_of gx
  given_of-append [] gx = refl
  given_of-append (sent u ∷ fx) gx = given_of-append fx gx
  given_of-append (recorded us ∷ fx) gx =
      ap (λ ws. us ++ ws) (given_of-append fx gx) ∙ sym (append_assoc us _ _)
  given_of-append (lost us ∷ fx) gx =
      ap (λ ws. us ++ ws) (given_of-append fx gx) ∙ sym (append_assoc us _ _)
  given_of-append (shown us ∷ fx) gx = given_of-append fx gx
  given_of-append (forgotten ids ∷ fx) gx = given_of-append fx gx

  pub lost_of-append : (fx gx : List (Effect F)) → lost_of (fx ++ gx) ≡ lost_of fx ++ lost_of gx
  lost_of-append [] gx = refl
  lost_of-append (lost us ∷ fx) gx =
      ap (λ ws. us ++ ws) (lost_of-append fx gx) ∙ sym (append_assoc us _ _)
  lost_of-append (sent u ∷ fx) gx = lost_of-append fx gx
  lost_of-append (recorded us ∷ fx) gx = lost_of-append fx gx
  lost_of-append (shown us ∷ fx) gx = lost_of-append fx gx
  lost_of-append (forgotten ids ∷ fx) gx = lost_of-append fx gx

  show-silent : (us : List (TrackUpdate F)) → (sent_of (show us) ≡ []) × (given_of (show us) ≡ [])
  show-silent [] = (refl, refl)
  show-silent (u ∷ us) = (refl, refl)

  pub write_batch-lem :
      (exclude : List String) (us : List (TrackUpdate F))
      → (sent_of (write_batch exclude us) ≡ []) × (given_of (write_batch exclude us) ≡ us)
  write_batch-lem exclude [] = (refl, refl)
  write_batch-lem exclude (u ∷ us) =
      let quiet = show-silent (select (not_excluded exclude) (u ∷ us)) in
      (quiet.0, ap (λ ws. (u ∷ us) ++ ws) quiet.1 ∙ append-nil (u ∷ us))

  write_part-lem :
      (write : Write) (exclude : List String) (us : List (TrackUpdate F))
      → returns write exclude us ≡ false
      → (sent_of (write_part write us) ≡ []) × (given_of (write_part write us) ≡ us)
  write_part-lem taken exclude us h = absurd (cc)
  write_part-lem unrecorded exclude us h = (refl, append-nil us)
  write_part-lem unshown exclude us h = (refl, append-nil us)

  forget_ended-silent :
      (us : List (TrackUpdate F))
      → (sent_of (forget_ended us) ≡ []) × (given_of (forget_ended us) ≡ [])
  forget_ended-silent [] = (refl, refl)
  forget_ended-silent (u ∷ us) = (refl, refl)

module _ {F S : Type 0} where
  -- What was waiting and what a step published are what it gave to history and what waits after it.
  abbrev pub Balances : TrackRunner F S → Step F S → Type 0
  Balances r (s, fx) = r.pending ++ sent_of fx ≡ given_of fx ++ s.pending

  -- One balanced step after another.
  pub Balances-trans :
      (r : TrackRunner F S) (p q : Step F S)
      → Balances r p
      → Balances p.0 q
      → Balances r (q.0, p.1 ++ q.1)
  Balances-trans r (s, fx) (t, gx) h k =
      ap (λ us. r.pending ++ us) (sent_of-append fx gx)
      ∙ sym (append_assoc r.pending (sent_of fx) (sent_of gx))
      ∙ ap (λ us. us ++ sent_of gx) h
      ∙ append_assoc (given_of fx) s.pending (sent_of gx)
      ∙ ap (λ us. given_of fx ++ us) k
      ∙ sym (append_assoc (given_of fx) (given_of gx) t.pending)
      ∙ ap (λ us. us ++ t.pending) (sym (given_of-append fx gx))

  flush-Balances :
      (write : Write) (done : ℕ) (exclude : List String) (r : TrackRunner F S)
      → Balances r (flush write done exclude r)
  unfolding flush
  flush-Balances write done exclude r = elim (Bool-cases (returns write exclude r.pending)) [
    | inl all ↦ rw all (emptied (write_batch exclude r.pending) (write_batch-lem exclude r.pending))
    | inr part ↦
        rw part (emptied (write_part write r.pending) (write_part-lem write exclude r.pending part))
  ]
    where
      emptied :
          (fx : List (Effect F))
          → (sent_of fx ≡ []) × (given_of fx ≡ r.pending)
          → r.pending ++ sent_of fx ≡ given_of fx ++ []
      emptied fx w =
          ap (λ us. r.pending ++ us) w.0
          ∙ append-nil r.pending
          ∙ sym (append-nil r.pending)
          ∙ ap (λ us. us ++ []) (sym w.1)

  give_up-Balances :
      (write : Write) (done : ℕ) (ps : List ℕ) (r : TrackRunner F S)
      → Balances r (give_up write done ps r)
  unfolding give_up
  give_up-Balances write done [] r = append-nil r.pending
  give_up-Balances write done (p ∷ ps) r =
      let exclude = map track_id_for (addresses_on (p ∷ ps) r.partition_of) in
      let marked = record r { revoked = (p ∷ ps) ++ r.revoked } in
      if_cases (Balances r) (returns write exclude r.pending) _ _
        (λ all. flush-Balances write done exclude marked)
        (λ part. flush-Balances write done exclude marked)

  publish_all-lem :
      (us : List (TrackUpdate F)) (r : TrackRunner F S)
      → (sent_of (publish_all us r).1 ≡ us)
        × (given_of (publish_all us r).1 ≡ [])
        × ((publish_all us r).0.pending ≡ r.pending)
  unfolding publish_all
  publish_all-lem [] r = (refl, refl, refl)
  publish_all-lem (u ∷ us) r =
      let rest = publish_all-lem us (record r { published = r.published + 1 }) in
      (ap (λ ws. u ∷ ws) rest.0, rest.1, rest.2)

  announce_sweep-Balances :
      (write : Write) (done : ℕ) (now : Timestamp) (us : List (TrackUpdate F)) (r : TrackRunner F S)
      → Balances r (announce_sweep write done now us r)
  unfolding announce_sweep forget_pruned
  announce_sweep-Balances write done now [] r = append-nil r.pending
  announce_sweep-Balances write done now (u ∷ us) r =
      let changed = u ∷ us in
      let all = publish_all-lem changed r in
      let s = (publish_all changed r).0 in
      let t = record s { pending = s.pending ++ changed } in
      let quiet = forget_ended-silent (select has_ended changed) in
      let first : Balances r (t, (publish_all changed r).1) =
        ap (λ ws. r.pending ++ ws) all.0
        ∙ ap (λ ws. ws ++ changed) (sym all.2)
        ∙ ap (λ ws. ws ++ (s.pending ++ changed)) (sym all.1) in
      let flushed =
        Balances-trans r (t, (publish_all changed r).1) (flush write done [] t) first
          (flush-Balances write done [] t) in
      let end = (flush write done [] t).0 in
      let last : Balances end (end, forget_ended (select has_ended changed)) =
        ap (λ us. end.pending ++ us) quiet.0
        ∙ append-nil end.pending
        ∙ ap (λ us. us ++ end.pending) (sym quiet.1) in
      if_cases (Balances r) (returns write [] t.pending) _ _
        (λ whole.
          Balances-trans r (end, (publish_all changed r).1 ++ (flush write done [] t).1)
            (end, forget_ended (select has_ended changed)) flushed last)
        (λ part. flushed)

-- One step of the runner: a report arrives, a report is handled, a rebalance, a sweep, or the flush
-- at the end of `run`. The numbers are readings of the loop's clock.
pub data Call (F : Type 0) : Type 0 where
  arrival : SurveillanceReport F → ℕ → Call F
  envelope : Write → ℕ → ℕ → SurveillanceReport F → ℕ → Call F
  revoke : Write → ℕ → List TopicPartition → Call F
  assign : List TopicPartition → Call F
  tick : Write → ℕ → Timestamp → Call F
  stop : Write → ℕ → Call F

module _ {F S : Type 0} ⦃float : Float F⦄ ⦃algebra : Algebra F S⦄ where
  unfoldable pub perform : Call F → TrackRunner F S → Step F S
  unfolding arrive handle release_partitions sweep_now flush
  perform (arrival report p) r = (arrive report p r, [])
  perform (envelope write now done report p) r = handle write now done report p r
  perform (revoke write done tps) r = release_partitions write done tps r
  perform (assign tps) r = (claim_partitions tps r, [])
  perform (tick write done now) r = sweep_now write done now r
  perform (stop write done) r = flush write done [] r

  unfoldable pub perform_all : List (Call F) → TrackRunner F S → Step F S
  unfolding perform
  perform_all [] r = (r, [])
  perform_all (c ∷ cs) r =
      let (s, fx) = perform c r in let (t, gx) = perform_all cs s in (t, fx ++ gx)

  handle-Balances :
      (write : Write) (now done : ℕ) (report : SurveillanceReport F) (p : ℕ) (r : TrackRunner F S)
      → Balances r (handle write now done report p r)
  unfolding handle publish
  handle-Balances write now done report p r =
      let (e, u) = on_report report r.estimator in
      let t = record r {
        reports = r.reports + 1;
        estimator = e;
        published = r.published + 1;
        pending = r.pending ++ u ∷ [];
      } in
      if_cases (Balances r) (is_member p r.revoked) _ _ (λ revoked. append-nil r.pending)
        (λ owned.
          if_cases (Balances r)
            (leb t.batch_size (length t.pending) || leb (t.last_flush + t.flush_interval) now) _ _
            (λ full.
              Balances-trans r (t, sent u ∷ []) (flush write done [] t) refl
                (flush-Balances write done [] t))
            (λ more. refl))

  perform-Balances : (c : Call F) (r : TrackRunner F S) → Balances r (perform c r)
  unfolding perform arrive release_partitions sweep_now claim_partitions
  perform-Balances (arrival report p) r = append-nil r.pending
  perform-Balances (envelope write now done report p) r = handle-Balances write now done report p r
  perform-Balances (revoke write done tps) r = give_up-Balances write done (report_partitions tps) r
  perform-Balances (assign tps) r = append-nil r.pending
  perform-Balances (tick write done now) r =
      let (e, changed) = sweep now r.estimator in
      announce_sweep-Balances write done now changed (record r { estimator = e })
  perform-Balances (stop write done) r = flush-Balances write done [] r

  pub balance_all : (cs : List (Call F)) (r : TrackRunner F S) → Balances r (perform_all cs r)
  unfolding perform_all
  balance_all [] r = append-nil r.pending
  balance_all (c ∷ cs) r =
      let (s, fx) = perform c r in
      let (t, gx) = perform_all cs s in
      Balances-trans r (s, fx) (t, gx) (perform-Balances c r) (balance_all cs s)
