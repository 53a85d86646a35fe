-- ===== src/Estimator/Invariant.antt =====
-- The invariant of the tracks, kept by every operation of the estimator.
use airspace_conformance_pla.Base.{
  ℕ, ◌≤◌, ◌≡◌, ◌∙◌, refl, false, not, Option, none, some, Bool-cases, inl, inr, Float, lookup,
  delete, string_eq, arith, String, Dict, Distinct, insert-Distinct, delete-Distinct, ◌==◌,
  ==_cases, lookup-insert, lookup-delete, List, [], ◌∷◌, foldl, keys, select, lookup-insert_self,
  if_cases,
}
use airspace_conformance_pla.Contracts.{
  SurveillanceReport, TrackUpdate, Timestamp, confirmed, terminated,
}
use airspace_conformance_pla.Kalman.{Algebra}
use airspace_conformance_pla.Tracks.{
  TrackRecord, initiate, update_record, to_update, coast, track_id_for,
}
use airspace_conformance_pla.Estimator.{
  TrackEstimator, receive, on_report, age, sweep_one, sweep_all, sweep, release, prune_terminated,
  is_stale, state_differs,
}
use airspace_conformance_pla.Estimator.Redelivery.{next, on_report_lem}

module _ {F S : Type 0} where
  -- A track under the address `k`, where `c` updates confirm a track.
  pub record IsTrack (c : ℕ) (k : String) (r : TrackRecord F S) : Type 0 where
    pub address : r.icao24 ≡ k
    pub identity : r.track_id ≡ track_id_for k
    pub counted : 1 ≤ r.update_count
    pub ordered : r.first_seen_at ≤ r.last_report_at
    pub closed : r.is_terminated ≡ not (state_differs r.state terminated)
    pub trusted : r.state ≡ confirmed → c ≤ r.update_count

  abbrev pub IsTrack? : ℕ → String → Option (TrackRecord F S) → Type 0
  IsTrack? c k none = Unit
  IsTrack? c k (some r) = IsTrack c k r

  -- Every address once, each with a track of its own.
  abbrev pub IsConsistent : TrackEstimator F S → Type 0
  IsConsistent e =
      Distinct e.tracks × ((k : String) → IsTrack? e.confirmation_updates k (lookup k e.tracks))

module _ {F S : Type 0} ⦃float : Float F⦄ ⦃algebra : Algebra F S⦄ where
  initiate-IsTrack :
      (c : ℕ) (report : SurveillanceReport F) → IsTrack c report.icao24 (initiate {S = S} report)
  unfolding initiate state_differs
  initiate-IsTrack c report = ground arith

  update_record-IsTrack :
      (c : ℕ) (k : String) (r : TrackRecord F S) (report : SurveillanceReport F)
      → r.is_terminated ≡ false
      → IsTrack c k r
      → IsTrack c k (update_record c r report)
  unfolding update_record state_differs
  update_record-IsTrack c k r report live v = ground arith

  receive-IsTrack :
      (c : ℕ) (o : Option (TrackRecord F S)) (report : SurveillanceReport F)
      → IsTrack? c report.icao24 o
      → IsTrack c report.icao24 (receive c o report)
  unfolding receive
  receive-IsTrack c none report v = initiate-IsTrack c report
  receive-IsTrack c (some r) report v =
      if_cases (IsTrack c report.icao24) r.is_terminated _ _ (λ gone. initiate-IsTrack c report)
        (λ live. update_record-IsTrack c report.icao24 r report live v)

  coast-IsTrack :
      (c : ℕ) (k : String) (r : TrackRecord F S) (at : Timestamp)
      → IsTrack c k r
      → IsTrack c k (coast r at)
  unfolding coast
  coast-IsTrack c k r at v = ground arith

  module _ (a t : ℕ) (now : Timestamp) where
    age-IsTrack :
        (c : ℕ) (k : String) (r : TrackRecord F S)
        → r.is_terminated ≡ false
        → IsTrack c k r
        → IsTrack c k (age a t now r)
    unfolding age state_differs
    age-IsTrack c k r live v = ground arith

    sweep_one-IsTrack :
        (c : ℕ) (k : String) (r : TrackRecord F S)
        → IsTrack c k r
        → IsTrack c k (sweep_one a t now r).0
    unfolding sweep_one to_update
    sweep_one-IsTrack c k r v =
        if_cases (λ (p : TrackRecord F S × List (TrackUpdate F)). IsTrack c k p.0) r.is_terminated _
          _ (λ gone. v)
          (λ live.
            let w = age-IsTrack c k r live v in
            if_cases (λ (p : TrackRecord F S × List (TrackUpdate F)). IsTrack c k p.0)
              (state_differs (age a t now r).state r.state) _ _
              (λ changed. coast-IsTrack c k (age a t now r) now w) (λ same. w))

    -- The sweep of a dictionary is the sweep of each track under its own address.
    pub lookup-sweep_all :
        (k : String) (m : Dict String (TrackRecord F S))
        → lookup k (sweep_all a t now m).0
          ≡ elim (lookup k m) [ none ↦ none | some r ↦ some (sweep_one a t now r).0 ]
    unfolding lookup sweep_all
    lookup-sweep_all k [] = refl
    lookup-sweep_all k ((j, r) ∷ m) = ground (arith, lookup-sweep_all k m)

    pub sweep_all-Distinct :
        (m : Dict String (TrackRecord F S)) → Distinct m → Distinct (sweep_all a t now m).0
    unfolding sweep_all
    sweep_all-Distinct [] d = tt
    sweep_all-Distinct ((j, r) ∷ m) d = (lookup-sweep_all j m ∙ rw d.0, sweep_all-Distinct m d.1)

  on_report-IsConsistent :
      (report : SurveillanceReport F) (e : TrackEstimator F S)
      → IsConsistent e
      → IsConsistent (on_report report e).0
  on_report-IsConsistent report e v = rw on_report_lem (
    insert-Distinct report.icao24 (next report e) e.tracks v.0,
    λ k. elim (==_cases report.icao24 k) [
      | inl same ↦
          rw (← same, lookup-insert_self)
            (receive-IsTrack e.confirmation_updates (lookup report.icao24 e.tracks) report
              (v.1 report.icao24))
      | inr other ↦ rw (lookup-insert, other) (v.1 k)
    ],
  )

  sweep-IsConsistent :
      (now : Timestamp) (e : TrackEstimator F S) → IsConsistent e → IsConsistent (sweep now e).0
  unfolding sweep
  sweep-IsConsistent now e v = (
    sweep_all-Distinct e.coast_after e.terminate_after now e.tracks v.0,
    λ k.
        rw (lookup-sweep_all e.coast_after e.terminate_after now k e.tracks)
          (swept k (lookup k e.tracks) (v.1 k)),
  )
    where
      swept :
          (k : String) (o : Option (TrackRecord F S))
          → IsTrack? e.confirmation_updates k o
          → IsTrack? e.confirmation_updates k (elim o [
            | none ↦ none
            | some r ↦ some (sweep_one e.coast_after e.terminate_after now r).0
          ])
      swept k none w = tt
      swept k (some r) w =
          sweep_one-IsTrack e.coast_after e.terminate_after now e.confirmation_updates k r w

  delete-IsConsistent :
      (k : String) (e : TrackEstimator F S)
      → IsConsistent e
      → IsConsistent (record e { tracks = delete k e.tracks })
  delete-IsConsistent k e v = (
    delete-Distinct k e.tracks v.0,
    λ j. elim (Bool-cases (k == j)) [
      | inl same ↦ rw (lookup-delete, same) tt
      | inr other ↦ rw (lookup-delete, other) (v.1 j)
    ],
  )

  release-IsConsistent :
      (ids : List String) (e : TrackEstimator F S) → IsConsistent e → IsConsistent (release ids e).0
  unfolding release
  release-IsConsistent [] e v = v
  release-IsConsistent (k ∷ ids) e v =
      release-IsConsistent ids (record e { tracks = delete k e.tracks }) (delete-IsConsistent k e v)

  delete_all-IsConsistent :
      (ks : List String) (e : TrackEstimator F S)
      → IsConsistent e
      → IsConsistent (record e { tracks = foldl (λ m k. delete k m) e.tracks ks })
  delete_all-IsConsistent [] e v = v
  delete_all-IsConsistent (k ∷ ks) e v =
      delete_all-IsConsistent ks (record e { tracks = delete k e.tracks })
        (delete-IsConsistent k e v)

  prune-IsConsistent :
      (now : Timestamp) (older_than : ℕ) (e : TrackEstimator F S)
      → IsConsistent e
      → IsConsistent (prune_terminated now older_than e).0
  unfolding prune_terminated
  prune-IsConsistent now older_than e v =
      delete_all-IsConsistent (keys (select (λ p. is_stale now older_than p.1) e.tracks)) e v

-- One call of the estimator.
pub data Call (F : Type 0) : Type 0 where
  report : SurveillanceReport F → Call F
  tick : Timestamp → Call F
  give_up : List String → Call F
  prune : Timestamp → ℕ → Call F

module _ {F S : Type 0} ⦃float : Float F⦄ ⦃algebra : Algebra F S⦄ where
  abbrev pub perform : Call F → TrackEstimator F S → TrackEstimator F S
  perform (report r) e = (on_report r e).0
  perform (tick now) e = (sweep now e).0
  perform (give_up ids) e = (release ids e).0
  perform (prune now older_than) e = (prune_terminated now older_than e).0

  -- From an estimator where this holds, over any calls of it, every track stays filed once, under
  -- its own address, with the identity derived from it, with a first and a last report in order,
  -- terminated exactly if its state says so, and confirmed only after enough updates.
  pub perform_all-IsConsistent :
      (calls : List (Call F)) (e : TrackEstimator F S)
      → IsConsistent e
      → IsConsistent (foldl (λ s c. perform c s) e calls)
  perform_all-IsConsistent [] e v = v
  perform_all-IsConsistent (c ∷ calls) e v = perform_all-IsConsistent calls (perform c e) (step c)
    where
      step : (c : Call F) → IsConsistent (perform c e)
      step (report r) = on_report-IsConsistent r e v
      step (tick now) = sweep-IsConsistent now e v
      step (give_up ids) = release-IsConsistent ids e v
      step (prune now older_than) = prune-IsConsistent now older_than e v
