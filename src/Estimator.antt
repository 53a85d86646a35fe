-- ===== src/Estimator.antt =====
-- services/track/estimator.py: `TrackEstimator`. Durations are in microseconds; `S` is the state of
-- one Kalman filter.
pub mod Redelivery
pub mod Invariant
pub mod Sweeping
pub mod Coasting
pub mod Ownership
mod Tests
use airspace_conformance_pla.Base.{
  ℕ, ◌+◌, String, Bool, true, false, not, ◌&&◌, Option, none, some, List, [], ◌∷◌, ◌++◌, foldl,
  length, select, leb, ltb, Float, Dict, lookup, insert, delete, keys, contains, string_eq,
  if◌then◌else◌,
}
use airspace_conformance_pla.Contracts.{
  Timestamp, SurveillanceReport, TrackState, initiating, confirmed, coasting, terminated,
  TrackUpdate,
}
use airspace_conformance_pla.Kalman.{Algebra}
use airspace_conformance_pla.Tracks.{TrackRecord, initiate, update_record, to_update}

pub record TrackEstimator (F S : Type 0) : Type 0 where
  pub tracks : Dict String (TrackRecord F S)
  pub coast_after : ℕ
  pub terminate_after : ℕ
  pub confirmation_updates : ℕ

-- `a != b` on track states.
unfoldable pub state_differs : TrackState → TrackState → Bool
state_differs initiating initiating = false
state_differs confirmed confirmed = false
state_differs coasting coasting = false
state_differs terminated terminated = false
state_differs _ _ = true

module _ {F S : Type 0} where
  unfoldable pub live_track_count : TrackEstimator F S → ℕ
  live_track_count e = length (select (λ p. not p.1.is_terminated) e.tracks)

  -- `known_addresses`
  unfoldable pub known_addresses : TrackEstimator F S → List String
  unfolding keys
  known_addresses e = keys e.tracks

  -- `release`: the estimator without the addresses, and how many of them it held.
  unfoldable pub release : List String → TrackEstimator F S → TrackEstimator F S × ℕ
  unfolding contains
  release [] e = (e, 0)
  release (icao24 ∷ rest) e =
      let (e', released) = release rest (record e { tracks = delete icao24 e.tracks }) in
      (e', if contains icao24 e.tracks then released + 1 else released)

  -- The condition of `prune_terminated`: `last_report_at < now - older_than`.
  abbrev pub is_stale : Timestamp → ℕ → TrackRecord F S → Bool
  is_stale now older_than r = r.is_terminated && ltb (r.last_report_at + older_than) now

  unfoldable pub prune_terminated : Timestamp → ℕ → TrackEstimator F S → TrackEstimator F S × ℕ
  unfolding keys
  prune_terminated now older_than e =
      let stale = keys (select (λ p. is_stale now older_than p.1) e.tracks) in
      (record e { tracks = foldl (λ m icao24. delete icao24 m) e.tracks stale }, length stale)

module _ {F S : Type 0} ⦃float : Float F⦄ ⦃algebra : Algebra F S⦄ where
  -- The record that a report leads to: `_initiate` or `_update`.
  unfoldable pub receive : ℕ → Option (TrackRecord F S) → SurveillanceReport F → TrackRecord F S
  receive confirmation_updates none report = initiate report
  receive confirmation_updates (some existing) report =
      if existing.is_terminated
      then initiate report
      else update_record confirmation_updates existing report

  unfoldable pub on_report :
      SurveillanceReport F → TrackEstimator F S → TrackEstimator F S × TrackUpdate F
  unfolding receive
  on_report report e =
      let r = receive e.confirmation_updates (lookup report.icao24 e.tracks) report in
      let (r', u) = to_update r report.observed_at in
      (record e { tracks = insert report.icao24 r' e.tracks }, u)

  module _ (coast_after terminate_after : ℕ) (now : Timestamp) where
    -- The state of a track that is not terminated, from its silence.
    unfoldable pub age : TrackRecord F S → TrackRecord F S
    age r =
        if leb (r.last_report_at + terminate_after) now
        then record r { state = terminated; is_terminated = true }
        else if leb (r.last_report_at + coast_after) now
        then record r { state = coasting }
        else r

    -- The body of the loop of `sweep`: the track, and the update if its state changed.
    unfoldable pub sweep_one : TrackRecord F S → TrackRecord F S × List (TrackUpdate F)
    unfolding age state_differs
    sweep_one r =
        if r.is_terminated
        then (r, [])
        else (let r' = age r in
            if state_differs r'.state r.state
            then (let (r'', u) = to_update r' now in (r'', u ∷ []))
            else (r', []))

    unfoldable pub sweep_all :
        Dict String (TrackRecord F S) → Dict String (TrackRecord F S) × List (TrackUpdate F)
    unfolding sweep_one
    sweep_all [] = ([], [])
    sweep_all ((icao24, r) ∷ rest) =
        let (r', changed) = sweep_one r in
        let (rest', others) = sweep_all rest in ((icao24, r') ∷ rest', changed ++ others)

  unfoldable pub sweep : Timestamp → TrackEstimator F S → TrackEstimator F S × List (TrackUpdate F)
  unfolding sweep_all
  sweep now e =
      let (tracks, changed) = sweep_all e.coast_after e.terminate_after now e.tracks in
      (record e { tracks = tracks }, changed)

  unfoldable pub innovation_for : String → TrackEstimator F S → F
  innovation_for icao24 e = elim (lookup icao24 e.tracks) [
    | none ↦ float.literal 0
    | some r ↦ r.innovation_nm
  ]
