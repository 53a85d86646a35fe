-- ===== src/Estimator/Coasting.antt =====
-- What a coasting track's filter has been run forward by, once it is heard of again.
use airspace_conformance_pla.Base.{
  ℕ, ◌+◌, ◌-◌, ◌≤◌, ◌<◌, ◌≡◌, ◌∙◌, refl, ap, true, false, Option, none, some, Float, lookup,
  string_eq, arith, String, lookup-insert_self,
}
use airspace_conformance_pla.Contracts.{SurveillanceReport, TrackUpdate, Timestamp, coasting}
use airspace_conformance_pla.Kalman.{Algebra, predict, update}
use airspace_conformance_pla.Tracks.{
  TrackRecord, update_record, fold_in, to_update, coast, measurement,
}
use airspace_conformance_pla.Estimator.{
  TrackEstimator, receive, on_report, age, sweep_one, sweep, state_differs,
}
use airspace_conformance_pla.Estimator.Redelivery.{next, on_report_lem}
use airspace_conformance_pla.Estimator.Invariant.{lookup-sweep_all}

module _ {F S : Type 0} ⦃float : Float F⦄ ⦃algebra : Algebra F S⦄ where
  open float use {seconds}

  -- The sweep that finds a track silent runs its filter forward by the silence.
  sweep_one_coasting :
      (a t : ℕ) (now : Timestamp) (r : TrackRecord F S)
      → r.is_terminated ≡ false
      → state_differs coasting r.state ≡ true
      → r.last_report_at < now
      → r.last_report_at + a ≤ now
      → now < r.last_report_at + t
      → (sweep_one a t now r).0.filter ≡ predict r.filter (seconds (now - r.last_report_at))
  unfolding sweep_one age to_update coast
  sweep_one_coasting a t now r live moves later silent early = ground arith

  sweep_one_kept :
      (a t : ℕ) (now : Timestamp) (r : TrackRecord F S)
      → r.is_terminated ≡ false
      → now < r.last_report_at + t
      → ((sweep_one a t now r).0.is_terminated ≡ false)
        × ((sweep_one a t now r).0.last_report_at ≡ r.last_report_at)
  unfolding sweep_one age to_update coast
  sweep_one_kept a t now r live early = ground arith

  receive_newer :
      (c : ℕ) (r : TrackRecord F S) (report : SurveillanceReport F)
      → r.is_terminated ≡ false
      → r.last_report_at < report.observed_at
      → (receive c (some r) report).filter
        ≡ update r.filter (seconds (report.observed_at - r.last_report_at)) (measurement report)
  unfolding receive update_record fold_in
  receive_newer c r report live newer = ground arith

  abbrev pub filter_of : Option (TrackRecord F S) → Option S
  filter_of none = none
  filter_of (some r) = some r.filter

  -- The filter that the estimator holds for an address.
  abbrev pub standing_filter : String → TrackEstimator F S → Option S
  standing_filter k e = filter_of (lookup k e.tracks)

  standing_filter-on_report :
      (report : SurveillanceReport F) (e : TrackEstimator F S)
      → standing_filter report.icao24 (on_report report e).0 ≡ some (next report e).filter
  standing_filter-on_report report e =
      ap (λ (p : TrackEstimator F S × TrackUpdate F). standing_filter report.icao24 p.0)
        (on_report_lem report e)
      ∙ ap filter_of (lookup-insert_self report.icao24 (next report e) e.tracks)

  update_newer :
      (report : SurveillanceReport F) (e : TrackEstimator F S) (r : TrackRecord F S)
      → lookup report.icao24 e.tracks ≡ some r
      → r.is_terminated ≡ false
      → r.last_report_at < report.observed_at
      → standing_filter report.icao24 (on_report report e).0
        ≡ some
            (update r.filter (seconds (report.observed_at - r.last_report_at)) (measurement report))
  update_newer report e r h live newer =
      standing_filter-on_report report e
      ∙ ap (λ o. some (receive e.confirmation_updates o report).filter) h
      ∙ ap some (receive_newer e.confirmation_updates r report live newer)

  -- A live track that is not coasting yet, a report of its aircraft after its last one, and a
  -- sweep that finds the track silent for long enough to coast and not to end. Without the sweep,
  -- the report is folded into the filter run forward from the last report to it. If the sweep
  -- comes before it, the report is folded into a filter that was first run forward from the last
  -- report to the sweep, and then again from the last report: that silence is counted twice.
  pub coasting_silence :
      (now : Timestamp) (report : SurveillanceReport F) (e : TrackEstimator F S)
      (r : TrackRecord F S)
      → lookup report.icao24 e.tracks ≡ some r
      → r.is_terminated ≡ false
      → state_differs coasting r.state ≡ true
      → r.last_report_at < now
      → r.last_report_at + e.coast_after ≤ now
      → now < r.last_report_at + e.terminate_after
      → r.last_report_at < report.observed_at
      → (standing_filter report.icao24 (on_report report e).0
          ≡ some (
              update r.filter
                (seconds (report.observed_at - r.last_report_at))
                (measurement report)))
        × (standing_filter report.icao24 (on_report report (sweep now e).0).0
            ≡ some (
                update
                  (predict r.filter (seconds (now - r.last_report_at)))
                  (seconds (report.observed_at - r.last_report_at))
                  (measurement report)))
  unfolding sweep
  coasting_silence now report e r h live moves later silent early newer =
      let a = e.coast_after in
      let t = e.terminate_after in
      let kept = sweep_one_kept a t now r live early in
      let swept = (sweep_one a t now r).0 in
      (
        update_newer report e r h live newer,
        update_newer report (sweep now e).0 swept
              (lookup-sweep_all a t now report.icao24 e.tracks ∙ rw h refl) kept.0 (rw kept.1 newer)
            ∙ rw (kept.1, sweep_one_coasting a t now r live moves later silent early) refl,
      )
