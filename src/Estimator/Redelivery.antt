-- ===== src/Estimator/Redelivery.antt =====
-- Delivery is at least once: a report that comes again changes nothing.
use airspace_conformance_pla.Base.{
  ℕ, ◌≤◌, ◌≡◌, ◌∙◌, refl, sym, ap, false, Option, none, some, Float, lookup, insert,
  lookup-insert_self, insert_present, string_eq, arith, le→leb,
}
use airspace_conformance_pla.Contracts.{SurveillanceReport, TrackUpdate, Timestamp}
use airspace_conformance_pla.Kalman.{Algebra}
use airspace_conformance_pla.Tracks.{TrackRecord, initiate, update_record, to_update, message}
use airspace_conformance_pla.Estimator.{TrackEstimator, receive, on_report}

module _ {F S : Type 0} ⦃float : Float F⦄ ⦃algebra : Algebra F S⦄ where
  -- The track is live and has been folded in up to a time.
  abbrev pub IsCurrent : Timestamp → TrackRecord F S → Type 0
  IsCurrent at r = (r.is_terminated ≡ false) × (at ≤ r.last_report_at)

  pub receive-IsCurrent :
      (c : ℕ) (o : Option (TrackRecord F S)) (report : SurveillanceReport F)
      → IsCurrent report.observed_at (receive c o report)
  unfolding receive initiate update_record
  receive-IsCurrent c none report = (refl, omega arith)
  receive-IsCurrent c (some r) report = ground arith

  -- Nothing is predicted for a track that has been heard of since.
  pub to_update_current :
      (r : TrackRecord F S) (at : Timestamp)
      → at ≤ r.last_report_at
      → to_update r at ≡ (r, message r at)
  unfolding to_update
  to_update_current r at h = ground arith

  pub receive_current :
      (c : ℕ) (r : TrackRecord F S) (report : SurveillanceReport F)
      → IsCurrent report.observed_at r
      → receive c (some r) report ≡ r
  unfolding receive update_record
  receive_current c r report (live, old) = rw (live, le→leb _ _ old)

  -- A report that is no newer than the last one of its live track leaves the estimator as it is,
  -- and the answer is the track's standing estimate.
  pub on_report_old :
      (report : SurveillanceReport F) (e : TrackEstimator F S) (r : TrackRecord F S)
      → lookup report.icao24 e.tracks ≡ some r
      → r.is_terminated ≡ false
      → report.observed_at ≤ r.last_report_at
      → on_report report e ≡ (e, message r report.observed_at)
  unfolding on_report
  on_report_old report e r h live old = rw (
    h,
    receive_current e.confirmation_updates r report (live, old),
    to_update_current r report.observed_at old,
    insert_present report.icao24 r e.tracks h,
  )

  -- The track that a report leads to.
  abbrev pub next : SurveillanceReport F → TrackEstimator F S → TrackRecord F S
  next report e = receive e.confirmation_updates (lookup report.icao24 e.tracks) report

  pub next-IsCurrent :
      (report : SurveillanceReport F) (e : TrackEstimator F S)
      → IsCurrent report.observed_at (next report e)
  next-IsCurrent report e =
      receive-IsCurrent e.confirmation_updates (lookup report.icao24 e.tracks) report

  pub on_report_lem :
      (report : SurveillanceReport F) (e : TrackEstimator F S)
      → on_report report e ≡ (
        record e { tracks = insert report.icao24 (next report e) e.tracks },
        message (next report e) report.observed_at,
      )
  unfolding on_report
  on_report_lem report e =
      rw (to_update_current (next report e) report.observed_at (next-IsCurrent report e).1)

  -- A report delivered twice in a row is a report delivered once, and is answered alike.
  pub on_report_twice :
      (report : SurveillanceReport F) (e : TrackEstimator F S)
      → on_report report (on_report report e).0 ≡ on_report report e
  on_report_twice report e =
      let c = next-IsCurrent report e in
      let once = on_report_lem report e in
      ap (λ (p : TrackEstimator F S × TrackUpdate F). on_report report p.0) once
      ∙ on_report_old report (record e { tracks = insert report.icao24 (next report e) e.tracks })
          (next report e) (lookup-insert_self report.icao24 (next report e) e.tracks) c.0 c.1
      ∙ sym once
