-- ===== src/Stores/History/Recording.antt =====
-- storage/stores.py: what `TrackHistoryStore.record` leaves in the two tables, once and twice.
use airspace_conformance_pla.Base.{
  String, true, ◌≡◌, ◌∙◌, refl, sym, ap, Option, none, some, List, [], ◌∷◌, map, All, All-map, ◌==◌,
  ◌≤◌, string_eq, pair_eq, ==_refl,
}
use airspace_conformance_pla.Contracts.{TrackUpdate, Timestamp}
use airspace_conformance_pla.Stores.{is_some}
use airspace_conformance_pla.Stores.History.{
  TrackRow, PointRow, PointKey, point_row, point_for, points, Database, IsDatabase, record_updates,
  execute, then_insert, upserted, kept,
}
use airspace_conformance_pla.Stores.History.Collapse.{
  newest, earliest, row_of, batch_row, is_some-earliest, newest-All, All-own, IsWithin,
}
use airspace_conformance_pla.Stores.History.Room.{Fits, batch_rows-Fits, points-Fits}
use airspace_conformance_pla.Stores.History.Rows.{batch_rows, observed, point_of, point_for-points}

module _ {F D : Type 0} ⦃db : Database F D⦄ (laws : IsDatabase F D) where
  -- What the transaction leaves.
  abbrev pub IsRecorded : List (TrackUpdate F) → D → D → Type 0
  IsRecorded us d d' =
      ((k : String) → db.track k d' ≡ upserted (db.track k d) (batch_row k us))
      × ((k : String) (t : Timestamp)
          → db.point k t d' ≡ kept (db.point k t d) (point_of (observed (k, t) us)))

  kept-none : (o : Option (PointRow F)) → kept o none ≡ o
  kept-none none = refl
  kept-none (some p) = refl

  pub record_updates_lem :
      (us : List (TrackUpdate F)) (d : D)
      → All Fits us
      → (d' : D) × (record_updates us d ≡ some d') × IsRecorded us d d'
  unfolding record_updates
  record_updates_lem [] d fit = (d, refl, (λ k. refl, λ k t. sym (kept-none (db.point k t d))))
  record_updates_lem (u ∷ us) d fit =
      let (rows, made, found, single) = batch_rows (u ∷ us) in
      let ps = map (λ (p : PointKey × TrackUpdate F). point_row p.1) (points (u ∷ us)) in
      let (d', done, tracks, others) =
        laws.track-upsert rows d single (batch_rows-Fits (u ∷ us) rows fit made) in
      let fitting = points-Fits (u ∷ us) fit in
      (
        db.insert_points ps d',
        ap (λ o. execute o ps d) made ∙ ap (then_insert ps) done,
        (
          λ k.
              laws.track-insert ps d' k fitting ∙ tracks k ∙ ap (upserted (db.track k d)) (found k),
          λ k t.
              laws.point-insert ps d' k t fitting
              ∙ ap (λ o. kept o (point_for k t ps)) (others k t)
              ∙ ap (kept (db.point k t d)) (point_for-points (u ∷ us) k t),
        ),
      )

  upserted_twice : (o row : Option TrackRow) → upserted (upserted o row) row ≡ upserted o row
  upserted_twice o none = refl
  upserted_twice none (some row) = refl
  upserted_twice (some old) (some row) = refl

  kept_twice : (o p : Option (PointRow F)) → kept (kept o p) p ≡ kept o p
  kept_twice none none = refl
  kept_twice none (some p) = refl
  kept_twice (some old) p = refl

  -- Recording a batch that fits once more succeeds, and changes no row of either table.
  pub record_twice :
      (us : List (TrackUpdate F)) (d : D)
      → All Fits us
      → (d' : D) × (record_updates us d ≡ some d')
        × (d'' : D) × (record_updates us d' ≡ some d'')
        × ((k : String) → db.track k d'' ≡ db.track k d')
        × ((k : String) (t : Timestamp) → db.point k t d'' ≡ db.point k t d')
  record_twice us d fit =
      let (d', first, w) = record_updates_lem us d fit in
      let (d'', again, w') = record_updates_lem us d' fit in
      (
        d',
        first,
        d'',
        again,
        λ k.
            w'.0 k
            ∙ ap (λ o. upserted o (batch_row k us)) (w.0 k)
            ∙ upserted_twice (db.track k d) (batch_row k us)
            ∙ sym (w.0 k),
        λ k t.
            w'.1 k t
            ∙ ap (λ o. kept o (point_of (observed (k, t) us))) (w.1 k t)
            ∙ kept_twice (db.point k t d) (point_of (observed (k, t) us))
            ∙ sym (w.1 k t),
      )

  -- Recording a batch that fits succeeds, and afterwards the row of each track of the batch is as
  -- new as every update of the batch about the track.
  pub record-newest :
      (us : List (TrackUpdate F)) (d : D)
      → All Fits us
      → (d' : D) × (record_updates us d ≡ some d')
        × All
            (λ v.
              (row : TrackRow) × (db.track v.track_id d' ≡ some row)
              × (v.updated_at ≤ row.last_seen_at))
            us
  record-newest us d fit =
      let (d', done, w) = record_updates_lem us d fit in
      (
        d',
        done,
        All-map (λ v. (v.track_id == v.track_id) ≡ true → IsWithin v (newest v.track_id us)) _ us
            (λ v h.
              let k = v.track_id in
              let (row, there, late) =
                fresh v (newest k us) (earliest k us) (is_some-earliest k us none none refl)
                  (db.track k d) (h (==_refl k)) in
              (row, w.0 k ∙ there, late))
            (All-own (λ k v. (v.track_id == k) ≡ true → IsWithin v (newest k us)) us
              (λ k. (newest-All k us none).0)),
      )
    where
      fresh :
          (v : TrackUpdate F) (o : Option (TrackUpdate F)) (t : Option Timestamp)
          → is_some o ≡ is_some t
          → (old : Option TrackRow) → IsWithin v o
          → (row : TrackRow) × (upserted old (row_of o t) ≡ some row)
            × (v.updated_at ≤ row.last_seen_at)
      fresh v none t e old h = absurd h
      fresh v (some u) none e old h = absurd (cc)
      fresh v (some u) (some t) e none h = (_, refl, h)
      fresh v (some u) (some t) e (some old) h = (_, refl, h)
