-- ===== src/Stores/History/Room.antt =====
-- storage/stores.py and storage/schema.py: the rows that are built from updates which fit the columns.
use mathlib.Core.Path.{subst}
use mathlib.Core.Option.{some_inj}
use airspace_conformance_pla.Base.{
  refl, ◌&&◌, string_eq, pair_eq, arith, String, Bool, true, ◌≡◌, Option, none, some, List, [], ◌∷◌,
  foldl, map, All, Eq, Dict, lookup, insert, if_cases, ◌==◌, leb, ltb,
}
use airspace_conformance_pla.Contracts.{TrackUpdate, Timestamp}
use airspace_conformance_pla.Stores.History.{
  fits, fits_or_null, collapse, keep_newer, TrackRow, track_row, track_rows, add_row, row_fits,
  PointKey, point_row, point_fits, points,
}

All-insert {ℓ κ ι} :
    {K : Type ℓ} {V : Type κ} ⦃e : Eq K⦄ (P : V → Type ι) (k : K) (v : V) (m : Dict K V)
    → P v
    → All (λ (p : K × V). P p.1) m
    → All (λ (p : K × V). P p.1) (insert k v m)
unfolding insert
All-insert P k v [] h hs = (h, tt)
All-insert P k v ((j, w) ∷ m) h hs =
    if_cases (All (λ p. P p.1)) (j == k) _ _ (λ same. (h, hs.1))
      (λ other. (hs.0, All-insert P k v m h hs.1))

module _ {F : Type 0} where
  -- An update whose rows fit the columns.
  abbrev pub Fits : TrackUpdate F → Type 0
  Fits u = row_fits (track_row u u.last_report_at) ≡ true

  abbrev AreFitting : {K : Type 0} → Dict K (TrackUpdate F) → Type 0
  AreFitting {K} m = All (λ (p : K × TrackUpdate F). Fits p.1) m

  keep_newer-AreFitting :
      (u : TrackUpdate F) (m : Dict String (TrackUpdate F)) (o : Option (TrackUpdate F))
      → Fits u
      → AreFitting m
      → AreFitting (keep_newer u m o)
  keep_newer-AreFitting u m none h hs = All-insert Fits u.track_id u m h hs
  keep_newer-AreFitting u m (some old) h hs =
      if_cases AreFitting (leb old.updated_at u.updated_at) _ _
        (λ newer. All-insert Fits u.track_id u m h hs) (λ older. hs)

  collapse-AreFitting :
      (us : List (TrackUpdate F)) (m : Dict String (TrackUpdate F)) (first : Dict String Timestamp)
      → All Fits us
      → AreFitting m
      → AreFitting (foldl collapse (m, first) us).0
  unfolding collapse
  collapse-AreFitting [] m first h hs = hs
  collapse-AreFitting (u ∷ us) m first h hs =
      collapse-AreFitting us _ _ h.1 (keep_newer-AreFitting u m (lookup u.track_id m) h.0 hs)

  points-AreFitting :
      (us : List (TrackUpdate F)) (m : Dict PointKey (TrackUpdate F))
      → All Fits us
      → AreFitting m
      → AreFitting (foldl (λ m u. insert (u.track_id, u.updated_at) u m) m us)
  points-AreFitting [] m h hs = hs
  points-AreFitting (u ∷ us) m h hs =
      points-AreFitting us _ h.1 (All-insert Fits (u.track_id, u.updated_at) u m h.0 hs)

  add_row-Fits :
      (u : TrackUpdate F) (t : Option Timestamp) (o : Option (List TrackRow)) (rows : List TrackRow)
      → Fits u
      → ((rest : List TrackRow) → o ≡ some rest → All (λ row. row_fits row ≡ true) rest)
      → add_row u t o ≡ some rows
      → All (λ row. row_fits row ≡ true) rows
  add_row-Fits u none o rows h hs e = absurd (cc)
  add_row-Fits u (some t) none rows h hs e = absurd (cc)
  add_row-Fits u (some t) (some rest) rows h hs e =
      subst (All (λ row. row_fits row ≡ true)) (some_inj.0 e) (h, hs rest refl)

  track_rows-fits :
      (m : Dict String (TrackUpdate F)) (first : Dict String Timestamp) (rows : List TrackRow)
      → AreFitting m
      → track_rows (map (λ (p : String × TrackUpdate F). p.1) m) first ≡ some rows
      → All (λ row. row_fits row ≡ true) rows
  unfolding track_rows
  track_rows-fits [] first rows h e = subst (All (λ row. row_fits row ≡ true)) (some_inj.0 e) tt
  track_rows-fits ((k, u) ∷ m) first rows h e =
      add_row-Fits u (lookup u.track_id first) _ rows h.0
        (λ rest made. track_rows-fits m first rest h.1 made) e

  -- The rows of a batch that fits do fit, and its points.
  pub batch_rows-Fits :
      (us : List (TrackUpdate F)) (rows : List TrackRow)
      → All Fits us
      → let s = foldl collapse ([], []) us in
        track_rows (map (λ (p : String × TrackUpdate F). p.1) s.0) s.1 ≡ some rows
        → All (λ row. row_fits row ≡ true) rows
  batch_rows-Fits us rows h e =
      let s = foldl collapse ([], []) us in
      track_rows-fits s.0 s.1 rows (collapse-AreFitting us [] [] h tt) e

  map-fits :
      (m : Dict PointKey (TrackUpdate F))
      → AreFitting m
      → All (λ p. point_fits p ≡ true) (map (λ (p : PointKey × TrackUpdate F). point_row p.1) m)
  map-fits [] h = tt
  map-fits ((k, u) ∷ m) h = (
    left_of (fits 64 u.track_id) (fits 6 u.icao24) (fits_or_null 16 u.callsign)
        (fits_or_null 64 u.scenario_id) (ltb u.update_count 2147483648) h.0,
    map-fits m h.1,
  )
    where
      left_of : (a b c d e : Bool) → (a && b && c && d && e) ≡ true → a ≡ true
      left_of a b c d e h = ground arith

  pub points-Fits :
      (us : List (TrackUpdate F))
      → All Fits us
      → All
          (λ p. point_fits p ≡ true)
          (map (λ (p : PointKey × TrackUpdate F). point_row p.1) (points us))
  unfolding points
  points-Fits us h = map-fits _ (points-AreFitting us [] h tt)
