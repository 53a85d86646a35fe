-- ===== src/Stores/History.antt =====
-- storage/stores.py: `TrackHistoryStore`. The database is an interface; its laws are what Postgres
-- documents of the two statements, in terms of the rows that can be read afterwards.
pub mod Collapse
pub mod Rows
pub mod Room
pub mod Recording
use airspace_conformance_pla.Base.{
  ℕ, zero, suc, nat_eq, All, String, Bool, true, false, not, ◌&&◌, ◌||◌, ◌≡◌, ◌∙◌, refl, sym, ap,
  Option, none, some, List, [], ◌∷◌, foldl, map, ◌==◌, Eq, string_eq, any, ltb, leb, arith,
  Bool-cases, inl, inr, if◌then◌else◌, Dict, lookup, insert, keys, Distinct, ◌↔◌, ◌≤◌, pair_eq,
  pair_equals, ==_refl,
}
use Prim.Native.Char.{code}
use airspace_conformance_pla.Contracts.{TrackUpdate, TrackState, Timestamp}

-- A row of `tracks`.
pub record TrackRow : Type 0 where
  pub track_id : String
  pub icao24 : String
  pub callsign : Option String
  pub scenario_id : Option String
  pub first_seen_at : Timestamp
  pub last_seen_at : Timestamp
  pub state : TrackState
  pub update_count : ℕ

-- A row of `track_points`, without its number.
pub record PointRow (F : Type 0) : Type 0 where
  pub track_id : String
  pub observed_at : Timestamp
  pub lat : F
  pub lon : F
  pub altitude_ft : F
  pub ground_speed_kt : F
  pub track_deg : F
  pub vertical_rate_fpm : F
  pub turn_rate_deg_s : F
  pub position_uncertainty_m : F

-- The key of `points`.
abbrev pub PointKey : Type 0
PointKey = String × Timestamp

module _ {F : Type 0} where
  abbrev pub keep_newer :
      TrackUpdate F
      → Dict String (TrackUpdate F)
      → Option (TrackUpdate F)
      → Dict String (TrackUpdate F)
  keep_newer update latest none = insert update.track_id update latest
  keep_newer update latest (some existing) =
      if leb existing.updated_at update.updated_at
      then insert update.track_id update latest
      else latest

  abbrev pub keep_earlier :
      TrackUpdate F → Dict String Timestamp → Option Timestamp → Dict String Timestamp
  keep_earlier update first_seen none = insert update.track_id update.last_report_at first_seen
  keep_earlier update first_seen (some earliest) =
      if ltb update.last_report_at earliest
      then insert update.track_id update.last_report_at first_seen
      else first_seen

  -- The body of the first loop, on `latest` and on `first_seen`.
  unfoldable pub collapse :
      Dict String (TrackUpdate F) × Dict String Timestamp
      → TrackUpdate F
      → Dict String (TrackUpdate F) × Dict String Timestamp
  collapse (latest, first_seen) update = (
    keep_newer update latest (lookup update.track_id latest),
    keep_earlier update first_seen (lookup update.track_id first_seen),
  )

  abbrev pub track_row : TrackUpdate F → Timestamp → TrackRow
  track_row u first = record {
    track_id = u.track_id;
    icao24 = u.icao24;
    callsign = u.callsign;
    scenario_id = u.scenario_id;
    first_seen_at = first;
    last_seen_at = u.updated_at;
    state = u.state;
    update_count = u.update_count;
  }

  abbrev pub add_row :
      TrackUpdate F → Option Timestamp → Option (List TrackRow) → Option (List TrackRow)
  add_row u none rows = none
  add_row u (some first) none = none
  add_row u (some first) (some rows) = some (track_row u first ∷ rows)

  -- `track_rows`, from the values of `latest`. `first_seen[u.track_id]` raises where it is missing.
  unfoldable pub track_rows : List (TrackUpdate F) → Dict String Timestamp → Option (List TrackRow)
  track_rows [] first_seen = some []
  track_rows (u ∷ us) first_seen =
      add_row u (lookup u.track_id first_seen) (track_rows us first_seen)

  abbrev pub point_row : TrackUpdate F → PointRow F
  point_row u = record {
    track_id = u.track_id;
    observed_at = u.updated_at;
    lat = u.lat;
    lon = u.lon;
    altitude_ft = u.altitude_ft;
    ground_speed_kt = u.ground_speed_kt;
    track_deg = u.track_deg;
    vertical_rate_fpm = u.vertical_rate_fpm;
    turn_rate_deg_s = u.turn_rate_deg_s;
    position_uncertainty_m = u.position_uncertainty_m;
  }

  unfoldable pub points : List (TrackUpdate F) → Dict PointKey (TrackUpdate F)
  points updates = foldl (λ m u. insert (u.track_id, u.updated_at) u m) [] updates

-- A text that a column takes: at most so many characters, none of them NUL.
abbrev pub fits : ℕ → String → Bool
fits n String.[] = true
fits zero (String.◌∷◌ c s) = false
fits (suc n) (String.◌∷◌ c s) = not (code c == 0) && fits n s

abbrev pub fits_or_null : ℕ → Option String → Bool
fits_or_null n none = true
fits_or_null n (some s) = fits n s

-- Whether the columns of `tracks` take a row: String(64), (6), (16) and (64), and Integer.
abbrev pub row_fits : TrackRow → Bool
row_fits row =
    fits 64 row.track_id
    && fits 6 row.icao24
    && fits_or_null 16 row.callsign
    && fits_or_null 64 row.scenario_id
    && ltb row.update_count 2147483648

-- The text of `track_points`; its other columns are numbers and a time.
abbrev pub point_fits : {F : Type 0} → PointRow F → Bool
point_fits p = fits 64 p.track_id

-- What the two statements do, and what can be read.
pub record Database (F D : Type 0) : Type 0 where
  pub track : String → D → Option TrackRow
  pub point : String → Timestamp → D → Option (PointRow F)
  -- INSERT ... ON CONFLICT (track_id) DO UPDATE SET last_seen_at, state, update_count, callsign.
  -- `none` where Postgres refuses the statement.
  pub upsert_tracks : List TrackRow → D → Option D
  -- INSERT ... ON CONFLICT ON CONSTRAINT uq_track_points_track_observed DO NOTHING
  pub insert_points : List (PointRow F) → D → D

-- The row of the input for a track, and the row for a track at a time.
abbrev pub row_for : String → List TrackRow → Option TrackRow
row_for k [] = none
row_for k (row ∷ rows) = if row.track_id == k then some row else row_for k rows

abbrev pub point_for : {F : Type 0} → String → Timestamp → List (PointRow F) → Option (PointRow F)
point_for k t [] = none
point_for k t (p ∷ ps) =
    if pair_equals (p.track_id, p.observed_at) (k, t) then some p else point_for k t ps

-- No track stands twice in the input.
abbrev pub IsSingle : List TrackRow → Type 0
IsSingle [] = Unit
IsSingle (row ∷ rows) = (row_for row.track_id rows ≡ none) × IsSingle rows

-- The row of a track after the statement, from the row there was and the row of the input.
abbrev pub upserted : Option TrackRow → Option TrackRow → Option TrackRow
upserted old none = old
upserted none (some row) = some row
upserted (some old) (some row) = some (record old {
  last_seen_at = row.last_seen_at;
  state = row.state;
  update_count = row.update_count;
  callsign = row.callsign;
})

abbrev pub kept : {F : Type 0} → Option (PointRow F) → Option (PointRow F) → Option (PointRow F)
kept none p = p
kept (some old) p = some old

pub record IsDatabase (F D : Type 0) ⦃db : Database F D⦄ : Type 0 where
  -- A statement whose rows fit the columns and have each track once is carried out, by a database
  -- that can be reached.
  pub track-upsert :
      (rows : List TrackRow) (d : D)
      → IsSingle rows
      → All (λ row. row_fits row ≡ true) rows
      → (d' : D) × (db.upsert_tracks rows d ≡ some d')
        × ((k : String) → db.track k d' ≡ upserted (db.track k d) (row_for k rows))
        × ((k : String) (t : Timestamp) → db.point k t d' ≡ db.point k t d)
  pub point-insert :
      (ps : List (PointRow F)) (d : D) (k : String) (t : Timestamp)
      → All (λ p. point_fits p ≡ true) ps
      → db.point k t (db.insert_points ps d) ≡ kept (db.point k t d) (point_for k t ps)
  pub track-insert :
      (ps : List (PointRow F)) (d : D) (k : String)
      → All (λ p. point_fits p ≡ true) ps
      → db.track k (db.insert_points ps d) ≡ db.track k d

module _ {F D : Type 0} ⦃db : Database F D⦄ where
  abbrev pub then_insert : List (PointRow F) → Option D → Option D
  then_insert ps none = none
  then_insert ps (some d) = some (db.insert_points ps d)

  -- The two statements of a transaction, from the rows of the first and those of the second.
  abbrev pub execute : Option (List TrackRow) → List (PointRow F) → D → Option D
  execute none ps d = none
  execute (some rows) ps d = then_insert ps (db.upsert_tracks rows d)

  -- `none` where it raises, and the transaction is rolled back.
  unfoldable pub record_updates : List (TrackUpdate F) → D → Option D
  unfolding collapse track_rows points
  record_updates [] d = some d
  record_updates updates d =
      let (latest, first_seen) = foldl collapse ([], []) updates in
      execute (track_rows (map (λ (p : String × TrackUpdate F). p.1) latest) first_seen)
        (map (λ (p : PointKey × TrackUpdate F). point_row p.1) (points updates)) d
