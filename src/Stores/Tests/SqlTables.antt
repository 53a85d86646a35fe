-- ===== src/Stores/Tests/SqlTables.antt =====
-- A database of the two tables, as dictionaries.
use airspace_conformance_pla.Base.{
  String, Bool, true, false, ◌≡◌, ◌∙◌, refl, sym, ap, Option, none, some, List, [], ◌∷◌, ◌==◌,
  ==_cases, ==_refl, string_eq, pair_eq, pair_equals, pair_equals_iff, Dict, lookup, insert,
  lookup-insert, Bool-cases, inl, inr, if◌then◌else◌,
}
use mathlib.Core.Path.{subst}
use airspace_conformance_pla.Contracts.{Timestamp}
use airspace_conformance_pla.Stores.History.{
  TrackRow, PointRow, Database, IsDatabase, IsSingle, row_for, point_for, upserted, kept,
}

pub record Tables (F : Type 0) : Type 0 where
  pub tracks : Dict String TrackRow
  pub points : Dict (String × Timestamp) (PointRow F)

abbrev pub put_row : Dict String TrackRow → TrackRow → Option TrackRow → Dict String TrackRow
put_row m row none = insert row.track_id row m
put_row m row (some old) =
    insert row.track_id
      (record old {
        last_seen_at = row.last_seen_at;
        state = row.state;
        update_count = row.update_count;
        callsign = row.callsign;
      })
      m

abbrev pub upsert_all : List TrackRow → Dict String TrackRow → Dict String TrackRow
upsert_all [] m = m
upsert_all (row ∷ rows) m = upsert_all rows (put_row m row (lookup row.track_id m))

abbrev pub is_absent : Option TrackRow → Bool
is_absent none = true
is_absent (some row) = false

abbrev pub is_single : List TrackRow → Bool
is_single [] = true
is_single (row ∷ rows) =
    let rest = is_single rows in if is_absent (row_for row.track_id rows) then rest else false

module _ {F : Type 0} where
  abbrev pub put_point :
      Dict (String × Timestamp) (PointRow F)
      → PointRow F
      → Option (PointRow F)
      → Dict (String × Timestamp) (PointRow F)
  put_point m p none = insert (p.track_id, p.observed_at) p m
  put_point m p (some old) = m

  abbrev pub insert_all :
      List (PointRow F)
      → Dict (String × Timestamp) (PointRow F)
      → Dict (String × Timestamp) (PointRow F)
  insert_all [] m = m
  insert_all (p ∷ ps) m = insert_all ps (put_point m p (lookup (p.track_id, p.observed_at) m))

instance abbrev pub tables : {F : Type 0} → Database F (Tables F)
tables = record {
  track = λ k d. lookup k d.tracks;
  point = λ k t d. lookup (k, t) d.points;
  upsert_tracks = λ rows d.
      if is_single rows then some (record d { tracks = upsert_all rows d.tracks }) else none;
  insert_points = λ ps d. record d { points = insert_all ps d.points };
}

lookup-put_row :
    (m : Dict String TrackRow) (row : TrackRow) (o : Option TrackRow) (k : String)
    → lookup row.track_id m ≡ o
    → lookup k (put_row m row o) ≡ (if row.track_id == k then upserted o (some row) else lookup k m)
lookup-put_row m row none k h = lookup-insert row.track_id k row m
lookup-put_row m row (some old) k h = lookup-insert row.track_id k _ m

single_of_IsSingle : (rows : List TrackRow) → IsSingle rows → is_single rows ≡ true
single_of_IsSingle [] h = refl
single_of_IsSingle (row ∷ rows) h = rw (h.0) (single_of_IsSingle rows h.1)

lookup-upsert_all :
    (rows : List TrackRow) (m : Dict String TrackRow) (k : String)
    → IsSingle rows
    → lookup k (upsert_all rows m) ≡ upserted (lookup k m) (row_for k rows)
lookup-upsert_all [] m k h = refl
lookup-upsert_all (row ∷ rows) m k h =
    lookup-upsert_all rows (put_row m row (lookup row.track_id m)) k h.1
    ∙ ap (λ o. upserted o (row_for k rows)) (lookup-put_row m row (lookup row.track_id m) k refl)
    ∙ elim (==_cases row.track_id k) [
      | inl same ↦
          subst
            (λ x.
              upserted
                (if row.track_id == x
                  then upserted (lookup row.track_id m) (some row)
                  else lookup x m)
                (row_for x rows)
              ≡ upserted (lookup x m) (if row.track_id == x then some row else row_for x rows))
            same (rw (==_refl row.track_id, h.0) refl)
      | inr other ↦ rw other refl
    ]

kept-none : {F : Type 0} (o : Option (PointRow F)) → o ≡ kept o none
kept-none none = refl
kept-none (some p) = refl

kept-kept :
    {F : Type 0} (o c : Option (PointRow F)) (b : Bool) (p : PointRow F)
    → kept (kept o (if b then some p else none)) c ≡ kept o (if b then some p else c)
kept-kept none c true p = refl
kept-kept none c false p = refl
kept-kept (some old) c b p = refl

lookup-put_point :
    {F : Type 0} (m : Dict (String × Timestamp) (PointRow F)) (p : PointRow F)
    (o : Option (PointRow F)) (q : String × Timestamp)
    → lookup (p.track_id, p.observed_at) m ≡ o
    → lookup q (put_point m p o)
      ≡ kept (lookup q m) (if pair_equals (p.track_id, p.observed_at) q then some p else none)
lookup-put_point m p none q h =
    lookup-insert (p.track_id, p.observed_at) q p m
    ∙ elim (Bool-cases (pair_equals (p.track_id, p.observed_at) q)) [
      | inl same ↦
          let at =
            ap (λ x. lookup x m) (sym ((pair_equals_iff (p.track_id, p.observed_at) q).0 same))
            ∙ h in
          rw (same, at) refl
      | inr other ↦ rw other (kept-none (lookup q m))
    ]
lookup-put_point m p (some old) q h =
    elim (Bool-cases (pair_equals (p.track_id, p.observed_at) q)) [
      | inl same ↦
          let at =
            ap (λ x. lookup x m) (sym ((pair_equals_iff (p.track_id, p.observed_at) q).0 same))
            ∙ h in
          rw (same, at) refl
      | inr other ↦ rw other (kept-none (lookup q m))
    ]

lookup-insert_all :
    {F : Type 0} (ps : List (PointRow F)) (m : Dict (String × Timestamp) (PointRow F)) (k : String)
    (t : Timestamp)
    → lookup (k, t) (insert_all ps m) ≡ kept (lookup (k, t) m) (point_for k t ps)
lookup-insert_all [] m k t = kept-none (lookup (k, t) m)
lookup-insert_all (p ∷ ps) m k t =
    let o = lookup (p.track_id, p.observed_at) m in
    lookup-insert_all ps (put_point m p o) k t
    ∙ ap (λ x. kept x (point_for k t ps)) (lookup-put_point m p o (k, t) refl)
    ∙ kept-kept (lookup (k, t) m) (point_for k t ps) _ p

pub tables-IsDatabase : {F : Type 0} → IsDatabase F (Tables F)
tables-IsDatabase = record {
  track-upsert = λ rows d single fit. (
    record d { tracks = upsert_all rows d.tracks },
    rw (single_of_IsSingle rows single) refl,
    λ k. lookup-upsert_all rows d.tracks k single,
    λ k t. refl,
  );
  point-insert = λ ps d k t fit. lookup-insert_all ps d.points k t;
  track-insert = λ ps d k fit. refl;
}
