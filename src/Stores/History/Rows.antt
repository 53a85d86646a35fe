-- ===== src/Stores/History/Rows.antt =====
-- storage/stores.py: the rows that `TrackHistoryStore.record` builds from a batch.
use mathlib.Core.Path.{subst}
use airspace_conformance_pla.Base.{
  String, Bool, true, false, ◌≡◌, ◌∙◌, refl, sym, ap, Option, none, some, List, [], ◌∷◌, foldl, map,
  All, ◌==◌, Eq, string_eq, pair_eq, if_cases, ==_cases, ==_refl, inl, inr, if◌then◌else◌, Dict,
  lookup, insert, Distinct, Distinct-tail_ne, insert-Distinct, lookup-insert,
}
use airspace_conformance_pla.Contracts.{TrackUpdate, Timestamp}
use airspace_conformance_pla.Stores.{is_some}
use airspace_conformance_pla.Stores.History.{
  collapse, TrackRow, track_row, track_rows, row_for, IsSingle, PointRow, PointKey, point_row,
  point_for, points,
}
use airspace_conformance_pla.Stores.History.Collapse.{
  newest, row_of, batch_row, lookup-collapse_all, collapse_all-Distinct, IsAbout, newest-IsAbout,
  is_some-earliest,
}

-- What holds of each key with its value holds of the entries.
All-lookup {ℓ κ ι} :
    {K : Type ℓ} {V : Type κ} ⦃e : Eq K⦄ (P : K × V → Type ι) (m : Dict K V)
    → Distinct m
    → ((k : K) (v : V) → lookup k m ≡ some v → P (k, v))
    → All P m
unfolding lookup
All-lookup P [] d h = tt
All-lookup P ((k, v) ∷ m) d h = (
  h k v (rw (==_refl k) refl),
  All-lookup P m d.1 (λ j w p. h j w (rw (Distinct-tail_ne k j v w m d p) p)),
)

module _ {F : Type 0} where
  -- An entry under the track it is about, which has a first report.
  abbrev pub IsFiled : Dict String Timestamp → String × TrackUpdate F → Type 0
  IsFiled fs (k, u) = (u.track_id ≡ k) × (t : Timestamp) × (lookup k fs ≡ some t)

  track_rows_lem :
      (m : Dict String (TrackUpdate F)) (fs : Dict String Timestamp)
      → Distinct m
      → All (IsFiled fs) m
      → (rows : List TrackRow) × (track_rows (map (λ (p : String × TrackUpdate F). p.1) m) fs
          ≡ some rows)
        × ((k : String) → row_for k rows ≡ row_of (lookup k m) (lookup k fs))
        × IsSingle rows
  unfolding track_rows lookup
  track_rows_lem [] fs d h = ([], refl, λ k. refl, tt)
  track_rows_lem ((j, u) ∷ m) fs d (filed, h) =
      let (same, t, there) = filed in
      let (rows, made, found, single) = track_rows_lem m fs d.1 h in
      let id = ap (λ x. lookup x fs) same ∙ there in
      (
        track_row u t ∷ rows,
        rw (made, id) refl,
        λ k.
            ap (λ x. if x == k then some (track_row u t) else row_for k rows) same
            ∙ elim (==_cases j k) [
              | inl q ↦
                  subst
                    (λ x.
                      (if j == x then some (track_row u t) else row_for x rows)
                      ≡ row_of (if j == x then some u else lookup x m) (lookup x fs))
                    q (rw (==_refl j, there) refl)
              | inr other ↦ rw other (found k)
            ],
        (found u.track_id ∙ ap (λ x. row_of (lookup x m) (lookup x fs)) same ∙ rw d.0 refl, single),
      )

  collapsed-IsFiled :
      (us : List (TrackUpdate F)) → let s = foldl collapse ([], []) us in All (IsFiled s.1) s.0
  unfolding lookup
  collapsed-IsFiled us =
      let s = foldl collapse ([], []) us in
      All-lookup (IsFiled s.1) s.0 (collapse_all-Distinct us [] [] tt) (λ k u h.
        let (a, b) = lookup-collapse_all us [] [] k in
        let there = sym a ∙ h in
        let (t, first) =
          is_there (lookup k s.1)
            (ap is_some b ∙ sym (is_some-earliest k us none none refl) ∙ ap is_some there) in
        (subst (IsAbout k) there (newest-IsAbout k us none tt), t, first))
    where
      is_there : (o : Option Timestamp) → is_some o ≡ true → (t : Timestamp) × (o ≡ some t)
      is_there none h = absurd (cc)
      is_there (some t) h = (t, refl)

  -- The rows of a batch can be built, are one for each track, and are those of its newest updates.
  pub batch_rows :
      (us : List (TrackUpdate F))
      → let s = foldl collapse ([], []) us in
        (rows : List TrackRow) × (track_rows (map (λ (p : String × TrackUpdate F). p.1) s.0) s.1
          ≡ some rows)
        × ((k : String) → row_for k rows ≡ batch_row k us)
        × IsSingle rows
  unfolding lookup
  batch_rows us =
      let s = foldl collapse ([], []) us in
      let (rows, made, found, single) =
        track_rows_lem s.0 s.1 (collapse_all-Distinct us [] [] tt) (collapsed-IsFiled us) in
      (
        rows,
        made,
        λ k.
            let (a, b) = lookup-collapse_all us [] [] k in
            found k ∙ ap (λ o. row_of o (lookup k s.1)) a ∙ ap (row_of (newest k us)) b,
        single,
      )

  -- The last update of a batch about a track at a time.
  abbrev pub observe : PointKey → Option (TrackUpdate F) → TrackUpdate F → Option (TrackUpdate F)
  observe p o u = if (u.track_id, u.updated_at) == p then some u else o

  abbrev pub observed : PointKey → List (TrackUpdate F) → Option (TrackUpdate F)
  observed p us = foldl (observe p) none us

  abbrev pub point_of : Option (TrackUpdate F) → Option (PointRow F)
  point_of none = none
  point_of (some u) = some (point_row u)

  lookup-points :
      (us : List (TrackUpdate F)) (m : Dict PointKey (TrackUpdate F)) (p : PointKey)
      → lookup p (foldl (λ m u. insert (u.track_id, u.updated_at) u m) m us)
        ≡ foldl (observe p) (lookup p m) us
  lookup-points [] m p = refl
  lookup-points (u ∷ us) m p =
      lookup-points us (insert (u.track_id, u.updated_at) u m) p
      ∙ ap (λ o. foldl (observe p) o us) (lookup-insert (u.track_id, u.updated_at) p u m)

  points-Distinct :
      (us : List (TrackUpdate F)) (m : Dict PointKey (TrackUpdate F))
      → Distinct m
      → Distinct (foldl (λ m u. insert (u.track_id, u.updated_at) u m) m us)
  points-Distinct [] m d = d
  points-Distinct (u ∷ us) m d =
      points-Distinct us _ (insert-Distinct (u.track_id, u.updated_at) u m d)

  abbrev IsAt : PointKey → Option (TrackUpdate F) → Type 0
  IsAt p none = Unit
  IsAt p (some u) = (u.track_id, u.updated_at) ≡ p

  observed-IsAt :
      (p : PointKey) (us : List (TrackUpdate F)) (o : Option (TrackUpdate F))
      → IsAt p o
      → IsAt p (foldl (observe p) o us)
  observed-IsAt p [] o h = h
  observed-IsAt p (u ∷ us) o h = observed-IsAt p us (observe p o u) (
      if_cases (IsAt p) ((u.track_id, u.updated_at) == p) _ _
        (λ same. (pair_eq.equals_iff _ p).0 same) (λ _. h))

  point_for-map :
      (m : Dict PointKey (TrackUpdate F)) (k : String) (t : Timestamp)
      → All (λ (p : PointKey × TrackUpdate F). IsAt p.0 (some p.1)) m
      → point_for k t (map (λ (p : PointKey × TrackUpdate F). point_row p.1) m)
        ≡ point_of (lookup (k, t) m)
  unfolding lookup
  point_for-map [] k t h = refl
  point_for-map ((q, u) ∷ m) k t h =
      ap
        (λ x.
          if x == (k, t)
          then some (point_row u)
          else point_for k t (map (λ (p : PointKey × TrackUpdate F). point_row p.1) m))
        h.0
      ∙ chosen (q == (k, t)) _ _ (point_for-map m k t h.1)
    where
      chosen :
          (b : Bool) (o : Option (PointRow F)) (o' : Option (TrackUpdate F))
          → o ≡ point_of o'
          → (if b then some (point_row u) else o) ≡ point_of (if b then some u else o')
      chosen true o o' e = refl
      chosen false o o' e = e

  -- The points of a batch are those of the last update about each track at each time.
  pub point_for-points :
      (us : List (TrackUpdate F)) (k : String) (t : Timestamp)
      → point_for k t (map (λ (p : PointKey × TrackUpdate F). point_row p.1) (points us))
        ≡ point_of (observed (k, t) us)
  unfolding points lookup
  point_for-points us k t =
      point_for-map (points us) k t (
        All-lookup (λ (p : PointKey × TrackUpdate F). IsAt p.0 (some p.1)) (points us)
          (points-Distinct us [] tt)
          (λ p u h. subst (IsAt p) (sym (lookup-points us [] p) ∙ h) (observed-IsAt p us none tt)))
      ∙ ap point_of (lookup-points us [] (k, t))
