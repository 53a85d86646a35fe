-- ===== src/Separation/Grid.antt =====
-- services/conformance/separation.py: `_candidate_pairs` and `scan`. The floor division is a function of the
-- interface `Floors`. The warning of `_check_picture_radius` is left out.
pub mod Loops
pub mod Complete
pub mod Scan
use airspace_conformance_pla.Base.{
  ℕ, ◌+◌, String, Bool, true, false, ◌&&◌, not, ◌↔◌, ◌≡◌, refl, ap, sym, ◌∙◌, Option, none, some,
  List, [], ◌∷◌, ◌++◌, foldl, map, any, select, ◌==◌, Eq, string_eq, names_eq, nat_beq, nat_beq_iff,
  product_equals, product_equals_iff, sorted_pair, leb, length, Dict, lookup, insert, Float,
  if◌then◌else◌, arith,
}
use airspace_conformance_pla.Base.Whole.{ℤ, pos, negsuc, pos_part, neg_part, sub_ℕ}
use airspace_conformance_pla.Contracts.{TrackUpdate}
use airspace_conformance_pla.Conflicts.{Conflict}
use airspace_conformance_pla.Geodesy.{knots_to_nm_per_second}
use airspace_conformance_pla.Separation.{Analysis, Kinematics, SeparationMonitor, kinematics}
use airspace_conformance_pla.Separation.Pairs.{test_pair}

abbrev pub add_ℤ : ℤ → ℤ → ℤ
add_ℤ a b = sub_ℕ (pos_part a + pos_part b) (neg_part a + neg_part b)

abbrev pub equals_ℤ : ℤ → ℤ → Bool
equals_ℤ (pos m) (pos n) = nat_beq m n
equals_ℤ (negsuc m) (negsuc n) = nat_beq m n
equals_ℤ _ _ = false

pub equals_ℤ_iff : (x y : ℤ) → (equals_ℤ x y ≡ true) ↔ (x ≡ y)
equals_ℤ_iff (pos m) (pos n) =
    (λ h. ap pos ((nat_beq_iff m n).0 h), λ p. (nat_beq_iff m n).1 (ap pos_part p))
equals_ℤ_iff (negsuc m) (negsuc n) = (
  λ h. ap negsuc ((nat_beq_iff m n).0 h),
  λ p. (nat_beq_iff m n).1 (omega (arith, ap neg_part p)),
)
equals_ℤ_iff (pos m) (negsuc n) = ground arith
equals_ℤ_iff (negsuc m) (pos n) = ground arith

-- A cell of the grid.
abbrev pub Cell : Type 0
Cell = ℤ × ℤ

instance abbrev pub int_eq : Eq ℤ
int_eq = record { equals = equals_ℤ; equals_iff = equals_ℤ_iff }

instance abbrev pub cell_eq : Eq Cell
cell_eq = record {
  equals = product_equals int_eq int_eq;
  equals_iff = product_equals_iff int_eq int_eq;
}

-- `int(x // y)`
pub record Floors (F : Type 0) : Type 0 where
  pub floor_div : F → F → ℤ

-- The offsets `(dx, dy)`, in the order of the loops.
abbrev pub offsets : List Cell
offsets =
    (negsuc 0, negsuc 0)
    ∷ (negsuc 0, pos 0)
    ∷ (negsuc 0, pos 1)
    ∷ (pos 0, negsuc 0)
    ∷ (pos 0, pos 0)
    ∷ (pos 0, pos 1)
    ∷ (pos 1, negsuc 0)
    ∷ (pos 1, pos 0)
    ∷ (pos 1, pos 1)
    ∷ []

abbrev pub moved : Cell → Cell → Cell
moved c d = (add_ℤ c.0 d.0, add_ℤ c.1 d.1)

module _ {S : Type 0} (id : S → String) (cell_of : S → Cell) where
  abbrev pub Pairs : Type 0
  Pairs = List (String × String) × List (S × S)

  abbrev pub occupants_of : Option (List S) → List S
  occupants_of none = []
  occupants_of (some states) = states

  -- `buckets[cell].append(state)`
  abbrev pub put_state : Dict Cell (List S) → S → Dict Cell (List S)
  put_state buckets s =
      let c = cell_of s in insert c (occupants_of (lookup c buckets) ++ s ∷ []) buckets

  unfoldable pub buckets_of : List S → Dict Cell (List S)
  buckets_of states = foldl put_state [] states

  abbrev pub gather : Dict Cell (List S) → Cell → List Cell → List S
  gather buckets c [] = []
  gather buckets c (d ∷ ds) = occupants_of (lookup (moved c d) buckets) ++ gather buckets c ds

  unfoldable pub neighbourhood : Dict Cell (List S) → Cell → List S
  neighbourhood buckets c = gather buckets c offsets

  -- The body of the inner loop.
  abbrev pub consider : S → Pairs → S → Pairs
  consider first (seen, pairs) second =
      let key = sorted_pair (id first) (id second) in
      if id first == id second
      then (seen, pairs)
      else if any (λ k. k == key) seen
      then (seen, pairs)
      else (key ∷ seen, pairs ++ (first, second) ∷ [])

  -- The pairs of a bucket.
  unfoldable pub search_bucket : Dict Cell (List S) → Pairs → Cell × List S → Pairs
  unfolding neighbourhood
  search_bucket buckets found (c, occupants) =
      foldl (λ f first. foldl (consider first) f (neighbourhood buckets c)) found occupants

  unfoldable pub search : List S → Pairs
  unfolding buckets_of search_bucket
  search states = let buckets = buckets_of states in foldl (search_bucket buckets) ([], []) buckets

module _ {F : Type 0} ⦃float : Float F⦄ (world : Analysis F) (floors : Floors F)
    (m : SeparationMonitor F) where
  open float use {literal, mul, add, div}

  -- `_interaction_radius_nm`
  unfoldable pub interaction_radius_nm : F
  unfolding knots_to_nm_per_second
  interaction_radius_nm =
      add (mul (knots_to_nm_per_second (literal 1200)) m.lookahead_s) m.horizontal_nm

  abbrev pub cell_of : Kinematics F → Cell
  unfolding interaction_radius_nm
  cell_of s = (
    floors.floor_div s.east_nm interaction_radius_nm,
    floors.floor_div s.north_nm interaction_radius_nm,
  )

  unfoldable pub candidate_pairs : List (Kinematics F) → List (Kinematics F × Kinematics F)
  unfolding search
  candidate_pairs states = (search (λ s. s.track.track_id) cell_of states).1

  -- `conflicts.sort(key=...)` is stable: a conflict goes behind those that are not later.
  abbrev pub put_conflict : Conflict F → List (Conflict F) → List (Conflict F)
  put_conflict c [] = c ∷ []
  put_conflict c (x ∷ xs) =
      let rest = put_conflict c xs in
      if float.lt c.time_to_cpa_s x.time_to_cpa_s then c ∷ x ∷ xs else x ∷ rest

  abbrev pub with_conflict : List (Conflict F) → Option (Conflict F) → List (Conflict F)
  with_conflict conflicts none = conflicts
  with_conflict conflicts (some c) = conflicts ++ c ∷ []

  -- `sum(...) / len(...)`
  abbrev pub mean : List F → F
  mean xs = div (foldl add (literal 0) xs) (literal (length xs))

  -- `eligible` and `states` of `scan`, with `min_updates`.
  abbrev pub eligible_of : ℕ → List (TrackUpdate F) → List (TrackUpdate F)
  eligible_of min_updates tracks = select (λ t. leb min_updates t.update_count) tracks

  unfoldable pub states_of : List (TrackUpdate F) → List (Kinematics F)
  unfolding kinematics
  states_of eligible =
      let ref_lat = mean (map (λ t. t.lat) eligible) in
      let ref_lon = mean (map (λ t. t.lon) eligible) in
      map (λ t. kinematics world t ref_lat ref_lon) eligible

  abbrev pub test_candidate : List (Conflict F) → Kinematics F × Kinematics F → List (Conflict F)
  unfolding test_pair
  test_candidate conflicts p = with_conflict conflicts (test_pair world m p.0 p.1)

  unfoldable pub scan : ℕ → List (TrackUpdate F) → List (Conflict F)
  unfolding candidate_pairs test_candidate states_of
  scan min_updates tracks =
      let eligible = eligible_of min_updates tracks in
      let conflicts = foldl test_candidate [] (candidate_pairs (states_of eligible)) in
      if leb 2 (length eligible) then foldl (λ xs c. put_conflict c xs) [] conflicts else []
