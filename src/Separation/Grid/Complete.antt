-- ===== src/Separation/Grid/Complete.antt =====
-- services/conformance/separation.py: the grid of `_candidate_pairs` against the double loop over all the
-- tracks.
use airspace_conformance_pla.Base.{
  String, Bool, true, false, ◌&&◌, ◌||◌, ◌≡◌, ◌∙◌, refl, ap, List, [], ◌∷◌, ◌++◌, any, ◌==◌, Dict,
  lookup, insert, lookup-insert, Bool-cases, inl, inr, Float, arith, sorted_pair, sorted_pair_comm,
}
use airspace_conformance_pla.Base.Whole.{ℤ, pos, negsuc}
use airspace_conformance_pla.Separation.{Analysis, Kinematics, SeparationMonitor}
use airspace_conformance_pla.Separation.Grid.{
  Cell, cell_eq, int_eq, add_ℤ, search, buckets_of, put_state, occupants_of, gather, neighbourhood,
  offsets, moved, candidate_pairs, cell_of, Floors,
}
use airspace_conformance_pla.Separation.Grid.Loops.{
  test-foldl, has_key, IsOnce, matches, saw, search-IsGood, saw-search,
}

any-append {ℓ} :
    {A : Type ℓ} (p : A → Bool) (xs ys : List A) → any p (xs ++ ys) ≡ (any p xs || any p ys)
any-append p [] ys = refl
any-append p (x ∷ xs) ys = ground (arith, any-append p xs ys)

any-or {ℓ} :
    {A : Type ℓ} (p q : A → Bool) (xs : List A) → (any p xs || any q xs) ≡ any (λ x. p x || q x) xs
any-or p q [] = refl
any-or p q (x ∷ xs) = ground (arith, any-or p q xs)

any-cong {ℓ} :
    {A : Type ℓ} (p q : A → Bool) (xs : List A) → ((x : A) → p x ≡ q x) → any p xs ≡ any q xs
any-cong p q xs h = ap (λ f. any f xs) (λ i x. h x i)

-- The second number is the first, one less or one more.
abbrev pub is_near : ℤ → ℤ → Bool
is_near x y = y == add_ℤ x (negsuc 0) || (y == x || y == add_ℤ x (pos 1))

-- The cells are one, or touch at an edge or a corner.
abbrev pub are_adjacent : Cell → Cell → Bool
are_adjacent c other = is_near c.0 other.0 && is_near c.1 other.1

nine :
    (a b c x y z : Bool)
    → ((a && x)
        || ((a && y)
            || ((a && z)
                || ((b && x)
                    || ((b && y)
                        || ((b && z) || ((c && x) || ((c && y) || ((c && z) || false)))))))))
      ≡ ((a || (b || c)) && (x || (y || z)))
nine false false false x y z = ground arith
nine false false true x y z = ground arith
nine false true c x y z = ground arith
nine true b c x y z = ground arith

add_zero : (x : ℤ) → add_ℤ x (pos 0) ≡ x
add_zero (pos n) = ground arith
add_zero (negsuc n) = ground arith

-- The nine offsets reach exactly the adjacent cells.
any-offsets : (c other : Cell) → any (λ d. other == moved c d) offsets ≡ are_adjacent c other
any-offsets (x, y) (v, w) =
    rw (add_zero x, add_zero y)
      (nine (v == add_ℤ x (negsuc 0)) (v == x) (v == add_ℤ x (pos 1)) (w == add_ℤ y (negsuc 0))
        (w == y) (w == add_ℤ y (pos 1)))

module _ {S : Type 0} (id : S → String) (cell_of : S → Cell) where
  any-put_state :
      (P : Cell → S → Bool) (m : Dict Cell (List S)) (s : S)
      → any (λ (e : Cell × List S). any (P e.0) e.1) (put_state id cell_of m s)
        ≡ (any (λ (e : Cell × List S). any (P e.0) e.1) m || P (cell_of s) s)
  unfolding lookup insert
  any-put_state P [] s = ground arith
  any-put_state P ((c, occupants) ∷ m) s = elim (Bool-cases (c == cell_of s)) [
    | inl same ↦ rw same (
        ap (λ b. b || any (λ (e : Cell × List S). any (P e.0) e.1) m)
          (any-append (P c) occupants (s ∷ []))
        ∙ ap
            (λ x.
              (any (P c) occupants || (P x s || false))
              || any (λ (e : Cell × List S). any (P e.0) e.1) m)
            ((cell_eq.equals_iff c (cell_of s)).0 same)
        ∙ first (any (P c) occupants) (P (cell_of s) s)
            (any (λ (e : Cell × List S). any (P e.0) e.1) m))
    | inr other ↦ rw other (
        ap
          (λ o.
            any (P c) occupants
            || any (λ (e : Cell × List S). any (P e.0) e.1)
                (insert (cell_of s) (occupants_of id cell_of o ++ s ∷ []) m))
          (skip other)
        ∙ ap (λ b. any (P c) occupants || b) (any-put_state P m s)
        ∙ later (any (P c) occupants) (any (λ (e : Cell × List S). any (P e.0) e.1) m)
            (P (cell_of s) s))
  ]
    where
      skip :
          (c == cell_of s) ≡ false → lookup (cell_of s) ((c, occupants) ∷ m) ≡ lookup (cell_of s) m
      skip other = rw other refl

      first : (a b c : Bool) → ((a || (b || false)) || c) ≡ ((a || c) || b)
      first a b c = ground arith

      later : (a b c : Bool) → (a || (b || c)) ≡ ((a || b) || c)
      later a b c = ground arith

  -- The buckets have each state once, under its cell.
  any-buckets_of :
      (P : Cell → S → Bool) (states : List S)
      → any (λ (e : Cell × List S). any (P e.0) e.1) (buckets_of id cell_of states)
        ≡ any (λ s. P (cell_of s) s) states
  unfolding buckets_of
  any-buckets_of P states =
      test-foldl (λ m. any (λ (e : Cell × List S). any (P e.0) e.1) m) (put_state id cell_of)
        (λ s. P (cell_of s) s) (any-put_state P) [] states

  any-occupants :
      (Q : S → Bool) (c : Cell) (m : Dict Cell (List S)) (s : S)
      → any Q (occupants_of id cell_of (lookup c (put_state id cell_of m s)))
        ≡ (any Q (occupants_of id cell_of (lookup c m)) || ((cell_of s == c) && Q s))
  any-occupants Q c m s =
      let w = occupants_of id cell_of (lookup (cell_of s) m) ++ s ∷ [] in
      ap (λ o. any Q (occupants_of id cell_of o)) (lookup-insert (cell_of s) c w m)
      ∙ elim (Bool-cases (cell_of s == c)) [
        | inl same ↦ rw same (
            any-append Q (occupants_of id cell_of (lookup (cell_of s) m)) (s ∷ [])
            ∙ ap (λ x. any Q (occupants_of id cell_of (lookup x m)) || (Q s || false))
                ((cell_eq.equals_iff (cell_of s) c).0 same)
            ∙ last (any Q (occupants_of id cell_of (lookup c m))) (Q s))
        | inr other ↦ rw other (nothing (any Q (occupants_of id cell_of (lookup c m))))
      ]
    where
      last : (a b : Bool) → (a || (b || false)) ≡ (a || (true && b))
      last a b = ground arith

      nothing : (a : Bool) → a ≡ (a || false)
      nothing a = ground arith

  any-bucket :
      (Q : S → Bool) (c : Cell) (states : List S)
      → any Q (occupants_of id cell_of (lookup c (buckets_of id cell_of states)))
        ≡ any (λ s. (cell_of s == c) && Q s) states
  unfolding buckets_of lookup
  any-bucket Q c states =
      test-foldl (λ m. any Q (occupants_of id cell_of (lookup c m))) (put_state id cell_of)
        (λ s. (cell_of s == c) && Q s) (any-occupants Q c) [] states

  any-gather :
      (Q : S → Bool) (c : Cell) (ds : List Cell) (states : List S)
      → any Q (gather id cell_of (buckets_of id cell_of states) c ds)
        ≡ any (λ s. any (λ d. cell_of s == moved c d) ds && Q s) states
  any-gather Q c [] states = none_of states
    where
      none_of : (xs : List S) → false ≡ any (λ s. false && Q s) xs
      none_of [] = refl
      none_of (x ∷ xs) = none_of xs
  any-gather Q c (d ∷ ds) states =
      any-append Q (occupants_of id cell_of (lookup (moved c d) (buckets_of id cell_of states))) _
      ∙ (λ i. any-bucket Q (moved c d) states i || any-gather Q c ds states i)
      ∙ any-or (λ s. (cell_of s == moved c d) && Q s)
          (λ s. any (λ x. cell_of s == moved c x) ds && Q s) states
      ∙ any-cong _ _ states
          (λ s. either (cell_of s == moved c d) (any (λ x. cell_of s == moved c x) ds) (Q s))
    where
      either : (a b q : Bool) → ((a && q) || (b && q)) ≡ ((a || b) && q)
      either a b q = ground arith

  -- The search finds the keys that the double loop over the states finds, among tracks in
  -- adjacent cells.
  saw-search_all :
      (states : List S) (key : String × String)
      → saw id cell_of key (search id cell_of states)
        ≡ any
            (λ a.
              any (λ b. are_adjacent (cell_of a) (cell_of b) && matches id cell_of key a b) states)
            states
  unfolding neighbourhood
  saw-search_all states key =
      let buckets = buckets_of id cell_of states in
      saw-search id cell_of states key
      ∙ any-buckets_of (λ c a. any (matches id cell_of key a) (neighbourhood id cell_of buckets c))
          states
      ∙ any-cong _ _ states (λ a.
        any-gather (matches id cell_of key a) (cell_of a) offsets states
        ∙ any-cong _ _ states (λ b.
          ap (λ near. near && matches id cell_of key a b) (any-offsets (cell_of a) (cell_of b))))

abbrev pub name_of : {F : Type 0} → Kinematics F → String
name_of s = s.track.track_id

module _ {F : Type 0} ⦃float : Float F⦄ (world : Analysis F) (floors : Floors F)
    (m : SeparationMonitor F) where
  -- The candidates are the pairs that the double loop over all the states finds, without their
  -- order: two track ids are those of a candidate exactly if they differ and stand in cells that
  -- are one or adjacent. No two candidates are of the same two tracks.
  pub candidate_pairs_lem :
      (states : List (Kinematics F))
      → let cell = cell_of world floors m in
        let pairs = candidate_pairs world floors m states in
        ((key : String × String)
          → has_key name_of cell key pairs
            ≡ any
                (λ a.
                  any (λ b. are_adjacent (cell a) (cell b) && matches name_of cell key a b) states)
                states)
        × IsOnce name_of cell pairs
        × ((s t : String) → sorted_pair s t ≡ sorted_pair t s)
  unfolding candidate_pairs
  candidate_pairs_lem states =
      let cell = cell_of world floors m in
      let (same, once) = search-IsGood name_of cell states in
      (λ key. same key ∙ saw-search_all name_of cell states key, once, sorted_pair_comm)
