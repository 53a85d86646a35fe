-- ===== src/Separation/Grid/Loops.antt =====
-- services/conformance/separation.py: what the loops of `_candidate_pairs` do to `seen` and `pairs`.
use mathlib.Core.Path.{subst}
use airspace_conformance_pla.Base.{
  String, Bool, true, false, ◌&&◌, ◌||◌, not, ◌≡◌, ◌∙◌, refl, ap, List, [], ◌∷◌, ◌++◌, foldl, any,
  ◌==◌, ==_cases, ==_symm, string_eq, names_eq, sorted_pair, Dict, if_cases, inl, inr, arith,
}
use airspace_conformance_pla.Separation.Grid.{
  Cell, Pairs, consider, search_bucket, search, buckets_of, neighbourhood,
}

-- A test that each step of a loop extends by what it sees, after the loop.
pub test-foldl {ℓ κ} :
    {S : Type ℓ} {X : Type κ} (holds : S → Bool) (f : S → X → S) (t : X → Bool)
    → ((s : S) (x : X) → holds (f s x) ≡ (holds s || t x))
    → (s : S) (xs : List X) → holds (foldl f s xs) ≡ (holds s || any t xs)
test-foldl holds f t step s [] = ground arith
test-foldl holds f t step s (x ∷ xs) =
    test-foldl holds f t step (f s x) xs ∙ ap (λ b. b || any t xs) (step s x) ∙ ground arith

pub foldl-keeps {ℓ κ ι} :
    {S : Type ℓ} {X : Type κ} (P : S → Type ι) (f : S → X → S)
    → ((s : S) (x : X) → P s → P (f s x))
    → (s : S) (xs : List X) → P s
    → P (foldl f s xs)
foldl-keeps P f step s [] h = h
foldl-keeps P f step s (x ∷ xs) h = foldl-keeps P f step (f s x) xs (step s x h)

module _ {S : Type 0} (id : S → String) (cell_of : S → Cell) where
  -- The key of a pair, which is one for both its orders.
  abbrev pub key_of : S × S → String × String
  key_of p = sorted_pair (id p.0) (id p.1)

  abbrev pub has_key : String × String → List (S × S) → Bool
  has_key key pairs = any (λ p. key_of p == key) pairs

  -- No two of the pairs are of the same two tracks.
  abbrev pub IsOnce : List (S × S) → Type 0
  IsOnce [] = Unit
  IsOnce (p ∷ ps) = (has_key (key_of p) ps ≡ false) × IsOnce ps

  abbrev pub saw : String × String → Pairs id cell_of → Bool
  saw key found = any (λ k. k == key) found.0

  -- Two tracks that are not the same one, of a key.
  abbrev pub matches : String × String → S → S → Bool
  matches key first second =
      not (id first == id second) && (sorted_pair (id first) (id second) == key)

  has_key-snoc :
      (key : String × String) (ps : List (S × S)) (p : S × S)
      → has_key key (ps ++ p ∷ []) ≡ ((key_of p == key) || has_key key ps)
  has_key-snoc key [] p = refl
  has_key-snoc key (q ∷ ps) p =
      rw (has_key-snoc key ps p) (swap (key_of q == key) (key_of p == key) (has_key key ps))
    where
      swap : (a b c : Bool) → (a || (b || c)) ≡ (b || (a || c))
      swap a b c = ground arith

  IsOnce-snoc :
      (ps : List (S × S)) (p : S × S)
      → has_key (key_of p) ps ≡ false
      → IsOnce ps
      → IsOnce (ps ++ p ∷ [])
  IsOnce-snoc [] p h once = (refl, tt)
  IsOnce-snoc (q ∷ ps) p h once =
      let (other, rest) = neither (key_of q == key_of p) (has_key (key_of p) ps) h in
      (
        has_key-snoc (key_of q) ps p ∙ rw (==_symm (key_of q) (key_of p) other, once.0) refl,
        IsOnce-snoc ps p rest once.1,
      )
    where
      neither : (a b : Bool) → (a || b) ≡ false → (a ≡ false) × (b ≡ false)
      neither a b e = ground arith

  saw-consider :
      (key : String × String) (first second : S) (found : Pairs id cell_of)
      → saw key (consider id cell_of first found second)
        ≡ (saw key found || matches key first second)
  saw-consider key first second found =
      let k = sorted_pair (id first) (id second) in
      let goal =
        λ (f : Pairs id cell_of). saw key f ≡ (saw key found || matches key first second) in
      if_cases goal (id first == id second) _ _ (λ same. rw same (with_nothing (saw key found)))
        (λ other.
          if_cases goal (any (λ x. x == k) found.0) _ _ (λ known. rw other (with_known known))
            (λ new. rw other (put_first (k == key) (saw key found))))
    where
      with_nothing :
          (a : Bool) → a ≡ (a || (not true && (sorted_pair (id first) (id second) == key)))
      with_nothing a = ground arith

      put_first : (a b : Bool) → (a || b) ≡ (b || (not false && a))
      put_first a b = ground arith

      or_false : (a : Bool) → a ≡ (a || (not false && false))
      or_false a = ground arith

      with_known :
          any (λ x. x == sorted_pair (id first) (id second)) found.0 ≡ true
          → saw key found
            ≡ (saw key found || (not false && (sorted_pair (id first) (id second) == key)))
      with_known known = elim (==_cases (sorted_pair (id first) (id second)) key) [
        | inl same ↦ rw (subst (λ x. any (λ y. y == x) found.0 ≡ true) same known) refl
        | inr other ↦ rw other (or_false (saw key found))
      ]

  -- `seen` has the keys of the pairs, and no pair stands twice.
  abbrev pub IsGood : Pairs id cell_of → Type 0
  IsGood found = ((key : String × String) → has_key key found.1 ≡ saw key found) × IsOnce found.1

  consider-IsGood :
      (first second : S) (found : Pairs id cell_of)
      → IsGood found
      → IsGood (consider id cell_of first found second)
  consider-IsGood first second found good =
      let k = sorted_pair (id first) (id second) in
      if_cases IsGood (id first == id second) _ _ (λ same. good)
        (λ other.
          if_cases IsGood (any (λ x. x == k) found.0) _ _ (λ known. good)
            (λ new. (
              λ key.
                  has_key-snoc key found.1 (first, second) ∙ ap (λ b. (k == key) || b) (good.0 key),
              IsOnce-snoc found.1 (first, second) (good.0 k ∙ new) good.1,
            )))

  -- The keys of a bucket's pairs are those of its occupants with their neighbourhood.
  saw-search_bucket :
      (buckets : Dict Cell (List S)) (key : String × String) (found : Pairs id cell_of)
      (e : Cell × List S)
      → saw key (search_bucket id cell_of buckets found e) ≡ (
          saw key found
          || any (λ first. any (matches key first) (neighbourhood id cell_of buckets e.0)) e.1)
  unfolding search_bucket
  saw-search_bucket buckets key found (c, occupants) =
      let near = neighbourhood id cell_of buckets c in
      test-foldl (saw key) (λ f first. foldl (consider id cell_of first) f near)
        (λ first. any (matches key first) near)
        (λ f first.
          test-foldl (saw key) (consider id cell_of first) (matches key first)
            (λ g second. saw-consider key first second g) f near)
        found occupants

  search_bucket-IsGood :
      (buckets : Dict Cell (List S)) (found : Pairs id cell_of) (e : Cell × List S)
      → IsGood found
      → IsGood (search_bucket id cell_of buckets found e)
  unfolding search_bucket
  search_bucket-IsGood buckets found (c, occupants) good =
      let near = neighbourhood id cell_of buckets c in
      foldl-keeps IsGood (λ f first. foldl (consider id cell_of first) f near)
        (λ f first h.
          foldl-keeps IsGood (consider id cell_of first)
            (λ g second. consider-IsGood first second g) f near h)
        found occupants good

  pub search-IsGood : (states : List S) → IsGood (search id cell_of states)
  unfolding search
  search-IsGood states =
      let buckets = buckets_of id cell_of states in
      foldl-keeps IsGood (search_bucket id cell_of buckets)
        (λ f e. search_bucket-IsGood buckets f e) ([], []) buckets ((λ key. refl), tt)

  pub saw-search :
      (states : List S) (key : String × String)
      → let buckets = buckets_of id cell_of states in
        saw key (search id cell_of states)
        ≡ any
            (λ e. any (λ first. any (matches key first) (neighbourhood id cell_of buckets e.0)) e.1)
            buckets
  unfolding search
  saw-search states key =
      let buckets = buckets_of id cell_of states in
      test-foldl (saw key) (search_bucket id cell_of buckets)
        (λ e. any (λ first. any (matches key first) (neighbourhood id cell_of buckets e.0)) e.1)
        (λ f e. saw-search_bucket buckets key f e) ([], []) buckets
