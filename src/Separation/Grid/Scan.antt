-- ===== src/Separation/Grid/Scan.antt =====
-- services/conformance/separation.py: what `scan` returns.
use airspace_conformance_pla.Base.{
  ℕ, Bool, true, false, ◌||◌, ◌≡◌, ◌∙◌, Option, none, some, List, [], ◌∷◌, foldl, any, leb, length,
  Float, IsOrdered, found, Bool-cases, if_cases, inl, inr, arith,
}
use airspace_conformance_pla.Contracts.{TrackUpdate}
use airspace_conformance_pla.Conflicts.{Conflict}
use airspace_conformance_pla.Separation.{Analysis, SeparationMonitor}
use airspace_conformance_pla.Separation.Pairs.{test_pair}
use airspace_conformance_pla.Separation.Grid.{
  Floors, candidate_pairs, put_conflict, with_conflict, test_candidate, eligible_of, states_of,
  scan,
}
use airspace_conformance_pla.Separation.Grid.Loops.{test-foldl, foldl-keeps}

module _ {F : Type 0} ⦃float : Float F⦄ (world : Analysis F) (floors : Floors F)
    (m : SeparationMonitor F) where
  -- The second of two conflicts is not sooner than the first.
  abbrev pub IsBehind : Conflict F → List (Conflict F) → Type 0
  IsBehind c [] = Unit
  IsBehind c (x ∷ xs) = float.lt x.time_to_cpa_s c.time_to_cpa_s ≡ false

  -- No conflict is sooner than the one before it.
  abbrev pub IsSorted : List (Conflict F) → Type 0
  IsSorted [] = Unit
  IsSorted (c ∷ cs) = IsBehind c cs × IsSorted cs

  any-put_conflict :
      (q : Conflict F → Bool) (c : Conflict F) (xs : List (Conflict F))
      → any q (put_conflict world floors m c xs) ≡ (any q xs || q c)
  any-put_conflict q c [] = ground arith
  any-put_conflict q c (x ∷ xs) = ground (arith, any-put_conflict q c xs)

  any-with_conflict :
      (q : Conflict F → Bool) (cs : List (Conflict F)) (o : Option (Conflict F))
      → any q (with_conflict world floors m cs o) ≡ (any q cs || found q o)
  any-with_conflict q cs none = ground arith
  any-with_conflict q [] (some c) = ground arith
  any-with_conflict q (x ∷ cs) (some c) = ground (arith, any-with_conflict q cs (some c))

  module _ (order : IsOrdered F) where
    not_sooner :
        (c x : Conflict F)
        → float.lt c.time_to_cpa_s x.time_to_cpa_s ≡ true
        → float.lt x.time_to_cpa_s c.time_to_cpa_s ≡ false
    not_sooner c x h = elim (Bool-cases (float.lt x.time_to_cpa_s c.time_to_cpa_s)) [
      | inl back ↦ absurd (both (order.lt_trans _ _ _ h back) (order.lt_irrefl c.time_to_cpa_s))
      | inr ahead ↦ ahead
    ]
      where
        both : {b : Bool} → b ≡ true → b ≡ false → ⊥
        both p q = absurd (cc)

    put_conflict-IsBehind :
        (p c : Conflict F) (xs : List (Conflict F))
        → float.lt c.time_to_cpa_s p.time_to_cpa_s ≡ false
        → IsBehind p xs
        → IsBehind p (put_conflict world floors m c xs)
    put_conflict-IsBehind p c [] h b = h
    put_conflict-IsBehind p c (x ∷ xs) h b =
        if_cases (IsBehind p) (float.lt c.time_to_cpa_s x.time_to_cpa_s) _ _ (λ _. h) (λ _. b)

    put_conflict-IsSorted :
        (c : Conflict F) (xs : List (Conflict F))
        → IsSorted xs
        → IsSorted (put_conflict world floors m c xs)
    put_conflict-IsSorted c [] s = (tt, tt)
    put_conflict-IsSorted c (x ∷ xs) s =
        if_cases IsSorted (float.lt c.time_to_cpa_s x.time_to_cpa_s) _ _
          (λ sooner. (not_sooner c x sooner, s))
          (λ later. (put_conflict-IsBehind x c xs later s.0, put_conflict-IsSorted c xs s.1))

    -- If at least two tracks are eligible: the conflicts come soonest first, and they are exactly
    -- those that the pair test finds among the candidates of the eligible tracks; whatever can be
    -- asked of a conflict holds of one of them exactly if it holds of what a candidate gives.
    pub scan_lem :
        (min_updates : ℕ) (tracks : List (TrackUpdate F))
        → leb 2 (length (eligible_of world floors m min_updates tracks)) ≡ true
        → let conflicts = scan world floors m min_updates tracks in
          let candidates =
            candidate_pairs world floors m
              (states_of world floors m (eligible_of world floors m min_updates tracks)) in
          IsSorted conflicts
          × ((q : Conflict F → Bool)
              → any q conflicts ≡ any (λ p. found q (test_pair world m p.0 p.1)) candidates)
    unfolding scan test_candidate
    scan_lem min_updates tracks enough =
        let candidates =
          candidate_pairs world floors m
            (states_of world floors m (eligible_of world floors m min_updates tracks)) in
        let unsorted = foldl (test_candidate world floors m) [] candidates in
        rw enough (
          foldl-keeps IsSorted (λ xs c. put_conflict world floors m c xs)
              (λ xs c. put_conflict-IsSorted c xs) [] unsorted tt,
          λ q.
              test-foldl (any q) (λ xs c. put_conflict world floors m c xs) q
                (λ xs c. any-put_conflict q c xs) [] unsorted
              ∙ test-foldl (any q) (test_candidate world floors m)
                  (λ p. found q (test_pair world m p.0 p.1))
                  (λ cs p. any-with_conflict q cs (test_pair world m p.0 p.1)) [] candidates,
        )
