-- ===== src/ConflictTruth/Runs.antt =====
-- eval/conflict_truth.py: how the violations of a pair are merged.
use mathlib.Core.Path.{subst}
use mathlib.Core.List.{Perm, append-nil, append_assoc}
use mathlib.Core.List.Perm
use airspace_conformance_pla.Base.{
  ◌+◌, ◌≤◌, ◌<◌, ◌≡◌, refl, ap, ◌∙◌, List, [], ◌∷◌, ◌++◌, All, All-map, All-append, leb, leb→lt,
  arith, Bool-cases, inl, inr,
}
use airspace_conformance_pla.ConflictTruth.{
  Violation, event_bridge, sort_violations, runs_from, runs_of,
}
use airspace_conformance_pla.ConflictTruth.Sorting.{
  IsSorted, sort_violations-IsSorted, sort_violations-perm,
}

module _ {ℓ} {A : Type ℓ} where
  abbrev pub flatten : List (List A) → List A
  flatten [] = []
  flatten (xs ∷ xss) = xs ++ flatten xss

module _ {F : Type 0} where
  -- Each violation comes at most the bridge after the one before it.
  abbrev pub IsBridged : Violation F → List (Violation F) → Type 0
  IsBridged v [] = Unit
  IsBridged v (w ∷ vs) = (w.at ≤ v.at + event_bridge) × IsBridged w vs

  abbrev pub IsRun : List (Violation F) → Type 0
  IsRun [] = ⊥
  IsRun (v ∷ vs) = IsBridged v vs

  -- Violations of different runs are further apart than the bridge, the later run's being later.
  abbrev pub AreApart : List (List (Violation F)) → Type 0
  AreApart [] = Unit
  AreApart (run ∷ runs) =
      All (λ w. All (λ v. v.at + event_bridge < w.at) run) (flatten runs) × AreApart runs

  flatten-runs_from :
      (run : List (Violation F)) (last : Violation F) (vs : List (Violation F))
      → flatten (runs_from run last vs) ≡ run ++ vs
  unfolding runs_from
  flatten-runs_from run last [] = refl
  flatten-runs_from run last (v ∷ vs) = elim (Bool-cases (leb v.at (last.at + event_bridge))) [
    | inl near ↦ rw near (flatten-runs_from (run ++ v ∷ []) v vs ∙ append_assoc run (v ∷ []) vs)
    | inr far ↦ rw far (ap (λ l. run ++ l) (flatten-runs_from (v ∷ []) v vs))
  ]

  pub flatten-runs_of : (vs : List (Violation F)) → flatten (runs_of vs) ≡ vs
  unfolding runs_of
  flatten-runs_of [] = refl
  flatten-runs_of (v ∷ vs) = flatten-runs_from (v ∷ []) v vs

  IsRun-extend :
      (front : List (Violation F)) (last v : Violation F)
      → IsRun (front ++ last ∷ [])
      → v.at ≤ last.at + event_bridge
      → IsRun ((front ++ last ∷ []) ++ v ∷ [])
  IsRun-extend [] last v h near = (near, tt)
  IsRun-extend (u ∷ []) last v h near = (h.0, (near, tt))
  IsRun-extend (u ∷ w ∷ front) last v h near = (h.0, IsRun-extend (w ∷ front) last v h.1 near)

  runs_from-AreRuns :
      (front : List (Violation F)) (last : Violation F) (vs : List (Violation F))
      → IsRun (front ++ last ∷ [])
      → All IsRun (runs_from (front ++ last ∷ []) last vs)
  unfolding runs_from
  runs_from-AreRuns front last [] h = (h, tt)
  runs_from-AreRuns front last (v ∷ vs) h = elim (Bool-cases (leb v.at (last.at + event_bridge))) [
    | inl near ↦
        rw near
          (runs_from-AreRuns (front ++ last ∷ []) v vs (IsRun-extend front last v h (ground arith)))
    | inr far ↦ rw far (h, runs_from-AreRuns [] v vs tt)
  ]

  runs_from-AreApart :
      (run : List (Violation F)) (last : Violation F) (vs : List (Violation F))
      → All (λ u. u.at ≤ last.at) run
      → IsSorted (last ∷ vs)
      → AreApart (runs_from run last vs)
  unfolding runs_from
  runs_from-AreApart run last [] before s = (tt, tt)
  runs_from-AreApart run last (v ∷ vs) before s =
      elim (Bool-cases (leb v.at (last.at + event_bridge))) [
        | inl near ↦ rw near (
            runs_from-AreApart (run ++ v ∷ []) v vs
              (All-append (λ u. u.at ≤ v.at) run (v ∷ [])
                (All-map (λ u. u.at ≤ last.at) (λ u. u.at ≤ v.at) run
                  (λ u h. omega (arith, h, s.0.0)) before)
                (omega arith, tt))
              s.1)
        | inr far ↦
            let gap = leb→lt v.at (last.at + event_bridge) far in
            rw far (
              rw (flatten-runs_from (v ∷ []) v vs) (
                  All-map (λ w. v.at ≤ w.at) (λ w. All (λ u. u.at + event_bridge < w.at) run)
                    (v ∷ vs)
                    (λ w k.
                      All-map (λ u. u.at ≤ last.at) (λ u. u.at + event_bridge < w.at) run
                        (λ u h. omega (arith, h, k, gap)) before)
                    (omega arith, s.1.0)),
              runs_from-AreApart (v ∷ []) v vs (omega arith, tt) s.1,
            )
      ]

  -- The violations of a pair, in the order of their times, are cut into runs, none of them empty:
  -- every violation is in exactly one. In a run each comes at most the bridge of 30 seconds after
  -- the one before it, also exactly 30 seconds, and two of different runs are further apart than
  -- that, the run of the later one standing later.
  pub runs_of-AreRuns :
      (vs : List (Violation F))
      → let runs = runs_of (sort_violations [] vs) in
        Perm (flatten runs) vs × IsSorted (flatten runs) × All IsRun runs × AreApart runs
  unfolding runs_of
  runs_of-AreRuns vs =
      let sorted = sort_violations-IsSorted [] vs tt in
      let perm = Perm.trans (sort_violations-perm [] vs) (same_list (append-nil vs)) in
      runs_of_sorted (sort_violations [] vs) vs perm sorted
    where
      same_list : {xs ys : List (Violation F)} → xs ≡ ys → Perm xs ys
      same_list {xs} e = subst (Perm xs) e (Perm.refl xs)

      runs_of_sorted :
          (ws vs : List (Violation F))
          → Perm ws vs
          → IsSorted ws
          → Perm (flatten (runs_of ws)) vs
            × IsSorted (flatten (runs_of ws))
            × All IsRun (runs_of ws)
            × AreApart (runs_of ws)
      runs_of_sorted [] vs p s = (p, s, tt, tt)
      runs_of_sorted (w ∷ ws) vs p s =
          let e = flatten-runs_from (w ∷ []) w ws in
          (
            rw e p,
            rw e s,
            runs_from-AreRuns [] w ws tt,
            runs_from-AreApart (w ∷ []) w ws (omega arith, tt) s,
          )
