-- ===== src/ConflictTruth/Sorting.antt =====
-- eval/conflict_truth.py: the violations of a pair in the order of their times.
use mathlib.Core.List.{Perm, perm_middle}
use mathlib.Core.List.Perm
use airspace_conformance_pla.Base.{
  ◌≤◌, List, [], ◌∷◌, ◌++◌, All, All-map, ltb, arith, Bool-cases, inl, inr,
}
use airspace_conformance_pla.ConflictTruth.{Violation, put_violation, sort_violations}

module _ {F : Type 0} where
  abbrev pub IsSorted : List (Violation F) → Type 0
  IsSorted [] = Unit
  IsSorted (v ∷ vs) = All (λ w. v.at ≤ w.at) vs × IsSorted vs

  pub All-put_violation :
      (P : Violation F → Type 0) (v : Violation F) (vs : List (Violation F))
      → P v
      → All P vs
      → All P (put_violation v vs)
  unfolding put_violation
  All-put_violation P v [] p h = (p, tt)
  All-put_violation P v (w ∷ vs) p h = elim (Bool-cases (ltb v.at w.at)) [
    | inl earlier ↦ rw earlier (p, h)
    | inr later ↦ rw later (h.0, All-put_violation P v vs p h.1)
  ]

  put_violation-IsSorted :
      (v : Violation F) (vs : List (Violation F)) → IsSorted vs → IsSorted (put_violation v vs)
  unfolding put_violation
  put_violation-IsSorted v [] s = (tt, tt)
  put_violation-IsSorted v (w ∷ vs) s = elim (Bool-cases (ltb v.at w.at)) [
    | inl earlier ↦ rw earlier (
      (ground arith, All-map (λ u. w.at ≤ u.at) (λ u. v.at ≤ u.at) vs (λ u h. ground arith) s.0),
      s,
    )
    | inr later ↦ rw later (
      All-put_violation (λ u. w.at ≤ u.at) v vs (ground arith) s.0,
      put_violation-IsSorted v vs s.1,
    )
  ]

  put_violation-perm :
      (v : Violation F) (vs : List (Violation F)) → Perm (put_violation v vs) (v ∷ vs)
  unfolding put_violation
  put_violation-perm v [] = Perm.refl (v ∷ [])
  put_violation-perm v (w ∷ vs) = elim (Bool-cases (ltb v.at w.at)) [
    | inl earlier ↦ rw earlier (Perm.refl (v ∷ w ∷ vs))
    | inr later ↦ rw later (Perm.trans (Perm.cons w (put_violation-perm v vs)) (Perm.swap v w vs))
  ]

  pub sort_violations-IsSorted :
      (done vs : List (Violation F)) → IsSorted done → IsSorted (sort_violations done vs)
  unfolding sort_violations
  sort_violations-IsSorted done [] s = s
  sort_violations-IsSorted done (v ∷ vs) s =
      sort_violations-IsSorted (put_violation v done) vs (put_violation-IsSorted v done s)

  pub sort_violations-perm :
      (done vs : List (Violation F)) → Perm (sort_violations done vs) (vs ++ done)
  unfolding sort_violations
  sort_violations-perm done [] = Perm.refl done
  sort_violations-perm done (v ∷ vs) =
      Perm.trans (sort_violations-perm (put_violation v done) vs)
        (Perm.trans (Perm.append_left vs (put_violation-perm v done)) (perm_middle vs done))
