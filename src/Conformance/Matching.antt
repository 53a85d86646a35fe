-- ===== src/Conformance/Matching.antt =====
-- Which matured prediction is reported.
use mathlib.Core.List.{◌++◌, append_assoc, append-nil}
use mathlib.Core.Path.{subst}
use airspace_conformance_pla.Base.{
  ◌+◌, ◌≡◌, refl, sym, Bool, true, false, not, ◌&&◌, Option, none, some, List, [], ◌∷◌, foldl, map,
  select, ltb, All, All-map, All-append, Float, IsOrdered, arith, inl, inr, ◌⊎◌, Bool-cases,
  if◌then◌else◌,
}
use airspace_conformance_pla.Contracts.{TrackUpdate}
use airspace_conformance_pla.Conformance.{
  PendingPrediction, NonConformance, Predictor, Settings, match_tolerance, worse, deviation,
  check_queue,
}

module _ {F : Type 0} ⦃float : Float F⦄ where
  open float use {lt}

  -- The deviation is beyond its threshold.
  abbrev pub exceeds : NonConformance F → Bool
  exceeds d = lt d.threshold_nm d.error_nm

  abbrev pub IsAmong : NonConformance F → List (NonConformance F) → Type 0
  IsAmong f [] = ⊥
  IsAmong f (d ∷ ds) = (f ≡ d) ⊎ IsAmong f ds

  -- None exceeds its threshold, or the finding is one that does, and none that does is larger.
  abbrev pub IsWorst : Option (NonConformance F) → List (NonConformance F) → Type 0
  IsWorst none ds = All (λ d. exceeds d ≡ false) ds
  IsWorst (some f) ds =
      IsAmong f ds
      × (exceeds f ≡ true)
      × All (λ d. exceeds d ≡ true → lt f.error_nm d.error_nm ≡ false) ds

  IsAmong-last : (d : NonConformance F) (es : List (NonConformance F)) → IsAmong d (es ++ d ∷ [])
  IsAmong-last d [] = inl refl
  IsAmong-last d (e ∷ es) = inr (IsAmong-last d es)

  IsAmong-append :
      (f : NonConformance F) (es ds : List (NonConformance F)) → IsAmong f es → IsAmong f (es ++ ds)
  IsAmong-append f [] ds h = absurd h
  IsAmong-append f (e ∷ es) ds (inl h) = inl h
  IsAmong-append f (e ∷ es) ds (inr h) = inr (IsAmong-append f es ds h)

  module _ (laws : IsOrdered F) where
    open laws use {lt_trans, lt_irrefl}

    -- One more candidate.
    worse-IsWorst :
        (o : Option (NonConformance F)) (d : NonConformance F) (es : List (NonConformance F))
        → IsWorst o es
        → IsWorst (worse o d) (es ++ d ∷ [])
    unfolding worse
    worse-IsWorst none d es h = elim (Bool-cases (exceeds d)) [
      | inl over ↦ rw over (
        IsAmong-last d es,
        over,
        All-append _ es (d ∷ []) (All-map _ _ es (λ e low high. absurd (cc)) h)
            (λ _. lt_irrefl d.error_nm, tt),
      )
      | inr under ↦ rw under (All-append _ es (d ∷ []) h (under, tt))
    ]
    worse-IsWorst (some f) d es h = elim (Bool-cases (exceeds d && lt f.error_nm d.error_nm)) [
      | inl over ↦ rw over (
        IsAmong-last d es,
        ground arith,
        All-append _ es (d ∷ [])
            (All-map _ _ es
              (λ e small high. ground (arith, lt_trans f.error_nm d.error_nm e.error_nm)) h.2)
            (λ _. lt_irrefl d.error_nm, tt),
      )
      | inr under ↦ rw under (
        IsAmong-append f es (d ∷ []) h.0,
        h.1,
        All-append _ es (d ∷ []) h.2 (λ high. ground arith, tt),
      )
    ]

    foldl-IsWorst :
        (ds es : List (NonConformance F)) (o : Option (NonConformance F))
        → IsWorst o es
        → IsWorst (foldl worse o ds) (es ++ ds)
    foldl-IsWorst [] es o h = subst (IsWorst o) (sym (append-nil es)) h
    foldl-IsWorst (d ∷ ds) es o h =
        subst (IsWorst (foldl worse (worse o d) ds)) (append_assoc es (d ∷ []) ds)
          (foldl-IsWorst ds (es ++ d ∷ []) (worse o d) (worse-IsWorst o d es h))

module _ {F : Type 0} where
  -- The prediction is due, give or take the tolerance; and its window has not passed.
  abbrev pub is_due : TrackUpdate F → PendingPrediction F → Bool
  is_due u p = not (ltb (u.updated_at + match_tolerance) p.valid_at)

  abbrev pub is_in_window : TrackUpdate F → PendingPrediction F → Bool
  is_in_window u p = not (ltb (p.valid_at + match_tolerance) u.updated_at)

  abbrev pub due : TrackUpdate F → List (PendingPrediction F) → List (PendingPrediction F)
  due u [] = []
  due u (p ∷ ps) = let rest = due u ps in if is_due u p then p ∷ rest else []

  abbrev pub not_due : TrackUpdate F → List (PendingPrediction F) → List (PendingPrediction F)
  not_due u [] = []
  not_due u (p ∷ ps) = let rest = not_due u ps in if is_due u p then rest else p ∷ ps

module _ {F : Type 0} ⦃float : Float F⦄ (world : Predictor F) (c : Settings F) where
  -- The deviations of the predictions that an update resolves.
  abbrev pub candidates : TrackUpdate F → List (PendingPrediction F) → List (NonConformance F)
  candidates u ps = map (deviation world c u) (select (is_in_window u) (due u ps))

  pub check_queue-lem :
      (u : TrackUpdate F) (ps : List (PendingPrediction F)) (o : Option (NonConformance F))
      → check_queue world c u ps o ≡ (not_due u ps, foldl worse o (candidates u ps))
  unfolding check_queue
  check_queue-lem u [] o = refl
  check_queue-lem u (p ∷ ps) o =
      elim (Bool-cases (ltb (u.updated_at + match_tolerance) p.valid_at)) [
        | inl early ↦ rw early refl
        | inr late ↦ elim (Bool-cases (ltb (p.valid_at + match_tolerance) u.updated_at)) [
          | inl missed ↦ rw (late, missed) (check_queue-lem u ps o)
          | inr taken ↦ rw (late, taken) (check_queue-lem u ps (worse o (deviation world c u p)))
        ]
      ]

  -- With ordered floats, an update takes from the front of its track's queue the predictions that
  -- are due. Of those whose window has not passed it reports one whose error exceeds its
  -- threshold, with no larger error among those that exceed theirs, and nothing exactly if none
  -- does.
  pub check_queue-IsWorst :
      (laws : IsOrdered F) (u : TrackUpdate F) (ps : List (PendingPrediction F))
      → ((check_queue world c u ps none).0 ≡ not_due u ps)
        × IsWorst (check_queue world c u ps none).1 (candidates u ps)
  check_queue-IsWorst laws u ps =
      rw (check_queue-lem u ps none) (refl, foldl-IsWorst laws (candidates u ps) [] none tt)
