-- ===== src/Separation/Reports.antt =====
-- What a reported conflict says.
use mathlib.Core.Path.{subst}
use mathlib.Core.Option.{some-injective}
use airspace_conformance_pla.Base.{
  ◌≡◌, ◌∙◌, refl, sym, ap, Option, none, some, true, Float, IsOrdered, ◌≼◌, fmax, fmin, inl, inr,
  Bool-cases, arith,
}
use airspace_conformance_pla.Conflicts.{Conflict}
use airspace_conformance_pla.Separation.{Analysis, Kinematics, SeparationMonitor, Interval, overlap}
use airspace_conformance_pla.Separation.Pairs.{
  window, t_cpa, t_report, probability, decide, conflict, is_out_of_reach, test_pair,
  min_horizontal, min_vertical,
}

module _ {F : Type 0} ⦃float : Float F⦄ (laws : IsOrdered F) where
  open float use {lt}
  open laws use {refl_of_le, le_of_lt, le_trans}

  overlap-nonempty :
      (a b : Option (Interval F)) (horizon : F) (w : Interval F)
      → overlap a b horizon ≡ some w
      → lt w.0 w.1 ≡ true
  unfolding overlap
  overlap-nonempty none b horizon w h = absurd (cc)
  overlap-nonempty (some a) none horizon w h = absurd (cc)
  overlap-nonempty (some a) (some b) horizon w h = ground arith

  -- Clamping to an interval that is not empty.
  clamp : (s e t : F) → lt s e ≡ true → (s ≼ fmax s (fmin e t)) × (fmax s (fmin e t) ≼ e)
  unfolding fmax fmin
  clamp s e t h = ground (arith, le_of_lt s e, le_of_lt t e, le_of_lt s t, refl_of_le s e)

module _ {F : Type 0} ⦃float : Float F⦄ (world : Analysis F) (m : SeparationMonitor F)
    (first second : Kinematics F) where
  probability-off :
      (x y t : F) → m.probability_threshold ≡ none → probability world m first second x y t ≡ none
  unfolding probability
  probability-off x y t off = rw (off, probability) refl

  decide-window :
      (o : Option (Interval F)) (c : Conflict F)
      → decide world m first second o none ≡ some c
      → (w : Interval F) × (o ≡ some w) × (t_report world m first second (some w) ≡ c.time_to_cpa_s)
  unfolding decide conflict
  decide-window none c h = absurd (cc)
  decide-window (some w) c h =
      (w, refl, ap (λ (d : Conflict F). d.time_to_cpa_s) (some-injective _ _ h))

  test_pair-decide :
      (c : Conflict F)
      → m.probability_threshold ≡ none
      → test_pair world m first second ≡ some c
      → decide world m first second (window world m first second) none ≡ some c
  unfolding test_pair
  test_pair-decide c off h = elim (Bool-cases (is_out_of_reach world m first second)) [
    | inl far ↦ absurd (ground arith)
    | inr near ↦
        let w = window world m first second in
        ap (decide world m first second w) (
          sym (
            probability-off (min_horizontal world m first second w)
              (min_vertical world m first second w) (t_report world m first second w) off))
        ∙ ground arith
  ]

  -- With ordered floats, a conflict that the detector reports with no threshold of probability has
  -- a window, the overlap of those of the two standards, and the time that it reports lies between
  -- the ends of that window.
  pub test_pair-in_window :
      (laws : IsOrdered F) (c : Conflict F)
      → m.probability_threshold ≡ none
      → test_pair world m first second ≡ some c
      → (w : Interval F) × (window world m first second ≡ some w)
        × (w.0 ≼ c.time_to_cpa_s)
        × (c.time_to_cpa_s ≼ w.1)
  unfolding window t_report
  test_pair-in_window laws c off h =
      let (w, e, t) = decide-window (window world m first second) c (test_pair-decide c off h) in
      let within =
        clamp laws w.0 w.1 (t_cpa world m first second) (overlap-nonempty laws _ _ _ w e) in
      (w, e, subst (λ x. w.0 ≼ x) t within.0, subst (λ x. x ≼ w.1) t within.1)
