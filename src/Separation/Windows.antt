-- ===== src/Separation/Windows.antt =====
-- When a pair is too close: the times of the common window.
use airspace_conformance_pla.Base.{
  ◌≡◌, ◌∙◌, refl, Option, none, some, Bool, false, ◌&&◌, Float, IsOrdered, ◌≼◌, fmax, fmin, arith,
  if◌then◌else◌,
}
use airspace_conformance_pla.Separation.{Interval, overlap}

module _ {F : Type 0} ⦃float : Float F⦄ where
  open float use {le, lt, literal}

  -- The time lies in the interval.
  abbrev pub is_inside : F → Option (Interval F) → Bool
  is_inside t none = false
  is_inside t (some w) = lt w.0 t && lt t w.1

  -- Both ends are numbers.
  abbrev pub IsProper : Option (Interval F) → Type 0
  IsProper none = Unit
  IsProper (some w) = (w.0 ≼ w.0) × (w.1 ≼ w.1)

  module _ (laws : IsOrdered F) where
    open laws use {refl_of_le, le_trans, le_total, lt-eq-not-le, lt_trans, literal_number}

    number_of_fmax : (x y : F) → x ≼ x → y ≼ y → fmax x y ≼ fmax x y
    unfolding fmax
    number_of_fmax x y h k = ground arith

    number_of_fmin : (x y : F) → x ≼ x → y ≼ y → fmin x y ≼ fmin x y
    unfolding fmin
    number_of_fmin x y h k = ground arith

    lt-fmax : (x y t : F) → x ≼ x → y ≼ y → t ≼ t → lt (fmax x y) t ≡ (lt x t && lt y t)
    unfolding fmax
    lt-fmax x y t h k l = ground (
      arith,
      lt_trans x y t,
      lt-eq-not-le x y h k,
      lt-eq-not-le x t h l,
      lt-eq-not-le y t k l,
      le_trans t y x,
    )

    fmin-lt : (x y t : F) → x ≼ x → y ≼ y → t ≼ t → lt t (fmin x y) ≡ (lt t x && lt t y)
    unfolding fmin
    fmin-lt x y t h k l = ground (
      arith,
      lt_trans t y x,
      lt-eq-not-le y x k h,
      lt-eq-not-le t x l h,
      lt-eq-not-le t y l k,
      le_trans x y t,
    )

    -- The window between two ends, if it is not empty.
    window-lem :
        (s e t : F) → is_inside t (if lt s e then some (s, e) else none) ≡ (lt s t && lt t e)
    window-lem s e t = ground (arith, lt_trans s t e)

    -- With ordered floats, and ends, a horizon and a time that are numbers: the time lies in the
    -- overlap exactly if it lies in both windows and between zero and the horizon. In particular,
    -- there is no overlap only if there is no such time.
    pub is_inside-overlap :
        (first second : Option (Interval F)) (horizon t : F)
        → IsProper first
        → IsProper second
        → horizon ≼ horizon
        → t ≼ t
        → is_inside t (overlap first second horizon)
          ≡ (is_inside t first && is_inside t second && is_inside t (some (literal 0, horizon)))
    unfolding overlap
    is_inside-overlap none second horizon t p q h n = refl
    is_inside-overlap (some a) none horizon t p q h n = ground arith
    is_inside-overlap (some a) (some b) horizon t p q h n =
        let zero = literal_number 0 in
        window-lem _ _ t
        ∙ rw
            (
              lt-fmax (fmax a.0 b.0) (literal 0) t (number_of_fmax a.0 b.0 p.0 q.0) zero n,
              lt-fmax a.0 b.0 t p.0 q.0 n,
              fmin-lt (fmin a.1 b.1) horizon t (number_of_fmin a.1 b.1 p.1 q.1) h n,
              fmin-lt a.1 b.1 t p.1 q.1 n,
            )
            (ground arith)
