-- ===== src/Geodesy.antt =====
-- common/geodesy.py: the unit conversions and the arithmetic of bearings.
pub mod Sphere
mod Tests
use airspace_conformance_pla.Base.{◌≡◌, Float, IsOrdered, ◌≼◌, if◌then◌else◌, true, false, arith}

module _ {F : Type 0} ⦃float : Float F⦄ where
  open float use {literal, add, sub, div, mod_of, le, lt}

  unfoldable pub knots_to_nm_per_second : F → F
  knots_to_nm_per_second knots = div knots (literal 3600)

  unfoldable pub fpm_to_ft_per_second : F → F
  fpm_to_ft_per_second fpm = div fpm (literal 60)

  unfoldable pub normalize_bearing : F → F
  normalize_bearing degrees =
      let wrapped = mod_of degrees (literal 360) in
      if le (literal 360) wrapped then literal 0 else wrapped

  unfoldable pub bearing_difference_deg : F → F → F
  bearing_difference_deg from_deg to_deg =
      let delta =
        sub (mod_of (add (sub to_deg from_deg) (literal 180)) (literal 360)) (literal 180) in
      if le delta (float.negate (literal 180)) then add delta (literal 360) else delta

  module _ (laws : IsOrdered F) where
    open laws use {refl_of_le, lt-eq-not-le, literal_number, mod_bounds, le-literal}

    -- With ordered floats, a bearing that is a number is wrapped into the half-open interval from
    -- 0 to 360, also where the remainder has been rounded up to 360.
    pub normalize_bearing_range :
        (x : F)
        → x ≼ x
        → (literal 0 ≼ normalize_bearing x) × (lt (normalize_bearing x) (literal 360) ≡ true)
    unfolding normalize_bearing
    normalize_bearing_range x h =
        let r = mod_of x (literal 360) in
        let b = mod_bounds x 360 h (omega arith) in
        ground (
          arith,
          refl_of_le _ _ b.0,
          lt-eq-not-le r (literal 360),
          lt-eq-not-le (literal 0) (literal 360),
          literal_number 360,
          literal_number 0,
          le-literal 360 0,
        )
