-- ===== src/Geodesy/Tests.antt =====
-- The bounds of a bearing at a concrete input.
use airspace_conformance_pla.Base.{◌≡◌, refl}
use airspace_conformance_pla.Base.Whole.{pos, negsuc, whole}
use airspace_conformance_pla.Geodesy.{normalize_bearing}

-- -30 wraps to 330.
wrapped : normalize_bearing (negsuc 29) ≡ pos 330
unfolding normalize_bearing
wrapped = refl
