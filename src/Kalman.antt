-- ===== src/Kalman.antt =====
-- services/track/kalman.py: `TrackFilter` as the estimator uses it. `S` is the state of one filter,
-- its vector and its matrix. What numpy computes on them is the interface `Algebra`.
use airspace_conformance_pla.Base.{Option, Float, if◌then◌else◌}

pub record FilterEstimate (F : Type 0) : Type 0 where
  pub lat : F
  pub lon : F
  pub altitude_ft : F
  pub ground_speed_kt : F
  pub track_deg : F
  pub vertical_rate_fpm : F
  pub position_uncertainty_m : F
  pub velocity_uncertainty_kt : F
  pub altitude_uncertainty_ft : F
  pub vertical_rate_uncertainty_fpm : F
  pub innovation_nm : F

-- What a report measured.
pub record Measurement (F : Type 0) : Type 0 where
  pub lat : F
  pub lon : F
  pub altitude_ft : Option F
  pub ground_speed_kt : Option F
  pub track_deg : Option F
  pub vertical_rate_fpm : Option F

-- Where a filter starts.
pub record Start (F : Type 0) : Type 0 where
  pub ref_lat : F
  pub ref_lon : F
  pub lat : F
  pub lon : F
  pub altitude_ft : F
  pub ground_speed_kt : F
  pub track_deg : F
  pub vertical_rate_fpm : F

pub record Algebra (F S : Type 0) : Type 0 where
  pub start : Start F → S
  -- x = F x and P = F P Fᵀ + Q, over some seconds.
  pub propagate : S → F → S
  -- The correction of the state by a measurement, and the innovation.
  pub correct : S → Measurement F → S
  pub estimate : S → FilterEstimate F

module _ {F S : Type 0} ⦃float : Float F⦄ ⦃algebra : Algebra F S⦄ where
  open float use {le, literal}
  open algebra use {propagate, correct}

  unfoldable pub predict : S → F → S
  predict f dt_s = if le dt_s (literal 0) then f else propagate f dt_s

  unfoldable pub update : S → F → Measurement F → S
  unfolding predict
  update f dt_s z = correct (predict f dt_s) z

module _ {F : Type 0} ⦃float : Float F⦄ where
  open float use {round}

  unfoldable pub reference_for : F → F → F × F
  reference_for lat lon = (round lat, round lon)
