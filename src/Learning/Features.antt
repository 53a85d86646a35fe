-- ===== src/Learning/Features.antt =====
-- ml/features.py: what a model is given of a window of updates.
use airspace_conformance_pla.Base.{
  ℕ, zero, suc, ◌-◌, Bool, true, false, Option, none, some, List, [], ◌∷◌, map, length, ltb,
  if◌then◌else◌, Float,
}
use airspace_conformance_pla.Contracts.{TrackUpdate}
use airspace_conformance_pla.Geodesy.{bearing_difference_deg}
use airspace_conformance_pla.Learning.Baselines.{KinematicState}

-- `WINDOW`
abbrev pub window_size : ℕ
window_size = 20

-- The statistics of a numpy array, and the constant 0.15.
pub record Statistics (F : Type 0) : Type 0 where
  pub mean : List F → F
  pub std : List F → F
  pub greatest : List F → F
  pub straight_deg_s : F

module _ {F : Type 0} where
  unfoldable pub state_from : TrackUpdate F → KinematicState F
  state_from u = record {
    lat = u.lat;
    lon = u.lon;
    altitude_ft = u.altitude_ft;
    ground_speed_kt = u.ground_speed_kt;
    track_deg = u.track_deg;
    vertical_rate_fpm = u.vertical_rate_fpm;
    turn_rate_deg_s = u.turn_rate_deg_s;
  }

  -- The last of a list that begins so: window[-1].
  abbrev pub last_of : TrackUpdate F → List (TrackUpdate F) → TrackUpdate F
  last_of u [] = u
  last_of u (v ∷ vs) = last_of v vs

  abbrev pub drop : ℕ → List (TrackUpdate F) → List (TrackUpdate F)
  drop zero us = us
  drop (suc n) [] = []
  drop (suc n) (u ∷ us) = drop n us

module _ {F : Type 0} ⦃float : Float F⦄ (statistics : Statistics F) where
  open float use {literal, negate, abs, sub, div, lt}
  open statistics use {mean, std, greatest, straight_deg_s}

  abbrev pub or_zero : Option F → F
  or_zero none = literal 0
  or_zero (some x) = x

  -- float(b)
  abbrev pub indicator : Bool → F
  indicator true = literal 1
  indicator false = literal 0

  -- The vector of a window that is long enough, from its last updates.
  unfoldable pub vector : List (TrackUpdate F) → List F
  unfolding bearing_difference_deg
  vector [] = []
  vector (first ∷ rest) =
      let recent = first ∷ rest in
      let current = last_of first rest in
      let turn_rates = map (λ u. u.turn_rate_deg_s) recent in
      let vertical_rates = map (λ u. u.vertical_rate_fpm) recent in
      let innovations = map (λ u. or_zero u.innovation_nm) recent in
      current.ground_speed_kt
      ∷ current.vertical_rate_fpm
      ∷ current.turn_rate_deg_s
      ∷ div current.altitude_ft (literal 1000)
      ∷ current.position_uncertainty_m
      ∷ or_zero current.innovation_nm
      ∷ sub current.ground_speed_kt first.ground_speed_kt
      ∷ bearing_difference_deg first.track_deg current.track_deg
      ∷ sub current.altitude_ft first.altitude_ft
      ∷ mean turn_rates
      ∷ std turn_rates
      ∷ greatest (map abs turn_rates)
      ∷ mean vertical_rates
      ∷ std vertical_rates
      ∷ mean innovations
      ∷ greatest innovations
      ∷ indicator (lt (literal 300) current.vertical_rate_fpm)
      ∷ indicator (lt current.vertical_rate_fpm (negate (literal 300)))
      ∷ indicator (lt straight_deg_s (abs current.turn_rate_deg_s))
      ∷ indicator (lt (literal 29000) current.altitude_ft)
      ∷ []

  -- `none` where the window is too short, which raises.
  unfoldable pub extract : List (TrackUpdate F) → Option (List F)
  unfolding vector
  extract window =
      let recent = drop (length window - window_size) window in
      if ltb (length window) window_size then none else some (vector recent)
