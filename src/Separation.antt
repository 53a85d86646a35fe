-- ===== src/Separation.antt =====
-- services/conformance/separation.py: the windows in which a pair of tracks breaches a standard, and
-- what a track is reduced to. The functions of `math`, the projection to a plane and the probability
-- of a conflict are the interface `Analysis`.
pub mod Windows
pub mod Pairs
pub mod Reports
pub mod Grid
mod Tests
use airspace_conformance_pla.Base.{Option, none, some, Float, fmax, fmin, if◌then◌else◌}
use airspace_conformance_pla.Contracts.{TrackUpdate}
use airspace_conformance_pla.Geodesy.{knots_to_nm_per_second}

pub record Analysis (F : Type 0) : Type 0 where
  -- math.inf and 1e-12.
  pub infinity : F
  pub tiny : F
  pub square : F → F
  pub sqrt : F → F
  pub hypot : F → F → F
  pub radians : F → F
  pub sin : F → F
  pub cos : F → F
  pub to_local_enu : F → F → F → F → F × F
  -- By the two separations, the two sigmas and the two standards.
  pub conflict_probability : F → F → F → F → F → F → F

-- `_Kinematics`
pub record Kinematics (F : Type 0) : Type 0 where
  pub track : TrackUpdate F
  pub east_nm : F
  pub north_nm : F
  pub v_east_kt : F
  pub v_north_kt : F
  pub altitude_ft : F
  pub v_alt_fpm : F

pub record SeparationMonitor (F : Type 0) : Type 0 where
  pub horizontal_nm : F
  pub vertical_ft : F
  pub lookahead_s : F
  pub probability_threshold : Option F

-- The sigmas of a track: of its position, its velocity, its altitude and its rate.
pub record Uncertainty (F : Type 0) : Type 0 where
  pub position_nm : F
  pub velocity_kt : F
  pub altitude_ft : F
  pub rate_fpm : F

-- An interval of time that is open at both ends.
abbrev pub Interval : Type 0 → Type 0
Interval F = F × F

module _ {F : Type 0} ⦃float : Float F⦄ where
  open float use {literal, lt}

  -- `_overlap`
  unfoldable pub overlap : Option (Interval F) → Option (Interval F) → F → Option (Interval F)
  unfolding fmax fmin
  overlap (some first) (some second) horizon =
      let start = fmax (fmax first.0 second.0) (literal 0) in
      let end = fmin (fmin first.1 second.1) horizon in
      if lt start end then some (start, end) else none
  overlap _ _ horizon = none

module _ {F : Type 0} ⦃float : Float F⦄ (world : Analysis F) where
  open float use {literal, negate, abs, add, sub, mul, div, le, lt}
  open world use {
    infinity, tiny, square, sqrt, hypot, radians, sin, cos, to_local_enu, conflict_probability,
  }

  -- `_quadratic_below`
  unfoldable pub quadratic_below : F → F → F → Option (Interval F)
  quadratic_below a b c =
      if lt (abs a) tiny
      then (if lt (abs b) tiny
          then (if lt c (literal 0) then some (negate infinity, infinity) else none)
          else (let root = div (negate c) b in
              if lt (literal 0) b then some (negate infinity, root) else some (root, infinity)))
      else (let discriminant = sub (mul b b) (mul (mul (literal 4) a) c) in
          if le discriminant (literal 0)
          then none
          else (let root = sqrt discriminant in
              let scale = mul (literal 2) a in
              some (div (sub (negate b) root) scale, div (add (negate b) root) scale)))

  -- `_linear_within`
  unfoldable pub linear_within : F → F → F → Option (Interval F)
  linear_within offset rate limit =
      if lt (abs rate) tiny
      then (if lt (abs offset) limit then some (negate infinity, infinity) else none)
      else (let low = div (sub (negate limit) offset) rate in
          let high = div (sub limit offset) rate in
          if le low high then some (low, high) else some (high, low))

  -- `_kinematics`
  unfoldable pub kinematics : TrackUpdate F → F → F → Kinematics F
  kinematics track ref_lat ref_lon =
      let (east, north) = to_local_enu ref_lat ref_lon track.lat track.lon in
      let heading = radians track.track_deg in
      record {
        track = track;
        east_nm = east;
        north_nm = north;
        v_east_kt = mul track.ground_speed_kt (sin heading);
        v_north_kt = mul track.ground_speed_kt (cos heading);
        altitude_ft = track.altitude_ft;
        v_alt_fpm = track.vertical_rate_fpm;
      }

  -- `_uncertainty`
  unfoldable pub uncertainty : TrackUpdate F → Option (Uncertainty F)
  uncertainty track = elim track.velocity_uncertainty_kt [
    | none ↦ none
    | some velocity ↦ elim track.altitude_uncertainty_ft [
      | none ↦ none
      | some altitude ↦ elim track.vertical_rate_uncertainty_fpm [
        | none ↦ none
        | some rate ↦ some (record {
          position_nm = div (div track.position_uncertainty_m (literal 1852)) (sqrt (literal 2));
          velocity_kt = velocity;
          altitude_ft = altitude;
          rate_fpm = rate;
        })
      ]
    ]
  ]

  -- `projected_sigma` of probability.py.
  unfoldable pub projected_sigma : F → F → F → F → F → F
  unfolding fmax
  projected_sigma sigma_a sigma_b rate_a rate_b dt_s =
      let positional = add (square sigma_a) (square sigma_b) in
      let rate = mul (mul (add (square rate_a) (square rate_b)) dt_s) dt_s in
      sqrt (fmax (literal 0) (add positional rate))

  -- The vertical sigma after a time.
  abbrev pub vertical_sigma : Uncertainty F → Uncertainty F → F → F
  unfolding projected_sigma
  vertical_sigma a b dt_s =
      projected_sigma a.altitude_ft b.altitude_ft (div a.rate_fpm (literal 60))
        (div b.rate_fpm (literal 60)) dt_s
