-- ===== src/Geodesy/Sphere.antt =====
-- common/geodesy.py: positions on the sphere. The functions of `math` are the interface `Trig`.
use airspace_conformance_pla.Base.{
  Option, some, ◌>>=◌, Bool, ◌&&◌, Float, fmax, fmin, if◌then◌else◌,
}
use airspace_conformance_pla.Geodesy.{knots_to_nm_per_second, normalize_bearing}

-- `none` where the function raises: `sin` and `cos` of an infinity, `asin` and `sqrt` outside their
-- domains.
pub record Trig (F : Type 0) : Type 0 where
  pub radians : F → F
  pub degrees : F → F
  pub sin : F → Option F
  pub cos : F → Option F
  pub asin : F → Option F
  pub atan2 : F → F → F
  pub sqrt : F → Option F
  -- x ** 2
  pub square : F → F
  pub copysign : F → F → F
  -- `EARTH_RADIUS_NM` and 1e-12.
  pub earth_radius_nm : F
  pub tiny : F

module _ {F : Type 0} ⦃float : Float F⦄ where
  -- `a == b` between floats.
  abbrev pub equal : F → F → Bool
  equal a b = float.le a b && float.le b a

module _ {F : Type 0} ⦃float : Float F⦄ ⦃trig : Trig F⦄ where
  open float use {literal, negate, abs, add, sub, mul, div, mod_of, le, lt}
  open trig use {radians, degrees, sin, cos, asin, atan2, sqrt, square, earth_radius_nm, tiny}

  -- (x + 180.0) % 360.0 - 180.0
  unfoldable pub wrap_longitude : F → F
  wrap_longitude x = sub (mod_of (add x (literal 180)) (literal 360)) (literal 180)

  unfoldable pub haversine_nm : F → F → F → F → Option F
  unfolding fmin
  haversine_nm lat1 lon1 lat2 lon2 =
      let phi1 = radians lat1 in
      let phi2 = radians lat2 in
      let d_phi = sub phi2 phi1 in
      let d_lambda = radians (sub lon2 lon1) in
      do
        sin_phi ← sin (div d_phi (literal 2))
        cos1 ← cos phi1
        cos2 ← cos phi2
        sin_lambda ← sin (div d_lambda (literal 2))
        root ← sqrt (add (square sin_phi) (mul (mul cos1 cos2) (square sin_lambda)))
        angle ← asin (fmin (literal 1) root)
        some (mul (mul (literal 2) earth_radius_nm) angle)

  unfoldable pub initial_bearing_deg : F → F → F → F → Option F
  unfolding normalize_bearing
  initial_bearing_deg lat1 lon1 lat2 lon2 =
      let phi1 = radians lat1 in
      let phi2 = radians lat2 in
      let d_lambda = radians (sub lon2 lon1) in
      do
        sin_lambda ← sin d_lambda
        cos_lambda ← cos d_lambda
        sin1 ← sin phi1
        cos1 ← cos phi1
        sin2 ← sin phi2
        cos2 ← cos phi2
        let y = mul sin_lambda cos2
        let x = sub (mul cos1 sin2) (mul (mul sin1 cos2) cos_lambda)
        some (
            if equal x (literal 0) && equal y (literal 0)
            then literal 0
            else normalize_bearing (degrees (atan2 y x)))

  unfoldable pub destination_point : F → F → F → F → Option (F × F)
  unfolding fmax fmin wrap_longitude
  destination_point lat lon bearing_deg distance_nm =
      let phi1 = radians lat in
      let lambda1 = radians lon in
      let theta = radians bearing_deg in
      let delta = div distance_nm earth_radius_nm in
      do
        sin1 ← sin phi1
        cos1 ← cos phi1
        sin_delta ← sin delta
        cos_delta ← cos delta
        sin_theta ← sin theta
        cos_theta ← cos theta
        let sin_phi2 = add (mul sin1 cos_delta) (mul (mul cos1 sin_delta) cos_theta)
        phi2 ← asin (fmax (negate (literal 1)) (fmin (literal 1) sin_phi2))
        sin2 ← sin phi2
        let lambda2 =
            add lambda1 (atan2 (mul (mul sin_theta sin_delta) cos1) (sub cos_delta (mul sin1 sin2)))
        some (degrees phi2, wrap_longitude (degrees lambda2))

  unfoldable pub to_local_enu : F → F → F → F → Option (F × F)
  unfolding wrap_longitude
  to_local_enu ref_lat ref_lon lat lon =
      let d_lon = wrap_longitude (sub lon ref_lon) in
      do
        cos_mean ← cos (radians (div (add ref_lat lat) (literal 2)))
        some (
          mul (mul (radians d_lon) cos_mean) earth_radius_nm,
          mul (radians (sub lat ref_lat)) earth_radius_nm,
        )

  unfoldable pub from_local_enu : F → F → F → F → Option (F × F)
  unfolding wrap_longitude
  from_local_enu ref_lat ref_lon east_nm north_nm =
      let lat = add ref_lat (degrees (div north_nm earth_radius_nm)) in
      do
        cos_mean ← cos (radians (div (add ref_lat lat) (literal 2)))
        let lon = add ref_lon (degrees (div east_nm (mul earth_radius_nm cos_mean)))
        some (if lt (abs cos_mean) tiny then (lat, ref_lon) else (lat, wrap_longitude lon))

  unfoldable pub project_forward : F → F → F → F → F → Option (F × F)
  unfolding destination_point knots_to_nm_per_second
  project_forward lat lon track_deg ground_speed_kt seconds =
      destination_point lat lon track_deg (mul (knots_to_nm_per_second ground_speed_kt) seconds)
