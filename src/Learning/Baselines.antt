-- ===== src/Learning/Baselines.antt =====
-- ml/baselines.py: predictions from physics alone.
use airspace_conformance_pla.Base.{Option, some, ◌>>=◌, ℕ, zero, suc, Float, fmax, if◌then◌else◌}
use airspace_conformance_pla.Geodesy.{
  knots_to_nm_per_second, fpm_to_ft_per_second, normalize_bearing,
}
use airspace_conformance_pla.Geodesy.Sphere.{
  Trig, haversine_nm, initial_bearing_deg, destination_point,
}

pub record Prediction (F : Type 0) : Type 0 where
  pub lat : F
  pub lon : F
  pub altitude_ft : F
  pub horizon_s : F

pub record KinematicState (F : Type 0) : Type 0 where
  pub lat : F
  pub lon : F
  pub altitude_ft : F
  pub ground_speed_kt : F
  pub track_deg : F
  pub vertical_rate_fpm : F
  pub turn_rate_deg_s : F

-- `math.hypot`, 1e-6 and 1e-9.
pub record Plane (F : Type 0) : Type 0 where
  pub hypot : F → F → F
  pub millionth : F
  pub billionth : F

module _ {F : Type 0} where
  unfoldable pub persistence : KinematicState F → F → Prediction F
  persistence s horizon_s = record {
    lat = s.lat;
    lon = s.lon;
    altitude_ft = s.altitude_ft;
    horizon_s = horizon_s;
  }

module _ {F : Type 0} ⦃float : Float F⦄ ⦃trig : Trig F⦄ where
  open float use {literal, abs, add, sub, mul, div, lt}

  -- The altitude after a constant vertical rate, which stays off the ground.
  unfoldable pub level_after : KinematicState F → F → F
  unfolding fmax fpm_to_ft_per_second
  level_after s horizon_s =
      fmax (literal 0)
        (add s.altitude_ft (mul (fpm_to_ft_per_second s.vertical_rate_fpm) horizon_s))

  -- `none` where `math` raises, here and below.
  unfoldable pub dead_reckon : KinematicState F → F → Option (Prediction F)
  unfolding destination_point knots_to_nm_per_second level_after
  dead_reckon s horizon_s = do
    place ←
        destination_point s.lat s.lon s.track_deg
          (mul (knots_to_nm_per_second s.ground_speed_kt) horizon_s)
    some (record {
      lat = place.0;
      lon = place.1;
      altitude_ft = level_after s horizon_s;
      horizon_s = horizon_s;
    })

  -- The loop of `constant_turn`: a latitude, a longitude and a track after some legs.
  unfoldable pub legs : ℕ → F → F → F → F → F → F → Option (F × F × F)
  unfolding normalize_bearing destination_point
  legs zero turn_rate dt leg_nm lat lon track = some (lat, lon, track)
  legs (suc n) turn_rate dt leg_nm lat lon track =
      let turned = mul turn_rate dt in
      let mid_track = normalize_bearing (add track (div turned (literal 2))) in
      do
        (lat', lon') ← destination_point lat lon mid_track leg_nm
        legs n turn_rate dt leg_nm lat' lon' (normalize_bearing (add track turned))

  -- With its twelve steps.
  unfoldable pub constant_turn : Plane F → KinematicState F → F → Option (Prediction F)
  unfolding dead_reckon legs knots_to_nm_per_second level_after
  constant_turn plane s horizon_s =
      let dt = div horizon_s (literal 12) in
      let leg_nm = mul (knots_to_nm_per_second s.ground_speed_kt) dt in
      let turned = do
        (lat, lon, track) ← legs 12 s.turn_rate_deg_s dt leg_nm s.lat s.lon s.track_deg
        some (record {
          lat = lat;
          lon = lon;
          altitude_ft = level_after s horizon_s;
          horizon_s = horizon_s;
        })
      in if lt (abs s.turn_rate_deg_s) plane.millionth then dead_reckon s horizon_s else turned

  unfoldable pub along_cross_track_error : Plane F → Prediction F → F → F → F → Option (F × F)
  unfolding haversine_nm initial_bearing_deg
  along_cross_track_error plane reference actual_lat actual_lon track_deg =
      let far = λ (distance : F). do
        bearing ← initial_bearing_deg reference.lat reference.lon actual_lat actual_lon
        cosine ← trig.cos (trig.radians (sub bearing track_deg))
        sine ← trig.sin (trig.radians (sub bearing track_deg))
        some (mul distance cosine, mul distance sine)
      in do
        distance ← haversine_nm reference.lat reference.lon actual_lat actual_lon
        if lt distance plane.billionth then some (literal 0, literal 0) else far distance

  unfoldable pub apply_along_cross : Plane F → Prediction F → F → F → F → Option (F × F)
  unfolding normalize_bearing destination_point
  apply_along_cross plane reference along_nm cross_nm track_deg =
      let distance = plane.hypot along_nm cross_nm in
      let bearing =
        normalize_bearing (add track_deg (trig.degrees (trig.atan2 cross_nm along_nm))) in
      if lt distance plane.billionth
      then some (reference.lat, reference.lon)
      else destination_point reference.lat reference.lon bearing distance
