-- ===== src/Scenario.antt =====
-- sim/scenario.py: what a scenario file describes, and what is refused when it is loaded. The YAML
-- parser, the default values and the rejection of unknown keys are pydantic's and are left out.
pub mod Accepted
pub mod Bounds
mod Tests
use airspace_conformance_pla.Base.{
  ℕ, zero, suc, ◌+◌, String, Bool, true, false, not, ◌&&◌, ◌||◌, leb, nat_eq, Option, none, some,
  List, [], ◌∷◌, map, select, Float, ◌==◌, string_eq, ltb, if◌then◌else◌,
}
use Prim.Native.Char.{code}
use airspace_conformance_pla.Base.Whole.{ℤ}

pub record GeoPoint (F : Type 0) : Type 0 where
  pub lat : F
  pub lon : F

pub record SensorModel (F : Type 0) : Type 0 where
  pub report_interval_s : F
  pub position_sigma_m : F
  pub altitude_sigma_ft : F
  pub speed_sigma_kt : F
  pub track_sigma_deg : F
  pub dropout_probability : F

pub record InitialState (F : Type 0) : Type 0 where
  pub lat : F
  pub lon : F
  pub altitude_ft : F
  pub ground_speed_kt : F
  pub track_deg : F
  pub vertical_rate_fpm : F

-- What a command asks for: a heading, a level or a speed, with the rate, or a transponder code.
pub data Order (F : Type 0) : Type 0 where
  turn_to : F → F → Order F
  climb_to : F → F → Order F
  change_speed : F → F → Order F
  set_squawk : String → Order F

pub record Command (F : Type 0) : Type 0 where
  pub at_s : F
  pub order : Order F

pub record AircraftSpec (F : Type 0) : Type 0 where
  pub icao24 : String
  pub callsign : String
  pub initial : InitialState F
  pub squawk : Option String
  pub entry_time_s : F
  pub plan : List (Command F)

-- Without its description, a text of which nothing is asked.
pub record Scenario (F : Type 0) : Type 0 where
  pub scenario_id : String
  pub seed : ℤ
  pub duration_s : F
  pub reference : GeoPoint F
  pub sensor : SensorModel F
  pub aircraft : List (AircraftSpec F)

-- How a scenario is refused: a field is out of its bounds, or one of the two validators raises, with
-- the names that it reports.
pub data Refusal : Type 0 where
  out_of_bounds : Refusal
  duplicate_icao24 duplicate_callsign late : List String → Refusal

-- `some` is the exception.
abbrev pub Check : Type 0
Check = Option Refusal

-- xs.count(x)
unfoldable pub count : String → List String → ℕ
count x [] = 0
count x (y ∷ ys) = let rest = count x ys in if y == x then rest + 1 else rest

-- len(s)
abbrev pub chars : String → ℕ
chars String.[] = 0
chars (String.◌∷◌ c s) = suc (chars s)

module _ {ℓ} {A : Type ℓ} where
  abbrev pub every : (A → Bool) → List A → Bool
  every p [] = true
  every p (x ∷ xs) = p x && every p xs

  abbrev pub is_empty : List A → Bool
  is_empty [] = true
  is_empty (x ∷ xs) = false

-- The names that stand more than once, of which the code keeps the set.
unfoldable pub duplicates : List String → List String
unfolding count
duplicates names = select (λ x. ltb 1 (count x names)) names

abbrev pub refuse : (List String → Refusal) → List String → Check
refuse reason [] = none
refuse reason (x ∷ xs) = some (reason (x ∷ xs))

-- One check after another, of which the first that raises counts.
abbrev pub or_next : Check → Check → Check
or_next none next = next
or_next (some refusal) next = some refusal

-- Whether the text has the shape `^[c...]{n}$`, of characters that meet a test.
abbrev pub has_shape : (ℕ → Bool) → ℕ → String → Bool
has_shape p zero String.[] = true
has_shape p zero (String.◌∷◌ c s) = false
has_shape p (suc n) String.[] = false
has_shape p (suc n) (String.◌∷◌ c s) = p (code c) && has_shape p n s

-- Whether every character meets a test.
abbrev pub every_char : (ℕ → Bool) → String → Bool
every_char p String.[] = true
every_char p (String.◌∷◌ c s) = p (code c) && every_char p s

abbrev pub is_lower_hex : ℕ → Bool
is_lower_hex c = (leb b'0' c && leb c b'9') || (leb b'a' c && leb c b'f')

abbrev pub is_octal : ℕ → Bool
is_octal c = leb b'0' c && leb c b'7'

abbrev pub is_name_char : ℕ → Bool
is_name_char c = (leb b'0' c && leb c b'9') || (leb b'a' c && leb c b'z')

-- `^[a-z0-9][a-z0-9-]*$`
abbrev pub is_scenario_id : String → Bool
is_scenario_id String.[] = false
is_scenario_id (String.◌∷◌ c s) =
    is_name_char (code c) && every_char (λ d. is_name_char d || d == b'-') s

abbrev pub is_code : Option String → Bool
is_code none = true
is_code (some squawk) = has_shape is_octal 4 squawk

module _ {F : Type 0} ⦃float : Float F⦄ where
  open float use {literal, negate, le, lt}

  abbrev pub between : F → F → F → Bool
  between low high x = le low x && le x high

  abbrev pub is_latitude : F → Bool
  is_latitude x = between (negate (literal 90)) (literal 90) x

  abbrev pub is_longitude : F → Bool
  is_longitude x = between (negate (literal 180)) (literal 180) x

  abbrev pub is_bearing : F → Bool
  is_bearing x = le (literal 0) x && lt x (literal 360)

  unfoldable pub sensor_is_bounded : SensorModel F → Bool
  sensor_is_bounded s =
      lt (literal 0) s.report_interval_s
      && le (literal 0) s.position_sigma_m
      && le (literal 0) s.altitude_sigma_ft
      && le (literal 0) s.speed_sigma_kt
      && le (literal 0) s.track_sigma_deg
      && between (literal 0) (literal 1) s.dropout_probability

  unfoldable pub start_is_bounded : InitialState F → Bool
  start_is_bounded i =
      is_latitude i.lat
      && is_longitude i.lon
      && between (literal 0) (literal 60000) i.altitude_ft
      && between (literal 0) (literal 700) i.ground_speed_kt
      && is_bearing i.track_deg
      && between (negate (literal 8000)) (literal 8000) i.vertical_rate_fpm

  unfoldable pub order_is_bounded : Order F → Bool
  order_is_bounded (turn_to heading rate) =
      is_bearing heading && lt (literal 0) rate && le rate (literal 10)
  order_is_bounded (climb_to altitude rate) =
      between (literal 0) (literal 60000) altitude && lt (literal 0) rate && le rate (literal 8000)
  order_is_bounded (change_speed speed acceleration) =
      between (literal 0) (literal 700) speed
      && lt (literal 0) acceleration
      && le acceleration (literal 10)
  order_is_bounded (set_squawk squawk) = has_shape is_octal 4 squawk

  unfoldable pub command_is_bounded : Command F → Bool
  unfolding order_is_bounded
  command_is_bounded c = le (literal 0) c.at_s && order_is_bounded c.order

  unfoldable pub spec_is_bounded : AircraftSpec F → Bool
  unfolding start_is_bounded command_is_bounded
  spec_is_bounded a =
      has_shape is_lower_hex 6 a.icao24
      && (not (a.callsign == "") && leb (chars a.callsign) 8)
      && start_is_bounded a.initial
      && is_code a.squawk
      && le (literal 0) a.entry_time_s
      && every command_is_bounded a.plan

  -- The bounds and the patterns of all the fields.
  unfoldable pub is_bounded : Scenario F → Bool
  unfolding sensor_is_bounded spec_is_bounded
  is_bounded s =
      (is_scenario_id s.scenario_id && leb (chars s.scenario_id) 64)
      && lt (literal 0) s.duration_s
      && (is_latitude s.reference.lat && is_longitude s.reference.lon)
      && sensor_is_bounded s.sensor
      && not (is_empty s.aircraft)
      && every spec_is_bounded s.aircraft

  unfoldable pub reject_duplicate_aircraft : Scenario F → Check
  unfolding duplicates
  reject_duplicate_aircraft s =
      or_next (refuse duplicate_icao24 (duplicates (map (λ a. a.icao24) s.aircraft)))
        (refuse duplicate_callsign (duplicates (map (λ a. a.callsign) s.aircraft)))

  unfoldable pub reject_aircraft_that_never_appear : Scenario F → Check
  reject_aircraft_that_never_appear s =
      refuse late (map (λ a. a.callsign) (select (λ a. le s.duration_s a.entry_time_s) s.aircraft))

  unfoldable pub model_validate : Scenario F → Check
  unfolding is_bounded reject_duplicate_aircraft reject_aircraft_that_never_appear
  model_validate s =
      if is_bounded s
      then or_next (reject_duplicate_aircraft s) (reject_aircraft_that_never_appear s)
      else some out_of_bounds
