-- ===== src/Scenario/Bounds.antt =====
-- sim/scenario.py: the scenarios that are accepted, by an account of the bounds of their fields.
use airspace_conformance_pla.Base.{
  ℕ, ◌≤◌, ◌<◌, ◌≡◌, ◌↔◌, refl, Bool, true, false, not, ◌&&◌, ◌==◌, string_eq, none, List, [], ◌∷◌,
  map, All, length, leb, Float, ◌≼◌, arith,
}
use airspace_conformance_pla.Scenario.{
  SensorModel, InitialState, Order, turn_to, climb_to, change_speed, set_squawk, Command,
  AircraftSpec, Scenario, model_validate, chars, every, is_empty, has_shape, is_lower_hex, is_octal,
  is_scenario_id, is_code, sensor_is_bounded, start_is_bounded, order_is_bounded,
  command_is_bounded, spec_is_bounded, is_bounded,
}
use airspace_conformance_pla.Scenario.Accepted.{IsNodup, model_validate-checks}

every-All :
    {A : Type 0} (p : A → Bool) (Q : A → Type 0) (xs : List A)
    → ((x : A) → (p x ≡ true) ↔ Q x)
    → (every p xs ≡ true) ↔ All Q xs
every-All p Q [] f = (λ h. tt, λ h. refl)
every-All p Q (x ∷ xs) f =
    let (to, from) = f x in
    let (all, back) = every-All p Q xs f in
    (
      λ h. let (a, b) = split (p x) (every p xs) h in (to a, all b),
      λ h. join (p x) (every p xs) (from h.0) (back h.1),
    )
  where
    split : (a b : Bool) → (a && b) ≡ true → (a ≡ true) × (b ≡ true)
    split a b h = ground arith

    join : (a b : Bool) → a ≡ true → b ≡ true → (a && b) ≡ true
    join a b h k = ground arith

module _ {F : Type 0} ⦃float : Float F⦄ where
  open float use {literal, negate, lt}

  abbrev pub Positive : F → Type 0
  Positive x = lt (literal 0) x ≡ true

  abbrev pub IsIn : F → F → F → Type 0
  IsIn low high x = (low ≼ x) × (x ≼ high)

  abbrev pub IsPlace : F → F → Type 0
  IsPlace lat lon =
      IsIn (negate (literal 90)) (literal 90) lat × IsIn (negate (literal 180)) (literal 180) lon

  abbrev pub IsBearing : F → Type 0
  IsBearing x = (literal 0 ≼ x) × (lt x (literal 360) ≡ true)

  abbrev pub SensorBounds : SensorModel F → Type 0
  SensorBounds s =
      Positive s.report_interval_s
      × (literal 0 ≼ s.position_sigma_m)
      × (literal 0 ≼ s.altitude_sigma_ft)
      × (literal 0 ≼ s.speed_sigma_kt)
      × (literal 0 ≼ s.track_sigma_deg)
      × IsIn (literal 0) (literal 1) s.dropout_probability

  abbrev pub StartBounds : InitialState F → Type 0
  StartBounds i =
      IsPlace i.lat i.lon
      × IsIn (literal 0) (literal 60000) i.altitude_ft
      × IsIn (literal 0) (literal 700) i.ground_speed_kt
      × IsBearing i.track_deg
      × IsIn (negate (literal 8000)) (literal 8000) i.vertical_rate_fpm

  abbrev pub OrderBounds : Order F → Type 0
  OrderBounds (turn_to heading rate) = IsBearing heading × Positive rate × (rate ≼ literal 10)
  OrderBounds (climb_to altitude rate) =
      IsIn (literal 0) (literal 60000) altitude × Positive rate × (rate ≼ literal 8000)
  OrderBounds (change_speed speed rate) =
      IsIn (literal 0) (literal 700) speed × Positive rate × (rate ≼ literal 10)
  OrderBounds (set_squawk squawk) = has_shape is_octal 4 squawk ≡ true

  abbrev pub CommandBounds : Command F → Type 0
  CommandBounds c = (literal 0 ≼ c.at_s) × OrderBounds c.order

  abbrev pub SpecBounds : AircraftSpec F → Type 0
  SpecBounds a =
      (has_shape is_lower_hex 6 a.icao24 ≡ true)
      × ((a.callsign == "") ≡ false)
      × (chars a.callsign ≤ 8)
      × StartBounds a.initial
      × (is_code a.squawk ≡ true)
      × (literal 0 ≼ a.entry_time_s)
      × All CommandBounds a.plan

  -- The bounds of all the fields of a scenario.
  abbrev pub ScenarioBounds : Scenario F → Type 0
  ScenarioBounds s =
      (is_scenario_id s.scenario_id ≡ true)
      × (chars s.scenario_id ≤ 64)
      × Positive s.duration_s
      × IsPlace s.reference.lat s.reference.lon
      × SensorBounds s.sensor
      × (0 < length s.aircraft)
      × All SpecBounds s.aircraft

  sensor_is_bounded_lem : (s : SensorModel F) → (sensor_is_bounded s ≡ true) ↔ SensorBounds s
  unfolding sensor_is_bounded
  sensor_is_bounded_lem s = (λ h. ground arith, λ h. ground arith)

  start_is_bounded_lem : (i : InitialState F) → (start_is_bounded i ≡ true) ↔ StartBounds i
  unfolding start_is_bounded
  start_is_bounded_lem i = (λ h. ground arith, λ h. ground arith)

  order_is_bounded_lem : (o : Order F) → (order_is_bounded o ≡ true) ↔ OrderBounds o
  unfolding order_is_bounded
  order_is_bounded_lem (turn_to heading rate) = (λ h. ground arith, λ h. ground arith)
  order_is_bounded_lem (climb_to altitude rate) = (λ h. ground arith, λ h. ground arith)
  order_is_bounded_lem (change_speed speed rate) = (λ h. ground arith, λ h. ground arith)
  order_is_bounded_lem (set_squawk squawk) = (λ h. h, λ h. h)

  command_is_bounded_lem : (c : Command F) → (command_is_bounded c ≡ true) ↔ CommandBounds c
  unfolding command_is_bounded
  command_is_bounded_lem c =
      let (to, from) = order_is_bounded_lem c.order in
      both (float.le (literal 0) c.at_s) (order_is_bounded c.order) to from
    where
      both :
          (a b : Bool) {Q : Type 0}
          → (b ≡ true → Q)
          → (Q → b ≡ true)
          → ((a && b) ≡ true) ↔ ((a ≡ true) × Q)
      both true b to from = (λ h. (refl, to h), λ h. from h.1)
      both false b to from = (λ h. absurd (cc), λ h. absurd (let e = h.0 in cc))

  spec_is_bounded_lem : (a : AircraftSpec F) → (spec_is_bounded a ≡ true) ↔ SpecBounds a
  unfolding spec_is_bounded
  spec_is_bounded_lem a =
      let (start, start') = start_is_bounded_lem a.initial in
      let (plan, plan') =
        every-All command_is_bounded CommandBounds a.plan command_is_bounded_lem in
      let (to, from) =
        parts (has_shape is_lower_hex 6 a.icao24) (a.callsign == "") (chars a.callsign)
          (start_is_bounded a.initial) (is_code a.squawk) (float.le (literal 0) a.entry_time_s)
          (every command_is_bounded a.plan) in
      (
        λ h. let (p, q, r, s, t, u, v) = to h in (p, q, r, start s, t, u, plan v),
        λ (p, q, r, s, t, u, v). from (p, q, r, start' s, t, u, plan' v),
      )
    where
      parts :
          (a b : Bool) (n : ℕ) (c d e f : Bool)
          → ((a && (not b && leb n 8) && c && d && e && f) ≡ true) ↔ (
              (a ≡ true)
              × (b ≡ false)
              × (n ≤ 8)
              × (c ≡ true)
              × (d ≡ true)
              × (e ≡ true)
              × (f ≡ true))
      parts a b n c d e f = (λ h. ground arith, λ h. ground arith)

  is_bounded_lem : (s : Scenario F) → (is_bounded s ≡ true) ↔ ScenarioBounds s
  unfolding is_bounded
  is_bounded_lem s =
      let (sensor, sensor') = sensor_is_bounded_lem s.sensor in
      let (specs, specs') = every-All spec_is_bounded SpecBounds s.aircraft spec_is_bounded_lem in
      let (to, from) =
        parts (is_scenario_id s.scenario_id) (chars s.scenario_id) (lt (literal 0) s.duration_s)
          (float.le (negate (literal 90)) s.reference.lat) (float.le s.reference.lat (literal 90))
          (float.le (negate (literal 180)) s.reference.lon) (float.le s.reference.lon (literal 180))
          (sensor_is_bounded s.sensor) s.aircraft (every spec_is_bounded s.aircraft) in
      (
        λ h. let (p, q, r, place, t, u, v) = to h in (p, q, r, place, sensor t, u, specs v),
        λ (p, q, r, place, t, u, v). from (p, q, r, place, sensor' t, u, specs' v),
      )
    where
      parts :
          (a : Bool) (n : ℕ) (b c d e f g : Bool) (xs : List (AircraftSpec F)) (h : Bool)
          → (((a && leb n 64) && b && ((c && d) && (e && f)) && g && not (is_empty xs) && h) ≡ true)
            ↔ ((a ≡ true)
                × (n ≤ 64)
                × (b ≡ true)
                × (((c ≡ true) × (d ≡ true)) × ((e ≡ true) × (f ≡ true)))
                × (g ≡ true)
                × (0 < length xs)
                × (h ≡ true))
      parts a n b c d e f g [] h = (λ k. ground arith, λ k. ground arith)
      parts a n b c d e f g (x ∷ xs) h = (λ k. ground arith, λ k. ground arith)

  -- A scenario is accepted exactly if all its fields are within their bounds, no two aircraft have
  -- one address or one callsign, and each aircraft enters before the end.
  pub model_validate-accepts :
      (s : Scenario F)
      → (model_validate s ≡ none) ↔ (
          ScenarioBounds s
          × IsNodup (map (λ a. a.icao24) s.aircraft)
          × IsNodup (map (λ a. a.callsign) s.aircraft)
          × All (λ a. float.le s.duration_s a.entry_time_s ≡ false) s.aircraft)
  model_validate-accepts s =
      let (to, from) = model_validate-checks s in
      let (fields, fields') = is_bounded_lem s in
      (
        λ h. let (p, q, r, t) = to h in (fields p, q, r, t),
        λ (p, q, r, t). from (fields' p, q, r, t),
      )
