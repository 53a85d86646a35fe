-- ===== src/Conformance.antt =====
-- services/conformance/monitor.py: `NonConformance` and `ConformanceMonitor`. The predictor, dead
-- reckoning and the great-circle distance are the interface `Predictor`.
pub mod Matching
pub mod Bounds
mod Tests
use Prim.Native.String.{◌++◌ as str_append}
use airspace_conformance_pla.Base.{
  ℕ, ◌+◌, ◌-◌, String, Bool, ◌&&◌, Option, none, some, List, [], ◌∷◌, ◌++◌, foldl, length, ltb, leb,
  Float, fmax, join, or_else, string_eq, Dict, lookup, insert, delete, if◌then◌else◌,
}
use airspace_conformance_pla.Contracts.{
  Timestamp, TrackUpdate, Severity, advisory, ConformanceEvidence,
}

-- `_PendingPrediction`. `used_model` is whether `source` is "model".
pub record PendingPrediction (F : Type 0) : Type 0 where
  pub valid_at : Timestamp
  pub predicted_at : Timestamp
  pub lat : F
  pub lon : F
  pub altitude_ft : F
  pub baseline_lat : F
  pub baseline_lon : F
  pub used_model : Bool
  pub predictor_version : String

pub record NonConformance (F : Type 0) : Type 0 where
  pub track_id : String
  pub callsign : Option String
  pub predicted_at : Timestamp
  pub horizon_s : F
  pub error_nm : F
  pub baseline_error_nm : F
  pub threshold_nm : F
  pub predictor_version : String
  pub used_model : Bool

-- What `predictor.predict` returns.
pub record Prediction (F : Type 0) : Type 0 where
  pub lat : F
  pub lon : F
  pub altitude_ft : F
  pub used_model : Bool
  pub predictor_version : String

pub record Predictor (F : Type 0) : Type 0 where
  -- `predictor.predict`, over the window of a track.
  pub predict : List (TrackUpdate F) → Prediction F
  -- `dead_reckon(state_from(update), horizon_s)`: a latitude and a longitude.
  pub dead_reckon : TrackUpdate F → F → F × F
  pub haversine_nm : F → F → F → F → F

-- `horizon` is `timedelta(seconds=horizon_s)`, in microseconds.
pub record Settings (F : Type 0) : Type 0 where
  pub horizon_s : F
  pub horizon : ℕ
  pub threshold_factor : F
  pub minimum_threshold_nm : F
  -- The calibrated errors for the horizon, of the model and of physics.
  pub model_nm : Option F
  pub physics_nm : Option F

pub record ConformanceMonitor (F : Type 0) : Type 0 where
  pub windows : Dict String (List (TrackUpdate F))
  pub pending : Dict String (List (PendingPrediction F))

-- `deque(maxlen=n).append(x)`, for n that is not 0: the oldest entry makes room.
unfoldable pub push_bounded : {A : Type 0} → ℕ → List A → A → List A
push_bounded n [] x = x ∷ []
push_bounded n (y ∷ ys) x = if leb n (length (y ∷ ys)) then ys ++ x ∷ [] else (y ∷ ys) ++ x ∷ []

abbrev pub or_empty : {A : Type 0} → Option (List A) → List A
or_empty none = []
or_empty (some xs) = xs

-- `MATCH_TOLERANCE_S`, and the length of a queue of predictions.
abbrev pub match_tolerance : ℕ
match_tolerance = 3000000

abbrev pub queue_length : ℕ
queue_length = 256

-- `WINDOW` of ml/features.py.
abbrev pub window_length : ℕ
window_length = 20

module _ {F : Type 0} ⦃float : Float F⦄ where
  open float use {literal, mul, lt, format}

  unfoldable pub key : NonConformance F → String
  key f = str_append "non_conformance:" f.track_id

  abbrev pub severity : NonConformance F → Severity
  severity f = advisory

  unfoldable pub reason_codes : NonConformance F → List String
  reason_codes f =
      "prediction_error_above_threshold"
      ∷ (if f.used_model then "model_prediction" else "physics_prediction_only")
      ∷ (if lt (mul f.threshold_nm (literal 2)) f.error_nm then "large_deviation" ∷ [] else [])

  unfoldable pub summary : NonConformance F → String
  unfolding join or_else
  summary f = join (
      or_else f.callsign f.track_id
      ∷ " diverged "
      ∷ format ".1f" f.error_nm
      ∷ " NM from its "
      ∷ format ".0f" f.horizon_s
      ∷ " s prediction (threshold "
      ∷ format ".1f" f.threshold_nm
      ∷ " NM). Advisory only: no flight plan is available, so this may be an "
      ∷ "entirely normal manoeuvre."
      ∷ [])

  unfoldable pub as_evidence : NonConformance F → ConformanceEvidence F
  as_evidence f = record {
    predicted_at = f.predicted_at;
    horizon_s = f.horizon_s;
    error_nm = f.error_nm;
    baseline_error_nm = f.baseline_error_nm;
    threshold_nm = f.threshold_nm;
    predictor_version = f.predictor_version;
  }

  unfoldable pub threshold_for : Settings F → Bool → F
  unfolding fmax
  threshold_for c used_model = elim (if used_model then c.model_nm else c.physics_nm) [
    | none ↦ c.minimum_threshold_nm
    | some typical ↦ fmax c.minimum_threshold_nm (mul c.threshold_factor typical)
  ]

  -- `error_nm > threshold and (finding is None or error_nm > finding.error_nm)`
  unfoldable pub worse : Option (NonConformance F) → NonConformance F → Option (NonConformance F)
  worse none d = if lt d.threshold_nm d.error_nm then some d else none
  worse (some f) d =
      if lt d.threshold_nm d.error_nm && lt f.error_nm d.error_nm then some d else some f

  module _ (world : Predictor F) (c : Settings F) where
    open world use {predict, dead_reckon, haversine_nm}

    -- The finding that a prediction in its window would make.
    unfoldable pub deviation : TrackUpdate F → PendingPrediction F → NonConformance F
    unfolding threshold_for
    deviation update p = record {
      track_id = update.track_id;
      callsign = update.callsign;
      predicted_at = p.predicted_at;
      horizon_s = c.horizon_s;
      error_nm = haversine_nm p.lat p.lon update.lat update.lon;
      baseline_error_nm = haversine_nm p.baseline_lat p.baseline_lon update.lat update.lon;
      threshold_nm = threshold_for c p.used_model;
      predictor_version = p.predictor_version;
      used_model = p.used_model;
    }

    -- The loop of `_check_matured`: what is left of the queue, and the finding. Time on both sides
    -- of `-` is moved to the other side, so that no difference is taken below zero.
    unfoldable pub check_queue :
        TrackUpdate F
        → List (PendingPrediction F)
        → Option (NonConformance F)
        → List (PendingPrediction F) × Option (NonConformance F)
    unfolding worse deviation
    check_queue update [] finding = ([], finding)
    check_queue update (p ∷ queue) finding =
        let next =
          if ltb (p.valid_at + match_tolerance) update.updated_at
          then finding
          else worse finding (deviation update p) in
        let rest = check_queue update queue next in
        if ltb (update.updated_at + match_tolerance) p.valid_at then (p ∷ queue, finding) else rest

    unfoldable pub check_matured :
        TrackUpdate F → ConformanceMonitor F → ConformanceMonitor F × Option (NonConformance F)
    unfolding check_queue
    check_matured update m = elim (lookup update.track_id m.pending) [
      | none ↦ (m, none)
      | some queue ↦
          let (rest, finding) = check_queue update queue none in
          (record m { pending = insert update.track_id rest m.pending }, finding)
    ]

    unfoldable pub make_prediction : TrackUpdate F → ConformanceMonitor F → ConformanceMonitor F
    unfolding push_bounded
    make_prediction update m =
        let window = or_empty (lookup update.track_id m.windows) in
        let prediction = predict window in
        let (baseline_lat, baseline_lon) = dead_reckon update c.horizon_s in
        let queue = or_empty (lookup update.track_id m.pending) in
        let p : PendingPrediction F = record {
          valid_at = update.updated_at + c.horizon;
          predicted_at = update.updated_at;
          lat = prediction.lat;
          lon = prediction.lon;
          altitude_ft = prediction.altitude_ft;
          baseline_lat = baseline_lat;
          baseline_lon = baseline_lon;
          used_model = prediction.used_model;
          predictor_version = prediction.predictor_version;
        } in
        record m { pending = insert update.track_id (push_bounded queue_length queue p) m.pending }

    unfoldable pub observe :
        TrackUpdate F → ConformanceMonitor F → ConformanceMonitor F × Option (NonConformance F)
    unfolding check_matured make_prediction push_bounded
    observe update m =
        let window =
          push_bounded window_length (or_empty (lookup update.track_id m.windows)) update in
        let (m', finding) =
          check_matured update (record m { windows = insert update.track_id window m.windows }) in
        (make_prediction update m', finding)

module _ {F : Type 0} where
  unfoldable pub forget : List String → ConformanceMonitor F → ConformanceMonitor F
  forget track_ids m =
      foldl
        (λ n track_id. record n {
          windows = delete track_id n.windows;
          pending = delete track_id n.pending;
        })
        m track_ids
