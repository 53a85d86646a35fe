-- ===== src/Learning/Predictor.antt =====
-- ml/predictor.py: `TrajectoryPredictor`. The files of the models and what loading one does are given.
use airspace_conformance_pla.Base.{
  ℕ, ◌+◌, String, Bool, ◌&&◌, Option, none, some, List, [], ◌∷◌, length, ltb, Float, fmax, Dict,
  lookup, insert, string_eq, join, if◌then◌else◌, ◌>>=◌,
}
use airspace_conformance_pla.Contracts.{TrackUpdate}
use airspace_conformance_pla.Geodesy.Sphere.{Trig}
use airspace_conformance_pla.Learning.Baselines.{Prediction, Plane, dead_reckon, apply_along_cross}
use airspace_conformance_pla.Learning.Features.{
  Statistics, window_size, state_from, last_of, extract,
}

pub data Kind : Type 0 where
  neural ridge : Kind

-- A residual model: its name, and its correction along, across and in height; `none` where it
-- raises.
pub record ResidualModel (F M : Type 0) : Type 0 where
  pub name : M → String
  pub predict : M → List F → Option (F × F × F)

-- `Path.exists` under the directory of models, `load`, which is `none` where it raises, and
-- `int(horizon_s)` as a text.
pub record Artifacts (F M : Type 0) : Type 0 where
  pub exists : String → Bool
  pub load : Kind → String → Option M
  pub seconds_text : F → String

pub record TrajectoryPrediction (F : Type 0) : Type 0 where
  pub lat : F
  pub lon : F
  pub altitude_ft : F
  pub horizon_s : F
  pub source : String
  pub predictor_version : String

-- `predictions` is the counter of that name, by source.
pub record TrajectoryPredictor (F M : Type 0) : Type 0 where
  pub horizon_s : F
  pub model : Option M
  pub version : String
  pub predictions : Dict String ℕ

abbrev pub one_more : Option ℕ → ℕ
one_more none = 1
one_more (some n) = n + 1

module _ {F M : Type 0} (artifacts : Artifacts F M) where
  unfoldable pub artifact_for : F → Option (Kind × String)
  unfolding join
  artifact_for horizon_s =
      let neural_path =
        join ("residual_neural_" ∷ artifacts.seconds_text horizon_s ∷ "s.pt" ∷ []) in
      let ridge_path =
        join ("residual_ridge_" ∷ artifacts.seconds_text horizon_s ∷ "s.json" ∷ []) in
      if artifacts.exists neural_path
      then some (neural, neural_path)
      else if artifacts.exists ridge_path
      then some (ridge, ridge_path)
      else none

  -- `_load`, which never raises.
  unfoldable pub load : F → Option M
  unfolding artifact_for
  load horizon_s = do (kind, path) ← artifact_for horizon_s; artifacts.load kind path

module _ {F M : Type 0} (learned : ResidualModel F M) (artifacts : Artifacts F M) where
  abbrev pub version_of : Option M → String
  version_of none = "acp-residual-v1:physics"
  version_of (some m) = join ("acp-residual-v1" ∷ ":" ∷ learned.name m ∷ [])

  abbrev pub or_load : F → Option M → Option M
  or_load horizon_s none = load artifacts horizon_s
  or_load horizon_s (some m) = some m

  -- `__init__`
  unfoldable pub create : F → Option M → Dict String ℕ → TrajectoryPredictor F M
  unfolding load join
  create horizon_s given predictions =
      let model = or_load horizon_s given in
      record {
        horizon_s = horizon_s;
        model = model;
        version = version_of model;
        predictions = predictions;
      }

module _ {F M : Type 0} ⦃float : Float F⦄ ⦃trig : Trig F⦄ (learned : ResidualModel F M)
    (statistics : Statistics F) (plane : Plane F) (is_finite : F → Bool) where
  open float use {literal, add}

  unfoldable pub as_prediction : TrajectoryPredictor F M → Prediction F → TrajectoryPrediction F
  as_prediction p baseline = record {
    lat = baseline.lat;
    lon = baseline.lon;
    altitude_ft = baseline.altitude_ft;
    horizon_s = p.horizon_s;
    source = "dead_reckoning";
    predictor_version = p.version;
  }

  -- `none` where the geometry of the correction raises, which is outside the handler.
  unfoldable pub corrected :
      TrajectoryPredictor F M
      → TrackUpdate F
      → Prediction F
      → F × F × F
      → Option (TrajectoryPrediction F)
  unfolding fmax apply_along_cross
  corrected p current baseline (along, cross, height) = do
    (lat, lon) ← apply_along_cross plane baseline along cross current.track_deg
    some (record {
      lat = lat;
      lon = lon;
      altitude_ft = fmax (literal 0) (add baseline.altitude_ft height);
      horizon_s = p.horizon_s;
      source = "model";
      predictor_version = p.version;
    })

  -- After inference, if it has not raised.
  unfoldable pub checked :
      TrajectoryPredictor F M
      → TrackUpdate F
      → Prediction F
      → Option (F × F × F)
      → Option (TrajectoryPrediction F)
  unfolding as_prediction corrected
  checked p current baseline none = some (as_prediction p baseline)
  checked p current baseline (some (along, cross, height)) =
      if is_finite along && is_finite cross && is_finite height
      then corrected p current baseline (along, cross, height)
      else some (as_prediction p baseline)

  -- self._model.predict(extract(window)), under the handler.
  unfoldable pub infer : M → List (TrackUpdate F) → Option (F × F × F)
  unfolding extract
  infer m window = do features ← extract statistics window; learned.predict m features

  abbrev pub with_model :
      TrajectoryPredictor F M
      → TrackUpdate F
      → Prediction F
      → List (TrackUpdate F)
      → Option M
      → Option (TrajectoryPrediction F)
  with_model p current baseline window none = some (as_prediction p baseline)
  with_model p current baseline window (some m) =
      if ltb (length window) window_size
      then some (as_prediction p baseline)
      else checked p current baseline (infer m window)

  abbrev pub from_baseline :
      TrajectoryPredictor F M
      → TrackUpdate F
      → List (TrackUpdate F)
      → Option (Prediction F)
      → Option (TrajectoryPrediction F)
  from_baseline p current window none = none
  from_baseline p current window (some baseline) = with_model p current baseline window p.model

  -- `_predict`, of a window that is not empty; `none` where it raises.
  unfoldable pub predict_from :
      TrajectoryPredictor F M
      → TrackUpdate F
      → List (TrackUpdate F)
      → Option (TrajectoryPrediction F)
  unfolding as_prediction infer checked dead_reckon state_from
  predict_from p first rest =
      let current = last_of first rest in
      from_baseline p current (first ∷ rest) (dead_reckon (state_from current) p.horizon_s)

  abbrev pub counted :
      TrajectoryPredictor F M
      → Option (TrajectoryPrediction F)
      → Option (TrajectoryPredictor F M × TrajectoryPrediction F)
  counted p none = none
  counted p (some x) = some (
    record p {
      predictions = insert x.source (one_more (lookup x.source p.predictions)) p.predictions;
    },
    x,
  )

  -- `none` where it raises, as it does where the window is empty.
  unfoldable pub predict :
      TrajectoryPredictor F M
      → List (TrackUpdate F)
      → Option (TrajectoryPredictor F M × TrajectoryPrediction F)
  unfolding predict_from
  predict p [] = none
  predict p (first ∷ rest) = counted p (predict_from p first rest)
