-- ===== src/Learning/Tests.antt =====
-- ml/predictor.py.
use airspace_conformance_pla.Base.{
  ℕ, zero, suc, ◌≡◌, refl, String, Bool, true, string_eq, Option, none, some, List, [], ◌∷◌,
}
use airspace_conformance_pla.Base.Whole.{ℤ, pos, whole, whole-IsOrdered}
use airspace_conformance_pla.Contracts.{TrackUpdate}
use airspace_conformance_pla.Samples.{mayday}
use airspace_conformance_pla.Simulation.Samples.{flat_earth}
use airspace_conformance_pla.Learning.Answers.{predict-IsAnswer, IsAnswer, IsServed}
use airspace_conformance_pla.Learning.Baselines.{Plane}
use airspace_conformance_pla.Learning.Features.{Statistics}
use airspace_conformance_pla.Learning.Predictor.{
  ResidualModel, TrajectoryPredictor, TrajectoryPrediction, predict,
}

data Model : Type 0 where
  steady broken : Model

abbrev correction_of : Model → Option (ℤ × ℤ × ℤ)
correction_of steady = some (pos 1, pos 2, pos 3)
correction_of broken = none

abbrev residual : ResidualModel ℤ Model
residual = record { name = λ m. "steady"; predict = λ m features. correction_of m }

abbrev first_only : Statistics ℤ
first_only = record {
  mean = λ xs. pos 0;
  std = λ xs. pos 0;
  greatest = λ xs. pos 0;
  straight_deg_s = pos 0;
}

abbrev sum_plane : Plane ℤ
sum_plane = record { hypot = λ x y. whole.add x y; millionth = pos 0; billionth = pos 0 }

abbrev all_finite : ℤ → Bool
all_finite x = true

abbrev copies : ℕ → List (TrackUpdate ℤ)
copies zero = []
copies (suc n) = mayday ∷ copies n

abbrev serving : TrajectoryPredictor ℤ Model
serving = record {
  horizon_s = pos 60;
  model = some steady;
  version = "acp-residual-v1:steady";
  predictions = [];
}

-- Of a window that is one update short, and of a full one.
source_of : List (TrackUpdate ℤ) → Option String
source_of window = elim (predict residual first_only sum_plane all_finite serving window) [
  | none ↦ none
  | some (p, x) ↦ some x.source
]

short_window : source_of (copies 19) ≡ some "dead_reckoning"
unfolding source_of predict
short_window = refl

full_window : source_of (copies 20) ≡ some "model"
unfolding source_of predict
full_window = refl

predict-IsAnswer_example :
    (o : Option (TrajectoryPrediction ℤ)) × IsAnswer residual first_only sum_plane all_finite
      serving mayday
      (copies 19)
      o
    × IsServed residual first_only sum_plane all_finite serving o
        (predict residual first_only sum_plane all_finite serving (mayday ∷ copies 19))
predict-IsAnswer_example =
    predict-IsAnswer residual first_only sum_plane all_finite whole-IsOrdered serving mayday
      (copies 19)
