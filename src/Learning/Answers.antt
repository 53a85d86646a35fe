-- ===== src/Learning/Answers.antt =====
-- ml/predictor.py: what is answered, whatever becomes of a model.
use mathlib.Core.Path.{subst}
use mathlib.Core.Option.{some_inj}
use airspace_conformance_pla.Base.{
  Ends, Ends-bind, Ends-always, ◌-◌, ◌≤◌, ◌≡◌, refl, sym, ap, ◌∙◌, String, Bool, true, false, ◌&&◌,
  Option, none, some, List, ◌∷◌, length, ltb, Float, IsOrdered, ◌≼◌, fmax, lookup, string_eq, ◌==◌,
  ◌⊎◌, inl, inr, arith, Bool-cases, lookup-insert_self, lookup-insert_ne,
}
use airspace_conformance_pla.Contracts.{TrackUpdate}
use airspace_conformance_pla.Geodesy.Sphere.{Trig, destination_point}
use airspace_conformance_pla.Learning.Baselines.{
  apply_along_cross, Prediction, KinematicState, Plane, dead_reckon, level_after,
}
use airspace_conformance_pla.Learning.Features.{
  Statistics, window_size, state_from, last_of, drop, vector, extract,
}
use airspace_conformance_pla.Learning.Predictor.{
  ResidualModel, TrajectoryPrediction, TrajectoryPredictor, one_more, as_prediction, counted,
  from_baseline, corrected, checked, infer, with_model, predict_from, predict,
}

abbrev pub AreFinite : {F : Type 0} → (F → Bool) → F × F × F → Type 0
AreFinite is_finite (along, cross, height) =
    (is_finite along ≡ true) × (is_finite cross ≡ true) × (is_finite height ≡ true)

zero-le-fmax :
    {F : Type 0} ⦃float : Float F⦄ (laws : IsOrdered F) (x : F)
    → float.literal 0 ≼ fmax (float.literal 0) x
unfolding fmax
zero-le-fmax ⦃float⦄ laws x =
    ground (arith, laws.le_of_lt (float.literal 0) x, laws.literal_number 0)

-- At the ground or above it.
abbrev pub IsUp : {F : Type 0} ⦃float : Float F⦄ → F → Type 0
IsUp ⦃float⦄ altitude_ft = float.literal 0 ≼ altitude_ft

dead_reckon-IsUp :
    {F : Type 0} ⦃float : Float F⦄ ⦃trig : Trig F⦄ (laws : IsOrdered F) (s : KinematicState F)
    (horizon_s : F)
    → Ends (λ b. IsUp b.altitude_ft) (dead_reckon s horizon_s)
unfolding dead_reckon level_after
dead_reckon-IsUp laws s horizon_s =
    Ends-bind (λ place. Unit {0}) (λ b. IsUp b.altitude_ft)
      (destination_point s.lat s.lon s.track_deg _) _ (Ends-always _)
      (λ place _. zero-le-fmax laws _)

all_of : (a b c : Bool) → (a && b && c) ≡ true → (a ≡ true) × (b ≡ true) × (c ≡ true)
all_of a b c h = ground arith

not_all : (a b c : Bool) → (a && b && c) ≡ false → ¬ ((a ≡ true) × (b ≡ true) × (c ≡ true))
not_all a b c h k = ground arith

module _ {F M : Type 0} ⦃float : Float F⦄ ⦃trig : Trig F⦄ (learned : ResidualModel F M)
    (statistics : Statistics F) (plane : Plane F) (is_finite : F → Bool) where
  -- A model is there, the window is long enough for its features, and the model gives a correction
  -- that is finite.
  abbrev pub IsUsable : Option M → List (TrackUpdate F) → F × F × F → Type 0
  IsUsable model window (along, cross, height) =
      (m : M) × (model ≡ some m)
      × (window_size ≤ length window)
      × (learned.predict m (vector statistics (drop (length window - window_size) window))
          ≡ some (along, cross, height))
      × AreFinite is_finite (along, cross, height)

  -- The answer is the model's correction if it can be used, and physics alone if not.
  abbrev IsChosen :
      Option M
      → TrajectoryPredictor F M
      → TrackUpdate F
      → Prediction F
      → List (TrackUpdate F)
      → Option (TrajectoryPrediction F)
      → Type 0
  IsChosen model p current baseline window o =
      ((r : F × F × F) × IsUsable model window r
        × (o ≡ corrected learned statistics plane is_finite p current baseline r))
      ⊎ (((r : F × F × F) → ¬ IsUsable model window r)
          × (o ≡ some (as_prediction learned statistics plane is_finite p baseline)))

  same_model :
      (m m' : M) (window : List (TrackUpdate F))
      → ◌≡◌ {A = Option M} (some m) (some m')
      → let v = vector statistics (drop (length window - window_size) window) in
        learned.predict m v ≡ learned.predict m' v
  same_model m m' window e =
      ap (λ x. learned.predict x (vector statistics (drop (length window - window_size) window)))
        (some_inj.0 e)

  checked-IsChosen :
      (p : TrajectoryPredictor F M) (current : TrackUpdate F) (baseline : Prediction F)
      (window : List (TrackUpdate F)) (m : M) (o : Option (F × F × F))
      → learned.predict m (vector statistics (drop (length window - window_size) window)) ≡ o
      → window_size ≤ length window
      → IsChosen
          (some m)
          p
          current
          baseline
          window
          (checked learned statistics plane is_finite p current baseline o)
  unfolding checked
  checked-IsChosen p current baseline window m none e long =
      inr (λ r u. absurd (let t = same_model m _ window u.1 in let f = u.3 in cc), refl)
  checked-IsChosen p current baseline window m (some (along, cross, height)) e long =
      elim (Bool-cases (is_finite along && is_finite cross && is_finite height)) [
        | inl good ↦
            inl ((along, cross, height), (m, refl, long, e, (all_of _ _ _ good)), rw good refl)
        | inr bad ↦ inr (
          λ r u.
              let t = same_model m _ window u.1 in
              let f = u.3 in
              let given : (along, cross, height) ≡ r = some_inj.0 (sym e ∙ t ∙ f) in
              let finite = subst (λ q. AreFinite is_finite q) (sym given) u.4 in
              absurd (not_all _ _ _ bad finite),
          rw bad refl,
        )
      ]

  with_model-IsChosen :
      (model : Option M) (p : TrajectoryPredictor F M) (current : TrackUpdate F)
      (baseline : Prediction F) (window : List (TrackUpdate F))
      → IsChosen model p current baseline window
          (with_model learned statistics plane is_finite p current baseline window model)
  unfolding infer extract
  with_model-IsChosen none p current baseline window = inr (λ r u. absurd (let e = u.1 in cc), refl)
  with_model-IsChosen (some m) p current baseline window =
      elim (Bool-cases (ltb (length window) window_size)) [
        | inl short ↦ inr (λ r u. absurd (let l = u.2 in ground arith), rw short refl)
        | inr long ↦ rw long (checked-IsChosen p current baseline window m _ refl (ground arith))
      ]

  -- From the dead reckoning of the last update, unless that raises.
  abbrev pub IsAnswer :
      TrajectoryPredictor F M
      → TrackUpdate F
      → List (TrackUpdate F)
      → Option (TrajectoryPrediction F)
      → Type 0
  IsAnswer p first rest o =
      let physics = dead_reckon (state_from (last_of first rest)) p.horizon_s in
      ((physics ≡ none) × (o ≡ none))
      ⊎ ((baseline : Prediction F) × (physics ≡ some baseline)
          × IsChosen p.model p (last_of first rest) baseline (first ∷ rest) o)

  -- A prediction is at the ground or above it. It is counted under its source, and the other
  -- counters are as they were.
  abbrev pub IsServed :
      TrajectoryPredictor F M
      → Option (TrajectoryPrediction F)
      → Option (TrajectoryPredictor F M × TrajectoryPrediction F)
      → Type 0
  IsServed p none result = result ≡ none
  IsServed p (some x) result =
      (p' : TrajectoryPredictor F M) × (result ≡ some (p', x))
      × IsUp x.altitude_ft
      × (lookup x.source p'.predictions ≡ some (one_more (lookup x.source p.predictions)))
      × ((other : String)
          → (x.source == other) ≡ false
          → lookup other p'.predictions ≡ lookup other p.predictions)

  counted-IsServed :
      (p : TrajectoryPredictor F M) (o : Option (TrajectoryPrediction F))
      → Ends (λ x. IsUp x.altitude_ft) o
      → IsServed p o (counted learned statistics plane is_finite p o)
  counted-IsServed p none up = refl
  counted-IsServed p (some x) up = (
    _,
    refl,
    up,
    lookup-insert_self x.source _ p.predictions,
    λ other h. lookup-insert_ne x.source other _ p.predictions h,
  )

  IsChosen-IsUp :
      (laws : IsOrdered F) (p : TrajectoryPredictor F M) (current : TrackUpdate F)
      (baseline : Prediction F) (window : List (TrackUpdate F))
      (o : Option (TrajectoryPrediction F))
      → IsUp baseline.altitude_ft
      → IsChosen p.model p current baseline window o
      → Ends (λ x. IsUp x.altitude_ft) o
  unfolding corrected as_prediction
  IsChosen-IsUp laws p current baseline window o low (inl ((a, c, h), u, e)) = rw e (
      Ends-bind (λ place. Unit {0}) (λ x. IsUp x.altitude_ft)
        (apply_along_cross plane baseline a c current.track_deg) _ (Ends-always _)
        (λ place _. zero-le-fmax laws _))
  IsChosen-IsUp laws p current baseline window o low (inr (none_usable, e)) = rw e low

  IsAnswer-from :
      (laws : IsOrdered F) (p : TrajectoryPredictor F M) (first : TrackUpdate F)
      (rest : List (TrackUpdate F)) (physics : Option (Prediction F))
      → Ends (λ b. IsUp b.altitude_ft) physics
      → dead_reckon (state_from (last_of first rest)) p.horizon_s ≡ physics
      → let o =
          from_baseline learned statistics plane is_finite p
            (last_of first rest)
            (first ∷ rest)
            physics in
        IsAnswer p first rest o × Ends (λ x. IsUp x.altitude_ft) o
  IsAnswer-from laws p first rest none up e = (inl (e, refl), tt)
  IsAnswer-from laws p first rest (some baseline) up e =
      let current = last_of first rest in
      let chosen = with_model-IsChosen p.model p current baseline (first ∷ rest) in
      (inr (baseline, e, chosen), IsChosen-IsUp laws p current baseline (first ∷ rest) _ up chosen)

  -- With ordered floats, of a window that is not empty, and whatever becomes of the model, its
  -- files and its inference: the answer is the model's correction of the dead reckoning from the
  -- last update exactly if there is a model, the window is long enough and the model gives a
  -- correction that is finite, and the dead reckoning itself if not. Nothing is answered only where
  -- the geometry of the dead reckoning or of that correction raises. A prediction is never below
  -- the ground; the counter of its source is one higher, and the others are as they were.
  pub predict-IsAnswer :
      (laws : IsOrdered F) (p : TrajectoryPredictor F M) (first : TrackUpdate F)
      (rest : List (TrackUpdate F))
      → (o : Option (TrajectoryPrediction F)) × IsAnswer p first rest o
        × IsServed p o (predict learned statistics plane is_finite p (first ∷ rest))
  unfolding predict predict_from
  predict-IsAnswer laws p first rest =
      let current = last_of first rest in
      let physics = dead_reckon (state_from current) p.horizon_s in
      let (answer, up) =
        IsAnswer-from laws p first rest physics
          (dead_reckon-IsUp laws (state_from current) p.horizon_s) refl in
      (_, answer, counted-IsServed p _ up)
