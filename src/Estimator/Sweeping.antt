-- ===== src/Estimator/Sweeping.antt =====
-- What a sweep leaves behind: every track's state follows from its silence.
use mathlib.Core.Path.{subst}
use airspace_conformance_pla.Base.{
  ℕ, ◌+◌, ◌≤◌, ◌<◌, ◌≡◌, ◌∙◌, refl, sym, false, Option, none, some, Float, lookup, string_eq, arith,
  String, Dict, List, [], ◌∷◌, ◌++◌, if_cases, if◌then◌else◌,
}
use airspace_conformance_pla.Contracts.{
  TrackUpdate, Timestamp, TrackState, initiating, confirmed, coasting, terminated,
}
use airspace_conformance_pla.Kalman.{Algebra}
use airspace_conformance_pla.Tracks.{TrackRecord, to_update, coast, message}
use airspace_conformance_pla.Estimator.{
  TrackEstimator, age, sweep_one, sweep_all, sweep, state_differs,
}
use airspace_conformance_pla.Estimator.Invariant.{lookup-sweep_all}

state_differs_self : (s : TrackState) → state_differs s s ≡ false
unfolding state_differs
state_differs_self initiating = refl
state_differs_self confirmed = refl
state_differs_self coasting = refl
state_differs_self terminated = refl

module _ {F S : Type 0} ⦃float : Float F⦄ ⦃algebra : Algebra F S⦄ where
  -- The track's state agrees with its silence at a time.
  pub record IsAged (a t : ℕ) (now : Timestamp) (r : TrackRecord F S) : Type 0 where
    pub unexpired : r.is_terminated ≡ false → now < r.last_report_at + t
    pub silent : r.is_terminated ≡ false → r.last_report_at + a ≤ now → r.state ≡ coasting

  module _ (a t : ℕ) (now : Timestamp) where
    age-IsAged : (r : TrackRecord F S) → IsAged a t now (age a t now r)
    unfolding age
    age-IsAged r = ground arith

    coast-IsAged : (r : TrackRecord F S) → IsAged a t now r → IsAged a t now (coast r now)
    unfolding coast
    coast-IsAged r v = ground arith

    sweep_one-IsAged : (r : TrackRecord F S) → IsAged a t now (sweep_one a t now r).0
    unfolding sweep_one to_update
    sweep_one-IsAged r =
        if_cases (λ (p : TrackRecord F S × List (TrackUpdate F)). IsAged a t now p.0)
          r.is_terminated _ _ (λ gone. ground arith)
          (λ live.
            if_cases (λ (p : TrackRecord F S × List (TrackUpdate F)). IsAged a t now p.0)
              (state_differs (age a t now r).state r.state) _ _
              (λ changed. coast-IsAged (age a t now r) (age-IsAged r)) (λ same. age-IsAged r))

    -- A track that agrees with the clock is left alone.
    sweep_one_aged : (r : TrackRecord F S) → IsAged a t now r → sweep_one a t now r ≡ (r, [])
    unfolding sweep_one age
    sweep_one_aged r v = ground (arith, state_differs_self r.state, v.unexpired, v.silent)

    sweep_all_twice :
        (m : Dict String (TrackRecord F S))
        → sweep_all a t now (sweep_all a t now m).0 ≡ ((sweep_all a t now m).0, [])
    unfolding sweep_all
    sweep_all_twice [] = refl
    sweep_all_twice ((k, r) ∷ m) =
        rw (sweep_one_aged (sweep_one a t now r).0 (sweep_one-IsAged r), sweep_all_twice m) refl

  -- The message of a track, if its state changed.
  unfoldable pub announced : Timestamp → TrackRecord F S → TrackRecord F S → List (TrackUpdate F)
  announced now r r' = if state_differs r'.state r.state then message r' now ∷ [] else []

  -- The messages of the tracks whose state changed between two snapshots, in the dictionary's order.
  unfoldable pub announcements :
      Timestamp
      → Dict String (TrackRecord F S)
      → Dict String (TrackRecord F S)
      → List (TrackUpdate F)
  announcements now [] _ = []
  announcements now (_ ∷ _) [] = []
  announcements now ((k, r) ∷ m) ((j, r') ∷ m') = announced now r r' ++ announcements now m m'

  module _ (a t : ℕ) (now : Timestamp) where
    sweep_one-updates :
        (r : TrackRecord F S) → (sweep_one a t now r).1 ≡ announced now r (sweep_one a t now r).0
    unfolding sweep_one age to_update coast announced
    sweep_one-updates r = ground (arith, state_differs_self r.state)

    sweep_all-updates :
        (m : Dict String (TrackRecord F S))
        → (sweep_all a t now m).1 ≡ announcements now m (sweep_all a t now m).0
    unfolding sweep_all announcements
    sweep_all-updates [] = refl
    sweep_all-updates ((k, r) ∷ m) = λ i. sweep_one-updates r i ++ sweep_all-updates m i

  -- After a sweep, every track that is not terminated has been silent for less than the time that
  -- ends a track, and is coasting if it has been silent for the time after which a track coasts.
  pub sweep-IsAged :
      (now : Timestamp) (e : TrackEstimator F S) (k : String) (r : TrackRecord F S)
      → lookup k (sweep now e).0.tracks ≡ some r
      → IsAged e.coast_after e.terminate_after now r
  unfolding sweep
  sweep-IsAged now e k r h =
      held (lookup k e.tracks)
        (sym (lookup-sweep_all e.coast_after e.terminate_after now k e.tracks) ∙ h)
    where
      held :
          (o : Option (TrackRecord F S))
          → elim o [
            | none ↦ none
            | some s ↦ some (sweep_one e.coast_after e.terminate_after now s).0
          ]
            ≡ some r
          → IsAged e.coast_after e.terminate_after now r
      held none p = absurd (cc)
      held (some s) p =
          subst (λ (x : TrackRecord F S). IsAged e.coast_after e.terminate_after now x) (cc)
            (sweep_one-IsAged e.coast_after e.terminate_after now s)

  -- A second sweep at the same instant changes nothing and announces nothing.
  pub sweep_twice :
      (now : Timestamp) (e : TrackEstimator F S) → sweep now (sweep now e).0 ≡ ((sweep now e).0, [])
  unfolding sweep
  sweep_twice now e = rw (sweep_all_twice e.coast_after e.terminate_after now e.tracks) refl

  -- A sweep announces exactly the tracks whose state it changed, each once, in the dictionary's
  -- order, with the state and the estimate that it leaves them with.
  pub sweep-updates :
      (now : Timestamp) (e : TrackEstimator F S)
      → (sweep now e).1 ≡ announcements now e.tracks (sweep now e).0.tracks
  unfolding sweep
  sweep-updates now e = sweep_all-updates e.coast_after e.terminate_after now e.tracks
