-- ===== src/Conformance/Bounds.antt =====
-- The memory that the monitor keeps for each track.
use mathlib.Core.Path.{subst}
use airspace_conformance_pla.Base.{
  ℕ, ◌≤◌, ◌<◌, String, none, List, [], ◌∷◌, foldl, length, length-append, Float, Option-cases, inl,
  inr, arith, string_eq, Dict, lookup, insert, delete, lookup-insert, lookup-delete,
}
use airspace_conformance_pla.Contracts.{TrackUpdate}
use airspace_conformance_pla.Conformance.{
  PendingPrediction, Predictor, Settings, ConformanceMonitor, push_bounded, or_empty, queue_length,
  window_length, check_queue, check_matured, make_prediction, observe, forget,
}
use airspace_conformance_pla.Conformance.Matching.{not_due, check_queue-lem}

length-push_bounded :
    {A : Type 0} (n : ℕ) (xs : List A) (x : A)
    → 0 < n
    → length xs ≤ n
    → length (push_bounded n xs x) ≤ n
unfolding push_bounded
length-push_bounded n [] x h k = h
length-push_bounded n (y ∷ ys) x h k = ground (arith, length-append ys (x ∷ []))

length-insert :
    {A : Type 0} (n : ℕ) (j k : String) (xs : List A) (m : Dict String (List A))
    → length xs ≤ n
    → length (or_empty (lookup k m)) ≤ n
    → length (or_empty (lookup k (insert j xs m))) ≤ n
length-insert n j k xs m h i = rw lookup-insert (ground arith)

length-delete :
    {A : Type 0} (n : ℕ) (j k : String) (m : Dict String (List A))
    → length (or_empty (lookup k m)) ≤ n
    → length (or_empty (lookup k (delete j m))) ≤ n
length-delete n j k m i = rw lookup-delete (ground arith)

module _ {F : Type 0} where
  -- No window and no queue is longer than its bound.
  abbrev pub IsBounded : ConformanceMonitor F → Type 0
  IsBounded m =
      (k : String)
      → (length (or_empty (lookup k m.windows)) ≤ window_length)
        × (length (or_empty (lookup k m.pending)) ≤ queue_length)

  length-not_due :
      (u : TrackUpdate F) (ps : List (PendingPrediction F)) → length (not_due u ps) ≤ length ps
  length-not_due u [] = omega arith
  length-not_due u (p ∷ ps) = ground (arith, length-not_due u ps)

  forget-IsBounded :
      (ids : List String) (m : ConformanceMonitor F) → IsBounded m → IsBounded (forget ids m)
  unfolding forget
  forget-IsBounded [] m h = h
  forget-IsBounded (j ∷ ids) m h = forget-IsBounded ids _ (λ k. (
    length-delete window_length j k m.windows (h k).0,
    length-delete queue_length j k m.pending (h k).1,
  ))

module _ {F : Type 0} ⦃float : Float F⦄ (world : Predictor F) (c : Settings F) where
  check_matured-IsBounded :
      (u : TrackUpdate F) (m : ConformanceMonitor F)
      → IsBounded m
      → IsBounded (check_matured world c u m).0
  unfolding check_matured
  check_matured-IsBounded u m h k = elim (Option-cases (lookup u.track_id m.pending)) [
    | inl e ↦ rw (e, check_matured) (h k)
    | inr (queue, e) ↦
        rw (e, check_matured)
          (
            (h k).0,
            length-insert queue_length u.track_id k _ m.pending
                (rest queue (subst (λ o. length (or_empty o) ≤ queue_length) e (h u.track_id).1))
                (h k).1,
          )
  ]
    where
      rest :
          (queue : List (PendingPrediction F))
          → length queue ≤ queue_length
          → length (check_queue world c u queue none).0 ≤ queue_length
      rest queue l =
          rw (check_queue-lem world c u queue none) (omega (arith, length-not_due u queue))

  make_prediction-IsBounded :
      (u : TrackUpdate F) (m : ConformanceMonitor F)
      → IsBounded m
      → IsBounded (make_prediction world c u m)
  unfolding make_prediction
  make_prediction-IsBounded u m h k = (
    (h k).0,
    length-insert queue_length u.track_id k _ m.pending
        (length-push_bounded queue_length (or_empty (lookup u.track_id m.pending)) _ (omega arith)
          (h u.track_id).1)
        (h k).1,
  )

  observe-IsBounded :
      (u : TrackUpdate F) (m : ConformanceMonitor F)
      → IsBounded m
      → IsBounded (observe world c u m).0
  unfolding observe
  observe-IsBounded u m h = make_prediction-IsBounded u _ (
      check_matured-IsBounded u _ (λ k. (
        length-insert window_length u.track_id k _ m.windows
            (length-push_bounded window_length (or_empty (lookup u.track_id m.windows)) u
              (omega arith) (h u.track_id).0)
            (h k).0,
        (h k).1,
      )))

-- One call of the monitor.
pub data Call (F : Type 0) : Type 0 where
  see : TrackUpdate F → Call F
  lose : List String → Call F

module _ {F : Type 0} ⦃float : Float F⦄ (world : Predictor F) (c : Settings F) where
  abbrev pub perform : Call F → ConformanceMonitor F → ConformanceMonitor F
  perform (see u) m = (observe world c u m).0
  perform (lose ids) m = forget ids m

  -- From a monitor where this holds, over any calls, the monitor keeps at most 20 updates and 256
  -- unchecked predictions for a track.
  pub perform_all-IsBounded :
      (calls : List (Call F)) (m : ConformanceMonitor F)
      → IsBounded m
      → IsBounded (foldl (λ n call. perform call n) m calls)
  perform_all-IsBounded [] m h = h
  perform_all-IsBounded (see u ∷ calls) m h =
      perform_all-IsBounded calls _ (observe-IsBounded world c u m h)
  perform_all-IsBounded (lose ids ∷ calls) m h =
      perform_all-IsBounded calls _ (forget-IsBounded ids m h)
