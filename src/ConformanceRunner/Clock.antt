-- ===== src/ConformanceRunner/Clock.antt =====
-- What one update does to the picture and to the scan clock.
use airspace_conformance_pla.Base.{
  ℕ, ◌+◌, ◌≤◌, ◌≡◌, refl, max, String, false, ◌&&◌, not, Option, none, some, List, [], ◌∷◌, foldl,
  leb, All, All-map, Bool-cases, Option-cases, inl, inr, ◌==◌, ==_cases, ==_refl, string_eq, lookup,
  insert, delete, lookup-insert, lookup-delete, Float, if_cases, arith,
}
use airspace_conformance_pla.Contracts.{Timestamp, TrackUpdate, terminated}
use airspace_conformance_pla.Estimator.{state_differs}
use airspace_conformance_pla.Conformance.{Predictor, Settings, observe}
use airspace_conformance_pla.ConformanceRunner.{
  ConformanceRunner, clock, absorb, check_conformance, ratchet, is_out_of_order, is_newer,
  add_member, max_data_clock_lead,
}

-- The clock of the data is not past a bound.
abbrev pub IsWithin : ℕ → Option Timestamp → Type 0
IsWithin b none = Unit
IsWithin b (some t) = t ≤ b

module _ {F : Type 0} where
  -- Checking conformance touches nothing else of the runner.
  pub record IsAside (r s : ConformanceRunner F) : Type 0 where
    pub picture : s.picture ≡ r.picture
    pub latest_seen : s.latest_seen ≡ r.latest_seen
    pub manager : s.manager ≡ r.manager

  -- The runner after an update that ends a track, after one that is out of order, and after one that
  -- is folded in, before conformance is checked.
  abbrev pub departed : TrackUpdate F → ConformanceRunner F → ConformanceRunner F
  departed u r = record r {
    updates = r.updates + 1;
    picture = delete u.track_id r.picture;
    gone = add_member u.track_id r.gone;
  }

  abbrev pub counted : ConformanceRunner F → ConformanceRunner F
  counted r = record r { updates = r.updates + 1 }

  abbrev pub folded : Timestamp → TrackUpdate F → ConformanceRunner F → ConformanceRunner F
  folded wall u r = record r {
    updates = r.updates + 1;
    picture = insert u.track_id u r.picture;
    latest_seen = ratchet wall u r.latest_seen;
  }

  -- The update is in the picture, or one that is newer.
  abbrev pub IsOlder : Option (TrackUpdate F) → Option (TrackUpdate F) → Type 0
  IsOlder (some a) (some b) = a.updated_at ≤ b.updated_at
  IsOlder _ _ = Unit

module _ {F : Type 0} ⦃float : Float F⦄ (world : Predictor F) (c : Settings F) where
  pub check_conformance-IsAside :
      (u : TrackUpdate F) (r : ConformanceRunner F) → IsAside r (check_conformance world c u r)
  unfolding check_conformance
  check_conformance-IsAside u r = elim (Option-cases r.conformance) [
    | inl e ↦
        rw (e, check_conformance) (record { picture = refl; latest_seen = refl; manager = refl })
    | inr (m, e) ↦ elim (Option-cases (observe world c u m).1) [
      | inl f ↦
          rw (e, check_conformance, f)
            (record { picture = refl; latest_seen = refl; manager = refl })
      | inr (g, f) ↦
          rw (e, check_conformance, f)
            (record { picture = refl; latest_seen = refl; manager = refl })
    ]
  ]

  -- The branches of `absorb`.
  pub absorb_cases :
      (P : ConformanceRunner F → Type 0) (wall : Timestamp) (u : TrackUpdate F)
      (r : ConformanceRunner F)
      → P (departed u r)
      → P (counted r)
      → (is_out_of_order u (lookup u.track_id r.picture) ≡ false
          → (s : ConformanceRunner F) → IsAside (folded wall u r) s
          → P s)
      → P (absorb world c wall u r)
  unfolding absorb
  absorb_cases P wall u r gone stale fresh =
      if_cases P (not (state_differs u.state terminated)) _ _ (λ e. gone)
        (λ e.
          if_cases P (is_out_of_order u (lookup u.track_id r.picture)) _ _ (λ f. stale)
            (λ f. fresh f _ (check_conformance-IsAside u (folded wall u r))))

  ratchet-IsWithin :
      (b wall : Timestamp) (u : TrackUpdate F) (o : Option Timestamp)
      → wall + max_data_clock_lead ≤ b
      → IsWithin b o
      → IsWithin b (ratchet wall u o)
  unfolding ratchet
  ratchet-IsWithin b wall u o h k =
      if_cases (IsWithin b)
        (leb u.updated_at (wall + max_data_clock_lead) && is_newer u.updated_at o) _ _
        (λ e. ground arith) (λ e. k)

  IsOlder-refl : (o : Option (TrackUpdate F)) → IsOlder o o
  IsOlder-refl none = tt
  IsOlder-refl (some a) = omega arith

  IsOlder-none : (o : Option (TrackUpdate F)) → IsOlder o none
  IsOlder-none none = tt
  IsOlder-none (some a) = tt

  insert-IsOlder :
      (u : TrackUpdate F) (r : ConformanceRunner F) (k : String)
      → is_out_of_order u (lookup u.track_id r.picture) ≡ false
      → IsOlder (lookup k r.picture) (lookup k (insert u.track_id u r.picture))
  insert-IsOlder u r k h = elim (==_cases u.track_id k) [
    | inl e ↦ rw (← e, lookup-insert, ==_refl) (held (lookup u.track_id r.picture) h)
    | inr e ↦ rw (lookup-insert, e) (IsOlder-refl (lookup k r.picture))
  ]
    where
      held : (o : Option (TrackUpdate F)) → is_out_of_order u o ≡ false → IsOlder o (some u)
      held none h = tt
      held (some a) h = ground arith

  -- If a track is in the picture before an update and after it, its time after it is not earlier.
  pub absorb-picture-IsOlder :
      (wall : Timestamp) (u : TrackUpdate F) (r : ConformanceRunner F) (k : String)
      → IsOlder (lookup k r.picture) (lookup k (absorb world c wall u r).picture)
  absorb-picture-IsOlder wall u r k =
      absorb_cases (λ s. IsOlder (lookup k r.picture) (lookup k s.picture)) wall u r
        (elim (Bool-cases (u.track_id == k)) [
          | inl e ↦ rw (lookup-delete, e) (IsOlder-none (lookup k r.picture))
          | inr e ↦ rw (lookup-delete, e) (IsOlder-refl (lookup k r.picture))
        ])
        (IsOlder-refl (lookup k r.picture)) (λ h s aside. rw aside.picture (insert-IsOlder u r k h))

  absorb-IsWithin :
      (b wall : Timestamp) (u : TrackUpdate F) (r : ConformanceRunner F)
      → wall + max_data_clock_lead ≤ b
      → IsWithin b r.latest_seen
      → IsWithin b (absorb world c wall u r).latest_seen
  absorb-IsWithin b wall u r h k =
      absorb_cases (λ s. IsWithin b s.latest_seen) wall u r k k
        (λ _ s aside. rw aside.latest_seen (ratchet-IsWithin b wall u r.latest_seen h k))

  -- The updates of a run, each with the wall clock at which it arrived.
  abbrev pub absorb_all :
      List (Timestamp × TrackUpdate F) → ConformanceRunner F → ConformanceRunner F
  absorb_all us r = foldl (λ s (p : Timestamp × TrackUpdate F). absorb world c p.0 p.1 s) r us

  absorb_all-IsWithin :
      (b : Timestamp) (us : List (Timestamp × TrackUpdate F)) (r : ConformanceRunner F)
      → All (λ p. p.0 + max_data_clock_lead ≤ b) us
      → IsWithin b r.latest_seen
      → IsWithin b (absorb_all us r).latest_seen
  absorb_all-IsWithin b [] r h k = k
  absorb_all-IsWithin b ((wall, u) ∷ us) r h k =
      absorb_all-IsWithin b us (absorb world c wall u r) h.1 (absorb-IsWithin b wall u r h.0 k)

  -- From a runner that has seen no update yet, whatever times the updates carry, the scan clock is
  -- never before the wall clock, and never more than a day ahead of it, if the wall clock was
  -- nowhere later when they arrived.
  pub clock-bounds :
      (wall : Timestamp) (us : List (Timestamp × TrackUpdate F)) (r : ConformanceRunner F)
      → All (λ p. p.0 ≤ wall) us
      → r.latest_seen ≡ none
      → (wall ≤ clock wall (absorb_all us r))
        × (clock wall (absorb_all us r) ≤ wall + max_data_clock_lead)
  unfolding clock
  clock-bounds wall us r h e = between (absorb_all us r).latest_seen (
      absorb_all-IsWithin (wall + max_data_clock_lead) us r (All-map _ _ us (λ p l. omega arith) h)
        (rw e tt))
    where
      between :
          (o : Option Timestamp)
          → IsWithin (wall + max_data_clock_lead) o
          → (wall ≤ elim o as (λ _. ℕ) [ none ↦ wall | some t ↦ max wall t ])
            × (elim o as (λ _. ℕ) [ none ↦ wall | some t ↦ max wall t ]
                ≤ wall + max_data_clock_lead)
      between none l = (omega arith, omega arith)
      between (some t) l = (omega arith, omega arith)
