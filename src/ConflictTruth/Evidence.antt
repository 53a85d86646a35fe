-- ===== src/ConflictTruth/Evidence.antt =====
-- eval/conflict_truth.py: the events are made of what was observed.
use mathlib.Core.List.{Memᴰ, foldl}
use mathlib.Core.Path.{subst}
use airspace_conformance_pla.Base.{
  ◌≡◌, refl, sym, String, List, [], ◌∷◌, All, All-map, All-append, ltb, Float, fmin, Dict, lookup,
  insert, names_eq, Bool-cases, ==_cases, ==_refl, inl, inr, any, true,
}
use airspace_conformance_pla.ConflictTruth.{
  ConflictEvent, Violation, TruthConflictFinder, or_new, file, by_pair, put_violation,
  sort_violations, runs_of, last_at, least, event_from, events_of, events_by_pair, put_event,
  sort_events, events,
}
use airspace_conformance_pla.ConflictTruth.Events.{All-left, All-right, covers, events-cover}
use airspace_conformance_pla.ConflictTruth.Runs.{flatten, flatten-runs_of}
use airspace_conformance_pla.ConflictTruth.Sorting.{All-put_violation}

module _ {F : Type 0} where
  -- A violation of a pair.
  abbrev pub IsOf : List (Violation F) → String × String → Violation F → Type 0
  IsOf vs p v = Memᴰ v vs × (v.pair ≡ p)

  -- One of the pair's violations has this figure.
  abbrev pub HasOne :
      {A : Type 0} → List (Violation F) → String × String → (Violation F → A) → A → Type 0
  HasOne vs p f x = (v : Violation F) × IsOf vs p v × (f v ≡ x)

  -- The times and the distances of an event are those of violations of its pair.
  abbrev pub IsBorne : List (Violation F) → ConflictEvent F → Type 0
  IsBorne vs e =
      HasOne vs (e.first_icao24, e.second_icao24) (λ v. v.at) e.started_at
      × HasOne vs (e.first_icao24, e.second_icao24) (λ v. v.at) e.ended_at
      × HasOne vs (e.first_icao24, e.second_icao24) (λ v. v.horizontal_nm) e.min_horizontal_nm
      × HasOne vs (e.first_icao24, e.second_icao24) (λ v. v.vertical_ft) e.min_vertical_ft

  -- Every list of the dictionary has violations of its pair.
  abbrev AreFiled : List (Violation F) → Dict (String × String) (List (Violation F)) → Type 0
  AreFiled vs m = All (λ e. All (IsOf vs e.0) e.1) m

  AreFiled-insert :
      (vs : List (Violation F)) (m : Dict (String × String) (List (Violation F)))
      (p : String × String) (ws : List (Violation F))
      → All (IsOf vs p) ws
      → AreFiled vs m
      → AreFiled vs (insert p ws m)
  unfolding insert
  AreFiled-insert vs [] p ws h filed = (h, tt)
  AreFiled-insert vs ((q, us) ∷ m) p ws h filed = elim (==_cases q p) [
    | inl same ↦ rw (same, ==_refl p) (h, filed.1)
    | inr other ↦ rw other (filed.0, AreFiled-insert vs m p ws h filed.1)
  ]

  AreFiled-lookup :
      (vs : List (Violation F)) (m : Dict (String × String) (List (Violation F)))
      (p : String × String)
      → AreFiled vs m
      → All (IsOf vs p) (or_new (lookup p m))
  unfolding lookup
  AreFiled-lookup vs [] p filed = tt
  AreFiled-lookup vs ((q, us) ∷ m) p filed = elim (==_cases q p) [
    | inl same ↦ rw (same, ==_refl p) (subst (λ r. All (IsOf vs r) us) same filed.0)
    | inr other ↦ rw other (AreFiled-lookup vs m p filed.1)
  ]

  AreFiled-foldl :
      (vs : List (Violation F)) (m : Dict (String × String) (List (Violation F)))
      (ws : List (Violation F))
      → All (λ w. Memᴰ w vs) ws
      → AreFiled vs m
      → AreFiled vs (foldl file m ws)
  unfolding file
  AreFiled-foldl vs m [] h filed = filed
  AreFiled-foldl vs m (w ∷ ws) h filed = AreFiled-foldl vs (file m w) ws h.1 (
      AreFiled-insert vs m w.pair _
        (All-append (IsOf vs w.pair) (or_new (lookup w.pair m)) (w ∷ [])
          (AreFiled-lookup vs m w.pair filed) ((h.0, refl), tt))
        filed)

  All-Memᴰ : (vs : List (Violation F)) → All (λ v. Memᴰ v vs) vs
  All-Memᴰ [] = tt
  All-Memᴰ (v ∷ vs) = (
    Memᴰ.head refl,
    All-map (λ w. Memᴰ w vs) (λ w. Memᴰ w (v ∷ vs)) vs (λ w m. Memᴰ.tail m) (All-Memᴰ vs),
  )

  sort_violations-All :
      (P : Violation F → Type 0) (done vs : List (Violation F))
      → All P done
      → All P vs
      → All P (sort_violations done vs)
  unfolding sort_violations
  sort_violations-All P done [] h k = h
  sort_violations-All P done (v ∷ vs) h k =
      sort_violations-All P (put_violation v done) vs (All-put_violation P v done k.0 h) k.1

module _ {F : Type 0} ⦃float : Float F⦄ where
  last_at-HasOne :
      (vs : List (Violation F)) (p : String × String) (v : Violation F) (ws : List (Violation F))
      → All (IsOf vs p) (v ∷ ws)
      → HasOne vs p (λ u. u.at) (last_at v ws)
  last_at-HasOne vs p v [] h = (v, h.0, refl)
  last_at-HasOne vs p v (w ∷ ws) h = last_at-HasOne vs p w ws h.1

  least-HasOne :
      (vs : List (Violation F)) (p : String × String) (f : Violation F → F) (x : F)
      (ws : List (Violation F))
      → HasOne vs p f x
      → All (IsOf vs p) ws
      → HasOne vs p f (least f x ws)
  unfolding fmin
  least-HasOne vs p f x [] one h = one
  least-HasOne vs p f x (w ∷ ws) one h =
      least-HasOne vs p f (fmin x (f w)) ws
        (elim (Bool-cases (float.lt (f w) x)) [
          | inl less ↦ rw less (w, h.0, refl)
          | inr no_less ↦ rw no_less one
        ])
        h.1

  event_from-IsBorne :
      (vs : List (Violation F)) (p : String × String) (run : List (Violation F))
      → All (IsOf vs p) run
      → All (IsBorne vs) (event_from p run)
  unfolding event_from
  event_from-IsBorne vs p [] h = tt
  event_from-IsBorne vs p (v ∷ ws) h = (
    (
      (v, h.0, refl),
      last_at-HasOne vs p v ws h,
      least-HasOne vs p (λ w. w.horizontal_nm) v.horizontal_nm ws (v, h.0, refl) h.1,
      least-HasOne vs p (λ w. w.vertical_ft) v.vertical_ft ws (v, h.0, refl) h.1,
    ),
    tt,
  )

  events_of-IsBorne :
      (vs : List (Violation F)) (p : String × String) (runs : List (List (Violation F)))
      → All (IsOf vs p) (flatten runs)
      → All (IsBorne vs) (events_of p runs)
  unfolding events_of
  events_of-IsBorne vs p [] h = tt
  events_of-IsBorne vs p (run ∷ runs) h =
      All-append (IsBorne vs) (event_from p run) (events_of p runs)
        (event_from-IsBorne vs p run (All-left (IsOf vs p) run (flatten runs) h))
        (events_of-IsBorne vs p runs (All-right (IsOf vs p) run (flatten runs) h))

  events_by_pair-IsBorne :
      (vs : List (Violation F)) (m : Dict (String × String) (List (Violation F)))
      → AreFiled vs m
      → All (IsBorne vs) (events_by_pair m)
  unfolding events_by_pair
  events_by_pair-IsBorne vs [] filed = tt
  events_by_pair-IsBorne vs ((p, ws) ∷ m) filed =
      let sorted = sort_violations [] ws in
      All-append (IsBorne vs) (events_of p (runs_of sorted)) (events_by_pair m)
        (events_of-IsBorne vs p (runs_of sorted) (
          subst (All (IsOf vs p)) (sym (flatten-runs_of sorted))
            (sort_violations-All (IsOf vs p) [] ws tt filed.0)))
        (events_by_pair-IsBorne vs m filed.1)

  put_event-All :
      (P : ConflictEvent F → Type 0) (e : ConflictEvent F) (es : List (ConflictEvent F))
      → P e
      → All P es
      → All P (put_event e es)
  unfolding put_event
  put_event-All P e [] p h = (p, tt)
  put_event-All P e (d ∷ es) p h = elim (Bool-cases (ltb e.started_at d.started_at)) [
    | inl earlier ↦ rw earlier (p, h)
    | inr later ↦ rw later (h.0, put_event-All P e es p h.1)
  ]

  sort_events-All :
      (P : ConflictEvent F → Type 0) (done es : List (ConflictEvent F))
      → All P done
      → All P es
      → All P (sort_events done es)
  unfolding sort_events
  sort_events-All P done [] h k = h
  sort_events-All P done (e ∷ es) h k =
      sort_events-All P (put_event e done) es (put_event-All P e done k.0 h) k.1

  events-AreBorne :
      (finder : TruthConflictFinder F) → All (IsBorne finder.violations) (events finder)
  unfolding events by_pair
  events-AreBorne finder =
      let vs = finder.violations in
      sort_events-All (IsBorne vs) [] (events_by_pair (by_pair vs)) tt
        (events_by_pair-IsBorne vs (by_pair vs) (AreFiled-foldl vs [] vs (All-Memᴰ vs) tt))

  -- Every violation that was observed lies in an event of its pair. And an event says nothing that
  -- was not observed: it starts with a violation of its pair and ends with one, and each of its two
  -- distances is that of a violation of its pair.
  pub events_lem :
      (finder : TruthConflictFinder F)
      → All (λ v. any (covers v.pair v.at) (events finder) ≡ true) finder.violations
        × All (IsBorne finder.violations) (events finder)
  events_lem finder = (events-cover finder, events-AreBorne finder)
