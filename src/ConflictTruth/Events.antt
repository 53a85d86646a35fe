-- ===== src/ConflictTruth/Events.antt =====
-- eval/conflict_truth.py: the events cover what was observed.
use mathlib.Core.Path.{subst}
use airspace_conformance_pla.Base.{
  ◌≤◌, ◌≡◌, refl, sym, ◌∙◌, String, Bool, true, ◌&&◌, ◌||◌, some, List, [], ◌∷◌, ◌++◌, any, All,
  All-map, All-append, leb, arith, Bool-cases, inl, inr, if◌then◌else◌, Float, Dict, lookup,
  lookup-insert, lookup-insert_self, ◌==◌, ==_refl, ==_cases, names_eq, foldl, le→leb,
}
use airspace_conformance_pla.Contracts.{Timestamp}
use airspace_conformance_pla.ConflictTruth.{
  ConflictEvent, Violation, TruthConflictFinder, or_new, file, by_pair, put_violation,
  sort_violations, runs_of, last_at, event_from, events_of, events_by_pair, put_event, sort_events,
  events,
}
use airspace_conformance_pla.ConflictTruth.Runs.{flatten, flatten-runs_of}
use airspace_conformance_pla.ConflictTruth.Sorting.{IsSorted, sort_violations-IsSorted}

any-append :
    {A : Type 0} (q : A → Bool) (xs ys : List A) → any q (xs ++ ys) ≡ (any q xs || any q ys)
any-append q [] ys = refl
any-append q (x ∷ xs) ys = ground (arith, any-append q xs ys)

or_left : (a b : Bool) → a ≡ true → (a || b) ≡ true
or_left a b h = rw h refl

or_right : (a b : Bool) → b ≡ true → (a || b) ≡ true
or_right a b h = ground arith

module _ {F : Type 0} where
  -- The event is one of the pair, and the time lies in it.
  abbrev pub covers : String × String → Timestamp → ConflictEvent F → Bool
  covers p t e =
      ((e.first_icao24, e.second_icao24) == p) && (leb e.started_at t && leb t e.ended_at)

  pub All-left :
      (P : Violation F → Type 0) (xs ys : List (Violation F)) → All P (xs ++ ys) → All P xs
  All-left P [] ys h = tt
  All-left P (x ∷ xs) ys h = (h.0, All-left P xs ys h.1)

  pub All-right :
      (P : Violation F → Type 0) (xs ys : List (Violation F)) → All P (xs ++ ys) → All P ys
  All-right P [] ys h = h
  All-right P (x ∷ xs) ys h = All-right P xs ys h.1

  IsSorted-left : (vs ws : List (Violation F)) → IsSorted (vs ++ ws) → IsSorted vs
  IsSorted-left [] ws s = tt
  IsSorted-left (v ∷ vs) ws s = (All-left (λ w. v.at ≤ w.at) vs ws s.0, IsSorted-left vs ws s.1)

  IsSorted-right : (vs ws : List (Violation F)) → IsSorted (vs ++ ws) → IsSorted ws
  IsSorted-right [] ws s = s
  IsSorted-right (v ∷ vs) ws s = IsSorted-right vs ws s.1

  All-zip :
      (P Q : Violation F → Type 0) (xs : List (Violation F))
      → All P xs
      → All Q xs
      → All (λ x. P x × Q x) xs
  All-zip P Q [] h k = tt
  All-zip P Q (x ∷ xs) h k = ((h.0, k.0), All-zip P Q xs h.1 k.1)

  -- What a predicate holds of before the sorting, it holds of after it, and the other way.
  All-put_violation :
      (P : Violation F → Type 0) (v : Violation F) (vs : List (Violation F))
      → All P (put_violation v vs)
      → P v × All P vs
  unfolding put_violation
  All-put_violation P v [] h = h
  All-put_violation P v (w ∷ vs) h = ground (arith, All-put_violation P v vs)

  All-sort_violations :
      (P : Violation F → Type 0) (done vs : List (Violation F))
      → All P (sort_violations done vs)
      → All P vs × All P done
  unfolding sort_violations
  All-sort_violations P done [] h = (tt, h)
  All-sort_violations P done (v ∷ vs) h =
      let (rest, placed) = All-sort_violations P (put_violation v done) vs h in
      let (first, old) = All-put_violation P v done placed in ((first, rest), old)

  file-lookup :
      (m : Dict (String × String) (List (Violation F))) (v : Violation F) (p : String × String)
      → or_new (lookup p (file m v))
        ≡ (if v.pair == p then or_new (lookup p m) ++ v ∷ [] else or_new (lookup p m))
  unfolding file
  file-lookup m v p = elim (==_cases v.pair p) [
    | inl same ↦ rw (← same, lookup-insert_self, ==_refl v.pair) refl
    | inr other ↦ rw (lookup-insert, other) refl
  ]

  -- What was filed under a pair stays there.
  All-file :
      (P : Violation F → Type 0) (m : Dict (String × String) (List (Violation F)))
      (vs : List (Violation F)) (p : String × String)
      → All P (or_new (lookup p (foldl file m vs)))
      → All P (or_new (lookup p m))
  All-file P m [] p h = h
  All-file P m (v ∷ vs) p h =
      let h' = All-file P (file m v) vs p h in
      elim (Bool-cases (v.pair == p)) [
        | inl own ↦ All-left P _ (v ∷ []) (subst (All P) (file-lookup m v p ∙ rw own refl) h')
        | inr other ↦ subst (All P) (file-lookup m v p ∙ rw other refl) h'
      ]

  -- What holds of every violation in its pair's list holds of all that were filed.
  All-by_pair :
      (P : Violation F → Type 0) (m : Dict (String × String) (List (Violation F)))
      (vs : List (Violation F))
      → ((p : String × String) → All (λ v. v.pair ≡ p → P v) (or_new (lookup p (foldl file m vs))))
      → All P vs
  All-by_pair P m [] h = tt
  All-by_pair P m (v ∷ vs) h =
      let own = All-file (λ w. w.pair ≡ v.pair → P w) (file m v) vs v.pair (h v.pair) in
      let here =
        subst (All (λ w. w.pair ≡ v.pair → P w)) (file-lookup m v v.pair ∙ rw (==_refl v.pair) refl)
          own in
      ((All-right _ (or_new (lookup v.pair m)) (v ∷ []) here).0 refl, All-by_pair P (file m v) vs h)

module _ {F : Type 0} ⦃float : Float F⦄ where
  le-last_at :
      (v : Violation F) (vs : List (Violation F))
      → IsSorted (v ∷ vs)
      → All (λ w. w.at ≤ last_at v vs) (v ∷ vs)
  le-last_at v [] s = (omega arith, tt)
  le-last_at v (w ∷ vs) s = let rest = le-last_at w vs s.1 in (omega (arith, rest.0, s.0.0), rest)

  -- The event of a run covers the run.
  event_from-covers :
      (p : String × String) (run : List (Violation F))
      → IsSorted run
      → All (λ w. any (covers p w.at) (event_from p run) ≡ true) run
  unfolding event_from
  event_from-covers p [] s = tt
  event_from-covers p (v ∷ vs) s =
      All-map (λ w. (v.at ≤ w.at) × (w.at ≤ last_at v vs)) _ (v ∷ vs)
        (λ w h. rw (==_refl p, le→leb _ _ h.0, le→leb _ _ h.1) refl)
        (All-zip (λ w. v.at ≤ w.at) (λ w. w.at ≤ last_at v vs) (v ∷ vs) (omega arith, s.0)
          (le-last_at v vs s))

  events_of-covers :
      (p : String × String) (runs : List (List (Violation F)))
      → IsSorted (flatten runs)
      → All (λ w. any (covers p w.at) (events_of p runs) ≡ true) (flatten runs)
  unfolding events_of
  events_of-covers p [] s = tt
  events_of-covers p (run ∷ runs) s =
      All-append _ run (flatten runs)
        (All-map (λ w. any (covers p w.at) (event_from p run) ≡ true) _ run
          (λ w h. any-append (covers p w.at) (event_from p run) (events_of p runs) ∙ ground arith)
          (event_from-covers p run (IsSorted-left run (flatten runs) s)))
        (All-map (λ w. any (covers p w.at) (events_of p runs) ≡ true) _ (flatten runs)
          (λ w h. any-append (covers p w.at) (event_from p run) (events_of p runs) ∙ ground arith)
          (events_of-covers p runs (IsSorted-right run (flatten runs) s)))

  any-put_event :
      (q : ConflictEvent F → Bool) (e : ConflictEvent F) (es : List (ConflictEvent F))
      → any q (put_event e es) ≡ (q e || any q es)
  unfolding put_event
  any-put_event q e [] = refl
  any-put_event q e (d ∷ es) = ground (arith, any-put_event q e es)

  any-sort_events :
      (q : ConflictEvent F → Bool) (done es : List (ConflictEvent F))
      → any q (sort_events done es) ≡ (any q es || any q done)
  unfolding sort_events
  any-sort_events q done [] = refl
  any-sort_events q done (e ∷ es) =
      ground (arith, any-sort_events q (put_event e done) es, any-put_event q e done)

  -- The events of one pair are among those of all.
  any-events_by_pair :
      (q : ConflictEvent F → Bool) (m : Dict (String × String) (List (Violation F)))
      (p : String × String)
      → any q (events_of p (runs_of (sort_violations [] (or_new (lookup p m))))) ≡ true
      → any q (events_by_pair m) ≡ true
  unfolding events_by_pair lookup
  any-events_by_pair q [] p h = absurd (cc)
  any-events_by_pair q ((p', vs) ∷ rest) p h =
      let listed = λ (r : String × String) (b : Bool). any q (
        events_of r
          (runs_of (sort_violations [] (or_new (if b then some vs else lookup r rest))))) in
      any-append q (events_of p' (runs_of (sort_violations [] vs))) (events_by_pair rest)
      ∙ elim (==_cases p' p) [
        | inl same ↦
            let own : listed p' (p' == p') ≡ true =
              subst (λ r. listed r (p' == r) ≡ true) (sym same) h in
            or_left _ _ (subst (λ b. listed p' b ≡ true) (==_refl p') own)
        | inr other ↦
            or_right _ _ (any-events_by_pair q rest p (subst (λ b. listed p b ≡ true) other h))
      ]

  -- The list of a pair is covered by the events of the pair.
  pair-covers :
      (p : String × String) (vs : List (Violation F))
      → All (λ w. any (covers p w.at) (events_of p (runs_of (sort_violations [] vs))) ≡ true) vs
  pair-covers p vs =
      let ws = sort_violations [] vs in
      let e = flatten-runs_of ws in
      let sorted = subst IsSorted (sym e) (sort_violations-IsSorted [] vs tt) in
      let covered = events_of-covers p (runs_of ws) sorted in
      (All-sort_violations _ [] vs (subst (All _) e covered)).0

  -- Every violation that was observed lies in an event of its pair.
  pub events-cover :
      (finder : TruthConflictFinder F)
      → All (λ v. any (covers v.pair v.at) (events finder) ≡ true) finder.violations
  unfolding events by_pair
  events-cover finder = All-by_pair _ [] finder.violations (λ p.
      let m = foldl file [] finder.violations in
      let vs = or_new (lookup p m) in
      All-map (λ v. any (covers p v.at) (events_of p (runs_of (sort_violations [] vs))) ≡ true) _ vs
        (λ v h same.
          subst (λ r. any (covers r v.at) (sort_events [] (events_by_pair m)) ≡ true) (sym same)
            (any-sort_events (covers p v.at) [] (events_by_pair m)
              ∙ or_left _ _ (any-events_by_pair (covers p v.at) m p h)))
        (pair-covers p vs))
