-- ===== src/ConflictTruth.antt =====
-- eval/conflict_truth.py: the conflicts that really happened, against which the detector is scored. The
-- times are in microseconds.
pub mod Sorting
pub mod Runs
pub mod Events
pub mod Evidence
mod Tests
use Prim.Native.String.{compare}
use Prim.Native.Nat.{Ordering}
use airspace_conformance_pla.Base.{
  ◌>>=◌, ℕ, ◌+◌, String, Bool, true, false, Option, none, some, List, [], ◌∷◌, ◌++◌, map, foldl,
  Float, fmin, Dict, lookup, insert, names_eq, leb, ltb, if◌then◌else◌, sorted_pair,
}
use airspace_conformance_pla.Contracts.{Timestamp}
use airspace_conformance_pla.Geodesy.Sphere.{Trig, haversine_nm}
use airspace_conformance_pla.Simulation.{TruthState}

pub record ConflictEvent (F : Type 0) : Type 0 where
  pub first_icao24 : String
  pub second_icao24 : String
  pub started_at : Timestamp
  pub ended_at : Timestamp
  pub min_horizontal_nm : F
  pub min_vertical_ft : F

-- `_Violation`
pub record Violation (F : Type 0) : Type 0 where
  pub pair : String × String
  pub at : Timestamp
  pub horizontal_nm : F
  pub vertical_ft : F

pub record TruthConflictFinder (F : Type 0) : Type 0 where
  pub horizontal_nm : F
  pub vertical_ft : F
  pub violations : List (Violation F)

-- `EVENT_BRIDGE_S`
abbrev pub event_bridge : ℕ
event_bridge = 30000000

unfoldable pub pair : {F : Type 0} → ConflictEvent F → String × String
unfolding sorted_pair
pair e = sorted_pair e.first_icao24 e.second_icao24

module _ {F : Type 0} ⦃float : Float F⦄ ⦃trig : Trig F⦄ where
  -- sorted(states, key=lambda s: s.icao24), which is stable.
  abbrev pub put_by : Ordering → List (TruthState F) → List (TruthState F) → List (TruthState F)
  put_by Ordering.lt first later = first
  put_by _ first later = later

  unfoldable pub put_state : TruthState F → List (TruthState F) → List (TruthState F)
  put_state s [] = s ∷ []
  put_state s (t ∷ states) =
      put_by (compare s.icao24 t.icao24) (s ∷ t ∷ states) (t ∷ put_state s states)

  unfoldable pub sort_states : List (TruthState F) → List (TruthState F) → List (TruthState F)
  unfolding put_state
  sort_states done [] = done
  sort_states done (s ∷ states) = sort_states (put_state s done) states

  -- The body of the inner loop of `observe`; `none` where `math` raises, here and below.
  unfoldable pub violation_of :
      TruthConflictFinder F → Timestamp → TruthState F → TruthState F → Option (List (Violation F))
  unfolding haversine_nm
  violation_of finder at first second = do
    horizontal ← haversine_nm first.lat first.lon second.lat second.lon
    let vertical = float.abs (float.sub first.altitude_ft second.altitude_ft)
    let violation : Violation F = record {
      pair = (first.icao24, second.icao24);
      at = at;
      horizontal_nm = horizontal;
      vertical_ft = vertical;
    }
    some (
        if float.le finder.horizontal_nm horizontal
        then []
        else if float.le finder.vertical_ft vertical
        then []
        else violation ∷ [])

  unfoldable pub violations_with :
      TruthConflictFinder F
      → Timestamp
      → TruthState F
      → List (TruthState F)
      → Option (List (Violation F))
  unfolding violation_of
  violations_with finder at first [] = some []
  violations_with finder at first (second ∷ rest) = do
    here ← violation_of finder at first second
    more ← violations_with finder at first rest
    some (here ++ more)

  unfoldable pub violations_among :
      TruthConflictFinder F → Timestamp → List (TruthState F) → Option (List (Violation F))
  unfolding violations_with
  violations_among finder at [] = some []
  violations_among finder at (first ∷ rest) = do
    here ← violations_with finder at first rest
    more ← violations_among finder at rest
    some (here ++ more)

  unfoldable pub observe :
      List (TruthState F) → Timestamp → TruthConflictFinder F → Option (TruthConflictFinder F)
  unfolding sort_states violations_among
  observe states at finder = do
    found ← violations_among finder at (sort_states [] states)
    some (record finder { violations = finder.violations ++ found })

-- by_pair.setdefault(pair, []).append(violation)
module _ {F : Type 0} where
  abbrev pub or_new : Option (List (Violation F)) → List (Violation F)
  or_new none = []
  or_new (some vs) = vs

  unfoldable pub file :
      Dict (String × String) (List (Violation F))
      → Violation F
      → Dict (String × String) (List (Violation F))
  file m v = insert v.pair (or_new (lookup v.pair m) ++ v ∷ []) m

  unfoldable pub by_pair : List (Violation F) → Dict (String × String) (List (Violation F))
  unfolding file
  by_pair vs = foldl file [] vs

  -- violations.sort(key=lambda v: v.at)
  unfoldable pub put_violation : Violation F → List (Violation F) → List (Violation F)
  put_violation v [] = v ∷ []
  put_violation v (w ∷ vs) =
      let further = put_violation v vs in if ltb v.at w.at then v ∷ w ∷ vs else w ∷ further

  unfoldable pub sort_violations : List (Violation F) → List (Violation F) → List (Violation F)
  unfolding put_violation
  sort_violations done [] = done
  sort_violations done (v ∷ vs) = sort_violations (put_violation v done) vs

  -- The loop over the sorted violations of a pair: `run` is the open run and `last` its last
  -- violation.
  unfoldable pub runs_from :
      List (Violation F) → Violation F → List (Violation F) → List (List (Violation F))
  runs_from run last [] = run ∷ []
  runs_from run last (v ∷ vs) =
      let bridged = runs_from (run ++ v ∷ []) v vs in
      let split = run ∷ runs_from (v ∷ []) v vs in
      if leb v.at (last.at + event_bridge) then bridged else split

  unfoldable pub runs_of : List (Violation F) → List (List (Violation F))
  unfolding runs_from
  runs_of [] = []
  runs_of (v ∷ vs) = runs_from (v ∷ []) v vs

module _ {F : Type 0} ⦃float : Float F⦄ where
  -- min(...) over a run, from its first.
  abbrev pub least : (Violation F → F) → F → List (Violation F) → F
  unfolding fmin
  least f x [] = x
  least f x (v ∷ vs) = least f (fmin x (f v)) vs

  abbrev pub last_at : Violation F → List (Violation F) → Timestamp
  last_at v [] = v.at
  last_at v (w ∷ vs) = last_at w vs

  -- `_event_from`; a run is never empty.
  unfoldable pub event_from : String × String → List (Violation F) → List (ConflictEvent F)
  unfolding least
  event_from p [] = []
  event_from p (v ∷ vs) =
      record {
        first_icao24 = p.0;
        second_icao24 = p.1;
        started_at = v.at;
        ended_at = last_at v vs;
        min_horizontal_nm = least (λ w. w.horizontal_nm) v.horizontal_nm vs;
        min_vertical_ft = least (λ w. w.vertical_ft) v.vertical_ft vs;
      }
      ∷ []

  unfoldable pub events_of : String × String → List (List (Violation F)) → List (ConflictEvent F)
  unfolding event_from
  events_of p [] = []
  events_of p (run ∷ runs) = event_from p run ++ events_of p runs

  unfoldable pub events_by_pair :
      Dict (String × String) (List (Violation F)) → List (ConflictEvent F)
  unfolding events_of sort_violations runs_of
  events_by_pair [] = []
  events_by_pair ((p, vs) ∷ rest) =
      events_of p (runs_of (sort_violations [] vs)) ++ events_by_pair rest

  -- events.sort(key=lambda e: e.started_at)
  unfoldable pub put_event : ConflictEvent F → List (ConflictEvent F) → List (ConflictEvent F)
  put_event e [] = e ∷ []
  put_event e (d ∷ es) =
      let further = put_event e es in
      if ltb e.started_at d.started_at then e ∷ d ∷ es else d ∷ further

  unfoldable pub sort_events :
      List (ConflictEvent F) → List (ConflictEvent F) → List (ConflictEvent F)
  unfolding put_event
  sort_events done [] = done
  sort_events done (e ∷ es) = sort_events (put_event e done) es

  unfoldable pub events : TruthConflictFinder F → List (ConflictEvent F)
  unfolding by_pair events_by_pair sort_events
  events finder = sort_events [] (events_by_pair (by_pair finder.violations))
