-- ===== src/Stores/ReadModel.antt =====
-- The alerts that the API shows, against those that the conformance service holds: services/conformance/runner.py
-- together with storage/stores.py, while no entry expires.
use mathlib.Core.List.{foldl-append}
use airspace_conformance_pla.Base.{
  ℕ, String, Bool, true, false, not, if◌then◌else◌, ◌≡◌, ◌∙◌, refl, sym, ap, Option, none, some,
  List, [], ◌∷◌, ◌++◌, foldl, All, string_eq, lookup, Float, arith,
}
use airspace_conformance_pla.Contracts.{TrackUpdate, Alert, AlertState, new, sustained, cleared}
use airspace_conformance_pla.Alerts.Automaton.{about}
use airspace_conformance_pla.Alerts.Invariant.{IsKeyed}
use airspace_conformance_pla.Alerts.History.{follows, is_held, states}
use airspace_conformance_pla.Conflicts.{Conflict}
use airspace_conformance_pla.Conformance.{Predictor, Settings}
use airspace_conformance_pla.ConformanceRunner.{ConformanceRunner, absorb, scan_now}
use airspace_conformance_pla.ConformanceRunner.Release.{Call, update, tick, run, run-follows}
use airspace_conformance_pla.Stores.{Redis, IsRedis, Json, is_some}
use airspace_conformance_pla.Stores.LiveAlerts.{
  apply_one, apply, held, held-apply, current, is_cleared,
}

module _ {F P R : Type 0} ⦃float : Float F⦄ ⦃redis : Redis P R⦄
    (detect : List (TrackUpdate F) → List (Conflict F)) (uuid : ℕ → String) (world : Predictor F)
    (c : Settings F) (json : Json P (Alert F)) (ttl : ℕ) where
  -- A run of the service, which gives the alerts of each scan to the store when the scan is over.
  unfoldable pub serve : List (Call F) → ConformanceRunner F × R → ConformanceRunner F × R
  unfolding absorb scan_now apply
  serve [] (r, store) = (r, store)
  serve (update wall u ∷ cs) (r, store) = serve cs (absorb world c wall u r, store)
  serve (tick now ∷ cs) (r, store) =
      let (s, alerts) = scan_now detect uuid now r in serve cs (s, apply json ttl alerts store)

  apply-append :
      (xs ys : List (Alert F)) (store : R)
      → apply json ttl (xs ++ ys) store ≡ apply json ttl ys (apply json ttl xs store)
  unfolding apply
  apply-append xs ys store = foldl-append (apply_one json ttl) store xs ys

  -- The service's runner is that of a run alone, and the store is that after all of its alerts.
  serve_lem :
      (cs : List (Call F)) (r : ConformanceRunner F) (store : R)
      → let u = run detect uuid world c cs r in
        serve cs (r, store) ≡ (u.0, apply json ttl u.1 store)
  unfolding serve run apply
  serve_lem [] r store = refl
  serve_lem (update wall u ∷ cs) r store = serve_lem cs (absorb world c wall u r) store
  serve_lem (tick now ∷ cs) r store =
      let (s, alerts) = scan_now detect uuid now r in
      let u = run detect uuid world c cs s in
      serve_lem cs s (apply json ttl alerts store)
      ∙ ap (λ x. (u.0, x)) (sym (apply-append alerts u.1 store))

follows_next :
    (b d : Bool) (s : AlertState) (rest : List AlertState)
    → follows b (s ∷ rest) ≡ some d
    → follows (not (is_cleared s)) rest ≡ some d
follows_next false d new rest h = h
follows_next true d sustained rest h = h
follows_next true d cleared rest h = h
follows_next true d new rest h = absurd (cc)
follows_next false d sustained rest h = absurd (cc)
follows_next false d cleared rest h = absurd (cc)

-- A condition that is open after alerts that follow the protocol is one that they leave behind.
is_some-current :
    {F : Type 0} (b d : Bool) (alerts : List (Alert F)) (o : Option (Alert F))
    → is_some o ≡ b
    → follows b (states alerts) ≡ some d
    → is_some (foldl current o alerts) ≡ d
is_some-current b d [] o h p = ground (arith)
is_some-current b d (a ∷ alerts) o h p =
    is_some-current (not (is_cleared a.state)) d alerts (current o a) (left (is_cleared a.state))
      (follows_next b d a.state (states alerts) p)
  where
    left : (x : Bool) → is_some (if x then none else some a) ≡ not x
    left true = refl
    left false = refl

module _ {F P R : Type 0} ⦃float : Float F⦄ ⦃redis : Redis P R⦄
    (detect : List (TrackUpdate F) → List (Conflict F)) (uuid : ℕ → String) (world : Predictor F)
    (c : Settings F) (json : Json P (Alert F)) (laws : IsRedis P R) (ttl : ℕ) where
  -- From a manager whose conditions are filed under their own keys, each once, and a store that
  -- has an entry for a condition exactly if the manager holds it: after any updates and scans whose
  -- alerts are exact in JSON, during which no entry expires and the broker and the store take
  -- everything, the store has an entry for a condition exactly if the manager holds it.
  pub serve-shows :
      (cs : List (Call F)) (r : ConformanceRunner F) (store : R) (k : String)
      → IsKeyed r.manager.active
      → is_some (held json k store) ≡ is_held (lookup k r.manager.active)
      → All json.IsExact (run detect uuid world c cs r).1
      → let (r', store') = serve detect uuid world c json ttl cs (r, store) in
        is_some (held json k store') ≡ is_held (lookup k r'.manager.active)
  serve-shows cs r store k v h exact =
      let u = run detect uuid world c cs r in
      let alone = serve_lem detect uuid world c json ttl cs r store in
      ap (λ (p : ConformanceRunner F × R). is_some (held json k p.1)) alone
      ∙ ap is_some (held-apply json laws ttl u.1 store k exact)
      ∙ is_some-current (is_held (lookup k r.manager.active))
          (is_held (lookup k u.0.manager.active)) (about k u.1) (held json k store) h
          (run-follows detect uuid world c cs r k v)
      ∙ ap (λ (p : ConformanceRunner F × R). is_held (lookup k p.0.manager.active)) (sym alone)
