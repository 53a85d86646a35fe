-- ===== src/ConformanceRunner/Release.antt =====
-- What a scan lets go of, and how its alerts come from the manager.
use mathlib.Core.List.{append-nil, append_assoc}
use airspace_conformance_pla.Base.{
  ℕ, ◌+◌, ◌≡◌, ◌∙◌, refl, sym, ap, String, false, Option, none, some, List, [], ◌∷◌, ◌++◌,
  Bool-cases, inl, inr, string_eq, lookup, sorted, Float, arith, Distinct, found,
  lookup-delete_where, if◌then◌else◌,
}
use airspace_conformance_pla.Contracts.{Timestamp, TrackUpdate, Alert}
use airspace_conformance_pla.Alerts.{Active, AlertManager, Scan, reconcile}
use airspace_conformance_pla.Alerts as Alerts
use airspace_conformance_pla.Alerts.Automaton.{about}
use airspace_conformance_pla.Alerts.Invariant.{IsKeyed}
use airspace_conformance_pla.Alerts.Scans.{reconcile-Keeps}
use airspace_conformance_pla.Alerts.Withdrawal.{involves, forget-Withdrawn, withdraw}
use airspace_conformance_pla.Alerts.History.{
  scan, vanish, perform, perform_all, follows, is_held, states, perform_all-follows,
}
use airspace_conformance_pla.Alerts.History as History
use airspace_conformance_pla.Conflicts.{Conflict}
use airspace_conformance_pla.Conformance.{Predictor, Settings}
use airspace_conformance_pla.ConformanceRunner.{
  ConformanceRunner, absorb, expire_stale, is_stale, detections, scan_within_span, scan_now,
}
use airspace_conformance_pla.ConformanceRunner.Clock.{absorb_cases}

module _ {F : Type 0} ⦃float : Float F⦄ (detect : List (TrackUpdate F) → List (Conflict F))
    (uuid : ℕ → String) where
  -- The runner of a scan once the stale tracks are gone, and the tracks that it releases.
  abbrev pub expired : Timestamp → ConformanceRunner F → ConformanceRunner F
  expired now r = record (expire_stale now (record r { scans = r.scans + 1 })).0 { gone = [] }

  abbrev pub vanished : Timestamp → ConformanceRunner F → List String
  vanished now r = (expire_stale now r).1 ++ sorted r.gone

  -- The calls that a scan makes of the manager.
  abbrev pub scan_calls : Timestamp → ConformanceRunner F → List (History.Call F)
  scan_calls now r = scan (detections detect (expired now r)) now ∷ vanish (vanished now r) now ∷ []

  scan_now-manager :
      (now : Timestamp) (r : ConformanceRunner F)
      → ((scan_now detect uuid now r).0.manager, (scan_now detect uuid now r).1)
        ≡ perform_all uuid (scan_calls now r) r.manager
  unfolding scan_now scan_within_span perform_all perform expire_stale
  scan_now-manager now r =
      let (manager, raised) = reconcile uuid (detections detect (expired now r)) now r.manager in
      let (manager', cleared) = Alerts.forget (vanished now r) now manager in
      λ i. (manager', raised ++ sym (append-nil cleared) i)

  -- From a manager whose conditions are filed under their own keys, each once: no alert that is
  -- active after a scan involves a track that the scan released, because it went stale or because
  -- the tracker ended it.
  pub scan_now-released :
      (now : Timestamp) (r : ConformanceRunner F) (k : String) (a : Active F)
      → IsKeyed r.manager.active
      → lookup k (scan_now detect uuid now r).0.manager.active ≡ some a
      → involves (vanished now r) now a ≡ false
  unfolding scan_now scan_within_span expire_stale
  scan_now-released now r k a v h =
      let mid = reconcile uuid (detections detect (expired now r)) now r.manager in
      let keyed =
        (reconcile-Keeps uuid (detections detect (expired now r)) now r.manager v).keyed in
      stays (lookup k mid.0.active)
        (sym (forget-Withdrawn (vanished now r) now mid.0 k keyed).held ∙ h)
    where
      stays :
          (o : Option (Active F))
          → withdraw (vanished now r) now o ≡ some a
          → involves (vanished now r) now a ≡ false
      stays none e = absurd (cc)
      stays (some b) e = elim (Bool-cases (involves (vanished now r) now b)) [
        | inl gone ↦ absurd (ground arith)
        | inr kept ↦ ground arith
      ]

module _ {F : Type 0} ⦃float : Float F⦄ (detect : List (TrackUpdate F) → List (Conflict F))
    (uuid : ℕ → String) where
  -- In a picture that holds every track once, a scan drops exactly the tracks whose last update is
  -- older than `stale_after`, and leaves the others as they are.
  pub lookup-scan_now :
      (now : Timestamp) (r : ConformanceRunner F) (k : String)
      → Distinct r.picture
      → lookup k (scan_now detect uuid now r).0.picture ≡ (
          if found (is_stale now r.stale_after) (lookup k r.picture)
          then none
          else lookup k r.picture)
  unfolding scan_now scan_within_span expire_stale
  lookup-scan_now now r k d = lookup-delete_where (is_stale now r.stale_after) r.picture k d

-- One event of a run: an update at a wall clock, or a scan.
pub data Call (F : Type 0) : Type 0 where
  update : Timestamp → TrackUpdate F → Call F
  tick : Timestamp → Call F

module _ {F : Type 0} ⦃float : Float F⦄ (detect : List (TrackUpdate F) → List (Conflict F))
    (uuid : ℕ → String) (world : Predictor F) (c : Settings F) where
  unfoldable pub run : List (Call F) → ConformanceRunner F → ConformanceRunner F × List (Alert F)
  unfolding absorb scan_now
  run [] r = (r, [])
  run (update wall u ∷ cs) r = run cs (absorb world c wall u r)
  run (tick now ∷ cs) r =
      let (s, published) = scan_now detect uuid now r in
      let (t, rest) = run cs s in (t, published ++ rest)

  -- The calls that a run makes of the manager.
  abbrev pub manager_calls : List (Call F) → ConformanceRunner F → List (History.Call F)
  manager_calls [] r = []
  manager_calls (update wall u ∷ cs) r = manager_calls cs (absorb world c wall u r)
  manager_calls (tick now ∷ cs) r =
      scan_calls detect uuid now r ++ manager_calls cs (scan_now detect uuid now r).0

  absorb-manager :
      (wall : Timestamp) (u : TrackUpdate F) (r : ConformanceRunner F)
      → (absorb world c wall u r).manager ≡ r.manager
  absorb-manager wall u r =
      absorb_cases world c (λ s. s.manager ≡ r.manager) wall u r refl refl
        (λ _ s aside. aside.manager)

perform_all-append :
    {F : Type 0} (uuid : ℕ → String) (cs ds : List (History.Call F)) (s : AlertManager F)
    → perform_all uuid (cs ++ ds) s ≡ (
      (perform_all uuid ds (perform_all uuid cs s).0).0,
      (perform_all uuid cs s).1 ++ (perform_all uuid ds (perform_all uuid cs s).0).1,
    )
unfolding perform_all
perform_all-append uuid [] ds s = refl
perform_all-append uuid (c ∷ cs) ds s =
    let one = perform uuid c s in
    let rest = perform_all-append uuid cs ds one.0 in
    let mid = perform_all uuid cs one.0 in
    let end = perform_all uuid ds mid.0 in
    (λ i. ((rest i).0, one.1 ++ (rest i).1))
    ∙ (λ i. (end.0, sym (append_assoc one.1 mid.1 end.1) i))

module _ {F : Type 0} ⦃float : Float F⦄ (detect : List (TrackUpdate F) → List (Conflict F))
    (uuid : ℕ → String) (world : Predictor F) (c : Settings F) where
  -- A run publishes what the manager publishes over the calls of the run.
  run-manager :
      (cs : List (Call F)) (r : ConformanceRunner F)
      → ((run detect uuid world c cs r).0.manager, (run detect uuid world c cs r).1)
        ≡ perform_all uuid (manager_calls detect uuid world c cs r) r.manager
  unfolding run perform_all
  run-manager [] r = refl
  run-manager (update wall u ∷ cs) r =
      let s = absorb world c wall u r in
      run-manager cs s
      ∙ ap (perform_all uuid (manager_calls detect uuid world c cs s))
          (absorb-manager detect uuid world c wall u r)
  run-manager (tick now ∷ cs) r =
      let (s, published) = scan_now detect uuid now r in
      let rest = manager_calls detect uuid world c cs s in
      let first = scan_now-manager detect uuid now r in
      (λ i. ((run-manager cs s i).0, published ++ (run-manager cs s i).1))
      ∙ (λ i. (
        (perform_all uuid rest (first i).0).0,
        (first i).1 ++ (perform_all uuid rest (first i).0).1,
      ))
      ∙ sym (perform_all-append uuid (scan_calls detect uuid now r) rest r.manager)

  -- From a manager whose conditions are filed under their own keys, each once: over any updates
  -- and scans, the alerts that the service publishes about a condition follow the protocol. One
  -- NEW opens it, SUSTAINED comes only while it is open, one CLEARED closes it, and it is open at
  -- the end exactly if the manager still holds it.
  pub run-follows :
      (cs : List (Call F)) (r : ConformanceRunner F) (k : String)
      → IsKeyed r.manager.active
      → let u = run detect uuid world c cs r in
        follows (is_held (lookup k r.manager.active)) (states (about k u.1))
        ≡ some (is_held (lookup k u.0.manager.active))
  run-follows cs r k v =
      let e = run-manager cs r in
      ap (λ (p : Scan F). follows (is_held (lookup k r.manager.active)) (states (about k p.1))) e
      ∙ perform_all-follows uuid k (manager_calls detect uuid world c cs r) r.manager v
      ∙ ap (λ (p : Scan F). some (is_held (lookup k p.0.active))) (sym e)
