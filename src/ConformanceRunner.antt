-- ===== src/ConformanceRunner.antt =====
-- services/conformance/runner.py: `ConformanceRunner`. `detect` is `SeparationMonitor.scan`, `wall` is
-- `datetime.now`. The alerts that a scan returns are those that it publishes and gives to the alert
-- store. The span links, the gauges and the logs are left out.
pub mod Clock
pub mod Release
mod Tests
use airspace_conformance_pla.Base.{
  ℕ, ◌+◌, String, Bool, true, false, ◌&&◌, not, Option, none, some, List, [], ◌∷◌, ◌++◌, map, foldl,
  ltb, leb, any, length, select, ◌==◌, string_eq, Dict, lookup, insert, delete, contains, keys,
  sorted, max, Float, if◌then◌else◌,
}
use airspace_conformance_pla.Contracts.{
  Timestamp, TrackUpdate, TrackState, terminated, AlertKind, non_conformance, Alert,
}
use airspace_conformance_pla.Estimator.{state_differs}
use airspace_conformance_pla.Alerts.{Detection, AlertManager, Scan, reconcile}
use airspace_conformance_pla.Alerts as Alerts
use airspace_conformance_pla.Rules.{RuleFinding, check}
use airspace_conformance_pla.Rules as Rules
use airspace_conformance_pla.Conflicts.{Conflict, as_detection}
use airspace_conformance_pla.Conformance.{
  ConformanceMonitor, NonConformance, Predictor, Settings, observe,
}
use airspace_conformance_pla.Conformance as Conformance

-- `gone` is the set `_terminated`.
pub record ConformanceRunner (F : Type 0) : Type 0 where
  pub picture : Dict String (TrackUpdate F)
  pub gone : List String
  pub pending_conformance : Dict String (NonConformance F)
  pub updates : ℕ
  pub scans : ℕ
  pub alerts : ℕ
  pub latest_seen : Option Timestamp
  pub conformance : Option (ConformanceMonitor F)
  pub manager : AlertManager F
  pub stale_after : ℕ

-- `MAX_DATA_CLOCK_LEAD`, one day.
abbrev pub max_data_clock_lead : ℕ
max_data_clock_lead = 86400000000

-- s.add(x)
abbrev pub add_member : String → List String → List String
add_member x s = if any (λ y. y == x) s then s else x ∷ s

abbrev pub is_newer : Timestamp → Option Timestamp → Bool
is_newer t none = true
is_newer t (some latest) = ltb latest t

abbrev pub concat_map : {A B : Type 0} → (A → List B) → List A → List B
concat_map f [] = []
concat_map f (x ∷ xs) = f x ++ concat_map f xs

module _ {F : Type 0} where
  -- `clock`
  unfoldable pub clock : Timestamp → ConformanceRunner F → Timestamp
  clock wall r = elim r.latest_seen [ none ↦ wall | some t ↦ max wall t ]

  -- `update.updated_at < existing.updated_at`, for the update in the picture, if any.
  abbrev pub is_out_of_order : TrackUpdate F → Option (TrackUpdate F) → Bool
  is_out_of_order update none = false
  is_out_of_order update (some existing) = ltb update.updated_at existing.updated_at

  -- `latest_seen` after an update.
  unfoldable pub ratchet : Timestamp → TrackUpdate F → Option Timestamp → Option Timestamp
  ratchet wall update latest =
      if leb update.updated_at (wall + max_data_clock_lead) && is_newer update.updated_at latest
      then some update.updated_at
      else latest

  abbrev pub is_stale : Timestamp → ℕ → TrackUpdate F → Bool
  is_stale now stale_after u = ltb (u.updated_at + stale_after) now

  unfoldable pub expire_stale : Timestamp → ConformanceRunner F → ConformanceRunner F × List String
  unfolding keys
  expire_stale now r =
      let stale = keys (select (λ p. is_stale now r.stale_after p.1) r.picture) in
      (record r { picture = foldl (λ m track_id. delete track_id m) r.picture stale }, stale)

module _ {F : Type 0} ⦃float : Float F⦄ (world : Predictor F) (c : Settings F) where
  -- The end of `absorb`.
  unfoldable pub check_conformance : TrackUpdate F → ConformanceRunner F → ConformanceRunner F
  unfolding observe Conformance.key
  check_conformance update r = elim r.conformance [
    | none ↦ r
    | some monitor ↦
        let (monitor', finding) = observe world c update monitor in
        elim finding [
          | none ↦ record r { conformance = some monitor' }
          | some f ↦ record r {
            conformance = some monitor';
            pending_conformance = insert (Conformance.key f) f r.pending_conformance;
          }
        ]
  ]

  unfoldable pub absorb : Timestamp → TrackUpdate F → ConformanceRunner F → ConformanceRunner F
  unfolding check_conformance ratchet state_differs
  absorb wall update r0 =
      let r = record r0 { updates = r0.updates + 1 } in
      if not (state_differs update.state terminated)
      then record r {
        picture = delete update.track_id r.picture;
        gone = add_member update.track_id r.gone;
      }
      else if is_out_of_order update (lookup update.track_id r.picture)
      then r
      else check_conformance update (record r {
        picture = insert update.track_id update r.picture;
        latest_seen = ratchet wall update r.latest_seen;
      })

module _ {F : Type 0} ⦃float : Float F⦄ where
  abbrev pub rule_detection : TrackUpdate F → RuleFinding → Detection F
  unfolding Rules.key
  rule_detection track f = record {
    key = Rules.key f;
    kind = f.kind;
    severity = f.severity;
    summary = f.summary;
    reason_codes = f.reason_codes;
    track_ids = f.track_id ∷ [];
    conflict = none;
    conformance = none;
    scenario_id = track.scenario_id;
  }

  abbrev pub scenario_of : String → Dict String (TrackUpdate F) → Option String
  scenario_of track_id picture = elim (lookup track_id picture) [
    | none ↦ none
    | some u ↦ u.scenario_id
  ]

  abbrev pub conformance_detection : Dict String (TrackUpdate F) → NonConformance F → Detection F
  unfolding Conformance.key Conformance.summary Conformance.reason_codes Conformance.as_evidence
  conformance_detection picture f = record {
    key = Conformance.key f;
    kind = non_conformance;
    severity = Conformance.severity f;
    summary = Conformance.summary f;
    reason_codes = Conformance.reason_codes f;
    track_ids = f.track_id ∷ [];
    conflict = none;
    conformance = some (Conformance.as_evidence f);
    scenario_id = scenario_of f.track_id picture;
  }

  module _ (detect : List (TrackUpdate F) → List (Conflict F)) where
    -- All the detections of a scan, in their order.
    unfoldable pub detections : ConformanceRunner F → List (Detection F)
    unfolding as_detection check
    detections r =
        let tracks = map (λ (p : String × TrackUpdate F). p.1) r.picture in
        map as_detection (detect tracks)
        ++ concat_map (λ track. map (rule_detection track) (check track)) tracks
        ++ map (λ (p : String × NonConformance F). conformance_detection r.picture p.1)
            r.pending_conformance

    -- `if self._conformance is not None and vanished: self._conformance.forget(vanished)`
    abbrev pub forget_conformance :
        List String → Option (ConformanceMonitor F) → Option (ConformanceMonitor F)
    unfolding Conformance.forget
    forget_conformance vanished none = none
    forget_conformance [] (some m) = some m
    forget_conformance (v ∷ vs) (some m) = some (Conformance.forget (v ∷ vs) m)

    -- `_scan_within_span`
    unfoldable pub scan_within_span :
        (ℕ → String)
        → Timestamp
        → List String
        → ConformanceRunner F
        → ConformanceRunner F × List (Alert F)
    unfolding reconcile Alerts.forget detections
    scan_within_span uuid now vanished r =
        let (manager, raised) = reconcile uuid (detections r) now r.manager in
        let (manager', cleared) = Alerts.forget vanished now manager in
        let published = raised ++ cleared in
        (
          record r {
            pending_conformance = [];
            manager = manager';
            conformance = forget_conformance vanished r.conformance;
            alerts = r.alerts + length published;
          },
          published,
        )

    unfoldable pub scan_now :
        (ℕ → String) → Timestamp → ConformanceRunner F → ConformanceRunner F × List (Alert F)
    unfolding expire_stale scan_within_span sorted
    scan_now uuid now r =
        let (s, stale) = expire_stale now (record r { scans = r.scans + 1 }) in
        scan_within_span uuid now (stale ++ sorted s.gone) (record s { gone = [] })
