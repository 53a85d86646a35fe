-- ===== src/Alerts.antt =====
-- services/conformance/alerts.py: `AlertManager`. Durations are in microseconds. `uuid n` is what
-- the n-th call of `uuid.uuid4().hex` returns, and the manager counts its calls in `drawn`.
pub mod Automaton
pub mod Invariant
pub mod Loops
pub mod Turns
pub mod Plans
pub mod Refinement
pub mod Scans
pub mod Withdrawal
pub mod History
pub mod Hysteresis
mod Tests
use Prim.Native.String.{◌++◌ as str_append}
use airspace_conformance_pla.Base.{
  ℕ, ◌+◌, Bool, Option, none, some, String, List, [], ◌∷◌, ◌++◌, map, foldl, leb, any, ◌==◌,
  string_eq, Dict, lookup, insert, delete, contains, keys, from_pairs, if◌then◌else◌,
}
use airspace_conformance_pla.Contracts.{
  Timestamp, Alert, AlertKind, AlertState, new, sustained, cleared, Severity, ConflictEvidence,
  ConformanceEvidence, simulator,
}

pub record Detection (F : Type 0) : Type 0 where
  pub key : String
  pub kind : AlertKind
  pub severity : Severity
  pub summary : String
  pub reason_codes : List String
  pub track_ids : List String
  pub conflict : Option (ConflictEvidence F)
  pub conformance : Option (ConformanceEvidence F)
  pub scenario_id : Option String

-- `_Active`
pub record Active (F : Type 0) : Type 0 where
  pub alert_id : String
  pub raised_at : Timestamp
  pub last_published_at : Timestamp
  pub detection : Detection F
  pub missed_scans : ℕ

pub record AlertManager (F : Type 0) : Type 0 where
  pub active : Dict String (Active F)
  pub clear_after_scans : ℕ
  pub sustain_interval : ℕ
  pub drawn : ℕ

-- The manager, and the `published` list of the scan.
abbrev pub Scan : Type 0 → Type 0
Scan F = AlertManager F × List (Alert F)

module _ {F : Type 0} where
  unfoldable pub summary_of : Detection F → AlertState → String
  summary_of d cleared = str_append "Cleared: " d.summary
  summary_of d _ = d.summary

  unfoldable pub render : Active F → Detection F → AlertState → Timestamp → Alert F
  unfolding summary_of
  render a d state now = record {
    alert_id = a.alert_id;
    alert_key = d.key;
    kind = d.kind;
    severity = d.severity;
    state = state;
    raised_at = a.raised_at;
    updated_at = now;
    track_ids = d.track_ids;
    reason_codes = d.reason_codes;
    summary = summary_of d state;
    conflict = d.conflict;
    conformance = d.conformance;
    source = simulator;
    scenario_id = d.scenario_id;
  }

  abbrev pub raised : String → Timestamp → Detection F → Active F
  raised id now d = record {
    alert_id = id;
    raised_at = now;
    last_published_at = now;
    detection = d;
    missed_scans = 0;
  }

  -- `existing.missed_scans = 0; existing.detection = detection`
  abbrev pub seen : Active F → Detection F → Active F
  seen a d = record a { missed_scans = 0; detection = d }

  module _ (uuid : ℕ → String) (now : Timestamp) where
    -- The body of the first loop of `reconcile`.
    unfoldable pub observe : Scan F → String × Detection F → Scan F
    observe (s, published) (key, d) = elim (lookup key s.active) [
      | none ↦
          let a = raised (uuid s.drawn) now d in
          (
            record s { active = insert key a s.active; drawn = s.drawn + 1 },
            published ++ render a d new now ∷ [],
          )
      | some existing ↦
          let a = seen existing d in
          if leb (existing.last_published_at + s.sustain_interval) now
          then (let b = record a { last_published_at = now } in
              (
                record s { active = insert key b s.active },
                published ++ render b d sustained now ∷ [],
              ))
          else (record s { active = insert key a s.active }, published)
    ]

  module _ (current : Dict String (Detection F)) (now : Timestamp) where
    -- The body of the second loop. A key of the snapshot is always there to be read.
    unfoldable pub miss : Scan F → String → Scan F
    miss (s, published) key =
        if contains key current then (s, published) else elim (lookup key s.active) [
          | none ↦ (s, published)
          | some existing ↦
              let a = record existing { missed_scans = existing.missed_scans + 1 } in
              if leb s.clear_after_scans a.missed_scans
              then (
                record s { active = delete key s.active },
                published ++ render a a.detection cleared now ∷ [],
              )
              else (record s { active = insert key a s.active }, published)
        ]

  -- {detection.key: detection for detection in detections}
  unfoldable pub by_key : List (Detection F) → Dict String (Detection F)
  by_key ds = from_pairs (map (λ (d : Detection F). (d.key, d)) ds)

  unfoldable pub reconcile : (ℕ → String) → List (Detection F) → Timestamp → AlertManager F → Scan F
  reconcile uuid detections now s =
      let current = by_key detections in
      let (s', published) = foldl (observe uuid now) (s, []) current in
      foldl (miss current now) (s', published) (keys s'.active)

  -- The body of the loop of `forget`.
  unfoldable pub drop : List String → Timestamp → Scan F → String → Scan F
  drop gone now (s, published) key = elim (lookup key s.active) [
    | none ↦ (s, published)
    | some a ↦
        if any (λ t. any (λ g. g == t) gone) a.detection.track_ids
        then (
          record s { active = delete key s.active },
          published ++ render a a.detection cleared now ∷ [],
        )
        else (s, published)
  ]

  unfoldable pub forget : List String → Timestamp → AlertManager F → Scan F
  forget track_ids now s = foldl (drop track_ids now) (s, []) (keys s.active)
