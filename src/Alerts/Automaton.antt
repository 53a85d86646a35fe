-- ===== src/Alerts/Automaton.antt =====
-- What the manager promises of one condition: a small automaton, with no dictionary and no loop.
use airspace_conformance_pla.Base.{
  ℕ, ◌+◌, Option, none, some, String, List, [], ◌∷◌, leb, ◌==◌, string_eq, select, if◌then◌else◌,
}
use airspace_conformance_pla.Contracts.{Timestamp, Alert, new, sustained, cleared}
use airspace_conformance_pla.Alerts.{Detection, Active, render, raised, seen}

module _ {F : Type 0} (clear_after interval : ℕ) (id : String) (now : Timestamp) where
  -- The record of a condition that was detected.
  abbrev pub held : Option (Active F) → Detection F → Active F
  held none d = raised id now d
  held (some a) d = record (seen a d) {
    last_published_at =
        if leb (a.last_published_at + interval) now then now else a.last_published_at;
  }

  -- The condition after a scan, from what was held of it and what was detected of it.
  abbrev pub advance : Option (Active F) → Option (Detection F) → Option (Active F)
  advance none none = none
  advance o (some d) = some (held o d)
  advance (some a) none =
      if leb clear_after (a.missed_scans + 1)
      then none
      else some (record a { missed_scans = a.missed_scans + 1 })

  -- The alerts about the condition that the scan publishes.
  abbrev pub announce : Option (Active F) → Option (Detection F) → List (Alert F)
  announce none none = []
  announce none (some d) = render (raised id now d) d new now ∷ []
  announce (some a) (some d) =
      if leb (a.last_published_at + interval) now
      then render (record (seen a d) { last_published_at = now }) d sustained now ∷ []
      else []
  announce (some a) none =
      if leb clear_after (a.missed_scans + 1)
      then render (record a { missed_scans = a.missed_scans + 1 }) a.detection cleared now ∷ []
      else []

-- The alerts of a list that are about one key.
module _ {F : Type 0} where
  abbrev pub about : String → List (Alert F) → List (Alert F)
  about k alerts = select (λ a. a.alert_key == k) alerts

  -- The last of a scan's detections for a key.
  abbrev pub latest : String → List (Detection F) → Option (Detection F)
  latest k [] = none
  latest k (d ∷ ds) = elim (latest k ds) [
    | none ↦ if d.key == k then some d else none
    | some x ↦ some x
  ]
