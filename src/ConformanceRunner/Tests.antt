-- ===== src/ConformanceRunner/Tests.antt =====
-- The theorems about the service at concrete inputs.
use airspace_conformance_pla.Base.{
  ◌+◌, ◌≤◌, ◌≡◌, refl, false, none, some, List, [], ◌∷◌, lookup, insert, delete, contains, keys,
  from_pairs, sorted, put_in, string_eq, arith,
}
use airspace_conformance_pla.Base.Whole.{ℤ, whole}
use airspace_conformance_pla.Contracts.{Timestamp, TrackUpdate, warning, predicted_conflict}
use airspace_conformance_pla.Alerts.{Active, reconcile, by_key, observe, miss, forget, drop}
use airspace_conformance_pla.Alerts.Invariant.{IsKeyed}
use airspace_conformance_pla.Alerts.Automaton.{about}
use airspace_conformance_pla.Alerts.Withdrawal.{involves}
use airspace_conformance_pla.Alerts.History.{follows, is_held, states}
use airspace_conformance_pla.Samples.{
  flat, settings, mayday, quiet, no_conflicts, name, quiet-IsKeyed, events,
}
use airspace_conformance_pla.ConformanceRunner.{
  ConformanceRunner, clock, scan_now, scan_within_span, expire_stale, detections,
}
use airspace_conformance_pla.ConformanceRunner.Clock.{absorb_all, clock-bounds}
use airspace_conformance_pla.ConformanceRunner.Release.{run, scan_now-released, run-follows}

abbrev arrivals : List (Timestamp × TrackUpdate ℤ)
arrivals = (90, mayday) ∷ (95, record mayday { updated_at = 99999999999999999 }) ∷ []

clock-bounds_example :
    (100 ≤ clock 100 (absorb_all flat settings arrivals quiet))
    × (clock 100 (absorb_all flat settings arrivals quiet) ≤ 100 + 86400000000)
clock-bounds_example =
    clock-bounds flat settings 100 arrivals quiet (omega arith, (omega arith, tt)) refl

run-follows_example :
    follows false
      (states (about "emergency_squawk:trk-a" (run no_conflicts name flat settings events quiet).1))
    ≡ some (
        is_held (
          lookup "emergency_squawk:trk-a"
            (run no_conflicts name flat settings events quiet).0.manager.active))
unfolding lookup
run-follows_example =
    run-follows no_conflicts name flat settings events quiet "emergency_squawk:trk-a" quiet-IsKeyed

-- An active conflict of two aircraft; a third has left.
abbrev held : Active ℤ
held = record {
  alert_id = "id";
  raised_at = 5;
  last_published_at = 5;
  missed_scans = 0;
  detection = record {
    key = "c";
    kind = predicted_conflict;
    severity = warning;
    summary = "close";
    reason_codes = [];
    track_ids = "trk-a" ∷ "trk-c" ∷ [];
    conflict = none;
    conformance = none;
    scenario_id = none;
  };
}

abbrev watched : ConformanceRunner ℤ
watched = record quiet {
  gone = "trk-b" ∷ [];
  manager = record {
    active = ("c", held) ∷ [];
    clear_after_scans = 3;
    sustain_interval = 10;
    drawn = 1;
  };
}

watched-IsKeyed : IsKeyed watched.manager.active
unfolding lookup
watched-IsKeyed = ((refl, tt), λ k. ground (arith, string_eq.equals_iff "c" k))

scan_now-released_example : involves ("trk-b" ∷ []) 10 (record held { missed_scans = 1 }) ≡ false
unfolding scan_now scan_within_span expire_stale detections reconcile by_key observe miss forget
    drop sorted put_in keys from_pairs lookup insert delete contains
scan_now-released_example =
    scan_now-released no_conflicts name 10 watched "c" (record held { missed_scans = 1 })
      watched-IsKeyed refl
