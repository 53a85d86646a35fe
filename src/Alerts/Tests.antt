-- ===== src/Alerts/Tests.antt =====
-- Runs of the manager, and its theorems at concrete inputs.
use airspace_conformance_pla.Base.{
  ℕ, ◌≡◌, refl, none, String, List, [], ◌∷◌, lookup, insert, delete, contains, keys, from_pairs,
  string_eq, arith,
}
use airspace_conformance_pla.Contracts.{
  Timestamp, new, sustained, cleared, predicted_conflict, warning,
}
use airspace_conformance_pla.Alerts.{
  Detection, Active, AlertManager, observe, miss, reconcile, by_key, drop, forget, render,
}
use airspace_conformance_pla.Alerts.Automaton.{about}
use airspace_conformance_pla.Alerts.Invariant.{IsKeyed}
use airspace_conformance_pla.Alerts.Scans.{Steps, reconcile-Steps}
use airspace_conformance_pla.Alerts.Withdrawal.{Withdrawn, forget-Withdrawn}
use airspace_conformance_pla.Alerts.History.{Call, scan, perform, perform_all, states}
use airspace_conformance_pla.Alerts.Hysteresis.{calls, quiet_scans_clear}

program : Unit {0}
unfolding lookup insert delete contains keys from_pairs observe miss reconcile by_key drop forget
    render perform perform_all
program = tt

abbrev uuid : ℕ → String
uuid n = "id"

abbrev conflict : Detection ℕ
conflict = record {
  key = "c:1:2";
  kind = predicted_conflict;
  severity = warning;
  summary = "close";
  reason_codes = [];
  track_ids = "1" ∷ "2" ∷ [];
  conflict = none;
  conformance = none;
  scenario_id = none;
}

abbrev idle : AlertManager ℕ
idle = record { active = []; clear_after_scans = 3; sustain_interval = 10; drawn = 0 }

abbrev held : Active ℕ
held = record {
  alert_id = "id";
  raised_at = 5;
  last_published_at = 5;
  detection = conflict;
  missed_scans = 0;
}

abbrev busy : AlertManager ℕ
busy = record idle { active = ("c:1:2", held) ∷ []; drawn = 1 }

raises : (reconcile uuid (conflict ∷ []) 5 idle).0 ≡ busy
unfolding program
raises = refl

-- A flapping condition: seen, missed twice, seen again, and then missed three times.
abbrev flapping : List (Call ℕ)
flapping =
    scan (conflict ∷ []) 5
    ∷ scan [] 6
    ∷ scan [] 7
    ∷ scan (conflict ∷ []) 16
    ∷ scan [] 17
    ∷ scan [] 18
    ∷ scan [] 19
    ∷ []

flaps : states (perform_all uuid flapping idle).1 ≡ new ∷ sustained ∷ cleared ∷ []
unfolding program
flaps = refl

busy-IsKeyed : IsKeyed busy.active
unfolding lookup
busy-IsKeyed = ((refl, tt), λ k. ground (arith, string_eq.equals_iff "c:1:2" k))

idle-IsKeyed : IsKeyed idle.active
unfolding lookup
idle-IsKeyed = (tt, λ k. tt)

reconcile-Steps_example : Steps uuid [] 6 "c:1:2" busy (reconcile uuid [] 6 busy)
reconcile-Steps_example = reconcile-Steps uuid [] 6 busy "c:1:2" busy-IsKeyed

forget-Withdrawn_example : Withdrawn ("2" ∷ []) 9 "c:1:2" (busy, []) (forget ("2" ∷ []) 9 busy)
forget-Withdrawn_example = forget-Withdrawn ("2" ∷ []) 9 busy "c:1:2" busy-IsKeyed

abbrev quiet : List (List (Detection ℕ) × Timestamp)
quiet = ([], 6) ∷ ([], 7) ∷ []

quiet_scans_clear_example :
    let u = perform_all uuid (calls quiet) busy in
    let w = reconcile uuid [] 8 u.0 in
    (about "c:1:2" u.1 ≡ [])
    × (lookup "c:1:2" w.0.active ≡ none)
    × (about "c:1:2" w.1 ≡ render held conflict cleared 8 ∷ [])
unfolding lookup
quiet_scans_clear_example =
    quiet_scans_clear uuid "c:1:2" quiet [] 8 busy held busy-IsKeyed (refl, (refl, tt)) refl refl
      (omega arith)
