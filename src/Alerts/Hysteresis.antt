-- ===== src/Alerts/Hysteresis.antt =====
-- Clearing is slow: it takes `clear_after_scans` scans in a row with no detection.
use airspace_conformance_pla.Base.{
  ℕ, ◌+◌, ◌≤◌, ◌<◌, ◌≡◌, ◌∙◌, refl, none, some, String, List, [], ◌∷◌, lookup, string_eq, map,
  arith, length, All, select-append, lt→leb, le→leb,
}
use airspace_conformance_pla.Contracts.{Timestamp, cleared}
use airspace_conformance_pla.Alerts.{Detection, Active, AlertManager, reconcile, render}
use airspace_conformance_pla.Alerts.Automaton.{about, latest}
use airspace_conformance_pla.Alerts.Invariant.{IsKeyed}
use airspace_conformance_pla.Alerts.Plans.{Keeps}
use airspace_conformance_pla.Alerts.Scans.{reconcile-Steps, reconcile-Keeps}
use airspace_conformance_pla.Alerts.History.{Call, scan, perform, perform_all}

module _ {F : Type 0} where
  -- Scans, none of which detects the condition.
  abbrev pub IsQuiet : String → List (List (Detection F) × Timestamp) → Type 0
  IsQuiet k scans = All (λ p. latest k p.0 ≡ none) scans

  abbrev pub calls : List (List (Detection F) × Timestamp) → List (Call F)
  calls = map (λ p. scan p.0 p.1)

  module _ (uuid : ℕ → String) (k : String) where
    missed_once :
        (ds : List (Detection F)) (now : Timestamp) (s : AlertManager F) (a : Active F)
        → IsKeyed s.active
        → latest k ds ≡ none
        → lookup k s.active ≡ some a
        → a.missed_scans + 1 < s.clear_after_scans
        → (lookup k (reconcile uuid ds now s).0.active
            ≡ some (record a { missed_scans = a.missed_scans + 1 }))
          × (about k (reconcile uuid ds now s).1 ≡ [])
    missed_once ds now s a v q h low =
        let (n, m) = reconcile-Steps uuid ds now s k v in
        (m.held ∙ rw (q, h, lt→leb _ _ low), m.said ∙ rw (q, h, lt→leb _ _ low))

    missed_last :
        (ds : List (Detection F)) (now : Timestamp) (s : AlertManager F) (a : Active F)
        → IsKeyed s.active
        → latest k ds ≡ none
        → lookup k s.active ≡ some a
        → s.clear_after_scans ≤ a.missed_scans + 1
        → (lookup k (reconcile uuid ds now s).0.active ≡ none)
          × (about k (reconcile uuid ds now s).1
              ≡ render (record a { missed_scans = a.missed_scans + 1 }) a.detection cleared now
                ∷ [])
    missed_last ds now s a v q h over =
        let (n, m) = reconcile-Steps uuid ds now s k v in
        (m.held ∙ rw (q, h, le→leb _ _ over), m.said ∙ rw (q, h, le→leb _ _ over))

    same_count :
        (a : Active F) (n : ℕ) → a.missed_scans ≡ n → some a ≡ some (record a { missed_scans = n })
    same_count a n e = λ i. some (record a { missed_scans = e i })

    -- In a manager whose conditions are filed under their own keys, each once: while fewer than
    -- `clear_after_scans` scans in a row have missed an active condition, it stays active with its
    -- identity, its detection and its times, and nothing is published about it.
    pub quiet_scans_keep :
        (scans : List (List (Detection F) × Timestamp)) (s : AlertManager F) (a : Active F)
        → IsKeyed s.active
        → IsQuiet k scans
        → lookup k s.active ≡ some a
        → a.missed_scans + length scans < s.clear_after_scans
        → let u = perform_all uuid (calls scans) s in
          (lookup k u.0.active ≡ some (record a { missed_scans = a.missed_scans + length scans }))
          × (about k u.1 ≡ [])
    unfolding perform_all perform
    quiet_scans_keep [] s a v q h low = (h ∙ same_count a _ (omega arith), refl)
    quiet_scans_keep ((ds, now) ∷ scans) s a v q h low =
        let r = reconcile-Keeps uuid ds now s v in
        let (held, said) = missed_once ds now s a v q.0 h (omega arith) in
        let (held', said') =
          quiet_scans_keep scans (reconcile uuid ds now s).0
            (record a { missed_scans = a.missed_scans + 1 }) r.keyed q.1 held
            (rw r.clear_after (omega arith)) in
        (
          held'
              ∙ same_count (record a { missed_scans = a.missed_scans + 1 + length scans }) _
                  (omega arith),
          rw (select-append, said, said'),
        )

    calls-Keeps :
        (scans : List (List (Detection F) × Timestamp)) (s : AlertManager F)
        → IsKeyed s.active
        → Keeps (s, []) (perform_all uuid (calls scans) s)
    unfolding perform_all perform
    calls-Keeps [] s v = record { keyed = v; clear_after = refl; interval = refl }
    calls-Keeps ((ds, now) ∷ scans) s v =
        let r = reconcile-Keeps uuid ds now s v in
        let q = calls-Keeps scans (reconcile uuid ds now s).0 r.keyed in
        record {
          keyed = q.keyed;
          clear_after = q.clear_after ∙ r.clear_after;
          interval = q.interval ∙ r.interval;
        }

    -- In a manager whose conditions are filed under their own keys, each once: the scan that
    -- brings the count of scans in a row without the condition to `clear_after_scans` drops it,
    -- and publishes one alert about it, CLEARED, with the identity and the time of its NEW, and
    -- with its last detection. The scans without it before that publish nothing about it.
    pub quiet_scans_clear :
        (scans : List (List (Detection F) × Timestamp)) (ds : List (Detection F)) (now : Timestamp)
        (s : AlertManager F) (a : Active F)
        → IsKeyed s.active
        → IsQuiet k scans
        → latest k ds ≡ none
        → lookup k s.active ≡ some a
        → a.missed_scans + length scans + 1 ≡ s.clear_after_scans
        → let u = perform_all uuid (calls scans) s in
          let w = reconcile uuid ds now u.0 in
          (about k u.1 ≡ [])
          × (lookup k w.0.active ≡ none)
          × (about k w.1 ≡ render a a.detection cleared now ∷ [])
    unfolding render
    quiet_scans_clear scans ds now s a v q p h e =
        let r = calls-Keeps scans s v in
        let (held, said) = quiet_scans_keep scans s a v q h (omega arith) in
        let (gone, told) =
          missed_last ds now (perform_all uuid (calls scans) s).0
            (record a { missed_scans = a.missed_scans + length scans }) r.keyed p held
            (rw r.clear_after (omega arith)) in
        (said, gone, told)
