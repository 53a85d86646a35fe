-- ===== src/Alerts/Scans.antt =====
-- `reconcile` refines the automaton, at every key at once.
use airspace_conformance_pla.Base.{
  ℕ, ◌≡◌, ◌∙◌, none, some, String, List, [], inl, inr, string_eq, lookup, contains, Option-cases,
}
use airspace_conformance_pla.Contracts.{Timestamp}
use airspace_conformance_pla.Alerts.{Detection, Active, AlertManager, Scan, reconcile, by_key}
use airspace_conformance_pla.Alerts.Automaton.{latest}
use airspace_conformance_pla.Alerts.Invariant.{IsKeyed}
use airspace_conformance_pla.Alerts.Plans.{
  run, run-Keeps, run-Silent, run-Moved, Keeps, Silent, Moved, Moved-after, Moved-before,
  Keeps-trans,
}
use airspace_conformance_pla.Alerts.Refinement.{
  found, lost, lookup-found, lookup-lost, found-Distinct, lost-Distinct, lost-AllNamed,
  lookup-by_key, by_key-AllNamed, by_key-Distinct, reconcile-run,
}

module _ {F : Type 0} (uuid : ℕ → String) (detections : List (Detection F)) (now : Timestamp) where
  -- `k` makes one step of the automaton, from `s` to `u`.
  abbrev pub Steps : String → AlertManager F → Scan F → Type 0
  Steps k s u = (n : ℕ) × Moved now (uuid n) k (latest k detections) (s, []) u

  module _ (s : AlertManager F) (v : IsKeyed s.active) (k : String) where
    halfway : Scan F
    halfway = run uuid now (found (by_key detections)) (s, [])

    halfway-Keeps : Keeps (s, []) halfway
    unfolding halfway
    halfway-Keeps =
        run-Keeps uuid now (found (by_key detections)) (s, []) (by_key-AllNamed uuid detections now)
          v

    end : Scan F
    unfolding halfway
    end = run uuid now (lost (by_key detections) halfway.0.active) halfway

    end-Silent : lookup k (lost (by_key detections) halfway.0.active) ≡ none → Silent k halfway end
    unfolding end
    end-Silent e = run-Silent uuid now k _ halfway (lost-AllNamed _ _) halfway-Keeps.keyed e

    detected : (d : Detection F) → latest k detections ≡ some d → Steps k s end
    unfolding contains halfway
    detected d e =
        let there : lookup k (by_key detections) ≡ some d = lookup-by_key k detections ∙ e in
        let (n, m) =
          run-Moved uuid now k (found (by_key detections)) (s, []) (some d)
            (found-Distinct _ (by_key-Distinct uuid detections now))
            (by_key-AllNamed uuid detections now) v (lookup-found k _ ∙ rw there) in
        let r =
          end-Silent (lookup-lost (by_key detections) k halfway.0.active ∙ rw (there, contains)) in
        (n, rw e (Moved-before now (uuid n) k (some d) (s, []) halfway end m r))

    begin-Silent : latest k detections ≡ none → Silent k (s, []) halfway
    unfolding halfway
    begin-Silent e =
        let absent : lookup k (by_key detections) ≡ none = lookup-by_key k detections ∙ e in
        run-Silent uuid now k (found (by_key detections)) (s, [])
          (by_key-AllNamed uuid detections now) v (lookup-found k _ ∙ rw absent)

    lookup-lost_undetected :
        latest k detections ≡ none
        → lookup k (lost (by_key detections) halfway.0.active)
          ≡ elim (lookup k s.active) [ none ↦ none | some a ↦ some none ]
    unfolding contains
    lookup-lost_undetected e =
        let absent : lookup k (by_key detections) ≡ none = lookup-by_key k detections ∙ e in
        lookup-lost (by_key detections) k halfway.0.active
        ∙ rw (absent, contains, (begin-Silent e).held)

    idle : latest k detections ≡ none → lookup k s.active ≡ none → Steps k s end
    idle e h =
        let b = begin-Silent e in
        let r = end-Silent (lookup-lost_undetected e ∙ rw h) in
        (0, record { held = rw (e, h) (r.held ∙ b.held ∙ h); said = rw (e, h) (r.said ∙ b.said) })

    missed :
        (a : Active F) → latest k detections ≡ none → lookup k s.active ≡ some a → Steps k s end
    unfolding end
    missed a e h =
        let b = begin-Silent e in
        let (n, m) =
          run-Moved uuid now k _ halfway none
            (lost-Distinct (by_key detections) halfway.0.active halfway-Keeps.keyed.0)
            (lost-AllNamed _ _) halfway-Keeps.keyed (lookup-lost_undetected e ∙ rw h) in
        (n, rw e (Moved-after now (uuid n) k none (s, []) halfway end halfway-Keeps b m))

    -- By cases on what was detected of the condition and what was held of it.
    end-Steps : Steps k s end
    end-Steps = elim (Option-cases (latest k detections)) [
      | inr (d, e) ↦ detected d e
      | inl e ↦ elim (Option-cases (lookup k s.active)) [
        | inl h ↦ idle e h
        | inr (a, h) ↦ missed a e h
      ]
    ]

  -- From a manager whose conditions are filed under their own keys, each once: whatever was
  -- detected and whatever was held, after a scan each condition stands where one step of the
  -- automaton puts it, and the scan's alerts about it are those that the step announces.
  pub reconcile-Steps :
      (s : AlertManager F) (k : String)
      → IsKeyed s.active
      → Steps k s (reconcile uuid detections now s)
  unfolding end halfway
  reconcile-Steps s k v = rw (reconcile-run uuid detections now s v) (end-Steps s v k)

  pub reconcile-Keeps :
      (s : AlertManager F) → IsKeyed s.active → Keeps (s, []) (reconcile uuid detections now s)
  unfolding end halfway
  reconcile-Keeps s v = rw (reconcile-run uuid detections now s v) (
      Keeps-trans (s, []) _ _ (halfway-Keeps s v "")
        (run-Keeps uuid now _ (halfway s v "") (lost-AllNamed _ _) (halfway-Keeps s v "").keyed))
