-- ===== src/Alerts/Plans.antt =====
-- A run of turns, at most one for each key.
use mathlib.Core.Option.{some-injective}
use mathlib.Core.Path.{subst}
use airspace_conformance_pla.Base.{
  ℕ, ◌≡◌, refl, ◌∙◌, Option, none, some, String, [], ◌∷◌, ◌++◌, ==_cases, inl, inr, ==_refl,
  string_eq, lookup, arith, All, Dict, Distinct,
}
use airspace_conformance_pla.Contracts.{Timestamp}
use airspace_conformance_pla.Alerts.{Detection, Scan}
use airspace_conformance_pla.Alerts.Automaton.{advance, announce, about}
use airspace_conformance_pla.Alerts.Loops.{turn}
use airspace_conformance_pla.Alerts.Invariant.{IsKeyed, IsNamed}
use airspace_conformance_pla.Alerts.Turns.{turn-IsKeyed, turn_self, turn_other}

-- What was detected for each key, in the order of the turns.
abbrev pub Plan : Type 0 → Type 0
Plan F = Dict String (Option (Detection F))

module _ {F : Type 0} where
  abbrev pub AllNamed : Plan F → Type 0
  AllNamed = All (λ p. IsNamed p.0 p.1)

  -- The run keeps the invariant and the parameters.
  pub record Keeps (t u : Scan F) : Type 0 where
    pub keyed : IsKeyed u.0.active
    pub clear_after : u.0.clear_after_scans ≡ t.0.clear_after_scans
    pub interval : u.0.sustain_interval ≡ t.0.sustain_interval

  -- The condition `k` is as it was, and nothing was said of it.
  pub record Silent (k : String) (t u : Scan F) : Type 0 where
    pub held : lookup k u.0.active ≡ lookup k t.0.active
    pub said : about k u.1 ≡ about k t.1

  -- The condition `k` made one step of the automaton.
  pub record Moved (now : Timestamp) (id k : String) (det : Option (Detection F)) (t u : Scan F)
      : Type 0 where
    pub held :
        lookup k u.0.active
        ≡ advance t.0.clear_after_scans t.0.sustain_interval id now (lookup k t.0.active) det
    pub said :
        about k u.1
        ≡ about k t.1
          ++ announce t.0.clear_after_scans t.0.sustain_interval id now (lookup k t.0.active) det

module _ {F : Type 0} (uuid : ℕ → String) (now : Timestamp) where
  abbrev pub run : Plan F → Scan F → Scan F
  run [] t = t
  run ((key, det) ∷ plan) t = run plan (turn uuid now key det t)

  pub run-Keeps :
      (plan : Plan F) (t : Scan F) → AllNamed plan → IsKeyed t.0.active → Keeps t (run plan t)
  run-Keeps [] t n v = record { keyed = v; clear_after = refl; interval = refl }
  run-Keeps ((j, det) ∷ plan) t n v =
      let r = run-Keeps plan (turn uuid now j det t) n.1 (turn-IsKeyed uuid now j det t n.0 v) in
      record { keyed = r.keyed; clear_after = r.clear_after; interval = r.interval }

  pub run-Silent :
      (k : String) (plan : Plan F) (t : Scan F)
      → AllNamed plan
      → IsKeyed t.0.active
      → lookup k plan ≡ none
      → Silent k t (run plan t)
  unfolding lookup
  run-Silent k [] t n v h = record { held = refl; said = refl }
  run-Silent k ((j, det) ∷ plan) t n v h = elim (==_cases j k) [
    | inl same ↦ absurd (ground (arith, string_eq.equals_iff j k))
    | inr other ↦
        let (held, said) = turn_other uuid now j k det t other n.0 v in
        let rest =
          run-Silent k plan (turn uuid now j det t) n.1 (turn-IsKeyed uuid now j det t n.0 v)
            (rw other at h) in
        record { held = rest.held ∙ held; said = rest.said ∙ said }
  ]

  run-Moved_head :
      (k : String) (plan : Plan F) (t : Scan F) (det : Option (Detection F))
      → Distinct ((k, det) ∷ plan)
      → AllNamed ((k, det) ∷ plan)
      → IsKeyed t.0.active
      → Moved now (uuid t.0.drawn) k det t (run plan (turn uuid now k det t))
  run-Moved_head k plan t det d n v =
      let (held, said) = turn_self uuid now k det t n.0 v in
      let rest =
        run-Silent k plan (turn uuid now k det t) n.1 (turn-IsKeyed uuid now k det t n.0 v) d.0 in
      record { held = rest.held ∙ held; said = rest.said ∙ said }

  pub run-Moved :
      (k : String) (plan : Plan F) (t : Scan F) (det : Option (Detection F))
      → Distinct plan
      → AllNamed plan
      → IsKeyed t.0.active
      → lookup k plan ≡ some det
      → (n : ℕ) × Moved now (uuid n) k det t (run plan t)
  unfolding lookup
  run-Moved k [] t det d n v h = absurd (cc)
  run-Moved k ((j, x) ∷ plan) t det d n v h = elim (==_cases j k) [
    | inl same ↦
        let u : Scan F = run plan (turn uuid now j x t) in
        subst (λ i. lookup i ((j, x) ∷ plan) ≡ some det → (n : ℕ) × Moved now (uuid n) i det t u)
          same
          (λ e. (
            t.0.drawn,
            rw (← some-injective _ _ (rw ==_refl at e)) (run-Moved_head j plan t x d n v),
          ))
          h
    | inr other ↦
        let (held, said) = turn_other uuid now j k x t other n.0 v in
        let (m, r) =
          run-Moved k plan (turn uuid now j x t) det d.1 n.1 (turn-IsKeyed uuid now j x t n.0 v)
            (rw other at h) in
        (m, record { held = rw held at r.held; said = rw (held, said) at r.said })
  ]

-- A step after a run in which the condition was silent.
module _ {F : Type 0} where
  pub Moved-after :
      (now : Timestamp) (id k : String) (det : Option (Detection F)) (s t u : Scan F)
      → Keeps s t
      → Silent k s t
      → Moved now id k det t u
      → Moved now id k det s u
  Moved-after now id k det s t u q b m = record {
    held = m.held ∙ λ i. advance (q.clear_after i) (q.interval i) id now (b.held i) det;
    said =
        m.said ∙ λ i. b.said i ++ announce (q.clear_after i) (q.interval i) id now (b.held i) det;
  }

  pub Moved-before :
      (now : Timestamp) (id k : String) (det : Option (Detection F)) (s t u : Scan F)
      → Moved now id k det s t
      → Silent k t u
      → Moved now id k det s u
  Moved-before now id k det s t u m r = record { held = r.held ∙ m.held; said = r.said ∙ m.said }

  pub Keeps-trans : (s t u : Scan F) → Keeps s t → Keeps t u → Keeps s u
  Keeps-trans s t u p q = record {
    keyed = q.keyed;
    clear_after = q.clear_after ∙ p.clear_after;
    interval = q.interval ∙ p.interval;
  }
