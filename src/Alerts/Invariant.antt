-- ===== src/Alerts/Invariant.antt =====
-- The invariant: the active conditions are filed under the keys of their detections, each once.
use airspace_conformance_pla.Base.{
  ℕ, ◌+◌, ◌≡◌, ==_cases, inl, inr, Option, none, some, String, leb, Bool-cases, ◌==◌, string_eq,
  Dict, Distinct, lookup, lookup-insert, lookup-delete, insert-Distinct, delete-Distinct, ==_refl,
  if◌then◌else◌,
}
use airspace_conformance_pla.Contracts.{Timestamp}
use airspace_conformance_pla.Alerts.{Detection, Active}
use airspace_conformance_pla.Alerts.Automaton.{advance}
use airspace_conformance_pla.Alerts.Loops.{settle}

module _ {F : Type 0} where
  -- What is held under a key, and what is detected for it, is about that key.
  abbrev pub IsFiled : String → Option (Active F) → Type 0
  IsFiled k none = Unit
  IsFiled k (some a) = a.detection.key ≡ k

  abbrev pub IsNamed : String → Option (Detection F) → Type 0
  IsNamed k none = Unit
  IsNamed k (some d) = d.key ≡ k

  abbrev pub IsKeyed : Dict String (Active F) → Type 0
  IsKeyed m = Distinct m × ((k : String) → IsFiled k (lookup k m))

  pub lookup-settle :
      (k j : String) (o : Option (Active F)) (m : Dict String (Active F))
      → lookup j (settle k o m) ≡ (if k == j then o else lookup j m)
  lookup-settle k j none m = lookup-delete k j m
  lookup-settle k j (some a) m = lookup-insert k j a m

  pub settle-IsKeyed :
      (k : String) (o : Option (Active F)) (m : Dict String (Active F))
      → IsFiled k o
      → IsKeyed m
      → IsKeyed (settle k o m)
  settle-IsKeyed k o m f v = (settle-Distinct k o m v.0, λ j. filed j)
    where
      settle-Distinct :
          (k : String) (o : Option (Active F)) (m : Dict String (Active F))
          → Distinct m
          → Distinct (settle k o m)
      settle-Distinct k none m d = delete-Distinct k m d
      settle-Distinct k (some a) m d = insert-Distinct k a m d

      filed : (j : String) → IsFiled j (lookup j (settle k o m))
      filed j = elim (==_cases k j) [
        | inl same ↦ rw (← same, lookup-settle, ==_refl) f
        | inr other ↦ rw (lookup-settle, other) (v.1 j)
      ]

  pub advance-IsFiled :
      (clear_after interval : ℕ) (id : String) (now : Timestamp) (k : String)
      (o : Option (Active F)) (det : Option (Detection F))
      → IsFiled k o
      → IsNamed k det
      → IsFiled k (advance clear_after interval id now o det)
  advance-IsFiled c i id now k none none f n = tt
  advance-IsFiled c i id now k none (some d) f n = n
  advance-IsFiled c i id now k (some a) (some d) f n = n
  advance-IsFiled c i id now k (some a) none f n = elim (Bool-cases (leb c (a.missed_scans + 1))) [
    | inl over ↦ rw over tt
    | inr waiting ↦ rw waiting f
  ]
