-- ===== src/Alerts/Loops.antt =====
-- One round of each loop of `reconcile` is a turn of the automaton at one key.
use mathlib.Core.List.{append-nil}
use airspace_conformance_pla.Base.{
  Option-cases, Bool-cases, inl, inr, ℕ, ◌+◌, true, false, ◌≡◌, none, some, Option, String, ◌++◌,
  leb, Dict, lookup, insert, delete, contains, string_eq,
}
use airspace_conformance_pla.Contracts.{Timestamp}
use airspace_conformance_pla.Alerts.{Detection, Active, Scan, observe, miss}
use airspace_conformance_pla.Alerts.Automaton.{advance, announce}

-- Writing an entry, or taking it out.
abbrev pub settle :
    {F : Type 0} → String → Option (Active F) → Dict String (Active F) → Dict String (Active F)
settle k none m = delete k m
settle k (some a) m = insert k a m

abbrev pub draws : {F : Type 0} → Option (Active F) → Option (Detection F) → ℕ → ℕ
draws none (some d) n = n + 1
draws _ _ n = n

module _ {F : Type 0} (uuid : ℕ → String) (now : Timestamp) where
  abbrev pub turn : String → Option (Detection F) → Scan F → Scan F
  turn key det (s, published) =
      let o = lookup key s.active in
      let id = uuid s.drawn in
      (
        record s {
          active =
              settle key (advance s.clear_after_scans s.sustain_interval id now o det) s.active;
          drawn = draws o det s.drawn;
        },
        published ++ announce s.clear_after_scans s.sustain_interval id now o det,
      )

  pub observe-turn :
      (t : Scan F) (key : String) (d : Detection F)
      → observe uuid now t (key, d) ≡ turn key (some d) t
  unfolding observe
  observe-turn t key d = elim (Option-cases (lookup key t.0.active)) [
    | inl e ↦ rw (e, observe)
    | inr (a, e) ↦ elim (Bool-cases (leb (a.last_published_at + t.0.sustain_interval) now)) [
      | inl due ↦ rw (e, observe, due)
      | inr not_due ↦ rw (e, observe, not_due, append-nil)
    ]
  ]

  pub miss-turn :
      (current : Dict String (Detection F)) (t : Scan F) (key : String) (a : Active F)
      → contains key current ≡ false
      → lookup key t.0.active ≡ some a
      → miss current now t key ≡ turn key none t
  unfolding miss
  miss-turn current t key a absent e =
      elim (Bool-cases (leb t.0.clear_after_scans (a.missed_scans + 1))) [
        | inl over ↦ rw (absent, e, miss, over)
        | inr waiting ↦ rw (absent, e, miss, waiting, append-nil)
      ]

-- A key that was detected is passed over.
module _ {F : Type 0} (now : Timestamp) where
  pub miss_detected :
      (current : Dict String (Detection F)) (t : Scan F) (key : String)
      → contains key current ≡ true
      → miss current now t key ≡ t
  unfolding miss
  miss_detected current t key there = rw (there, miss)
