-- ===== src/Alerts/Turns.antt =====
-- What a turn does to its own condition, and to the others.
use mathlib.Core.List.{append-nil}
use airspace_conformance_pla.Base.{
  ℕ, ◌≡◌, Option, none, some, String, [], ◌++◌, ◌==◌, ==_refl, string_eq, lookup, select-append,
  false, if◌then◌else◌, arith,
}
use airspace_conformance_pla.Contracts.{Timestamp}
use airspace_conformance_pla.Alerts.{Detection, Active, Scan, render}
use airspace_conformance_pla.Alerts.Automaton.{advance, announce, about}
use airspace_conformance_pla.Alerts.Loops.{turn}
use airspace_conformance_pla.Alerts.Invariant.{
  IsFiled, IsNamed, IsKeyed, lookup-settle, settle-IsKeyed, advance-IsFiled,
}

module _ {F : Type 0} (c i : ℕ) (id : String) (now : Timestamp) (k : String) where
  -- Every announcement of a turn is about the turn's key.
  pub about-announce :
      (j : String) (o : Option (Active F)) (det : Option (Detection F))
      → IsFiled k o
      → IsNamed k det
      → about j (announce c i id now o det) ≡ (if k == j then announce c i id now o det else [])
  unfolding render
  about-announce j none none f n = ground arith
  about-announce j none (some d) f n = rw n (ground arith)
  about-announce j (some a) (some d) f n = rw n (ground arith)
  about-announce j (some a) none f n = rw f (ground arith)

module _ {F : Type 0} (uuid : ℕ → String) (now : Timestamp) (key : String) where
  pub turn-IsKeyed :
      (det : Option (Detection F)) (t : Scan F)
      → IsNamed key det
      → IsKeyed t.0.active
      → IsKeyed (turn uuid now key det t).0.active
  turn-IsKeyed det t n v =
      settle-IsKeyed key _ t.0.active (advance-IsFiled _ _ _ now key _ det (v.1 key) n) v

  pub turn_self :
      (det : Option (Detection F)) (t : Scan F)
      → IsNamed key det
      → IsKeyed t.0.active
      → let o = lookup key t.0.active in
        let c = t.0.clear_after_scans in
        let i = t.0.sustain_interval in
        let id = uuid t.0.drawn in
        (lookup key (turn uuid now key det t).0.active ≡ advance c i id now o det)
        × (about key (turn uuid now key det t).1 ≡ about key t.1 ++ announce c i id now o det)
  turn_self det t n v = (
    rw (lookup-settle, ==_refl),
    rw (select-append, about-announce _ _ _ now key key _ det (v.1 key) n, ==_refl),
  )

  pub turn_other :
      (k : String) (det : Option (Detection F)) (t : Scan F)
      → (key == k) ≡ false
      → IsNamed key det
      → IsKeyed t.0.active
      → (lookup k (turn uuid now key det t).0.active ≡ lookup k t.0.active)
        × (about k (turn uuid now key det t).1 ≡ about k t.1)
  turn_other k det t h n v = (
    rw (lookup-settle, h),
    rw (select-append, about-announce _ _ _ now key k _ det (v.1 key) n, h, append-nil),
  )
