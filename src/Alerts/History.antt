-- ===== src/Alerts/History.antt =====
-- What a consumer sees of one condition over any sequence of scans and withdrawals.
use mathlib.Core.List.{map-append}
use airspace_conformance_pla.Base.{
  ℕ, ◌≡◌, refl, Option, none, some, String, List, [], ◌∷◌, ◌++◌, lookup, string_eq, map, arith,
  true, false, Bool, select-append,
}
use airspace_conformance_pla.Contracts.{Timestamp, Alert, AlertState, new, sustained, cleared}
use airspace_conformance_pla.Alerts.{
  Detection, Active, AlertManager, Scan, reconcile, forget, render,
}
use airspace_conformance_pla.Alerts.Automaton.{about, advance, announce, latest}
use airspace_conformance_pla.Alerts.Invariant.{IsKeyed}
use airspace_conformance_pla.Alerts.Scans.{reconcile-Steps, reconcile-Keeps}
use airspace_conformance_pla.Alerts.Withdrawal.{
  withdraw, withdrawn, forget-IsKeyed, forget-Withdrawn,
}

-- One call of the manager.
pub data Call (F : Type 0) : Type 0 where
  scan : List (Detection F) → Timestamp → Call F
  vanish : List String → Timestamp → Call F

-- The states that a condition's alerts may take one after another, from whether it is active; `none`
-- is a breach.
abbrev pub follows : Bool → List AlertState → Option Bool
follows active [] = some active
follows false (new ∷ rest) = follows true rest
follows true (sustained ∷ rest) = follows true rest
follows true (cleared ∷ rest) = follows false rest
follows _ _ = none

module _ {F : Type 0} where
  abbrev pub is_held : Option (Active F) → Bool
  is_held none = false
  is_held (some a) = true

  abbrev pub states : List (Alert F) → List AlertState
  states = map (λ a. a.state)

  module _ (uuid : ℕ → String) where
    unfoldable pub perform : Call F → AlertManager F → Scan F
    perform (scan ds now) s = reconcile uuid ds now s
    perform (vanish ids now) s = forget ids now s

    -- The manager after the calls, and all that they published.
    unfoldable pub perform_all : List (Call F) → AlertManager F → Scan F
    perform_all [] s = (s, [])
    perform_all (c ∷ cs) s =
        let (s', published) = perform c s in
        let (s'', rest) = perform_all cs s' in (s'', published ++ rest)

    pub perform-IsKeyed :
        (c : Call F) (s : AlertManager F) → IsKeyed s.active → IsKeyed (perform c s).0.active
    unfolding perform
    perform-IsKeyed (scan ds now) s v = (reconcile-Keeps uuid ds now s v).keyed
    perform-IsKeyed (vanish ids now) s v = forget-IsKeyed ids now s v

    -- If the conditions of a manager are filed under their own keys, each once, then they are
    -- after any calls.
    pub perform_all-IsKeyed :
        (cs : List (Call F)) (s : AlertManager F)
        → IsKeyed s.active
        → IsKeyed (perform_all cs s).0.active
    unfolding perform_all
    perform_all-IsKeyed [] s v = v
    perform_all-IsKeyed (c ∷ cs) s v =
        perform_all-IsKeyed cs (perform c s).0 (perform-IsKeyed c s v)

follows-append :
    (b c : Bool) (xs ys : List AlertState)
    → follows b xs ≡ some c
    → follows b (xs ++ ys) ≡ follows c ys
follows-append b c [] ys h = ground arith
follows-append false c (new ∷ xs) ys h = follows-append true c xs ys h
follows-append true c (sustained ∷ xs) ys h = follows-append true c xs ys h
follows-append true c (cleared ∷ xs) ys h = follows-append false c xs ys h
follows-append b c xs ys h = absurd (cc)

module _ {F : Type 0} where
  announce-follows :
      (c i : ℕ) (id : String) (now : Timestamp) (o : Option (Active F)) (det : Option (Detection F))
      → follows (is_held o) (states (announce c i id now o det))
        ≡ some (is_held (advance c i id now o det))
  unfolding render
  announce-follows c i id now none none = refl
  announce-follows c i id now none (some d) = refl
  announce-follows c i id now (some a) (some d) = ground arith
  announce-follows c i id now (some a) none = ground arith

  withdrawn-follows :
      (gone : List String) (now : Timestamp) (o : Option (Active F))
      → follows (is_held o) (states (withdrawn gone now o)) ≡ some (is_held (withdraw gone now o))
  unfolding render
  withdrawn-follows gone now none = refl
  withdrawn-follows gone now (some a) = ground arith

  module _ (uuid : ℕ → String) (k : String) where
    perform-follows :
        (c : Call F) (s : AlertManager F)
        → IsKeyed s.active
        → follows (is_held (lookup k s.active)) (states (about k (perform uuid c s).1))
          ≡ some (is_held (lookup k (perform uuid c s).0.active))
    unfolding perform
    perform-follows (scan ds now) s v =
        let (n, m) = reconcile-Steps uuid ds now s k v in
        rw (m.held, m.said)
          (announce-follows s.clear_after_scans s.sustain_interval (uuid n) now (lookup k s.active)
            (latest k ds))
    perform-follows (vanish ids now) s v =
        let w = forget-Withdrawn ids now s k v in
        rw (w.held, w.said) (withdrawn-follows ids now (lookup k s.active))

    -- From a manager whose conditions are filed under their own keys, each once: over any calls,
    -- the alerts about a condition follow the protocol. One NEW opens it, SUSTAINED comes only
    -- while it is open, one CLEARED closes it, and it is open at the end exactly if the manager
    -- still holds it.
    pub perform_all-follows :
        (cs : List (Call F)) (s : AlertManager F)
        → IsKeyed s.active
        → follows (is_held (lookup k s.active)) (states (about k (perform_all uuid cs s).1))
          ≡ some (is_held (lookup k (perform_all uuid cs s).0.active))
    unfolding perform_all
    perform_all-follows [] s v = refl
    perform_all-follows (c ∷ cs) s v =
        let (s', published) = perform uuid c s in
        rw (select-append, map-append, follows-append _ _ _ _ (perform-follows c s v))
          (perform_all-follows cs (perform uuid c s).0 (perform-IsKeyed uuid c s v))
