-- ===== src/Alerts/Refinement.antt =====
-- `reconcile` against the automaton: both loops are runs of turns, and a scan moves every condition
-- by one step.
use airspace_conformance_pla.Base.{
  ℕ, ◌≡◌, refl, sym, ◌∙◌, none, some, String, List, [], ◌∷◌, foldl, ==_cases, inl, inr, ==_refl,
  string_eq, lookup, arith, Dict, Distinct, keys, contains, map, from_pairs, insert,
  from_pairs-Distinct, if◌then◌else◌, Bool-cases, Distinct-tail_ne, lookup-insert, ap,
}
use airspace_conformance_pla.Contracts.{Timestamp}
use airspace_conformance_pla.Alerts.{
  Detection, Active, AlertManager, Scan, observe, miss, reconcile, by_key,
}
use airspace_conformance_pla.Alerts.Automaton.{latest}
use airspace_conformance_pla.Alerts.Loops.{turn, observe-turn, miss-turn, miss_detected}
use airspace_conformance_pla.Alerts.Invariant.{IsKeyed}
use airspace_conformance_pla.Alerts.Turns.{turn_other, turn-IsKeyed}
use airspace_conformance_pla.Alerts.Plans.{Plan, AllNamed, run, run-Keeps}

module _ {F : Type 0} where
  -- The first loop takes a turn for every detection.
  pub found : Dict String (Detection F) → Plan F
  found [] = []
  found ((k, d) ∷ m) = (k, some d) ∷ found m

  -- The second loop takes a turn for every active condition that was not detected.
  pub lost : Dict String (Detection F) → Dict String (Active F) → Plan F
  lost current [] = []
  lost current ((k, a) ∷ m) =
      let rest = lost current m in if contains k current then rest else (k, none) ∷ rest

  pub lookup-found :
      (k : String) (m : Dict String (Detection F))
      → lookup k (found m) ≡ elim (lookup k m) [ none ↦ none | some d ↦ some (some d) ]
  unfolding lookup found
  lookup-found k [] = refl
  lookup-found k ((j, d) ∷ m) = ground (arith, lookup-found k m)

  pub lookup-lost :
      (current : Dict String (Detection F)) (k : String) (m : Dict String (Active F))
      → lookup k (lost current m) ≡ (
          if contains k current
          then none
          else elim (lookup k m) [ none ↦ none | some a ↦ some none ])
  unfolding lookup lost
  lookup-lost current k [] = ground arith
  lookup-lost current k ((j, a) ∷ m) =
      ground (arith, lookup-lost current k m, string_eq.equals_iff j k)

  pub found-Distinct : (m : Dict String (Detection F)) → Distinct m → Distinct (found m)
  unfolding found
  found-Distinct [] d = tt
  found-Distinct ((k, x) ∷ m) d = (rw (lookup-found, d.0), found-Distinct m d.1)

  pub lost-Distinct :
      (current : Dict String (Detection F)) (m : Dict String (Active F))
      → Distinct m
      → Distinct (lost current m)
  unfolding lost
  lost-Distinct current [] d = tt
  lost-Distinct current ((k, a) ∷ m) d = elim (Bool-cases (contains k current)) [
    | inl there ↦ rw there (lost-Distinct current m d.1)
    | inr absent ↦
        rw absent (lookup-lost current k m ∙ rw (absent, d.0), lost-Distinct current m d.1)
  ]

  pub lost-AllNamed :
      (current : Dict String (Detection F)) (m : Dict String (Active F)) → AllNamed (lost current m)
  unfolding lost
  lost-AllNamed current [] = tt
  lost-AllNamed current ((k, a) ∷ m) = ground (arith, lost-AllNamed current m)

  -- What `by_key` files under a key is about that key.
  insert-AllKeyed :
      (d : Detection F) (m : Dict String (Detection F))
      → AllNamed (found m)
      → AllNamed (found (insert d.key d m))
  unfolding found insert
  insert-AllKeyed d [] n = (refl, tt)
  insert-AllKeyed d ((j, x) ∷ m) n = elim (==_cases j d.key) [
    | inl same ↦ rw ((string_eq.equals_iff j d.key).1 same) (sym same, n.1)
    | inr other ↦ rw other (n.0, insert-AllKeyed d m n.1)
  ]

module _ {F : Type 0} (uuid : ℕ → String) (now : Timestamp) where
  observe_all-run :
      (m : Dict String (Detection F)) (t : Scan F)
      → foldl (observe uuid now) t m ≡ run uuid now (found m) t
  unfolding found
  observe_all-run [] t = refl
  observe_all-run ((k, d) ∷ m) t = rw observe-turn (observe_all-run m (turn uuid now k (some d) t))

  Snapshot : Dict String (Active F) → Dict String (Active F) → Type 0
  Snapshot m active = (k : String) (a : Active F) → lookup k m ≡ some a → lookup k active ≡ some a

  Snapshot-tail :
      (k : String) (a : Active F) (m active : Dict String (Active F))
      → Distinct ((k, a) ∷ m)
      → Snapshot ((k, a) ∷ m) active
      → Snapshot m active
  unfolding Snapshot lookup
  Snapshot-tail k a m active d h j b e = h j b (rw (Distinct-tail_ne k j a b m d e) e)

  -- `t` still holds the conditions of the snapshot `m`, whose keys are being visited.
  miss_all-run :
      (current : Dict String (Detection F)) (m : Dict String (Active F)) (t : Scan F)
      → Distinct m
      → IsKeyed t.0.active
      → Snapshot m t.0.active
      → foldl (miss current now) t (keys m) ≡ run uuid now (lost current m) t
  unfolding lost keys lookup Snapshot
  miss_all-run current [] t d v h = refl
  miss_all-run current ((k, a) ∷ m) t d v h = elim (Bool-cases (contains k current)) [
    | inl there ↦ rw there (
        ap (λ u. foldl (miss current now) u (keys m)) (miss_detected now current t k there)
        ∙ miss_all-run current m t d.1 v (Snapshot-tail k a m t.0.active d h))
    | inr absent ↦ rw absent (
        ap (λ u. foldl (miss current now) u (keys m))
          (miss-turn uuid now current t k a absent (h k a (rw ==_refl)))
        ∙ miss_all-run current m (turn uuid now k none t) d.1 (turn-IsKeyed uuid now k none t tt v)
            (λ j b e.
              let other = Distinct-tail_ne k j a b m d e in
              (turn_other uuid now k j none t other tt v).0
              ∙ Snapshot-tail k a m t.0.active d h j b e))
  ]

module _ {F : Type 0} where
  by_key_from : List (Detection F) → Dict String (Detection F) → Dict String (Detection F)
  by_key_from ds m =
      foldl (λ n (p : String × Detection F). insert p.0 p.1 n) m
        (map (λ (d : Detection F). (d.key, d)) ds)

  by_key_from-AllNamed :
      (ds : List (Detection F)) (m : Dict String (Detection F))
      → AllNamed (found m)
      → AllNamed (found (by_key_from ds m))
  unfolding by_key_from
  by_key_from-AllNamed [] m n = n
  by_key_from-AllNamed (d ∷ ds) m n =
      by_key_from-AllNamed ds (insert d.key d m) (insert-AllKeyed d m n)

  lookup-by_key_from :
      (k : String) (ds : List (Detection F)) (m : Dict String (Detection F))
      → lookup k (by_key_from ds m) ≡ elim (latest k ds) [ none ↦ lookup k m | some d ↦ some d ]
  unfolding by_key_from
  lookup-by_key_from k [] m = refl
  lookup-by_key_from k (d ∷ ds) m =
      ground (arith, lookup-by_key_from k ds (insert d.key d m), lookup-insert d.key k d m)

  pub lookup-by_key : (k : String) (ds : List (Detection F)) → lookup k (by_key ds) ≡ latest k ds
  unfolding by_key from_pairs by_key_from lookup
  lookup-by_key k ds = ground (arith, lookup-by_key_from k ds [])

module _ {F : Type 0} (uuid : ℕ → String) (detections : List (Detection F)) (now : Timestamp) where
  pub by_key-AllNamed : AllNamed (found (by_key detections))
  unfolding by_key from_pairs by_key_from
  by_key-AllNamed = by_key_from-AllNamed detections [] (unfold found in tt)

  pub by_key-Distinct : Distinct (by_key detections)
  unfolding by_key
  by_key-Distinct = from_pairs-Distinct _

  -- The scan as two runs.
  pub reconcile-run :
      (s : AlertManager F)
      → IsKeyed s.active
      → let t = run uuid now (found (by_key detections)) (s, []) in
        reconcile uuid detections now s ≡ run uuid now (lost (by_key detections) t.0.active) t
  unfolding reconcile
  reconcile-run s v =
      let plan = found (by_key detections) in
      let t = run uuid now plan (s, []) in
      rw (observe_all-run uuid now (by_key detections) (s, [])) (
        let r = run-Keeps uuid now plan (s, []) by_key-AllNamed v in
        miss_all-run uuid now (by_key detections) t.0.active t r.keyed.0 r.keyed
          (unfold Snapshot in λ k a e. e))
