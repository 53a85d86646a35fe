-- ===== src/Alerts/Withdrawal.antt =====
-- `forget` clears exactly the conditions that involve a track that is gone.
use mathlib.Core.List.{append-nil}
use mathlib.Core.Path.{subst}
use airspace_conformance_pla.Base.{
  ◌≡◌, ◌∙◌, refl, Option, none, some, String, List, [], ◌∷◌, ◌++◌, inl, inr, ◌==◌, ==_cases,
  ==_refl, string_eq, lookup, keys, Option-cases, Bool-cases, arith, true, false, any, Bool, foldl,
  select-append, if◌then◌else◌, any-keys, sym, delete_absent, insert_present,
}
use airspace_conformance_pla.Contracts.{Timestamp, Alert, cleared}
use airspace_conformance_pla.Alerts.{Active, AlertManager, Scan, drop, forget, render}
use airspace_conformance_pla.Alerts.Automaton.{about}
use airspace_conformance_pla.Alerts.Invariant.{IsKeyed, IsFiled, lookup-settle, settle-IsKeyed}
use airspace_conformance_pla.Alerts.Loops.{settle}
use airspace_conformance_pla.Alerts.Plans.{Silent}

module _ {F : Type 0} (gone : List String) (now : Timestamp) where
  -- The condition involves one of the tracks.
  abbrev pub involves : Active F → Bool
  involves a = any (λ t. any (λ g. g == t) gone) a.detection.track_ids

  abbrev pub withdraw : Option (Active F) → Option (Active F)
  withdraw none = none
  withdraw (some a) = if involves a then none else some a

  abbrev pub withdrawn : Option (Active F) → List (Alert F)
  withdrawn none = []
  withdrawn (some a) = if involves a then render a a.detection cleared now ∷ [] else []

  taken : String → Scan F → Scan F
  taken key (s, published) = (
    record s { active = settle key (withdraw (lookup key s.active)) s.active },
    published ++ withdrawn (lookup key s.active),
  )

  drop-taken : (t : Scan F) (key : String) → drop gone now t key ≡ taken key t
  unfolding drop taken
  drop-taken t key = elim (Option-cases (lookup key t.0.active)) [
    | inl e ↦ rw (e, drop, delete_absent key t.0.active e, append-nil)
    | inr (a, e) ↦ elim (Bool-cases (involves a)) [
      | inl out ↦ rw (e, drop, out)
      | inr stays ↦ rw (e, drop, stays, insert_present key a t.0.active e, append-nil)
    ]
  ]

  withdraw-IsFiled : (k : String) (o : Option (Active F)) → IsFiled k o → IsFiled k (withdraw o)
  withdraw-IsFiled k none f = tt
  withdraw-IsFiled k (some a) f = elim (Bool-cases (involves a)) [
    | inl out ↦ rw out tt
    | inr stays ↦ rw stays f
  ]

  about-withdrawn :
      (key k : String) (o : Option (Active F))
      → IsFiled key o
      → about k (withdrawn o) ≡ (if key == k then withdrawn o else [])
  unfolding render
  about-withdrawn key k none f = ground arith
  about-withdrawn key k (some a) f = rw f (ground arith)

  taken-IsKeyed : (key : String) (t : Scan F) → IsKeyed t.0.active → IsKeyed (taken key t).0.active
  unfolding taken
  taken-IsKeyed key t v = settle-IsKeyed key _ t.0.active (withdraw-IsFiled key _ (v.1 key)) v

  -- What a run of withdrawals leaves of the condition `k`, and says of it.
  pub record Withdrawn (k : String) (t u : Scan F) : Type 0 where
    pub held : lookup k u.0.active ≡ withdraw (lookup k t.0.active)
    pub said : about k u.1 ≡ about k t.1 ++ withdrawn (lookup k t.0.active)

  taken_self : (k : String) (t : Scan F) → IsKeyed t.0.active → Withdrawn k t (taken k t)
  unfolding taken
  taken_self k t v = record {
    held = rw (lookup-settle, ==_refl);
    said = rw (select-append, about-withdrawn k k _ (v.1 k), ==_refl);
  }

  taken_other :
      (key k : String) (t : Scan F)
      → (key == k) ≡ false
      → IsKeyed t.0.active
      → Silent k t (taken key t)
  unfolding taken
  taken_other key k t h v = record {
    held = rw (lookup-settle, h);
    said = rw (select-append, about-withdrawn key k _ (v.1 key), h, append-nil);
  }

  withdraw-withdraw : (o : Option (Active F)) → withdraw (withdraw o) ≡ withdraw o
  withdraw-withdraw none = refl
  withdraw-withdraw (some a) = ground arith

  withdrawn-withdraw : (o : Option (Active F)) → withdrawn (withdraw o) ≡ []
  withdrawn-withdraw none = refl
  withdrawn-withdraw (some a) = ground arith

  -- The condition is not there, or involves no track that is gone.
  IsSettled : String → Scan F → Type 0
  IsSettled k t = let o = lookup k t.0.active in (withdraw o ≡ o) × (withdrawn o ≡ [])

  taken_settled :
      (key k : String) (t : Scan F) → IsKeyed t.0.active → IsSettled k t → Silent k t (taken key t)
  unfolding IsSettled
  taken_settled key k t v (same, nothing) = elim (==_cases key k) [
    | inl e ↦
        let self = taken_self k t v in
        subst (λ j. Silent k t (taken j t)) (sym e)
          (record { held = self.held ∙ same; said = self.said ∙ rw (nothing, append-nil) })
    | inr other ↦ taken_other key k t other v
  ]

  drop_all-Silent :
      (k : String) (ks : List String) (t : Scan F)
      → IsKeyed t.0.active
      → IsSettled k t
      → Silent k t (foldl (drop gone now) t ks)
  unfolding IsSettled
  drop_all-Silent k [] t v h = record { held = refl; said = refl }
  drop_all-Silent k (key ∷ ks) t v h = rw (drop-taken t key) (
      let now_silent = taken_settled key k t v h in
      let later =
        drop_all-Silent k ks (taken key t) (taken-IsKeyed key t v) (rw now_silent.held h) in
      record { held = later.held ∙ now_silent.held; said = later.said ∙ now_silent.said })

  drop_all-Withdrawn :
      (k : String) (ks : List String) (t : Scan F)
      → IsKeyed t.0.active
      → any (λ j. j == k) ks ≡ true
      → Withdrawn k t (foldl (drop gone now) t ks)
  unfolding IsSettled
  drop_all-Withdrawn k [] t v h = absurd (cc)
  drop_all-Withdrawn k (key ∷ ks) t v h = elim (==_cases key k) [
    | inl e ↦ rw (drop-taken t key) (
        subst (λ j. Withdrawn k t (foldl (drop gone now) (taken j t) ks)) (sym e)
          (let self = taken_self k t v in
            let later =
              drop_all-Silent k ks (taken k t) (taken-IsKeyed k t v)
                (rw self.held (withdraw-withdraw _, withdrawn-withdraw _)) in
            record { held = later.held ∙ self.held; said = later.said ∙ self.said }))
    | inr other ↦ rw (drop-taken t key) (
        let silent = taken_other key k t other v in
        let later = drop_all-Withdrawn k ks (taken key t) (taken-IsKeyed key t v) (rw other at h) in
        record {
          held = rw silent.held at later.held;
          said = rw (silent.held, silent.said) at later.said;
        })
  ]

  drop_all-IsKeyed :
      (ks : List String) (t : Scan F)
      → IsKeyed t.0.active
      → IsKeyed (foldl (drop gone now) t ks).0.active
  drop_all-IsKeyed [] t v = v
  drop_all-IsKeyed (key ∷ ks) t v =
      subst (λ u. IsKeyed (foldl (drop gone now) u ks).0.active) (sym (drop-taken t key))
        (drop_all-IsKeyed ks (taken key t) (taken-IsKeyed key t v))

  pub forget-IsKeyed :
      (s : AlertManager F) → IsKeyed s.active → IsKeyed (forget gone now s).0.active
  unfolding forget
  forget-IsKeyed s v = drop_all-IsKeyed (keys s.active) (s, []) v

  -- In a manager whose conditions are filed under their own keys, each once: after `forget`, a
  -- condition is gone exactly if it involved one of the tracks, it is unchanged otherwise, and the
  -- alerts about it are its one CLEARED if it was withdrawn, and none if not.
  pub forget-Withdrawn :
      (s : AlertManager F) (k : String) → IsKeyed s.active → Withdrawn k (s, []) (forget gone now s)
  unfolding forget IsSettled
  forget-Withdrawn s k v = elim (Option-cases (lookup k s.active)) [
    | inl e ↦
        let silent = drop_all-Silent k (keys s.active) (s, []) v (rw e (refl, refl)) in
        record { held = silent.held ∙ rw e; said = silent.said ∙ rw e }
    | inr (a, e) ↦ drop_all-Withdrawn k (keys s.active) (s, []) v (any-keys k a s.active e)
  ]
