-- ===== src/Stores/History/Collapse.antt =====
-- storage/stores.py, the first loop of `TrackHistoryStore.record`: one row for each track.
use airspace_conformance_pla.Base.{
  String, Bool, true, false, ◌≡◌, ◌∙◌, refl, sym, ap, Option, none, some, List, [], ◌∷◌, foldl, All,
  ◌==◌, string_eq, ltb, leb, arith, Bool-cases, if_cases, ==_cases, ==_refl, inl, inr,
  if◌then◌else◌, Dict, lookup, Distinct, insert-Distinct, lookup-insert_self, lookup-insert_ne, ◌≤◌,
}
use mathlib.Core.Path.{subst}
use airspace_conformance_pla.Contracts.{TrackUpdate, Timestamp}
use airspace_conformance_pla.Stores.{is_some}
use airspace_conformance_pla.Stores.History.{
  collapse, keep_newer, keep_earlier, TrackRow, track_row,
}

-- What the loop makes of a track, from what it had of it.
module _ {F : Type 0} where
  abbrev pub newer_of : Option (TrackUpdate F) → TrackUpdate F → Option (TrackUpdate F)
  newer_of none u = some u
  newer_of (some e) u = if leb e.updated_at u.updated_at then some u else some e

  abbrev pub earlier_of : Option Timestamp → TrackUpdate F → Option Timestamp
  earlier_of none u = some u.last_report_at
  earlier_of (some t) u = if ltb u.last_report_at t then some u.last_report_at else some t

  abbrev pub newer : String → Option (TrackUpdate F) → TrackUpdate F → Option (TrackUpdate F)
  newer k o u = if u.track_id == k then newer_of o u else o

  abbrev pub earlier : String → Option Timestamp → TrackUpdate F → Option Timestamp
  earlier k o u = if u.track_id == k then earlier_of o u else o

  -- The newest update of a batch about a track, a later one of the same time first, and the time
  -- of the earliest report behind one.
  abbrev pub newest : String → List (TrackUpdate F) → Option (TrackUpdate F)
  newest k us = foldl (newer k) none us

  abbrev pub earliest : String → List (TrackUpdate F) → Option Timestamp
  earliest k us = foldl (earlier k) none us

  abbrev pub row_of : Option (TrackUpdate F) → Option Timestamp → Option TrackRow
  row_of (some u) (some t) = some (track_row u t)
  row_of _ _ = none

  -- The row of a batch for a track.
  abbrev pub batch_row : String → List (TrackUpdate F) → Option TrackRow
  batch_row k us = row_of (newest k us) (earliest k us)

module _ {F : Type 0} where
  lookup-keep_newer :
      (m : Dict String (TrackUpdate F)) (u : TrackUpdate F) (o : Option (TrackUpdate F))
      → lookup u.track_id m ≡ o
      → lookup u.track_id (keep_newer u m o) ≡ newer_of o u
  lookup-keep_newer m u none h = lookup-insert_self u.track_id u m
  lookup-keep_newer m u (some e) h = elim (Bool-cases (leb e.updated_at u.updated_at)) [
    | inl older ↦ rw older (lookup-insert_self u.track_id u m)
    | inr newer ↦ rw newer h
  ]

  lookup-keep_newer_ne :
      (m : Dict String (TrackUpdate F)) (u : TrackUpdate F) (o : Option (TrackUpdate F))
      (k : String)
      → (u.track_id == k) ≡ false
      → lookup k (keep_newer u m o) ≡ lookup k m
  lookup-keep_newer_ne m u none k h = lookup-insert_ne u.track_id k u m h
  lookup-keep_newer_ne m u (some e) k h = elim (Bool-cases (leb e.updated_at u.updated_at)) [
    | inl older ↦ rw older (lookup-insert_ne u.track_id k u m h)
    | inr newer ↦ rw newer refl
  ]

  lookup-keep_earlier :
      (m : Dict String Timestamp) (u : TrackUpdate F) (o : Option Timestamp)
      → lookup u.track_id m ≡ o
      → lookup u.track_id (keep_earlier u m o) ≡ earlier_of o u
  lookup-keep_earlier m u none h = lookup-insert_self u.track_id u.last_report_at m
  lookup-keep_earlier m u (some t) h = elim (Bool-cases (ltb u.last_report_at t)) [
    | inl sooner ↦ rw sooner (lookup-insert_self u.track_id u.last_report_at m)
    | inr later ↦ rw later h
  ]

  lookup-keep_earlier_ne :
      (m : Dict String Timestamp) (u : TrackUpdate F) (o : Option Timestamp) (k : String)
      → (u.track_id == k) ≡ false
      → lookup k (keep_earlier u m o) ≡ lookup k m
  lookup-keep_earlier_ne m u none k h = lookup-insert_ne u.track_id k u.last_report_at m h
  lookup-keep_earlier_ne m u (some t) k h = elim (Bool-cases (ltb u.last_report_at t)) [
    | inl sooner ↦ rw sooner (lookup-insert_ne u.track_id k u.last_report_at m h)
    | inr later ↦ rw later refl
  ]

  lookup-collapse :
      (m : Dict String (TrackUpdate F)) (fs : Dict String Timestamp) (u : TrackUpdate F)
      (k : String)
      → (lookup k (collapse (m, fs) u).0 ≡ newer k (lookup k m) u)
        × (lookup k (collapse (m, fs) u).1 ≡ earlier k (lookup k fs) u)
  unfolding collapse
  lookup-collapse m fs u k = elim (==_cases u.track_id k) [
    | inl same ↦
        subst
          (λ x.
            (lookup x (collapse (m, fs) u).0 ≡ newer x (lookup x m) u)
            × (lookup x (collapse (m, fs) u).1 ≡ earlier x (lookup x fs) u))
          same
          (rw (==_refl u.track_id) (
            lookup-keep_newer m u (lookup u.track_id m) refl,
            lookup-keep_earlier fs u (lookup u.track_id fs) refl,
          ))
    | inr other ↦
        rw other (lookup-keep_newer_ne m u _ k other, lookup-keep_earlier_ne fs u _ k other)
  ]

  keep_newer-Distinct :
      (m : Dict String (TrackUpdate F)) (u : TrackUpdate F) (o : Option (TrackUpdate F))
      → Distinct m
      → Distinct (keep_newer u m o)
  keep_newer-Distinct m u none d = insert-Distinct u.track_id u m d
  keep_newer-Distinct m u (some e) d =
      if_cases Distinct (leb e.updated_at u.updated_at) _ _ (λ _. insert-Distinct u.track_id u m d)
        (λ _. d)

  -- After the loop, each dictionary has for a track what the batch has of it.
  pub lookup-collapse_all :
      (us : List (TrackUpdate F)) (m : Dict String (TrackUpdate F)) (fs : Dict String Timestamp)
      (k : String)
      → let s = foldl collapse (m, fs) us in
        (lookup k s.0 ≡ foldl (newer k) (lookup k m) us)
        × (lookup k s.1 ≡ foldl (earlier k) (lookup k fs) us)
  lookup-collapse_all [] m fs k = (refl, refl)
  lookup-collapse_all (u ∷ us) m fs k =
      let (m', fs') = collapse (m, fs) u in
      let (a, b) = lookup-collapse_all us m' fs' k in
      let (c, d) = lookup-collapse m fs u k in
      (a ∙ ap (λ o. foldl (newer k) o us) c, b ∙ ap (λ o. foldl (earlier k) o us) d)

  pub collapse_all-Distinct :
      (us : List (TrackUpdate F)) (m : Dict String (TrackUpdate F)) (fs : Dict String Timestamp)
      → Distinct m
      → Distinct (foldl collapse (m, fs) us).0
  unfolding collapse
  collapse_all-Distinct [] m fs d = d
  collapse_all-Distinct (u ∷ us) m fs d =
      let (m', fs') = collapse (m, fs) u in
      collapse_all-Distinct us m' fs' (keep_newer-Distinct m u (lookup u.track_id m) d)

  abbrev pub IsAbout : String → Option (TrackUpdate F) → Type 0
  IsAbout k none = Unit
  IsAbout k (some u) = u.track_id ≡ k

  pub newest-IsAbout :
      (k : String) (us : List (TrackUpdate F)) (o : Option (TrackUpdate F))
      → IsAbout k o
      → IsAbout k (foldl (newer k) o us)
  newest-IsAbout k [] o h = h
  newest-IsAbout k (u ∷ us) o h = newest-IsAbout k us (newer k o u) (elim (==_cases u.track_id k) [
    | inl same ↦ if_cases (IsAbout k) (u.track_id == k) _ _ (λ _. taken o h same) (λ _. h)
    | inr other ↦ rw other h
  ])
    where
      taken : (o : Option (TrackUpdate F)) → IsAbout k o → u.track_id ≡ k → IsAbout k (newer_of o u)
      taken none h same = same
      taken (some e) h same =
          if_cases (IsAbout k) (leb e.updated_at u.updated_at) _ _ (λ _. same) (λ _. h)

  -- A track of the batch has both.
  pub is_some-earliest :
      (k : String) (us : List (TrackUpdate F)) (o : Option (TrackUpdate F)) (t : Option Timestamp)
      → is_some o ≡ is_some t
      → is_some (foldl (newer k) o us) ≡ is_some (foldl (earlier k) t us)
  is_some-earliest k [] o t h = h
  is_some-earliest k (u ∷ us) o t h =
      is_some-earliest k us (newer k o u) (earlier k t u) (elim (Bool-cases (u.track_id == k)) [
        | inl same ↦ rw same (newer_there o ∙ sym (earlier_there t))
        | inr other ↦ rw other h
      ])
    where
      newer_there : (o : Option (TrackUpdate F)) → is_some (newer_of o u) ≡ true
      newer_there none = refl
      newer_there (some e) = ground arith

      earlier_there : (t : Option Timestamp) → is_some (earlier_of t u) ≡ true
      earlier_there none = refl
      earlier_there (some e) = ground arith

  -- There is an update, as new as the one given.
  abbrev pub IsWithin : TrackUpdate F → Option (TrackUpdate F) → Type 0
  IsWithin v none = ⊥
  IsWithin v (some w) = v.updated_at ≤ w.updated_at

  abbrev pub IsBefore : Option (TrackUpdate F) → Option (TrackUpdate F) → Type 0
  IsBefore none o = Unit
  IsBefore (some e) o = IsWithin e o

  IsBefore-refl : (o : Option (TrackUpdate F)) → IsBefore o o
  IsBefore-refl none = tt
  IsBefore-refl (some e) = omega arith

  IsBefore-step :
      (o w : Option (TrackUpdate F)) (u : TrackUpdate F) (b : Bool)
      → IsBefore (if b then newer_of o u else o) w
      → (b ≡ true → IsWithin u w) × IsBefore o w
  IsBefore-step o w u false h = ((λ p. absurd (cc)), h)
  IsBefore-step none w u true h = ((λ _. h), tt)
  IsBefore-step (some e) none u true h = elim (Bool-cases (leb e.updated_at u.updated_at)) [
    | inl older ↦ absurd (subst (λ b. IsBefore (if b then some u else some e) none) older h)
    | inr newer ↦ absurd (subst (λ b. IsBefore (if b then some u else some e) none) newer h)
  ]
  IsBefore-step (some e) (some w) u true h = elim (Bool-cases (leb e.updated_at u.updated_at)) [
    | inl older ↦
        ground (arith, subst (λ b. IsBefore (if b then some u else some e) (some w)) older h)
    | inr newer ↦
        ground (arith, subst (λ b. IsBefore (if b then some u else some e) (some w)) newer h)
  ]

  -- The update that is kept of a track is as new as every update of the batch about it.
  pub newest-All :
      (k : String) (us : List (TrackUpdate F)) (o : Option (TrackUpdate F))
      → let w = foldl (newer k) o us in
        All (λ v. (v.track_id == k) ≡ true → IsWithin v w) us × IsBefore o w
  newest-All k [] o = (tt, IsBefore-refl o)
  newest-All k (u ∷ us) o =
      let (rest, before) = newest-All k us (newer k o u) in
      let (self, earlier) =
        IsBefore-step o (foldl (newer k) (newer k o u) us) u (u.track_id == k) before in
      ((self, rest), earlier)

  pub All-own {κ} :
      (Q : String → TrackUpdate F → Type κ) (us : List (TrackUpdate F))
      → ((k : String) → All (Q k) us)
      → All (λ v. Q v.track_id v) us
  All-own Q [] f = tt
  All-own Q (u ∷ us) f = ((f u.track_id).0, All-own Q us (λ k. (f k).1))
