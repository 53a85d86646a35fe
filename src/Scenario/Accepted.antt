-- ===== src/Scenario/Accepted.antt =====
-- sim/scenario.py: which scenarios are accepted.
use airspace_conformance_pla.Base.{
  ◌≤◌, ◌≡◌, ◌↔◌, refl, String, Bool, true, false, none, some, if◌then◌else◌, List, [], ◌∷◌, map,
  select, any, All, Float, ◌==◌, ==_refl, string_eq, ltb, arith,
}
use airspace_conformance_pla.Scenario.{
  Scenario, Check, Refusal, out_of_bounds, duplicate_icao24, duplicate_callsign, late, refuse,
  or_next, count, duplicates, is_bounded, reject_duplicate_aircraft,
  reject_aircraft_that_never_appear, model_validate,
}

-- No name stands twice.
abbrev pub IsNodup : List String → Type 0
IsNodup [] = Unit
IsNodup (x ∷ xs) = (any (λ y. y == x) xs ≡ false) × IsNodup xs

count_absent : (x : String) (xs : List String) → any (λ y. y == x) xs ≡ false → count x xs ≡ 0
unfolding count
count_absent x [] h = refl
count_absent x (y ∷ ys) h = ground (arith, count_absent x ys)

absent_of_count : (x : String) (xs : List String) → count x xs ≡ 0 → any (λ y. y == x) xs ≡ false
unfolding count
absent_of_count x [] h = refl
absent_of_count x (y ∷ ys) h = ground (arith, absent_of_count x ys)

count-le : (xs : List String) → IsNodup xs → (a : String) → count a xs ≤ 1
unfolding count
count-le [] d a = omega arith
count-le (x ∷ xs) d a =
    ground (arith, count-le xs d.1 a, string_eq.equals_iff x a, count_absent x xs d.0)

select-eq-nil {ℓ} :
    {A : Type ℓ} (p : A → Bool) (xs : List A) → (select p xs ≡ []) ↔ All (λ x. p x ≡ false) xs
select-eq-nil p [] = (λ h. tt, λ h. refl)
select-eq-nil p (x ∷ xs) = ground (arith, select-eq-nil p xs)

IsNodup-of_counts :
    (xs : List String) → ((a : String) → any (λ y. y == a) xs ≡ true → count a xs ≤ 1) → IsNodup xs
unfolding count
IsNodup-of_counts [] h = tt
IsNodup-of_counts (x ∷ xs) h = (
  absent_of_count x xs (ground (arith, h x, ==_refl x)),
  IsNodup-of_counts xs (λ a m. ground (arith, h a)),
)

counts :
    (xs ys : List String)
    → All (λ a. ltb 1 (count a xs) ≡ false) ys
    → (a : String) → any (λ y. y == a) ys ≡ true
    → count a xs ≤ 1
counts xs [] h a m = absurd (cc)
counts xs (y ∷ ys) h a m = ground (arith, counts xs ys h.1 a, string_eq.equals_iff y a)

All-of_le :
    (xs ys : List String)
    → ((a : String) → count a xs ≤ 1)
    → All (λ a. ltb 1 (count a xs) ≡ false) ys
All-of_le xs [] h = tt
All-of_le xs (y ∷ ys) h = (ground (arith, h y), All-of_le xs ys h)

duplicates-eq-nil : (xs : List String) → (duplicates xs ≡ []) ↔ IsNodup xs
unfolding duplicates
duplicates-eq-nil xs =
    let none_twice = select-eq-nil (λ a. ltb 1 (count a xs)) xs in
    (
      λ h. IsNodup-of_counts xs (counts xs xs (none_twice.0 h)),
      λ d. none_twice.1 (All-of_le xs xs (count-le xs d)),
    )

-- That nothing is refused.
refuse-eq-none :
    (reason : List String → Refusal) (xs : List String) → (refuse reason xs ≡ none) ↔ (xs ≡ [])
refuse-eq-none reason [] = ground arith
refuse-eq-none reason (x ∷ xs) = ground arith

map-eq-nil {ℓ κ} : {A : Type ℓ} {B : Type κ} (f : A → B) (xs : List A) → (map f xs ≡ []) ↔ (xs ≡ [])
map-eq-nil f [] = (λ h. refl, λ h. refl)
map-eq-nil f (x ∷ xs) = (λ h. absurd (cc), λ h. absurd (cc))

checks_pass :
    (b : Bool) (p q r : Check) (reason : Refusal)
    → ((if b then or_next (or_next p q) r else some reason) ≡ none)
      ↔ ((b ≡ true) × (p ≡ none) × (q ≡ none) × (r ≡ none))
checks_pass b none none none reason = ground arith
checks_pass b none none (some r) reason = ground arith
checks_pass b none (some q) r reason = ground arith
checks_pass b (some p) q r reason = ground arith

module _ {F : Type 0} ⦃float : Float F⦄ where
  pub model_validate-checks :
      (s : Scenario F)
      → (model_validate s ≡ none) ↔ (
          (is_bounded s ≡ true)
          × IsNodup (map (λ a. a.icao24) s.aircraft)
          × IsNodup (map (λ a. a.callsign) s.aircraft)
          × All (λ a. float.le s.duration_s a.entry_time_s ≡ false) s.aircraft)
  unfolding model_validate reject_duplicate_aircraft reject_aircraft_that_never_appear
  model_validate-checks s =
      let addresses = duplicates-eq-nil (map (λ a. a.icao24) s.aircraft) in
      let callsigns = duplicates-eq-nil (map (λ a. a.callsign) s.aircraft) in
      let entries = select-eq-nil (λ a. float.le s.duration_s a.entry_time_s) s.aircraft in
      let dup = refuse-eq-none duplicate_icao24 (duplicates (map (λ a. a.icao24) s.aircraft)) in
      let same =
        refuse-eq-none duplicate_callsign (duplicates (map (λ a. a.callsign) s.aircraft)) in
      let after_end = select (λ a. float.le s.duration_s a.entry_time_s) s.aircraft in
      let names = refuse-eq-none late (map (λ a. a.callsign) after_end) in
      let none_late = map-eq-nil (λ a. a.callsign) after_end in
      let pass = checks_pass (is_bounded s) _ _ _ out_of_bounds in
      (
        λ h.
            let (fields, p, q, r) = pass.0 h in
            (
              fields,
              addresses.0 (dup.0 p),
              callsigns.0 (same.0 q),
              entries.0 (none_late.0 (names.0 r)),
            ),
        λ (fields, p, q, r). pass.1 (
          fields,
          dup.1 (addresses.1 p),
          same.1 (callsigns.1 q),
          names.1 (none_late.1 (entries.1 r)),
        ),
      )
