-- ===== src/Rules/Escalation.antt =====
-- What the rules find, and how urgently.
use airspace_conformance_pla.Base.{
  ℕ, ◌≤◌, String, ◌≡◌, ◌≢◌, refl, none, some, true, false, Option, if◌then◌else◌, List, [], ◌∷◌,
  ◌++◌, All, arith, Float, IsOrdered, ◌≼◌,
}
use airspace_conformance_pla.Contracts.{
  Severity, info, advisory, caution, warning, TrackUpdate, emergency_squawk, excessive_descent,
}
use airspace_conformance_pla.Rules.{
  RuleFinding, key, check, descent_finding, descent_record, low_altitude_ft,
  low_altitude_descent_fpm, excessive_descent_fpm, low_and_steep, squawk_finding, to_list,
}
use airspace_conformance_pla.Rules.Keys.{key-injective}

abbrev pub rank : Severity → ℕ
rank info = 0
rank advisory = 1
rank caution = 2
rank warning = 3

-- No two findings of the list have one key.
abbrev pub KeysDiffer : List RuleFinding → Type 0
KeysDiffer [] = Unit
KeysDiffer (f ∷ fs) = All (λ g. key f ≢ key g) fs × KeysDiffer fs

module _ {F : Type 0} ⦃float : Float F⦄ where
  open float use {le, lt, literal}

  squawk-IsSound :
      (track : TrackUpdate F) (label : String) (f : RuleFinding)
      → squawk_finding track label ≡ some f
      → (f.track_id ≡ track.track_id) × (f.reason_codes ≢ []) × (f.kind ≡ emergency_squawk)
  unfolding squawk_finding
  squawk-IsSound track label f h = ground arith

  descent-IsSound :
      (track : TrackUpdate F) (label : String) (f : RuleFinding)
      → descent_finding track label ≡ some f
      → (f.track_id ≡ track.track_id) × (f.reason_codes ≢ []) × (f.kind ≡ excessive_descent)
  unfolding descent_finding
  descent-IsSound track label f h = ground arith

  -- Every finding names its track and gives a reason, and no two findings of a track share a key.
  pub check-IsSound :
      (track : TrackUpdate F)
      → All (λ f. (f.track_id ≡ track.track_id) × (f.reason_codes ≢ [])) (check track)
        × KeysDiffer (check track)
  unfolding check
  check-IsSound track =
      both (squawk_finding track _) (descent_finding track _) (squawk-IsSound track _)
        (descent-IsSound track _)
    where
      IsSound : RuleFinding → Type 0
      IsSound f = (f.track_id ≡ track.track_id) × (f.reason_codes ≢ [])

      both :
          (a b : Option RuleFinding)
          → ((f : RuleFinding)
              → a ≡ some f
              → (f.track_id ≡ track.track_id) × (f.reason_codes ≢ []) × (f.kind ≡ emergency_squawk))
          → ((f : RuleFinding)
              → b ≡ some f
              → (f.track_id ≡ track.track_id)
                × (f.reason_codes ≢ [])
                × (f.kind ≡ excessive_descent))
          → All IsSound (to_list a ++ to_list b) × KeysDiffer (to_list a ++ to_list b)
      both none none p q = (tt, tt)
      both (some f) none p q = let (i, r, k) = p f refl in (((i, r), tt), (tt, tt))
      both none (some g) p q = let (i, r, k) = q g refl in (((i, r), tt), (tt, tt))
      both (some f) (some g) p q =
          let (i, r, k) = p f refl in
          let (i', r', k') = q g refl in
          (((i, r), ((i', r'), tt)), (((λ e. cc ((key-injective f g e).0, k, k')), tt), (tt, tt)))

  module _ (laws : IsOrdered F) where
    open laws use {
      refl_of_le, le_trans, lt-eq-not-le, literal_number, negate_number, le-literal-negate,
    }

    lower : (low x y : F) → low ≼ low → y ≼ x → lt x low ≡ true → lt y low ≡ true
    lower low x y n h below =
        ground (arith, refl_of_le y x h, lt-eq-not-le x low, lt-eq-not-le y low, le_trans low y x)

    -- With ordered floats, a steeper descent at the same height or lower is found whenever the
    -- gentler one is, and is never less severe.
    pub descent_finding_mono :
        (t u : TrackUpdate F) (label label' : String) {f : RuleFinding}
        → u.vertical_rate_fpm ≼ t.vertical_rate_fpm
        → u.altitude_ft ≼ t.altitude_ft
        → descent_finding t label ≡ some f
        → let g = descent_record u label' in
          (descent_finding u label' ≡ some g) × (rank f.severity ≤ rank g.severity)
    unfolding descent_finding
    descent_finding_mono t u label label' {f} steeper under h =
        let r = t.vertical_rate_fpm in
        let r' = u.vertical_rate_fpm in
        ground (
          arith,
          le_trans (literal 0) r' r,
          le_trans r' r low_altitude_descent_fpm,
          le_trans r' r excessive_descent_fpm,
          lower low_altitude_ft t.altitude_ft u.altitude_ft (literal_number 10000) under,
        )

    -- With ordered floats, a descent at 6000 feet a minute or more is found at every altitude,
    -- with its reason.
    pub steep_descent_found :
        (t : TrackUpdate F) (label : String)
        → t.vertical_rate_fpm ≼ excessive_descent_fpm
        → (rest : List String) × (descent_finding t label ≡ some (descent_record t label))
          × ((descent_record t label).reason_codes ≡ "descent_rate_above_6000_fpm" ∷ rest)
    unfolding descent_finding
    steep_descent_found t label h =
        let e : le (literal 0) t.vertical_rate_fpm ≡ false = ground (
          arith,
          le_trans (literal 0) t.vertical_rate_fpm excessive_descent_fpm,
          le-literal-negate 0 6000,
        ) in
        (
          if low_and_steep t then "steep_descent_below_10000_ft" ∷ [] else [],
          ground arith,
          ground arith,
        )
