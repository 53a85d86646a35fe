-- ===== src/Simulation/Commands.antt =====
-- sim/engine.py: `_apply_commands` over steps that follow one another.
use airspace_conformance_pla.Base.{
  ◌≡◌, refl, ap, ◌∙◌, true, false, not, List, [], ◌∷◌, All, Float, IsOrdered, ◌≼◌, if◌then◌else◌,
  arith, Bool-cases, inl, inr,
}
use airspace_conformance_pla.Scenario.{Command}
use airspace_conformance_pla.Flight.{AircraftTruth, obey, apply_commands}

module _ {F : Type 0} ⦃float : Float F⦄ where
  -- No command stands before one that is due earlier, and each time is a number.
  abbrev pub IsInOrder : List (Command F) → Type 0
  IsInOrder [] = Unit
  IsInOrder (c ∷ plan) = (c.at_s ≼ c.at_s) × All (λ d. c.at_s ≼ d.at_s) plan × IsInOrder plan

  module _ (laws : IsOrdered F) where
    open laws use {le_trans, lt-eq-not-le, refl_of_le}

    -- Commands that are due later change nothing.
    apply_commands_later :
        (a b at : F) (plan : List (Command F)) (s : AircraftTruth F)
        → b ≼ b
        → at ≼ at
        → float.le at b ≡ false
        → All (λ d. at ≼ d.at_s) plan
        → apply_commands a b plan s ≡ s
    unfolding apply_commands
    apply_commands_later a b at [] s nb na late h = refl
    apply_commands_later a b at (d ∷ plan) s nb na late h =
        let after : float.le d.at_s b ≡ false = elim (Bool-cases (float.le d.at_s b)) [
          | inl early ↦ let t = le_trans at d.at_s b h.0 early in cc
          | inr e ↦ e
        ] in
        ground (arith, apply_commands_later a b at plan s nb na late h.1)

    -- With ordered floats, for a plan in the order of its times: a step past several commands does
    -- to an aircraft's targets what the two steps that it can be cut into do one after the other.
    pub apply_commands_split :
        (a b c : F) (plan : List (Command F)) (s : AircraftTruth F)
        → a ≼ b
        → b ≼ c
        → IsInOrder plan
        → apply_commands a c plan s ≡ apply_commands b c plan (apply_commands a b plan s)
    unfolding apply_commands
    apply_commands_split a b c [] s p q o = refl
    apply_commands_split a b c (d ∷ plan) s p q (n, first, o) =
        let na = (refl_of_le a b p).0 in
        let nb = (refl_of_le a b p).1 in
        elim (Bool-cases (float.le d.at_s b)) [
          | inl early ↦
              let not_later : float.lt b d.at_s ≡ false =
                lt-eq-not-le b d.at_s nb n ∙ ap not early in
              rw (early, not_later, le_trans d.at_s b c early q)
                (apply_commands_split a b c plan _ p q o)
          | inr late ↦
              let after_b : float.lt b d.at_s ≡ true = lt-eq-not-le b d.at_s nb n ∙ ap not late in
              let not_before : float.le d.at_s a ≡ false = elim (Bool-cases (float.le d.at_s a)) [
                | inl early ↦ let t = le_trans d.at_s a b early p in cc
                | inr e ↦ e
              ] in
              let after_a : float.lt a d.at_s ≡ true =
                lt-eq-not-le a d.at_s na n ∙ ap not not_before in
              let unchanged =
                λ (t : AircraftTruth F). apply_commands_later a b d.at_s plan t nb n late first in
              let done = if float.le d.at_s c then obey d.order s else s in
              rw (after_a, after_b, late, unchanged s)
                (apply_commands_split a b c plan done p q o
                  ∙ ap (apply_commands b c plan) (unchanged done))
        ]
