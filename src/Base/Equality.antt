-- ===== src/Base/Equality.antt =====
-- Python's `==` on the keys of dictionaries and sets, as an interface.
use Prim.Native.Nat.{ℕ}
use Prim.Native.String.{String}
use mathlib.Core.Path.{◌≡◌, refl, sym, ap}
use mathlib.Core.Logic.{◌↔◌, ◌≢◌, ◌⊎◌, inl, inr}
use mathlib.Core.Bool.{Bool, true, false, ◌&&◌}
use native.Mathlib.Omega.{arith}
use text.Mathlib.Text.{◌==◌ as str_eq}
use text.Mathlib.TextEquality.{eq_iff}
use airspace_conformance_pla.Base.Tests.{nat_beq, nat_beq_iff, Bool-cases}

-- A test on the values of a type, which holds between a value and itself only.
pub record Eq {ℓ} (K : Type ℓ) : Type ℓ where
  pub equals : K → K → Bool
  pub equals_iff : (x y : K) → (equals x y ≡ true) ↔ (x ≡ y)

instance abbrev pub string_eq : Eq String
string_eq = record { equals_iff = eq_iff; equals = str_eq }

instance abbrev pub nat_eq : Eq ℕ
nat_eq = record { equals_iff = nat_beq_iff; equals = nat_beq }

-- x == y
infix 50 ◌==◌
abbrev pub ◌==◌ {ℓ} : {K : Type ℓ} ⦃test : Eq K⦄ → K → K → Bool
◌==◌ ⦃test⦄ = test.equals

module _ {ℓ} {A : Type ℓ} ⦃e : Eq A⦄ where
  pub ==_refl : (a : A) → (a == a) ≡ true
  ==_refl a = (e.equals_iff a a).1 refl

  pub ==_ne : (a b : A) → a ≢ b → (a == b) ≡ false
  ==_ne a b h = elim (Bool-cases (a == b)) [
    | inl same ↦ absurd (h ((e.equals_iff a b).0 same))
    | inr other ↦ other
  ]

  -- To split on whether two keys are one.
  pub ==_cases : (a b : A) → (a ≡ b) ⊎ ((a == b) ≡ false)
  ==_cases a b = elim (Bool-cases (a == b)) [
    | inl same ↦ inl ((e.equals_iff a b).0 same)
    | inr other ↦ inr other
  ]

  pub ==_ne_of_false : (a b : A) → (a == b) ≡ false → a ≢ b
  ==_ne_of_false a b h p = ground (arith, (e.equals_iff a b).1 p)

  pub ==_symm : (a b : A) → (a == b) ≡ false → (b == a) ≡ false
  ==_symm a b h = ==_ne b a (λ p. ==_ne_of_false a b h (sym p))

-- Pairs, by their components.
module _ {A B : Type 0} (a : Eq A) (b : Eq B) where
  abbrev pub product_equals : A × B → A × B → Bool
  product_equals (i, t) (j, u) = a.equals i j && b.equals t u

  pub product_equals_iff : (x y : A × B) → (product_equals x y ≡ true) ↔ (x ≡ y)
  product_equals_iff (i, t) (j, u) = (
    λ h.
        let (p, q) = both (a.equals i j) (b.equals t u) h in
        λ k. ((a.equals_iff i j).0 p k, (b.equals_iff t u).0 q k),
    λ p.
        both_back ((a.equals_iff i j).1 (ap (λ x. x.0) p)) ((b.equals_iff t u).1 (ap (λ x. x.1) p)),
  )
    where
      both : (x y : Bool) → (x && y) ≡ true → (x ≡ true) × (y ≡ true)
      both x y h = ground arith

      both_back : {x y : Bool} → x ≡ true → y ≡ true → (x && y) ≡ true
      both_back h k = rw (h, k) refl

-- Pairs of a name and a number, and of two names.
abbrev pub pair_equals : String × ℕ → String × ℕ → Bool
pair_equals x y = product_equals string_eq nat_eq x y

pub pair_equals_iff : (x y : String × ℕ) → (pair_equals x y ≡ true) ↔ (x ≡ y)
pair_equals_iff x y = product_equals_iff string_eq nat_eq x y

instance abbrev pub pair_eq : Eq (String × ℕ)
pair_eq = record { equals = pair_equals; equals_iff = pair_equals_iff }

instance abbrev pub names_eq : Eq (String × String)
names_eq = record {
  equals = product_equals string_eq string_eq;
  equals_iff = product_equals_iff string_eq string_eq;
}
