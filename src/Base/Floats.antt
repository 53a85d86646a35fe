-- ===== src/Base/Floats.antt =====
-- Python's `float`, as an interface: the operations that the program uses, and what it relies on of
-- the order. NaN is the value that is not `<=` itself; the order is total away from it.
use Prim.Native.Nat.{ℕ, ◌<◌}
use Prim.Native.String.{String}
use mathlib.Core.Path.{◌≡◌}
use mathlib.Core.Logic.{◌⊎◌}
use mathlib.Core.Bool.{Bool, true, false, not}
use airspace_conformance_pla.Base.Tests.{leb, if◌then◌else◌}

pub record Float (F : Type 0) : Type 0 where
  -- A literal with a whole value, and unary minus.
  pub literal : ℕ → F
  pub negate : F → F
  pub abs : F → F
  pub round : F → F
  pub add : F → F → F
  pub sub : F → F → F
  pub mul : F → F → F
  pub div : F → F → F
  -- `x % y`, with the sign of `y`.
  pub mod_of : F → F → F
  pub le : F → F → Bool
  pub lt : F → F → Bool
  -- `total_seconds()` of a duration that is not negative, given in microseconds.
  pub seconds : ℕ → F
  -- f"{x:spec}"
  pub format : String → F → String

module _ {F : Type 0} ⦃float : Float F⦄ where
  open float use {le, lt}

  -- `a <= b` holds.
  infix 4 ◌≼◌
  abbrev pub ◌≼◌ : F → F → Type 0
  x ≼ y = le x y ≡ true

  -- Python's `max(a, b)` and `min(a, b)`: the second only if it is strictly better.
  unfoldable pub fmax : F → F → F
  fmax a b = if lt a b then b else a

  unfoldable pub fmin : F → F → F
  fmin a b = if lt b a then b else a

-- What IEEE comparisons are documented to do.
pub record IsOrdered (F : Type 0) ⦃float : Float F⦄ : Type 0 where
  pub refl_of_le : (x y : F) → x ≼ y → (x ≼ x) × (y ≼ y)
  pub le_trans : (x y z : F) → x ≼ y → y ≼ z → x ≼ z
  pub le_total : (x y : F) → x ≼ x → y ≼ y → (x ≼ y) ⊎ (y ≼ x)
  pub lt-eq-not-le : (x y : F) → x ≼ x → y ≼ y → float.lt x y ≡ not (float.le y x)
  pub lt_trans : (x y z : F) → float.lt x y ≡ true → float.lt y z ≡ true → float.lt x z ≡ true
  pub le_of_lt : (x y : F) → float.lt x y ≡ true → x ≼ y
  pub lt_irrefl : (x : F) → float.lt x x ≡ false
  pub literal_number : (n : ℕ) → float.literal n ≼ float.literal n
  pub negate_number : (x : F) → x ≼ x → float.negate x ≼ float.negate x
  -- Rounding may take a remainder up to the divisor itself.
  pub mod_bounds :
      (x : F) (n : ℕ)
      → x ≼ x
      → 0 < n
      → let r = float.mod_of x (float.literal n) in (float.literal 0 ≼ r) × (r ≼ float.literal n)
  pub le-literal : (m n : ℕ) → float.le (float.literal m) (float.literal n) ≡ leb m n
  pub le-literal-negate :
      (m n : ℕ) → 0 < n → float.le (float.literal m) (float.negate (float.literal n)) ≡ false
