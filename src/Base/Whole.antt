-- ===== src/Base/Whole.antt =====
-- Whole numbers as floats: an instance at which the theorems about floats can be applied and run.
use Prim.Native.Nat.{ℕ, suc, ◌+◌, ◌-◌, ◌*◌, ◌/◌, ◌%◌, ◌<◌, ◌≤◌}
use mathlib.Core.Path.{◌≡◌}
use mathlib.Core.Logic.{◌⊎◌}
use mathlib.Core.Bool.{Bool, true, false, not}
use native.Mathlib.Omega.{arith}
use airspace_conformance_pla.Base.Tests.{ltb, leb, if◌then◌else◌}
use airspace_conformance_pla.Base.Floats.{Float, IsOrdered, ◌≼◌}

-- `negsuc n` is -(n + 1).
pub data ℤ : Type 0 where
  pos : ℕ → ℤ
  negsuc : ℕ → ℤ

abbrev pub pos_part : ℤ → ℕ
pos_part (pos n) = n
pos_part (negsuc n) = 0

abbrev pub neg_part : ℤ → ℕ
neg_part (pos n) = 0
neg_part (negsuc n) = suc n

abbrev pub sub_ℕ : ℕ → ℕ → ℤ
sub_ℕ a b = if leb b a then pos (a - b) else negsuc (b - a - 1)

abbrev pub leb_ℤ : ℤ → ℤ → Bool
leb_ℤ a b = leb (pos_part a + neg_part b) (pos_part b + neg_part a)

abbrev pub ltb_ℤ : ℤ → ℤ → Bool
ltb_ℤ a b = ltb (pos_part a + neg_part b) (pos_part b + neg_part a)

abbrev pub negate_ℤ : ℤ → ℤ
negate_ℤ a = sub_ℕ (neg_part a) (pos_part a)

-- Of a positive divisor; the remainder has its sign.
abbrev pub mod_ℤ : ℤ → ℤ → ℤ
mod_ℤ a b = let n = pos_part b in pos ((pos_part a % n + (n - neg_part a % n)) % n)

instance abbrev pub whole : Float ℤ
whole = record {
  literal = pos;
  negate = negate_ℤ;
  abs = λ a. pos (pos_part a + neg_part a);
  round = λ a. a;
  add = λ a b. sub_ℕ (pos_part a + pos_part b) (neg_part a + neg_part b);
  sub = λ a b. sub_ℕ (pos_part a + neg_part b) (neg_part a + pos_part b);
  mul = λ a b.
      sub_ℕ (pos_part a * pos_part b + neg_part a * neg_part b)
        (pos_part a * neg_part b + neg_part a * pos_part b);
  div = λ a b. pos ((pos_part a + neg_part a) / (pos_part b + neg_part b));
  mod_of = mod_ℤ;
  le = leb_ℤ;
  lt = ltb_ℤ;
  seconds = pos;
  format = λ spec a. spec;
}

refl_of_le : (x y : ℤ) → x ≼ y → (x ≼ x) × (y ≼ y)
refl_of_le x y h = ground arith

le_trans : (x y z : ℤ) → x ≼ y → y ≼ z → x ≼ z
le_trans x y z h k = ground arith

le_total : (x y : ℤ) → x ≼ x → y ≼ y → (x ≼ y) ⊎ (y ≼ x)
le_total x y h k = ground arith

lt-eq-not-le : (x y : ℤ) → x ≼ x → y ≼ y → ltb_ℤ x y ≡ not (leb_ℤ y x)
lt-eq-not-le x y h k = ground arith

lt_trans : (x y z : ℤ) → ltb_ℤ x y ≡ true → ltb_ℤ y z ≡ true → ltb_ℤ x z ≡ true
lt_trans x y z h k = ground arith

le_of_lt : (x y : ℤ) → ltb_ℤ x y ≡ true → x ≼ y
le_of_lt x y h = ground arith

lt_irrefl : (x : ℤ) → ltb_ℤ x x ≡ false
lt_irrefl x = ground arith

literal_number : (n : ℕ) → pos n ≼ pos n
literal_number n = ground arith

negate_number : (x : ℤ) → x ≼ x → negate_ℤ x ≼ negate_ℤ x
negate_number x h = ground arith

le-literal : (m n : ℕ) → leb_ℤ (pos m) (pos n) ≡ leb m n
le-literal m n = ground arith

le-literal-negate : (m n : ℕ) → 0 < n → leb_ℤ (pos m) (negate_ℤ (pos n)) ≡ false
le-literal-negate m n h = ground arith

mod_bounds : (x : ℤ) (n : ℕ) → x ≼ x → 0 < n → (pos 0 ≼ mod_ℤ x (pos n)) × (mod_ℤ x (pos n) ≼ pos n)
mod_bounds x n h k =
    (ground arith, below ((pos_part x % n + (n - neg_part x % n)) % n) (mod-le _ n k))
  where
    below : (m : ℕ) → m ≤ n → pos m ≼ pos n
    below m l = ground arith

    mod-le : (a b : ℕ) → 0 < b → a % b ≤ b
    mod-le a b l = grind arith

pub whole-IsOrdered : IsOrdered ℤ
whole-IsOrdered = record {
  refl_of_le = refl_of_le;
  le_trans = le_trans;
  le_total = le_total;
  lt-eq-not-le = lt-eq-not-le;
  lt_trans = lt_trans;
  le_of_lt = le_of_lt;
  lt_irrefl = lt_irrefl;
  literal_number = literal_number;
  negate_number = negate_number;
  mod_bounds = mod_bounds;
  le-literal = le-literal;
  le-literal-negate = le-literal-negate;
}
