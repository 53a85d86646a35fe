-- ===== src/Base/Order.antt =====
-- Python's order on `str`: by the characters' numbers.
use Prim.Native.Nat.compare as compare_ℕ
use Prim.Native.Nat.{ℕ, zero, suc, Ordering, compare as compare_ℕ}
use Prim.Native.Char.{code}
use Prim.Native.String.compare
use Prim.Native.String.{String, [], ◌∷◌, compare, then}
use text.Mathlib.TextEquality.{path_by_compare}
use mathlib.Core.Path.{◌≡◌, refl, sym, ◌∙◌, ap}

abbrev pub flip : Ordering → Ordering
flip Ordering.lt = Ordering.gt
flip Ordering.eq = Ordering.eq
flip Ordering.gt = Ordering.lt

numbers-flip : (m n : ℕ) → compare_ℕ m n ≡ flip (compare_ℕ n m)
numbers-flip zero zero = compare_ℕ.zero-zero ∙ ap flip (sym compare_ℕ.zero-zero)
numbers-flip zero (suc n) = compare_ℕ.zero-suc n ∙ ap flip (sym (compare_ℕ.suc-zero n))
numbers-flip (suc m) zero = compare_ℕ.suc-zero m ∙ ap flip (sym (compare_ℕ.zero-suc m))
numbers-flip (suc m) (suc n) =
    compare_ℕ.suc-suc m n ∙ numbers-flip m n ∙ ap flip (sym (compare_ℕ.suc-suc n m))

flip-then : (o p : Ordering) → then (flip o) (flip p) ≡ flip (then o p)
flip-then Ordering.lt p = refl
flip-then Ordering.eq p = refl
flip-then Ordering.gt p = refl

pub texts-flip : (s t : String) → compare s t ≡ flip (compare t s)
texts-flip [] [] = compare.nil-nil ∙ ap flip (sym compare.nil-nil)
texts-flip [] (d ∷ t) = compare.nil-cons d t ∙ ap flip (sym (compare.cons-nil d t))
texts-flip (c ∷ s) [] = compare.cons-nil c s ∙ ap flip (sym (compare.nil-cons c s))
texts-flip (c ∷ s) (d ∷ t) =
    compare.cons-cons c d s t
    ∙ (λ i. then (numbers-flip (code c) (code d) i) (texts-flip s t i))
    ∙ flip-then (compare_ℕ (code d) (code c)) (compare t s)
    ∙ ap flip (sym (compare.cons-cons d c t s))

-- `tuple(sorted((s, t)))`
abbrev pub in_order : Ordering → String → String → String × String
in_order Ordering.lt s t = (t, s)
in_order _ s t = (s, t)

unfoldable pub sorted_pair : String → String → String × String
sorted_pair s t = in_order (compare t s) s t

-- It does not depend on the order of the two.
pub sorted_pair_comm : (s t : String) → sorted_pair s t ≡ sorted_pair t s
unfolding sorted_pair
sorted_pair_comm s t = by_order (compare t s) refl ∙ ap (λ o. in_order o t s) (sym (texts-flip s t))
  where
    by_order : (o : Ordering) → compare t s ≡ o → in_order o s t ≡ in_order (flip o) t s
    by_order Ordering.lt e = refl
    by_order Ordering.gt e = refl
    by_order Ordering.eq e = let p = path_by_compare t s e in λ i. (sym p i, p i)
