-- ===== src/Base/Options.antt =====
-- Python's exceptions where a step may raise: a chain of steps over `Option`, with `none` for the
-- exception.
use mathlib.Core.Path.{◌≡◌, refl, subst}
use mathlib.Core.Option.{Option, none, some}

infixl 5 ◌>>=◌
abbrev pub ◌>>=◌ {ℓ κ} : {A : Type ℓ} {B : Type κ} → Option A → (A → Option B) → Option B
none >>= f = none
some a >>= f = f a

-- What a chain that ends well went through.
pub >>=-eq-some {ℓ κ} :
    {A : Type ℓ} {B : Type κ} (m : Option A) (f : A → Option B) {b : B}
    → (m >>= f) ≡ some b
    → (a : A) × (m ≡ some a) × (f a ≡ some b)
>>=-eq-some none f h = cc
>>=-eq-some (some a) f h = (a, refl, h)

-- What holds of the result if nothing is raised.
abbrev pub Ends {ℓ κ} : {A : Type ℓ} → (A → Type κ) → Option A → Type κ
Ends P none = Unit
Ends P (some a) = P a

module _ {ℓ κ ι} {A : Type ℓ} {B : Type κ} where
  pub Ends-bind {ν} :
      (P : A → Type ν) (Q : B → Type ι) (m : Option A) (f : A → Option B)
      → Ends P m
      → ((a : A) → P a → Ends Q (f a))
      → Ends Q (m >>= f)
  Ends-bind P Q none f h k = tt
  Ends-bind P Q (some a) f h k = k a h

pub Ends-any {ℓ} : {A : Type ℓ} (m : Option A) → Ends (λ a. m ≡ some a) m
Ends-any none = tt
Ends-any (some a) = refl

pub Ends-some {ℓ κ} :
    {A : Type ℓ} (P : A → Type κ) (m : Option A) {a : A} → Ends P m → m ≡ some a → P a
Ends-some P m h e = subst (Ends P) e h

pub Ends-always {ℓ} : {A : Type ℓ} (m : Option A) → Ends (λ a. Unit {0}) m
Ends-always none = tt
Ends-always (some a) = tt
