-- ===== src/Base/Dictionary.antt =====
-- Python's `dict`: the entries in insertion order. Writing to a key that is there keeps its place.
use mathlib.Core.Path.{◌≡◌, ◌∙◌, refl}
use mathlib.Core.Bool.{Bool, true, false}
use mathlib.Core.Option.{Option, none, some}
use mathlib.Core.List.{List, [], ◌∷◌, foldl}
use native.Mathlib.Omega.{arith}
use airspace_conformance_pla.Base.Tests.{if◌then◌else◌}
use airspace_conformance_pla.Base.Lists.{any, select}
use airspace_conformance_pla.Base.Equality.{Eq, ◌==◌, ==_refl}

abbrev pub Dict {ℓ κ} : Type ℓ → Type κ → Type (ℓ ⊔ κ)
Dict K V = List (K × V)

module _ {ℓ κ} {K : Type ℓ} {V : Type κ} where
  unfoldable pub keys : Dict K V → List K
  keys [] = []
  keys ((k, v) ∷ m) = k ∷ keys m

module _ {ℓ κ} {K : Type ℓ} {V : Type κ} ⦃e : Eq K⦄ where
  -- m.get(k)
  unfoldable pub lookup : K → Dict K V → Option V
  lookup k [] = none
  lookup k ((key, v) ∷ m) = if key == k then some v else lookup k m

  -- m[k] = v
  unfoldable pub insert : K → V → Dict K V → Dict K V
  insert k v [] = (k, v) ∷ []
  insert k v ((j, w) ∷ m) = let rest = insert k v m in if j == k then (j, v) ∷ m else (j, w) ∷ rest

  -- del m[k], and m.pop(k, None)
  unfoldable pub delete : K → Dict K V → Dict K V
  delete k [] = []
  delete k ((j, w) ∷ m) = let rest = delete k m in if j == k then rest else (j, w) ∷ rest

module _ {ℓ κ} {K : Type ℓ} {V : Type κ} ⦃e : Eq K⦄ where
  -- k in m
  unfoldable pub contains : K → Dict K V → Bool
  contains k m = elim (lookup k m) [ none ↦ false | some _ ↦ true ]

  -- {k: v for k, v in pairs}
  unfoldable pub from_pairs : List (K × V) → Dict K V
  from_pairs = foldl (λ m p. insert p.0 p.1 m) []

  -- No key stands twice.
  abbrev pub Distinct : Dict K V → Type κ
  Distinct [] = Unit
  Distinct ((k, v) ∷ m) = (lookup k m ≡ none) × Distinct m

  pub lookup-insert :
      (key other : K) (w : V) (m : Dict K V)
      → lookup other (insert key w m) ≡ (if key == other then some w else lookup other m)
  unfolding insert lookup
  lookup-insert key other w [] = refl
  lookup-insert key other w ((i, v) ∷ m) = ground (
    arith,
    e.equals_iff i key,
    e.equals_iff i other,
    e.equals_iff key other,
    lookup-insert key other w m,
  )

  pub lookup-delete :
      (k j : K) (m : Dict K V) → lookup j (delete k m) ≡ (if k == j then none else lookup j m)
  unfolding lookup delete
  lookup-delete k j [] = ground arith
  lookup-delete k j ((i, w) ∷ m) =
      ground (arith, e.equals_iff k j, e.equals_iff i k, e.equals_iff i j, lookup-delete k j m)

module _ {ℓ κ} {K : Type ℓ} {V : Type κ} ⦃e : Eq K⦄ where
  pub lookup-insert_self : (k : K) (v : V) (m : Dict K V) → lookup k (insert k v m) ≡ some v
  lookup-insert_self k v m = simp (lookup-insert, ==_refl)

  pub lookup-insert_ne :
      (k j : K) (v : V) (m : Dict K V) → (k == j) ≡ false → lookup j (insert k v m) ≡ lookup j m
  lookup-insert_ne k j v m h = rw (lookup-insert k j v m, h)

  pub lookup-delete_self : (k : K) (m : Dict K V) → lookup k (delete k m) ≡ none
  lookup-delete_self k m = simp (lookup-delete, ==_refl)

  pub lookup-delete_ne :
      (k j : K) (m : Dict K V) → (k == j) ≡ false → lookup j (delete k m) ≡ lookup j m
  lookup-delete_ne k j m h = rw (lookup-delete k j m, h)

  pub delete_absent : (k : K) (m : Dict K V) → lookup k m ≡ none → delete k m ≡ m
  unfolding lookup delete
  delete_absent k [] h = refl
  delete_absent k ((j, w) ∷ m) h = ground (arith, delete_absent k m)

  pub insert_present : (k : K) (v : V) (m : Dict K V) → lookup k m ≡ some v → insert k v m ≡ m
  unfolding lookup insert
  insert_present k v [] h = absurd (cc)
  insert_present k v ((j, w) ∷ m) h = ground (arith, insert_present k v m)

  pub insert-Distinct : (k : K) (v : V) (m : Dict K V) → Distinct m → Distinct (insert k v m)
  unfolding insert lookup
  insert-Distinct k v [] d = (refl, tt)
  insert-Distinct k v ((j, w) ∷ m) d =
      ground (
        arith,
        insert-Distinct k v m d.1,
        lookup-insert k j v m,
        e.equals_iff k j,
        e.equals_iff j k,
      )

  pub delete-Distinct : (k : K) (m : Dict K V) → Distinct m → Distinct (delete k m)
  unfolding delete
  delete-Distinct k [] d = tt
  delete-Distinct k ((j, w) ∷ m) d = ground (arith, delete-Distinct k m d.1, lookup-delete k j m)

  insert_all-Distinct :
      (pairs : List (K × V)) (m : Dict K V)
      → Distinct m
      → Distinct (foldl (λ n (p : K × V). insert p.0 p.1 n) m pairs)
  insert_all-Distinct [] m d = d
  insert_all-Distinct ((k, v) ∷ pairs) m d =
      insert_all-Distinct pairs (insert k v m) (insert-Distinct k v m d)

  pub from_pairs-Distinct : (pairs : List (K × V)) → Distinct (from_pairs pairs)
  unfolding from_pairs
  from_pairs-Distinct pairs = insert_all-Distinct pairs [] tt

  pub any-keys :
      (k : K) (v : V) (m : Dict K V) → lookup k m ≡ some v → any (λ j. j == k) (keys m) ≡ true
  unfolding lookup keys
  any-keys k v [] h = absurd (cc)
  any-keys k v ((j, w) ∷ m) h = ground (arith, any-keys k v m)

  -- What stands behind the first entry stands under another key.
  pub Distinct-tail_ne :
      (k j : K) (v w : V) (m : Dict K V)
      → Distinct ((k, v) ∷ m)
      → lookup j m ≡ some w
      → (k == j) ≡ false
  Distinct-tail_ne k j v w m d h = ground (arith, e.equals_iff k j)

module _ {κ} {V : Type κ} where
  -- Whether a value is there and meets a test.
  abbrev pub found : (V → Bool) → Option V → Bool
  found p none = false
  found p (some v) = p v

module _ {ℓ κ} {K : Type ℓ} {V : Type κ} ⦃e : Eq K⦄ where
  -- Deleting one key after another.
  pub lookup-delete_all :
      (ks : List K) (m : Dict K V) (k : K)
      → lookup k (foldl (λ n j. delete j n) m ks)
        ≡ (if any (λ j. j == k) ks then none else lookup k m)
  lookup-delete_all [] m k = refl
  lookup-delete_all (j ∷ ks) m k =
      lookup-delete_all ks (delete j m) k ∙ ground (arith, lookup-delete j k m)

  pub any-keys-select :
      (p : V → Bool) (m : Dict K V) (k : K)
      → Distinct m
      → any (λ j. j == k) (keys (select (λ q. p q.1) m)) ≡ found p (lookup k m)
  unfolding keys lookup
  any-keys-select p [] k d = refl
  any-keys-select p ((j, v) ∷ m) k d = ground (arith, any-keys-select p m k d.1, e.equals_iff j k)

  -- Deleting every key whose value meets a test.
  pub lookup-delete_where :
      (p : V → Bool) (m : Dict K V) (k : K)
      → Distinct m
      → lookup k (foldl (λ n j. delete j n) m (keys (select (λ q. p q.1) m)))
        ≡ (if found p (lookup k m) then none else lookup k m)
  lookup-delete_where p m k d =
      lookup-delete_all (keys (select (λ q. p q.1) m)) m k ∙ rw (any-keys-select p m k d) refl

pub ruleset dict_laws = (lookup-insert, lookup-delete)
