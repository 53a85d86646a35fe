-- ===== src/Rules/Keys.antt =====
-- The keys of findings tell the kinds and the tracks apart.
use Prim.Native.Char.{code}
use Prim.Native.String.{[], ◌∷◌, ◌++◌}
use text.Mathlib.TextLemmas.{append_cancel_left, cons-append}
use mathlib.Core.Option.{some-injective}
use airspace_conformance_pla.Base.{
  ℕ, String, Option, none, some, ◌≡◌, refl, sym, ◌∙◌, ap, arith, join,
}
use airspace_conformance_pla.Contracts.{
  AlertKind, kind_value, predicted_conflict, non_conformance, emergency_squawk, excessive_descent,
}
use airspace_conformance_pla.Rules.{RuleFinding, key}

-- The second characters of the values of `AlertKind` are all different.
second : String → Option ℕ
second [] = none
second (c ∷ []) = none
second (c ∷ d ∷ s) = some (code d)

second-append : (s t : String) (n : ℕ) → second s ≡ some n → second (s ++ t) ≡ some n
unfolding second
second-append [] t n h = absurd (cc)
second-append (c ∷ []) t n h = absurd (cc)
second-append (c ∷ d ∷ s) t n h = rw (cons-append, cons-append) h

tag : AlertKind → ℕ
tag predicted_conflict = b'r'
tag non_conformance = b'o'
tag emergency_squawk = b'm'
tag excessive_descent = b'x'

second-kind_value : (k : AlertKind) → second (kind_value k) ≡ some (tag k)
unfolding second kind_value tag
second-kind_value predicted_conflict = refl
second-kind_value non_conformance = refl
second-kind_value emergency_squawk = refl
second-kind_value excessive_descent = refl

tag-injective : (k l : AlertKind) → tag k ≡ tag l → k ≡ l
unfolding tag
tag-injective k l h = ground arith

kind_of_text : (k l : AlertKind) (s t : String) → kind_value k ++ s ≡ kind_value l ++ t → k ≡ l
kind_of_text k l s t h = tag-injective k l (
    some-injective _ _ (
      sym (second-append _ s _ (second-kind_value k))
      ∙ ap second h
      ∙ second-append _ t _ (second-kind_value l)))

-- Two findings with one key have one kind and one track.
pub key-injective :
    (f g : RuleFinding) → key f ≡ key g → (f.kind ≡ g.kind) × (f.track_id ≡ g.track_id)
unfolding key join
key-injective f g h =
    let e = kind_of_text f.kind g.kind _ _ h in
    (e, append_cancel_left ":" _ _ (append_cancel_left (kind_value g.kind) _ _ (rw e at h)))
