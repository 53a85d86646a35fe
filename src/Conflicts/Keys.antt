-- ===== src/Conflicts/Keys.antt =====
-- The key of a conflict does not depend on which aircraft comes first.
use Prim.Native.Nat.{Ordering}
use Prim.Native.String.{compare}
use mathlib.Core.List
use text.Mathlib.TextEquality.{path_by_compare}
use airspace_conformance_pla.Base.{
  String, ◌≡◌, refl, sym, ◌∙◌, ap, sorted, put_in, flip, texts-flip, arith,
}
use airspace_conformance_pla.Conflicts.{Conflict, key, pair_key}

-- The pair in order, from the answer of a comparison.
abbrev in_order : String → String → Ordering → List.List String
in_order s t Ordering.lt = List.◌∷◌ s (List.◌∷◌ t List.[])
in_order s t Ordering.eq = List.◌∷◌ s (List.◌∷◌ t List.[])
in_order s t Ordering.gt = List.◌∷◌ t (List.◌∷◌ s List.[])

in_order-swap :
    (s t : String) (o : Ordering)
    → (o ≡ Ordering.eq → s ≡ t)
    → in_order s t o ≡ in_order t s (flip o)
in_order-swap s t Ordering.lt h = refl
in_order-swap s t Ordering.eq h = λ i. List.◌∷◌ (h refl i) (List.◌∷◌ (sym (h refl) i) List.[])
in_order-swap s t Ordering.gt h = refl

sorted_pair : (s t : String) → sorted (List.◌∷◌ s (List.◌∷◌ t List.[])) ≡ in_order s t (compare s t)
unfolding sorted put_in
sorted_pair s t = ground arith

-- The same conflict, with the aircraft exchanged.
abbrev pub exchanged : {F : Type 0} → Conflict F → Conflict F
exchanged c = record c {
  first_track_id = c.second_track_id;
  second_track_id = c.first_track_id;
  first_callsign = c.second_callsign;
  second_callsign = c.first_callsign;
}

-- A conflict has one key, whichever of its aircraft is named first.
pub key-exchanged : {F : Type 0} (c : Conflict F) → key (exchanged c) ≡ key c
unfolding key
key-exchanged c =
    let s = c.first_track_id in
    let t = c.second_track_id in
    ap pair_key (
      sorted_pair t s
      ∙ ap (in_order t s) (texts-flip t s)
      ∙ sym (in_order-swap s t (compare s t) (path_by_compare s t))
      ∙ sym (sorted_pair s t))
