-- ===== src/Base/Texts.antt =====
-- Python's `str`, where the program builds or tests one.
use Prim.Native.Nat.{Ordering}
use Prim.Native.String.{String, ◌++◌, compare}
use mathlib.Core.Option.{Option, none, some}
use mathlib.Core.List.{List, [], ◌∷◌}
use airspace_conformance_pla.Base.Tests.{if◌then◌else◌}
use airspace_conformance_pla.Base.Equality.{◌==◌, string_eq}

-- "".join(parts): what an f-string builds from its parts.
unfoldable pub join : List String → String
join [] = ""
join (s ∷ []) = s
join (s ∷ t ∷ rest) = s ++ join (t ∷ rest)

-- `a or b` at a `str | None`: the empty text is false too.
unfoldable pub or_else : Option String → String → String
or_else none b = b
or_else (some a) b = if a == "" then b else a

-- `a or b` between two values of `str | None`.
unfoldable pub or_optional : Option String → Option String → Option String
or_optional none b = b
or_optional (some a) b = if a == "" then b else some a

-- `sorted` on texts. Python orders them by their characters' numbers.
unfoldable pub put_in : String → List String → List String
put_in s [] = s ∷ []
put_in s (t ∷ rest) =
    let further = put_in s rest in
    elim (compare s t) [ Ordering.gt ↦ t ∷ further | _ ↦ s ∷ t ∷ rest ]

unfoldable pub sorted : List String → List String
unfolding put_in
sorted [] = []
sorted (s ∷ rest) = put_in s (sorted rest)
