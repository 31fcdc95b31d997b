-- ===== src/DashMap/Keys.antt =====
-- Lists of entries, as `DashMap::iter` yields them: membership, lookup, distinct keys.
use armature_ratelimit.Prelude.{
  Bool, true, false, ◌≡◌, Option, none, some, List, [], ◌∷◌, Text, text_eq, if◌then◌else◌,
}

abbrev pub mem : Text → List Text → Bool
mem k [] = false
mem k (j ∷ l) = if text_eq j k then true else mem k l

abbrev pub Distinct : List Text → Type 0
Distinct [] = Unit
Distinct (k ∷ l) = (mem k l ≡ false) × Distinct l

module _ {ℓ} {V : Type ℓ} where
  abbrev pub keys : List (Text × V) → List Text
  keys [] = []
  keys ((k, v) ∷ l) = k ∷ keys l

  abbrev pub lookup : Text → List (Text × V) → Option V
  lookup k [] = none
  lookup k ((j, v) ∷ l) = if text_eq j k then some v else lookup k l

  abbrev pub keep_if : (V → Bool) → Option V → Option V
  keep_if p none = none
  keep_if p (some v) = if p v then some v else none
