-- ===== src/DashMap/Removal.antt =====
-- Removing a list of keys from a map, one `remove` after the other.
use armature_ratelimit.DashMap.{DashMap}
use armature_ratelimit.DashMap.Keys.{mem, Distinct}
use armature_ratelimit.Prelude.{
  ◌+◌, ◌≡◌, refl, true, none, List, [], ◌∷◌, arith, Text, text_eq_iff, is_some, length,
  if◌then◌else◌,
}

module _ (dash : DashMap) {V : Type 0} where
  open dash use {Map, get, remove, len, get-remove, len-remove, iter, get-iter}

  pub remove_all : Map V → List Text → Map V
  remove_all m [] = m
  remove_all m (k ∷ ks) = remove_all (remove m k) ks

  pub get-remove_all :
      (m : Map V) (ks : List Text) (j : Text)
      → get (remove_all m ks) j ≡ (if mem j ks then none else get m j)
  unfolding remove_all
  get-remove_all m [] j = refl
  get-remove_all m (k ∷ ks) j = ground (arith, get-remove_all (remove m k) ks j, get-remove m k j)

  abbrev pub AllPresent : Map V → List Text → Type 0
  AllPresent m ks = (k : Text) → mem k ks ≡ true → is_some (get m k) ≡ true

  tail-AllPresent :
      (m : Map V) (k : Text) (ks : List Text)
      → Distinct (k ∷ ks)
      → AllPresent m (k ∷ ks)
      → AllPresent (remove m k) ks
  tail-AllPresent m k ks d p j h = ground (arith, get-remove m k j, text_eq_iff k j, p j)

  -- Removing distinct keys that are there makes the map shorter by their number.
  pub len-remove_all :
      (m : Map V) (ks : List Text)
      → Distinct ks
      → AllPresent m ks
      → len (remove_all m ks) + length ks ≡ len m
  unfolding remove_all
  len-remove_all m [] d p = omega arith
  len-remove_all m (k ∷ ks) d p = ground (
    arith,
    len-remove m k,
    p k,
    text_eq_iff k k,
    len-remove_all (remove m k) ks d.1 (tail-AllPresent m k ks d p),
  )
