-- ===== src/DashMap.antt =====
-- The concurrent hash map of the `dashmap` package, which the repository calls and does not
-- contain: its operations, and what its documentation says of one call at a time.
pub mod Keys
pub mod Entries
pub mod Assoc
pub mod Removal
use Keys.{Distinct, keys, lookup, keep_if}
use armature_ratelimit.Prelude.{
  ℕ, suc, ◌≤◌, ◌≡◌, Bool, Option, none, some, List, Text, text_eq, is_some, length, if◌then◌else◌,
}

pub record DashMap : Type 1 where
  pub Map : Type 0 → Type 0
  pub empty : {V : Type 0} → Map V
  pub get : {V : Type 0} → Map V → Text → Option V
  pub contains_key : {V : Type 0} → Map V → Text → Bool
  pub insert : {V : Type 0} → Map V → Text → V → Map V
  pub remove : {V : Type 0} → Map V → Text → Map V
  pub retain : {V : Type 0} → (V → Bool) → Map V → Map V
  pub iter : {V : Type 0} → Map V → List (Text × V)
  pub len : {V : Type 0} → Map V → ℕ
  pub get-empty : {V : Type 0} (k : Text) → get (empty {V = V}) k ≡ none
  pub contains_key_lem : {V : Type 0} (m : Map V) (k : Text) → contains_key m k ≡ is_some (get m k)
  pub get-insert :
      {V : Type 0} (m : Map V) (k : Text) (v : V) (j : Text)
      → get (insert m k v) j ≡ (if text_eq k j then some v else get m j)
  pub get-remove :
      {V : Type 0} (m : Map V) (k j : Text)
      → get (remove m k) j ≡ (if text_eq k j then none else get m j)
  pub get-retain :
      {V : Type 0} (p : V → Bool) (m : Map V) (k : Text) → get (retain p m) k ≡ keep_if p (get m k)
  pub len-empty : {V : Type 0} → len (empty {V = V}) ≡ 0
  pub len-insert :
      {V : Type 0} (m : Map V) (k : Text) (v : V)
      → len (insert m k v) ≡ (if is_some (get m k) then len m else suc (len m))
  pub len-remove :
      {V : Type 0} (m : Map V) (k : Text)
      → len m ≡ (if is_some (get m k) then suc (len (remove m k)) else len (remove m k))
  pub len-retain-le : {V : Type 0} (p : V → Bool) (m : Map V) → len (retain p m) ≤ len m
  pub len-iter : {V : Type 0} (m : Map V) → len m ≡ length (iter m)
  pub get-iter : {V : Type 0} (m : Map V) (k : Text) → get m k ≡ lookup k (iter m)
  pub iter-Distinct : {V : Type 0} (m : Map V) → Distinct (keys (iter m))
