-- ===== src/Stores/Memory/Cap.antt =====
-- src/stores/memory.rs: the hard cap. The `cap_…` functions keep the most recently active entries.
use armature_ratelimit.DashMap.Entries.{
  mem-lookup, length-keys, mem-take, take-Distinct, sort_by_key-Distinct, lookup-sort_by_key,
  prefix_oldest,
}
use armature_ratelimit.DashMap.Keys.{mem, Distinct, keys, lookup}
use armature_ratelimit.DashMap.Removal.{get-remove_all, len-remove_all, AllPresent}
use armature_ratelimit.DashMap.{DashMap}
use armature_ratelimit.Prelude.{
  ℕ, ◌-◌, ◌≤◌, ◌≡◌, refl, ap, sym, ◌∙◌, min, true, false, Option, none, some, List, [], ◌∷◌, arith,
  Text, text_eq_iff, text_eq_refl, is_some, length, take, length-take, All, sort_by_key,
  sort_by_key-IsSorted, length-sort_by_key, if◌then◌else◌, leb,
}
use armature_ratelimit.Stores.Memory.{stamped, dated, cap_oldest}

abbrev then_find {ℓ} : {V : Type ℓ} → (V → Option ℕ) → Option V → Option ℕ
then_find f none = none
then_find f (some v) = f v

module _ {ℓ} {V : Type ℓ} where
  pub stamped-dated : (f : V → ℕ) (l : List (Text × V)) → stamped f l ≡ dated (λ v. some (f v)) l
  stamped-dated f [] = refl
  stamped-dated f ((k, v) ∷ l) = ap (◌∷◌ (k, f v)) (stamped-dated f l)

  -- What holds of every value that a lookup finds holds of every entry.
  All-lookup :
      {P : V → Type 0} (l : List (Text × V))
      → Distinct (keys l)
      → ((k : Text) (v : V) → lookup k l ≡ some v → P v)
      → All (λ e. P e.1) l
  All-lookup [] d h = tt
  All-lookup ((j, v) ∷ l) d h = (
    h j v (ground (arith, text_eq_refl j)),
    All-lookup l d.1 (λ k w e. h k w (ground (arith, text_eq_iff j k, mem-lookup k l))),
  )

  module _ (f : V → Option ℕ) where
    mem-dated :
        (k : Text) (l : List (Text × V)) → mem k (keys l) ≡ false → mem k (keys (dated f l)) ≡ false
    mem-dated k [] h = refl
    mem-dated k ((j, v) ∷ l) h = ground (arith, mem-dated k l)

    dated-Distinct : (l : List (Text × V)) → Distinct (keys l) → Distinct (keys (dated f l))
    dated-Distinct [] d = tt
    dated-Distinct ((j, v) ∷ l) d = ground (arith, dated-Distinct l d.1, mem-dated j l d.0)

    lookup-dated :
        (k : Text) (l : List (Text × V))
        → Distinct (keys l)
        → lookup k (dated f l) ≡ then_find f (lookup k l)
    lookup-dated k [] d = refl
    lookup-dated k ((j, v) ∷ l) d =
        ground (arith, text_eq_iff j k, lookup-dated k l d.1, mem-lookup j l)

    length-dated :
        (l : List (Text × V)) → All (λ e. is_some (f e.1) ≡ true) l → length (dated f l) ≡ length l
    length-dated [] a = refl
    length-dated ((j, v) ∷ l) a = ground (arith, length-dated l a.1)

-- Every entry has an instant.
abbrev pub Dated : (dash : DashMap) {V : Type 0} → dash.Map V → (V → Option ℕ) → Type 0
Dated dash {V} m f = (k : Text) (v : V) → dash.get m k ≡ some v → is_some (f v) ≡ true

module _ (dash : DashMap) {V : Type 0} (m : dash.Map V) (max : ℕ) (f : V → Option ℕ) where
  abbrev entries : List (Text × ℕ)
  entries = dated f (dash.iter m)

  abbrev sorted : List (Text × ℕ)
  sorted = sort_by_key (λ e. e.1) entries

  abbrev victims : List Text
  victims = keys (take (dash.len m - max) sorted)

  entries-Distinct : Distinct (keys entries)
  entries-Distinct = dated-Distinct f (dash.iter m) (dash.iter-Distinct m)

  lookup-entries : (k : Text) → lookup k entries ≡ then_find f (dash.get m k)
  lookup-entries k = rw (dash.get-iter m k) (lookup-dated f k (dash.iter m) (dash.iter-Distinct m))

  lookup-sorted : (k : Text) → lookup k sorted ≡ then_find f (dash.get m k)
  lookup-sorted k = lookup-sort_by_key (λ e. e.1) k entries entries-Distinct ∙ lookup-entries k

  sorted-Distinct : Distinct (keys sorted)
  sorted-Distinct = sort_by_key-Distinct (λ e. e.1) entries entries-Distinct

  victims-AllPresent : AllPresent dash m victims
  victims-AllPresent k h =
      ground (arith, mem-take (dash.len m - max) k sorted h, mem-lookup k sorted, lookup-sorted k)

  length-sorted : Dated dash m f → length sorted ≡ dash.len m
  length-sorted d =
      length-sort_by_key (λ e. e.1) entries
      ∙ length-dated f (dash.iter m)
          (All-lookup (dash.iter m) (dash.iter-Distinct m) (λ k v e. d k v (dash.get-iter m k ∙ e)))
      ∙ sym (dash.len-iter m)

  -- Where every entry has an instant, the map comes down to exactly the cap.
  len-cap_oldest : Dated dash m f → dash.len (cap_oldest dash m max entries) ≡ min max (dash.len m)
  unfolding cap_oldest
  len-cap_oldest d = ground (
    arith,
    len-remove_all dash m victims (take-Distinct (dash.len m - max) sorted sorted-Distinct)
        victims-AllPresent,
    length-keys (take (dash.len m - max) sorted),
    length-take (dash.len m - max) sorted,
    length-sorted d,
  )

  get-cap_oldest :
      (k : Text)
      → dash.get (cap_oldest dash m max entries) k ≡ (
          if leb (dash.len m) max
          then dash.get m k
          else if mem k victims
          then none
          else dash.get m k)
  unfolding cap_oldest
  get-cap_oldest k = ground (arith, get-remove_all dash m victims k)

  -- What stays is unchanged, and a map within the cap loses nothing.
  cap_oldest_keeps :
      (k : Text)
      → ((v : V) → dash.get (cap_oldest dash m max entries) k ≡ some v → dash.get m k ≡ some v)
        × (dash.len m ≤ max → dash.get (cap_oldest dash m max entries) k ≡ dash.get m k)
  cap_oldest_keeps k =
      (λ v e. ground (arith, get-cap_oldest k), λ h. ground (arith, get-cap_oldest k))

  -- Nothing that the cap evicts was active later than anything that it keeps.
  cap_oldest_oldest :
      (k j : Text) (v w : V) (s t : ℕ)
      → dash.get m k ≡ some v
      → f v ≡ some s
      → dash.get (cap_oldest dash m max entries) k ≡ none
      → dash.get (cap_oldest dash m max entries) j ≡ some w
      → f w ≡ some t
      → s ≤ t
  cap_oldest_oldest k j v w s t p a gone stays b = ground (
    arith,
    get-cap_oldest k,
    get-cap_oldest j,
    lookup-sorted k,
    lookup-sorted j,
    prefix_oldest (λ (x : ℕ). x) (dash.len m - max) k j s t sorted
        (sort_by_key-IsSorted (λ (e : Text × ℕ). e.1) entries) sorted-Distinct,
  )

-- The cap of `cleanup` on one map, if there is one.
module _ (dash : DashMap) {V : Type 0} (m : dash.Map V) (f : V → Option ℕ) where
  unfoldable pub capped : Option ℕ → dash.Map V
  capped none = m
  capped (some max) = cap_oldest dash m max (dated f (dash.iter m))

  pub len-capped : (max : ℕ) → Dated dash m f → dash.len (capped (some max)) ≤ max
  unfolding capped
  len-capped max d = omega (arith, len-cap_oldest dash m max f d)

  pub capped_keeps :
      (o : Option ℕ) (k : Text) (v : V) → dash.get (capped o) k ≡ some v → dash.get m k ≡ some v
  unfolding capped
  capped_keeps none k v h = h
  capped_keeps (some max) k v h = (cap_oldest_keeps dash m max f k).0 v h

  pub capped_within :
      (o : Option ℕ) (k : Text)
      → ((max : ℕ) → o ≡ some max → dash.len m ≤ max)
      → dash.get (capped o) k ≡ dash.get m k
  unfolding capped
  capped_within none k h = refl
  capped_within (some max) k h = (cap_oldest_keeps dash m max f k).1 (h max refl)
