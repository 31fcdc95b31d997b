-- ===== src/Algorithms/Eviction.antt =====
-- src/algorithms/mod.rs: what `evict_oldest_batch` removes and what it leaves, and the bound that
-- `make_room` gives.
use armature_ratelimit.Algorithms.{
  eviction_batch_size, rank, select_oldest, evict_oldest_batch, make_room,
}
use armature_ratelimit.DashMap.{DashMap}
use armature_ratelimit.DashMap.Entries.{
  mem-lookup, length-keys, mem-take, take-Distinct, mem-sort_by_key, sort_by_key-Distinct,
  lookup-sort_by_key, prefix_oldest,
}
use armature_ratelimit.DashMap.Keys.{mem, Distinct, keys, lookup}
use armature_ratelimit.DashMap.Removal.{remove_all, get-remove_all, len-remove_all, AllPresent}
use armature_ratelimit.Prelude.{
  ◌≢◌, ℕ, ◌+◌, ◌≤◌, ◌<◌, ◌≡◌, refl, ◌∙◌, sym, ap, inl, inr, min, max, true, false, Option, none,
  some, List, [], ◌∷◌, map, arith, Text, length, length-map, take, length-take, take_of_length-le,
  ◌||◌, ◌/◌, ltb, ◌==◌, if◌then◌else◌, sort_by_key, sort_by_key-IsSorted, length-sort_by_key,
  is_some, map_option, Bool-cases, Option-cases,
}

module _ {ℓ κ} {V : Type ℓ} {W : Type κ} (f : V → W) where
  abbrev aged : List (Text × V) → List (Text × W)
  aged = map (λ e. (e.0, f e.1))

  keys-aged : (l : List (Text × V)) → keys (aged l) ≡ keys l
  keys-aged [] = refl
  keys-aged ((k, v) ∷ l) = ap (◌∷◌ k) (keys-aged l)

  lookup-aged : (k : Text) (l : List (Text × V)) → lookup k (aged l) ≡ map_option f (lookup k l)
  lookup-aged k [] = refl
  lookup-aged k ((j, v) ∷ l) = ground (arith, lookup-aged k l)

mem-keys-select :
    (n : ℕ) (k : Text) (l : List (Text × Option ℕ))
    → mem k (keys (select_oldest n l)) ≡ mem k (keys l)
mem-keys-select n k l = ground (arith, mem-sort_by_key (λ e. rank e.1) k l)

select_oldest-Distinct :
    (n : ℕ) (l : List (Text × Option ℕ)) → Distinct (keys l) → Distinct (keys (select_oldest n l))
select_oldest-Distinct n l d = ground (arith, sort_by_key-Distinct (λ e. rank e.1) l d)

length-select_oldest : (n : ℕ) (l : List (Text × Option ℕ)) → length (select_oldest n l) ≡ length l
length-select_oldest n l = ground (arith, length-sort_by_key (λ e. rank e.1) l)

module _ (dash : DashMap) {V : Type 0} (m : dash.Map V) (batch : ℕ) (age : V → Option ℕ) where
  -- The entries with their ages, the number that goes, and the keys that go.
  abbrev entries : List (Text × Option ℕ)
  entries = aged age (dash.iter m)

  abbrev amount : ℕ
  amount = min batch (length entries)

  abbrev victims : List Text
  victims = keys (take amount (select_oldest amount entries))

  entries-Distinct : Distinct (keys entries)
  entries-Distinct = rw (keys-aged age (dash.iter m)) (dash.iter-Distinct m)

  lookup-entries : (k : Text) → lookup k entries ≡ map_option age (dash.get m k)
  lookup-entries k = rw (dash.get-iter m k) (lookup-aged age k (dash.iter m))

  victims-Distinct : Distinct victims
  victims-Distinct =
      take-Distinct amount (select_oldest amount entries)
        (select_oldest-Distinct amount entries entries-Distinct)

  victims-AllPresent : AllPresent dash m victims
  victims-AllPresent k h = ground (
    arith,
    mem-take amount k (select_oldest amount entries) h,
    mem-keys-select amount k entries,
    mem-lookup k entries,
    lookup-entries k,
  )

  length-entries : length entries ≡ dash.len m
  length-entries = length-map (λ e. (e.0, age e.1)) (dash.iter m) ∙ sym (dash.len-iter m)

  length-victims : length victims ≡ min batch (dash.len m)
  length-victims = omega (
    arith,
    length-keys (take amount (select_oldest amount entries)),
    length-take amount (select_oldest amount entries),
    length-select_oldest amount entries,
    length-entries,
  )

  evict-remove_all : batch ≢ 0 → evict_oldest_batch dash m batch age ≡ remove_all dash m victims
  unfolding evict_oldest_batch
  evict-remove_all h = ground arith

  -- `evict_oldest_batch` removes exactly `batch` entries, or all of them if there are fewer.
  len-evict_oldest_batch :
      dash.len (evict_oldest_batch dash m batch age) + min batch (dash.len m) ≡ dash.len m
  unfolding evict_oldest_batch
  len-evict_oldest_batch =
      ground
        (arith, len-remove_all dash m victims victims-Distinct victims-AllPresent, length-victims)

  -- What stays is unchanged.
  get-evict_oldest_batch :
      (k : Text)
      → dash.get (evict_oldest_batch dash m batch age) k
        ≡ (if batch == 0 then dash.get m k else if mem k victims then none else dash.get m k)
  unfolding evict_oldest_batch
  get-evict_oldest_batch k = ground (arith, get-remove_all dash m victims k)

  mem-victims_all :
      (k : Text) (v : V)
      → ltb amount (length entries) ≡ false
      → dash.get m k ≡ some v
      → mem k victims ≡ true
  mem-victims_all k v h e =
      ground (arith, take_of_length-le amount entries, mem-lookup k entries, lookup-entries k)

  victims_oldest :
      (k j : Text) (v w : V)
      → ltb amount (length entries) ≡ true
      → mem k victims ≡ true
      → mem j victims ≡ false
      → dash.get m k ≡ some v
      → dash.get m j ≡ some w
      → rank (age v) ≤ rank (age w)
  victims_oldest k j v w h a b p q = ground (
    arith,
    sort_by_key-IsSorted (λ (e : Text × Option ℕ). rank e.1) entries,
    prefix_oldest rank amount k j (age v) (age w) (sort_by_key (λ e. rank e.1) entries),
    sort_by_key-Distinct (λ e. rank e.1) entries entries-Distinct,
    lookup-sort_by_key (λ e. rank e.1) k entries entries-Distinct,
    lookup-sort_by_key (λ e. rank e.1) j entries entries-Distinct,
    lookup-entries k,
    lookup-entries j,
  )

  -- No entry that `evict_oldest_batch` removes was active later than an entry that it leaves.
  evict_oldest_batch_oldest :
      (k j : Text) (v w : V)
      → dash.get m k ≡ some v
      → dash.get (evict_oldest_batch dash m batch age) k ≡ none
      → dash.get (evict_oldest_batch dash m batch age) j ≡ some w
      → rank (age v) ≤ rank (age w)
  evict_oldest_batch_oldest k j v w p gone stays = elim (Bool-cases (ltb amount (length entries))) [
    | inl some_stay ↦ ground (
      arith,
      get-evict_oldest_batch k,
      get-evict_oldest_batch j,
      victims_oldest k j v w some_stay,
    )
    | inr all_go ↦
        ground
          (arith, get-evict_oldest_batch k, get-evict_oldest_batch j, mem-victims_all j w all_go)
  ]

module _ (dash : DashMap) {V : Type 0} (m : dash.Map V) (max_keys : ℕ) (age : V → Option ℕ) where
  -- With a positive cap, a key that is new finds room below the cap.
  len-make_room :
      (key : Text)
      → 0 < max_keys
      → dash.len m ≤ max_keys
      → dash.get m key ≡ none
      → dash.len (make_room dash m max_keys age key) < max_keys
  unfolding make_room eviction_batch_size
  len-make_room key h b new = ground (
    arith,
    dash.contains_key_lem m key,
    len-evict_oldest_batch dash m (max (max_keys / 64) 1) age,
  )

  -- A key that is there, or a map below the cap, evicts nothing.
  pub make_room_id :
      (key : Text)
      → is_some (dash.get m key) || ltb (dash.len m) max_keys ≡ true
      → make_room dash m max_keys age key ≡ m
  unfolding make_room
  make_room_id key h = ground (arith, dash.contains_key_lem m key)

  -- `make_room` never invents or changes an entry.
  pub get-make_room :
      (key k : Text) (v : V)
      → dash.get (make_room dash m max_keys age key) k ≡ some v
      → dash.get m k ≡ some v
  unfolding make_room
  get-make_room key k v h =
      ground (arith, get-evict_oldest_batch dash m (eviction_batch_size max_keys) age k)

  -- Making room does not touch the entry of the key that it is made for.
  pub get-make_room_self :
      (key : Text) → dash.get (make_room dash m max_keys age key) key ≡ dash.get m key
  get-make_room_self key = elim (Option-cases (dash.get m key)) [
    | inr (s, e) ↦ ground (arith, make_room_id key)
    | inl e ↦ elim (Option-cases (dash.get (make_room dash m max_keys age key) key)) [
      | inl e' ↦ cc
      | inr (s, e') ↦ absurd (ground (arith, get-make_room key key s e'))
    ]
  ]

  -- So a map within a positive cap stays within it when the key's entry is written.
  pub len-insert-make_room :
      (key : Text) (v : V)
      → 0 < max_keys
      → dash.len m ≤ max_keys
      → dash.len (dash.insert (make_room dash m max_keys age key) key v) ≤ max_keys
  len-insert-make_room key v h b = elim (Option-cases (dash.get m key)) [
    | inl new ↦ ground (
      arith,
      dash.len-insert (make_room dash m max_keys age key) key v,
      len-make_room key h b new,
    )
    | inr (s, e) ↦
        ground (arith, dash.len-insert (make_room dash m max_keys age key) key v, make_room_id key)
  ]
