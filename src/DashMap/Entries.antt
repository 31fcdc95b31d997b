-- ===== src/DashMap/Entries.antt =====
-- Lists of entries with distinct keys: sorting them, taking a prefix, and looking a key up.
use armature_ratelimit.DashMap.Keys.{mem, Distinct, keys, lookup}
use armature_ratelimit.Prelude.{
  ℕ, zero, suc, ◌≤◌, ◌≡◌, refl, ◌∙◌, true, false, some, List, [], ◌∷◌, arith, Text, text_eq_iff,
  is_some, length, take, All, insert_by_key, sort_by_key, IsSorted,
}

module _ {ℓ} {V : Type ℓ} where
  pub mem-lookup : (k : Text) (l : List (Text × V)) → mem k (keys l) ≡ is_some (lookup k l)
  mem-lookup k [] = refl
  mem-lookup k ((j, v) ∷ l) = ground (arith, mem-lookup k l)

  pub length-keys : (l : List (Text × V)) → length (keys l) ≡ length l
  length-keys [] = refl
  length-keys ((j, v) ∷ l) = omega (arith, length-keys l)

  pub mem-take :
      (n : ℕ) (k : Text) (l : List (Text × V))
      → mem k (keys (take n l)) ≡ true
      → mem k (keys l) ≡ true
  mem-take zero k l h = cc
  mem-take (suc n) k [] h = cc
  mem-take (suc n) k ((j, v) ∷ l) h = ground (arith, mem-take n k l)

  pub take-Distinct : (n : ℕ) (l : List (Text × V)) → Distinct (keys l) → Distinct (keys (take n l))
  take-Distinct zero l d = tt
  take-Distinct (suc n) [] d = tt
  take-Distinct (suc n) ((j, v) ∷ l) d = ground (arith, take-Distinct n l d.1, mem-take n j l)

  module _ (f : Text × V → ℕ) where
    mem-insert_by_key :
        (k j : Text) (v : V) (l : List (Text × V))
        → mem k (keys (insert_by_key f (j, v) l)) ≡ mem k (keys ((j, v) ∷ l))
    mem-insert_by_key k j v [] = refl
    mem-insert_by_key k j v ((i, w) ∷ l) = ground (arith, mem-insert_by_key k j v l)

    pub mem-sort_by_key :
        (k : Text) (l : List (Text × V)) → mem k (keys (sort_by_key f l)) ≡ mem k (keys l)
    unfolding sort_by_key
    mem-sort_by_key k [] = refl
    mem-sort_by_key k ((j, v) ∷ l) =
        ground (arith, mem-insert_by_key k j v (sort_by_key f l), mem-sort_by_key k l)

    insert_by_key-Distinct :
        (j : Text) (v : V) (l : List (Text × V))
        → mem j (keys l) ≡ false
        → Distinct (keys l)
        → Distinct (keys (insert_by_key f (j, v) l))
    insert_by_key-Distinct j v [] h d = (refl, tt)
    insert_by_key-Distinct j v ((i, w) ∷ l) h d = ground (
      arith,
      text_eq_iff i j,
      text_eq_iff j i,
      insert_by_key-Distinct j v l,
      mem-insert_by_key i j v l,
    )

    pub sort_by_key-Distinct :
        (l : List (Text × V)) → Distinct (keys l) → Distinct (keys (sort_by_key f l))
    unfolding sort_by_key
    sort_by_key-Distinct [] d = tt
    sort_by_key-Distinct ((j, v) ∷ l) d =
        insert_by_key-Distinct j v (sort_by_key f l) (mem-sort_by_key j l ∙ d.0)
          (sort_by_key-Distinct l d.1)

    lookup-insert_by_key :
        (k j : Text) (v : V) (l : List (Text × V))
        → mem j (keys l) ≡ false
        → lookup k (insert_by_key f (j, v) l) ≡ lookup k ((j, v) ∷ l)
    lookup-insert_by_key k j v [] h = refl
    lookup-insert_by_key k j v ((i, w) ∷ l) h =
        ground
          (arith, text_eq_iff i j, text_eq_iff i k, text_eq_iff j k, lookup-insert_by_key k j v l)

    pub lookup-sort_by_key :
        (k : Text) (l : List (Text × V))
        → Distinct (keys l)
        → lookup k (sort_by_key f l) ≡ lookup k l
    unfolding sort_by_key
    lookup-sort_by_key k [] d = refl
    lookup-sort_by_key k ((j, v) ∷ l) d = ground (
      arith,
      lookup-insert_by_key k j v (sort_by_key f l),
      mem-sort_by_key j l,
      lookup-sort_by_key k l d.1,
    )

module _ {V : Type 0} (f : V → ℕ) where
  ge-lookup :
      (n : ℕ) (k : Text) (v : V) (l : List (Text × V))
      → All (λ e. n ≤ f e.1) l
      → lookup k l ≡ some v
      → n ≤ f v
  ge-lookup n k v [] a h = cc
  ge-lookup n k v ((j, w) ∷ l) a h = ground (arith, ge-lookup n k v l a.1)

  -- In a sorted list, a key in the first `n` entries has at most the sort key of one behind them.
  pub prefix_oldest :
      (n : ℕ) (k j : Text) (v w : V) (l : List (Text × V))
      → IsSorted (λ e. f e.1) l
      → Distinct (keys l)
      → mem k (keys (take n l)) ≡ true
      → mem j (keys (take n l)) ≡ false
      → lookup k l ≡ some v
      → lookup j l ≡ some w
      → f v ≤ f w
  prefix_oldest zero k j v w l s d m a p q = cc
  prefix_oldest (suc n) k j v w [] s d m a p q = cc
  prefix_oldest (suc n) k j v w ((i, x) ∷ l) s d m a p q =
      ground (arith, ge-lookup (f x) j w l s.0, prefix_oldest n k j v w l s.1 d.1)
