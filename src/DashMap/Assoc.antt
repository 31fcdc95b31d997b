-- ===== src/DashMap/Assoc.antt =====
-- The interface of DashMap.antt can be met: an association list without repeated keys.
use armature_ratelimit.DashMap.Keys.{mem, Distinct, keys, lookup, keep_if}
use armature_ratelimit.DashMap.{DashMap}
use armature_ratelimit.Prelude.{
  suc, ◌≤◌, ◌≡◌, refl, Bool, false, none, some, List, [], ◌∷◌, arith, Text, text_eq, text_eq_iff,
  is_some, length, if◌then◌else◌,
}

module _ {V : Type 0} where
  abbrev pub put : List (Text × V) → Text → V → List (Text × V)
  put [] k v = (k, v) ∷ []
  put ((j, w) ∷ l) k v = if text_eq j k then (j, v) ∷ l else (j, w) ∷ put l k v

  abbrev pub drop_key : List (Text × V) → Text → List (Text × V)
  drop_key [] k = []
  drop_key ((j, w) ∷ l) k = if text_eq j k then l else (j, w) ∷ drop_key l k

  abbrev pub sift : (V → Bool) → List (Text × V) → List (Text × V)
  sift p [] = []
  sift p ((j, w) ∷ l) = if p w then (j, w) ∷ sift p l else sift p l

  pub lookup-put :
      (l : List (Text × V)) (k : Text) (v : V) (j : Text)
      → lookup j (put l k v) ≡ (if text_eq k j then some v else lookup j l)
  lookup-put [] k v j = refl
  lookup-put ((i, w) ∷ l) k v j =
      ground (arith, text_eq_iff k j, text_eq_iff i k, text_eq_iff i j, lookup-put l k v j)

  pub lookup-absent : (l : List (Text × V)) (k : Text) → mem k (keys l) ≡ false → lookup k l ≡ none
  lookup-absent [] k h = refl
  lookup-absent ((i, w) ∷ l) k h = ground (arith, lookup-absent l k)

  pub lookup-drop_key :
      (l : List (Text × V)) (k j : Text)
      → Distinct (keys l)
      → lookup j (drop_key l k) ≡ (if text_eq k j then none else lookup j l)
  lookup-drop_key [] k j d = ground arith
  lookup-drop_key ((i, w) ∷ l) k j d = ground (
    arith,
    text_eq_iff k j,
    text_eq_iff i k,
    text_eq_iff i j,
    lookup-drop_key l k j d.1,
    lookup-absent l i d.0,
  )

  pub lookup-sift :
      (p : V → Bool) (l : List (Text × V)) (k : Text)
      → Distinct (keys l)
      → lookup k (sift p l) ≡ keep_if p (lookup k l)
  lookup-sift p [] k d = refl
  lookup-sift p ((i, w) ∷ l) k d =
      ground (arith, text_eq_iff i k, lookup-sift p l k d.1, lookup-absent l i d.0)

  mem-put :
      (l : List (Text × V)) (k : Text) (v : V) (j : Text)
      → text_eq k j ≡ false
      → mem j (keys l) ≡ false
      → mem j (keys (put l k v)) ≡ false
  mem-put [] k v j h a = ground arith
  mem-put ((i, w) ∷ l) k v j h a = ground (arith, mem-put l k v j h)

  mem-drop_key :
      (l : List (Text × V)) (k j : Text)
      → mem j (keys l) ≡ false
      → mem j (keys (drop_key l k)) ≡ false
  mem-drop_key [] k j a = refl
  mem-drop_key ((i, w) ∷ l) k j a = ground (arith, mem-drop_key l k j)

  mem-sift :
      (p : V → Bool) (l : List (Text × V)) (j : Text)
      → mem j (keys l) ≡ false
      → mem j (keys (sift p l)) ≡ false
  mem-sift p [] j a = refl
  mem-sift p ((i, w) ∷ l) j a = ground (arith, mem-sift p l j)

  pub put-Distinct :
      (l : List (Text × V)) (k : Text) (v : V) → Distinct (keys l) → Distinct (keys (put l k v))
  put-Distinct [] k v d = (refl, tt)
  put-Distinct ((i, w) ∷ l) k v d =
      ground (arith, text_eq_iff i k, text_eq_iff k i, put-Distinct l k v d.1, mem-put l k v i)

  pub drop_key-Distinct :
      (l : List (Text × V)) (k : Text) → Distinct (keys l) → Distinct (keys (drop_key l k))
  drop_key-Distinct [] k d = tt
  drop_key-Distinct ((i, w) ∷ l) k d =
      ground (arith, drop_key-Distinct l k d.1, mem-drop_key l k i d.0)

  pub sift-Distinct :
      (p : V → Bool) (l : List (Text × V)) → Distinct (keys l) → Distinct (keys (sift p l))
  sift-Distinct p [] d = tt
  sift-Distinct p ((i, w) ∷ l) d = ground (arith, sift-Distinct p l d.1, mem-sift p l i d.0)

  pub length-put :
      (l : List (Text × V)) (k : Text) (v : V)
      → length (put l k v) ≡ (if is_some (lookup k l) then length l else suc (length l))
  length-put [] k v = refl
  length-put ((i, w) ∷ l) k v = ground (arith, length-put l k v)

  pub length-drop_key :
      (l : List (Text × V)) (k : Text)
      → length l
        ≡ (if is_some (lookup k l) then suc (length (drop_key l k)) else length (drop_key l k))
  length-drop_key [] k = refl
  length-drop_key ((i, w) ∷ l) k = ground (arith, length-drop_key l k)

  pub length-sift-le : (p : V → Bool) (l : List (Text × V)) → length (sift p l) ≤ length l
  length-sift-le p [] = omega arith
  length-sift-le p ((i, w) ∷ l) = ground (arith, length-sift-le p l)

abbrev pub Entries : Type 0 → Type 0
Entries V = (l : List (Text × V)) × Distinct (keys l)

abbrev pub assoc_map : DashMap
assoc_map = record {
  Map = Entries;
  empty = ([], tt);
  get = λ m k. lookup k m.0;
  contains_key = λ m k. is_some (lookup k m.0);
  insert = λ m k v. (put m.0 k v, put-Distinct m.0 k v m.1);
  remove = λ m k. (drop_key m.0 k, drop_key-Distinct m.0 k m.1);
  retain = λ p m. (sift p m.0, sift-Distinct p m.0 m.1);
  iter = λ m. m.0;
  len = λ m. length m.0;
  get-empty = λ k. refl;
  contains_key_lem = λ m k. refl;
  get-insert = λ m k v j. lookup-put m.0 k v j;
  get-remove = λ m k j. lookup-drop_key m.0 k j m.1;
  get-retain = λ p m k. lookup-sift p m.0 k m.1;
  len-empty = refl;
  len-insert = λ m k v. length-put m.0 k v;
  len-remove = λ m k. length-drop_key m.0 k;
  len-retain-le = λ p m. length-sift-le p m.0;
  len-iter = λ m. refl;
  get-iter = λ m k. refl;
  iter-Distinct = λ m. m.1;
}
