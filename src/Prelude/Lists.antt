-- ===== src/Prelude/Lists.antt =====
-- Lists measured by native numbers, and a stable sort by a numeric key.
use Prim.Native.Nat.{ℕ, zero, suc, ◌+◌, ◌≤◌, min}
use mathlib.Core.Bool.{Bool}
use mathlib.Core.List.{List, [], ◌∷◌, ◌++◌, map}
use mathlib.Core.Option.{Option, none, some}
use mathlib.Core.Path.{◌≡◌, refl, ap, ◌∙◌}
use native.Mathlib.Omega.{arith}
use armature_ratelimit.Prelude.Tests.{leb, if◌then◌else◌}

module _ {ℓ} {A : Type ℓ} where
  abbrev pub length : List A → ℕ
  length [] = 0
  length (x ∷ xs) = suc (length xs)

  abbrev pub take : ℕ → List A → List A
  take zero xs = []
  take (suc n) [] = []
  take (suc n) (x ∷ xs) = x ∷ take n xs

  -- The last element: `VecDeque::back`.
  abbrev pub back : List A → Option A
  back [] = none
  back (x ∷ []) = some x
  back (x ∷ y ∷ xs) = back (y ∷ xs)

  abbrev pub to_list : Option A → List A
  to_list none = []
  to_list (some x) = x ∷ []

  abbrev pub All {κ} : (A → Type κ) → List A → Type κ
  All P [] = Unit
  All P (x ∷ xs) = P x × All P xs

  abbrev pub count_if : (A → Bool) → List A → ℕ
  count_if p [] = 0
  count_if p (x ∷ xs) = if p x then suc (count_if p xs) else count_if p xs

  pub length-append : (xs ys : List A) → length (xs ++ ys) ≡ length xs + length ys
  length-append [] ys = omega arith
  length-append (x ∷ xs) ys = omega (arith, length-append xs ys)

  pub length-take : (n : ℕ) (xs : List A) → length (take n xs) ≡ min n (length xs)
  length-take zero xs = omega arith
  length-take (suc n) [] = omega arith
  length-take (suc n) (x ∷ xs) = omega (arith, length-take n xs)

  -- A prefix that is long enough is the whole list.
  pub take_of_length-le : (n : ℕ) (l : List A) → length l ≤ n → take n l ≡ l
  take_of_length-le zero [] short = refl
  take_of_length-le (suc n) [] short = refl
  take_of_length-le zero (a ∷ l) short = absurd (omega arith)
  take_of_length-le (suc n) (a ∷ l) short = rw (take_of_length-le n l (omega arith))

  pub count_if-append :
      (p : A → Bool) (xs ys : List A) → count_if p (xs ++ ys) ≡ count_if p xs + count_if p ys
  count_if-append p [] ys = omega arith
  count_if-append p (x ∷ xs) ys = ground (arith, count_if-append p xs ys)

  pub count_if-le : (p : A → Bool) (xs : List A) → count_if p xs ≤ length xs
  count_if-le p [] = omega arith
  count_if-le p (x ∷ xs) = ground (arith, count_if-le p xs)

  -- `slice::sort_by_key`: stable, ascending.
  abbrev pub insert_by_key : (A → ℕ) → A → List A → List A
  insert_by_key f x [] = x ∷ []
  insert_by_key f x (y ∷ l) = if leb (f x) (f y) then x ∷ y ∷ l else y ∷ insert_by_key f x l

  unfoldable pub sort_by_key : (A → ℕ) → List A → List A
  sort_by_key f [] = []
  sort_by_key f (x ∷ l) = insert_by_key f x (sort_by_key f l)

  abbrev pub IsSorted : (A → ℕ) → List A → Type 0
  IsSorted f [] = Unit
  IsSorted f (x ∷ l) = All (λ y. f x ≤ f y) l × IsSorted f l

  All-map {κ ι} :
      {P : A → Type κ} {Q : A → Type ι} (l : List A) → ((x : A) → P x → Q x) → All P l → All Q l
  All-map [] h a = tt
  All-map (x ∷ l) h a = (h x a.0, All-map l h a.1)

  All-insert_by_key :
      (f : A → ℕ) (n : ℕ) (x : A) (l : List A)
      → n ≤ f x
      → All (λ y. n ≤ f y) l
      → All (λ y. n ≤ f y) (insert_by_key f x l)
  All-insert_by_key f n x [] h a = (h, tt)
  All-insert_by_key f n x (y ∷ l) h a = ground (arith, All-insert_by_key f n x l h a.1)

  insert_by_key-IsSorted :
      (f : A → ℕ) (x : A) (l : List A) → IsSorted f l → IsSorted f (insert_by_key f x l)
  insert_by_key-IsSorted f x [] s = (tt, tt)
  insert_by_key-IsSorted f x (y ∷ l) s = ground (
    arith,
    insert_by_key-IsSorted f x l s.1,
    All-insert_by_key f (f y) x l,
    All-map {P = λ z. f y ≤ f z} {Q = λ z. f x ≤ f z} l,
  )

  pub sort_by_key-IsSorted : (f : A → ℕ) (l : List A) → IsSorted f (sort_by_key f l)
  unfolding sort_by_key
  sort_by_key-IsSorted f [] = tt
  sort_by_key-IsSorted f (x ∷ l) =
      insert_by_key-IsSorted f x (sort_by_key f l) (sort_by_key-IsSorted f l)

  length-insert_by_key :
      (f : A → ℕ) (x : A) (l : List A) → length (insert_by_key f x l) ≡ suc (length l)
  length-insert_by_key f x [] = refl
  length-insert_by_key f x (y ∷ l) = ground (arith, length-insert_by_key f x l)

  pub length-sort_by_key : (f : A → ℕ) (l : List A) → length (sort_by_key f l) ≡ length l
  unfolding sort_by_key
  length-sort_by_key f [] = refl
  length-sort_by_key f (x ∷ l) =
      length-insert_by_key f x (sort_by_key f l) ∙ ap suc (length-sort_by_key f l)

pub length-map {ℓ κ} :
    {A : Type ℓ} {B : Type κ} (f : A → B) (xs : List A) → length (map f xs) ≡ length xs
length-map f [] = refl
length-map f (x ∷ xs) = ap suc (length-map f xs)

-- Times in order, none before `from`.
abbrev pub Ascending : ℕ → List ℕ → Type 0
Ascending from [] = Unit
Ascending from (t ∷ ts) = (from ≤ t) × Ascending t ts
