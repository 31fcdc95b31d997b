-- ===== src/Stores/RedisScripts/Members.antt =====
-- src/stores/redis.rs: the sorted set of the sliding window script as a log of numbers.
use armature_ratelimit.Float.{Float, IsIeee, exact_bound}
use armature_ratelimit.Headers.Digits.{read_from, IsDigit, to_string_lem}
use armature_ratelimit.Headers.{to_string}
use armature_ratelimit.Prelude.{
  ℕ, suc, ◌^◌, ◌≤◌, ◌<◌, ◌≡◌, refl, ap, sym, ◌∙◌, Bool, true, false, ◌&&◌, not, List, [], ◌∷◌, ◌++◌,
  Text, codes, text_eq, text_eq_iff, arith, ltb, leb, ◌==◌, length, count_if, All, map,
  if◌then◌else◌, Bool-cases, inl, inr,
}
use armature_ratelimit.Redis.Laws.{Alike, outside}
use mathlib.Core.List.{append_assoc}

-- Requests by the milliseconds of their clocks and their numbers in the sequence.
abbrev pub Log : Type 0
Log = List (ℕ × ℕ)

-- `now .. '-' .. seq`
abbrev pub member : ℕ → ℕ → Text
member now seq = to_string now ++ codes "-" ++ to_string seq

-- The numbers that Lua prints in full.
abbrev pub printed : ℕ
printed = 10 ^ 14

-- What `ZREMRANGEBYSCORE key 0 cutoff` leaves.
abbrev pub newer : ℕ → Log → Log
newer cutoff [] = []
newer cutoff (e ∷ log) = let rest = newer cutoff log in if ltb cutoff e.0 then e ∷ rest else rest

-- The number of the entries in the sequence is at most so much, and their clocks are small.
abbrev pub UpTo : ℕ → Log → Type 0
UpTo n = All (λ e. (e.1 ≤ n) × (e.0 < printed))

after_dash : Text → Text
after_dash [] = []
after_dash (c ∷ t) = if c == 45 then t else after_dash t

after_dash_digits : (d t : Text) → All IsDigit d → after_dash (d ++ 45 ∷ t) ≡ t
unfolding after_dash
after_dash_digits [] t a = refl
after_dash_digits (c ∷ d) t a = ground (arith, after_dash_digits d t a.1)

member_seq : (k n : ℕ) → k < printed → n < printed → read_from 0 (after_dash (member k n)) ≡ n
member_seq k n kp np =
    ap (λ t. read_from 0 (after_dash t)) (append_assoc (to_string k) (codes "-") (to_string n))
    ∙ ap (read_from 0)
        (after_dash_digits (to_string k) (to_string n) (to_string_lem k (omega arith)).1)
    ∙ (to_string_lem n (omega arith)).0

-- Members with different numbers in the sequence are different.
member_other :
    (j k m n : ℕ)
    → j < printed
    → k < printed
    → n < printed
    → m < n
    → text_eq (member j m) (member k n) ≡ false
member_other j k m n jp kp np lt = elim (Bool-cases (text_eq (member j m) (member k n))) [
  | inl e ↦ absurd (
      omega (
        arith,
        member_seq j m jp (omega arith),
        member_seq k n kp np,
        ap (λ t. read_from 0 (after_dash t)) ((text_eq_iff (member j m) (member k n)).0 e),
      ))
  | inr e ↦ e
]

module _ {A : Type 0} where
  length-count_if : (l : List A) → length l ≡ count_if (λ _. true) l
  length-count_if [] = refl
  length-count_if (x ∷ l) = ap suc (length-count_if l)

  pub Alike-length : (l l' : List A) → Alike l l' → length l ≡ length l'
  Alike-length l l' h = length-count_if l ∙ h (λ _. true) ∙ sym (length-count_if l')

  pub Alike-cons : (x : A) (l l' : List A) → Alike l l' → Alike (x ∷ l) (x ∷ l')
  Alike-cons x l l' h p = rw (h p) refl

module _ (fl : Float) where
  count_if-outside :
      (low high : fl.F) (p : Text × fl.F → Bool) (l : List (Text × fl.F))
      → count_if p (outside fl low high l)
        ≡ count_if (λ e. p e && not (fl.le low e.1 && fl.le e.1 high)) l
  count_if-outside low high p [] = refl
  count_if-outside low high p (e ∷ l) = ground (arith, count_if-outside low high p l)

  pub Alike-outside :
      (low high : fl.F) (l l' : List (Text × fl.F))
      → Alike l l'
      → Alike (outside fl low high l) (outside fl low high l')
  Alike-outside low high l l' h p =
      count_if-outside low high p l
      ∙ h (λ e. p e && not (fl.le low e.1 && fl.le e.1 high))
      ∙ sym (count_if-outside low high p l')

  -- The entries that stand for a log.
  abbrev pub image : Log → List (Text × fl.F)
  image = map (λ e. (member e.0 e.1, fl.of_u64 e.0))

  pub length-image : (log : Log) → length (image log) ≡ length log
  length-image [] = refl
  length-image (e ∷ log) = ap suc (length-image log)

  -- A member with a new number is new.
  pub image-absent :
      (now n : ℕ) (log : Log)
      → now < printed
      → suc n < printed
      → UpTo n log
      → count_if (λ e. text_eq e.0 (member now (suc n))) (image log) ≡ 0
  image-absent now n [] np mp h = refl
  image-absent now n (e ∷ log) np mp h =
      rw (member_other e.0 now e.1 (suc n) h.0.1 np mp (omega (arith, h.0.0)))
        (image-absent now n log np mp h.1)

  module _ (ieee : IsIeee fl) where
    le_integer :
        (n m : ℕ) → n ≤ exact_bound → m ≤ exact_bound → fl.le (fl.of_u64 n) (fl.of_u64 m) ≡ leb n m
    le_integer n m nb mb = elim (Bool-cases (fl.le (fl.of_u64 n) (fl.of_u64 m))) [
      | inl e ↦
          let le : n ≤ m = omega (
            arith,
            ieee.to_u64_mono (fl.of_u64 n) (fl.of_u64 m) e,
            ieee.to_u64-of_u64 n nb,
            ieee.to_u64-of_u64 m mb,
          ) in
          e ∙ ground arith
      | inr e ↦ elim (Bool-cases (leb n m)) [
        | inl le ↦ absurd (ground (arith, ieee.of_u64_mono n m))
        | inr gt ↦ e ∙ sym gt
      ]
    ]

    pub outside-image :
        (cutoff n : ℕ) (log : Log)
        → cutoff ≤ exact_bound
        → UpTo n log
        → outside fl (fl.of_u64 0) (fl.of_u64 cutoff) (image log) ≡ image (newer cutoff log)
    outside-image cutoff n [] c h = refl
    outside-image cutoff n (e ∷ log) c h =
        let rest = outside-image cutoff n log c h.1 in
        elim (Bool-cases (leb e.0 cutoff)) [
          | inl le ↦
              let lt : ltb cutoff e.0 ≡ false = ground arith in
              rw
                (
                  ieee.of_u64_mono 0 e.0 (omega arith),
                  le_integer e.0 cutoff (omega (arith, h.0.1)) c,
                  le,
                  lt,
                )
                rest
          | inr gt ↦
              let lt : ltb cutoff e.0 ≡ true = ground arith in
              rw
                (
                  ieee.of_u64_mono 0 e.0 (omega arith),
                  le_integer e.0 cutoff (omega (arith, h.0.1)) c,
                  gt,
                  lt,
                )
                (ap (λ l. (member e.0 e.1, fl.of_u64 e.0) ∷ l) rest)
        ]

pub UpTo-newer : (n cutoff : ℕ) (log : Log) → UpTo n log → UpTo n (newer cutoff log)
UpTo-newer n cutoff [] h = tt
UpTo-newer n cutoff (e ∷ log) h = elim (Bool-cases (ltb cutoff e.0)) [
  | inl lt ↦ rw lt (h.0, UpTo-newer n cutoff log h.1)
  | inr ge ↦ rw ge (UpTo-newer n cutoff log h.1)
]

pub UpTo-mono : (n n' : ℕ) (log : Log) → n ≤ n' → UpTo n log → UpTo n' log
UpTo-mono n n' [] le h = tt
UpTo-mono n n' (e ∷ log) le h = ((omega (arith, h.0.0), h.0.1), UpTo-mono n n' log le h.1)

pub length-newer-le : (cutoff : ℕ) (log : Log) → length (newer cutoff log) ≤ length log
length-newer-le cutoff [] = omega arith
length-newer-le cutoff (e ∷ log) = ground (arith, length-newer-le cutoff log)
