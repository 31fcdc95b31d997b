-- ===== src/Headers/Digits.antt =====
-- src/error.rs: the numbers in the headers, read back.
use armature_ratelimit.Headers.{RateLimitHeaders, digits, to_string, to_header_pairs}
use armature_ratelimit.Prelude.{
  ℕ, zero, suc, ◌+◌, ◌-◌, ◌*◌, ◌/◌, ◌%◌, ◌^◌, ◌≤◌, ◌<◌, ◌≡◌, refl, ap, sym, subst, ◌∙◌, true, false,
  [], ◌∷◌, ◌++◌, All, Text, arith, leb, Bool-cases, inl, inr, Option-cases, to_list, codes, map,
}

-- Decimal digits, the first one leading, after those that made `acc`.
abbrev pub read_from : ℕ → Text → ℕ
read_from acc [] = acc
read_from acc (c ∷ t) = read_from (acc * 10 + (c - 48)) t

abbrev pub IsDigit : ℕ → Type 0
IsDigit c = (48 ≤ c) × (c ≤ 57)

-- The numbers with at most so many digits.
abbrev limit_of : ℕ → ℕ
limit_of zero = 1
limit_of (suc n) = 10 * limit_of n

read_from-append :
    (acc c : ℕ) (t : Text) → read_from acc (t ++ c ∷ []) ≡ read_from acc t * 10 + (c - 48)
read_from-append acc c [] = refl
read_from-append acc c (d ∷ t) = read_from-append (acc * 10 + (d - 48)) c t

All-snoc : (c : ℕ) (t : Text) → All IsDigit t → IsDigit c → All IsDigit (t ++ c ∷ [])
All-snoc c [] a d = (d, tt)
All-snoc c (x ∷ t) a d = (a.0, All-snoc c t a.1 d)

digits_more :
    (fuel n : ℕ)
    → leb 10 n ≡ true
    → digits (suc fuel) n ≡ digits fuel (n / 10) ++ (48 + n % 10) ∷ []
unfolding digits
digits_more fuel n e = ground arith

digits_last : (fuel n : ℕ) → leb 10 n ≡ false → digits (suc fuel) n ≡ (48 + n) ∷ []
unfolding digits
digits_last fuel n e = ground arith

read_from-digits : (fuel n : ℕ) → n < limit_of fuel → read_from 0 (digits fuel n) ≡ n
unfolding digits
read_from-digits zero n h = omega arith
read_from-digits (suc fuel) n h = elim (Bool-cases (leb 10 n)) [
  | inl e ↦ ground (
    arith,
    digits_more fuel n e,
    read_from-append 0 (48 + n % 10) (digits fuel (n / 10)),
    read_from-digits fuel (n / 10),
  )
  | inr e ↦ ap (read_from 0) (digits_last fuel n e) ∙ omega arith
]

digits-All : (fuel n : ℕ) → All IsDigit (digits fuel n)
unfolding digits
digits-All zero n = tt
digits-All (suc fuel) n = elim (Bool-cases (leb 10 n)) [
  | inl e ↦ subst (All IsDigit) (sym (digits_more fuel n e)) (
      All-snoc (48 + n % 10) (digits fuel (n / 10)) (digits-All fuel (n / 10))
        (omega arith, omega arith))
  | inr e ↦ subst (All IsDigit) (sym (digits_last fuel n e)) ((omega arith, ground arith), tt)
]

pub to_string_lem :
    (n : ℕ) → n < 10 ^ 20 → (read_from 0 (to_string n) ≡ n) × All IsDigit (to_string n)
unfolding to_string
to_string_lem n h = (read_from-digits 20 n h, digits-All 20 n)

-- A header with its number read back.
abbrev pub read_pair : Text × Text → Text × ℕ
read_pair p = (p.0, read_from 0 p.1)

-- With every number below 10^20, the header pairs are the limit, the remaining count, the reset
-- time and, if there is one, the time to retry after, under their names and in this order: each
-- value is made of decimal digits and reads back as its number.
pub to_header_pairs_lem :
    (h : RateLimitHeaders)
    → h.limit < 10 ^ 20
    → h.remaining < 10 ^ 20
    → h.reset < 10 ^ 20
    → All (λ r. r < 10 ^ 20) (to_list h.retry_after)
    → (map read_pair (to_header_pairs h)
        ≡ (codes "X-RateLimit-Limit", h.limit)
          ∷ (codes "X-RateLimit-Remaining", h.remaining)
          ∷ (codes "X-RateLimit-Reset", h.reset)
          ∷ map (λ r. (codes "Retry-After", r)) (to_list h.retry_after))
      × All (λ p. All IsDigit p.1) (to_header_pairs h)
to_header_pairs_lem h l m r t =
    let (limit, limit') = to_string_lem h.limit l in
    let (remaining, remaining') = to_string_lem h.remaining m in
    let (reset, reset') = to_string_lem h.reset r in
    elim (Option-cases h.retry_after) [
      | inl e ↦ rw (e, limit, remaining, reset) (refl, (limit', (remaining', (reset', tt))))
      | inr (x, e) ↦
          let (retry, retry') = to_string_lem x (rw e at t).0 in
          rw (e, limit, remaining, reset, retry)
            (refl, (limit', (remaining', (reset', (retry', tt)))))
    ]
