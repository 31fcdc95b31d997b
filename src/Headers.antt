-- ===== src/Headers.antt =====
-- src/error.rs: the methods of `RateLimitError`, and the headers of a response.
pub mod Digits
use armature_ratelimit.Outcome.{RateLimitError, limit_exceeded}
use armature_ratelimit.Prelude.{
  ℕ, ◌+◌, ◌/◌, ◌%◌, Bool, true, false, Option, none, some, List, [], ◌∷◌, ◌++◌, Text, codes, zero,
  suc, leb,
}

pub record RateLimitHeaders : Type 0 where
  pub limit : ℕ
  pub remaining : ℕ
  pub reset : ℕ
  pub retry_after : Option ℕ

unfoldable pub allowed : ℕ → ℕ → ℕ → RateLimitHeaders
allowed limit remaining reset = record {
  limit = limit;
  remaining = remaining;
  reset = reset;
  retry_after = none;
}

unfoldable pub denied : ℕ → ℕ → ℕ → RateLimitHeaders
denied limit reset retry_after = record {
  limit = limit;
  remaining = 0;
  reset = reset;
  retry_after = some retry_after;
}

abbrev pub as_secs : ℕ → ℕ
as_secs d = d / 1_000_000_000

abbrev error_limit_exceeded : ℕ → ℕ → ℕ → RateLimitError
error_limit_exceeded limit reset_at retry_after = limit_exceeded 0 limit reset_at retry_after

abbrev is_limit_exceeded : RateLimitError → Bool
is_limit_exceeded (limit_exceeded remaining limit reset_at retry_after) = true
is_limit_exceeded _ = false

abbrev error_retry_after : RateLimitError → Option ℕ
error_retry_after (limit_exceeded remaining limit reset_at retry_after) = some retry_after
error_retry_after _ = none

abbrev error_headers : RateLimitError → Option RateLimitHeaders
error_headers (limit_exceeded remaining limit reset_at retry_after) = some (record {
  limit = limit;
  remaining = remaining;
  reset = reset_at;
  retry_after = some (as_secs retry_after);
})
error_headers _ = none

-- `u64::to_string`, on fuel: a number of 64 bits has at most 20 digits.
digits : ℕ → ℕ → Text
digits zero n = []
digits (suc fuel) n = elim (leb 10 n) [
  | true ↦ digits fuel (n / 10) ++ (48 + n % 10) ∷ []
  | false ↦ (48 + n) ∷ []
]

unfoldable pub to_string : ℕ → Text
unfolding digits
to_string n = digits 20 n

abbrev pub to_header_pairs : RateLimitHeaders → List (Text × Text)
to_header_pairs h =
    ((codes "X-RateLimit-Limit", to_string h.limit)
      ∷ (codes "X-RateLimit-Remaining", to_string h.remaining)
      ∷ (codes "X-RateLimit-Reset", to_string h.reset)
      ∷ [])
    ++ (elim h.retry_after [ some retry ↦ (codes "Retry-After", to_string retry) ∷ [] | none ↦ [] ])
