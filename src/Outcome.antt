-- ===== src/Outcome.antt =====
-- src/error.rs: `RateLimitError`, and `RateLimitResult` with the panics of Rust beside the errors.
use armature_ratelimit.Prelude.{◌≡◌, refl, ℕ, Bool, true, false, Text}

-- A `Duration` is a number of nanoseconds, a Unix timestamp a number of seconds.
pub data RateLimitError : Type 0 where
  limit_exceeded : (remaining limit reset_at retry_after : ℕ) → RateLimitError
  store_error : Text → RateLimitError
  timeout : RateLimitError
  config_error : Text → RateLimitError
  key_extraction_error : Text → RateLimitError
  invalid_algorithm : Text → RateLimitError
  redis_error : Text → RateLimitError

pub data Outcome {ℓ} (A : Type ℓ) : Type ℓ where
  ok : A → Outcome A
  err : RateLimitError → Outcome A
  panic : Outcome A

infixl 5 ◌>>=◌
abbrev pub ◌>>=◌ {ℓ κ} : {A : Type ℓ} {B : Type κ} → Outcome A → (A → Outcome B) → Outcome B
panic >>= next = panic
err e >>= next = err e
ok a >>= next = next a

-- `assert!`
abbrev pub assert : Bool → Outcome (Unit {0})
assert true = ok tt
assert false = panic

-- A chain that succeeds has a first step that does, and a second that continues from its value.
pub >>=-eq-ok {ℓ κ} :
    {A : Type ℓ} {B : Type κ} {b : B} (m : Outcome A) (next : A → Outcome B)
    → (m >>= next) ≡ ok b
    → (a : A) × (m ≡ ok a) × (next a ≡ ok b)
>>=-eq-ok panic next done = cc
>>=-eq-ok (err e) next done = cc
>>=-eq-ok (ok a) next done = (a, refl, done)

-- Whether a check admits its request. An error or a panic admits nothing.
abbrev pub is_admitted : Outcome (Bool × ℕ) → Bool
is_admitted (ok reply) = reply.0
is_admitted (err e) = false
is_admitted panic = false
