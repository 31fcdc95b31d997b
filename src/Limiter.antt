-- ===== src/Limiter.antt =====
-- src/lib.rs: `RateLimiter`, over any store. Timestamps are seconds since the Unix epoch, and
-- `u64` sums wrap as they do without overflow checks.
pub mod Replies
pub mod Waits
pub mod Prune
use armature_ratelimit.Algorithms.{Algorithm, token_bucket, sliding_window_log, fixed_window}
use armature_ratelimit.Config.{RateLimitConfig}
use armature_ratelimit.Float.{Float, max_u64}
use armature_ratelimit.Outcome.{Outcome, ok, err, panic, ◌>>=◌}
use armature_ratelimit.Prelude.{
  ℕ, ◌+◌, ◌-◌, ◌*◌, ◌/◌, ◌%◌, ◌^◌, min, max, Bool, true, false, ◌&&◌, Option, none, some, Text,
  if◌then◌else◌,
}
use armature_ratelimit.Stores.{RateLimitStore, Clock}

pub record RateLimitCheckResult : Type 0 where
  pub is_allowed : Bool
  pub remaining : ℕ
  pub limit : ℕ
  pub reset_at : ℕ
  pub retry_after : Option ℕ

unfoldable pub allowed : ℕ → ℕ → ℕ → RateLimitCheckResult
allowed remaining limit reset_at = record {
  is_allowed = true;
  remaining = remaining;
  limit = limit;
  reset_at = reset_at;
  retry_after = none;
}

unfoldable pub denied : ℕ → ℕ → ℕ → RateLimitCheckResult
denied limit reset_at retry_after = record {
  is_allowed = false;
  remaining = 0;
  limit = limit;
  reset_at = reset_at;
  retry_after = some retry_after;
}

-- The store behind the `Arc` is the state that a call passes on. The prune task that the limiter owns
-- works on the same store: Limiter/Prune has its loop.
pub record RateLimiter (fl : Float) (store : RateLimitStore fl) : Type 0 where
  pub state : store.State
  pub algorithm : Algorithm fl
  pub config : RateLimitConfig fl

abbrev ns_per_sec : ℕ
ns_per_sec = 1_000_000_000

abbrev pub ns_per_ms : ℕ
ns_per_ms = 1_000_000

abbrev pub u64_mod : ℕ
u64_mod = 2 ^ 64

module _ (fl : Float) where
  -- `refill_rate > 0.0 && refill_rate.is_finite()`
  abbrev pub refills : fl.F → Bool
  refills rate = fl.lt fl.nought rate && fl.is_finite rate

  abbrev token_bucket_reset_at : ℕ → fl.F → ℕ → ℕ
  token_bucket_reset_at capacity rate now_secs =
      if refills rate
      then min
          (now_secs
            + fl.to_u64 (fl.clamp (fl.div (fl.of_u64 capacity) rate) fl.nought (fl.of_u64 max_u64)))
          max_u64
      else max_u64

  -- `none` is the panic of `Duration::from_secs_f64`.
  pub token_bucket_retry_after : fl.F → Option ℕ
  token_bucket_retry_after rate =
      if refills rate
      then fl.from_secs (fl.clamp (fl.div fl.one rate) fl.nought (fl.of_u64 max_u64))
      else some (max_u64 * ns_per_sec)

  pub token_bucket_result : ℕ → fl.F → Clock → Bool × ℕ → Outcome RateLimitCheckResult
  token_bucket_result capacity rate now reply =
      let reset_at = token_bucket_reset_at capacity rate (now.since_epoch / ns_per_sec) in
      if reply.0
      then ok (allowed reply.1 capacity reset_at)
      else (elim (token_bucket_retry_after rate) [
        | none ↦ panic
        | some retry_after ↦ ok (denied capacity reset_at retry_after)
      ])

pub sliding_window_result : ℕ → ℕ → Clock → Bool × ℕ → Outcome RateLimitCheckResult
sliding_window_result max_requests window now reply =
    let reset_at = (now.since_epoch / ns_per_sec + window / ns_per_sec) % u64_mod in
    if reply.0
    then ok (allowed reply.1 max_requests reset_at)
    else ok (denied max_requests reset_at window)

-- The end of the window of the epoch's grid that holds `now`, in milliseconds.
unfoldable pub reset_at_ms : ℕ → Clock → ℕ
reset_at_ms window now =
    let window_ms = max (window / ns_per_ms) 1 in
    (now.since_epoch / ns_per_ms / window_ms + 1) * window_ms

unfoldable pub fixed_window_result : ℕ → ℕ → Clock → Bool × ℕ → Outcome RateLimitCheckResult
fixed_window_result max_requests window now reply =
    let at_ms = reset_at_ms window now in
    let reset_at = (at_ms / 1000) % u64_mod in
    if reply.0
    then ok (allowed reply.1 max_requests reset_at)
    else ok
        (denied max_requests reset_at ((at_ms - now.since_epoch / ns_per_ms) % u64_mod * ns_per_ms))

module _ (fl : Float) (store : RateLimitStore fl) where
  abbrev finish :
      RateLimiter fl store
      → store.State × Outcome (Bool × ℕ)
      → (Bool × ℕ → Outcome RateLimitCheckResult)
      → RateLimiter fl store × Outcome RateLimitCheckResult
  finish l out result = (record l { state = out.0 }, out.1 >>= result)

  -- The store reads its clocks when it is `asked`, the limiter its own when it has `answered`.
  check_token_bucket :
      RateLimiter fl store
      → Clock
      → Clock
      → Text
      → ℕ
      → fl.F
      → RateLimiter fl store × Outcome RateLimitCheckResult
  check_token_bucket l asked answered key capacity rate =
      finish l (store.token_bucket_check l.state asked key capacity rate)
        (token_bucket_result fl capacity rate answered)

  check_sliding_window :
      RateLimiter fl store
      → Clock
      → Clock
      → Text
      → ℕ
      → ℕ
      → RateLimiter fl store × Outcome RateLimitCheckResult
  check_sliding_window l asked answered key max_requests window =
      finish l (store.sliding_window_check l.state asked key max_requests window)
        (sliding_window_result max_requests window answered)

  check_fixed_window :
      RateLimiter fl store
      → Clock
      → Clock
      → Text
      → ℕ
      → ℕ
      → RateLimiter fl store × Outcome RateLimitCheckResult
  check_fixed_window l asked answered key max_requests window =
      finish l (store.fixed_window_check l.state asked key max_requests window)
        (fixed_window_result max_requests window answered)

  unfoldable pub check :
      RateLimiter fl store
      → Clock
      → Clock
      → Text
      → RateLimiter fl store × Outcome RateLimitCheckResult
  unfolding check_token_bucket check_sliding_window check_fixed_window
  check l asked answered key = elim l.algorithm [
    | token_bucket capacity rate ↦ check_token_bucket l asked answered key capacity rate
    | sliding_window_log max_requests window ↦
        check_sliding_window l asked answered key max_requests window
    | fixed_window max_requests window ↦ check_fixed_window l asked answered key max_requests window
  ]

  unfoldable pub reset :
      RateLimiter fl store → Clock → Text → RateLimiter fl store × Outcome (Unit {0})
  reset l now key = let out = store.reset l.state now key in (record l { state = out.0 }, out.1)
