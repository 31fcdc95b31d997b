-- ===== src/Limiter/Replies.antt =====
-- src/lib.rs: what `RateLimiter::check` makes of the store's answer.
use armature_ratelimit.Algorithms.{Algorithm, token_bucket, sliding_window_log, fixed_window, limit}
use armature_ratelimit.Config.{validate_algorithm}
use armature_ratelimit.Float.{Float, IsIeee, max_u64}
use armature_ratelimit.Limiter.{
  RateLimiter, RateLimitCheckResult, allowed, denied, check, refills, token_bucket_retry_after,
  token_bucket_result, sliding_window_result, fixed_window_result, reset_at_ms, ns_per_ms, u64_mod,
}
use native.Mathlib.Nat.{mod-eq_of_lt, mul_assoc, mul-mod_left}
use armature_ratelimit.Outcome.{Outcome, RateLimitError, ok, err, panic, ◌>>=◌, >>=-eq-ok}
use armature_ratelimit.Prelude.{
  ℕ, suc, ◌+◌, ◌-◌, ◌*◌, ◌/◌, ◌%◌, ◌≤◌, ◌<◌, ◌≡◌, refl, ap, sym, ◌∙◌, max, Bool, true, false, none,
  some, arith, Text, if◌then◌else◌,
}
use armature_ratelimit.Stores.{RateLimitStore, Clock}

module _ (fl : Float) (store : RateLimitStore fl) where
  -- What the limiter asks its store.
  abbrev pub ask : Algorithm fl → store.State → Clock → Text → store.State × Outcome (Bool × ℕ)
  ask (token_bucket capacity rate) s now key = store.token_bucket_check s now key capacity rate
  ask (sliding_window_log max_requests window) s now key =
      store.sliding_window_check s now key max_requests window
  ask (fixed_window max_requests window) s now key =
      store.fixed_window_check s now key max_requests window

  abbrev pub answer : Algorithm fl → Clock → Bool × ℕ → Outcome RateLimitCheckResult
  answer (token_bucket capacity rate) = token_bucket_result fl capacity rate
  answer (sliding_window_log max_requests window) = sliding_window_result max_requests window
  answer (fixed_window max_requests window) = fixed_window_result max_requests window

  pub check-answer :
      (l : RateLimiter fl store) (asked answered : Clock) (key : Text)
      → check fl store l asked answered key ≡ (
        record l { state = (ask l.algorithm l.state asked key).0 },
        (ask l.algorithm l.state asked key).1 >>= answer l.algorithm answered,
      )
  unfolding check
  check-answer l asked answered key = ground arith

  -- A result that says what the store said, for the algorithm's limit.
  abbrev Reports : Bool × ℕ → ℕ → RateLimitCheckResult → Type 0
  Reports reply n r =
      (r.is_allowed ≡ reply.0) × (r.remaining ≡ (if reply.0 then reply.1 else 0)) × (r.limit ≡ n)

  answer-Reports :
      (a : Algorithm fl) (now : Clock) (reply : Bool × ℕ) (r : RateLimitCheckResult)
      → answer a now reply ≡ ok r
      → Reports reply (limit fl a) r
  unfolding limit token_bucket_result sliding_window_result fixed_window_result allowed denied
  answer-Reports (token_bucket capacity rate) now reply r h = ground arith
  answer-Reports (sliding_window_log max_requests window) now reply r h = ground arith
  answer-Reports (fixed_window max_requests window) now reply r h = ground arith

  retry_overflow :
      (ieee : IsIeee fl) (rate : fl.F)
      → refills fl rate ≡ true
      → fl.le (fl.of_u64 max_u64) (fl.div fl.one rate) ≡ true
      → token_bucket_retry_after fl rate ≡ none
  unfolding token_bucket_retry_after
  retry_overflow ieee rate r h =
      rw (r, ieee.clamp_high (fl.div fl.one rate) h)
        (ieee.from_secs_overflow (fl.of_u64 max_u64)
          (ieee.of_u64_mono max_u64 max_u64 (omega arith)))

  -- Whatever the algorithm, a check that succeeds made one call of the store, whose state it
  -- keeps, and its result repeats the store's decision, the store's count (0 on a denial) and
  -- the configured limit.
  pub check-eq-ok :
      (l : RateLimiter fl store) (asked answered : Clock) (key : Text) (r : RateLimitCheckResult)
      → (check fl store l asked answered key).1 ≡ ok r
      → (reply : Bool × ℕ) × ((ask l.algorithm l.state asked key).1 ≡ ok reply)
        × ((check fl store l asked answered key).0.state ≡ (ask l.algorithm l.state asked key).0)
        × (r.is_allowed ≡ reply.0)
        × (r.remaining ≡ (if reply.0 then reply.1 else 0))
        × (r.limit ≡ limit fl l.algorithm)
  check-eq-ok l asked answered key r h =
      let (reply, asked_ok, answered_ok) =
        >>=-eq-ok (ask l.algorithm l.state asked key).1 (answer l.algorithm answered)
          (ap (λ p. p.1) (sym (check-answer l asked answered key)) ∙ h) in
      let (a, b, c) = answer-Reports l.algorithm answered reply r answered_ok in
      (reply, asked_ok, ap (λ p. p.0.state) (check-answer l asked answered key), a, b, c)

  pub check-state :
      (l : RateLimiter fl store) (asked answered : Clock) (key : Text)
      → (check fl store l asked answered key).0.state ≡ (ask l.algorithm l.state asked key).0
  check-state l asked answered key = ap (λ p. p.0.state) (check-answer l asked answered key)

  -- An error of the store is passed on as it is, with the state that the store left.
  pub check-eq-err :
      (l : RateLimiter fl store) (asked answered : Clock) (key : Text) (e : RateLimitError)
      → (ask l.algorithm l.state asked key).1 ≡ err e
      → ((check fl store l asked answered key).1 ≡ err e)
        × ((check fl store l asked answered key).0.state ≡ (ask l.algorithm l.state asked key).0)
  check-eq-err l asked answered key e h = rw check-answer (ground arith, refl)

  -- A positive finite rate whose inverse is 2^64 seconds or more is accepted by
  -- `validate_algorithm` with a positive capacity, and then a check that the store denies
  -- panics.
  pub tiny_rate_panics :
      (ieee : IsIeee fl) (l : RateLimiter fl store) (asked answered : Clock) (key : Text)
      (capacity : ℕ) (rate : fl.F) (n : ℕ)
      → l.algorithm ≡ token_bucket (suc capacity) rate
      → refills fl rate ≡ true
      → fl.le rate fl.nought ≡ false
      → fl.le (fl.of_u64 max_u64) (fl.div fl.one rate) ≡ true
      → (ask l.algorithm l.state asked key).1 ≡ ok (false, n)
      → (validate_algorithm fl l.algorithm ≡ ok tt)
        × ((check fl store l asked answered key).1 ≡ panic)
  unfolding validate_algorithm token_bucket_result
  tiny_rate_panics ieee l asked answered key capacity rate n a r p h d =
      (rw a (ground arith), rw (check-answer, d, a) (ground (arith, retry_overflow ieee rate r h)))

-- The next multiple of a positive number.
next_multiple : (t w : ℕ) → 0 < w → (t < (t / w + 1) * w) × ((t / w + 1) * w ≤ t + w)
next_multiple t w h = grind (arith)

multiple_whole : (k w : ℕ) → w % 1000 ≡ 0 → k * w % 1000 ≡ 0
multiple_whole k w h =
    ap (λ v. k * v % 1000) (omega arith)
    ∙ ap (λ v. v % 1000) (sym (mul_assoc k (w / 1000) 1000))
    ∙ mul-mod_left (k * (w / 1000)) 1000

-- What is reported of a window that ends at `at` milliseconds.
reported :
    (max_requests window : ℕ) (now : Clock) (reply : Bool × ℕ) (r : RateLimitCheckResult)
    → reset_at_ms window now < u64_mod
    → fixed_window_result max_requests window now reply ≡ ok r
    → (r.reset_at ≡ reset_at_ms window now / 1000)
      × (reply.0 ≡ false
          → r.retry_after
            ≡ some ((reset_at_ms window now - now.since_epoch / ns_per_ms) * ns_per_ms))
unfolding fixed_window_result allowed denied
reported max_requests window now reply r small h =
    ground
      (arith, mod-eq_of_lt {n = reset_at_ms window now - now.since_epoch / ns_per_ms} {m = u64_mod})

-- With times that fit 64 bits of milliseconds, the reset time that is reported for a fixed window,
-- in seconds, is no earlier than the second of the request and at most one window ahead, and it is
-- later than the request if the window lasts whole seconds; the wait that a denial reports is
-- positive, at most one window, and ends at a multiple of the window, in the second that is
-- reported.
pub fixed_window_result_lem :
    (max_requests window : ℕ) (now : Clock) (reply : Bool × ℕ) (r : RateLimitCheckResult)
    → now.since_epoch / ns_per_ms + max (window / ns_per_ms) 1 < u64_mod
    → fixed_window_result max_requests window now reply ≡ ok r
    → (now.since_epoch / ns_per_ms / 1000 ≤ r.reset_at)
      × (r.reset_at * 1000 ≤ now.since_epoch / ns_per_ms + max (window / ns_per_ms) 1)
      × (max (window / ns_per_ms) 1 % 1000 ≡ 0 → now.since_epoch / ns_per_ms < r.reset_at * 1000)
      × (reply.0 ≡ false
          → (wait : ℕ) × (r.retry_after ≡ some (wait * ns_per_ms))
            × (0 < wait)
            × (wait ≤ max (window / ns_per_ms) 1)
            × ((now.since_epoch / ns_per_ms + wait) % max (window / ns_per_ms) 1 ≡ 0)
            × ((now.since_epoch / ns_per_ms + wait) / 1000 ≡ r.reset_at))
unfolding reset_at_ms
fixed_window_result_lem max_requests window now reply r small h =
    let t = now.since_epoch / ns_per_ms in
    let w = max (window / ns_per_ms) 1 in
    let at = (t / w + 1) * w in
    let (after, soon) = next_multiple t w (omega arith) in
    let ends : t + (at - t) ≡ at = omega (arith, after) in
    let (reset, wait) = reported max_requests window now reply r (omega (arith, soon)) h in
    (
      omega (arith, after, reset),
      omega (arith, soon, reset),
      λ whole. omega (arith, after, reset, multiple_whole (t / w + 1) w whole),
      λ denial. (
        at - t,
        wait denial,
        omega (arith, after),
        omega (arith, soon),
        ap (λ v. v % w) ends ∙ mul-mod_left (t / w + 1) w,
        omega (arith, after, reset),
      ),
    )
