-- ===== src/Stores/RedisStore/Timeouts.antt =====
-- src/stores/redis.rs: a server that does not answer in time, and what an operation may return.
use armature_ratelimit.Extractor.{Host, key_digest}
use armature_ratelimit.Float.{Float}
use armature_ratelimit.Outcome.{Outcome, RateLimitError, panic, ok, err, timeout}
use armature_ratelimit.Prelude.{ℕ, ◌<◌, ◌≡◌, refl, ap, some, map_option, Text, arith}
use armature_ratelimit.Redis.{Redis, Lua, Answer}
use armature_ratelimit.Stores.RedisScripts as Scripts
use armature_ratelimit.Stores.RedisStore.Remaining.{remaining, remaining_counted}
use armature_ratelimit.Stores.RedisStore.Sweep.{reset, sweep_after}
use armature_ratelimit.Stores.RedisStore.{
  Fate, replied, broken, silent, RedisStore, with_op_timeout, Op, after, read_pair, read_count,
  heard, advance, token_bucket_check, sliding_window_check, fixed_window_check,
}
use armature_ratelimit.Stores.{Clock}

-- No reply comes within so many nanoseconds.
abbrev pub IsTooLate : ℕ → Fate → Type 0
IsTooLate limit (replied latency) = limit < latency
IsTooLate limit (broken e latency ran) = limit < latency
IsTooLate limit (silent ran) = Unit

heard_late :
    {A : Type 0} (limit : ℕ) (fate : Fate) (answer : Answer A)
    → IsTooLate limit fate
    → heard limit fate answer ≡ err timeout
heard_late limit (replied latency) answer late = ground arith
heard_late limit (broken e latency ran) answer late = ground arith
heard_late limit (silent ran) answer late = refl

module _ (fl : Float) (r : Redis fl) where
  after-err :
      {A B : Type 0} {e : RateLimitError} (next : A → Op fl r B) (out : RedisStore fl r × Outcome A)
      → out.1 ≡ err e
      → (after fl r next out).1 ≡ err e
  after-err next (store, ok a) h = cc
  after-err next (store, err e) h = cc
  after-err next (store, panic) h = cc

  sweep_after-err :
      {e : RateLimitError} (fuel : ℕ) (pattern : Text) (out : RedisStore fl r × Outcome (Unit {0}))
      → out.1 ≡ err e
      → map_option (λ p. p.1) (sweep_after fl r fuel pattern out) ≡ some (err e)
  sweep_after-err fuel pattern (store, ok a) h = cc
  sweep_after-err fuel pattern (store, err e) h = ap (λ o. some o) h
  sweep_after-err fuel pattern (store, panic) h = cc

  module _ (store : RedisStore fl r)
      (late : IsTooLate store.operation_timeout (store.conn.turns 0).fate) where
    with_op_timeout_late :
        {A : Type 0} (request : Scripts.Run fl r A)
        → (with_op_timeout fl r request store).1 ≡ err timeout
    unfolding with_op_timeout
    with_op_timeout_late request =
        let conn = advance fl r store.conn in
        heard_late store.operation_timeout (store.conn.turns 0).fate
          (request conn.server conn.time).1 late

    after_late :
        {A B : Type 0} (request : Scripts.Run fl r A) (next : A → Op fl r B)
        → (after fl r next (with_op_timeout fl r request store)).1 ≡ err timeout
    after_late request next =
        after-err next (with_op_timeout fl r request store) (with_op_timeout_late request)

    sweep_after_late :
        (fuel : ℕ) (pattern : Text) (request : Scripts.Run fl r (Unit {0}))
        → map_option
            (λ out. out.1)
            (sweep_after fl r fuel pattern (with_op_timeout fl r request store))
          ≡ some (err timeout)
    sweep_after_late fuel pattern request =
        sweep_after-err fuel pattern (with_op_timeout fl r request store)
          (with_op_timeout_late request)

    -- If nothing is heard of the first request of an operation within the timeout, the three
    -- checks, `remaining` and `reset` return the timeout error.
    pub silence_times_out :
        (lua : Lua fl) (host : Host) (now : Clock) (name : Text)
        (capacity max_requests window fuel : ℕ) (rate : fl.F)
        → ((token_bucket_check fl r lua host now name capacity rate store).1 ≡ err timeout)
          × ((sliding_window_check fl r lua host now name max_requests window store).1
              ≡ err timeout)
          × ((fixed_window_check fl r lua host now name max_requests window store).1 ≡ err timeout)
          × ((remaining fl r lua host name store).1 ≡ err timeout)
          × (map_option (λ out. out.1) (reset fl r host fuel name store) ≡ some (err timeout))
    unfolding token_bucket_check sliding_window_check fixed_window_check remaining reset
    silence_times_out lua host now name capacity max_requests window fuel rate = (
      after_late _ (read_pair fl r),
      after_late _ (read_pair fl r),
      after_late _ (read_count fl r max_requests),
      after_late _ (remaining_counted fl r lua host store (key_digest host name)),
      sweep_after_late fuel _ _,
    )
