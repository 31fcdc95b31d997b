-- ===== src/Middleware/Outage.antt =====
-- src/middleware.rs, src/lib.rs and src/stores/redis.rs: the middleware when Redis does not answer.
use armature_ratelimit.Algorithms.{Algorithm, token_bucket, sliding_window_log, fixed_window}
use armature_ratelimit.Extractor.{Host, RequestInfo, extract}
use armature_ratelimit.Float.{Float}
use armature_ratelimit.Limiter.Replies.{ask, check-eq-err}
use armature_ratelimit.Middleware.{
  RateLimitMiddleware, RateLimitCheckResponse, is_allowed, headers, count_one, check,
}
use armature_ratelimit.Middleware.Decisions.{Covers, check_failed}
use armature_ratelimit.Outcome.{ok, err, timeout}
use armature_ratelimit.Prelude.{ℕ, ◌≡◌, ap, some, none, Text, if◌then◌else◌}
use armature_ratelimit.Redis.{Redis, Lua}
use armature_ratelimit.Stores.RedisStore.Remaining.{redis_store}
use armature_ratelimit.Stores.RedisStore.Timeouts.{IsTooLate, silence_times_out}
use armature_ratelimit.Stores.RedisStore.{RedisStore}
use armature_ratelimit.Stores.{Clock}

module _ (fl : Float) (r : Redis fl) (lua : Lua fl) (host : Host) (fuel : ℕ) where
  ask_late :
      (a : Algorithm fl) (s : RedisStore fl r) (now : Clock) (key : Text)
      → IsTooLate s.operation_timeout (s.conn.turns 0).fate
      → (ask fl (redis_store fl r lua host fuel) a s now key).1 ≡ err timeout
  ask_late (token_bucket capacity rate) s now key late =
      (silence_times_out fl r s late lua host now key capacity 0 0 0 rate).0
  ask_late (sliding_window_log max window) s now key late =
      (silence_times_out fl r s late lua host now key 0 max window 0 fl.one).1
  ask_late (fixed_window max window) s now key late =
      (silence_times_out fl r s late lua host now key 0 max window 0 fl.one).2

  -- Over Redis, if nothing is heard of the server within the timeout, a keyed request outside the
  -- bypass list is let through and counted, or denied, as `skip_on_error` says, whatever the
  -- algorithm and whether or not the server executed the script, and its response has no headers.
  pub check_outage :
      (m : RateLimitMiddleware fl (redis_store fl r lua host fuel)) (asked answered : Clock)
      (info : RequestInfo) (key : Text)
      → extract host m.key_extractor info ≡ some key
      → ¬ Covers fl (redis_store fl r lua host fuel) host key m.bypass_keys
      → IsTooLate m.limiter.state.operation_timeout (m.limiter.state.conn.turns 0).fate
      → (response : RateLimitCheckResponse) × ((check fl
            (redis_store fl r lua host fuel)
            host
            m
            asked
            answered
            info).1
          ≡ ok response)
        × (is_allowed response ≡ m.skip_on_error)
        × (headers response ≡ none)
        × ((check fl
              (redis_store fl r lua host fuel)
              host
              m
              asked
              answered
              info).0.skip_on_error_count
            ≡ (if m.skip_on_error then count_one m.skip_on_error_count else m.skip_on_error_count))
  check_outage m asked answered info key keyed outside late =
      let store = redis_store fl r lua host fuel in
      let silent =
        (check-eq-err fl store m.limiter asked answered key timeout
          (ask_late m.limiter.algorithm m.limiter.state asked key late)).0 in
      let (response, e, a, h) =
        check_failed fl store host m asked answered info key timeout keyed outside silent in
      (response, ap (λ out. out.1) e, a, h, ap (λ out. out.0.skip_on_error_count) e)
