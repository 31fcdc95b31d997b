-- ===== src/Middleware/Distributed.antt =====
-- src/middleware.rs, src/lib.rs and src/stores/redis.rs: how many requests of a client a middleware
-- over Redis lets in.
use armature_ratelimit.Algorithms.{sliding_window_log}
use armature_ratelimit.Extractor.Keys.{IsHost}
use armature_ratelimit.Extractor.{Host, key_digest}
use armature_ratelimit.Float.{Float, IsIeee, exact_bound}
use armature_ratelimit.Middleware.{RateLimitMiddleware}
use armature_ratelimit.Middleware.Histories.{
  Visit, Weaker, calls_of, served, asked_run, served-Weaker,
}
use armature_ratelimit.Middleware.Limits.{Weaker-count}
use armature_ratelimit.Prelude.{
  ℕ, ◌≤◌, ◌<◌, ◌≡◌, refl, false, ◌&&◌, none, List, [], ◌∷◌, map, Text, arith, count_if, All,
  Ascending, length, subst,
}
use armature_ratelimit.Redis.{Redis, Lua}
use armature_ratelimit.Redis.Laws.{IsRedis, IsLua}
use armature_ratelimit.Stores.RedisScripts.Members.{printed}
use armature_ratelimit.Stores.RedisStore.Remaining.{redis_store}
use armature_ratelimit.Stores.RedisStore.SlidingBound.{sliding_checks_bound}
use armature_ratelimit.Stores.RedisStore.SlidingHistories.{
  in_span, admitted_in_span, clocks_of, IsDated, Synced, sliding_checks,
}
use armature_ratelimit.Stores.RedisStore.{
  IsQuiet, RedisStore, sw_key, swseq_key, sliding_window_check,
}
use armature_ratelimit.Stores.{Clock}

abbrev swapped : List (Text × Clock) → List (Clock × Text)
swapped = map (λ c. (c.1, c.0))

module _ (fl : Float) (r : Redis fl) (lua : Lua fl) (host : Host) (fuel : ℕ) where
  asked_run-checks :
      (max window : ℕ) (digest : Text) (a : ℕ) (s : RedisStore fl r) (calls : List (Text × Clock))
      → count_if
          (λ d. in_span host window digest a (d.1.0, d.0) && d.1.1)
          (asked_run fl (redis_store fl r lua host fuel) (sliding_window_log max window) s calls)
        ≡ count_if
            (admitted_in_span host window digest a)
            (sliding_checks fl r lua host max window s (swapped calls)).1
  unfolding asked_run sliding_checks
  asked_run-checks max window digest a s [] = refl
  asked_run-checks max window digest a s ((key, now) ∷ calls) =
      let out = sliding_window_check fl r lua host now key max window s in
      rw (asked_run-checks max window digest a out.0 calls) refl

  -- The limited requests of a history, as calls of the store.
  abbrev limited_calls :
      RateLimitMiddleware fl (redis_store fl r lua host fuel) → List Visit → List (Clock × Text)
  limited_calls m vs =
      swapped (calls_of fl (redis_store fl r lua host fuel) host m.key_extractor m.bypass_keys vs)

  -- Over Redis with a sliding window limit and `skip_on_error` off, from a server time at which a
  -- client has no sliding log and no sequence counter, at most `max_requests` requests of the
  -- client get through the middleware in any span of one window that is open at its start,
  -- whatever other clients ask for, whatever other requests the bypass list and the policies let
  -- through, and whether or not replies are lost, if the client's limited requests reach the server
  -- in the order of their clocks, the clock of every limited request agrees with the server's up to
  -- 4.5 seconds and is at least one window after the epoch and below 10^14 milliseconds, the
  -- limited requests are fewer than 10^14 and the limit at most 2^53, and nothing else writes to
  -- the server.
  pub distributed_bound :
      (is_host : IsHost host) (is_redis : IsRedis fl r) (is_lua : IsLua fl lua) (ieee : IsIeee fl)
      (m : RateLimitMiddleware fl (redis_store fl r lua host fuel)) (vs : List Visit)
      (max_requests window : ℕ) (client : Text) (a : ℕ)
      → m.skip_on_error ≡ false
      → m.limiter.algorithm ≡ sliding_window_log max_requests window
      → max_requests ≤ exact_bound
      → length (limited_calls m vs) < printed
      → IsQuiet fl r m.limiter.state.conn.turns
      → Synced fl r m.limiter.state.conn.time m.limiter.state.conn.turns (limited_calls m vs)
      → All (IsDated host window) (limited_calls m vs)
      → Ascending 0 (clocks_of host window (key_digest host client) (limited_calls m vs))
      → r.held m.limiter.state.conn.server m.limiter.state.conn.time
          (sw_key fl r m.limiter.state (key_digest host client))
        ≡ none
      → r.held m.limiter.state.conn.server m.limiter.state.conn.time
          (swseq_key fl r m.limiter.state (key_digest host client))
        ≡ none
      → count_if
          (λ d. in_span host window (key_digest host client) a (d.1.0, d.0) && d.1.1)
          (served fl (redis_store fl r lua host fuel) host m vs)
        ≤ max_requests
  distributed_bound is_host is_redis is_lua ieee m vs max window client a strict algorithm small few
        quiet synced dated ordered no_log no_seq =
      let store = redis_store fl r lua host fuel in
      let calls = calls_of fl store host m.key_extractor m.bypass_keys vs in
      let weaker =
        subst (λ g. Weaker (served fl store host m vs) (asked_run fl store g m.limiter.state calls))
          algorithm (served-Weaker fl store host m vs strict) in
      omega (
        arith,
        Weaker-count (λ j t. in_span host window (key_digest host client) a (t, j)) _ _ weaker,
        asked_run-checks max window (key_digest host client) a m.limiter.state calls,
        sliding_checks_bound fl r lua host is_host is_redis is_lua ieee m.limiter.state
            (swapped calls) max window client a small few quiet synced dated ordered no_log no_seq,
      )
