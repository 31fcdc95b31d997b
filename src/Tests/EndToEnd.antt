-- ===== src/Tests/EndToEnd.antt =====
-- The theorems on the middleware with its limiter and its store at concrete inputs.
use armature_ratelimit.Algorithms.{fixed_window, sliding_window_log}
use armature_ratelimit.Config.{default}
use armature_ratelimit.Middleware.Outage.{check_outage}
use armature_ratelimit.Middleware.{
  RateLimitMiddleware, RateLimitCheckResponse, deny, is_allowed, headers, check, bypasses,
}
use armature_ratelimit.Stores.RedisStore.Remaining.{redis_store}
use armature_ratelimit.Extractor.{
  key_digest, hex, ip, v4, extract, ip_bucket, api_key_bucket, with_ip, new as request_info,
}
use armature_ratelimit.Float.Fixed.{fixed_point, fixed_point-IsIeee}
use armature_ratelimit.Outcome.{ok}
use armature_ratelimit.Prelude.{
  ◌&&◌, none, some, ℕ, ◌≤◌, ◌≡◌, ◌*◌, refl, true, List, [], ◌∷◌, codes, arith, count_if, text_eq,
}
use armature_ratelimit.Redis.Decimal.{decimal, decimal-IsLua}
use armature_ratelimit.Redis.Keyspace.{keyspace-IsRedis}
use armature_ratelimit.Stores.RedisStore as Store
use armature_ratelimit.Stores.RedisStore.{Fate, replied, silent, Turn, RedisStore}
use armature_ratelimit.Stores.{Clock}
use armature_ratelimit.Tests.World.{host, now}
use armature_ratelimit.Tests.Redis.{space, mute, telling, telling-IsHost}
use armature_ratelimit.Tests.Sliding.{started, at}
use armature_ratelimit.Stores.Memory
use armature_ratelimit.Stores.Memory.{MemoryStore}
use armature_ratelimit.Tests.Data.{no_keys, spent}
use armature_ratelimit.Tests.Middleware.{guard, from}
use armature_ratelimit.Middleware.Histories.{Visit, served}
use armature_ratelimit.Middleware.Pruned.{Step, visited, pruned, served_pruned}
use armature_ratelimit.Middleware.Limits.{by_instant, fixed_served_bound, sliding_served_bound}
use armature_ratelimit.Middleware.Distributed.{distributed_bound}
use armature_ratelimit.Stores.RedisStore.SlidingHistories.{in_span}
use armature_ratelimit.DashMap.Assoc.{assoc_map}
use armature_ratelimit.Stores.MemoryStore.{memory_store}
use armature_ratelimit.Algorithms.Keyed.{of_key}
use armature_ratelimit.Algorithms.FixedWindow.Limits as FixedLimits
use armature_ratelimit.Algorithms.SlidingWindow.Log as SlidingLog
use armature_ratelimit.Limiter.{RateLimiter}

-- A middleware that lets requests through when the limiter fails, over a server that is silent.
abbrev lenient : RateLimitMiddleware fixed_point (redis_store fixed_point space decimal host 4)
lenient = record {
  limiter = record {
    state = mute;
    algorithm = fixed_window 2 500_000_000;
    config = default fixed_point;
  };
  key_extractor = ip;
  include_headers = true;
  error_message = codes "slow down";
  bypass_keys = [];
  skip_on_error = true;
  trusted_proxy_depth = 0;
  skip_on_error_count = 0;
  unkeyed_policy = deny;
  unkeyed_allow_count = 0;
}

check_outage_example :
    (response : RateLimitCheckResponse) × ((check fixed_point
        (redis_store fixed_point space decimal host 4)
        host
        lenient
        now
        now
        (with_ip (request_info (codes "/") (codes "GET")) (v4 7))).1
      ≡ ok response)
    × (is_allowed response ≡ true)
    × (headers response ≡ none)
    × ((check fixed_point
          (redis_store fixed_point space decimal host 4)
          host
          lenient
          now
          now
          (with_ip (request_info (codes "/") (codes "GET")) (v4 7))).0.skip_on_error_count
        ≡ 1)
unfolding extract with_ip ip_bucket
check_outage_example =
    check_outage fixed_point space decimal host 4 lenient now now
      (with_ip (request_info (codes "/") (codes "GET")) (v4 7)) (7 ∷ []) refl (λ c. c) tt

abbrev visit : Clock → ℕ → Visit
visit c a = record { asked = c; answered = c; info = from a }

abbrev instant : ℕ → Clock
instant t = record { instant = t; since_epoch = 5_000_000_000 }

-- A store with room for a hundred keys, which forgets a key that is idle for 600.
abbrev roomy : MemoryStore assoc_map fixed_point
roomy = record no_keys { idle_ttl = 600; max_keys = some 100 }

some-inj : {a b : ℕ} → some a ≡ some b → a ≡ b
some-inj e = cc

-- The address 7 has a window of 500 that is used up.
abbrev lasting : RateLimiter fixed_point (memory_store assoc_map fixed_point)
lasting = record {
  state = record roomy { fixed_windows = ((7 ∷ [], spent) ∷ [], (refl, tt)) };
  algorithm = fixed_window 2 500;
  config = default fixed_point;
}

abbrev steps : List Step
steps =
    visited (visit (instant 20) 7)
    ∷ visited (visit (instant 21) 8)
    ∷ visited (visit (instant 22) 7)
    ∷ pruned (instant 700)
    ∷ visited (visit (instant 700) 7)
    ∷ []

fixed_served_bound_example :
    FixedLimits.admitted_in 20 500 (
      of_key (7 ∷ []) (
        by_instant (
          served_pruned fixed_point
            (memory_store assoc_map fixed_point)
            host
            (guard lasting)
            steps)))
    ≤ 2 * 2
unfolding extract with_ip ip_bucket bypasses api_key_bucket text_eq Memory.fixed_window_check
    Memory.count_request
fixed_served_bound_example =
    fixed_served_bound assoc_map fixed_point host (guard lasting) steps (7 ∷ []) 2 500 20 0 refl
      refl (omega arith, tt) (omega arith)
      (omega arith, (omega arith, (omega arith, (omega arith, tt))))
      (λ max e. rw (← some-inj e) (omega arith, omega arith, omega arith), tt)

-- A sliding window of 500 over a store without keys.
abbrev sliding : RateLimiter fixed_point (memory_store assoc_map fixed_point)
sliding = record {
  state = roomy;
  algorithm = sliding_window_log 2 500;
  config = default fixed_point;
}

abbrev late_steps : List Step
late_steps =
    visited (visit (instant 520) 7)
    ∷ visited (visit (instant 521) 8)
    ∷ pruned (instant 522)
    ∷ visited (visit (instant 522) 7)
    ∷ visited (visit (instant 600) 7)
    ∷ []

sliding_served_bound_example :
    SlidingLog.admitted_in 520 500 (
      of_key (7 ∷ []) (
        by_instant (
          served_pruned fixed_point
            (memory_store assoc_map fixed_point)
            host
            (guard sliding)
            late_steps)))
    ≤ 2
unfolding extract with_ip ip_bucket bypasses api_key_bucket text_eq Memory.sliding_window_check
    Memory.log_request
sliding_served_bound_example =
    sliding_served_bound assoc_map fixed_point host (guard sliding) late_steps (7 ∷ []) 2 500 520 0
      refl refl refl (omega arith) (omega arith, (omega arith, (omega arith, (omega arith, tt))))
      (omega arith, (omega arith, (omega arith, (omega arith, tt))))
      (λ max e. rw (← some-inj e) (omega arith, omega arith, omega arith), tt)

-- The same over Redis, in milliseconds.
abbrev distributed : RateLimiter fixed_point (redis_store fixed_point space decimal telling 4)
distributed = record {
  state = started;
  algorithm = sliding_window_log 2 500_000_000;
  config = default fixed_point;
}

abbrev redis_visits : List Visit
redis_visits =
    visit (at 5_000) 7 ∷ visit (at 5_000) 8 ∷ visit (at 5_000) 7 ∷ visit (at 5_400) 7 ∷ []

distributed_bound_example :
    count_if
      (λ d. in_span telling 500_000_000 (key_digest telling (7 ∷ [])) 4_999 (d.1.0, d.0) && d.1.1)
      (served fixed_point
        (redis_store fixed_point space decimal telling 4)
        telling
        (guard distributed)
        redis_visits)
    ≤ 2
unfolding extract with_ip ip_bucket bypasses api_key_bucket text_eq key_digest hex Store.key
distributed_bound_example =
    distributed_bound fixed_point space decimal telling 4 telling-IsHost
      (keyspace-IsRedis fixed_point) decimal-IsLua fixed_point-IsIeee (guard distributed)
      redis_visits 2 500_000_000 (7 ∷ []) 4_999 refl refl (omega arith) (omega arith) (λ n s. refl)
      (
        omega arith,
        omega arith,
        (omega arith, omega arith, (omega arith, omega arith, (omega arith, omega arith, tt))),
      )
      (
        (omega arith, omega arith),
        (
          (omega arith, omega arith),
          ((omega arith, omega arith), ((omega arith, omega arith), tt)),
        ),
      )
      (omega arith, (omega arith, (omega arith, tt))) refl refl
