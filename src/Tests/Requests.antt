-- ===== src/Tests/Requests.antt =====
-- The theorems on src/lib.rs, src/config.rs and src/error.rs at concrete inputs.
use armature_ratelimit.Algorithms.{Algorithm, fixed_window, limit}
use armature_ratelimit.Config.Builder as Builder
use armature_ratelimit.Config.{validate_algorithm}
use armature_ratelimit.DashMap.Assoc.{assoc_map}
use armature_ratelimit.Float.Fixed.{fixed_point, fixed_point-IsIeee}
use armature_ratelimit.Headers.Digits.{read_pair, IsDigit, to_header_pairs_lem}
use armature_ratelimit.Headers.{RateLimitHeaders, to_header_pairs}
use armature_ratelimit.Limiter.Prune.{
  Event, ticked, asked, spawn, tick, on_event, on_events, on_events-AllWithin,
}
use armature_ratelimit.Stores.Memory.Cleanup.{AllWithin}
use armature_ratelimit.Limiter.Waits.{wait, retry_too_early}
use armature_ratelimit.Stores.{Clock}
use armature_ratelimit.Stores.Memory.{FixedWindowState}
use armature_ratelimit.Limiter.Replies.{ask, check-eq-ok, tiny_rate_panics, fixed_window_result_lem}
use armature_ratelimit.Limiter.{
  RateLimiter, RateLimitCheckResult, check, reset_at_ms, fixed_window_result, denied, ns_per_ms,
  u64_mod,
}
use armature_ratelimit.Outcome.{Outcome, ok, panic}
use armature_ratelimit.Prelude.{
  List, map, ℕ, ◌+◌, ◌⊎◌, Text, ◌*◌, ◌/◌, ◌%◌, ◌≤◌, ◌<◌, ◌≡◌, refl, Bool, true, false, none, some,
  [], ◌∷◌, All, codes, arith, text_eq, if◌then◌else◌,
}
use armature_ratelimit.Tests.World.{now, busy, denying, tiny}
use armature_ratelimit.Stores.Memory
use armature_ratelimit.Stores.{memory, redis, RateLimitStore}
use armature_ratelimit.Stores.MemoryStore.{memory_store}

check-eq-ok_example :
    (reply : Bool × ℕ) × ((ask fixed_point
        (memory_store assoc_map fixed_point)
        denying.algorithm
        denying.state
        now
        (7 ∷ [])).1
      ≡ ok reply)
    × ((check fixed_point (memory_store assoc_map fixed_point) denying now now (7 ∷ [])).0.state
        ≡ (ask fixed_point
            (memory_store assoc_map fixed_point)
            denying.algorithm
            denying.state
            now
            (7 ∷ [])).0)
    × (busy.is_allowed ≡ reply.0)
    × (busy.remaining ≡ (if reply.0 then reply.1 else 0))
    × (busy.limit ≡ 2)
unfolding check Memory.fixed_window_check fixed_window_result Memory.count_request text_eq denied
    reset_at_ms limit
check-eq-ok_example =
    check-eq-ok fixed_point (memory_store assoc_map fixed_point) denying now now (7 ∷ []) busy refl

tiny_rate_panics_example :
    (validate_algorithm fixed_point tiny.algorithm ≡ ok tt)
    × ((check fixed_point (memory_store assoc_map fixed_point) tiny now now (7 ∷ [])).1 ≡ panic)
unfolding Memory.token_bucket_check Memory.refill_and_take text_eq
tiny_rate_panics_example =
    tiny_rate_panics fixed_point (memory_store assoc_map fixed_point) fixed_point-IsIeee tiny now
      now (7 ∷ []) 0 1 0 refl refl refl refl refl

-- A denial five seconds into a window of a minute.
abbrev full_minute : RateLimitCheckResult
full_minute = record {
  is_allowed = false;
  remaining = 0;
  limit = 2;
  reset_at = 60;
  retry_after = some 55_000_000_000;
}

fixed_window_result_lem_example :
    (5 ≤ 60)
    × (60 * 1000 ≤ 65_000)
    × (60_000 % 1000 ≡ 0 → 5_000 < 60 * 1000)
    × (false ≡ false
        → (wait : ℕ) × (full_minute.retry_after ≡ some (wait * ns_per_ms))
          × (0 < wait)
          × (wait ≤ 60_000)
          × ((5_000 + wait) % 60_000 ≡ 0)
          × ((5_000 + wait) / 1000 ≡ 60))
unfolding fixed_window_result reset_at_ms denied
fixed_window_result_lem_example =
    fixed_window_result_lem 2 60_000_000_000 now (false, 0) full_minute (omega arith) refl

abbrev wanted : Builder.RateLimiterBuilder fixed_point
wanted = record {
  algorithm = some (fixed_window 2 500);
  store_type = memory;
  key_prefix = codes "ratelimit";
  include_headers = true;
  skip_on_error = false;
  error_message = none;
  bypass_keys = [];
  operation_timeout = 3_000_000_000;
  trusted_proxy_depth = 0;
  redis_url = none;
}

abbrev built : RateLimiter fixed_point (memory_store assoc_map fixed_point)
built = record {
  state = record {
    token_buckets = ([], tt);
    sliding_logs = ([], tt);
    fixed_windows = ([], tt);
    idle_ttl = 300_000_000_000;
    max_keys = some 100_000;
  };
  algorithm = fixed_window 2 500;
  config = record {
    algorithm = fixed_window 2 500;
    store_type = memory;
    key_prefix = codes "ratelimit";
    include_headers = true;
    skip_on_error = false;
    error_message = none;
    bypass_keys = [];
    operation_timeout = 3_000_000_000;
    trusted_proxy_depth = 0;
  };
}

build-eq-ok_example :
    (a : Algorithm fixed_point) × (wanted.algorithm ≡ some a)
    × (validate_algorithm fixed_point a ≡ ok tt)
    × (built.algorithm ≡ a)
    × (built.config ≡ record built.config { algorithm = a })
    × (((wanted.store_type ≡ memory)
          × (◌≡◌ {A = (store : RateLimitStore fixed_point) × store.State}
              (memory_store assoc_map fixed_point, built.state)
              (memory_store assoc_map fixed_point, Memory.new assoc_map fixed_point)))
        ⊎ (wanted.store_type ≡ redis)
          × (dial : Text → Text → ℕ → Outcome ((store : RateLimitStore fixed_point) × store.State))
          × (url : Text) × (none ≡ some dial)
          × (wanted.redis_url ≡ some url)
          × (dial url (codes "ratelimit") 3_000_000_000
              ≡ ok (memory_store assoc_map fixed_point, built.state)))
unfolding Builder.build validate_algorithm Builder.open_store Builder.start Builder.config_of
    Memory.new
build-eq-ok_example =
    Builder.build-eq-ok fixed_point assoc_map none wanted (memory_store assoc_map fixed_point) built
      refl

-- Half a second into a window of a second, 100 ms before the next full second of the epoch.
abbrev denied_at : Clock
denied_at = record { instant = 1_000_000_000; since_epoch = 900_000_000 }

abbrev retried_at : Clock
retried_at = record { instant = 1_100_000_000; since_epoch = 1_000_000_000 }

abbrev half_used : FixedWindowState
half_used = record { count = 2; window_start = 500_000_000; limit = 2; window = 1_000_000_000 }

abbrev halfway : RateLimiter fixed_point (memory_store assoc_map fixed_point)
halfway = record denying {
  state = record denying.state { fixed_windows = ((7 ∷ [], half_used) ∷ [], (refl, tt)) };
  algorithm = fixed_window 2 1_000_000_000;
}

retry_too_early_example :
    ((check fixed_point (memory_store assoc_map fixed_point) halfway denied_at denied_at (7 ∷ [])).1
      ≡ ok (
          denied 2
            (reset_at_ms 1_000_000_000 denied_at / 1000 % u64_mod)
            (wait assoc_map fixed_point 1_000_000_000 denied_at)))
    × ((check fixed_point
          (memory_store assoc_map fixed_point)
          (check fixed_point
            (memory_store assoc_map fixed_point)
            halfway
            denied_at
            denied_at
            (7 ∷ [])).0
          retried_at
          retried_at
          (7 ∷ [])).1
        ≡ ok (
            denied 2
              (reset_at_ms 1_000_000_000 retried_at / 1000 % u64_mod)
              (wait assoc_map fixed_point 1_000_000_000 retried_at)))
unfolding text_eq reset_at_ms
retry_too_early_example =
    retry_too_early assoc_map fixed_point halfway denied_at retried_at (7 ∷ []) 2 1_000_000_000
      half_used refl refl (omega arith) refl (omega arith)

abbrev shown : RateLimitHeaders
shown = record { limit = 100; remaining = 0; reset = 1_700_000_000; retry_after = some 30 }

to_header_pairs_lem_example :
    (map read_pair (to_header_pairs shown)
      ≡ (codes "X-RateLimit-Limit", 100)
        ∷ (codes "X-RateLimit-Remaining", 0)
        ∷ (codes "X-RateLimit-Reset", 1_700_000_000)
        ∷ (codes "Retry-After", 30)
        ∷ [])
    × All (λ p. All IsDigit p.1) (to_header_pairs shown)
to_header_pairs_lem_example =
    to_header_pairs_lem shown (omega arith) (omega arith) (omega arith) (omega arith, tt)

abbrev past : List Event
past = ticked now ∷ asked now now (7 ∷ []) ∷ []

on_events-AllWithin_example :
    AllWithin
      (on_event fixed_point
        (memory_store assoc_map fixed_point)
        (on_events fixed_point
          (memory_store assoc_map fixed_point)
          (spawn fixed_point (memory_store assoc_map fixed_point) denying)
          past)
        (ticked now)).limiter.state
      1
unfolding on_events on_event tick spawn
on_events-AllWithin_example =
    on_events-AllWithin assoc_map fixed_point denying past now 1 refl refl refl
