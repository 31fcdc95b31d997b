-- ===== src/Tests/World.antt =====
-- Hosts, stores and limiters for the tests on requests.
use armature_ratelimit.Algorithms.{token_bucket, fixed_window}
use armature_ratelimit.Config.{default}
use armature_ratelimit.DashMap.Assoc.{assoc_map}
use armature_ratelimit.Extractor.Keys.{IsHost}
use armature_ratelimit.Extractor.{Host}
use armature_ratelimit.Float.Fixed.{fixed_point}
use armature_ratelimit.Limiter.{RateLimiter, RateLimitCheckResult}
use armature_ratelimit.Outcome.{err, timeout}
use armature_ratelimit.Prelude.{ℕ, refl, arith, false, some, List, [], ◌∷◌, codes}
use armature_ratelimit.Stores.MemoryStore.{memory_store}
use armature_ratelimit.Stores.{RateLimitStore, Clock}
use armature_ratelimit.Tests.Data.{no_keys, spent}

abbrev digest : List ℕ
digest =
    1 ∷ 2 ∷ 3 ∷ 4 ∷ 5 ∷ 6 ∷ 7 ∷ 8 ∷ 1 ∷ 2 ∷ 3 ∷ 4 ∷ 5 ∷ 6 ∷ 7 ∷ 8 ∷ 1 ∷ 2 ∷ 3 ∷ 4 ∷ 5 ∷ 6 ∷ 7 ∷ 8
    ∷ 1 ∷ 2 ∷ 3 ∷ 4 ∷ 5 ∷ 6 ∷ 7 ∷ 8 ∷ []

abbrev pub host : Host
host = record { sha256 = λ key. digest; show_v4 = λ a. a ∷ []; show_v6 = λ a. a ∷ [] }

pub host-IsHost : IsHost host
host-IsHost = record {
  show_v4_inj = λ a b h k e. ground arith;
  show_v6_inj = λ a b h k e. ground arith;
  length-sha256 = λ key. refl;
}

abbrev pub now : Clock
now = record { instant = 20; since_epoch = 5_000_000_000 }

-- The address 7 has used up its window.
abbrev pub denying : RateLimiter fixed_point (memory_store assoc_map fixed_point)
denying = record {
  state = record no_keys { fixed_windows = ((7 ∷ [], spent) ∷ [], (refl, tt)) };
  algorithm = fixed_window 2 500;
  config = default fixed_point;
}

abbrev pub busy : RateLimitCheckResult
busy = record {
  is_allowed = false;
  remaining = 0;
  limit = 2;
  reset_at = 5;
  retry_after = some 1_000_000;
}

-- A store that does not answer.
abbrev pub failing_store : RateLimitStore fixed_point
failing_store = record {
  State = Unit;
  token_bucket_check = λ s now key capacity rate. (s, err timeout);
  sliding_window_check = λ s now key max_requests window. (s, err timeout);
  fixed_window_check = λ s now key max_requests window. (s, err timeout);
  reset = λ s now key. (s, err timeout);
  remaining = λ s now key. (s, err timeout);
  cleanup = λ s now. (s, err timeout);
  store_type = codes "failing";
}

abbrev pub failing : RateLimiter fixed_point failing_store
failing = record { state = tt; algorithm = fixed_window 2 500; config = default fixed_point }

-- A bucket with a tiny rate, empty.
abbrev pub tiny : RateLimiter fixed_point (memory_store assoc_map fixed_point)
tiny = record {
  state = record no_keys {
    token_buckets = ((7 ∷ [], record { tokens = 0; last_refill = 20 }) ∷ [], (refl, tt));
  };
  algorithm = token_bucket 1 1;
  config = default fixed_point;
}
