-- ===== src/Tests/Data.antt =====
-- Inputs that the tests share.
use armature_ratelimit.Algorithms.FixedWindow.{FixedWindow}
use armature_ratelimit.Algorithms.SlidingWindow.{SlidingWindowLog}
use armature_ratelimit.Algorithms.TokenBucket.{TokenBucket}
use armature_ratelimit.DashMap.Assoc.{assoc_map}
use armature_ratelimit.Float.Fixed.{fixed_point}
use armature_ratelimit.Prelude.{ℕ, ◌^◌, some, List, [], ◌∷◌, Text, codes, refl}
use armature_ratelimit.Stores.Memory.{MemoryStore, FixedWindowState, SlidingWindowState}

abbrev pub alice : Text
alice = codes "alice"

abbrev pub bob : Text
bob = codes "bob"

abbrev pub calls : List (Text × ℕ)
calls = (alice, 10) ∷ (bob, 11) ∷ (alice, 12) ∷ (alice, 13) ∷ []

abbrev pub no_keys : MemoryStore assoc_map fixed_point
no_keys = record {
  token_buckets = ([], tt);
  sliding_logs = ([], tt);
  fixed_windows = ([], tt);
  idle_ttl = 100;
  max_keys = some 1;
}

-- One exhausted window of 500, opened at 10.
abbrev pub spent : FixedWindowState
spent = record { count = 2; window_start = 10; limit = 2; window = 500 }

abbrev pub spent_store : MemoryStore assoc_map fixed_point
spent_store = record no_keys { fixed_windows = ((alice, spent) ∷ [], (refl, tt)) }

-- A full log of a window of 90.
abbrev pub full_log : SlidingWindowState
full_log = record { log = 10 ∷ 20 ∷ []; limit = 2; window = 90 }

abbrev pub logged_store : MemoryStore assoc_map fixed_point
logged_store = record no_keys { sliding_logs = ((alice, full_log) ∷ [], (refl, tt)) }

abbrev pub fixed_limiter : FixedWindow assoc_map
fixed_limiter = record { max_requests = 2; window = 5; windows = ([], tt); max_keys = 8 }

abbrev pub sliding_limiter : SlidingWindowLog assoc_map
sliding_limiter = record { max_requests = 2; window = 5; logs = ([], tt); max_keys = 8 }

abbrev pub bucket_limiter : TokenBucket assoc_map fixed_point
bucket_limiter = record { capacity = 2; refill_rate = 10 ^ 30; buckets = ([], tt); max_keys = 8 }
