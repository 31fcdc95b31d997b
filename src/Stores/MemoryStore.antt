-- ===== src/Stores/MemoryStore.antt =====
-- src/stores/memory.rs: `impl RateLimitStore for MemoryStore`.
use armature_ratelimit.DashMap.{DashMap}
use armature_ratelimit.Float.{Float}
use armature_ratelimit.Stores.Memory
use armature_ratelimit.Stores.{RateLimitStore}

abbrev pub memory_store : (dash : DashMap) (fl : Float) → RateLimitStore fl
memory_store dash fl = record {
  State = Memory.MemoryStore dash fl;
  token_bucket_check =
      λ s now key capacity rate. Memory.token_bucket_check dash fl s now.instant key capacity rate;
  sliding_window_check = λ s now key max_requests window.
      Memory.sliding_window_check dash fl s now.instant key max_requests window;
  fixed_window_check = λ s now key max_requests window.
      Memory.fixed_window_check dash fl s now.instant key max_requests window;
  reset = λ s now key. Memory.reset dash fl s key;
  remaining = λ s now key. (s, Memory.remaining dash fl s now.instant key);
  cleanup = λ s now. Memory.cleanup dash fl s now.instant;
  store_type = Memory.store_type;
}
