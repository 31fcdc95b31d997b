-- ===== src/Algorithms.antt =====
-- src/algorithms/mod.rs: the bound on retained keys that the three in-process limiters share.
pub mod Eviction
pub mod Keyed
pub mod FixedWindow
pub mod SlidingWindow
pub mod TokenBucket
use armature_ratelimit.DashMap.{DashMap}
use armature_ratelimit.DashMap.Keys.{keys}
use armature_ratelimit.DashMap.Removal.{remove_all}
use armature_ratelimit.Float.{Float}
use armature_ratelimit.Prelude.{
  ℕ, ◌+◌, ◌/◌, min, max, Bool, not, ◌&&◌, Option, none, some, List, [], ◌∷◌, map, Text, length,
  take, leb, ltb, ◌==◌, if◌then◌else◌, sort_by_key,
}

abbrev eviction_batch_divisor : ℕ
eviction_batch_divisor = 64

pub eviction_batch_size : ℕ → ℕ
eviction_batch_size max_keys = max (max_keys / eviction_batch_divisor) 1

-- The derived order of `Option<Instant>`: `None` before every `Some`.
abbrev pub rank : Option ℕ → ℕ
rank none = 0
rank (some t) = t + 1

-- One result that `select_nth_unstable_by_key` may leave: the entries sorted by age.
abbrev pub select_oldest : ℕ → List (Text × Option ℕ) → List (Text × Option ℕ)
select_oldest batch entries =
    if ltb batch (length entries) then sort_by_key (λ e. rank e.1) entries else entries

module _ (dash : DashMap) {V : Type 0} where
  pub evict_oldest_batch : dash.Map V → ℕ → (V → Option ℕ) → dash.Map V
  evict_oldest_batch m batch last_active =
      if batch == 0
      then m
      else (let entries = map (λ e. (e.0, last_active e.1)) (dash.iter m) in
          let batch' = min batch (length entries) in
          remove_all dash m (keys (take batch' (select_oldest batch' entries))))

  -- The opening test of each `try_acquire`, with the limiter's `evict_oldest`.
  pub make_room : dash.Map V → ℕ → (V → Option ℕ) → Text → dash.Map V
  make_room m max_keys last_active key =
      if not (dash.contains_key m key) && leb max_keys (dash.len m)
      then evict_oldest_batch m (eviction_batch_size max_keys) last_active
      else m

-- `Algorithm`, with windows in nanoseconds.
pub data Algorithm (fl : Float) : Type 0 where
  token_bucket : (capacity : ℕ) (refill_rate : fl.F) → Algorithm fl
  sliding_window_log : (max_requests window : ℕ) → Algorithm fl
  fixed_window : (max_requests window : ℕ) → Algorithm fl

module _ (fl : Float) where
  abbrev token_bucket_default : Algorithm fl
  token_bucket_default = token_bucket 100 (fl.of_u64 10)

  abbrev sliding_window_default : Algorithm fl
  sliding_window_default = sliding_window_log 100 60_000_000_000

  abbrev fixed_window_default : Algorithm fl
  fixed_window_default = fixed_window 100 60_000_000_000

  unfoldable pub limit : Algorithm fl → ℕ
  limit (token_bucket capacity refill_rate) = capacity
  limit (sliding_window_log max_requests window) = max_requests
  limit (fixed_window max_requests window) = max_requests
