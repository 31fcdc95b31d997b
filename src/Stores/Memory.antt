-- ===== src/Stores/Memory.antt =====
-- src/stores/memory.rs: the in-memory store. Instants and durations are nanoseconds, and an
-- instant counts from the earliest one that the platform can represent.
pub mod Cap
pub mod Cleanup
pub mod Transparency
pub mod Forgetting
pub mod Remaining
pub mod Histories
pub mod Pruned
pub mod PrunedLogs
pub mod Kept
use armature_ratelimit.Algorithms.SlidingWindow.{Log, cutoff_at, prune, admit}
use armature_ratelimit.DashMap.Keys.{keys}
use armature_ratelimit.DashMap.Removal.{remove_all}
use armature_ratelimit.DashMap.{DashMap}
use armature_ratelimit.Float.{Float}
use armature_ratelimit.Outcome.{Outcome, ok, err, panic, ◌>>=◌}
use armature_ratelimit.Prelude.{
  ℕ, ◌+◌, ◌-◌, Bool, true, false, not, ◌&&◌, Option, none, some, List, [], ◌∷◌, ◌++◌, map, Text,
  codes, ltb, leb, if◌then◌else◌, unwrap_or, length, back, take, sort_by_key, count_if, map_option,
}

abbrev default_idle_ttl : ℕ
default_idle_ttl = 300_000_000_000

abbrev pub default_max_keys : ℕ
default_max_keys = 100_000

pub record TokenBucketState (fl : Float) : Type 0 where
  pub tokens : fl.F
  pub last_refill : ℕ

pub record FixedWindowState : Type 0 where
  pub count : ℕ
  pub window_start : ℕ
  pub limit : ℕ
  pub window : ℕ

pub record SlidingWindowState : Type 0 where
  pub log : Log
  pub limit : ℕ
  pub window : ℕ

abbrev pub sliding_default : SlidingWindowState
sliding_default = record { log = []; limit = 0; window = 0 }

pub record MemoryStore (dash : DashMap) (fl : Float) : Type 0 where
  pub token_buckets : dash.Map (TokenBucketState fl)
  pub sliding_logs : dash.Map SlidingWindowState
  pub fixed_windows : dash.Map FixedWindowState
  pub idle_ttl : ℕ
  pub max_keys : Option ℕ

-- The keys of a map with the instants that `f` finds in their entries, in the order of iteration.
abbrev pub stamped {ℓ} : {V : Type ℓ} → (V → ℕ) → List (Text × V) → List (Text × ℕ)
stamped f = map (λ e. (e.0, f e.1))

-- The same, without the entries that have none: `filter_map`.
abbrev pub dated {ℓ} : {V : Type ℓ} → (V → Option ℕ) → List (Text × V) → List (Text × ℕ)
dated f [] = []
dated f ((k, v) ∷ l) = elim (f v) [ none ↦ dated f l | some t ↦ (k, t) ∷ dated f l ]

module _ (fl : Float) where
  unfoldable pub refill_and_take :
      ℕ → fl.F → ℕ → TokenBucketState fl → TokenBucketState fl × (Bool × ℕ)
  refill_and_take capacity refill_rate now s =
      let elapsed = fl.as_secs (now - s.last_refill) in
      let tokens : fl.F =
        fl.fmin (fl.add s.tokens (fl.mul elapsed refill_rate)) (fl.of_u64 capacity) in
      if fl.le fl.one tokens
      then (
        record { tokens = fl.sub tokens fl.one; last_refill = now },
        (true, fl.to_u64 (fl.sub tokens fl.one)),
      )
      else (record { tokens = tokens; last_refill = now }, (false, 0))

unfoldable pub count_request : ℕ → ℕ → ℕ → FixedWindowState → FixedWindowState × (Bool × ℕ)
count_request max_requests window now s =
    let s' : FixedWindowState =
      if leb window (now - s.window_start)
      then record { count = 0; window_start = now; limit = max_requests; window = window }
      else record s { limit = max_requests; window = window } in
    if ltb s'.count max_requests
    then (record s' { count = s'.count + 1 }, (true, max_requests - (s'.count + 1)))
    else (s', (false, 0))

unfoldable pub log_request : ℕ → ℕ → ℕ → SlidingWindowState → SlidingWindowState × (Bool × ℕ)
log_request max_requests window now s =
    let out = admit max_requests now (prune (now - window) s.log) in
    (record { log = out.0; limit = max_requests; window = window }, out.1)

module _ (dash : DashMap) where
  -- The body that the three `cap_…` functions share, over the entries that each collects.
  pub cap_oldest : {V : Type 0} → dash.Map V → ℕ → List (Text × ℕ) → dash.Map V
  cap_oldest m max entries =
      if leb (dash.len m) max
      then m
      else remove_all dash m (keys (take (dash.len m - max) (sort_by_key (λ e. e.1) entries)))

module _ (dash : DashMap) (fl : Float) where
  unfoldable pub new : MemoryStore dash fl
  new = record {
    token_buckets = dash.empty;
    sliding_logs = dash.empty;
    fixed_windows = dash.empty;
    idle_ttl = default_idle_ttl;
    max_keys = some default_max_keys;
  }

  abbrev with_idle_ttl : MemoryStore dash fl → ℕ → MemoryStore dash fl
  with_idle_ttl s idle_ttl = record s { idle_ttl = idle_ttl }

  abbrev pub with_max_keys : MemoryStore dash fl → ℕ → MemoryStore dash fl
  with_max_keys s max_keys = record s { max_keys = some max_keys }

  abbrev without_max_keys : MemoryStore dash fl → MemoryStore dash fl
  without_max_keys s = record s { max_keys = none }

  abbrev key_count : MemoryStore dash fl → ℕ
  key_count s = dash.len s.token_buckets + dash.len s.sliding_logs + dash.len s.fixed_windows

  pub cap_token_buckets : MemoryStore dash fl → ℕ → MemoryStore dash fl
  unfolding cap_oldest
  cap_token_buckets s max = record s {
    token_buckets =
        cap_oldest dash s.token_buckets max
          (stamped (λ e. e.last_refill) (dash.iter s.token_buckets));
  }

  pub cap_fixed_windows : MemoryStore dash fl → ℕ → MemoryStore dash fl
  unfolding cap_oldest
  cap_fixed_windows s max = record s {
    fixed_windows =
        cap_oldest dash s.fixed_windows max
          (stamped (λ e. e.window_start) (dash.iter s.fixed_windows));
  }

  pub cap_sliding_logs : MemoryStore dash fl → ℕ → MemoryStore dash fl
  unfolding cap_oldest
  cap_sliding_logs s max = record s {
    sliding_logs =
        cap_oldest dash s.sliding_logs max (dated (λ e. back e.log) (dash.iter s.sliding_logs));
  }

  unfoldable pub token_bucket_check :
      MemoryStore dash fl → ℕ → Text → ℕ → fl.F → MemoryStore dash fl × Outcome (Bool × ℕ)
  token_bucket_check s now key capacity refill_rate =
      let entry =
        unwrap_or (dash.get s.token_buckets key)
          (record { tokens = fl.of_u64 capacity; last_refill = now }) in
      let out = refill_and_take fl capacity refill_rate now entry in
      (record s { token_buckets = dash.insert s.token_buckets key out.0 }, ok out.1)

  unfoldable pub sliding_window_check :
      MemoryStore dash fl → ℕ → Text → ℕ → ℕ → MemoryStore dash fl × Outcome (Bool × ℕ)
  sliding_window_check s now key max_requests window =
      if ltb now window
      then (s, panic)
      else (let entry = unwrap_or (dash.get s.sliding_logs key) sliding_default in
          let out = log_request max_requests window now entry in
          (record s { sliding_logs = dash.insert s.sliding_logs key out.0 }, ok out.1))

  unfoldable pub fixed_window_check :
      MemoryStore dash fl → ℕ → Text → ℕ → ℕ → MemoryStore dash fl × Outcome (Bool × ℕ)
  fixed_window_check s now key max_requests window =
      let entry =
        unwrap_or (dash.get s.fixed_windows key)
          (record { count = 0; window_start = now; limit = max_requests; window = window }) in
      let out = count_request max_requests window now entry in
      (record s { fixed_windows = dash.insert s.fixed_windows key out.0 }, ok out.1)

  unfoldable pub reset : MemoryStore dash fl → Text → MemoryStore dash fl × Outcome (Unit {0})
  reset s key = (
    record s {
      token_buckets = dash.remove s.token_buckets key;
      sliding_logs = dash.remove s.sliding_logs key;
      fixed_windows = dash.remove s.fixed_windows key;
    },
    ok tt,
  )

  pub remaining_sliding : Option SlidingWindowState → ℕ → ℕ
  remaining_sliding none now = 0
  remaining_sliding (some e) now = e.limit - count_if (λ t. ltb (now - t) e.window) e.log

  unfoldable pub remaining : MemoryStore dash fl → ℕ → Text → Outcome ℕ
  unfolding remaining_sliding
  remaining s now key = elim (dash.get s.token_buckets key) [
    | some e ↦ ok (fl.to_u64 (fl.fmax e.tokens fl.nought))
    | none ↦ elim (dash.get s.fixed_windows key) [
      | some e ↦ if leb e.window (now - e.window_start) then ok e.limit else ok (e.limit - e.count)
      | none ↦ ok (remaining_sliding (dash.get s.sliding_logs key) now)
    ]
  ]

  abbrev pub is_idle : MemoryStore dash fl → ℕ → ℕ → Bool
  is_idle s now last = leb s.idle_ttl (now - last)

  abbrev pub is_live_log : MemoryStore dash fl → ℕ → SlidingWindowState → Bool
  is_live_log s now e = elim (back e.log) [ none ↦ false | some last ↦ not (is_idle s now last) ]

  -- The three `retain` calls of `cleanup`.
  pub drop_idle : MemoryStore dash fl → ℕ → MemoryStore dash fl
  drop_idle s now = record s {
    token_buckets = dash.retain (λ e. not (is_idle s now e.last_refill)) s.token_buckets;
    sliding_logs = dash.retain (is_live_log s now) s.sliding_logs;
    fixed_windows = dash.retain (λ e. not (is_idle s now e.window_start)) s.fixed_windows;
  }

  pub cap_all : MemoryStore dash fl → Option ℕ → MemoryStore dash fl
  cap_all s none = s
  cap_all s (some max) = cap_fixed_windows (cap_sliding_logs (cap_token_buckets s max) max) max

  pub cleanup : MemoryStore dash fl → ℕ → MemoryStore dash fl × Outcome (Unit {0})
  unfolding drop_idle cap_all
  cleanup s now = (cap_all (drop_idle s now) s.max_keys, ok tt)

abbrev pub store_type : Text
store_type = codes "memory"
