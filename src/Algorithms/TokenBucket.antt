-- ===== src/Algorithms/TokenBucket.antt =====
-- src/algorithms/token_bucket.rs. `try_acquire` reads the clock twice, for the bucket that it may
-- create and for the refill, so that a call carries two instants.
pub mod Bounds
pub mod Burst
use armature_ratelimit.Algorithms.{make_room}
use armature_ratelimit.DashMap.{DashMap}
use armature_ratelimit.Float.{Float}
use armature_ratelimit.Outcome.{Outcome, ok, panic, ◌>>=◌, assert}
use armature_ratelimit.Prelude.{
  ℕ, ◌-◌, max, Bool, true, false, Option, none, some, List, [], ◌∷◌, Text, ltb, leb, if◌then◌else◌,
  unwrap_or,
}

abbrev pub default_max_keys : ℕ
default_max_keys = 100_000

pub record BucketState (fl : Float) : Type 0 where
  pub tokens : fl.F
  pub last_refill : ℕ

pub record TokenBucket (dash : DashMap) (fl : Float) : Type 0 where
  pub capacity : ℕ
  pub refill_rate : fl.F
  pub buckets : dash.Map (BucketState fl)
  pub max_keys : ℕ

module _ (fl : Float) where
  abbrev pub last_active : BucketState fl → Option ℕ
  last_active s = some s.last_refill

  abbrev pub full : ℕ → ℕ → BucketState fl
  full capacity now = record { tokens = fl.of_u64 capacity; last_refill = now }

  unfoldable pub refill : ℕ → fl.F → ℕ → BucketState fl → BucketState fl
  refill capacity refill_rate now s =
      let elapsed = fl.as_secs (now - s.last_refill) in
      let new_tokens = fl.mul elapsed refill_rate in
      record {
        tokens = fl.fmin (fl.add s.tokens new_tokens) (fl.of_u64 capacity);
        last_refill = now;
      }

  -- `if entry.tokens >= 1.0 { … }`
  unfoldable pub consume : BucketState fl → BucketState fl × (Bool × ℕ)
  consume s =
      if fl.le fl.one s.tokens
      then (
        record s { tokens = fl.sub s.tokens fl.one },
        (true, fl.to_u64 (fl.sub s.tokens fl.one)),
      )
      else (s, (false, 0))

  -- What `try_acquire` does with the entry of its key.
  abbrev pub step : ℕ → fl.F → Option (BucketState fl) → ℕ × ℕ → BucketState fl × (Bool × ℕ)
  step capacity refill_rate entry at =
      consume (refill capacity refill_rate at.1 (unwrap_or entry (full capacity at.0)))

module _ (dash : DashMap) (fl : Float) where
  unfoldable pub new : ℕ → fl.F → Outcome (TokenBucket dash fl)
  new capacity refill_rate = do
    _ ← assert (ltb 0 capacity)
    _ ← assert (fl.lt fl.nought refill_rate)
    ok (record {
      capacity = capacity;
      refill_rate = refill_rate;
      buckets = dash.empty;
      max_keys = default_max_keys;
    })

  abbrev pub with_max_keys : TokenBucket dash fl → ℕ → TokenBucket dash fl
  with_max_keys l max_keys = record l { max_keys = max max_keys 1 }

  unfoldable pub try_acquire : TokenBucket dash fl → Text → ℕ × ℕ → TokenBucket dash fl × (Bool × ℕ)
  try_acquire l key at =
      let room = make_room dash l.buckets l.max_keys (last_active fl) key in
      let (s, reply) = step fl l.capacity l.refill_rate (dash.get room key) at in
      (record l { buckets = dash.insert room key s }, reply)

  abbrev pub check : TokenBucket dash fl → Text → ℕ × ℕ → TokenBucket dash fl × (Bool × ℕ)
  check = try_acquire

  unfoldable pub reset : TokenBucket dash fl → Text → ℕ → TokenBucket dash fl
  reset l key now = record l { buckets = dash.insert l.buckets key (full fl l.capacity now) }

  unfoldable pub remaining : TokenBucket dash fl → Text → ℕ
  remaining l key = elim (dash.get l.buckets key) [
    | none ↦ l.capacity
    | some s ↦ fl.to_u64 s.tokens
  ]

  -- A history of calls, with the decision of each.
  unfoldable pub run : TokenBucket dash fl → List (Text × (ℕ × ℕ)) → List (Text × ((ℕ × ℕ) × Bool))
  run l [] = []
  run l ((key, at) ∷ calls) =
      (key, (at, (try_acquire l key at).1.0)) ∷ run (try_acquire l key at).0 calls
