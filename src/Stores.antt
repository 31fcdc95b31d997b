-- ===== src/Stores.antt =====
-- src/stores/mod.rs: the interface of a store.
pub mod Calls
pub mod Memory
pub mod MemoryStore
pub mod RedisScripts
pub mod RedisStore
use armature_ratelimit.Float.{Float}
use armature_ratelimit.Outcome.{Outcome}
use armature_ratelimit.Prelude.{ℕ, Bool, Text}

pub data StoreType : Type 0 where
  memory redis : StoreType

abbrev store_type_default : StoreType
store_type_default = memory

-- The clocks that a call may read: `Instant::now()` in nanoseconds, and the nanoseconds since the
-- Unix epoch of `SystemTime::now()`.
pub record Clock : Type 0 where
  pub instant : ℕ
  pub since_epoch : ℕ

-- `RateLimitStore`. A call returns the store that it leaves behind, also beside an error.
pub record RateLimitStore (fl : Float) : Type 1 where
  pub State : Type 0
  pub token_bucket_check : State → Clock → Text → ℕ → fl.F → State × Outcome (Bool × ℕ)
  pub sliding_window_check : State → Clock → Text → ℕ → ℕ → State × Outcome (Bool × ℕ)
  pub fixed_window_check : State → Clock → Text → ℕ → ℕ → State × Outcome (Bool × ℕ)
  pub reset : State → Clock → Text → State × Outcome (Unit {0})
  pub remaining : State → Clock → Text → State × Outcome ℕ
  pub cleanup : State → Clock → State × Outcome (Unit {0})
  pub store_type : Text
