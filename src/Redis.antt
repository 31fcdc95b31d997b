-- ===== src/Redis.antt =====
-- What src/stores/redis.rs takes from elsewhere: the Redis server with its commands, the Lua that
-- runs its scripts, and the conversions of the `redis` package. Redis/Laws has what is documented of
-- them.
pub mod Laws
pub mod Expiry
pub mod Space
pub mod Keyspace
pub mod Writes
pub mod Zsets
pub mod Hashes
pub mod Decimal
use armature_ratelimit.Float.{Float}
use armature_ratelimit.Prelude.{
  ℕ, Bool, true, false, Option, none, some, List, Text, leb, if◌then◌else◌,
}

-- The reply of the server, or the text of its error.
pub data Answer {ℓ} (A : Type ℓ) : Type ℓ where
  done : A → Answer A
  failed : Text → Answer A

pub data Value (fl : Float) : Type 0 where
  string : Text → Value fl
  hash : List (Text × Text) → Value fl
  zset : List (Text × fl.F) → Value fl

-- A key's value, and the server's time in milliseconds from which on it is expired.
pub record Held (fl : Float) : Type 0 where
  pub value : Value fl
  pub deadline : Option ℕ

abbrev pub expired : Option ℕ → ℕ → Bool
expired none t = false
expired (some d) t = leb d t

abbrev pub still : {fl : Float} → ℕ → Option (Held fl) → Option (Held fl)
still t none = none
still t (some h) = if expired h.deadline t then none else some h

-- The writing commands whose replies the scripts ignore. A score is a double, a time to live the
-- text of the argument, in seconds.
pub data Write (fl : Float) : Type 0 where
  hmset : (field value field' value' : Text) → Write fl
  expire : (ttl : Text) → Write fl
  set_ex : (value ttl : Text) → Write fl
  zremrangebyscore : (low high : fl.F) → Write fl
  zadd : (score : fl.F) (member : Text) → Write fl

-- One call is atomic, and made at a time of the server's. An integer reply is the residue of its
-- 64 bits.
pub record Redis (fl : Float) : Type 1 where
  pub Server : Type 0
  -- What a key holds at a time.
  pub held : Server → ℕ → Text → Option (Held fl)
  pub write : Server → ℕ → Text → Write fl → Server × Answer (Unit {0})
  pub incr : Server → ℕ → Text → Server × Answer ℕ
  pub unlink : Server → ℕ → List Text → Server × Answer (Unit {0})
  pub get : Server → ℕ → Text → Answer (Option Text)
  pub mget : Server → ℕ → Text → Text → Text → Answer (Option Text × (Option Text × Option Text))
  pub hget : Server → ℕ → Text → Text → Answer (Option Text)
  pub hmget : Server → ℕ → Text → Text → Text → Answer (Option Text × Option Text)
  pub zcard : Server → ℕ → Text → Answer ℕ
  -- `SCAN cursor MATCH pattern COUNT 100`
  pub scan : Server → ℕ → (cursor : ℕ) → (pattern : Text) → Answer (ℕ × List Text)
  pub matches : (pattern : Text) → Text → Bool
  -- The keys that an iteration still has to visit from a cursor on, and the calls it may still take.
  pub ahead : Server → (cursor : ℕ) → Text → Bool
  pub rounds : Server → (cursor : ℕ) → ℕ

-- Numbers as text: what Lua and the client read and print.
pub record Lua (fl : Float) : Type 0 where
  pub tonumber : Text → Option fl.F
  -- A number as an argument of a command, and under `..`.
  pub arg_text : fl.F → Text
  pub concat_text : fl.F → Text
  pub ceil : fl.F → fl.F
  pub floor : fl.F → fl.F
  -- An integer reply as a number, and a number as the integer reply of a script.
  pub of_reply : ℕ → fl.F
  pub to_reply : fl.F → ℕ
  -- `f64` as an argument, and `u64` and `f64` from a reply.
  pub f64_text : fl.F → Text
  pub read_u64 : Text → Option ℕ
  pub read_f64 : Text → Option fl.F
  -- The errors of arithmetic or a command on a `nil`, and of a reply that does not convert.
  pub nil_error : Text
  pub type_error : Text
