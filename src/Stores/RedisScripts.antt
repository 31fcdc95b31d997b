-- ===== src/Stores/RedisScripts.antt =====
-- src/stores/redis.rs: the Lua scripts. A script runs atomically at one time of the server; an
-- error of a command or of Lua ends it, and what it wrote until then stays.
pub mod Counter
pub mod Counting
pub mod Members
pub mod Sliding
pub mod Logging
pub mod Admits
pub mod LogSteps
pub mod Untouched
pub mod Bucket
use armature_ratelimit.Float.{Float}
use armature_ratelimit.Prelude.{
  ℕ, Bool, true, false, ◌&&◌, Option, none, some, List, [], ◌∷◌, Text, codes, ◌++◌, unwrap_or,
  if◌then◌else◌,
}
use armature_ratelimit.Redis.{
  Redis, Lua, Answer, done, failed, Write, hmset, expire, set_ex, zremrangebyscore, zadd,
}

-- `a == b` on numbers.
abbrev pub equals : (fl : Float) → fl.F → fl.F → Bool
equals fl x y = fl.le x y && fl.le y x

module _ (fl : Float) (r : Redis fl) where
  abbrev pub Run : Type 0 → Type 0
  Run A = r.Server → ℕ → r.Server × Answer A

  abbrev after : {A B : Type 0} → (A → Run B) → ℕ → r.Server × Answer A → r.Server × Answer B
  after next t (s, done a) = next a s t
  after next t (s, failed e) = (s, failed e)

  infixl 5 ◌>>=◌ ◌>>◌
  abbrev pub ◌>>=◌ : {A B : Type 0} → Run A → (A → Run B) → Run B
  ◌>>=◌ m next s t = after next t (m s t)

  abbrev pub ◌>>◌ : {A B : Type 0} → Run A → Run B → Run B
  m >> next = m >>= (λ _. next)

  abbrev pub give : {A : Type 0} → A → Run A
  give a s t = (s, done a)

  -- `redis.call`, of a command that reads, of `INCR`, and of one that writes.
  abbrev pub read : {A : Type 0} → (r.Server → ℕ → Answer A) → Run A
  read query s t = (s, query s t)

  abbrev pub incr : Text → Run ℕ
  incr key s t = r.incr s t key

  abbrev pub call : Text → Write fl → Run (Unit {0})
  call key w s t = r.write s t key w

  module _ (lua : Lua fl) where
    -- The use of a number that may be `nil`.
    abbrev given : Option fl.F → Run fl.F
    given none s t = (s, failed lua.nil_error)
    given (some x) s t = (s, done x)

    -- `tonumber` of a reply, where a missing one is `false`.
    abbrev pub number_or : Option Text → fl.F → fl.F
    number_or none x = x
    number_or (some text) x = unwrap_or (lua.tonumber text) x

    -- `tokens`, refilled: `math.min(capacity, …)` is the second argument only if that is less.
    abbrev pub lua_min : fl.F → fl.F → fl.F
    lua_min x y = if fl.lt y x then y else x

    abbrev pub token_bucket_script : Text → Text → Text → Text → Run (ℕ × ℕ)
    token_bucket_script key capacity_arg rate_arg now_arg = do
      capacity ← given (lua.tonumber capacity_arg)
      refill_rate ← given (lua.tonumber rate_arg)
      let ttl = lua.arg_text (fl.add (lua.ceil (fl.div capacity refill_rate)) (fl.of_u64 10))
      found ← read (λ s t. r.hmget s t key (codes "tokens") (codes "last_refill"))
      now ← given (lua.tonumber now_arg)
      let elapsed = fl.sub now (number_or found.1 now)
      let tokens =
          lua_min capacity (fl.add (number_or found.0 capacity) (fl.mul elapsed refill_rate))
      let left = if fl.le (fl.of_u64 1) tokens then fl.sub tokens (fl.of_u64 1) else tokens
      call key (hmset (codes "tokens") (lua.arg_text left) (codes "last_refill") (lua.arg_text now))
      call key (expire ttl)
      if fl.le (fl.of_u64 1) tokens then give (1, lua.to_reply (lua.floor left)) else give (0, 0)

    -- The branch of a request that is admitted.
    pub admit_member : Text → Text → Text → Option fl.F → ℕ → Run (ℕ × ℕ)
    admit_member key seqkey ttl now_number left = do
      seq ← incr seqkey
      call seqkey (expire ttl)
      now ← given now_number
      call key (zadd now (lua.concat_text now ++ codes "-" ++ lua.concat_text (lua.of_reply seq)))
      call key (expire ttl)
      give (1, left)

    pub sliding_window_script : Text → Text → Text → Text → Text → Text → Text → Run (ℕ × ℕ)
    sliding_window_script key maxkey seqkey max_arg now_arg cutoff_arg window_arg = do
      window_secs ← given (lua.tonumber window_arg)
      let ttl = lua.arg_text (fl.add window_secs (fl.of_u64 10))
      max_requests ← given (lua.tonumber max_arg)
      call maxkey (set_ex (lua.arg_text max_requests) ttl)
      cutoff ← given (lua.tonumber cutoff_arg)
      call key (zremrangebyscore (fl.of_u64 0) cutoff)
      reply ← read (λ s t. r.zcard s t key)
      let count = lua.of_reply reply
      if fl.lt count max_requests
          then admit_member key seqkey ttl (lua.tonumber now_arg)
              (lua.to_reply (fl.sub (fl.sub max_requests count) (fl.of_u64 1)))
          else give (0, 0)

    -- The branch of the request that opens a window.
    unfoldable pub start_window : Text → Text → Text → Text → Text → Option fl.F → Run (Unit {0})
    start_window key fwmax fwcur max_requests window_id ttl_number = do
      ttl ← given ttl_number
      call key (expire (lua.arg_text ttl))
      call fwmax (set_ex max_requests (lua.arg_text ttl))
      call fwcur (set_ex window_id (lua.arg_text ttl))

    -- The script after its `INCR`.
    unfoldable pub after_incr : Text → Text → Text → Text → Text → Text → ℕ → Run ℕ
    after_incr key fwmax fwcur max_requests window_id ttl_arg reply =
        let count = lua.of_reply reply in
        (if equals fl count (fl.of_u64 1)
          then start_window key fwmax fwcur max_requests window_id (lua.tonumber ttl_arg)
          else give tt)
        >> give (lua.to_reply count)

    unfoldable pub fixed_window_script : Text → Text → Text → Text → Text → Text → Run ℕ
    fixed_window_script key fwmax fwcur max_requests window_id ttl_arg =
        incr key >>= after_incr key fwmax fwcur max_requests window_id ttl_arg
