-- ===== src/Stores/RedisScripts/Untouched.antt =====
-- src/stores/redis.rs: the sliding window script leaves the keys of others as they are.
use armature_ratelimit.Float.{Float}
use armature_ratelimit.Prelude.{
  ℕ, ◌≡◌, refl, false, Bool, Option, Text, codes, ◌++◌, text_eq, if◌then◌else◌, true,
}
use armature_ratelimit.Redis.{Redis, Lua, Write, expire, set_ex, zremrangebyscore, zadd}
use armature_ratelimit.Redis.Laws.{IsRedis}
use armature_ratelimit.Stores.RedisScripts.Counter.{Keeps, Keeps-bind, Keeps-given, Keeps-call}
use armature_ratelimit.Stores.RedisScripts.{
  Run, given, give, incr, call, read, admit_member, sliding_window_script,
}
use armature_ratelimit.Stores.RedisScripts as Scripts

module _ (fl : Float) (r : Redis fl) (is_redis : IsRedis fl r) (lua : Lua fl) (other : Text) where
  -- A script that leaves a key as it is, with the proof.
  abbrev Kept : Type 0 → Type 0
  Kept A = (m : Run fl r A) × Keeps fl r is_redis other m

  infixl 5 ◌>>=◌ ◌>>◌
  abbrev ◌>>=◌ : {A B : Type 0} → Kept A → (A → Kept B) → Kept B
  m >>= next = (
    Scripts.◌>>=◌ fl r m.0 (λ a. (next a).0),
    Keeps-bind fl r is_redis other m.0 (λ a. (next a).0) m.1 (λ a. (next a).1),
  )

  abbrev ◌>>◌ : {A B : Type 0} → Kept A → Kept B → Kept B
  m >> next = m >>= (λ _. next)

  abbrev kept_call : (k : Text) → text_eq k other ≡ false → Write fl → Kept (Unit {0})
  kept_call k apart w = (call fl r k w, Keeps-call fl r is_redis other k w apart)

  abbrev kept_given : Option fl.F → Kept fl.F
  kept_given o = (given fl r lua o, Keeps-given fl r is_redis other lua o)

  abbrev kept_give : {A : Type 0} → A → Kept A
  kept_give a = (give fl r a, λ s t. refl)

  kept_if :
      {A : Type 0} (b : Bool) (m n : Run fl r A)
      → Keeps fl r is_redis other m
      → Keeps fl r is_redis other n
      → Keeps fl r is_redis other (if b then m else n)
  kept_if true m n k l = k
  kept_if false m n k l = l

  Keeps-admit_member :
      (key seqkey ttl : Text) (now : Option fl.F) (left : ℕ)
      → text_eq key other ≡ false
      → text_eq seqkey other ≡ false
      → Keeps fl r is_redis other (admit_member fl r lua key seqkey ttl now left)
  unfolding admit_member
  Keeps-admit_member key seqkey ttl now left k q =
      let script : Kept (ℕ × ℕ) = do
        seq ← (incr fl r seqkey, λ s t. is_redis.held-incr s t seqkey other q)
        kept_call seqkey q (expire ttl)
        x ← kept_given now
        kept_call key k
            (zadd x (lua.concat_text x ++ codes "-" ++ lua.concat_text (lua.of_reply seq)))
        kept_call key k (expire ttl)
        kept_give (1, left)
      in script.1

  pub Keeps-sliding_window_script :
      (key maxkey seqkey max now cutoff window : Text)
      → text_eq key other ≡ false
      → text_eq maxkey other ≡ false
      → text_eq seqkey other ≡ false
      → Keeps fl r is_redis other
          (sliding_window_script fl r lua key maxkey seqkey max now cutoff window)
  unfolding sliding_window_script
  Keeps-sliding_window_script key maxkey seqkey max now cutoff window k m q =
      let script : Kept (ℕ × ℕ) = do
        secs ← kept_given (lua.tonumber window)
        let ttl = lua.arg_text (fl.add secs (fl.of_u64 10))
        most ← kept_given (lua.tonumber max)
        kept_call maxkey m (set_ex (lua.arg_text most) ttl)
        low ← kept_given (lua.tonumber cutoff)
        kept_call key k (zremrangebyscore (fl.of_u64 0) low)
        reply ← (read fl r (λ s t. r.zcard s t key), λ s t. refl)
        let count = lua.of_reply reply
        let left = lua.to_reply (fl.sub (fl.sub most count) (fl.of_u64 1))
        let admit = admit_member fl r lua key seqkey ttl (lua.tonumber now) left
        let deny = give fl r (0, 0)
        (
          if fl.lt count most then admit else deny,
          kept_if (fl.lt count most) admit deny
              (Keeps-admit_member key seqkey ttl (lua.tonumber now) left k q) (λ s t. refl),
        )
      in script.1
