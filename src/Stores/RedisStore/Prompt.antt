-- ===== src/Stores/RedisStore/Prompt.antt =====
-- src/stores/redis.rs: requests that are answered within the timeout, with no other client between.
use armature_ratelimit.Float.{Float}
use armature_ratelimit.Prelude.{ℕ, suc, ◌≤◌, ◌≡◌, refl, arith}
use armature_ratelimit.Redis.{Redis, Answer}
use armature_ratelimit.Stores.RedisScripts as Scripts
use armature_ratelimit.Stores.RedisStore.{
  Fate, replied, broken, silent, served, heard, map_err, IsQuiet, RedisStore, advance,
  with_op_timeout,
}

-- A reply comes within so many nanoseconds.
abbrev pub IsPrompt : ℕ → Fate → Type 0
IsPrompt limit (replied latency) = latency ≤ limit
IsPrompt limit (broken e latency ran) = ⊥
IsPrompt limit (silent ran) = ⊥

heard_prompt :
    {A : Type 0} (limit : ℕ) (fate : Fate) (answer : Answer A)
    → IsPrompt limit fate
    → heard limit fate answer ≡ map_err answer
heard_prompt limit (replied latency) answer le = ground arith
heard_prompt limit (broken e latency ran) answer le = absurd le
heard_prompt limit (silent ran) answer le = absurd le

served_prompt :
    {S : Type 0} (limit : ℕ) (fate : Fate) (new old : S)
    → IsPrompt limit fate
    → served fate new old ≡ new
served_prompt limit (replied latency) new old le = refl
served_prompt limit (broken e latency ran) new old le = absurd le
served_prompt limit (silent ran) new old le = absurd le

module _ (fl : Float) (r : Redis fl) where
  -- Every request to come is answered in time, and no other client comes between.
  pub record IsPromptly (store : RedisStore fl r) : Type 0 where
    pub quiet : IsQuiet fl r store.conn.turns
    pub prompt : (n : ℕ) → IsPrompt store.operation_timeout (store.conn.turns n).fate

  module _ {A : Type 0} (request : Scripts.Run fl r A) (store : RedisStore fl r) where
    -- The store after a request that is answered, and the answer.
    abbrev pub asked : RedisStore fl r
    asked =
        let conn = advance fl r store.conn in
        record store { conn = record conn { server = (request conn.server conn.time).0 } }

    abbrev pub answer_of : Answer A
    answer_of = let conn = advance fl r store.conn in (request conn.server conn.time).1

    pub with_op_timeout_heard :
        IsPrompt store.operation_timeout (store.conn.turns 0).fate
        → with_op_timeout fl r request store ≡ (asked, map_err answer_of)
    unfolding with_op_timeout
    with_op_timeout_heard prompt =
        let conn = advance fl r store.conn in
        let fate = (store.conn.turns 0).fate in
        rw
          (
            served_prompt store.operation_timeout fate (request conn.server conn.time).0 conn.server
                prompt,
            heard_prompt store.operation_timeout fate answer_of prompt,
          )
          refl

    pub with_op_timeout_prompt :
        IsPromptly store → with_op_timeout fl r request store ≡ (asked, map_err answer_of)
    with_op_timeout_prompt ready = with_op_timeout_heard (ready.prompt 0)

    pub asked-IsPromptly : IsPromptly store → IsPromptly asked
    asked-IsPromptly ready = record {
      quiet = λ n s. ready.quiet (suc n) s;
      prompt = λ n. ready.prompt (suc n);
    }
