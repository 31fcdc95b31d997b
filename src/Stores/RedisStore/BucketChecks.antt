-- ===== src/Stores/RedisStore/BucketChecks.antt =====
-- src/stores/redis.rs: `token_bucket_check` against the bucket of src/algorithms/token_bucket.rs.
use armature_ratelimit.Algorithms.TokenBucket.{BucketState, refill, consume}
use armature_ratelimit.Extractor.{Host, key_digest}
use armature_ratelimit.Float.{Float, IsIeee, exact_bound}
use armature_ratelimit.Headers.{to_string}
use armature_ratelimit.Outcome.{ok}
use armature_ratelimit.Prelude.{
  ℕ, ◌≤◌, ◌<◌, ◌≡◌, refl, ap, ◌∙◌, true, ◌==◌, some, Text, Bool-cases, inl, inr,
}
use armature_ratelimit.Redis.{Redis, Lua}
use armature_ratelimit.Redis.Laws.{IsRedis, IsLua, ttl_bound}
use armature_ratelimit.Stores.RedisScripts.Bucket.{
  Matches, gained, pair_of, stored, token_bucket_lem,
}
use armature_ratelimit.Stores.RedisScripts.{token_bucket_script}
use armature_ratelimit.Stores.RedisStore.Prompt.{IsPrompt, with_op_timeout_heard}
use armature_ratelimit.Stores.RedisStore.{
  RedisStore, advance, token_bucket_check, tb_key, after, read_pair, map_err,
}
use armature_ratelimit.Stores.{Clock}

module _ (fl : Float) (r : Redis fl) (lua : Lua fl) (host : Host) (is_redis : IsRedis fl r)
    (is_lua : IsLua fl lua) (ieee : IsIeee fl) (capacity : ℕ) (rate : fl.F) (pos : 0 < capacity)
    (small : capacity ≤ exact_bound) (ttl : ℕ) (live : 0 < ttl) (short : ttl ≤ ttl_bound)
    (lasts : lua.arg_text (fl.add (lua.ceil (fl.div (fl.of_u64 capacity) rate)) (fl.of_u64 10))
      ≡ to_string ttl)
    (reads_rate : lua.tonumber (lua.f64_text rate) ≡ some rate) where
  -- The answer of a bucket with no room is `(false, 0)`.
  read_pair_of :
      (b : BucketState fl)
      → ((pair_of (consume fl b).1).0 == 1, (pair_of (consume fl b).1).1) ≡ (consume fl b).1
  unfolding consume
  read_pair_of b = elim (Bool-cases (fl.le fl.one b.tokens)) [
    | inl enough ↦ rw enough refl
    | inr few ↦ rw few refl
  ]

  -- The store after the bucket is stored with these tokens.
  abbrev pub with_bucket :
      (store : RedisStore fl r) (now : Clock) (name : Text)
      → lua.tonumber (lua.f64_text (fl.as_secs now.since_epoch)) ≡ some (fl.as_secs now.since_epoch)
      → fl.F
      → RedisStore fl r
  with_bucket store now name reads_secs tokens =
      let conn = advance fl r store.conn in
      let secs = fl.as_secs now.since_epoch in
      record store {
        conn = record conn {
          server =
              stored fl r is_redis lua is_lua ieee capacity rate secs pos small ttl live short lasts
                (lua.f64_text rate) (lua.f64_text secs) reads_rate reads_secs conn.server conn.time
                (tb_key fl r store (key_digest host name)) tokens;
        };
      }

  -- A check that is heard answers as the bucket does, and stores what is left in it.
  pub token_bucket_check_lem :
      (store : RedisStore fl r) (now : Clock) (name : Text)
      → IsPrompt store.operation_timeout (store.conn.turns 0).fate
      → (reads_secs : lua.tonumber (lua.f64_text (fl.as_secs now.since_epoch))
          ≡ some (fl.as_secs now.since_epoch))
      → (b : BucketState fl) (instant : ℕ)
      → (let conn = advance fl r store.conn in
          Matches fl lua capacity
            (fl.as_secs now.since_epoch)
            (r.held conn.server conn.time (tb_key fl r store (key_digest host name)))
            b
            instant)
      → fl.le (gained fl rate b instant) (gained fl rate b instant) ≡ true
      → (let (left, answer) = consume fl (refill fl capacity rate instant b) in
          token_bucket_check fl r lua host now name capacity rate store
          ≡ (with_bucket store now name reads_secs left.tokens, ok answer))
  unfolding token_bucket_check
  token_bucket_check_lem store now name prompt reads_secs b instant m number =
      let conn = advance fl r store.conn in
      let secs = fl.as_secs now.since_epoch in
      let full_key = tb_key fl r store (key_digest host name) in
      let ran =
        token_bucket_lem fl r is_redis lua is_lua ieee capacity rate secs pos small ttl live short
          lasts (lua.f64_text rate) (lua.f64_text secs) reads_rate reads_secs conn.server conn.time
          full_key b instant m number in
      let request =
        token_bucket_script fl r lua full_key (to_string capacity) (lua.f64_text rate)
          (lua.f64_text secs) in
      let left = (consume fl (refill fl capacity rate instant b)).0 in
      ap (after fl r (read_pair fl r)) (
        with_op_timeout_heard fl r request store prompt
        ∙ ap (λ out. (record store { conn = record conn { server = out.0 } }, map_err out.1)) ran)
      ∙ ap (λ a. (with_bucket store now name reads_secs left.tokens, ok a))
          (read_pair_of (refill fl capacity rate instant b))
