-- ===== src/Stores/RedisScripts/Bucket.antt =====
-- src/stores/redis.rs: what the token bucket script answers and leaves.
use armature_ratelimit.Algorithms.TokenBucket.{BucketState, refill, consume}
use armature_ratelimit.DashMap.Keys.{lookup}
use armature_ratelimit.Float.{Float, IsIeee, exact_bound}
use armature_ratelimit.Headers.{to_string}
use armature_ratelimit.Prelude.{
  ℕ, ◌+◌, ◌-◌, ◌*◌, ◌≤◌, ◌<◌, ◌≡◌, ◌⊎◌, refl, sym, ap, Bool, true, ◌∙◌, false, Option, none, some,
  List, Text, text_eq, codes, Bool-cases, inl, inr, if◌then◌else◌,
}
use armature_ratelimit.Redis.{Redis, Lua, Held, done, hash, hmset, expire}
use armature_ratelimit.Redis.Laws.{IsRedis, IsLua, IsHash, ttl_bound}
use armature_ratelimit.Stores.RedisScripts.{
  after, call, give, number_or, lua_min, token_bucket_script,
}

-- The tokens of a bucket with what it has gained, before the limit to the capacity.
abbrev pub gained : (fl : Float) (rate : fl.F) → BucketState fl → ℕ → fl.F
gained fl rate b now = fl.add b.tokens (fl.mul (fl.as_secs (now - b.last_refill)) rate)

-- The answer of a bucket in the form that the scripts reply in.
abbrev pub pair_of : Bool × ℕ → ℕ × ℕ
pair_of (admitted, left) = if admitted then (1, left) else (0, 0)

other_field : text_eq (codes "tokens") (codes "last_refill") ≡ false
unfolding text_eq
other_field = refl

module _ (fl : Float) (lua : Lua fl) (capacity : ℕ) (secs : fl.F) where
  -- What a key holds is this bucket at the time `secs`, when the bucket's own clock shows `now`. A
  -- missing key is a full bucket, refilled just now.
  abbrev pub Matches : Option (Held fl) → BucketState fl → ℕ → Type 0
  Matches o b now =
      (o ≡ none)
        × (b.tokens ≡ fl.of_u64 capacity)
        × (fl.as_secs (now - b.last_refill) ≡ fl.sub secs secs)
      ⊎ (l : List (Text × Text)) × (d : Option ℕ) × (tokens last : Text) × (before : fl.F) × (o
          ≡ some (record { value = hash l; deadline = d }))
        × (lookup (codes "tokens") l ≡ some tokens)
        × (lookup (codes "last_refill") l ≡ some last)
        × (lua.tonumber tokens ≡ some b.tokens)
        × (lua.tonumber last ≡ some before)
        × (fl.as_secs (now - b.last_refill) ≡ fl.sub secs before)

  -- What a key holds are these tokens and this time, as texts, until a deadline.
  abbrev pub Stores : fl.F → ℕ → Option (Held fl) → Type 0
  Stores tokens deadline o =
      (l : List (Text × Text)) × (o ≡ some (record { value = hash l; deadline = some deadline }))
      × (lookup (codes "tokens") l ≡ some (lua.arg_text tokens))
      × (lookup (codes "last_refill") l ≡ some (lua.arg_text secs))

  pub Matches-IsHash :
      (o : Option (Held fl)) (b : BucketState fl) (now : ℕ) → Matches o b now → IsHash o
  Matches-IsHash o b now (inl (e, m, n)) = rw e tt
  Matches-IsHash o b now (inr (l, d, tokens, last, before, e, m, n, x, y, z)) = rw e tt

module _ (fl : Float) (r : Redis fl) (is_redis : IsRedis fl r) (lua : Lua fl)
    (is_lua : IsLua fl lua) (ieee : IsIeee fl) (capacity : ℕ) (rate secs : fl.F)
    (pos : 0 < capacity) (small : capacity ≤ exact_bound) where
  refill_lem :
      (b : BucketState fl) (now : ℕ)
      → fl.le (gained fl rate b now) (gained fl rate b now) ≡ true
      → lua_min fl r lua (fl.of_u64 capacity) (gained fl rate b now)
        ≡ (refill fl capacity rate now b).tokens
  unfolding refill
  refill_lem b now number = sym (ieee.fmin_lt (gained fl rate b now) capacity pos number)

  -- The reply to a request that finds so many tokens.
  left_lem :
      (b : BucketState fl) (now : ℕ)
      → fl.le fl.one (refill fl capacity rate now b).tokens ≡ true
      → lua.to_reply (lua.floor (fl.sub (refill fl capacity rate now b).tokens fl.one))
        ≡ fl.to_u64 (fl.sub (refill fl capacity rate now b).tokens fl.one)
  unfolding refill
  left_lem b now enough =
      let x = (refill fl capacity rate now b).tokens in
      is_lua.to_reply-floor (fl.sub x fl.one) (ieee.sub_one-nought x enough) (
        ieee.le_trans (fl.sub x fl.one) x (fl.of_u64 exact_bound) (ieee.sub_one-le x enough) (
          ieee.le_trans x (fl.of_u64 capacity) (fl.of_u64 exact_bound)
            (ieee.fmin-le (gained fl rate b now) capacity)
            (ieee.of_u64_mono capacity exact_bound small)))

  -- The script reads what the bucket has.
  found_lem :
      (o : Option (Held fl)) (s : r.Server) (t : ℕ) (key : Text) (b : BucketState fl) (now : ℕ)
      → r.held s t key ≡ o
      → Matches fl lua capacity secs o b now
      → (found : Option Text × Option Text) × (r.hmget s t key
            (codes "tokens")
            (codes "last_refill")
          ≡ done found)
        × (fl.add
              (number_or fl r lua found.0 (fl.of_u64 capacity))
              (fl.mul (fl.sub secs (number_or fl r lua found.1 secs)) rate)
            ≡ gained fl rate b now)
  found_lem o s t key b now h (inl (absent, full, no_time)) = (
    (none, none),
    is_redis.hmget_absent s t key (codes "tokens") (codes "last_refill") (h ∙ absent),
    ap (λ x. fl.add x (fl.mul (fl.sub secs secs) rate)) (sym full)
        ∙ ap (λ x. fl.add b.tokens (fl.mul x rate)) (sym no_time),
  )
  found_lem o s t key b now h (inr (l, d, tokens, last, before, e, m, n, x, y, time)) = (
    (lookup (codes "tokens") l, lookup (codes "last_refill") l),
    is_redis.hmget_hash s t key (codes "tokens") (codes "last_refill") l d (h ∙ e),
    rw (m, n) (rw (x, y) (ap (λ z. fl.add b.tokens (fl.mul z rate)) (sym time))),
  )

  module _ (ttl : ℕ) (live : 0 < ttl) (short : ttl ≤ ttl_bound)
      (lasts : lua.arg_text (fl.add (lua.ceil (fl.div (fl.of_u64 capacity) rate)) (fl.of_u64 10))
        ≡ to_string ttl)
      (rate_text secs_text : Text) (reads_rate : lua.tonumber rate_text ≡ some rate)
      (reads_secs : lua.tonumber secs_text ≡ some secs) where
    -- The server after the bucket is stored with these tokens.
    abbrev pub stored : r.Server → ℕ → Text → fl.F → r.Server
    stored s t key tokens =
        let w =
          hmset (codes "tokens") (lua.arg_text tokens) (codes "last_refill") (lua.arg_text secs) in
        (r.write (r.write s t key w).0 t key (expire (to_string ttl))).0

    -- The branches of the script after its writes.
    decision_lem :
        (b : BucketState fl) (now t : ℕ) (s : r.Server)
        → (let x = (refill fl capacity rate now b).tokens in
            (if fl.le fl.one x
                then give fl r (
                  1,
                  lua.to_reply (lua.floor (consume fl (refill fl capacity rate now b)).0.tokens),
                )
                else give fl r (0, 0))
              s t)
          ≡ (s, done (pair_of (consume fl (refill fl capacity rate now b)).1))
    unfolding consume
    decision_lem b now t s =
        elim (Bool-cases (fl.le fl.one (refill fl capacity rate now b).tokens)) [
          | inl enough ↦ rw (enough, left_lem b now enough) refl
          | inr few ↦ rw few refl
        ]

    kept_lem :
        (b : BucketState fl)
        → (if fl.le fl.one b.tokens then fl.sub b.tokens fl.one else b.tokens)
          ≡ (consume fl b).0.tokens
    unfolding consume
    kept_lem b = elim (Bool-cases (fl.le fl.one b.tokens)) [
      | inl enough ↦ rw enough refl
      | inr few ↦ rw few refl
    ]

    -- The script on what it reads, where this many tokens are there.
    ran_lem :
        (s : r.Server) (t : ℕ) (key : Text) (b : BucketState fl) (now : ℕ)
        → (found : Option Text × Option Text)
        → r.hmget s t key (codes "tokens") (codes "last_refill") ≡ done found
        → lua_min fl r lua (fl.of_u64 capacity) (
            fl.add
              (number_or fl r lua found.0 (fl.of_u64 capacity))
              (fl.mul (fl.sub secs (number_or fl r lua found.1 secs)) rate))
          ≡ (refill fl capacity rate now b).tokens
        → IsHash (r.held s t key)
        → token_bucket_script fl r lua key (to_string capacity) rate_text secs_text s t ≡ (
          stored s t key (consume fl (refill fl capacity rate now b)).0.tokens,
          done (pair_of (consume fl (refill fl capacity rate now b)).1),
        )
    ran_lem s t key b now found replies gains is_hash =
        let left = (consume fl (refill fl capacity rate now b)).0.tokens in
        let w =
          hmset (codes "tokens") (lua.arg_text left) (codes "last_refill") (lua.arg_text secs) in
        let (set, _) =
          is_redis.hmset_lem s t key (codes "tokens") (lua.arg_text left) (codes "last_refill")
            (lua.arg_text secs) is_hash other_field in
        simp (is_lua.tonumber_integer capacity small, reads_rate, reads_secs, ieee.one_integer)
          (rw (replies, gains, kept_lem (refill fl capacity rate now b), lasts)
            (rw
              (set, is_redis.expire_answers (r.write s t key w).0 t key ttl live short, call, after)
              (decision_lem b now t (stored s t key left))))

    -- The script answers as the bucket does, and stores what is left in it.
    pub token_bucket_lem :
        (s : r.Server) (t : ℕ) (key : Text) (b : BucketState fl) (now : ℕ)
        → Matches fl lua capacity secs (r.held s t key) b now
        → fl.le (gained fl rate b now) (gained fl rate b now) ≡ true
        → token_bucket_script fl r lua key (to_string capacity) rate_text secs_text s t ≡ (
          stored s t key (consume fl (refill fl capacity rate now b)).0.tokens,
          done (pair_of (consume fl (refill fl capacity rate now b)).1),
        )
    token_bucket_lem s t key b now m number =
        let (found, replies, gains) = found_lem (r.held s t key) s t key b now refl m in
        ran_lem s t key b now found replies
          (ap (lua_min fl r lua (fl.of_u64 capacity)) gains ∙ refill_lem b now number)
          (Matches-IsHash fl lua capacity secs (r.held s t key) b now m)

    -- What the script writes is there afterwards.
    pub stored_lem :
        (s : r.Server) (t : ℕ) (key : Text) (tokens : fl.F)
        → IsHash (r.held s t key)
        → Stores fl lua capacity secs tokens (t + ttl * 1000) (r.held (stored s t key tokens) t key)
    stored_lem s t key tokens is_hash =
        let w =
          hmset (codes "tokens") (lua.arg_text tokens) (codes "last_refill") (lua.arg_text secs) in
        let (_, (l, d, e, m, n)) =
          is_redis.hmset_lem s t key (codes "tokens") (lua.arg_text tokens) (codes "last_refill")
            (lua.arg_text secs) is_hash other_field in
        (
          l,
          is_redis.expire_lem (r.write s t key w).0 t key (record { value = hash l; deadline = d })
              ttl e live short,
          m,
          n,
        )
