-- ===== src/Stores/RedisStore/BucketHistories.antt =====
-- src/stores/redis.rs: a client's token bucket checks over Redis, one after the other, against one
-- bucket of src/algorithms/token_bucket.rs.
use armature_ratelimit.Algorithms.TokenBucket.{BucketState, refill, consume}
use armature_ratelimit.Extractor.{Host, key_digest}
use armature_ratelimit.Float.{Float, IsIeee, exact_bound}
use armature_ratelimit.Headers.{to_string}
use armature_ratelimit.Outcome.{Outcome, ok}
use armature_ratelimit.Prelude.{
  ℕ, suc, ◌+◌, ◌-◌, ◌*◌, ◌≤◌, ◌<◌, ◌≡◌, ◌∙◌, refl, ap, sym, subst, Bool, true, some, List, [], ◌∷◌,
  map, Text, arith, inr,
}
use armature_ratelimit.Redis.{Redis, Lua, still}
use armature_ratelimit.Redis.Laws.{IsRedis, IsLua, ttl_bound, IsHash}
use armature_ratelimit.Stores.RedisScripts.Bucket.{
  Matches, Matches-IsHash, Stores, gained, stored, stored_lem,
}
use armature_ratelimit.Stores.RedisScripts.Counter.{unexpired}
use armature_ratelimit.Stores.RedisStore.BucketChecks.{with_bucket, token_bucket_check_lem}
use armature_ratelimit.Stores.RedisStore.Prompt.{IsPromptly}
use armature_ratelimit.Stores.RedisStore.{RedisStore, advance, token_bucket_check, tb_key, key}
use armature_ratelimit.Stores.{Clock}

module _ (fl : Float) (lua : Lua fl) (capacity : ℕ) (rate : fl.F) where
  -- The bucket after a request at this instant of its clock, and the answer.
  abbrev pub drawn : BucketState fl → ℕ → BucketState fl × (Bool × ℕ)
  drawn b instant = consume fl (refill fl capacity rate instant b)

  -- The answers of one bucket to requests at these instants.
  unfoldable pub bucket_answers : BucketState fl → List (Clock × ℕ) → List (Bool × ℕ)
  bucket_answers b [] = []
  bucket_answers b ((now, instant) ∷ calls) =
      (drawn b instant).1 ∷ bucket_answers (drawn b instant).0 calls

  -- The next request comes as many seconds after `before` as it comes after the bucket's last
  -- refill.
  abbrev Next : fl.F → BucketState fl → List (Clock × ℕ) → Type 0
  Next before b [] = Unit
  Next before b ((now, instant) ∷ calls) =
      fl.as_secs (instant - b.last_refill) ≡ fl.sub (fl.as_secs now.since_epoch) before

  -- The times and the tokens of these requests read back as they were printed, no amount is NaN,
  -- and the two clocks of the requests run alike.
  abbrev pub Paced : BucketState fl → List (Clock × ℕ) → Type 0
  Paced b [] = Unit
  Paced b ((now, instant) ∷ calls) =
      let secs = fl.as_secs now.since_epoch in
      let left = (drawn b instant).0 in
      (lua.tonumber (lua.f64_text secs) ≡ some secs)
      × (fl.le (gained fl rate b instant) (gained fl rate b instant) ≡ true)
      × (lua.tonumber (lua.arg_text left.tokens) ≡ some left.tokens)
      × (lua.tonumber (lua.arg_text secs) ≡ some secs)
      × Next secs left calls
      × Paced left calls

module _ (fl : Float) (r : Redis fl) (lua : Lua fl) (host : Host) (capacity : ℕ) (rate : fl.F)
    (name : Text) where
  -- The outcomes of a client's checks.
  pub bucket_checks : RedisStore fl r → List (Clock × ℕ) → List (Outcome (Bool × ℕ))
  bucket_checks store [] = []
  bucket_checks store ((now, instant) ∷ calls) =
      let out = token_bucket_check fl r lua host now name capacity rate store in
      out.1 ∷ bucket_checks out.0 calls

  -- The first request finds this bucket.
  abbrev pub Finds : RedisStore fl r → BucketState fl → List (Clock × ℕ) → Type 0
  Finds store b [] = Unit
  Finds store b ((now, instant) ∷ calls) =
      let conn = advance fl r store.conn in
      Matches fl lua capacity (fl.as_secs now.since_epoch)
        (r.held conn.server conn.time (tb_key fl r store (key_digest host name))) b instant

module _ (fl : Float) (r : Redis fl) (lua : Lua fl) (host : Host) (is_redis : IsRedis fl r)
    (is_lua : IsLua fl lua) (ieee : IsIeee fl) (capacity : ℕ) (rate : fl.F) (pos : 0 < capacity)
    (small : capacity ≤ exact_bound) (ttl : ℕ) (live : 0 < ttl) (short : ttl ≤ ttl_bound)
    (lasts : lua.arg_text (fl.add (lua.ceil (fl.div (fl.of_u64 capacity) rate)) (fl.of_u64 10))
      ≡ to_string ttl)
    (reads_rate : lua.tonumber (lua.f64_text rate) ≡ some rate) (name : Text) where
  -- A bucket that was stored is found by the next request.
  later-Matches :
      (s : r.Server) (t t' : ℕ) (j : Text) (now : Clock) (b : BucketState fl) (before : fl.F)
      → (instant : ℕ) → Stores fl lua capacity before b.tokens (t + ttl * 1000) (r.held s t j)
      → t ≤ t'
      → t' < t + ttl * 1000
      → lua.tonumber (lua.arg_text b.tokens) ≡ some b.tokens
      → lua.tonumber (lua.arg_text before) ≡ some before
      → fl.as_secs (instant - b.last_refill) ≡ fl.sub (fl.as_secs now.since_epoch) before
      → Matches fl lua capacity (fl.as_secs now.since_epoch) (r.held s t' j) b instant
  later-Matches s t t' j now b before instant (l, e, m, n) le lt x y time = inr (
    l,
    some (t + ttl * 1000),
    lua.arg_text b.tokens,
    lua.arg_text before,
    before,
    is_redis.held-later s t t' j le ∙ ap (still t') e ∙ rw (unexpired (t + ttl * 1000) t' lt) refl,
    m,
    n,
    x,
    y,
    time,
  )

  with_bucket-Finds :
      (store : RedisStore fl r) (now : Clock) (b left : BucketState fl) (calls : List (Clock × ℕ))
      → IsPromptly fl r store
      → (store.conn.turns 1).delay < ttl * 1000
      → (reads_secs : lua.tonumber (lua.f64_text (fl.as_secs now.since_epoch))
          ≡ some (fl.as_secs now.since_epoch))
      → IsHash (
          r.held
            (advance fl r store.conn).server
            (advance fl r store.conn).time
            (tb_key fl r store (key_digest host name)))
      → lua.tonumber (lua.arg_text left.tokens) ≡ some left.tokens
      → lua.tonumber (lua.arg_text (fl.as_secs now.since_epoch)) ≡ some (fl.as_secs now.since_epoch)
      → Next fl lua capacity rate (fl.as_secs now.since_epoch) left calls
      → Finds fl r lua host capacity rate name
          (with_bucket fl r lua host is_redis is_lua ieee capacity rate pos small ttl live short
            lasts reads_rate store now name reads_secs left.tokens)
          left
          calls
  unfolding key
  with_bucket-Finds store now b left [] ready brisk reads_secs is_hash x y next = tt
  with_bucket-Finds store now b left ((now', instant) ∷ calls) ready brisk reads_secs is_hash x y
        next =
      let conn = advance fl r store.conn in
      let secs = fl.as_secs now.since_epoch in
      let full_key = tb_key fl r store (key_digest host name) in
      let s =
        stored fl r is_redis lua is_lua ieee capacity rate secs pos small ttl live short lasts
          (lua.f64_text rate) (lua.f64_text secs) reads_rate reads_secs conn.server conn.time
          full_key left.tokens in
      subst
        (λ s'.
          Matches fl lua capacity (fl.as_secs now'.since_epoch)
            (r.held s' (conn.time + (store.conn.turns 1).delay) full_key) left instant)
        (sym (ready.quiet 1 s))
        (later-Matches s conn.time (conn.time + (store.conn.turns 1).delay) full_key now' left secs
          instant
          (stored_lem fl r is_redis lua is_lua ieee capacity rate secs pos small ttl live short
            lasts (lua.f64_text rate) (lua.f64_text secs) reads_rate reads_secs conn.server
            conn.time full_key left.tokens is_hash)
          (omega arith) (omega arith) x y next)

  -- A client's token bucket checks over Redis answer, one after the other, what one in-process
  -- bucket answers to requests at the same instants, if the first request finds this bucket
  -- stored, or finds none and this one is full, every request is answered in time, with no other
  -- client in between, and arrives less than the time to live after the one before, the in-process
  -- and the Unix clock of the requests run alike, the capacity is positive and at most 2^53, the
  -- time to live prints as an integer from 1 to 2^50, the rate, the times and the tokens read back
  -- as they were printed, and no amount is NaN.
  pub bucket_checks_lem :
      (store : RedisStore fl r) (b : BucketState fl) (calls : List (Clock × ℕ))
      → IsPromptly fl r store
      → ((n : ℕ) → (store.conn.turns (suc n)).delay < ttl * 1000)
      → Finds fl r lua host capacity rate name store b calls
      → Paced fl lua capacity rate b calls
      → bucket_checks fl r lua host capacity rate name store calls
        ≡ map (λ a. ok a) (bucket_answers fl lua capacity rate b calls)
  unfolding bucket_checks bucket_answers
  bucket_checks_lem store b [] ready brisk finds paced = refl
  bucket_checks_lem store b ((now, instant) ∷ calls) ready brisk finds
        (reads_secs, number, x, y, next, paced) =
      let conn = advance fl r store.conn in
      let left = (consume fl (refill fl capacity rate instant b)).0 in
      let after =
        with_bucket fl r lua host is_redis is_lua ieee capacity rate pos small ttl live short lasts
          reads_rate store now name reads_secs left.tokens in
      let is_hash =
        Matches-IsHash fl lua capacity (fl.as_secs now.since_epoch)
          (r.held conn.server conn.time (tb_key fl r store (key_digest host name))) b instant
          finds in
      let ready' : IsPromptly fl r after = record {
        quiet = λ n s. ready.quiet (suc n) s;
        prompt = λ n. ready.prompt (suc n);
      } in
      rw
        (token_bucket_check_lem fl r lua host is_redis is_lua ieee capacity rate pos small ttl live
          short lasts reads_rate store now name (ready.prompt 0) reads_secs b instant finds number)
        (ap (λ l. ok (consume fl (refill fl capacity rate instant b)).1 ∷ l)
          (bucket_checks_lem after left calls ready' (λ n. brisk (suc n))
            (with_bucket-Finds store now b left calls ready (brisk 0) reads_secs is_hash x y next)
            paced))
