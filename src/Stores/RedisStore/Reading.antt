-- ===== src/Stores/RedisStore/Reading.antt =====
-- src/stores/redis.rs: what `remaining` reports of a fixed window.
use armature_ratelimit.Extractor.{Host, key_digest}
use armature_ratelimit.Float.{Float, max_u64}
use armature_ratelimit.Headers.{to_string}
use armature_ratelimit.Outcome.{ok}
use armature_ratelimit.Prelude.{
  ℕ, suc, unwrap_or, ◌+◌, ◌-◌, ◌≤◌, ◌<◌, ◌≡◌, refl, none, some, Text, codes, arith, ap, ◌∙◌,
}
use armature_ratelimit.Redis.{Redis, Lua, Answer, done, Held, string, still}
use armature_ratelimit.Redis.Laws.{IsRedis, IsLua}
use armature_ratelimit.Stores.RedisScripts.Counter.{unexpired}
use armature_ratelimit.Stores.RedisStore.Prompt.{IsPromptly, with_op_timeout_prompt}
use armature_ratelimit.Stores.RedisStore.Remaining.{
  ask, converted, decode, decode_u64, decode_three, remaining, remaining_counted, remaining_window,
}
use armature_ratelimit.Stores.RedisStore.{
  RedisStore, advance, after, return, map_err, tb_key, swmax_key, fwcur_key, fwmax_key, fw_key,
}

module _ (fl : Float) (r : Redis fl) where
  -- The store after a request that only reads.
  abbrev looked : RedisStore fl r → RedisStore fl r
  looked store = record store { conn = advance fl r store.conn }

  -- A key holds a text, up to some time.
  abbrev pub Shows : RedisStore fl r → ℕ → Text → Text → Type 0
  Shows store span k v =
      (d : ℕ) × (store.conn.time + span < d)
      × (r.held store.conn.server store.conn.time k
          ≡ some (record { value = string v; deadline = some d }))

  -- The time of three requests.
  abbrev pub span_of : RedisStore fl r → ℕ
  span_of store =
      (store.conn.turns 0).delay + (store.conn.turns 1).delay + (store.conn.turns 2).delay

module _ (fl : Float) (r : Redis fl) (is_redis : IsRedis fl r) where
  live : (d t : ℕ) (h : Held fl) → t < d → h.deadline ≡ some d → still t (some h) ≡ some h
  live d t h lt e = rw (e, unexpired d t lt) refl

  module _ (store : RedisStore fl r) (ready : IsPromptly fl r store) where
    Shows-looked :
        (span : ℕ) (k v : Text)
        → (store.conn.turns 0).delay ≤ span
        → Shows fl r store span k v
        → Shows fl r (looked fl r store) (span - (store.conn.turns 0).delay) k v
    Shows-looked span k v le (d, lt, e) = (
      d,
      omega arith,
      ap (λ s. r.held s (looked fl r store).conn.time k) (ready.quiet 0 store.conn.server)
          ∙ is_redis.held-later store.conn.server store.conn.time (looked fl r store).conn.time k
              (omega arith)
          ∙ ap (still (looked fl r store).conn.time) e
          ∙ live d (looked fl r store).conn.time (record { value = string v; deadline = some d })
              (omega arith) refl,
    )

    pub absent-looked :
        (k : Text)
        → r.held store.conn.server store.conn.time k ≡ none
        → r.held (looked fl r store).conn.server (looked fl r store).conn.time k ≡ none
    absent-looked k e =
        ap (λ s. r.held s (looked fl r store).conn.time k) (ready.quiet 0 store.conn.server)
        ∙ is_redis.held-later store.conn.server store.conn.time (looked fl r store).conn.time k
            (omega arith)
        ∙ ap (still (looked fl r store).conn.time) e

  module _ (lua : Lua fl) (is_lua : IsLua fl lua) (host : Host) where
    -- A question that is answered.
    ask_prompt :
        {A B : Type 0} (query : r.Server → ℕ → Answer A) (conversion : A → Answer B)
        (store : RedisStore fl r) (b : B)
        → IsPromptly fl r store
        → converted (query (looked fl r store).conn.server (looked fl r store).conn.time) conversion
          ≡ done b
        → ask fl r lua host query conversion store ≡ (looked fl r store, ok b)
    ask_prompt query conversion store b ready e =
        with_op_timeout_prompt fl r (λ s t. (s, converted (query s t) conversion)) store ready
        ∙ ap (λ a. (looked fl r store, map_err a)) e

    module _ (store : RedisStore fl r) (ready : IsPromptly fl r store) where
      looked-IsPromptly : IsPromptly fl r (looked fl r store)
      looked-IsPromptly = record {
        quiet = λ k s. ready.quiet (suc k) s;
        prompt = λ k. ready.prompt (suc k);
      }

      -- What is shown for three requests is shown at the second one, with time left for the third.
      Shows-second :
          (k v : Text)
          → Shows fl r store (span_of fl r store) k v
          → Shows fl r (looked fl r (looked fl r store)) ((store.conn.turns 2).delay) k v
      Shows-second k v shown =
          let (d, lt, e) =
            Shows-looked (looked fl r store) looked-IsPromptly
              (span_of fl r store - (store.conn.turns 0).delay) k v (omega arith)
              (Shows-looked store ready (span_of fl r store) k v (omega arith) shown) in
          (d, omega arith, e)

      absent_second :
          (k : Text)
          → r.held store.conn.server store.conn.time k ≡ none
          → r.held
              (looked fl r (looked fl r store)).conn.server
              (looked fl r (looked fl r store)).conn.time
              k
            ≡ none
      absent_second k e =
          absent-looked (looked fl r store) looked-IsPromptly k (absent-looked store ready k e)

    module _ (store : RedisStore fl r) (ready : IsPromptly fl r store) (name : Text) (id max n : ℕ)
        (small_id : id ≤ max_u64) (small_max : max ≤ max_u64) (small_n : n ≤ max_u64) where
      second_reply :
          r.held store.conn.server store.conn.time (swmax_key fl r store (key_digest host name))
            ≡ none
          → Shows fl r store
              (span_of fl r store)
              (fwcur_key fl r store (key_digest host name))
              (to_string id)
          → Shows fl r store
              (span_of fl r store)
              (fwmax_key fl r store (key_digest host name))
              (to_string max)
          → ask fl r lua host
              (λ s t.
                r.mget s t
                  (fwcur_key fl r store (key_digest host name))
                  (fwmax_key fl r store (key_digest host name))
                  (swmax_key fl r store (key_digest host name)))
              (decode_three fl r lua host)
              (looked fl r store)
            ≡ (looked fl r (looked fl r store), ok (some id, (some max, none)))
      second_reply no_sw cur most =
          let digest = key_digest host name in
          let conn = (looked fl r (looked fl r store)).conn in
          let cur_key = fwcur_key fl r store digest in
          let max_key = fwmax_key fl r store digest in
          let sw_key = swmax_key fl r store digest in
          ask_prompt (λ s t. r.mget s t cur_key max_key sw_key) (decode_three fl r lua host)
            (looked fl r store) (some id, (some max, none)) (looked-IsPromptly store ready)
            (rw
              (
                is_redis.mget_lem conn.server conn.time cur_key max_key sw_key,
                (Shows-second store ready cur_key (to_string id) cur).2,
                (Shows-second store ready max_key (to_string max) most).2,
                absent_second store ready sw_key no_sw,
                is_lua.read_u64_integer id small_id,
                is_lua.read_u64_integer max small_max,
              )
              refl)

      third_reply :
          Shows fl r store
            (span_of fl r store)
            (fw_key fl r store (key_digest host name) (to_string id))
            (to_string n)
          → ask fl r lua host
              (λ s t. r.get s t (fw_key fl r store (key_digest host name) (to_string id)))
              (decode_u64 fl r lua host)
              (looked fl r (looked fl r store))
            ≡ (looked fl r (looked fl r (looked fl r store)), ok (some n))
      third_reply count =
          let k = fw_key fl r store (key_digest host name) (to_string id) in
          let two = looked fl r (looked fl r store) in
          let ready2 = looked-IsPromptly (looked fl r store) (looked-IsPromptly store ready) in
          let (d, lt, e) =
            Shows-looked two ready2 ((store.conn.turns 2).delay) k (to_string n) (omega arith)
              (Shows-second store ready k (to_string n) count) in
          ask_prompt (λ s t. r.get s t k) (decode_u64 fl r lua host) two (some n) ready2
            (rw
              (
                is_redis.get_string (looked fl r two).conn.server (looked fl r two).conn.time k
                    (to_string n) (some d) e,
                is_lua.read_u64_integer n small_n,
              )
              refl)

      -- With every request answered in time and no other client in between, a client with neither
      -- token bucket nor sliding window and a live counter has the limit less the count remaining,
      -- or 0 if that is more.
      pub remaining_counter :
          r.held store.conn.server store.conn.time (tb_key fl r store (key_digest host name)) ≡ none
          → r.held store.conn.server store.conn.time (swmax_key fl r store (key_digest host name))
            ≡ none
          → Shows fl r store
              (span_of fl r store)
              (fwcur_key fl r store (key_digest host name))
              (to_string id)
          → Shows fl r store
              (span_of fl r store)
              (fwmax_key fl r store (key_digest host name))
              (to_string max)
          → Shows fl r store
              (span_of fl r store)
              (fw_key fl r store (key_digest host name) (to_string id))
              (to_string n)
          → (remaining fl r lua host name store).1 ≡ ok (max - n)
      unfolding remaining
      remaining_counter no_tb no_sw cur most count =
          let digest = key_digest host name in
          let tb = tb_key fl r store digest in
          let one = looked fl r store in
          let first =
            ask_prompt (λ s t. r.hget s t tb (codes "tokens")) (decode lua.type_error lua.read_f64)
              store none ready
              (rw
                (is_redis.hget_absent one.conn.server one.conn.time tb (codes "tokens")
                  (absent-looked store ready tb no_tb))
                refl) in
          ap (λ out. (after fl r (remaining_counted fl r lua host store digest) out).1) first
          ∙ ap
              (λ out.
                (after fl r
                  (λ found. remaining_window fl r lua host store digest found.0 found.1.0 found.1.1)
                  out).1)
              (second_reply no_sw cur most)
          ∙ ap (λ out. (after fl r (λ c. return fl r (ok (max - unwrap_or c 0))) out).1)
              (third_reply count)
