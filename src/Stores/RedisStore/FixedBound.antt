-- ===== src/Stores/RedisStore/FixedBound.antt =====
-- src/stores/redis.rs: the fixed window limit over the histories of all clients of one server.
use armature_ratelimit.Extractor.{Host, key_digest}
use armature_ratelimit.Float.{Float, IsIeee, exact_bound}
use armature_ratelimit.Headers.{to_string}
use armature_ratelimit.Prelude.{
  ℕ, suc, none, ◌+◌, ◌*◌, ◌≤◌, ◌<◌, ◌≡◌, sym, subst, List, [], ◌∷◌, Text, arith, Bool-cases, inl,
  inr, count_if, length,
}
use armature_ratelimit.Redis.{Redis, Lua}
use armature_ratelimit.Redis.Laws.{IsRedis, IsLua, ttl_bound}
use armature_ratelimit.Stores.RedisScripts.Counter.{IsCounter}
use armature_ratelimit.Stores.RedisStore.Histories.{admitted_in, checks}
use armature_ratelimit.Stores.RedisStore.Checks.{
  counter_of, request_step, after_check, turns-check, time-check, admitted-check, IsCounter-check,
  IsCounter-advance,
}
use armature_ratelimit.Stores.RedisStore.{
  IsQuiet, RedisStore, fixed_window_check, ttl_secs, window_ms_of, fw_key,
}
use armature_ratelimit.Stores.{Clock}

module _ (fl : Float) (r : Redis fl) (lua : Lua fl) (host : Host) (is_redis : IsRedis fl r)
    (is_lua : IsLua fl lua) (ieee : IsIeee fl) (max_requests window : ℕ)
    (short : ttl_secs window ≤ ttl_bound) (digest : Text) (id over : ℕ) where
  time-checks :
      (calls : List (Clock × Text)) (store : RedisStore fl r)
      → store.conn.time ≤ (checks fl r lua host max_requests window store calls).0.conn.time
  unfolding checks after_check
  time-checks [] store = omega arith
  time-checks ((now, name) ∷ calls) store = omega (
    arith,
    time-check fl r lua host is_redis is_lua ieee max_requests window short digest id over now name
        store,
    time-checks calls (
        after_check fl r lua host is_redis is_lua ieee max_requests window short digest id over now
          name store),
  )

  checks_bound :
      (calls : List (Clock × Text)) (store : RedisStore fl r) (n m : ℕ)
      → IsCounter fl r is_redis
          (counter_of fl r lua host is_redis is_lua ieee max_requests window short digest id over
            store)
          over
          store.conn.server
          store.conn.time
          m
      → IsQuiet fl r store.conn.turns
      → over ≤ store.conn.time + ttl_secs window * 1000
      → (checks fl r lua host max_requests window store calls).0.conn.time < over
      → m + length calls ≤ exact_bound
      → n ≤ m
      → n ≤ max_requests
      → n
          + count_if
              (admitted_in host window digest id)
              (checks fl r lua host max_requests window store calls).1
        ≤ max_requests
  unfolding checks after_check
  checks_bound [] store n m h quiet ge end fits nm small = omega arith
  checks_bound ((now, name) ∷ calls) store n m h quiet ge end fits nm small =
      let next =
        after_check fl r lua host is_redis is_lua ieee max_requests window short digest id over now
          name store in
      let later : store.conn.time + (store.conn.turns 0).delay
          ≤ (checks fl r lua host max_requests window next calls).0.conn.time =
        omega (
          arith,
          time-check fl r lua host is_redis is_lua ieee max_requests window short digest id over now
              name store,
          time-checks calls next,
        ) in
      let stepped =
        request_step fl r lua host is_redis is_lua ieee max_requests window short digest id over
          store now name m
          (IsCounter-advance fl r lua host is_redis is_lua ieee max_requests window short digest id
            over now name store m h quiet (omega arith))
          (omega arith) (omega arith) in
      let h' =
        IsCounter-check fl r lua host is_redis is_lua ieee max_requests window short digest id over
          now name store stepped.0 stepped.1 in
      let quiet' : IsQuiet fl r next.conn.turns =
        subst (IsQuiet fl r)
          (sym (
            turns-check fl r lua host is_redis is_lua ieee max_requests window short digest id over
              now name store))
          (λ k s. quiet (suc k) s) in
      let counted =
        admitted-check fl r lua host is_redis is_lua ieee max_requests window short digest id over
          now name store m stepped in
      let more = λ (n' : ℕ) (nm' : n' ≤ stepped.0) (small' : n' ≤ max_requests).
        checks_bound calls next n' stepped.0 h' quiet'
          (omega (
            arith,
            time-check fl r lua host is_redis is_lua ieee max_requests window short digest id over
                now name store,
          ))
          end (omega (arith, stepped.2, stepped.3)) nm' small' in
      elim (Bool-cases (
        admitted_in host window digest id
          ((now, name), (fixed_window_check fl r lua host now name max_requests window store).1))) [
            | inl e ↦
                rw e (
                  omega (arith, more (suc n) (omega (arith, counted e)) (omega (arith, counted e))))
            | inr e ↦ rw e (more n (omega (arith, stepped.2)) small)
          ]

module _ (fl : Float) (r : Redis fl) (lua : Lua fl) (host : Host) (is_redis : IsRedis fl r)
    (is_lua : IsLua fl lua) (ieee : IsIeee fl) where
  -- With Redis, from a server time at which a client has no counter for a window and until that
  -- time plus the window and ten seconds, at most `max_requests` fixed window checks of the client
  -- whose clocks fall in that window are admitted, whatever other clients of the same limit ask
  -- for, whatever the clocks of the instances say, and whether or not replies are lost; the window
  -- has at most 2^53 milliseconds, the history at most 2^53 checks, and nothing else writes to the
  -- server.
  pub checks_fixed_bound :
      (store : RedisStore fl r) (calls : List (Clock × Text)) (max_requests window : ℕ)
      (name : Text) (id : ℕ)
      → window_ms_of window ≤ exact_bound
      → length calls ≤ exact_bound
      → IsQuiet fl r store.conn.turns
      → r.held store.conn.server store.conn.time
          (fw_key fl r store (key_digest host name) (to_string id))
        ≡ none
      → (checks fl r lua host max_requests window store calls).0.conn.time
        < store.conn.time + (window_ms_of window + 10_000)
      → count_if
          (admitted_in host window (key_digest host name) id)
          (checks fl r lua host max_requests window store calls).1
        ≤ max_requests
  unfolding counter_of
  checks_fixed_bound store calls max_requests window name id short few quiet fresh end = omega (
    arith,
    checks_bound fl r lua host is_redis is_lua ieee max_requests window (omega arith)
        (key_digest host name) id (store.conn.time + ttl_secs window * 1000) calls store 0 0 fresh
        quiet (omega arith) (omega arith) (omega arith) (omega arith) (omega arith),
  )
