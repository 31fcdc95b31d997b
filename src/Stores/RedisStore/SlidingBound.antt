-- ===== src/Stores/RedisStore/SlidingBound.antt =====
-- src/stores/redis.rs: the sliding window limit over the histories of all clients of one server.
use armature_ratelimit.Extractor.Keys.{IsHost}
use armature_ratelimit.Extractor.{Host, key_digest}
use armature_ratelimit.Float.{Float, IsIeee, exact_bound}
use armature_ratelimit.Prelude.{
  ℕ, suc, ◌≤◌, ◌<◌, ◌≡◌, ◌⊎◌, refl, sym, subst, none, List, [], ◌∷◌, Text, arith, inl, inr,
  count_if, count_if-le, length, All, Ascending,
}
use armature_ratelimit.Redis.{Redis, Lua}
use armature_ratelimit.Redis.Laws.{IsRedis, IsLua}
use armature_ratelimit.Stores.RedisScripts.Logging.{IsLogged, IsLogged-later}
use armature_ratelimit.Stores.RedisScripts.Members.{Log, printed}
use armature_ratelimit.Stores.RedisStore.SlidingCalls.{IsReady, Bounds, any_call}
use armature_ratelimit.Stores.RedisStore.SlidingChecks.{ms}
use armature_ratelimit.Stores.RedisStore.SlidingHistories.{
  span, admitted_in_span, clocks_of, IsDated, Synced, sliding_checks, admitted_over, expired_cases,
}
use armature_ratelimit.Stores.RedisStore.{
  IsQuiet, RedisStore, advance, with_op_timeout, sw_key, swseq_key,
}
use armature_ratelimit.Stores.{Clock}

module _ (fl : Float) (r : Redis fl) (lua : Lua fl) (host : Host) (is_host : IsHost host)
    (is_redis : IsRedis fl r) (is_lua : IsLua fl lua) (ieee : IsIeee fl) (max window : ℕ)
    (small_max : max ≤ exact_bound) (client : Text) (a : ℕ) where
  abbrev Ready : List (Clock × Text) → ℕ → Log → ℕ → ℕ → ℕ → ℕ → Type 0
  Ready = IsReady fl r lua host is_host is_redis is_lua ieee max window small_max client a

  -- A log that is still there when the next request arrives, or is gone.
  arrived :
      (store : RedisStore fl r) (g : Text) (log : Log) (m d : ℕ)
      → IsQuiet fl r store.conn.turns
      → IsLogged fl r is_redis
          (sw_key fl r store g)
          (swseq_key fl r store g)
          store.conn.server
          store.conn.time
          log
          m
          d
      → let conn = advance fl r store.conn in
        IsLogged fl r is_redis
          (sw_key fl r store g)
          (swseq_key fl r store g)
          conn.server
          conn.time
          log
          m
          d
        ⊎ (d ≤ conn.time)
          × IsLogged fl r is_redis
              (sw_key fl r store g)
              (swseq_key fl r store g)
              conn.server
              conn.time
              []
              m
              d
  arrived store g log m d quiet h =
      subst
        (λ s.
          let t = (advance fl r store.conn).time in
          IsLogged fl r is_redis (sw_key fl r store g) (swseq_key fl r store g) s t log m d
          ⊎ (d ≤ t)
            × IsLogged fl r is_redis (sw_key fl r store g) (swseq_key fl r store g) s t [] m d)
        (sym (quiet 0 store.conn.server))
        (IsLogged-later fl r is_redis (sw_key fl r store g) (swseq_key fl r store g)
          store.conn.server store.conn.time (advance fl r store.conn).time log m d (omega arith) h)

  bounds :
      (calls : List (Clock × Text)) (store : RedisStore fl r)
      → IsQuiet fl r store.conn.turns
      → Synced fl r store.conn.time store.conn.turns calls
      → Bounds fl r lua host is_host is_redis is_lua ieee max window small_max client a calls store
  unfolding sliding_checks with_op_timeout
  bounds [] store quiet synced log m d c from h ready =
      omega (arith, ready.counted, ready.few, count_if-le (λ e. span a (ms window) e.0) log)
  bounds ((now, name) ∷ calls) store quiet synced log m d c from h ready =
      let t = (advance fl r store.conn).time in
      let call =
        λ (log1 : Log)
            (h1 : IsLogged fl r is_redis (sw_key fl r store (key_digest host client))
              (swseq_key fl r store (key_digest host client)) (advance fl r store.conn).server t
              log1 m d)
            (ready1 : Ready ((now, name) ∷ calls) t log1 m d c from).
          any_call fl r lua host is_host is_redis is_lua ieee max window small_max client a now name
            calls store log1 m d c from h1 ready1 synced.0
            (bounds calls _ (λ n s. quiet (suc n) s) synced.2) in
      elim (arrived store (key_digest host client) log m d quiet h) [
        | inl h1 ↦ call log h1 (record {
          few = ready.few;
          fits = ready.fits;
          until = omega (arith, ready.until);
          counted = ready.counted;
          ordered = ready.ordered;
          dated = ready.dated;
          numbers = ready.numbers;
        })
        | inr (past, h1) ↦ elim (expired_cases a (ms window) d t log ready.fits past) [
          | inl zero ↦ call [] h1 (record {
            few = omega arith;
            fits = tt;
            until = omega (arith, ready.until);
            counted = omega (arith, zero, ready.counted);
            ordered = ready.ordered;
            dated = ready.dated;
            numbers = ready.numbers;
          })
          | inr over ↦ omega (
            arith,
            ready.counted,
            ready.few,
            count_if-le (λ e. span a (ms window) e.0) log,
            admitted_over fl r lua host max window (key_digest host client) a ((now, name) ∷ calls)
                store over synced ready.dated,
          )
        ]
      ]

module _ (fl : Float) (r : Redis fl) (lua : Lua fl) (host : Host) (is_host : IsHost host)
    (is_redis : IsRedis fl r) (is_lua : IsLua fl lua) (ieee : IsIeee fl) where
  -- With Redis, from a server time at which a client has no sliding log and no sequence counter, at
  -- most `max_requests` sliding window checks of the client are admitted in any span of one window
  -- that is open at its start, whatever other clients of the same limit ask for, and whether or
  -- not replies are lost, if the client's requests reach the server in the order of their clocks,
  -- every clock agrees with the server's up to 4.5 seconds and is at least one window after the
  -- epoch and below 10^14 milliseconds, the history has fewer than 10^14 checks and the limit is at
  -- most 2^53, and nothing else writes to the server.
  pub sliding_checks_bound :
      (store : RedisStore fl r) (calls : List (Clock × Text)) (max_requests window : ℕ)
      (client : Text) (a : ℕ)
      → max_requests ≤ exact_bound
      → length calls < printed
      → IsQuiet fl r store.conn.turns
      → Synced fl r store.conn.time store.conn.turns calls
      → All (IsDated host window) calls
      → Ascending 0 (clocks_of host window (key_digest host client) calls)
      → r.held store.conn.server store.conn.time (sw_key fl r store (key_digest host client)) ≡ none
      → r.held store.conn.server store.conn.time (swseq_key fl r store (key_digest host client))
        ≡ none
      → count_if
          (admitted_in_span host window (key_digest host client) a)
          (sliding_checks fl r lua host max_requests window store calls).1
        ≤ max_requests
  sliding_checks_bound store calls max window client a small few quiet synced dated ordered no_log
        no_seq =
      omega (
        arith,
        bounds fl r lua host is_host is_redis is_lua ieee max window small client a calls store
            quiet synced [] 0 0 0 0 (inl (no_log, no_seq, refl))
            (record {
              few = omega arith;
              fits = tt;
              until = omega arith;
              counted = omega arith;
              ordered = ordered;
              dated = dated;
              numbers = omega arith;
            }),
      )
