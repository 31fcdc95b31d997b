-- ===== src/Stores/RedisStore/Rollover.antt =====
-- src/stores/redis.rs: `remaining` after a fixed window is over.
use armature_ratelimit.Extractor.{Host, key_digest}
use armature_ratelimit.Float.{Float, IsIeee, exact_bound, max_u64}
use armature_ratelimit.Headers.{to_string}
use armature_ratelimit.Outcome.{ok}
use armature_ratelimit.Prelude.{ℕ, ◌-◌, ◌≤◌, ◌<◌, ◌≡◌, none, Text, arith, ap, ◌∙◌, true}
use armature_ratelimit.Redis.{Redis, Lua}
use armature_ratelimit.Redis.Laws.{IsRedis, IsLua}
use armature_ratelimit.Stores.{Clock}
use armature_ratelimit.Stores.RedisScripts.Counting.{opening_answers}
use armature_ratelimit.Stores.RedisStore.Checks.{request_of, check_lem}
use armature_ratelimit.Stores.RedisStore.Names.{fwmax-fw, fwcur-fw}
use armature_ratelimit.Stores.RedisStore.Prompt.{IsPromptly, asked, with_op_timeout_prompt}
use armature_ratelimit.Stores.RedisStore.Reading.{Shows, span_of, absent-looked, remaining_counter}
use armature_ratelimit.Stores.RedisStore.Remaining.{remaining}
use armature_ratelimit.Stores.RedisStore.{
  RedisStore, advance, after, map_err, read_count, fixed_window_check, window_id_at, window_ms_of,
  ttl_secs, tb_key, swmax_key, fwcur_key, fwmax_key, fw_key,
}

module _ (fl : Float) (r : Redis fl) (is_redis : IsRedis fl r) (lua : Lua fl)
    (is_lua : IsLua fl lua) (host : Host) (ieee : IsIeee fl) where
  opening_check :
      (store : RedisStore fl r) (now : Clock) (name : Text) (max window : ℕ)
      → IsPromptly fl r store
      → 0 < max
      → window_ms_of window ≤ exact_bound
      → r.held store.conn.server store.conn.time
          (fw_key fl r store (key_digest host name) (to_string (window_id_at now window)))
        ≡ none
      → (fixed_window_check fl r lua host now name max window store).1 ≡ ok (true, max - 1)
  opening_check store now name max window ready pos short fresh =
      let digest = key_digest host name in
      let id = to_string (window_id_at now window) in
      let k = fw_key fl r store digest id in
      let request =
        request_of fl r lua host is_redis is_lua ieee max window (omega arith) digest 0 0 store now
          name in
      let conn = advance fl r store.conn in
      ap (λ out. out.1)
        (check_lem fl r lua host is_redis is_lua ieee max window (omega arith) digest 0 0 store now
          name)
      ∙ ap (λ out. (after fl r (read_count fl r max) out).1)
          (with_op_timeout_prompt fl r request store ready)
      ∙ ap (λ a. (after fl r (read_count fl r max) (asked fl r request store, map_err a)).1)
          (opening_answers fl r is_redis lua is_lua ieee k (fwmax_key fl r store digest)
            (fwcur_key fl r store digest) (to_string max) id (fwmax-fw fl r store digest digest id)
            (fwcur-fw fl r store digest digest id) (ttl_secs window) (omega arith) (omega arith)
            conn.server conn.time (absent-looked fl r is_redis store ready k fresh))
      ∙ ground arith

  -- For a client of Redis whose last fixed window is used up, and whose counter and companions
  -- live on for the next three requests, with every request answered in time, no other client in
  -- between, no token bucket and no sliding window, `remaining` reports 0 although a check in a
  -- window that has no counter yet admits the request.
  pub remaining_stale :
      (store : RedisStore fl r) (now : Clock) (name : Text) (id max window : ℕ)
      → IsPromptly fl r store
      → id ≤ max_u64
      → 0 < max
      → max ≤ max_u64
      → window_ms_of window ≤ exact_bound
      → r.held store.conn.server store.conn.time (tb_key fl r store (key_digest host name)) ≡ none
      → r.held store.conn.server store.conn.time (swmax_key fl r store (key_digest host name))
        ≡ none
      → Shows fl r store
          (span_of fl r store)
          (fwcur_key fl r store (key_digest host name))
          (to_string id)
      → Shows fl r store
          (span_of fl r store)
          (fwmax_key fl r store (key_digest host name))
          (to_string max)
      → Shows fl r store
          (span_of fl r store)
          (fw_key fl r store (key_digest host name) (to_string id))
          (to_string max)
      → r.held store.conn.server store.conn.time
          (fw_key fl r store (key_digest host name) (to_string (window_id_at now window)))
        ≡ none
      → ((remaining fl r lua host name store).1 ≡ ok 0)
        × ((fixed_window_check fl r lua host now name max window store).1 ≡ ok (true, max - 1))
  remaining_stale store now name id max window ready i pos m short no_tb no_sw cur most count
        fresh =
      (
        remaining_counter fl r is_redis lua is_lua host store ready name id max max i m m no_tb
              no_sw cur most count
            ∙ ap ok (omega arith),
        opening_check store now name max window ready pos short fresh,
      )
