-- ===== src/Stores/RedisStore/Logged.antt =====
-- src/stores/redis.rs: what a sliding window check answers.
use armature_ratelimit.Extractor.{Host, key_digest}
use armature_ratelimit.Float.{Float, IsIeee, exact_bound}
use armature_ratelimit.Outcome.{Outcome, ok}
use armature_ratelimit.Prelude.{
  ℕ, ◌-◌, ◌/◌, ◌≤◌, ◌≡◌, refl, Bool, true, false, ◌==◌, Text, codes, text_eq, arith, ltb, length,
  if◌then◌else◌, ◌++◌,
}
use armature_ratelimit.Redis.{Redis, Lua}
use armature_ratelimit.Redis.Laws.{IsRedis, IsLua, entries, IsZset, outside}
use armature_ratelimit.Stores.{Clock}
use armature_ratelimit.Stores.RedisScripts.Sliding.{IsSequence, sliding_window_answers}
use armature_ratelimit.Stores.RedisStore.SlidingChecks.{ms, request_of, check_lem}
use armature_ratelimit.Stores.RedisStore.Names.{text_eq-key}
use armature_ratelimit.Stores.RedisStore.Prompt.{IsPrompt, with_op_timeout_heard}
use armature_ratelimit.Stores.RedisStore.{
  RedisStore, advance, sliding_window_check, sw_key, swmax_key, swseq_key,
}

-- The numbers of the reply, and how they are read.
abbrev reply : Bool → ℕ → ℕ × ℕ
reply b left = if b then (1, left) else (0, 0)

paired :
    (b : Bool) (left : ℕ)
    → ◌≡◌ {A = Outcome (Bool × ℕ)}
        (ok ((reply b left).0 == 1, (reply b left).1))
        (ok (b, if b then left else 0))
paired true left = refl
paired false left = refl

module _ (fl : Float) (r : Redis fl) (is_redis : IsRedis fl r) (lua : Lua fl)
    (is_lua : IsLua fl lua) (host : Host) (ieee : IsIeee fl) (store : RedisStore fl r) (now : Clock)
    (name : Text) (max window : ℕ) where
  -- The requests of a client's log that are younger than the window.
  abbrev logged : ℕ
  logged =
      let conn = advance fl r store.conn in
      length (
        outside fl (fl.of_u64 0) (fl.of_u64 (now.since_epoch / 1_000_000 - window / 1_000_000))
          (entries (r.held conn.server conn.time (sw_key fl r store (key_digest host name)))))

  -- If the reply of Redis comes in time and, as the request reaches the server, the client's log
  -- is a sorted set or missing and its sequence counter a number below 2^53 or missing, a sliding
  -- window check admits the request exactly when fewer than `max_requests` entries of the log score
  -- outside the span from 0 to one window before the client's clock, in whole milliseconds, and
  -- reports the limit less these entries and the request itself, or 0 on a denial; the limit, the
  -- clock's milliseconds and the entries number at most 2^53, and the clock is at least one window
  -- after the epoch.
  pub sliding_window_check_lem :
      IsPrompt store.operation_timeout (store.conn.turns 0).fate
      → IsZset (
          r.held
            (advance fl r store.conn).server
            (advance fl r store.conn).time
            (sw_key fl r store (key_digest host name)))
      → IsSequence (
          r.held
            (advance fl r store.conn).server
            (advance fl r store.conn).time
            (swseq_key fl r store (key_digest host name)))
      → max ≤ exact_bound
      → window ≤ now.since_epoch
      → now.since_epoch / 1_000_000 ≤ exact_bound
      → logged ≤ exact_bound
      → (sliding_window_check fl r lua host now name max window store).1
        ≡ ok (ltb logged max, if ltb logged max then max - logged - 1 else 0)
  unfolding text_eq
  sliding_window_check_lem prompt z sequence small_max past small_now few =
      let digest = key_digest host name in
      let now_ms = ms now.since_epoch in
      let conn = advance fl r store.conn in
      let apart = text_eq-key fl r store in
      rw
        (
          check_lem fl r lua host max window store now name past small_now,
          with_op_timeout_heard fl r (request_of fl r lua host max window store now name) store
              prompt,
          sliding_window_answers fl r is_redis lua is_lua ieee (sw_key fl r store digest)
              (swmax_key fl r store digest) (swseq_key fl r store digest)
              (apart (codes "swmax:" ++ digest) (codes "sw:" ++ digest))
              (apart (codes "swseq:" ++ digest) (codes "sw:" ++ digest))
              (apart (codes "swmax:" ++ digest) (codes "swseq:" ++ digest))
              (apart (codes "sw:" ++ digest) (codes "swseq:" ++ digest)) max now_ms
              (now_ms - ms window) (window / 1_000_000_000) small_max small_now (omega arith)
              (omega arith) conn.server conn.time z few sequence,
        )
        (paired (ltb logged max) (max - logged - 1))
