-- ===== src/Stores/RedisStore/SlidingChecks.antt =====
-- src/stores/redis.rs: what one `sliding_window_check` does to the log of a client, whatever becomes
-- of its request.
use armature_ratelimit.Extractor.{Host, key_digest}
use armature_ratelimit.Float.{Float, IsIeee, exact_bound}
use armature_ratelimit.Headers.{to_string}
use armature_ratelimit.Outcome.{Outcome, ok, err, panic, is_admitted}
use armature_ratelimit.Prelude.{
  ℕ, suc, ◌+◌, ◌-◌, ◌*◌, ◌/◌, ◌%◌, ◌≤◌, ◌<◌, ◌≡◌, ◌⊎◌, refl, Bool, true, false, ◌==◌, Text, codes,
  ◌++◌, text_eq, arith, Bool-cases, inl, inr, ltb, length, ◌∷◌,
}
use armature_ratelimit.Redis.{Redis, Lua, Answer, done}
use armature_ratelimit.Redis.Laws.{IsRedis, IsLua}
use armature_ratelimit.Stores.RedisScripts as Scripts
use armature_ratelimit.Stores.RedisScripts.Logging.{IsLogged}
use armature_ratelimit.Stores.RedisScripts.LogSteps.{sliding_window-Steps}
use armature_ratelimit.Stores.RedisScripts.Members.{Log, printed, newer}
use armature_ratelimit.Stores.RedisStore.Checks.{small_text}
use armature_ratelimit.Stores.RedisStore.Names.{text_eq-key}
use armature_ratelimit.Stores.RedisStore.{
  Fate, replied, broken, silent, executed, served, heard, RedisStore, after, with_op_timeout,
  read_pair, sliding_window_check, sw_key, swmax_key, swseq_key, i64_mod,
}
use armature_ratelimit.Stores.{Clock}

-- No wrap-around of such a time, nor of a difference that is no less than 0.
i64_small : (n : ℕ) → n ≤ exact_bound → n % i64_mod ≡ n
i64_small n h = omega arith

i64_sub : (a b : ℕ) → b ≤ a → a ≤ exact_bound → (a + i64_mod - b) % i64_mod ≡ a - b
i64_sub a b le h = omega arith

abbrev pub ms : ℕ → ℕ
ms t = t / 1_000_000

-- How the reply is read.
abbrev pub read_reply : Outcome (ℕ × ℕ) → Outcome (Bool × ℕ)
read_reply (ok result) = ok (result.0 == 1, result.1)
read_reply (err e) = err e
read_reply panic = panic

heard_denied :
    (limit : ℕ) (fate : Fate) → is_admitted (read_reply (heard limit fate (done (0, 0)))) ≡ false
heard_denied limit (replied latency) = ground arith
heard_denied limit (broken e latency ran) = ground arith
heard_denied limit (silent ran) = refl

not_run_denied :
    (limit : ℕ) (fate : Fate) (answer : Answer (ℕ × ℕ))
    → executed fate ≡ false
    → is_admitted (read_reply (heard limit fate answer)) ≡ false
not_run_denied limit (replied latency) answer e = cc
not_run_denied limit (broken x latency ran) answer e = ground arith
not_run_denied limit (silent ran) answer e = refl

module _ (fl : Float) (r : Redis fl) (lua : Lua fl) (host : Host) (max window : ℕ) where
  abbrev pub request_of : RedisStore fl r → Clock → Text → Scripts.Run fl r (ℕ × ℕ)
  request_of store now name =
      let digest = key_digest host name in
      Scripts.sliding_window_script fl r lua (sw_key fl r store digest)
        (swmax_key fl r store digest) (swseq_key fl r store digest) (to_string max)
        (to_string (ms now.since_epoch)) (to_string (ms now.since_epoch - ms window))
        (to_string (window / 1_000_000_000))

  after-read_pair :
      (out : RedisStore fl r × Outcome (ℕ × ℕ))
      → after fl r (read_pair fl r) out ≡ (out.0, read_reply out.1)
  after-read_pair (store, ok result) = refl
  after-read_pair (store, err e) = refl
  after-read_pair (store, panic) = refl

  pub check_lem :
      (store : RedisStore fl r) (now : Clock) (name : Text)
      → window ≤ now.since_epoch
      → ms now.since_epoch ≤ exact_bound
      → sliding_window_check fl r lua host now name max window store ≡ (
        (with_op_timeout fl r (request_of store now name) store).0,
        read_reply (with_op_timeout fl r (request_of store now name) store).1,
      )
  unfolding sliding_window_check
  check_lem store now name past small =
      rw
        (
          i64_small (ms now.since_epoch) small,
          i64_small (ms window) (omega arith),
          i64_sub (ms now.since_epoch) (ms window) (omega arith) small,
          small_text (ms now.since_epoch) (omega arith),
          small_text (ms now.since_epoch - ms window) (omega arith),
        )
        (after-read_pair (with_op_timeout fl r (request_of store now name) store))

module _ (fl : Float) (r : Redis fl) (lua : Lua fl) (host : Host) (is_redis : IsRedis fl r)
    (is_lua : IsLua fl lua) (ieee : IsIeee fl) (max window : ℕ)
    (small_max : max ≤ exact_bound) where
  abbrev pub IsLog : RedisStore fl r → Text → r.Server → ℕ → Log → ℕ → ℕ → Type 0
  IsLog store digest =
      IsLogged fl r is_redis (sw_key fl r store digest) (swseq_key fl r store digest)

  abbrev pub ttl_ms : ℕ
  ttl_ms = (window / 1_000_000_000 + 10) * 1000

  -- A request is denied or fails and the log is as it was, or pruned; or there is room, and the log
  -- has one entry more.
  abbrev Leaves : ℕ → Log → ℕ → ℕ → Log → ℕ → ℕ → Outcome (Bool × ℕ) → Type 0
  Leaves time log d now log' m' d' out =
      let kept = newer (now - ms window) log in
      ((log' ≡ log) × (d' ≡ d) × (is_admitted out ≡ false))
      ⊎ ((log' ≡ kept) × (d' ≡ d) × (is_admitted out ≡ false))
      ⊎ (ltb (length kept) max ≡ true) × (log' ≡ (now, m') ∷ kept) × (d' ≡ time + ttl_ms)

  module _ (store : RedisStore fl r) (now : Clock) (name : Text) where
    pub leaves :
        (s : r.Server) (t m d : ℕ) (log : Log)
        → IsLog store (key_digest host name) s t log m d
        → length log ≤ exact_bound
        → suc m < printed
        → window ≤ now.since_epoch
        → ms now.since_epoch < printed
        → (log' : Log) × (m' : ℕ) × (d' : ℕ) × IsLog store
            (key_digest host name)
            (served
              (store.conn.turns 0).fate
              (request_of fl r lua host max window store now name s t).0
              s)
            t
            log'
            m'
            d'
          × (m' ≤ suc m)
          × Leaves t log d (ms now.since_epoch) log' m' d' (
              read_reply (
                heard store.operation_timeout
                  (store.conn.turns 0).fate
                  (request_of fl r lua host max window store now name s t).1))
    unfolding text_eq
    leaves s t m d log h few numbers past small =
        let digest = key_digest host name in
        let apart = text_eq-key fl r store in
        let (log', m', d', h', le, does) =
          sliding_window-Steps fl r is_redis lua is_lua ieee (sw_key fl r store digest)
            (swmax_key fl r store digest) (swseq_key fl r store digest)
            (apart (codes "swmax:" ++ digest) (codes "sw:" ++ digest))
            (apart (codes "swseq:" ++ digest) (codes "sw:" ++ digest))
            (apart (codes "swmax:" ++ digest) (codes "swseq:" ++ digest))
            (apart (codes "sw:" ++ digest) (codes "swseq:" ++ digest)) max (ms now.since_epoch)
            (ms now.since_epoch - ms window) (window / 1_000_000_000) small_max small (omega arith)
            (omega arith) s t m d log h few numbers in
        elim (Bool-cases (executed (store.conn.turns 0).fate)) [
          | inl ran ↦ elim does [
            | inl (room, add, until, answer) ↦
                (log', m', d', rw ran h', le, inr (inr (room, add, until)))
            | inr (full, same, until, answer) ↦ (
              log',
              m',
              d',
              rw ran h',
              le,
              inr (
                  inl (
                    same,
                    until,
                    rw answer (heard_denied store.operation_timeout (store.conn.turns 0).fate),
                  )),
            )
          ]
          | inr not_run ↦ (
            log,
            m,
            d,
            rw not_run h,
            omega arith,
            inl (
              refl,
              refl,
              not_run_denied store.operation_timeout (store.conn.turns 0).fate _ not_run,
            ),
          )
        ]
