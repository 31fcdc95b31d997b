-- ===== src/Stores/RedisStore/Remaining.antt =====
-- src/stores/redis.rs: `remaining`, and the store as a `RateLimitStore`.
use armature_ratelimit.Extractor.{Host, key_digest}
use armature_ratelimit.Float.{Float}
use armature_ratelimit.Outcome as Outcome
use armature_ratelimit.Outcome.{Outcome, ok, panic}
use armature_ratelimit.Prelude.{ℕ, ◌-◌, Option, none, some, Text, codes, unwrap_or}
use armature_ratelimit.Redis.{Redis, Lua, Answer, done, failed}
use armature_ratelimit.Stores.RedisStore as Store
use armature_ratelimit.Stores.RedisStore.Sweep as Sweep
use armature_ratelimit.Stores.RedisStore.{
  RedisStore, Op, return, with_op_timeout, tb_key, sw_key, swmax_key, fwmax_key, fwcur_key, fw_key,
}
use armature_ratelimit.Headers.{to_string}
use armature_ratelimit.Stores.{RateLimitStore}

-- The conversion of a reply, which is a part of the request.
abbrev pub converted {ℓ κ} : {A : Type ℓ} {B : Type κ} → Answer A → (A → Answer B) → Answer B
converted (failed e) decode = failed e
converted (done a) decode = decode a

abbrev parsed : {A : Type 0} → Text → Option A → Answer (Option A)
parsed e none = failed e
parsed e (some a) = done (some a)

abbrev pub decode : {A : Type 0} → Text → (Text → Option A) → Option Text → Answer (Option A)
decode e parse none = done none
decode e parse (some text) = parsed e (parse text)

module _ (fl : Float) (r : Redis fl) (lua : Lua fl) (host : Host) where
  infixl 5 ◌>>=◌
  abbrev ◌>>=◌ : {A B : Type 0} → Op fl r A → (A → Op fl r B) → Op fl r B
  m >>= next = Store.◌>>=◌ fl r m next

  abbrev pub ask : {A B : Type 0} → (r.Server → ℕ → Answer A) → (A → Answer B) → Op fl r B
  ask query conversion = with_op_timeout fl r (λ s t. (s, converted (query s t) conversion))

  abbrev pub decode_u64 : Option Text → Answer (Option ℕ)
  decode_u64 = decode lua.type_error lua.read_u64

  abbrev pub decode_three :
      Option Text × (Option Text × Option Text) → Answer (Option ℕ × (Option ℕ × Option ℕ))
  decode_three reply = converted (decode_u64 reply.0) (λ a.
      converted (decode_u64 reply.1.0)
        (λ b. converted (decode_u64 reply.1.1) (λ c. done (a, (b, c)))))

  abbrev remaining_sliding : RedisStore fl r → Text → Option ℕ → Op fl r ℕ
  remaining_sliding store digest none = return fl r (ok 0)
  remaining_sliding store digest (some max) =
      ask (λ s t. r.zcard s t (sw_key fl r store digest)) (λ count. done count)
      >>= (λ count. return fl r (ok (max - count)))

  abbrev pub remaining_window : RedisStore fl r → Text → Option ℕ → Option ℕ → Option ℕ → Op fl r ℕ
  remaining_window store digest (some window_id) (some max) swmax =
      ask (λ s t. r.get s t (fw_key fl r store digest (to_string window_id))) decode_u64
      >>= (λ count. return fl r (ok (max - unwrap_or count 0)))
  remaining_window store digest none fwmax swmax = remaining_sliding store digest swmax
  remaining_window store digest (some window_id) none swmax = remaining_sliding store digest swmax

  abbrev pub remaining_counted : RedisStore fl r → Text → Option fl.F → Op fl r ℕ
  remaining_counted store digest (some tokens) =
      return fl r (ok (fl.to_u64 (fl.fmax tokens fl.nought)))
  remaining_counted store digest none =
      ask
        (λ s t.
          r.mget s t (fwcur_key fl r store digest) (fwmax_key fl r store digest)
            (swmax_key fl r store digest))
        decode_three
      >>= (λ found. remaining_window store digest found.0 found.1.0 found.1.1)

  unfoldable pub remaining : Text → Op fl r ℕ
  remaining name store =
      let digest = key_digest host name in
      (ask (λ s t. r.hget s t (tb_key fl r store digest) (codes "tokens"))
            (decode lua.type_error lua.read_f64)
          >>= remaining_counted store digest)
        store

  -- A sweep that has not ended within `fuel` rounds stands as a panic.
  abbrev finished :
      RedisStore fl r
      → Option (RedisStore fl r × Outcome (Unit {0}))
      → RedisStore fl r × Outcome (Unit {0})
  finished store none = (store, panic)
  finished store (some out) = out

  abbrev pub redis_store : ℕ → RateLimitStore fl
  redis_store fuel = record {
    State = RedisStore fl r;
    token_bucket_check = λ store now name capacity rate.
        Store.token_bucket_check fl r lua host now name capacity rate store;
    sliding_window_check = λ store now name max_requests window.
        Store.sliding_window_check fl r lua host now name max_requests window store;
    fixed_window_check = λ store now name max_requests window.
        Store.fixed_window_check fl r lua host now name max_requests window store;
    reset = λ store now name. finished store (Sweep.reset fl r host fuel name store);
    remaining = λ store now name. remaining name store;
    cleanup = λ store now. (store, ok tt);
    store_type = codes "redis";
  }

  -- How `RateLimiterBuilder::build` opens the store.
  abbrev pub dial :
      (Text → Outcome (Store.ConnectionManager fl r))
      → ℕ
      → Text
      → Text
      → ℕ
      → Outcome ((store : RateLimitStore fl) × store.State)
  dial open_connection fuel url prefix limit =
      Outcome.◌>>=◌ (Store.with_prefix fl r open_connection url prefix)
        (λ store. ok (redis_store fuel, Store.with_operation_timeout fl r store limit))
