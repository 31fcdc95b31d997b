-- ===== src/Stores/RedisStore.antt =====
-- src/stores/redis.rs: `RedisStore`, over a connection whose turns are given. Casts to and sums of
-- `i64` are residues modulo 2^64.
pub mod Sweep
pub mod Remaining
pub mod Timeouts
pub mod Names
pub mod Served
pub mod Histories
pub mod Checks
pub mod FixedBound
pub mod Prompt
pub mod Onward
pub mod Cleared
pub mod Ends
pub mod Kinds
pub mod Kept
pub mod Others
pub mod Reading
pub mod SlidingChecks
pub mod Logged
pub mod SlidingHistories
pub mod SlidingCalls
pub mod SlidingBound
pub mod Rollover
pub mod BucketChecks
pub mod BucketHistories
use armature_ratelimit.Extractor.{Host, key_digest}
use armature_ratelimit.Float.{Float}
use armature_ratelimit.Headers.{to_string}
use armature_ratelimit.Outcome.{Outcome, ok, err, panic, store_error, timeout}
use armature_ratelimit.Outcome as Outcome
use armature_ratelimit.Prelude.{
  ℕ, zero, suc, ◌+◌, ◌-◌, ◌*◌, ◌/◌, ◌%◌, ◌^◌, ◌≡◌, max, Bool, true, false, Option, none, some, List,
  [], ◌∷◌, ◌++◌, Text, codes, ltb, leb, ◌==◌, if◌then◌else◌,
}
use armature_ratelimit.Redis.{Redis, Lua, Answer, done, failed}
use armature_ratelimit.Stores.RedisScripts as Scripts
use armature_ratelimit.Stores.{Clock}

-- What becomes of a request to the server: it is answered after a time of so many nanoseconds; or
-- the connection breaks with an error; or nothing is ever heard. Without a reply the server may
-- still have executed it.
pub data Fate : Type 0 where
  replied : (latency : ℕ) → Fate
  broken : (error : Text) (latency : ℕ) (ran : Bool) → Fate
  silent : (ran : Bool) → Fate

abbrev pub i64_mod : ℕ
i64_mod = 2 ^ 64

-- An `i64` in decimal.
abbrev pub i64_text : ℕ → Text
i64_text n = if ltb n (2 ^ 63) then to_string n else codes "-" ++ to_string (i64_mod - n)

abbrev pub window_ms_of : ℕ → ℕ
window_ms_of window = max (window / 1_000_000 % i64_mod) 1

-- `now_ms / window_ms`
abbrev pub window_id_at : Clock → ℕ → ℕ
window_id_at now window = now.since_epoch / 1_000_000 % i64_mod / window_ms_of window

abbrev pub ttl_secs : ℕ → ℕ
ttl_secs window = max ((window_ms_of window + 999) / 1000) 1 + 10

-- Whether the server executed the request.
abbrev pub executed : Fate → Bool
executed (replied latency) = true
executed (broken e latency ran) = ran
executed (silent ran) = ran

-- The server afterwards, if it is `new` with the request and `old` without.
abbrev pub served {ℓ} : {S : Type ℓ} → Fate → S → S → S
served fate new old = if executed fate then new else old

abbrev map_err {ℓ} : {A : Type ℓ} → Answer A → Outcome A
map_err (done a) = ok a
map_err (failed e) = err (store_error e)

-- What the caller gets: the first to come of the reply and the timeout.
abbrev pub heard {ℓ} : {A : Type ℓ} → ℕ → Fate → Answer A → Outcome A
heard limit (replied latency) answer = if leb latency limit then map_err answer else err timeout
heard limit (broken e latency ran) answer =
    if leb latency limit then err (store_error e) else err timeout
heard limit (silent ran) answer = err timeout

module _ (fl : Float) (r : Redis fl) where
  -- One turn of the connection: what other clients did to the server before it, the milliseconds
  -- that went by there, and what becomes of the request.
  pub record Turn : Type 0 where
    pub meanwhile : r.Server → r.Server
    pub delay : ℕ
    pub fate : Fate

  -- `ConnectionManager`: the server with its clock, and the turns to come.
  pub record ConnectionManager : Type 0 where
    pub server : r.Server
    pub time : ℕ
    pub turns : ℕ → Turn

  -- No other client comes between the requests.
  abbrev pub IsQuiet : (ℕ → Turn) → Type 0
  IsQuiet turns = (n : ℕ) (s : r.Server) → (turns n).meanwhile s ≡ s

  pub record RedisStore : Type 0 where
    pub conn : ConnectionManager
    pub prefix : Text
    pub operation_timeout : ℕ

  abbrev default_operation_timeout : ℕ
  default_operation_timeout = 3_000_000_000

  -- `Client::open` with `ConnectionManager::new` is a parameter.
  module _ (open_connection : Text → Outcome ConnectionManager) where
    unfoldable pub new : Text → Outcome RedisStore
    new url = Outcome.◌>>=◌ (open_connection url) (λ conn. ok (record {
      conn = conn;
      prefix = codes "ratelimit";
      operation_timeout = default_operation_timeout;
    }))

    abbrev pub with_prefix : Text → Text → Outcome RedisStore
    with_prefix url prefix =
        Outcome.◌>>=◌ (new url) (λ store. ok (record store { prefix = prefix }))

  abbrev pub with_operation_timeout : RedisStore → ℕ → RedisStore
  with_operation_timeout store limit = record store { operation_timeout = limit }

  unfoldable pub key : RedisStore → Text → Text
  key store suffix = store.prefix ++ (codes ":" ++ suffix)

  -- The connection at its next turn.
  abbrev pub advance : ConnectionManager → ConnectionManager
  advance conn =
      let turn = conn.turns 0 in
      record {
        server = turn.meanwhile conn.server;
        time = conn.time + turn.delay;
        turns = λ n. conn.turns (suc n);
      }

  -- An operation of the store.
  abbrev pub Op : Type 0 → Type 0
  Op A = RedisStore → RedisStore × Outcome A

  unfoldable pub with_op_timeout : {A : Type 0} → Scripts.Run fl r A → Op A
  with_op_timeout request store =
      let conn = advance store.conn in
      let fate = (store.conn.turns 0).fate in
      let (server, answer) = request conn.server conn.time in
      (
        record store { conn = record conn { server = served fate server conn.server } },
        heard store.operation_timeout fate answer,
      )

  -- `.await?`
  abbrev after : {A B : Type 0} → (A → Op B) → RedisStore × Outcome A → RedisStore × Outcome B
  after next (store, ok a) = next a store
  after next (store, err e) = (store, err e)
  after next (store, panic) = (store, panic)

  infixl 5 ◌>>=◌
  abbrev pub ◌>>=◌ : {A B : Type 0} → Op A → (A → Op B) → Op B
  ◌>>=◌ m next store = after next (m store)

  abbrev pub return : {A : Type 0} → Outcome A → Op A
  return out store = (store, out)

  -- The names of the keys that belong to a digest.
  abbrev pub tb_key : RedisStore → Text → Text
  tb_key store digest = key store (codes "tb:" ++ digest)

  abbrev pub sw_key : RedisStore → Text → Text
  sw_key store digest = key store (codes "sw:" ++ digest)

  abbrev pub swmax_key : RedisStore → Text → Text
  swmax_key store digest = key store (codes "swmax:" ++ digest)

  abbrev pub swseq_key : RedisStore → Text → Text
  swseq_key store digest = key store (codes "swseq:" ++ digest)

  abbrev pub fwmax_key : RedisStore → Text → Text
  fwmax_key store digest = key store (codes "fwmax:" ++ digest)

  abbrev pub fwcur_key : RedisStore → Text → Text
  fwcur_key store digest = key store (codes "fwcur:" ++ digest)

  abbrev pub fw_key : RedisStore → Text → Text → Text
  fw_key store digest window_id = key store (codes "fw:" ++ (digest ++ (codes ":" ++ window_id)))

  -- The reply of a script: whether the request is allowed, and what remains.
  abbrev pub read_pair : ℕ × ℕ → Op (Bool × ℕ)
  read_pair result = return (ok (result.0 == 1, result.1))

  abbrev pub read_count : ℕ → ℕ → Op (Bool × ℕ)
  read_count max_requests count =
      return (if leb count max_requests then ok (true, max_requests - count) else ok (false, 0))

  module _ (lua : Lua fl) (host : Host) where
    unfoldable pub token_bucket_check : Clock → Text → ℕ → fl.F → Op (Bool × ℕ)
    token_bucket_check now name capacity refill_rate store =
        let full_key = tb_key store (key_digest host name) in
        let secs = fl.as_secs now.since_epoch in
        (with_op_timeout (
              Scripts.token_bucket_script fl r lua full_key (to_string capacity)
                (lua.f64_text refill_rate) (lua.f64_text secs))
            >>= read_pair)
          store

    unfoldable pub sliding_window_check : Clock → Text → ℕ → ℕ → Op (Bool × ℕ)
    sliding_window_check now name max_requests window store =
        let digest = key_digest host name in
        let now_ms = now.since_epoch / 1_000_000 % i64_mod in
        let window_ms = window / 1_000_000 % i64_mod in
        let cutoff = (now_ms + i64_mod - window_ms) % i64_mod in
        (with_op_timeout (
              Scripts.sliding_window_script fl r lua (sw_key store digest) (swmax_key store digest)
                (swseq_key store digest) (to_string max_requests) (i64_text now_ms)
                (i64_text cutoff) (to_string (window / 1_000_000_000)))
            >>= read_pair)
          store

    unfoldable pub fixed_window_check : Clock → Text → ℕ → ℕ → Op (Bool × ℕ)
    fixed_window_check now name max_requests window store =
        let digest = key_digest host name in
        let window_id = to_string (window_id_at now window) in
        (with_op_timeout (
              Scripts.fixed_window_script fl r lua (fw_key store digest window_id)
                (fwmax_key store digest) (fwcur_key store digest) (to_string max_requests) window_id
                (i64_text (ttl_secs window)))
            >>= read_count max_requests)
          store
