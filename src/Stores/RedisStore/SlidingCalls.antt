-- ===== src/Stores/RedisStore/SlidingCalls.antt =====
-- src/stores/redis.rs: one call of a history of sliding window checks.
use armature_ratelimit.Extractor.Keys.{IsHost}
use armature_ratelimit.Extractor.{Host, key_digest}
use armature_ratelimit.Float.{Float, IsIeee, exact_bound}
use armature_ratelimit.Outcome.{Outcome, is_admitted}
use armature_ratelimit.Prelude.{
  ℕ, suc, ◌+◌, ◌-◌, ◌≤◌, ◌<◌, ◌≡◌, refl, sym, subst, Bool, true, false, ◌&&◌, List, ◌∷◌, Text,
  text_eq, text_eq_iff, arith, Bool-cases, inl, inr, leb, count_if-le, length, All, Ascending,
  if◌then◌else◌,
}
use armature_ratelimit.Redis.{Redis, Lua}
use armature_ratelimit.Redis.Laws.{IsRedis, IsLua}
use armature_ratelimit.Stores.RedisScripts.Counter.{Keeps}
use armature_ratelimit.Stores.RedisScripts.Logging.{IsLogged-held}
use armature_ratelimit.Stores.RedisScripts.Members.{Log, printed, newer, length-newer-le}
use armature_ratelimit.Stores.RedisScripts.Untouched.{Keeps-sliding_window_script}
use armature_ratelimit.Stores.RedisStore.Checks.{and_true}
use armature_ratelimit.Stores.RedisStore.Served.{both_ways}
use armature_ratelimit.Stores.RedisStore.Kinds.{sw, swmax, swseq}
use armature_ratelimit.Stores.RedisStore.Others.{apart, length-key_digest}
use armature_ratelimit.Stores.RedisStore.SlidingChecks.{
  ms, request_of, read_reply, check_lem, IsLog, ttl_ms, leaves,
}
use armature_ratelimit.Stores.RedisStore.SlidingHistories.{
  span, admitted_in_span, clocks_of, IsDated, skew, sliding_checks, admitted, admitted_later,
  in_log, in_log-newer, Fits, Fits-mono, Fits-newer,
}
use armature_ratelimit.Stores.RedisStore.{
  Fate, executed, served, RedisStore, advance, with_op_timeout, key, sw_key, swseq_key,
}
use armature_ratelimit.Stores.{Clock}

served-eq :
    {S : Type 0} {B : Type 0} (f : S → B) (fate : Fate) (new old : S)
    → f new ≡ f old
    → f (served fate new old) ≡ f old
served-eq f fate new old e = elim (Bool-cases (executed fate)) [
  | inl ran ↦ rw ran e
  | inr not_run ↦ rw not_run refl
]

-- One call more, if it is counted only with its entry in the log.
counted_call :
    (b : Bool) (c n limit room : ℕ)
    → (b ≡ true → suc c ≤ room)
    → c ≤ room
    → ((c' : ℕ) → c' ≤ room → c' + n ≤ limit)
    → c + (if b then suc n else n) ≤ limit
counted_call true c n limit room one le rest = omega (arith, rest (suc c) (one refl))
counted_call false c n limit room one le rest = rest c le

module _ (fl : Float) (r : Redis fl) (lua : Lua fl) (host : Host) (is_host : IsHost host)
    (is_redis : IsRedis fl r) (is_lua : IsLua fl lua) (ieee : IsIeee fl) (max window : ℕ)
    (small_max : max ≤ exact_bound) (client : Text) (a : ℕ) where
  abbrev pub digest : Text
  digest = key_digest host client

  -- What holds of a log, with `c` requests of the span admitted, before more calls.
  pub record IsReady (calls : List (Clock × Text)) (time : ℕ) (log : Log) (m d c from : ℕ)
      : Type 0 where
    pub few : length log ≤ max
    pub fits : Fits (ms window) d log
    pub until : d ≤ time + ttl_ms fl r lua host is_redis is_lua ieee max window small_max
    pub counted : c ≤ in_log a (ms window) log
    pub ordered : Ascending from (clocks_of host window digest calls)
    pub dated : All (IsDated host window) calls
    pub numbers : m + length calls < printed

  abbrev IsOurs : RedisStore fl r → r.Server → ℕ → Log → ℕ → ℕ → Type 0
  IsOurs store = IsLog fl r lua host is_redis is_lua ieee max window small_max store digest

  -- What the calls to come may do, from a store.
  abbrev pub Bounds : List (Clock × Text) → RedisStore fl r → Type 0
  Bounds calls store =
      (log : Log) (m d c from : ℕ)
      → IsOurs store store.conn.server store.conn.time log m d
      → IsReady calls store.conn.time log m d c from
      → c + admitted fl r lua host max window digest a store calls ≤ max

  module _ (now : Clock) (name : Text) (calls : List (Clock × Text)) (store : RedisStore fl r)
      (log : Log) (m d c from : ℕ)
      (logged : IsOurs store
        (advance fl r store.conn).server
        (advance fl r store.conn).time
        log
        m
        d)
      (ready : IsReady ((now, name) ∷ calls) (advance fl r store.conn).time log m d c from) where
    abbrev time : ℕ
    time = (advance fl r store.conn).time

    abbrev pub out : RedisStore fl r × Outcome (ℕ × ℕ)
    out = with_op_timeout fl r (request_of fl r lua host max window store now name) store

    -- The call is counted.
    abbrev counts : Bool
    counts = admitted_in_span host window digest a ((now, name), read_reply out.1)

    abbrev mine : Bool
    mine = text_eq (key_digest host name) digest

    after_call :
        (log' : Log) (m' d' next_from : ℕ)
        → IsOurs out.0 out.0.conn.server out.0.conn.time log' m' d'
        → m' ≤ suc m
        → length log' ≤ max
        → Fits (ms window) d' log'
        → d' ≤ time + ttl_ms fl r lua host is_redis is_lua ieee max window small_max
        → Ascending next_from (clocks_of host window digest calls)
        → c ≤ in_log a (ms window) log'
        → (counts ≡ true → suc c ≤ in_log a (ms window) log')
        → Bounds calls out.0
        → c + admitted fl r lua host max window digest a store ((now, name) ∷ calls) ≤ max
    unfolding sliding_checks with_op_timeout
    after_call log' m' d' next_from h' le few fits until o counted one bounds =
        rw
          (check_lem fl r lua host max window store now name ready.dated.0.0
            (omega (arith, ready.dated.0.1)))
          (counted_call counts c (admitted fl r lua host max window digest a out.0 calls) max
            (in_log a (ms window) log') one counted
            (λ c' le'. bounds log' m' d' c' next_from h' (record {
              few = few;
              fits = fits;
              until = until;
              counted = le';
              ordered = o;
              dated = ready.dated.1;
              numbers = omega (arith, ready.numbers);
            })))

    small : c ≤ max
    small = omega (arith, ready.counted, ready.few, count_if-le (λ e. span a (ms window) e.0) log)

    counts_lem :
        counts ≡ true
        → (span a (ms window) (ms now.since_epoch) ≡ true) × (is_admitted (read_reply out.1) ≡ true)
    counts_lem f =
        let here = span a (ms window) (ms now.since_epoch) in
        let (inside, yes') = and_true (mine && here) (is_admitted (read_reply out.1)) f in
        ((and_true mine here inside).1, yes')

    -- A request of the client itself.
    our_call :
        mine ≡ true
        → ms now.since_epoch ≤ time + skew
        → Bounds calls out.0
        → c + admitted fl r lua host max window digest a store ((now, name) ∷ calls) ≤ max
    unfolding with_op_timeout key
    our_call is_mine near bounds =
        let same_digest = (text_eq_iff (key_digest host name) digest).0 is_mine in
        let (_, ordered) = rw is_mine at ready.ordered in
        let w = ms window in
        let t = ms now.since_epoch in
        let ttl = ttl_ms fl r lua host is_redis is_lua ieee max window small_max in
        let (log', m', d', h', le, does) =
          leaves fl r lua host is_redis is_lua ieee max window small_max store now name
            (advance fl r store.conn).server time m d log
            (subst
              (λ g.
                IsLog fl r lua host is_redis is_lua ieee max window small_max store g
                  (advance fl r store.conn).server time log m d)
              (sym same_digest) logged)
            (omega (arith, ready.few)) (omega (arith, ready.numbers)) ready.dated.0.0
            ready.dated.0.1 in
        let ours : IsOurs out.0 out.0.conn.server out.0.conn.time log' m' d' =
          subst
            (λ g.
              IsLog fl r lua host is_redis is_lua ieee max window small_max store g
                out.0.conn.server time log' m' d')
            same_digest h' in
        let denied = λ (e : is_admitted (read_reply out.1) ≡ false) (f : counts ≡ true).
          both_ways (is_admitted (read_reply out.1)) (counts_lem f).1 e in
        elim (Bool-cases (leb t (a + w))) [
          | inr late ↦
              let o : Ascending t (clocks_of host window digest ((now, name) ∷ calls)) =
                rw is_mine (omega arith, ordered) in
              omega (
                arith,
                small,
                admitted_later fl r lua host max window digest a t ((now, name) ∷ calls) store
                    (ground arith) o,
              )
          | inl early ↦ elim does [
            | inl (same, until, no_reply) ↦
                after_call log' m' d' t ours le (rw same ready.few) (rw (same, until) ready.fits)
                  (rw until ready.until) ordered (rw same ready.counted)
                  (λ f. absurd (denied no_reply f)) bounds
            | inr (inl (same, until, no_reply)) ↦
                after_call log' m' d' t ours le
                  (rw same (omega (arith, length-newer-le (t - w) log, ready.few)))
                  (rw (same, until) (Fits-newer w d (t - w) log ready.fits)) (rw until ready.until)
                  ordered (rw (same, in_log-newer a w t log (ground arith)) ready.counted)
                  (λ f. absurd (denied no_reply f)) bounds
            | inr (inr (room, add, until)) ↦
                let kept = newer (t - w) log in
                let as_before = in_log-newer a w t log (ground arith) in
                after_call log' m' d' t ours le (rw add (ground arith))
                  (subst (λ e. Fits w e log') (sym until)
                    (subst (Fits w (time + ttl)) (sym add) (
                      omega (arith, near),
                      Fits-mono w d (time + ttl) kept ready.until
                          (Fits-newer w d (t - w) log ready.fits),
                    )))
                  (omega (arith, until)) ordered (rw add (ground (arith, as_before, ready.counted)))
                  (λ f.
                    let here = (counts_lem f).0 in
                    rw (add, here) (omega (arith, as_before, ready.counted)))
                  bounds
          ]
        ]

    same_held :
        (k : Text)
        → Keeps fl r is_redis k (request_of fl r lua host max window store now name)
        → r.held out.0.conn.server time k ≡ r.held (advance fl r store.conn).server time k
    unfolding with_op_timeout
    same_held k keep =
        let s = (advance fl r store.conn).server in
        served-eq (λ s'. r.held s' time k) (store.conn.turns 0).fate
          (request_of fl r lua host max window store now name s time).0 s (keep s time)

    -- A request of another client.
    other_call :
        mine ≡ false
        → Bounds calls out.0
        → c + admitted fl r lua host max window digest a store ((now, name) ∷ calls) ≤ max
    unfolding with_op_timeout key
    other_call other bounds =
        let theirs = key_digest host name in
        let l = length-key_digest host is_host name client in
        let keeps = Keeps-sliding_window_script fl r is_redis lua in
        let s = (advance fl r store.conn).server in
        let kept =
          IsLogged-held fl r is_redis (sw_key fl r store digest) (swseq_key fl r store digest) s
            out.0.conn.server time log m d
            (same_held (sw_key fl r store digest) (
              keeps (sw_key fl r store digest) _ _ _ _ _ _ _
                (apart fl r store theirs digest sw sw l other)
                (apart fl r store theirs digest swmax sw l other)
                (apart fl r store theirs digest swseq sw l other)))
            (same_held (swseq_key fl r store digest) (
              keeps (swseq_key fl r store digest) _ _ _ _ _ _ _
                (apart fl r store theirs digest sw swseq l other)
                (apart fl r store theirs digest swmax swseq l other)
                (apart fl r store theirs digest swseq swseq l other)))
            logged in
        after_call log m d from kept (omega arith) ready.few ready.fits ready.until
          (rw other at ready.ordered) ready.counted
          (λ f. absurd (both_ways counts f (rw other refl))) bounds

    pub any_call :
        ms now.since_epoch ≤ time + skew
        → Bounds calls out.0
        → c + admitted fl r lua host max window digest a store ((now, name) ∷ calls) ≤ max
    any_call near bounds = elim (Bool-cases mine) [
      | inl is_mine ↦ our_call is_mine near bounds
      | inr other ↦ other_call other bounds
    ]
