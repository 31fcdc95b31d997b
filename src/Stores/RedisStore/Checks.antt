-- ===== src/Stores/RedisStore/Checks.antt =====
-- src/stores/redis.rs: what one `fixed_window_check` does to the counter of a window.
use armature_ratelimit.Extractor.{Host, key_digest}
use armature_ratelimit.Float.{Float, IsIeee, exact_bound}
use armature_ratelimit.Headers.{to_string}
use armature_ratelimit.Outcome.{Outcome, ok, err, panic, is_admitted}
use armature_ratelimit.Prelude.{
  ℕ, suc, ◌+◌, ◌*◌, ◌^◌, ◌≤◌, ◌<◌, ◌≡◌, refl, ap, sym, subst, ◌∙◌, Bool, true, false, ◌&&◌, Text,
  text_eq, text_eq_iff, text_eq_refl, arith, Bool-cases, inl, inr,
}
use armature_ratelimit.Redis.{Redis, Lua}
use armature_ratelimit.Redis.Laws.{IsRedis, IsLua, ttl_bound}
use armature_ratelimit.Stores.RedisScripts as Scripts
use armature_ratelimit.Stores.RedisScripts.Counter.{
  IsCounter, IsCounter-later, Keeps-fixed_window_script, Counted,
}
use armature_ratelimit.Stores.RedisScripts.Counting.{counts}
use armature_ratelimit.Stores.RedisStore.Names.{fwmax-fw, fwcur-fw}
use armature_ratelimit.Stores.RedisStore.Served.{
  both_ways, Stepped, counting, not_counting, Stepped-counting, Stepped-other,
}
use armature_ratelimit.Stores.RedisStore.{
  IsQuiet, RedisStore, advance, after, with_op_timeout, read_count, fixed_window_check, i64_text,
  fwmax_key, fwcur_key, key, window_id_at, ttl_secs, fw_key,
}
use armature_ratelimit.Stores.RedisStore.Histories.{in_window, admitted_in, in_window_lem}
use armature_ratelimit.Stores.{Clock}

pub and_true : (a b : Bool) → (a && b) ≡ true → (a ≡ true) × (b ≡ true)
and_true true b e = (refl, e)
and_true false b e = cc

pub small_text : (n : ℕ) → n < 2 ^ 63 → i64_text n ≡ to_string n
small_text n h = ground arith

module _ (fl : Float) (r : Redis fl) where
  after-read_count :
      (max_requests : ℕ) (out : RedisStore fl r × Outcome ℕ)
      → (after fl r (read_count fl r max_requests) out).0 ≡ out.0
  after-read_count max_requests (store, ok count) = refl
  after-read_count max_requests (store, err e) = refl
  after-read_count max_requests (store, panic) = refl

  -- A request is admitted on a count within the limit.
  admitted_count :
      (max_requests : ℕ) (out : RedisStore fl r × Outcome ℕ)
      → is_admitted (after fl r (read_count fl r max_requests) out).1 ≡ true
      → (count : ℕ) × (out.1 ≡ ok count) × (count ≤ max_requests)
  admitted_count max_requests (store, ok count) h = (count, refl, ground arith)
  admitted_count max_requests (store, err e) h = cc
  admitted_count max_requests (store, panic) h = cc

module _ (fl : Float) (r : Redis fl) (lua : Lua fl) (host : Host) (is_redis : IsRedis fl r)
    (is_lua : IsLua fl lua) (ieee : IsIeee fl) (max_requests window : ℕ)
    (short : ttl_secs window ≤ ttl_bound) (digest : Text) (id over : ℕ) where
  abbrev pub request_of : RedisStore fl r → Clock → Text → Scripts.Run fl r ℕ
  request_of store now name =
      let window_id = to_string (window_id_at now window) in
      Scripts.fixed_window_script fl r lua (fw_key fl r store (key_digest host name) window_id)
        (fwmax_key fl r store (key_digest host name)) (fwcur_key fl r store (key_digest host name))
        (to_string max_requests) window_id (to_string (ttl_secs window))

  unfoldable pub counter_of : RedisStore fl r → Text
  counter_of store = fw_key fl r store digest (to_string id)

  pub check_lem :
      (store : RedisStore fl r) (now : Clock) (name : Text)
      → fixed_window_check fl r lua host now name max_requests window store
        ≡ after fl r
            (read_count fl r max_requests)
            (with_op_timeout fl r (request_of store now name) store)
  unfolding fixed_window_check
  check_lem store now name = rw (small_text (ttl_secs window) (omega arith)) refl

  same_key :
      (store : RedisStore fl r) (now : Clock) (name : Text)
      → in_window host window digest id (now, name) ≡ true
      → text_eq
          (fw_key fl r store (key_digest host name) (to_string (window_id_at now window)))
          (counter_of store)
        ≡ true
  unfolding counter_of
  same_key store now name e =
      let (d, i) = in_window_lem host window digest id (now, name) e in
      rw (d, i) (text_eq_refl (fw_key fl r store digest (to_string id)))

  pub request_step :
      (store : RedisStore fl r) (now : Clock) (name : Text) (m : ℕ)
      → IsCounter fl r is_redis
          (counter_of store)
          over
          (advance fl r store.conn).server
          (advance fl r store.conn).time
          m
      → m < exact_bound
      → over ≤ (advance fl r store.conn).time + ttl_secs window * 1000
      → Stepped fl r is_redis over m
          (counter_of store)
          (in_window host window digest id (now, name))
          (with_op_timeout fl r (request_of store now name) store)
  unfolding counter_of
  request_step store now name m h lt ge =
      let id' = to_string (window_id_at now window) in
      let key = fw_key fl r store (key_digest host name) id' in
      let fwmax = fwmax_key fl r store (key_digest host name) in
      let fwcur = fwcur_key fl r store (key_digest host name) in
      let conn = advance fl r store.conn in
      let counter = counter_of store in
      let no_max = fwmax-fw fl r store (key_digest host name) digest (to_string id) in
      let no_cur = fwcur-fw fl r store (key_digest host name) digest (to_string id) in
      elim (Bool-cases (text_eq key counter)) [
        | inl same ↦
            counting fl r is_redis over m counter (in_window host window digest id (now, name))
              (with_op_timeout fl r (request_of store now name) store)
              (Stepped-counting fl r is_redis over m counter (request_of store now name) store h (
                subst
                  (λ k. Counted fl r is_redis counter over conn.time (suc m) (
                    Scripts.fixed_window_script fl r lua k fwmax fwcur (to_string max_requests) id'
                      (to_string (ttl_secs window)) conn.server conn.time))
                  (sym ((text_eq_iff key counter).0 same))
                  (counts fl r is_redis lua is_lua ieee counter fwmax fwcur (to_string max_requests)
                    id' no_max no_cur (ttl_secs window) (omega arith) short over conn.server
                    conn.time m h lt ge)))
        | inr other ↦
            not_counting fl r is_redis over m counter (in_window host window digest id (now, name))
              (with_op_timeout fl r (request_of store now name) store)
              (λ e. both_ways (text_eq key counter) (same_key store now name e) other)
              (Stepped-other fl r is_redis over m counter (request_of store now name) store h (
                Keeps-fixed_window_script fl r is_redis counter lua key fwmax fwcur
                  (to_string max_requests) id' (to_string (ttl_secs window)) other no_max no_cur))
      ]

  module _ (now : Clock) (name : Text) (store : RedisStore fl r) where
    unfoldable pub after_check : RedisStore fl r
    after_check = (fixed_window_check fl r lua host now name max_requests window store).0

    after_check_lem : after_check ≡ (with_op_timeout fl r (request_of store now name) store).0
    unfolding after_check
    after_check_lem =
        ap (λ out. out.0) (check_lem store now name)
        ∙ after-read_count fl r max_requests
            (with_op_timeout fl r (request_of store now name) store)

    counter_of-check : counter_of after_check ≡ counter_of store
    unfolding counter_of key with_op_timeout
    counter_of-check = ap (λ s. counter_of s) after_check_lem

    pub turns-check : after_check.conn.turns ≡ (λ n. store.conn.turns (suc n))
    unfolding with_op_timeout
    turns-check = ap (λ s. s.conn.turns) after_check_lem

    pub time-check : after_check.conn.time ≡ store.conn.time + (store.conn.turns 0).delay
    unfolding with_op_timeout
    time-check = ap (λ s. s.conn.time) after_check_lem

    -- A request that is admitted in the window is counted, within the limit.
    pub admitted-check :
        (m : ℕ)
        → (stepped : Stepped fl r is_redis over m
            (counter_of store)
            (in_window host window digest id (now, name))
            (with_op_timeout fl r (request_of store now name) store))
        → admitted_in host window digest id
            ((now, name), (fixed_window_check fl r lua host now name max_requests window store).1)
          ≡ true
        → (stepped.0 ≡ suc m) × (stepped.0 ≤ max_requests)
    admitted-check m (m', h, le, le', says) e =
        let (inside, admitted) = and_true (in_window host window digest id (now, name)) _ e in
        let (count, got, small) =
          admitted_count fl r max_requests (with_op_timeout fl r (request_of store now name) store)
            (sym (ap (λ out. is_admitted out.1) (check_lem store now name)) ∙ admitted) in
        let (one_more, same) = says count got inside in (one_more, omega arith)

    pub IsCounter-check :
        (m : ℕ)
        → IsCounter fl r is_redis
            (counter_of store)
            over
            (with_op_timeout fl r (request_of store now name) store).0.conn.server
            (with_op_timeout fl r (request_of store now name) store).0.conn.time
            m
        → IsCounter fl r is_redis
            (counter_of after_check)
            over
            after_check.conn.server
            after_check.conn.time
            m
    unfolding counter_of key with_op_timeout
    IsCounter-check m h =
        subst
          (λ (s : RedisStore fl r).
            IsCounter fl r is_redis (counter_of s) over s.conn.server s.conn.time m)
          (sym after_check_lem) h

    -- The counter when the request arrives.
    pub IsCounter-advance :
        (m : ℕ)
        → IsCounter fl r is_redis (counter_of store) over store.conn.server store.conn.time m
        → IsQuiet fl r store.conn.turns
        → (advance fl r store.conn).time < over
        → IsCounter fl r is_redis
            (counter_of store)
            over
            (advance fl r store.conn).server
            (advance fl r store.conn).time
            m
    IsCounter-advance m h quiet lt =
        subst
          (λ s. IsCounter fl r is_redis (counter_of store) over s (advance fl r store.conn).time m)
          (sym (quiet 0 store.conn.server))
          (IsCounter-later fl r is_redis (counter_of store) over store.conn.server store.conn.time
            (advance fl r store.conn).time m (omega arith) lt h)
