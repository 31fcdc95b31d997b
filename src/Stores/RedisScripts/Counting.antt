-- ===== src/Stores/RedisScripts/Counting.antt =====
-- src/stores/redis.rs: the fixed window script counts the requests of its key.
use armature_ratelimit.Float.{Float, IsIeee, exact_bound}
use armature_ratelimit.Headers.{to_string}
use armature_ratelimit.Prelude.{
  ℕ, zero, suc, ◌+◌, ◌*◌, ◌≤◌, ◌<◌, ◌≡◌, ap, sym, subst, ◌∙◌, false, none, some, Text, text_eq,
  arith, Bool-cases, inl, inr,
}
use armature_ratelimit.Redis.{Redis, Lua, Answer, done, failed, string, expire, set_ex}
use armature_ratelimit.Redis.Laws.{IsRedis, IsLua, ttl_bound}
use armature_ratelimit.Stores.RedisScripts.{
  Run, after, call, given, give, incr, equals, start_window, after_incr, fixed_window_script,
}
use armature_ratelimit.Stores.RedisScripts.Counter.{
  Keeps-after, Keeps-companions, IsCounter, Counted,
}
use armature_ratelimit.Stores.RedisScripts as Scripts

module _ (fl : Float) (ieee : IsIeee fl) where
  le-one-false :
      (n : ℕ) → suc n < exact_bound → fl.le (fl.of_u64 (suc (suc n))) (fl.of_u64 1) ≡ false
  le-one-false n h = elim (Bool-cases (fl.le (fl.of_u64 (suc (suc n))) (fl.of_u64 1))) [
    | inl e ↦ absurd (
        omega (
          arith,
          ieee.to_u64_mono (fl.of_u64 (suc (suc n))) (fl.of_u64 1) e,
          ieee.to_u64-of_u64 (suc (suc n)) (omega arith),
          ieee.to_u64-of_u64 1 (omega arith),
        ))
    | inr e ↦ e
  ]

module _ (fl : Float) (r : Redis fl) (is_redis : IsRedis fl r) (lua : Lua fl)
    (is_lua : IsLua fl lua) (ieee : IsIeee fl) (counter : Text) where
  after-done :
      {A B : Type 0} (next : A → Run fl r B) (t : ℕ) (out : r.Server × Answer A) (a : A)
      → out.1 ≡ done a
      → after fl r next t out ≡ next a out.0 t
  after-done next t (s, done b) a e = cc
  after-done next t (s, failed x) a e = cc

  Counted-give :
      (over t n c : ℕ) (out : r.Server × Answer (Unit {0}))
      → IsCounter fl r is_redis counter over out.0 t n
      → c ≡ n
      → Counted fl r is_redis counter over t n (after fl r (λ _. give fl r c) t out)
  Counted-give over t n c (s, done u) h e = (h, e)
  Counted-give over t n c (s, failed x) h e = (h, tt)

  module _ (fwmax fwcur max id : Text) (m : text_eq fwmax counter ≡ false)
      (k : text_eq fwcur counter ≡ false) (ttl : ℕ) (pos : 0 < ttl) (le : ttl ≤ ttl_bound) where
    opened :
        (s : r.Server) (t : ℕ)
        → r.held s t counter ≡ some (record { value = string (to_string 1); deadline = none })
        → r.held
            (start_window fl r lua counter fwmax fwcur max id (lua.tonumber (to_string ttl)) s t).0
            t
            counter
          ≡ some (record { value = string (to_string 1); deadline = some (t + ttl * 1000) })
    unfolding start_window
    opened s t h =
        rw (is_lua.tonumber_integer ttl (omega arith), is_lua.arg_text_integer ttl (omega arith))
          (Keeps-after fl r is_redis counter
              (λ _.
                Scripts.◌>>◌ fl r (call fl r fwmax (set_ex max (to_string ttl)))
                  (call fl r fwcur (set_ex id (to_string ttl))))
              t (r.write s t counter (expire (to_string ttl)))
              (λ _. Keeps-companions fl r is_redis counter fwmax fwcur max id (to_string ttl) m k)
            ∙ is_redis.expire_lem s t counter _ ttl h pos le)

    first_request :
        (s : r.Server) (t : ℕ)
        → r.held s t counter ≡ none
        → Counted fl r is_redis counter
            (t + ttl * 1000)
            t
            1
            (fixed_window_script fl r lua counter fwmax fwcur max id (to_string ttl) s t)
    unfolding fixed_window_script after_incr
    first_request s t absent =
        let (reply, h) = is_redis.incr_new s t counter absent in
        subst (Counted fl r is_redis counter (t + ttl * 1000) t 1)
          (sym (
            after-done (after_incr fl r lua counter fwmax fwcur max id (to_string ttl)) t
              (r.incr s t counter) 1 reply))
          (rw (is_lua.of_reply_integer 1 (omega arith), ieee.of_u64_mono 1 1 (omega arith))
            (Counted-give (t + ttl * 1000) t 1 _
              (start_window fl r lua counter fwmax fwcur max id (lua.tonumber (to_string ttl))
                (r.incr s t counter).0 t)
              (t + ttl * 1000, omega arith, opened (r.incr s t counter).0 t h)
              (is_lua.to_reply_integer 1 (omega arith))))

    later_request :
        (over : ℕ) (s : r.Server) (t n : ℕ)
        → IsCounter fl r is_redis counter over s t (suc n)
        → suc n < exact_bound
        → Counted fl r is_redis counter over t
            (suc (suc n))
            (fixed_window_script fl r lua counter fwmax fwcur max id (to_string ttl) s t)
    unfolding fixed_window_script after_incr
    later_request over s t n (d, ge, h) lt =
        let (reply, h') = is_redis.incr_next s t counter (suc n) (some d) h lt in
        subst (Counted fl r is_redis counter over t (suc (suc n)))
          (sym (
            after-done (after_incr fl r lua counter fwmax fwcur max id (to_string ttl)) t
              (r.incr s t counter) (suc (suc n)) reply))
          (rw (is_lua.of_reply_integer (suc (suc n)) lt, le-one-false fl ieee n lt)
            ((d, ge, h'), is_lua.to_reply_integer (suc (suc n)) lt))

    -- On a counter of `n` requests the script leaves one of `n + 1`, and says so.
    pub counts :
        (over : ℕ) (s : r.Server) (t n : ℕ)
        → IsCounter fl r is_redis counter over s t n
        → n < exact_bound
        → over ≤ t + ttl * 1000
        → Counted fl r is_redis counter over t
            (suc n)
            (fixed_window_script fl r lua counter fwmax fwcur max id (to_string ttl) s t)
    counts over s t zero h lt ge =
        let ((d, ge', h'), says) = first_request s t h in ((d, omega arith, h'), says)
    counts over s t (suc n) h lt ge = later_request over s t n h lt

    companions_answer :
        (s : r.Server) (t : ℕ)
        → (Scripts.◌>>◌ fl r
            (call fl r fwmax (set_ex max (to_string ttl)))
            (call fl r fwcur (set_ex id (to_string ttl)))
            s
            t).1
          ≡ done tt
    companions_answer s t =
        let first = r.write s t fwmax (set_ex max (to_string ttl)) in
        ap (λ out. out.1)
          (after-done (λ _. call fl r fwcur (set_ex id (to_string ttl))) t first tt
            (is_redis.set_ex_answers s t fwmax max ttl pos le))
        ∙ is_redis.set_ex_answers first.0 t fwcur id ttl pos le

    start_window_answers :
        (s : r.Server) (t : ℕ)
        → (start_window fl r lua counter fwmax fwcur max id (lua.tonumber (to_string ttl)) s t).1
          ≡ done tt
    unfolding start_window
    start_window_answers s t =
        rw (is_lua.tonumber_integer ttl (omega arith), is_lua.arg_text_integer ttl (omega arith))
          (ap (λ out. out.1)
              (after-done
                (λ _.
                  Scripts.◌>>◌ fl r (call fl r fwmax (set_ex max (to_string ttl)))
                    (call fl r fwcur (set_ex id (to_string ttl))))
                t (r.write s t counter (expire (to_string ttl))) tt
                (is_redis.expire_answers s t counter ttl pos le))
            ∙ companions_answer (r.write s t counter (expire (to_string ttl))).0 t)

    -- The request that opens a window is told that it is the first.
    pub opening_answers :
        (s : r.Server) (t : ℕ)
        → r.held s t counter ≡ none
        → (fixed_window_script fl r lua counter fwmax fwcur max id (to_string ttl) s t).1 ≡ done 1
    unfolding fixed_window_script after_incr
    opening_answers s t absent =
        let (reply, h) = is_redis.incr_new s t counter absent in
        let opened_at = (r.incr s t counter).0 in
        ap (λ out. out.1)
          (after-done (after_incr fl r lua counter fwmax fwcur max id (to_string ttl)) t
            (r.incr s t counter) 1 reply)
        ∙ rw (is_lua.of_reply_integer 1 (omega arith), ieee.of_u64_mono 1 1 (omega arith))
            (ap (λ out. out.1)
                (after-done (λ _. give fl r (lua.to_reply (fl.of_u64 1))) t
                  (start_window fl r lua counter fwmax fwcur max id (lua.tonumber (to_string ttl))
                    opened_at t)
                  tt (start_window_answers opened_at t))
              ∙ ap (λ n. done n) (is_lua.to_reply_integer 1 (omega arith)))
