-- ===== src/Stores/RedisStore/Served.antt =====
-- src/stores/redis.rs: what one request of a connection does to a counter, whatever its fate.
use armature_ratelimit.Float.{Float}
use armature_ratelimit.Outcome.{Outcome, ok}
use armature_ratelimit.Prelude.{
  ℕ, suc, ◌≤◌, ◌≡◌, refl, sym, subst, Bool, true, false, Text, arith, Bool-cases, inl, inr,
}
use armature_ratelimit.Redis.{Redis, Answer, done, failed}
use armature_ratelimit.Redis.Laws.{IsRedis}
use armature_ratelimit.Stores.RedisScripts as Scripts
use armature_ratelimit.Stores.RedisScripts.Counter.{IsCounter, IsCounter-held, Keeps, Says, Counted}
use armature_ratelimit.Stores.RedisStore.{
  Fate, replied, broken, silent, executed, served, heard, RedisStore, advance, with_op_timeout,
}

-- An outcome that is heard as a success is the server's.
pub heard-eq-ok :
    {A : Type 0} (limit : ℕ) (fate : Fate) (answer : Answer A) (a : A)
    → heard limit fate answer ≡ ok a
    → (executed fate ≡ true) × (answer ≡ done a)
heard-eq-ok limit (replied latency) (done b) a h = (refl, ground arith)
heard-eq-ok limit (replied latency) (failed e) a h = absurd (ground arith)
heard-eq-ok limit (broken e latency ran) answer a h = absurd (ground arith)
heard-eq-ok limit (silent ran) answer a h = absurd (ground arith)

served_ran :
    {S : Type 0} (fate : Fate) (new old : S) → executed fate ≡ true → served fate new old ≡ new
served_ran fate new old e = rw e

served_not_run :
    {S : Type 0} (fate : Fate) (new old : S) → executed fate ≡ false → served fate new old ≡ old
served_not_run fate new old e = rw e

pub both_ways : (b : Bool) → b ≡ true → b ≡ false → ⊥
both_ways b yes' no' = cc

module _ (fl : Float) (r : Redis fl) (is_redis : IsRedis fl r) (over m : ℕ) (counter : Text) where
  -- What a request does to a counter of `m` requests: `m'` afterwards, one more if it counts.
  abbrev pub Stepped : Bool → RedisStore fl r × Outcome ℕ → Type 0
  Stepped counting out =
      (m' : ℕ) × (IsCounter fl r is_redis counter over out.0.conn.server out.0.conn.time m')
      × (m ≤ m')
      × (m' ≤ suc m)
      × ((c : ℕ) → out.1 ≡ ok c → counting ≡ true → (m' ≡ suc m) × (c ≡ m'))

  pub counting : (b : Bool) (out : RedisStore fl r × Outcome ℕ) → Stepped true out → Stepped b out
  counting b out (m', h, le, le', says) = (m', h, le, le', λ c e f. says c e refl)

  pub not_counting :
      (b : Bool) (out : RedisStore fl r × Outcome ℕ)
      → (b ≡ true → ⊥)
      → Stepped false out
      → Stepped b out
  not_counting b out no_b (m', h, le, le', says) = (m', h, le, le', λ c e f. absurd (no_b f))

  said :
      (c : ℕ) (answer : Answer ℕ)
      → Says fl r is_redis counter (suc m) answer
      → answer ≡ done c
      → c ≡ suc m
  said c (done b) says e = ground (arith, says)
  said c (failed x) says e = cc

  module _ (request : Scripts.Run fl r ℕ) (store : RedisStore fl r)
      (h : IsCounter fl r is_redis counter over
        (advance fl r store.conn).server
        (advance fl r store.conn).time
        m) where
    pub Stepped-counting :
        Counted fl r is_redis counter over
          (advance fl r store.conn).time
          (suc m)
          (request (advance fl r store.conn).server (advance fl r store.conn).time)
        → Stepped true (with_op_timeout fl r request store)
    unfolding with_op_timeout
    Stepped-counting (counted, says) =
        let conn = advance fl r store.conn in
        let fate = (store.conn.turns 0).fate in
        let new = request conn.server conn.time in
        elim (Bool-cases (executed (store.conn.turns 0).fate)) [
          | inl ran ↦ (
            suc m,
            subst (λ s. IsCounter fl r is_redis counter over s conn.time (suc m))
                (sym (served_ran fate new.0 conn.server ran)) counted,
            omega arith,
            omega arith,
            λ c e _.
                (refl, said c new.1 says (heard-eq-ok store.operation_timeout fate new.1 c e).1),
          )
          | inr not_run ↦ (
            m,
            subst (λ s. IsCounter fl r is_redis counter over s conn.time m)
                (sym (served_not_run fate new.0 conn.server not_run)) h,
            omega arith,
            omega arith,
            λ c e _. absurd (
                both_ways (executed fate) (heard-eq-ok store.operation_timeout fate new.1 c e).0
                  not_run),
          )
        ]

    pub Stepped-other :
        Keeps fl r is_redis counter request → Stepped false (with_op_timeout fl r request store)
    unfolding with_op_timeout
    Stepped-other keep =
        let conn = advance fl r store.conn in
        let fate = (store.conn.turns 0).fate in
        let new = request conn.server conn.time in
        elim (Bool-cases (executed (store.conn.turns 0).fate)) [
          | inl ran ↦ (
            m,
            subst (λ s. IsCounter fl r is_redis counter over s conn.time m)
                (sym (served_ran fate new.0 conn.server ran))
                (IsCounter-held fl r is_redis counter over conn.server _ conn.time _ m
                  (keep conn.server conn.time) h),
            omega arith,
            omega arith,
            λ c e f. cc,
          )
          | inr not_run ↦ (
            m,
            subst (λ s. IsCounter fl r is_redis counter over s conn.time m)
                (sym (served_not_run fate new.0 conn.server not_run)) h,
            omega arith,
            omega arith,
            λ c e f. cc,
          )
        ]
