-- ===== src/Stores/RedisStore/Kept.antt =====
-- src/stores/redis.rs: what `reset` does not delete stays, whatever becomes of its requests.
use armature_ratelimit.DashMap.Keys.{mem}
use armature_ratelimit.Float.{Float}
use armature_ratelimit.Outcome.{Outcome, ok, err, panic}
use armature_ratelimit.Prelude.{
  ℕ, zero, suc, ◌≤◌, ◌≡◌, refl, true, false, Option, some, List, [], ◌∷◌, Text, arith, ap, sym,
  subst, ◌∙◌, Bool-cases, inl, inr, ◌==◌,
}
use armature_ratelimit.Redis.{Redis, done, still}
use armature_ratelimit.Redis.Laws.{IsRedis}
use armature_ratelimit.Redis.Expiry.{still-still}
use armature_ratelimit.Stores.RedisStore.Ends.{with_op_timeout-eq-ok}
use armature_ratelimit.Stores.RedisScripts as Scripts
use armature_ratelimit.Stores.RedisStore as Store
use armature_ratelimit.Stores.RedisStore.Served.{both_ways}
use armature_ratelimit.Stores.RedisStore.Sweep.{
  unlink, unlink_batch, scan_batch, continue, sweep, sweep_after,
}
use armature_ratelimit.Stores.RedisStore.{
  IsQuiet, Op, RedisStore, advance, after, return, executed, served, key, with_op_timeout,
}

some_inj {ℓ} : {A : Type ℓ} {a b : A} → some a ≡ some b → a ≡ b
some_inj e = cc

module _ (fl : Float) (r : Redis fl) (is_redis : IsRedis fl r) (j : Text) where
  -- Between two states of the store a key changes by expiring only.
  abbrev pub Kept : RedisStore fl r → RedisStore fl r → Type 0
  Kept store end =
      (store.conn.time ≤ end.conn.time)
      × (r.held end.conn.server end.conn.time j
          ≡ still end.conn.time (r.held store.conn.server store.conn.time j))
      × IsQuiet fl r end.conn.turns

  -- A request that keeps the key, whatever becomes of it.
  Kept-request :
      {A : Type 0} (request : Scripts.Run fl r A) (store : RedisStore fl r)
      → ((s : r.Server) (t : ℕ) → r.held (request s t).0 t j ≡ r.held s t j)
      → IsQuiet fl r store.conn.turns
      → Kept store (with_op_timeout fl r request store).0
  unfolding with_op_timeout
  Kept-request request store keep quiet =
      let conn = advance fl r store.conn in
      let later =
        ap (λ s. r.held s conn.time j) (quiet 0 store.conn.server)
        ∙ is_redis.held-later store.conn.server store.conn.time conn.time j (omega arith) in
      (
        omega arith,
        elim (Bool-cases (executed (store.conn.turns 0).fate)) [
          | inl ran ↦ rw ran (keep conn.server conn.time ∙ later)
          | inr not_run ↦ rw not_run later
        ],
        λ n s. quiet (suc n) s,
      )

  Kept-refl : (store : RedisStore fl r) → IsQuiet fl r store.conn.turns → Kept store store
  Kept-refl store quiet = (
    omega arith,
    is_redis.held-later store.conn.server store.conn.time store.conn.time j (omega arith),
    quiet,
  )

  Kept-trans : (a b c : RedisStore fl r) → Kept a b → Kept b c → Kept a c
  Kept-trans a b c (le, e, q) (le', e', q') = (
    omega arith,
    e'
        ∙ ap (still c.conn.time) e
        ∙ sym (still-still (r.held a.conn.server a.conn.time j) b.conn.time c.conn.time le'),
    q',
  )

  Kept-after :
      {A B : Type 0} (store : RedisStore fl r) (next : A → Op fl r B)
      (out : RedisStore fl r × Outcome A)
      → Kept store out.0
      → ((a : A) → out.1 ≡ ok a → Kept out.0 (next a out.0).0)
      → Kept store (after fl r next out).0
  Kept-after store next (mid, ok a) kept more =
      Kept-trans store mid (next a mid).0 kept (more a refl)
  Kept-after store next (mid, err x) kept more = kept
  Kept-after store next (mid, panic) kept more = kept

  pub Kept-unlink :
      (ks : List Text) (store : RedisStore fl r)
      → mem j ks ≡ false
      → IsQuiet fl r store.conn.turns
      → Kept store (unlink fl r ks store).0
  Kept-unlink ks store other quiet =
      Kept-request (λ s t. r.unlink s t ks) store
        (λ s t. is_redis.held-unlink s t ks j ∙ rw other refl) quiet

  Kept-unlink_batch :
      (ks : List Text) (store : RedisStore fl r)
      → mem j ks ≡ false
      → IsQuiet fl r store.conn.turns
      → Kept store (unlink_batch fl r ks store).0
  Kept-unlink_batch [] store other quiet = Kept-refl store quiet
  Kept-unlink_batch (k ∷ ks) store other quiet = Kept-unlink (k ∷ ks) store other quiet

  module _ (pattern : Text) (unmatched : r.matches pattern j ≡ false) where
    not_scanned :
        (s : r.Server) (t cursor next : ℕ) (ks : List Text)
        → r.scan s t cursor pattern ≡ done (next, ks)
        → mem j ks ≡ false
    not_scanned s t cursor next ks e = elim (Bool-cases (mem j ks)) [
      | inl m ↦ absurd (
          both_ways (r.matches pattern j) (is_redis.scan_matches s t cursor pattern next ks j e m)
            unmatched)
      | inr m ↦ m
    ]

    Kept-scan_batch :
        (cursor : ℕ) (store : RedisStore fl r)
        → IsQuiet fl r store.conn.turns
        → Kept store (scan_batch fl r pattern cursor store).0
    unfolding scan_batch
    Kept-scan_batch cursor store quiet =
        let request : Scripts.Run fl r (ℕ × List Text) =
          Scripts.read fl r (λ s t. r.scan s t cursor pattern) in
        let conn = advance fl r store.conn in
        let out = with_op_timeout fl r request store in
        let first = Kept-request request store (λ s t. refl) quiet in
        Kept-after store
          (λ found. Store.◌>>=◌ fl r (unlink_batch fl r found.1) (λ _. return fl r (ok found.0)))
          out first
          (λ found e.
            let listed =
              not_scanned conn.server conn.time cursor found.0 found.1
                (with_op_timeout-eq-ok fl r request store found e).1 in
            let second = Kept-unlink_batch found.1 out.0 listed first.2 in
            Kept-after out.0 (λ _. return fl r (ok found.0)) (unlink_batch fl r found.1 out.0)
              second (λ u e'. Kept-refl (unlink_batch fl r found.1 out.0).0 second.2))

    continue_last :
        (again : ℕ → RedisStore fl r → Option (RedisStore fl r × Outcome (Unit {0})))
        (mid : RedisStore fl r) (next : ℕ)
        → (next == 0) ≡ true
        → continue fl r again (mid, ok next) ≡ some (mid, ok tt)
    continue_last again mid next e = rw (e, continue) refl

    continue_on :
        (again : ℕ → RedisStore fl r → Option (RedisStore fl r × Outcome (Unit {0})))
        (mid : RedisStore fl r) (next : ℕ)
        → (next == 0) ≡ false
        → continue fl r again (mid, ok next) ≡ again next mid
    continue_on again mid next e = rw (e, continue) refl

    Kept-continue :
        (again : ℕ → RedisStore fl r → Option (RedisStore fl r × Outcome (Unit {0})))
        (store : RedisStore fl r) (out : RedisStore fl r × Outcome ℕ)
        (end : RedisStore fl r × Outcome (Unit {0}))
        → Kept store out.0
        → ((next : ℕ) → again next out.0 ≡ some end → Kept out.0 end.0)
        → continue fl r again out ≡ some end
        → Kept store end.0
    Kept-continue again store (mid, ok next) end kept more e = elim (Bool-cases (next == 0)) [
      | inl last ↦
          subst (λ o. Kept store o.0) (some_inj (sym (continue_last again mid next last) ∙ e)) kept
      | inr onward ↦
          Kept-trans store mid end.0 kept (more next (sym (continue_on again mid next onward) ∙ e))
    ]
    Kept-continue again store (mid, err x) end kept more e =
        subst (λ o. Kept store o.0) (some_inj e) kept
    Kept-continue again store (mid, panic) end kept more e =
        subst (λ o. Kept store o.0) (some_inj e) kept

    Kept-sweep :
        (fuel cursor : ℕ) (store : RedisStore fl r) (end : RedisStore fl r × Outcome (Unit {0}))
        → IsQuiet fl r store.conn.turns
        → sweep fl r fuel pattern cursor store ≡ some end
        → Kept store end.0
    unfolding sweep
    Kept-sweep zero cursor store end quiet e = cc
    Kept-sweep (suc fuel) cursor store end quiet e =
        let kept = Kept-scan_batch cursor store quiet in
        Kept-continue (sweep fl r fuel pattern) store (scan_batch fl r pattern cursor store) end
          kept
          (λ next e'. Kept-sweep fuel next (scan_batch fl r pattern cursor store).0 end kept.2 e') e

    pub Kept-sweep_after :
        (fuel : ℕ) (store : RedisStore fl r) (out end : RedisStore fl r × Outcome (Unit {0}))
        → Kept store out.0
        → sweep_after fl r fuel pattern out ≡ some end
        → Kept store end.0
    Kept-sweep_after fuel store (mid, ok u) end kept e =
        Kept-trans store mid end.0 kept (Kept-sweep fuel 0 mid end kept.2 e)
    Kept-sweep_after fuel store (mid, err x) end kept e =
        subst (λ o. Kept store o.0) (some_inj e) kept
    Kept-sweep_after fuel store (mid, panic) end kept e =
        subst (λ o. Kept store o.0) (some_inj e) kept
