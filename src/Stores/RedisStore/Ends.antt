-- ===== src/Stores/RedisStore/Ends.antt =====
-- src/stores/redis.rs: the loop of `reset` ends, whatever becomes of its requests.
use armature_ratelimit.Extractor.{Host, key_digest}
use armature_ratelimit.Float.{Float}
use armature_ratelimit.Outcome.{Outcome, ok, err, panic}
use armature_ratelimit.Prelude.{
  ℕ, zero, suc, ◌≤◌, ◌<◌, ◌≡◌, refl, ap, sym, subst, ◌∙◌, false, Option, some, List, [], ◌∷◌, Text,
  arith, ◌==◌, Bool-cases, inl, inr,
}
use armature_ratelimit.Redis.{Redis, done}
use armature_ratelimit.Redis.Laws.{IsRedis}
use armature_ratelimit.Stores.RedisScripts as Scripts
use armature_ratelimit.Stores.RedisStore as Store
use armature_ratelimit.Stores.RedisStore.Prompt.{asked, answer_of}
use armature_ratelimit.Stores.RedisStore.Served.{heard-eq-ok}
use armature_ratelimit.Stores.RedisStore.Sweep.{
  unlink, unlink_batch, scan_batch, continue, sweep, sweep_after, reset, fixed_keys, pattern_of,
}
use armature_ratelimit.Stores.RedisStore.{
  IsQuiet, Op, RedisStore, advance, after, return, executed, served, with_op_timeout,
}

ok_inj : {a b : ℕ} → ok a ≡ ok b → a ≡ b
ok_inj e = cc

module _ (fl : Float) (r : Redis fl) where
  -- A request that succeeds was executed, and its value is the server's.
  pub with_op_timeout-eq-ok :
      {A : Type 0} (request : Scripts.Run fl r A) (store : RedisStore fl r) (a : A)
      → (with_op_timeout fl r request store).1 ≡ ok a
      → ((with_op_timeout fl r request store).0 ≡ asked fl r request store)
        × (answer_of fl r request store ≡ done a)
  unfolding with_op_timeout
  with_op_timeout-eq-ok request store a e =
      let (ran, answered) =
        heard-eq-ok store.operation_timeout (store.conn.turns 0).fate (answer_of fl r request store)
          a e in
      (rw ran refl, answered)

  after-eq-ok :
      {A B : Type 0} (next : A → Op fl r B) (out : RedisStore fl r × Outcome A) (b : B)
      → (after fl r next out).1 ≡ ok b
      → (a : A) × (out.1 ≡ ok a) × (after fl r next out ≡ next a out.0)
  after-eq-ok next (store, ok a) b e = (a, refl, refl)
  after-eq-ok next (store, err x) b e = cc
  after-eq-ok next (store, panic) b e = cc

  -- The loop goes on only after a round that succeeds.
  continued :
      (again : ℕ → RedisStore fl r → Option (RedisStore fl r × Outcome (Unit {0})))
      → (out : RedisStore fl r × Outcome ℕ)
      → ((next : ℕ)
          → out.1 ≡ ok next
          → (next == 0) ≡ false
          → (end : RedisStore fl r × Outcome (Unit {0})) × (again next out.0 ≡ some end))
      → (end : RedisStore fl r × Outcome (Unit {0})) × (continue fl r again out ≡ some end)
  continued again (store, ok next) more = elim (Bool-cases (next == 0)) [
    | inl e ↦ ((store, ok tt), rw (e, continue) refl)
    | inr e ↦ let (end, f) = more next refl e in (end, rw (e, continue) f)
  ]
  continued again (store, err x) more = ((store, err x), refl)
  continued again (store, panic) more = ((store, panic), refl)

  swept :
      (fuel : ℕ) (pattern : Text) (out : RedisStore fl r × Outcome (Unit {0}))
      → (out.1 ≡ ok tt
          → (end : RedisStore fl r × Outcome (Unit {0})) × (sweep fl r fuel pattern 0 out.0
              ≡ some end))
      → (end : RedisStore fl r × Outcome (Unit {0})) × (sweep_after fl r fuel pattern out
          ≡ some end)
  swept fuel pattern (store, ok _) more = more refl
  swept fuel pattern (store, err x) more = ((store, err x), refl)
  swept fuel pattern (store, panic) more = ((store, panic), refl)

  module _ (is_redis : IsRedis fl r) where
    unlink_batch-ok :
        (ks : List Text) (store : RedisStore fl r) (c : ℕ)
        → IsQuiet fl r store.conn.turns
        → (unlink_batch fl r ks store).1 ≡ ok tt
        → IsQuiet fl r (unlink_batch fl r ks store).0.conn.turns
          × (r.rounds (unlink_batch fl r ks store).0.conn.server c ≤ r.rounds store.conn.server c)
    unlink_batch-ok [] store c quiet e = (quiet, omega arith)
    unlink_batch-ok (k ∷ ks) store c quiet e =
        let request : Scripts.Run fl r (Unit {0}) = λ s t. r.unlink s t (k ∷ ks) in
        let conn = advance fl r store.conn in
        let (same, answered) = with_op_timeout-eq-ok request store tt e in
        (
          subst (λ (st : RedisStore fl r). IsQuiet fl r st.conn.turns) (sym same)
              (λ n s. quiet (suc n) s),
          omega (
            arith,
            is_redis.rounds-unlink conn.server conn.time c (k ∷ ks),
            ap (λ (st : RedisStore fl r). r.rounds st.conn.server c) same,
            ap (λ s. r.rounds s c) (quiet 0 store.conn.server),
          ),
        )

    -- A round that succeeds and goes on leaves fewer rounds.
    scan_batch-ok :
        (pattern : Text) (cursor : ℕ) (store : RedisStore fl r) (next : ℕ)
        → IsQuiet fl r store.conn.turns
        → (scan_batch fl r pattern cursor store).1 ≡ ok next
        → (next == 0) ≡ false
        → IsQuiet fl r (scan_batch fl r pattern cursor store).0.conn.turns
          × (r.rounds (scan_batch fl r pattern cursor store).0.conn.server next
              < r.rounds store.conn.server cursor)
    unfolding scan_batch
    scan_batch-ok pattern cursor store next quiet e more =
        let request : Scripts.Run fl r (ℕ × List Text) =
          Scripts.read fl r (λ s t. r.scan s t cursor pattern) in
        let finish : ℕ × List Text → Op fl r ℕ =
          λ found. Store.◌>>=◌ fl r (unlink_batch fl r found.1) (λ _. return fl r (ok found.0)) in
        let conn = advance fl r store.conn in
        let mid = asked fl r request store in
        let (found, first, eq) = after-eq-ok finish (with_op_timeout fl r request store) next e in
        let (same, answered) = with_op_timeout-eq-ok request store found first in
        let onward = eq ∙ ap (finish found) same in
        let (_, second, eq') =
          after-eq-ok (λ _. return fl r (ok found.0)) (unlink_batch fl r found.1 mid) next
            (sym (ap (λ out. out.1) onward) ∙ e) in
        let same_next : found.0 ≡ next = ok_inj (sym (ap (λ out. out.1) (onward ∙ eq')) ∙ e) in
        let end : (scan_batch fl r pattern cursor store).0 ≡ (unlink_batch fl r found.1 mid).0 =
          ap (λ out. out.0) (onward ∙ eq') in
        let (quiet', fewer) = unlink_batch-ok found.1 mid next (λ n s. quiet (suc n) s) second in
        (
          subst (λ (st : RedisStore fl r). IsQuiet fl r st.conn.turns) (sym end) quiet',
          omega (
            arith,
            fewer,
            ap (λ (st : RedisStore fl r). r.rounds st.conn.server next) end,
            ap (λ s. r.rounds s cursor) (quiet 0 store.conn.server),
            is_redis.rounds-scan conn.server conn.time cursor pattern next found.1
                (answered ∙ ap (λ (n : ℕ). done (n, found.1)) same_next) more,
          ),
        )

    sweep_ends :
        (fuel : ℕ) (pattern : Text) (cursor : ℕ) (store : RedisStore fl r)
        → IsQuiet fl r store.conn.turns
        → r.rounds store.conn.server cursor < fuel
        → (end : RedisStore fl r × Outcome (Unit {0})) × (sweep fl r fuel pattern cursor store
            ≡ some end)
    unfolding sweep
    sweep_ends zero pattern cursor store quiet h = absurd (omega arith)
    sweep_ends (suc fuel) pattern cursor store quiet h =
        continued (sweep fl r fuel pattern) (scan_batch fl r pattern cursor store) (λ next e more.
          let (quiet', fewer) = scan_batch-ok pattern cursor store next quiet e more in
          sweep_ends fuel pattern next (scan_batch fl r pattern cursor store).0 quiet'
            (omega (arith, fewer)))

    -- Whatever becomes of its requests, and with no other client in between, `reset` ends within
    -- the rounds that an iteration of the server's keys may take.
    pub reset_ends :
        (host : Host) (store : RedisStore fl r) (fuel : ℕ) (name : Text)
        → IsQuiet fl r store.conn.turns
        → r.rounds store.conn.server 0 < fuel
        → (end : RedisStore fl r × Outcome (Unit {0})) × (reset fl r host fuel name store
            ≡ some end)
    unfolding reset
    reset_ends host store fuel name quiet h =
        let ks = fixed_keys fl r store (key_digest host name) in
        swept fuel (pattern_of fl r store (key_digest host name)) (unlink fl r ks store) (λ e.
          let (quiet', fewer) = unlink_batch-ok ks store 0 quiet e in
          sweep_ends fuel (pattern_of fl r store (key_digest host name)) 0 (unlink fl r ks store).0
            quiet' (omega (arith, fewer)))
