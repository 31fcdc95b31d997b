-- ===== src/Stores/RedisStore/Cleared.antt =====
-- src/stores/redis.rs: the sweep of `reset` ends and deletes what it is to delete.
use armature_ratelimit.DashMap.Keys.{mem}
use armature_ratelimit.Extractor.{Host, key_digest}
use armature_ratelimit.Float.{Float}
use armature_ratelimit.Outcome.{ok}
use armature_ratelimit.Prelude.{
  All, ℕ, zero, suc, ◌<◌, ◌≡◌, ◌≢◌, ◌⊎◌, refl, ap, ◌∙◌, true, false, some, List, [], ◌∷◌, Text,
  arith, ◌==◌, Bool-cases, inl, inr,
}
use armature_ratelimit.Redis.{Redis, done}
use armature_ratelimit.Redis.Laws.{IsRedis, IsLiteral}
use armature_ratelimit.Stores.RedisStore.Onward.{
  IsGone, Left, gone-advance, unlink_prompt, IsGone-mem, Onward, Onward-trans, Onward-unlink,
  unlinked, All-mem,
}
use armature_ratelimit.Stores.RedisStore.Prompt.{
  IsPromptly, asked, with_op_timeout_prompt, asked-IsPromptly,
}
use armature_ratelimit.Stores.RedisStore.Sweep.{
  unlink_batch, scan_batch, sweep, continue, sweep_after, reset, fixed_keys, pattern_of,
}
use armature_ratelimit.Stores.RedisScripts as Scripts
use armature_ratelimit.Stores.RedisStore.Names.{pattern_of-fw}
use armature_ratelimit.Stores.RedisStore as Store
use armature_ratelimit.Stores.RedisStore.{
  IsQuiet, after, return, tb_key, sw_key, swmax_key, swseq_key, fwmax_key, fwcur_key, fw_key,
  RedisStore, advance, with_op_timeout,
}

module _ (fl : Float) (r : Redis fl) (is_redis : IsRedis fl r) where
  module _ (pattern : Text) (cursor : ℕ) (store : RedisStore fl r)
      (ready : IsPromptly fl r store) where
    scanned : RedisStore fl r
    scanned = asked fl r (Scripts.read fl r (λ s t. r.scan s t cursor pattern)) store

    Onward-scanned : Onward fl r is_redis store scanned
    unfolding scanned
    Onward-scanned = record {
      ready =
          asked-IsPromptly fl r (Scripts.read fl r (λ s t. r.scan s t cursor pattern)) store ready;
      rounds = λ c. rw (ready.quiet 0 store.conn.server) (omega arith);
      gone = gone-advance fl r is_redis store ready;
      ahead = λ c j e. rw (ready.quiet 0 store.conn.server) e;
    }

    rounds_quiet :
        r.rounds (advance fl r store.conn).server cursor ≡ r.rounds store.conn.server cursor
    rounds_quiet = ap (λ s. r.rounds s cursor) (ready.quiet 0 store.conn.server)

    visited :
        (next : ℕ) (ks : List Text)
        → r.scan (advance fl r store.conn).server (advance fl r store.conn).time cursor pattern
          ≡ done (next, ks)
        → (j : Text) → r.matches pattern j ≡ true
        → Left fl r is_redis cursor store j
        → IsGone fl r scanned j
          ⊎ (mem j ks ≡ true)
          ⊎ (next ≢ 0) × (r.ahead scanned.conn.server next j ≡ true)
    unfolding scanned
    visited next ks answered j m (inl gone) = inl (gone-advance fl r is_redis store ready j gone)
    visited next ks answered j m (inr a) =
        is_redis.scan_step (advance fl r store.conn).server (advance fl r store.conn).time cursor
          pattern next ks j answered m (rw (ready.quiet 0 store.conn.server) a)

    -- One round: the next cursor, and what is left for it.
    round :
        (after : RedisStore fl r) × (next : ℕ) × (scan_batch fl r pattern cursor store
          ≡ (after, ok next))
        × Onward fl r is_redis store after
        × ((next == 0) ≡ false
            → r.rounds after.conn.server next < r.rounds store.conn.server cursor)
        × ((j : Text)
            → r.matches pattern j ≡ true
            → Left fl r is_redis cursor store j
            → IsGone fl r after j ⊎ (next ≢ 0) × (r.ahead after.conn.server next j ≡ true))
    unfolding scan_batch scanned
    round =
        let conn = advance fl r store.conn in
        let request = Scripts.read fl r (λ s t. r.scan s t cursor pattern) in
        let (reply, answered) = is_redis.scan_answers conn.server conn.time cursor pattern in
        let (after', deleted, onward, gone) =
          unlinked fl r is_redis reply.1 scanned Onward-scanned.ready in
        let heard' : with_op_timeout fl r request store ≡ (scanned, ok reply) =
          with_op_timeout_prompt fl r request store ready ∙ rw answered refl in
        (
          after',
          reply.0,
          ap
                (after fl r (λ found.
                  Store.◌>>=◌ fl r (unlink_batch fl r found.1) (λ _. return fl r (ok found.0))))
                heard'
              ∙ ap (after fl r (λ _. return fl r (ok reply.0))) deleted,
          Onward-trans fl r is_redis store scanned after' Onward-scanned onward,
          λ more. omega (
            arith,
            onward.rounds reply.0,
            is_redis.rounds-scan conn.server conn.time cursor pattern reply.0 reply.1 answered more,
            rounds_quiet,
          ),
          λ j m left. elim (visited reply.0 reply.1 answered j m left) [
            | inl none' ↦ inl (onward.gone j none')
            | inr (inl found) ↦ inl (gone j found)
            | inr (inr later) ↦ inr (later.0, onward.ahead reply.0 j later.1)
          ],
        )

  sweep_clears :
      (fuel : ℕ) (pattern : Text) (cursor : ℕ) (store : RedisStore fl r)
      → IsPromptly fl r store
      → r.rounds store.conn.server cursor < fuel
      → (after' : RedisStore fl r) × (sweep fl r fuel pattern cursor store ≡ some (after', ok tt))
        × Onward fl r is_redis store after'
        × ((j : Text)
            → r.matches pattern j ≡ true
            → Left fl r is_redis cursor store j
            → IsGone fl r after' j)
  unfolding sweep
  sweep_clears zero pattern cursor store ready h = absurd (omega arith)
  sweep_clears (suc fuel) pattern cursor store ready h =
      let (mid, next, e, onward, fewer, left) = round pattern cursor store ready in
      elim (Bool-cases (next == 0)) [
        | inl last ↦ (
          mid,
          ap (continue fl r (sweep fl r fuel pattern)) e ∙ rw (last, continue) refl,
          onward,
          λ j m l. elim (left j m l) [
            | inl gone ↦ gone
            | inr (more, _) ↦ absurd (more (ground arith))
          ],
        )
        | inr more ↦
            let (end, e', onward', gone) =
              sweep_clears fuel pattern next mid onward.ready (omega (arith, fewer more)) in
            (
              end,
              ap (continue fl r (sweep fl r fuel pattern)) e ∙ rw (more, continue) e',
              Onward-trans fl r is_redis store mid end onward onward',
              λ j m l. gone j m (elim (left j m l) [ inl g ↦ inl g | inr (_, a) ↦ inr a ]),
            )
      ]

  -- With a key prefix free of glob characters, every request answered in time, no other client in
  -- between and more fuel than the rounds that an iteration of the server's keys may take, `reset`
  -- ends with success, and then the client has no token bucket, no sliding log with its
  -- companions, no companion of a fixed window and no counter of any window.
  pub reset_clears :
      (host : Host) (store : RedisStore fl r) (fuel : ℕ) (name : Text)
      → IsLiteral store.prefix
      → IsPromptly fl r store
      → r.rounds store.conn.server 0 < fuel
      → (after' : RedisStore fl r) × (reset fl r host fuel name store ≡ some (after', ok tt))
        × All (IsGone fl r after') (
            tb_key fl r store (key_digest host name)
            ∷ sw_key fl r store (key_digest host name)
            ∷ swmax_key fl r store (key_digest host name)
            ∷ swseq_key fl r store (key_digest host name)
            ∷ fwmax_key fl r store (key_digest host name)
            ∷ fwcur_key fl r store (key_digest host name)
            ∷ [])
        × ((id : Text) → IsGone fl r after' (fw_key fl r store (key_digest host name) id))
  unfolding reset
  reset_clears host store fuel name literal ready enough =
      let digest = key_digest host name in
      let ks = fixed_keys fl r store digest in
      let pattern = pattern_of fl r store digest in
      let mid = asked fl r (λ s t. r.unlink s t ks) store in
      let onward = Onward-unlink fl r is_redis ks store ready in
      let (end, swept, onward', gone) =
        sweep_clears fuel pattern 0 mid onward.ready (omega (arith, onward.rounds 0)) in
      (
        end,
        ap (sweep_after fl r fuel pattern) (unlink_prompt fl r is_redis store ready ks) ∙ swept,
        All-mem ks (λ j m. onward'.gone j (IsGone-mem fl r is_redis store ready ks j m)),
        λ id.
            gone (fw_key fl r store digest id)
              (pattern_of-fw fl r is_redis store host name id literal)
              (inr (is_redis.scan_start mid.conn.server (fw_key fl r store digest id))),
      )
