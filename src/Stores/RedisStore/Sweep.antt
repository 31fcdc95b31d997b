-- ===== src/Stores/RedisStore/Sweep.antt =====
-- src/stores/redis.rs: `reset`, which deletes the keys of one digest, and its sweep by `SCAN`.
use armature_ratelimit.Extractor.{Host, key_digest}
use armature_ratelimit.Float.{Float}
use armature_ratelimit.Outcome.{Outcome, ok, err, panic}
use armature_ratelimit.Prelude.{
  ℕ, zero, suc, true, false, Option, none, some, List, [], ◌∷◌, ◌++◌, Text, codes, ◌==◌,
}
use armature_ratelimit.Redis.{Redis}
use armature_ratelimit.Stores.RedisScripts as Scripts
use armature_ratelimit.Stores.RedisStore as Store
use armature_ratelimit.Stores.RedisStore.{
  RedisStore, Op, return, with_op_timeout, key, tb_key, sw_key, swmax_key, swseq_key, fwmax_key,
  fwcur_key,
}

module _ (fl : Float) (r : Redis fl) where
  abbrev pub fixed_keys : RedisStore fl r → Text → List Text
  fixed_keys store digest =
      tb_key fl r store digest
      ∷ sw_key fl r store digest
      ∷ swmax_key fl r store digest
      ∷ swseq_key fl r store digest
      ∷ fwmax_key fl r store digest
      ∷ fwcur_key fl r store digest
      ∷ []

  abbrev pub pattern_of : RedisStore fl r → Text → Text
  pattern_of store digest = key fl r store (codes "fw:" ++ (digest ++ codes ":*"))

  abbrev pub unlink : List Text → Op fl r (Unit {0})
  unlink keys = with_op_timeout fl r (λ s t. r.unlink s t keys)

  abbrev pub unlink_batch : List Text → Op fl r (Unit {0})
  unlink_batch [] = return fl r (ok tt)
  unlink_batch (k ∷ keys) = unlink (k ∷ keys)

  -- One round of the loop, with the next cursor.
  unfoldable pub scan_batch : Text → ℕ → Op fl r ℕ
  unfolding key
  scan_batch pattern cursor =
      Store.◌>>=◌ fl r (with_op_timeout fl r (Scripts.read fl r (λ s t. r.scan s t cursor pattern)))
        (λ reply. Store.◌>>=◌ fl r (unlink_batch reply.1) (λ _. return fl r (ok reply.0)))

  -- What follows a round: an error ends the loop, and so does the cursor 0.
  abbrev pub continue :
      (ℕ → RedisStore fl r → Option (RedisStore fl r × Outcome (Unit {0})))
      → RedisStore fl r × Outcome ℕ
      → Option (RedisStore fl r × Outcome (Unit {0}))
  continue again (store, ok next) = elim (next == 0) [
    | true ↦ some (store, ok tt)
    | false ↦ again next store
  ]
  continue again (store, err e) = some (store, err e)
  continue again (store, panic) = some (store, panic)

  -- The loop on fuel: `none` means that it is still running.
  unfoldable pub sweep :
      ℕ → Text → ℕ → RedisStore fl r → Option (RedisStore fl r × Outcome (Unit {0}))
  unfolding scan_batch
  sweep zero pattern cursor store = none
  sweep (suc fuel) pattern cursor store =
      continue (sweep fuel pattern) (scan_batch pattern cursor store)

  abbrev pub sweep_after :
      ℕ
      → Text
      → RedisStore fl r × Outcome (Unit {0})
      → Option (RedisStore fl r × Outcome (Unit {0}))
  sweep_after fuel pattern (store, ok _) = sweep fuel pattern 0 store
  sweep_after fuel pattern (store, err e) = some (store, err e)
  sweep_after fuel pattern (store, panic) = some (store, panic)

  unfoldable pub reset :
      Host → ℕ → Text → RedisStore fl r → Option (RedisStore fl r × Outcome (Unit {0}))
  unfolding sweep
  reset host fuel name store =
      let digest = key_digest host name in
      sweep_after fuel (pattern_of store digest) (unlink (fixed_keys store digest) store)
