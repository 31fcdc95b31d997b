-- ===== src/Stores/RedisStore/Onward.antt =====
-- src/stores/redis.rs: what a step of the sweep of `reset` keeps, and what it deletes.
use armature_ratelimit.DashMap.Keys.{mem}
use armature_ratelimit.Float.{Float}
use armature_ratelimit.Outcome.{ok}
use armature_ratelimit.Prelude.{
  All, text_eq_refl, ℕ, ◌≤◌, ◌≡◌, ◌⊎◌, refl, ap, subst, ◌∙◌, Bool, true, false, Option, none,
  if◌then◌else◌, List, [], ◌∷◌, Text, arith,
}
use armature_ratelimit.Redis.{Redis, still}
use armature_ratelimit.Redis.Laws.{IsRedis}
use armature_ratelimit.Stores.RedisStore.Prompt.{
  IsPromptly, asked, with_op_timeout_prompt, asked-IsPromptly,
}
use armature_ratelimit.Stores.RedisStore.Sweep.{unlink, unlink_batch}
use armature_ratelimit.Stores.RedisStore.{RedisStore, advance}

drop_none {ℓ} : {A : Type ℓ} {o : Option A} (b : Bool) → o ≡ none → (if b then none else o) ≡ none
drop_none true e = refl
drop_none false e = e

mem-cons : (k j : Text) (ks : List Text) → mem j ks ≡ true → mem j (k ∷ ks) ≡ true
mem-cons k j ks m = ground (arith, m)

pub All-mem : {P : Text → Type 0} (ks : List Text) → ((j : Text) → mem j ks ≡ true → P j) → All P ks
All-mem [] p = tt
All-mem (k ∷ ks) p = (p k (rw (text_eq_refl k) refl), All-mem ks (λ j m. p j (mem-cons k j ks m)))

abbrev pub IsGone : (fl : Float) (r : Redis fl) → RedisStore fl r → Text → Type 0
IsGone fl r store j = r.held store.conn.server store.conn.time j ≡ none

module _ (fl : Float) (r : Redis fl) (is_redis : IsRedis fl r) where
  -- A key that is gone, or that the iteration has still to visit.
  abbrev pub Left : ℕ → RedisStore fl r → Text → Type 0
  Left cursor store j = IsGone fl r store j ⊎ (r.ahead store.conn.server cursor j ≡ true)

  gone_later :
      (s : r.Server) (t t' : ℕ) (j : Text) → t ≤ t' → r.held s t j ≡ none → r.held s t' j ≡ none
  gone_later s t t' j le e = is_redis.held-later s t t' j le ∙ ap (still t') e

  module _ (store : RedisStore fl r) (ready : IsPromptly fl r store) where
    pub gone-advance :
        (j : Text)
        → IsGone fl r store j
        → r.held (advance fl r store.conn).server (advance fl r store.conn).time j ≡ none
    gone-advance j gone = rw (ready.quiet 0 store.conn.server) (
        gone_later store.conn.server store.conn.time (advance fl r store.conn).time j (omega arith)
          gone)

    pub unlink_prompt :
        (ks : List Text) → unlink fl r ks store ≡ (asked fl r (λ s t. r.unlink s t ks) store, ok tt)
    unlink_prompt ks =
        with_op_timeout_prompt fl r (λ s t. r.unlink s t ks) store ready
        ∙ rw
            (is_redis.unlink_answers (advance fl r store.conn).server (advance fl r store.conn).time
              ks)
            refl

    IsGone-unlink :
        (ks : List Text) (j : Text)
        → IsGone fl r store j
        → IsGone fl r (asked fl r (λ s t. r.unlink s t ks) store) j
    IsGone-unlink ks j gone =
        is_redis.held-unlink (advance fl r store.conn).server (advance fl r store.conn).time ks j
        ∙ drop_none (mem j ks) (gone-advance j gone)

    pub IsGone-mem :
        (ks : List Text) (j : Text)
        → mem j ks ≡ true
        → IsGone fl r (asked fl r (λ s t. r.unlink s t ks) store) j
    IsGone-mem ks j e =
        is_redis.held-unlink (advance fl r store.conn).server (advance fl r store.conn).time ks j
        ∙ rw e refl

  -- What a step of the loop keeps: no key comes back, and the iteration loses none.
  pub record Onward (before later : RedisStore fl r) : Type 0 where
    pub ready : IsPromptly fl r later
    pub rounds : (c : ℕ) → r.rounds later.conn.server c ≤ r.rounds before.conn.server c
    pub gone : (j : Text) → IsGone fl r before j → IsGone fl r later j
    pub ahead :
        (c : ℕ) (j : Text)
        → r.ahead before.conn.server c j ≡ true
        → r.ahead later.conn.server c j ≡ true

  pub Onward-trans : (a b c : RedisStore fl r) → Onward a b → Onward b c → Onward a c
  Onward-trans a b c first second = record {
    ready = second.ready;
    rounds = λ n. omega (arith, first.rounds n, second.rounds n);
    gone = λ j g. second.gone j (first.gone j g);
    ahead = λ n j e. second.ahead n j (first.ahead n j e);
  }

  pub Onward-unlink :
      (ks : List Text) (store : RedisStore fl r)
      → IsPromptly fl r store
      → Onward store (asked fl r (λ s t. r.unlink s t ks) store)
  Onward-unlink ks store ready = record {
    ready = asked-IsPromptly fl r (λ s t. r.unlink s t ks) store ready;
    rounds = λ c.
        subst
          (λ s. r.rounds (asked fl r (λ s t. r.unlink s t ks) store).conn.server c ≤ r.rounds s c)
          (ready.quiet 0 store.conn.server)
          (is_redis.rounds-unlink (advance fl r store.conn).server (advance fl r store.conn).time c
            ks);
    gone = λ j. IsGone-unlink store ready ks j;
    ahead = λ c j e.
        is_redis.ahead-unlink (advance fl r store.conn).server (advance fl r store.conn).time c ks j
          (rw (ready.quiet 0 store.conn.server) e);
  }

  -- A batch is deleted, whatever its length.
  pub unlinked :
      (ks : List Text) (store : RedisStore fl r)
      → IsPromptly fl r store
      → (after : RedisStore fl r) × (unlink_batch fl r ks store ≡ (after, ok tt))
        × Onward store after
        × ((j : Text) → mem j ks ≡ true → IsGone fl r after j)
  unlinked [] store ready = (
    store,
    refl,
    record { ready = ready; rounds = λ c. omega arith; gone = λ j g. g; ahead = λ c j a. a },
    λ j e. cc,
  )
  unlinked (k ∷ ks) store ready = (
    asked fl r (λ s t. r.unlink s t (k ∷ ks)) store,
    unlink_prompt store ready (k ∷ ks),
    Onward-unlink (k ∷ ks) store ready,
    IsGone-mem store ready (k ∷ ks),
  )
