-- ===== src/Algorithms/TokenBucket/Bounds.antt =====
-- src/algorithms/token_bucket.rs: the invariant of the limiter, and what `reset` does to the map.
use armature_ratelimit.Algorithms.Eviction.{len-insert-make_room, get-make_room}
use armature_ratelimit.Algorithms.TokenBucket.{
  BucketState, TokenBucket, last_active, full, refill, consume, step, new, try_acquire, reset,
  remaining,
}
use armature_ratelimit.Algorithms.{make_room}
use armature_ratelimit.DashMap.{DashMap}
use armature_ratelimit.Float.{Float, IsIeee, exact_bound}
use armature_ratelimit.Outcome.{ok}
use armature_ratelimit.Prelude.{
  ◌-◌, ℕ, suc, ◌≤◌, ◌<◌, ◌≡◌, inl, inr, Option, none, some, arith, Text, unwrap_or, Option-cases,
  true,
}

module _ (dash : DashMap) (fl : Float) where
  -- The map keeps to the cap, and no bucket holds more than the capacity.
  pub record IsFilled (l : TokenBucket dash fl) : Type 0 where
    pub some_room : 0 < l.max_keys
    pub some_capacity : 0 < l.capacity
    pub capped : dash.len l.buckets ≤ l.max_keys
    pub filled :
        (k : Text) (s : BucketState fl)
        → dash.get l.buckets k ≡ some s
        → fl.le s.tokens (fl.of_u64 l.capacity) ≡ true

  new-IsFilled :
      (capacity : ℕ) (refill_rate : fl.F) {l : TokenBucket dash fl}
      → new dash fl capacity refill_rate ≡ ok l
      → IsFilled l
  unfolding new
  new-IsFilled capacity refill_rate {l} e = record {
    some_room = ground arith;
    some_capacity = ground arith;
    capped = ground (arith, dash.len-empty {V = BucketState fl});
    filled = λ k s h. ground (arith, dash.get-empty {V = BucketState fl} k);
  }

  module _ (ieee : IsIeee fl) where
    -- Whatever the bucket held, a call leaves at most the capacity in it.
    step_tokens-le :
        (capacity : ℕ) (rate : fl.F) (entry : Option (BucketState fl)) (at : ℕ × ℕ)
        → fl.le (step fl capacity rate entry at).0.tokens (fl.of_u64 capacity) ≡ true
    unfolding refill consume
    step_tokens-le capacity rate entry at =
        let s = unwrap_or entry (full fl capacity at.0) in
        let t = (refill fl capacity rate at.1 s).tokens in
        ground (
          arith,
          ieee.fmin-le (fl.add s.tokens (fl.mul (fl.as_secs (at.1 - s.last_refill)) rate)) capacity,
          ieee.sub_one-le t,
          ieee.le_trans (fl.sub t fl.one) t (fl.of_u64 capacity),
        )

    -- A call to a token bucket limiter whose map keeps to a positive cap and whose buckets hold
    -- at most the capacity leaves such a limiter.
    pub try_acquire-IsFilled :
        (l : TokenBucket dash fl) (key : Text) (at : ℕ × ℕ)
        → IsFilled l
        → IsFilled (try_acquire dash fl l key at).0
    unfolding try_acquire
    try_acquire-IsFilled l key at v =
        let room = make_room dash l.buckets l.max_keys (last_active fl) key in
        let s' = (step fl l.capacity l.refill_rate (dash.get room key) at).0 in
        record {
          some_room = v.some_room;
          some_capacity = v.some_capacity;
          capped =
              len-insert-make_room dash l.buckets l.max_keys (last_active fl) key s' v.some_room
                v.capped;
          filled = λ k s h. ground (
            arith,
            dash.get-insert room key s' k,
            get-make_room dash l.buckets l.max_keys (last_active fl) key k s,
            v.filled k s,
            step_tokens-le l.capacity l.refill_rate (dash.get room key) at,
          );
        }

    -- `remaining` of a token bucket limiter whose buckets hold at most the capacity never
    -- reports more than the capacity, if that is at most 2^53.
    remaining-le :
        (l : TokenBucket dash fl) (key : Text)
        → IsFilled l
        → l.capacity ≤ exact_bound
        → remaining dash fl l key ≤ l.capacity
    unfolding remaining
    remaining-le l key v small = elim (Option-cases (dash.get l.buckets key)) [
      | inl e ↦ rw (e, remaining) (omega arith)
      | inr (s, e) ↦
          rw (e, remaining)
            (omega (
              arith,
              ieee.to_u64_mono s.tokens (fl.of_u64 l.capacity) (v.filled key s e),
              ieee.to_u64-of_u64 l.capacity small,
            ))
    ]

  -- `reset` writes a bucket without making room: for a key that the limiter does not know it
  -- makes the map one entry longer, past the cap where the map is full.
  len-reset :
      (l : TokenBucket dash fl) (key : Text) (now : ℕ)
      → dash.get l.buckets key ≡ none
      → dash.len (reset dash fl l key now).buckets ≡ suc (dash.len l.buckets)
  unfolding reset
  len-reset l key now new = ground (arith, dash.len-insert l.buckets key (full fl l.capacity now))
