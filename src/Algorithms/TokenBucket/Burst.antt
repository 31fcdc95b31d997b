-- ===== src/Algorithms/TokenBucket/Burst.antt =====
-- src/algorithms/token_bucket.rs: a burst of requests at one instant.
use armature_ratelimit.Algorithms.Keyed.{of_key, trace, visit, visits, visits-of_key}
use armature_ratelimit.Algorithms.TokenBucket.{
  BucketState, TokenBucket, last_active, refill, consume, step, try_acquire, run,
}
use armature_ratelimit.DashMap.{DashMap}
use armature_ratelimit.Float.{Float, IsIeee, exact_bound}
use armature_ratelimit.Prelude.{
  ℕ, zero, suc, ◌+◌, ◌≤◌, ◌≡◌, refl, subst, sym, min, none, some, List, [], ◌∷◌, All, arith, Text,
  length, count_if, Bool, true, false,
}

-- Every request is made, and its bucket created, at the instant `t`.
abbrev AllAt : ℕ → List (ℕ × ℕ) → Type 0
AllAt t = All (λ at. (at.0 ≡ t) × (at.1 ≡ t))

abbrev pub admitted : List ((ℕ × ℕ) × Bool) → ℕ
admitted = count_if (λ d. d.1)

module _ (fl : Float) (ieee : IsIeee fl) (capacity : ℕ) (rate : fl.F) where
  abbrev holds : ℕ → ℕ → BucketState fl
  holds n t = record { tokens = fl.of_u64 n; last_refill = t }

  -- A refill after no time changes nothing.
  refill_now :
      (n t : ℕ)
      → n ≤ capacity
      → fl.is_finite rate ≡ true
      → refill fl capacity rate t (holds n t) ≡ holds n t
  unfolding refill
  refill_now n t h f =
      ground
        (arith, ieee.no_time n rate f, ieee.fmin_integer n capacity, ieee.of_u64_mono n capacity h)

  consume-suc :
      (n t : ℕ)
      → suc n ≤ exact_bound
      → consume fl (holds (suc n) t) ≡ (holds n t, (true, fl.to_u64 (fl.of_u64 n)))
  unfolding consume
  consume-suc n t h = ground (arith, ieee.one-le n, ieee.sub_one n h)

  consume-zero : (t : ℕ) → consume fl (holds 0 t) ≡ (holds 0 t, (false, 0))
  unfolding consume
  consume-zero t = ground (arith, ieee.one-le-zero)

  burst :
      (n t : ℕ) (ats : List (ℕ × ℕ))
      → n ≤ capacity
      → capacity ≤ exact_bound
      → fl.is_finite rate ≡ true
      → AllAt t ats
      → admitted (trace (step fl capacity rate) (some (holds n t)) ats) ≡ min (length ats) n
  unfolding trace
  burst n t [] h b f a = omega arith
  burst zero t ((c, now) ∷ ats) h b f a =
      ground (arith, refill_now zero t h f, consume-zero t, burst zero t ats h b f a.1)
  burst (suc n) t ((c, now) ∷ ats) h b f a =
      ground (arith, refill_now (suc n) t h f, consume-suc n t, burst n t ats)

  burst_unknown :
      (t : ℕ) (ats : List (ℕ × ℕ))
      → capacity ≤ exact_bound
      → fl.is_finite rate ≡ true
      → AllAt t ats
      → admitted (trace (step fl capacity rate) none ats) ≡ min (length ats) capacity
  unfolding trace
  burst_unknown t [] b f a = omega arith
  burst_unknown t ((c, now) ∷ ats) b f a =
      burst capacity c ((c, now) ∷ ats) (omega arith) b f
        (subst (λ x. AllAt x ((c, now) ∷ ats)) (sym a.0.0) a)

module _ (dash : DashMap) (fl : Float) where
  run-visits :
      (l : TokenBucket dash fl) (calls : List (Text × (ℕ × ℕ)))
      → run dash fl l calls
        ≡ visits dash (step fl l.capacity l.refill_rate) l.max_keys (last_active fl) l.buckets calls
  unfolding run visits try_acquire visit
  run-visits l [] = refl
  run-visits l ((key, at) ∷ calls) = rw (run-visits (try_acquire dash fl l key at).0 calls)

  -- While the cap on keys is not reached, the decisions on a key are those of its own bucket over
  -- its own requests.
  pub run-of_key :
      (l : TokenBucket dash fl) (calls : List (Text × (ℕ × ℕ))) (k : Text)
      → dash.len l.buckets + length calls ≤ l.max_keys
      → of_key k (run dash fl l calls)
        ≡ trace (step fl l.capacity l.refill_rate) (dash.get l.buckets k) (of_key k calls)
  run-of_key l calls k h = rw (run-visits l calls) (
      visits-of_key dash (step fl l.capacity l.refill_rate) l.max_keys (last_active fl) l.buckets
        calls k h)

  -- With a finite rate and a capacity of at most 2^53, of the requests at one instant on a key
  -- that the limiter does not know, exactly `capacity` are admitted, or all if they are fewer,
  -- while the cap on keys is not reached; other keys make no difference.
  pub run_burst :
      (ieee : IsIeee fl) (l : TokenBucket dash fl) (calls : List (Text × (ℕ × ℕ))) (k : Text)
      (t : ℕ)
      → dash.len l.buckets + length calls ≤ l.max_keys
      → dash.get l.buckets k ≡ none
      → l.capacity ≤ exact_bound
      → fl.is_finite l.refill_rate ≡ true
      → AllAt t (of_key k calls)
      → admitted (of_key k (run dash fl l calls)) ≡ min (length (of_key k calls)) l.capacity
  run_burst ieee l calls k t h new b f a =
      rw (run-of_key l calls k h, new)
        (burst_unknown fl ieee l.capacity l.refill_rate t (of_key k calls) b f a)
