-- ===== src/Tests/Limiters.antt =====
-- The theorems on src/algorithms at concrete inputs.
use armature_ratelimit.Algorithms.FixedWindow.Bounds as FixedBounds
use armature_ratelimit.Algorithms.FixedWindow.Limits as FixedLimits
use armature_ratelimit.Algorithms.FixedWindow.{WindowState}
use armature_ratelimit.Algorithms.FixedWindow as Fixed
use armature_ratelimit.Algorithms.Keyed.{of_key}
use armature_ratelimit.Algorithms.SlidingWindow.Limits as SlidingLimits
use armature_ratelimit.Algorithms.SlidingWindow.Log as SlidingLog
use armature_ratelimit.Algorithms.TokenBucket.Bounds as BucketBounds
use armature_ratelimit.Algorithms.TokenBucket.Burst as BucketBurst
use armature_ratelimit.Algorithms.TokenBucket as Bucket
use armature_ratelimit.DashMap.Assoc.{assoc_map, Entries}
use armature_ratelimit.Float.Fixed.{fixed_point, fixed_point-IsIeee}
use armature_ratelimit.Outcome.{ok}
use armature_ratelimit.Prelude.{ℕ, ◌≤◌, ◌≡◌, refl, Bool, List, [], ◌∷◌, Text, arith, text_eq}
use armature_ratelimit.Tests.Data.{
  alice, bob, calls, fixed_limiter, sliding_limiter, bucket_limiter,
}

run_twice_bound_example :
    FixedLimits.admitted_in 10 5 (of_key alice (Fixed.run assoc_map fixed_limiter calls)) ≤ 4
unfolding text_eq
run_twice_bound_example =
    FixedLimits.run_twice_bound assoc_map fixed_limiter calls alice 10 10 (omega arith) tt
      (omega arith, (omega arith, (omega arith, tt)))

run_bound_example :
    (ds : List (Text × (ℕ × Bool))) × (SlidingLimits.run assoc_map sliding_limiter calls ≡ ok ds)
    × (SlidingLog.admitted_in 10 5 (of_key alice ds) ≤ 2)
unfolding text_eq
run_bound_example =
    SlidingLimits.run_bound assoc_map sliding_limiter calls alice 10 10 (omega arith) refl
      (omega arith, (omega arith, (omega arith, (omega arith, tt))))
      (omega arith, (omega arith, (omega arith, tt)))

abbrev bursts : List (Text × (ℕ × ℕ))
bursts = (alice, (7, 7)) ∷ (alice, (7, 7)) ∷ (bob, (9, 9)) ∷ (alice, (7, 7)) ∷ []

run_burst_example :
    BucketBurst.admitted (of_key alice (Bucket.run assoc_map fixed_point bucket_limiter bursts)) ≡ 2
unfolding text_eq
run_burst_example =
    BucketBurst.run_burst assoc_map fixed_point fixed_point-IsIeee bucket_limiter bursts alice 7
      (omega arith) refl (omega arith) refl ((refl, refl), ((refl, refl), ((refl, refl), tt)))

abbrev ages : Entries ℕ
unfolding text_eq
ages = ((alice, 3) ∷ (bob, 1) ∷ [], (refl, (refl, tt)))

fixed_limiter-IsValid : FixedBounds.IsValid assoc_map fixed_limiter
fixed_limiter-IsValid = record {
  some_room = omega arith;
  some_limit = omega arith;
  some_window = omega arith;
  capped = omega arith;
  counted = λ k s h. absurd (ground arith);
}

try_acquire-IsValid_example :
    FixedBounds.IsValid assoc_map (Fixed.try_acquire assoc_map fixed_limiter alice 10).0
try_acquire-IsValid_example =
    FixedBounds.try_acquire-IsValid assoc_map fixed_limiter alice 10 fixed_limiter-IsValid

bucket_limiter-IsFilled : BucketBounds.IsFilled assoc_map fixed_point bucket_limiter
bucket_limiter-IsFilled = record {
  some_room = omega arith;
  some_capacity = omega arith;
  capped = omega arith;
  filled = λ k s h. absurd (ground arith);
}

try_acquire-IsFilled_example :
    BucketBounds.IsFilled assoc_map fixed_point
      (Bucket.try_acquire assoc_map fixed_point bucket_limiter alice (7, 7)).0
try_acquire-IsFilled_example =
    BucketBounds.try_acquire-IsFilled assoc_map fixed_point fixed_point-IsIeee bucket_limiter alice
      (7, 7) bucket_limiter-IsFilled

abbrev running : Entries WindowState
running = ((alice, record { count = 1; window_start = 9 }) ∷ [], (refl, tt))
