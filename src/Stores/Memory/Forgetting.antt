-- ===== src/Stores/Memory/Forgetting.antt =====
-- src/stores/memory.rs: `cleanup` with an `idle_ttl` that is too short for the algorithm.
use armature_ratelimit.Algorithms.SlidingWindow.{prune, admit}
use armature_ratelimit.DashMap.{DashMap}
use armature_ratelimit.Float.{Float, IsIeee, exact_bound}
use armature_ratelimit.Outcome.{ok}
use armature_ratelimit.Prelude.{
  ℕ, suc, ◌-◌, ◌≤◌, ◌<◌, ◌≡◌, refl, ap, true, false, none, some, [], arith, Text, back, length,
}
use armature_ratelimit.Stores.Memory.Cleanup.{cleaned, Within, cleanup_within}
use armature_ratelimit.Stores.Memory.{
  MemoryStore, TokenBucketState, FixedWindowState, SlidingWindowState, token_bucket_check,
  sliding_window_check, fixed_window_check, refill_and_take, count_request, log_request,
}

prune-nil : (cutoff : ℕ) → prune cutoff [] ≡ []
unfolding prune
prune-nil cutoff = refl

module _ (fl : Float) where
  refill_short :
      (now capacity : ℕ) (rate : fl.F) (e : TokenBucketState fl)
      → fl.le fl.one (
          fl.fmin
            (fl.add e.tokens (fl.mul (fl.as_secs (now - e.last_refill)) rate))
            (fl.of_u64 capacity))
        ≡ false
      → (refill_and_take fl capacity rate now e).1 ≡ (false, 0)
  unfolding refill_and_take
  refill_short now capacity rate e h = ground arith

  refill_fresh :
      (ieee : IsIeee fl) (now capacity : ℕ) (rate : fl.F)
      → fl.is_finite rate ≡ true
      → suc capacity ≤ exact_bound
      → (refill_and_take fl
          (suc capacity)
          rate
          now
          (record { tokens = fl.of_u64 (suc capacity); last_refill = now })).1
        ≡ (true, capacity)
  unfolding refill_and_take
  refill_fresh ieee now capacity rate finite small = ground (
    arith,
    ieee.no_time (suc capacity) rate finite,
    ieee.fmin_integer (suc capacity) (suc capacity),
    ieee.of_u64_mono (suc capacity) (suc capacity),
    ieee.one-le capacity,
    ieee.sub_one capacity small,
    ieee.to_u64-of_u64 capacity,
  )

module _ (dash : DashMap) (fl : Float) (s : MemoryStore dash fl) (at : ℕ)
    (within : Within dash fl s at) where
  -- In a store within its cap, a `cleanup` forgets an exhausted fixed window that is as old as
  -- `idle_ttl`, and if the window is not over, a later request in it that would be denied is
  -- admitted.
  pub cleanup_forgets_window :
      (key : Text) (now max_requests window : ℕ) (e : FixedWindowState)
      → dash.get s.fixed_windows key ≡ some e
      → 0 < max_requests
      → max_requests ≤ e.count
      → s.idle_ttl ≤ at - e.window_start
      → at ≤ now
      → now - e.window_start < window
      → ((fixed_window_check dash fl s now key max_requests window).1 ≡ ok (false, 0))
        × ((fixed_window_check dash fl (cleaned dash fl s at) now key max_requests window).1
            ≡ ok (true, max_requests - 1))
  unfolding fixed_window_check count_request
  cleanup_forgets_window key now max_requests window e known pos full idle le running =
      ground (arith, (cleanup_within dash fl s at key within).2)

  -- A sliding window that is longer than `idle_ttl`: `cleanup` forgets a full log whose requests
  -- are all still inside the window, and a request that was denied is admitted.
  cleanup_forgets_log :
      (key : Text) (now max_requests window last : ℕ) (e : SlidingWindowState)
      → dash.get s.sliding_logs key ≡ some e
      → 0 < max_requests
      → max_requests ≤ length (prune (now - window) e.log)
      → back e.log ≡ some last
      → s.idle_ttl ≤ at - last
      → window ≤ now
      → ((sliding_window_check dash fl s now key max_requests window).1 ≡ ok (false, 0))
        × ((sliding_window_check dash fl (cleaned dash fl s at) now key max_requests window).1
            ≡ ok (true, max_requests - 1))
  unfolding sliding_window_check log_request admit
  cleanup_forgets_log key now max_requests window last e known pos full ends idle late =
      ground (arith, (cleanup_within dash fl s at key within).1, prune-nil (now - window))

  -- In a store within its cap, with a finite rate and a capacity of at most 2^53, a `cleanup`
  -- forgets a bucket that is idle for `idle_ttl`, and a request that the bucket would deny for
  -- want of a token is admitted as by a full bucket.
  pub cleanup_refills :
      (ieee : IsIeee fl) (key : Text) (now capacity : ℕ) (rate : fl.F) (e : TokenBucketState fl)
      → dash.get s.token_buckets key ≡ some e
      → fl.is_finite rate ≡ true
      → suc capacity ≤ exact_bound
      → s.idle_ttl ≤ at - e.last_refill
      → fl.le fl.one (
          fl.fmin
            (fl.add e.tokens (fl.mul (fl.as_secs (now - e.last_refill)) rate))
            (fl.of_u64 (suc capacity)))
        ≡ false
      → ((token_bucket_check dash fl s now key (suc capacity) rate).1 ≡ ok (false, 0))
        × ((token_bucket_check dash fl (cleaned dash fl s at) now key (suc capacity) rate).1
            ≡ ok (true, capacity))
  unfolding token_bucket_check
  cleanup_refills ieee key now capacity rate e known finite small idle short = rw known (
    ap ok (refill_short fl now (suc capacity) rate e short),
    rw gone (ap ok (refill_fresh fl ieee now capacity rate finite small)),
  )
    where
      gone : dash.get (cleaned dash fl s at).token_buckets key ≡ none
      gone = ground (arith, (cleanup_within dash fl s at key within).0)
