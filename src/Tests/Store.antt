-- ===== src/Tests/Store.antt =====
-- The theorems on src/stores/memory.rs at concrete inputs.
use armature_ratelimit.Algorithms.FixedWindow.Limits as FixedLimits
use armature_ratelimit.Algorithms.Keyed.{of_key}
use armature_ratelimit.Algorithms.SlidingWindow.Log as SlidingLog
use armature_ratelimit.DashMap.Assoc.{assoc_map}
use armature_ratelimit.Float.Fixed.{fixed_point, fixed_point-IsIeee}
use armature_ratelimit.Outcome.{ok}
use armature_ratelimit.Prelude.{ℕ, suc, ◌≤◌, ◌≡◌, refl, true, false, none, [], ◌∷◌, arith, text_eq}
use armature_ratelimit.Stores.Memory.Cleanup.{
  AllWithin, Within, cleaned, cleanup_capped, cleanup_within,
}
use armature_ratelimit.Stores.Memory.Forgetting.{cleanup_forgets_window, cleanup_refills}
use armature_ratelimit.Stores.Memory.Histories.{
  fixed_run, sliding_run, fixed_run_bound, sliding_run_bound,
}
use armature_ratelimit.Stores.Memory.Remaining.{remaining_boundary}
use armature_ratelimit.Stores.Memory.Transparency.{
  fixed_window_check-cleanup, sliding_window_check-cleanup,
}
use armature_ratelimit.Stores.Memory.{
  MemoryStore, fixed_window_check, sliding_window_check, token_bucket_check, remaining,
}
use armature_ratelimit.Tests.Data.{
  alice, calls, no_keys, spent, spent_store, full_log, logged_store,
}

fixed_run_bound_example :
    FixedLimits.admitted_in 10 5 (of_key alice (fixed_run assoc_map fixed_point 2 5 no_keys calls))
    ≤ 4
unfolding text_eq
fixed_run_bound_example =
    fixed_run_bound assoc_map fixed_point 2 5 no_keys calls alice 10 10 tt
      (omega arith, (omega arith, (omega arith, tt)))

sliding_run_bound_example :
    SlidingLog.admitted_in 10 5 (of_key alice (sliding_run assoc_map fixed_point 2 5 no_keys calls))
    ≤ 2
unfolding text_eq
sliding_run_bound_example =
    sliding_run_bound assoc_map fixed_point 2 5 no_keys calls alice 10 10 refl
      (omega arith, (omega arith, (omega arith, (omega arith, tt))))
      (omega arith, (omega arith, (omega arith, tt)))

cleanup_capped_example : AllWithin (cleaned assoc_map fixed_point spent_store 20) 1
cleanup_capped_example = cleanup_capped assoc_map fixed_point spent_store 20 1 refl

spent_store-Within : (at : ℕ) → Within assoc_map fixed_point spent_store at
spent_store-Within at max e = ground arith

logged_store-Within : (at : ℕ) → Within assoc_map fixed_point logged_store at
logged_store-Within at max e = ground arith

cleanup_within_example :
    (assoc_map.get (cleaned assoc_map fixed_point spent_store 120).token_buckets alice ≡ none)
    × (assoc_map.get (cleaned assoc_map fixed_point spent_store 120).sliding_logs alice ≡ none)
    × (assoc_map.get (cleaned assoc_map fixed_point spent_store 120).fixed_windows alice ≡ none)
unfolding text_eq
cleanup_within_example =
    cleanup_within assoc_map fixed_point spent_store 120 alice (spent_store-Within 120)

fixed_window_check-cleanup_example :
    let after =
      fixed_window_check assoc_map fixed_point
        (cleaned assoc_map fixed_point spent_store 120)
        130
        alice
        2
        50 in
    let before = fixed_window_check assoc_map fixed_point spent_store 130 alice 2 50 in
    (after.1 ≡ before.1)
    × (assoc_map.get after.0.fixed_windows alice ≡ assoc_map.get before.0.fixed_windows alice)
fixed_window_check-cleanup_example =
    fixed_window_check-cleanup assoc_map fixed_point spent_store 120 (spent_store-Within 120) alice
      130 2 50 (omega arith) (omega arith)

sliding_window_check-cleanup_example :
    let after =
      sliding_window_check assoc_map fixed_point
        (cleaned assoc_map fixed_point logged_store 120)
        130
        alice
        2
        50 in
    let before = sliding_window_check assoc_map fixed_point logged_store 130 alice 2 50 in
    (after.1 ≡ before.1)
    × (assoc_map.get after.0.sliding_logs alice ≡ assoc_map.get before.0.sliding_logs alice)
unfolding text_eq
sliding_window_check-cleanup_example =
    sliding_window_check-cleanup assoc_map fixed_point logged_store 120 (logged_store-Within 120)
      alice 130 2 50 (omega arith) (omega arith) (omega arith)
      (((omega arith, (omega arith, tt)), tt), tt)

cleanup_forgets_window_example :
    ((fixed_window_check assoc_map fixed_point spent_store 130 alice 2 500).1 ≡ ok (false, 0))
    × ((fixed_window_check assoc_map fixed_point
          (cleaned assoc_map fixed_point spent_store 120)
          130
          alice
          2
          500).1
        ≡ ok (true, 1))
unfolding text_eq
cleanup_forgets_window_example =
    cleanup_forgets_window assoc_map fixed_point spent_store 120 (spent_store-Within 120) alice 130
      2 500 spent refl (omega arith) (omega arith) (omega arith) (omega arith) (omega arith)

remaining_boundary_example :
    (n : ℕ) × (remaining assoc_map fixed_point logged_store 100 alice ≡ ok (suc n))
    × ((sliding_window_check assoc_map fixed_point logged_store 100 alice 2 90).1 ≡ ok (false, 0))
unfolding text_eq
remaining_boundary_example =
    remaining_boundary assoc_map fixed_point logged_store alice 100 10 (20 ∷ []) full_log refl refl
      refl refl refl refl

-- An empty bucket that gains one part in 10^30 of a token each second.
abbrev dry_store : MemoryStore assoc_map fixed_point
dry_store = record no_keys {
  token_buckets = ((alice, record { tokens = 0; last_refill = 10 }) ∷ [], (refl, tt));
}

dry_store-Within : (at : ℕ) → Within assoc_map fixed_point dry_store at
dry_store-Within at max e = ground arith

cleanup_refills_example :
    ((token_bucket_check assoc_map fixed_point dry_store 130 alice 3 1).1 ≡ ok (false, 0))
    × ((token_bucket_check assoc_map fixed_point
          (cleaned assoc_map fixed_point dry_store 120)
          130
          alice
          3
          1).1
        ≡ ok (true, 2))
unfolding text_eq
cleanup_refills_example =
    cleanup_refills assoc_map fixed_point dry_store 120 (dry_store-Within 120) fixed_point-IsIeee
      alice 130 2 1 (record { tokens = 0; last_refill = 10 }) refl refl (omega arith) (omega arith)
      refl
