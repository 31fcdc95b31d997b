-- ===== src/Stores/Memory/Remaining.antt =====
-- src/stores/memory.rs: `remaining` against the replies of the checks, `reset`, and what a call
-- leaves alone.
use armature_ratelimit.Algorithms.SlidingWindow.{Log, prune, admit}
use armature_ratelimit.DashMap.{DashMap}
use armature_ratelimit.Float.{Float}
use armature_ratelimit.Outcome.{ok}
use armature_ratelimit.Prelude.{
  ℕ, suc, ◌+◌, ◌-◌, ◌≤◌, ◌<◌, ◌≡◌, ◌≢◌, refl, Bool, false, none, some, [], ◌∷◌, arith, Text,
  text_eq, text_eq_refl, ltb, if◌then◌else◌, unwrap_or, length, count_if, count_if-append,
  count_if-le, Ascending, All,
}
use armature_ratelimit.Stores.Memory.{
  MemoryStore, SlidingWindowState, sliding_default, token_bucket_check, sliding_window_check,
  fixed_window_check, refill_and_take, count_request, log_request, remaining, remaining_sliding,
  reset,
}

-- Younger than the window, as `remaining` counts.
abbrev live : ℕ → ℕ → ℕ → Bool
live window now t = ltb (now - t) window

-- No request of the log is exactly one window old.
abbrev OffBoundary : ℕ → ℕ → Log → Type 0
OffBoundary window now = All (λ t. t + window ≢ now)

all_live :
    (window now t : ℕ) (log : Log)
    → 0 < window
    → now < t + window
    → Ascending t log
    → count_if (live window now) log ≡ length log
all_live window now t [] pos h o = refl
all_live window now t (u ∷ log) pos h o = ground (arith, all_live window now u log)

-- In an ordered log with none exactly one window old, pruning leaves just the live requests.
length-prune-live :
    (window now from : ℕ) (log : Log)
    → 0 < window
    → window ≤ now
    → Ascending from log
    → OffBoundary window now log
    → length (prune (now - window) log) ≡ count_if (live window now) log
unfolding prune
length-prune-live window now from [] pos late o off = refl
length-prune-live window now from (t ∷ log) pos late o off =
    ground (
      arith,
      off.0,
      all_live window now t log,
      length-prune-live window now t log pos late o.1 off.1,
    )

count_live-prune :
    (window now : ℕ) (log : Log)
    → count_if (live window now) (prune (now - window) log) ≡ count_if (live window now) log
unfolding prune
count_live-prune window now [] = refl
count_live-prune window now (t ∷ log) = ground (arith, count_live-prune window now log)

module _ (dash : DashMap) (fl : Float) (s : MemoryStore dash fl) (key : Text) where
  -- For a key without a token bucket and with a positive window, `remaining` reports just after
  -- a fixed window check what the check replied.
  remaining-fixed_window_check :
      (now max_requests window : ℕ)
      → 0 < window
      → dash.get s.token_buckets key ≡ none
      → (allowed : Bool) × (n : ℕ) × ((fixed_window_check dash fl s now key max_requests window).1
          ≡ ok (allowed, n))
        × (remaining dash fl (fixed_window_check dash fl s now key max_requests window).0 now key
            ≡ ok n)
  unfolding fixed_window_check remaining count_request
  remaining-fixed_window_check now max_requests window pos other =
      let entry =
        unwrap_or (dash.get s.fixed_windows key)
          (record { count = 0; window_start = now; limit = max_requests; window = window }) in
      let out = count_request max_requests window now entry in
      (
        out.1.0,
        out.1.1,
        refl,
        ground (arith, dash.get-insert s.fixed_windows key out.0 key, text_eq_refl key),
      )

  -- For a key without a token bucket and a fixed window, `remaining` reports just after a
  -- sliding window check that does not panic what the check replied, if the window is positive,
  -- the log is in order and none of its requests is exactly one window old.
  remaining-sliding_window_check :
      (now max_requests window from : ℕ)
      → 0 < window
      → window ≤ now
      → dash.get s.token_buckets key ≡ none
      → dash.get s.fixed_windows key ≡ none
      → Ascending from (unwrap_or (dash.get s.sliding_logs key) sliding_default).log
      → OffBoundary window now (unwrap_or (dash.get s.sliding_logs key) sliding_default).log
      → (allowed : Bool) × (n : ℕ) × ((sliding_window_check dash fl s now key max_requests window).1
          ≡ ok (allowed, n))
        × (remaining dash fl (sliding_window_check dash fl s now key max_requests window).0 now key
            ≡ ok n)
  unfolding sliding_window_check remaining log_request admit
  remaining-sliding_window_check now max_requests window from pos late tb fw o off =
      let log = (unwrap_or (dash.get s.sliding_logs key) sliding_default).log in
      let log' = prune (now - window) log in
      let out =
        log_request max_requests window now
          (unwrap_or (dash.get s.sliding_logs key) sliding_default) in
      (
        out.1.0,
        out.1.1,
        ground arith,
        ground (
          arith,
          dash.get-insert s.sliding_logs key out.0 key,
          text_eq_refl key,
          length-prune-live window now from log pos late o off,
          count_live-prune window now log,
          count_if-append (live window now) log' (now ∷ []),
        ),
      )

  -- For a key with only a sliding log that is full and whose first request is exactly one
  -- window old, `remaining` promises a request that a check at that instant denies.
  pub remaining_boundary :
      (now t : ℕ) (log : Log) (e : SlidingWindowState)
      → dash.get s.token_buckets key ≡ none
      → dash.get s.fixed_windows key ≡ none
      → dash.get s.sliding_logs key ≡ some e
      → e.log ≡ t ∷ log
      → t + e.window ≡ now
      → e.limit ≡ length e.log
      → (n : ℕ) × (remaining dash fl s now key ≡ ok (suc n))
        × ((sliding_window_check dash fl s now key e.limit e.window).1 ≡ ok (false, 0))
  unfolding sliding_window_check remaining log_request admit prune
  remaining_boundary now t log e tb fw known shape exact full = (
    length log - count_if (live e.window now) log,
    ground (arith, count_if-le (live e.window now) log),
    ground arith,
  )

  -- A check on one key leaves every other key as it was, in all three maps.
  checks_other :
      (k : Text) (now capacity max_requests window : ℕ) (rate : fl.F)
      → text_eq key k ≡ false
      → let tb = (token_bucket_check dash fl s now key capacity rate).0 in
        let sl = (sliding_window_check dash fl s now key max_requests window).0 in
        let fw = (fixed_window_check dash fl s now key max_requests window).0 in
        (dash.get tb.token_buckets k ≡ dash.get s.token_buckets k)
        × (dash.get sl.sliding_logs k ≡ dash.get s.sliding_logs k)
        × (dash.get fw.fixed_windows k ≡ dash.get s.fixed_windows k)
        × (remaining dash fl tb now k ≡ remaining dash fl s now k)
        × (remaining dash fl sl now k ≡ remaining dash fl s now k)
        × (remaining dash fl fw now k ≡ remaining dash fl s now k)
  unfolding token_bucket_check sliding_window_check fixed_window_check remaining
  checks_other k now capacity max_requests window rate other =
      let tb =
        (refill_and_take fl capacity rate now (
          unwrap_or (dash.get s.token_buckets key)
            (record { tokens = fl.of_u64 capacity; last_refill = now }))).0 in
      let sl =
        (log_request max_requests window now
          (unwrap_or (dash.get s.sliding_logs key) sliding_default)).0 in
      let fw =
        (count_request max_requests window now (
          unwrap_or (dash.get s.fixed_windows key)
            (record { count = 0; window_start = now; limit = max_requests; window = window }))).0 in
      ground (
        arith,
        dash.get-insert s.token_buckets key tb k,
        dash.get-insert s.sliding_logs key sl k,
        dash.get-insert s.fixed_windows key fw k,
      )

  -- `reset` forgets the key in all three maps, and changes what `remaining` reports of no other.
  reset_lem :
      (k : Text) (now : ℕ)
      → remaining dash fl (reset dash fl s key).0 now k
        ≡ (if text_eq key k then ok 0 else remaining dash fl s now k)
  unfolding remaining reset remaining_sliding
  reset_lem k now = ground (
    arith,
    dash.get-remove s.token_buckets key k,
    dash.get-remove s.sliding_logs key k,
    dash.get-remove s.fixed_windows key k,
  )
