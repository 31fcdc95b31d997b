-- ===== src/Stores/Memory/Transparency.antt =====
-- src/stores/memory.rs: when `cleanup` does not change the answer to a later request.
use armature_ratelimit.Algorithms.SlidingWindow.{Log, prune}
use armature_ratelimit.DashMap.Keys.{keep_if}
use armature_ratelimit.DashMap.{DashMap}
use armature_ratelimit.Float.{Float}
use armature_ratelimit.Prelude.{
  inl, inr, ℕ, ◌-◌, ◌≤◌, ◌<◌, ◌≡◌, refl, true, false, not, Option, none, some, [], ◌∷◌, arith, Text,
  text_eq_refl, Bool-cases, is_some, back, leb, Option-cases, unwrap_or, All, to_list,
}
use armature_ratelimit.Stores.Memory.Cleanup.{cleaned, Within, cleanup_within}
use armature_ratelimit.Stores.Memory.{
  MemoryStore, FixedWindowState, SlidingWindowState, sliding_default, sliding_window_check,
  fixed_window_check, count_request, log_request,
}

abbrev pub fresh_window : ℕ → ℕ → ℕ → FixedWindowState
fresh_window max_requests window now = record {
  count = 0;
  window_start = now;
  limit = max_requests;
  window = window;
}

pub count_request_over :
    (max_requests window now : ℕ) (e : FixedWindowState)
    → window ≤ now - e.window_start
    → count_request max_requests window now e
      ≡ count_request max_requests window now (fresh_window max_requests window now)
unfolding count_request
count_request_over max_requests window now e h = ground arith

pub prune-All : (cutoff : ℕ) (log : Log) → All (λ t. t < cutoff) log → prune cutoff log ≡ []
unfolding prune
prune-All cutoff [] a = refl
prune-All cutoff (t ∷ log) a = ground (arith, prune-All cutoff log a.1)

-- Every request of the log is at most as late as the last one.
abbrev pub IsOrdered : SlidingWindowState → Type 0
IsOrdered e = All (λ last. All (λ t. t ≤ last) e.log) (to_list (back e.log))

pub All-lt : (last c : ℕ) (log : Log) → last < c → All (λ t. t ≤ last) log → All (λ t. t < c) log
All-lt last c [] h a = tt
All-lt last c (t ∷ log) h a = (omega arith, All-lt last c log h a.1)

back-is_some : (t : ℕ) (log : Log) → is_some (back (t ∷ log)) ≡ true
back-is_some t [] = refl
back-is_some t (u ∷ log) = back-is_some u log

pub prune_idle :
    (at now window ttl : ℕ) (log : Log)
    → window < ttl
    → at ≤ now
    → All (λ last. All (λ t. t ≤ last) log) (to_list (back log))
    → (elim (back log) [ none ↦ false | some last ↦ not (leb ttl (at - last)) ]) ≡ false
    → prune (now - window) log ≡ []
unfolding prune
prune_idle at now window ttl [] w le o idle = refl
prune_idle at now window ttl (t ∷ log) w le o idle = elim (Option-cases (back (t ∷ log))) [
  | inl e ↦ absurd (ground (arith, back-is_some t log))
  | inr (last, e) ↦
      prune-All (now - window) (t ∷ log)
        (All-lt last (now - window) (t ∷ log) (ground arith) (rw e at o).0)
]

count_request_kept :
    (max_requests window now ttl at : ℕ) (entry : Option FixedWindowState)
    → at ≤ now
    → window ≤ ttl
    → count_request max_requests window now (
        unwrap_or
          (keep_if (λ e. not (leb ttl (at - e.window_start))) entry)
          (fresh_window max_requests window now))
      ≡ count_request max_requests window now
          (unwrap_or entry (fresh_window max_requests window now))
count_request_kept max_requests window now ttl at none le h = refl
count_request_kept max_requests window now ttl at (some e) le h =
    ground (arith, count_request_over max_requests window now e)

log_request_kept :
    (max_requests window now ttl at : ℕ) (entry : Option SlidingWindowState)
    → at ≤ now
    → window < ttl
    → All IsOrdered (to_list entry)
    → log_request max_requests window now (
        unwrap_or
          (keep_if
            (λ e. elim (back e.log) [ none ↦ false | some last ↦ not (leb ttl (at - last)) ])
            entry)
          sliding_default)
      ≡ log_request max_requests window now (unwrap_or entry sliding_default)
unfolding log_request prune
log_request_kept max_requests window now ttl at none le h o = refl
log_request_kept max_requests window now ttl at (some e) le h o =
    elim (Bool-cases (elim (back e.log) [ none ↦ false | some last ↦ not (leb ttl (at - last)) ])) [
      | inl live ↦ rw live
      | inr idle ↦ rw (idle, prune_idle at now window ttl e.log h le o.0 idle)
    ]

module _ (dash : DashMap) (fl : Float) (s : MemoryStore dash fl) (at : ℕ)
    (within : Within dash fl s at) where
  -- In a store within its cap whose `idle_ttl` is no shorter than the window, a `cleanup` at or
  -- before the instant of a fixed window check changes neither its reply nor the entry that it
  -- leaves.
  pub fixed_window_check-cleanup :
      (key : Text) (now max_requests window : ℕ)
      → at ≤ now
      → window ≤ s.idle_ttl
      → let after = fixed_window_check dash fl (cleaned dash fl s at) now key max_requests window in
        let before = fixed_window_check dash fl s now key max_requests window in
        (after.1 ≡ before.1)
        × (dash.get after.0.fixed_windows key ≡ dash.get before.0.fixed_windows key)
  unfolding fixed_window_check
  fixed_window_check-cleanup key now max_requests window le ttl =
      let fresh = fresh_window max_requests window now in
      let m = (cleaned dash fl s at).fixed_windows in
      let e = (count_request max_requests window now (unwrap_or (dash.get m key) fresh)).0 in
      let e' =
        (count_request max_requests window now
          (unwrap_or (dash.get s.fixed_windows key) fresh)).0 in
      ground (
        arith,
        (cleanup_within dash fl s at key within).2,
        count_request_kept max_requests window now s.idle_ttl at (dash.get s.fixed_windows key),
        dash.get-insert m key e key,
        dash.get-insert s.fixed_windows key e' key,
        text_eq_refl key,
      )

  -- In a store within its cap whose `idle_ttl` is longer than the window, a `cleanup` at or
  -- before the instant of a sliding window check that does not panic changes neither its reply
  -- nor the entry that it leaves, if no request of the key's log is later than its last.
  pub sliding_window_check-cleanup :
      (key : Text) (now max_requests window : ℕ)
      → at ≤ now
      → window < s.idle_ttl
      → window ≤ now
      → All IsOrdered (to_list (dash.get s.sliding_logs key))
      → let after =
          sliding_window_check dash fl (cleaned dash fl s at) now key max_requests window in
        let before = sliding_window_check dash fl s now key max_requests window in
        (after.1 ≡ before.1)
        × (dash.get after.0.sliding_logs key ≡ dash.get before.0.sliding_logs key)
  unfolding sliding_window_check
  sliding_window_check-cleanup key now max_requests window le ttl late o =
      let m = (cleaned dash fl s at).sliding_logs in
      let e =
        (log_request max_requests window now (unwrap_or (dash.get m key) sliding_default)).0 in
      let e' =
        (log_request max_requests window now
          (unwrap_or (dash.get s.sliding_logs key) sliding_default)).0 in
      ground (
        arith,
        (cleanup_within dash fl s at key within).1,
        log_request_kept max_requests window now s.idle_ttl at (dash.get s.sliding_logs key) le ttl
            o,
        dash.get-insert m key e key,
        dash.get-insert s.sliding_logs key e' key,
        text_eq_refl key,
      )
