-- ===== src/Limiter/Waits.antt =====
-- src/lib.rs over src/stores/memory.rs: the wait that a denied request reports for a fixed window.
use armature_ratelimit.Algorithms.{fixed_window}
use armature_ratelimit.DashMap.{DashMap}
use armature_ratelimit.Float.{Float}
use armature_ratelimit.Limiter.{
  RateLimiter, denied, check, fixed_window_result, reset_at_ms, ns_per_ms, u64_mod,
}
use armature_ratelimit.Outcome.{ok}
use armature_ratelimit.Prelude.{
  ℕ, ◌+◌, ◌-◌, ◌*◌, ◌/◌, ◌%◌, ◌≤◌, ◌<◌, ◌≡◌, refl, false, some, arith, Text, text_eq_refl,
}
use armature_ratelimit.Stores.Memory.{FixedWindowState, fixed_window_check, count_request}
use armature_ratelimit.Stores.MemoryStore.{memory_store}
use armature_ratelimit.Stores.{Clock}

-- A full window that is still running denies, and stays as it is up to its recorded limit.
count_request_full :
    (n window now : ℕ) (e : FixedWindowState)
    → n ≤ e.count
    → now - e.window_start < window
    → count_request n window now e ≡ (record e { limit = n; window = window }, (false, 0))
unfolding count_request
count_request_full n window now e full running = ground arith

module _ (dash : DashMap) (fl : Float) where
  abbrev MemoryLimiter : Type 0
  MemoryLimiter = RateLimiter fl (memory_store dash fl)

  abbrev ms_of : Clock → ℕ
  ms_of now = now.since_epoch / ns_per_ms

  -- The wait that a denial at `now` reports.
  abbrev pub wait : ℕ → Clock → ℕ
  wait window now = (reset_at_ms window now - ms_of now) % u64_mod * ns_per_ms

  check_full :
      (l : MemoryLimiter) (now : Clock) (key : Text) (n window : ℕ) (e : FixedWindowState)
      → l.algorithm ≡ fixed_window n window
      → dash.get l.state.fixed_windows key ≡ some e
      → n ≤ e.count
      → now.instant - e.window_start < window
      → ((check fl (memory_store dash fl) l now now key).1
          ≡ ok (denied n (reset_at_ms window now / 1000 % u64_mod) (wait window now)))
        × (dash.get (check fl (memory_store dash fl) l now now key).0.state.fixed_windows key
            ≡ some (record e { limit = n; window = window }))
        × ((check fl (memory_store dash fl) l now now key).0.algorithm ≡ fixed_window n window)
  unfolding check fixed_window_check fixed_window_result
  check_full l now key n window e a known full running =
      rw (a, known, count_request_full n window now.instant e full running)
        (
          refl,
          ground (
            arith,
            dash.get-insert l.state.fixed_windows key (record e { limit = n; window = window }) key,
            text_eq_refl key,
          ),
          refl,
        )

  -- A fixed window limiter over the in-memory store denies a key whose window is full with a
  -- wait up to the end of the window of the epoch's grid; if the key's own window is still
  -- running after that wait, a request made exactly then is denied again.
  pub retry_too_early :
      (l : MemoryLimiter) (now later : Clock) (key : Text) (n window : ℕ) (e : FixedWindowState)
      → l.algorithm ≡ fixed_window n window
      → dash.get l.state.fixed_windows key ≡ some e
      → n ≤ e.count
      → later.instant ≡ now.instant + wait window now
      → later.instant - e.window_start < window
      → ((check fl (memory_store dash fl) l now now key).1
          ≡ ok (denied n (reset_at_ms window now / 1000 % u64_mod) (wait window now)))
        × ((check fl
              (memory_store dash fl)
              (check fl (memory_store dash fl) l now now key).0
              later
              later
              key).1
            ≡ ok (denied n (reset_at_ms window later / 1000 % u64_mod) (wait window later)))
  retry_too_early l now later key n window e a known full waited running =
      let (first, kept, same) = check_full l now key n window e a known full (omega arith) in
      (
        first,
        (check_full (check fl (memory_store dash fl) l now now key).0 later key n window
            (record e { limit = n; window = window }) same kept full running).0,
      )
