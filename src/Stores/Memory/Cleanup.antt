-- ===== src/Stores/Memory/Cleanup.antt =====
-- src/stores/memory.rs: what `cleanup` leaves of each map.
use armature_ratelimit.DashMap.Keys.{keep_if}
use armature_ratelimit.DashMap.{DashMap}
use armature_ratelimit.Float.{Float}
use armature_ratelimit.Prelude.{
  ℕ, ◌-◌, ◌≤◌, ◌<◌, ◌≡◌, refl, sym, ap, subst, true, not, Option, none, some, arith, Text, back,
}
use armature_ratelimit.Stores.Memory.Cap.{
  stamped-dated, Dated, capped, len-capped, capped_keeps, capped_within,
}
use armature_ratelimit.Stores.Memory.{
  MemoryStore, TokenBucketState, FixedWindowState, SlidingWindowState, cap_oldest,
  cap_token_buckets, cap_sliding_logs, cap_fixed_windows, drop_idle, cap_all, cleanup, is_idle,
  is_live_log,
}

-- No map is longer than `max`.
abbrev pub AllWithin : {dash : DashMap} {fl : Float} → MemoryStore dash fl → ℕ → Type 0
AllWithin {dash} t max =
    (dash.len t.token_buckets ≤ max)
    × (dash.len t.sliding_logs ≤ max)
    × (dash.len t.fixed_windows ≤ max)

module _ (dash : DashMap) (fl : Float) (s : MemoryStore dash fl) (now : ℕ) where
  abbrev swept : MemoryStore dash fl
  swept = drop_idle dash fl s now

  abbrev pub cleaned : MemoryStore dash fl
  cleaned = (cleanup dash fl s now).0

  -- After the idle logs are gone, every log that is left has a last request.
  logs-Dated : Dated dash swept.sliding_logs (λ e. back e.log)
  unfolding drop_idle
  logs-Dated k v h = ground (arith, dash.get-retain (is_live_log dash fl s now) s.sliding_logs k)

  -- Each map is first swept, then capped by itself.
  cleaned-capped :
      (o : Option ℕ)
      → ((cap_all dash fl swept o).token_buckets
          ≡ capped dash swept.token_buckets (λ e. some e.last_refill) o)
        × ((cap_all dash fl swept o).sliding_logs
            ≡ capped dash swept.sliding_logs (λ e. back e.log) o)
        × ((cap_all dash fl swept o).fixed_windows
            ≡ capped dash swept.fixed_windows (λ e. some e.window_start) o)
  unfolding cap_all cap_token_buckets cap_sliding_logs cap_fixed_windows capped
  cleaned-capped none = (refl, refl, refl)
  cleaned-capped (some max) = (
    ap (cap_oldest dash swept.token_buckets max)
        (stamped-dated (λ e. e.last_refill) (dash.iter swept.token_buckets)),
    refl,
    ap (cap_oldest dash swept.fixed_windows max)
        (stamped-dated (λ e. e.window_start) (dash.iter swept.fixed_windows)),
  )

  cap_all-AllWithin : (max : ℕ) → AllWithin (cap_all dash fl swept (some max)) max
  cap_all-AllWithin max =
      let (tb, sl, fw) = cleaned-capped (some max) in
      rw (tb, sl, fw)
        (
          len-capped dash swept.token_buckets (λ e. some e.last_refill) max (λ k v h. refl),
          len-capped dash swept.sliding_logs (λ e. back e.log) max logs-Dated,
          len-capped dash swept.fixed_windows (λ e. some e.window_start) max (λ k v h. refl),
        )

  -- With a cap on keys, no map of the store is longer than the cap after `cleanup`.
  pub cleanup_capped : (max : ℕ) → s.max_keys ≡ some max → AllWithin cleaned max
  unfolding cleanup
  cleanup_capped max e =
      subst (λ o. AllWithin (cap_all dash fl swept o) max) (sym e) (cap_all-AllWithin max)

  swept_token_buckets :
      (k : Text) (e : TokenBucketState fl)
      → dash.get swept.token_buckets k ≡ some e
      → (dash.get s.token_buckets k ≡ some e) × (now - e.last_refill < s.idle_ttl)
  unfolding drop_idle
  swept_token_buckets k e h = ground (
    arith,
    dash.get-retain (λ (e : TokenBucketState fl). not (is_idle dash fl s now e.last_refill))
        s.token_buckets k,
  )

  swept_sliding_logs :
      (k : Text) (e : SlidingWindowState)
      → dash.get swept.sliding_logs k ≡ some e
      → (dash.get s.sliding_logs k ≡ some e) × (is_live_log dash fl s now e ≡ true)
  unfolding drop_idle
  swept_sliding_logs k e h =
      ground (arith, dash.get-retain (is_live_log dash fl s now) s.sliding_logs k)

  swept_fixed_windows :
      (k : Text) (e : FixedWindowState)
      → dash.get swept.fixed_windows k ≡ some e
      → (dash.get s.fixed_windows k ≡ some e) × (now - e.window_start < s.idle_ttl)
  unfolding drop_idle
  swept_fixed_windows k e h = ground (
    arith,
    dash.get-retain (λ (e : FixedWindowState). not (is_idle dash fl s now e.window_start))
        s.fixed_windows k,
  )

  -- What `cleanup` leaves was there before, and is not idle.
  cleanup_keeps :
      (k : Text)
      → ((e : TokenBucketState fl)
          → dash.get cleaned.token_buckets k ≡ some e
          → (dash.get s.token_buckets k ≡ some e) × (now - e.last_refill < s.idle_ttl))
        × ((e : SlidingWindowState)
            → dash.get cleaned.sliding_logs k ≡ some e
            → (dash.get s.sliding_logs k ≡ some e) × (is_live_log dash fl s now e ≡ true))
        × ((e : FixedWindowState)
            → dash.get cleaned.fixed_windows k ≡ some e
            → (dash.get s.fixed_windows k ≡ some e) × (now - e.window_start < s.idle_ttl))
  unfolding cleanup
  cleanup_keeps k =
      let (tb, sl, fw) = cleaned-capped s.max_keys in
      (
        λ e h. swept_token_buckets k e (
            capped_keeps dash swept.token_buckets (λ e. some e.last_refill) s.max_keys k e
              (rw tb at h)),
        λ e h.
            swept_sliding_logs k e
              (capped_keeps dash swept.sliding_logs (λ e. back e.log) s.max_keys k e (rw sl at h)),
        λ e h. swept_fixed_windows k e (
            capped_keeps dash swept.fixed_windows (λ e. some e.window_start) s.max_keys k e
              (rw fw at h)),
      )

  -- A store within its cap.
  abbrev pub Within : Type 0
  Within = (max : ℕ) → s.max_keys ≡ some max → AllWithin s max

  -- In a store within its cap, `cleanup` removes exactly the idle entries of each of the three
  -- maps and leaves the others as they were.
  pub cleanup_within :
      (k : Text)
      → Within
      → (dash.get cleaned.token_buckets k
          ≡ keep_if (λ e. not (is_idle dash fl s now e.last_refill)) (dash.get s.token_buckets k))
        × (dash.get cleaned.sliding_logs k
            ≡ keep_if (is_live_log dash fl s now) (dash.get s.sliding_logs k))
        × (dash.get cleaned.fixed_windows k
            ≡ keep_if
                (λ e. not (is_idle dash fl s now e.window_start))
                (dash.get s.fixed_windows k))
  unfolding cleanup drop_idle
  cleanup_within k within =
      let (tb, sl, fw) = cleaned-capped s.max_keys in
      let fresh_bucket = λ (e : TokenBucketState fl). not (is_idle dash fl s now e.last_refill) in
      let fresh_window = λ (e : FixedWindowState). not (is_idle dash fl s now e.window_start) in
      (
        rw
            (
              tb,
              capped_within dash swept.token_buckets (λ e. some e.last_refill) s.max_keys k
                  (λ max e.
                    omega
                      (arith, dash.len-retain-le fresh_bucket s.token_buckets, (within max e).0)),
            )
            (dash.get-retain fresh_bucket s.token_buckets k),
        rw
            (
              sl,
              capped_within dash swept.sliding_logs (λ e. back e.log) s.max_keys k
                  (λ max e. omega (
                    arith,
                    dash.len-retain-le (is_live_log dash fl s now) s.sliding_logs,
                    (within max e).1,
                  )),
            )
            (dash.get-retain (is_live_log dash fl s now) s.sliding_logs k),
        rw
            (
              fw,
              capped_within dash swept.fixed_windows (λ e. some e.window_start) s.max_keys k
                  (λ max e.
                    omega
                      (arith, dash.len-retain-le fresh_window s.fixed_windows, (within max e).2)),
            )
            (dash.get-retain fresh_window s.fixed_windows k),
      )
