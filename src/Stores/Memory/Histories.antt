-- ===== src/Stores/Memory/Histories.antt =====
-- src/stores/memory.rs: how many requests of a key the store lets through in any span of time.
use armature_ratelimit.Algorithms.FixedWindow as Fixed
use armature_ratelimit.Algorithms.FixedWindow.Limits as FixedLimits
use armature_ratelimit.Algorithms.FixedWindow.{WindowState}
use armature_ratelimit.Algorithms.Keyed.{of_key, trace}
use armature_ratelimit.Algorithms.SlidingWindow.Log as SlidingLog
use armature_ratelimit.Algorithms.SlidingWindow as Sliding
use armature_ratelimit.DashMap.{DashMap}
use armature_ratelimit.Float.{Float}
use armature_ratelimit.Outcome.{is_admitted}
use armature_ratelimit.Prelude.{
  ℕ, ◌*◌, ◌≤◌, ◌≡◌, refl, Bool, Option, none, some, List, [], ◌∷◌, All, arith, Text, text_eq_iff,
  to_list, map_option, unwrap_or, Ascending, Option-cases, inl, inr,
}
use armature_ratelimit.Stores.Memory.{
  MemoryStore, FixedWindowState, SlidingWindowState, sliding_default, count_request, log_request,
  fixed_window_check, sliding_window_check,
}

abbrev pub counted : FixedWindowState → WindowState
counted e = record { count = e.count; window_start = e.window_start }

abbrev pub logged : SlidingWindowState → List ℕ
logged e = e.log

module _ (dash : DashMap) (fl : Float) (max_requests window : ℕ) where
  -- A history of checks with one limit and one window, with the decision of each.
  unfoldable pub fixed_run : MemoryStore dash fl → List (Text × ℕ) → List (Text × (ℕ × Bool))
  fixed_run s [] = []
  fixed_run s ((key, now) ∷ calls) =
      let out = fixed_window_check dash fl s now key max_requests window in
      (key, (now, is_admitted out.1)) ∷ fixed_run out.0 calls

  unfoldable pub sliding_run : MemoryStore dash fl → List (Text × ℕ) → List (Text × (ℕ × Bool))
  sliding_run s [] = []
  sliding_run s ((key, now) ∷ calls) =
      let out = sliding_window_check dash fl s now key max_requests window in
      (key, (now, is_admitted out.1)) ∷ sliding_run out.0 calls

  -- The store's entries move as those of the limiter in `algorithms` do.
  pub count_request-step :
      (now : ℕ) (entry : Option FixedWindowState)
      → let fresh : FixedWindowState = record {
        count = 0;
        window_start = now;
        limit = max_requests;
        window = window;
      } in
        let out = count_request max_requests window now (unwrap_or entry fresh) in
        let out' = Fixed.step max_requests window (map_option counted entry) now in
        (counted out.0 ≡ out'.0) × (out.1 ≡ out'.1)
  unfolding count_request Fixed.roll Fixed.hit
  count_request-step now none = ground arith
  count_request-step now (some e) = ground arith

  fixed_run-of_key :
      (s : MemoryStore dash fl) (calls : List (Text × ℕ)) (k : Text)
      → of_key k (fixed_run s calls)
        ≡ trace
            (Fixed.step max_requests window)
            (map_option counted (dash.get s.fixed_windows k))
            (of_key k calls)
  unfolding fixed_run trace fixed_window_check
  fixed_run-of_key s [] k = refl
  fixed_run-of_key s ((key, now) ∷ calls) k =
      let entry = dash.get s.fixed_windows key in
      let fresh : FixedWindowState = record {
        count = 0;
        window_start = now;
        limit = max_requests;
        window = window;
      } in
      let out = count_request max_requests window now (unwrap_or entry fresh) in
      ground (
        arith,
        text_eq_iff key k,
        count_request-step now entry,
        dash.get-insert s.fixed_windows key out.0 k,
        fixed_run-of_key (fixed_window_check dash fl s now key max_requests window).0 calls k,
      )

  -- Whatever other keys ask for and however many there are, a key whose stored count is within
  -- the limit, with its requests in order of time, gets at most twice the limit through in any
  -- span of one window's length, wherever the span starts.
  pub fixed_run_bound :
      (s : MemoryStore dash fl) (calls : List (Text × ℕ)) (k : Text) (a from : ℕ)
      → All (λ e. e.count ≤ max_requests) (to_list (dash.get s.fixed_windows k))
      → Ascending from (of_key k calls)
      → FixedLimits.admitted_in a window (of_key k (fixed_run s calls)) ≤ 2 * max_requests
  fixed_run_bound s calls k a from c o = rw (fixed_run-of_key s calls k) (
      FixedLimits.entry_bound max_requests window a
        (map_option counted (dash.get s.fixed_windows k)) from (of_key k calls)
        (elim (Option-cases (dash.get s.fixed_windows k)) [
          | inl e ↦ rw e tt
          | inr (w, e) ↦ rw e ((rw e at c).0, tt)
        ])
        o)

  sliding_run-of_key :
      (s : MemoryStore dash fl) (calls : List (Text × ℕ)) (k : Text)
      → All (λ c. window ≤ c.1) calls
      → of_key k (sliding_run s calls)
        ≡ trace
            (Sliding.step max_requests window)
            (map_option logged (dash.get s.sliding_logs k))
            (of_key k calls)
  unfolding sliding_run trace sliding_window_check log_request
  sliding_run-of_key s [] k late = refl
  sliding_run-of_key s ((key, now) ∷ calls) k late =
      let entry = dash.get s.sliding_logs key in
      let out = log_request max_requests window now (unwrap_or entry sliding_default) in
      elim (Option-cases entry) [
        | inl e ↦ ground (
          arith,
          text_eq_iff key k,
          dash.get-insert s.sliding_logs key out.0 k,
          sliding_run-of_key (sliding_window_check dash fl s now key max_requests window).0 calls k
              late.1,
        )
        | inr (w, e) ↦ ground (
          arith,
          text_eq_iff key k,
          dash.get-insert s.sliding_logs key out.0 k,
          sliding_run-of_key (sliding_window_check dash fl s now key max_requests window).0 calls k
              late.1,
        )
      ]

  -- With the sliding window log, a key that the store does not know, with its requests in order
  -- of time and no request earlier than one window after the first instant, never gets more
  -- than the limit through in a closed span of one window's length, whatever other keys ask
  -- for.
  pub sliding_run_bound :
      (s : MemoryStore dash fl) (calls : List (Text × ℕ)) (k : Text) (a from : ℕ)
      → dash.get s.sliding_logs k ≡ none
      → All (λ c. window ≤ c.1) calls
      → Ascending from (of_key k calls)
      → SlidingLog.admitted_in a window (of_key k (sliding_run s calls)) ≤ max_requests
  sliding_run_bound s calls k a from new late o =
      rw (sliding_run-of_key s calls k late, new)
        (SlidingLog.sliding_bound max_requests window a from (of_key k calls) o)
