-- ===== src/Algorithms/FixedWindow/Limits.antt =====
-- src/algorithms/fixed_window.rs: how many requests a key gets through in any span of time.
use armature_ratelimit.Algorithms.FixedWindow.{
  WindowState, FixedWindow, last_active, fresh, roll, hit, step, try_acquire, run,
}
use armature_ratelimit.Algorithms.Keyed.{of_key, trace, visits, visit, visits-of_key}
use armature_ratelimit.DashMap.{DashMap}
use armature_ratelimit.Prelude.{
  ℕ, ◌+◌, ◌*◌, ◌≤◌, ◌≡◌, refl, Bool, ◌&&◌, Option, none, some, List, [], ◌∷◌, All, arith, Text,
  length, ltb, leb, count_if, Ascending, to_list,
}

-- Admitted in the span of length `w` that starts at `a`.
abbrev pub admitted_in : ℕ → ℕ → List (ℕ × Bool) → ℕ
admitted_in a w = count_if (λ d. d.1 && (leb a d.0 && ltb d.0 (a + w)))

module _ (max_requests window : ℕ) where
  abbrev entry_step : Option WindowState → ℕ → WindowState × (Bool × ℕ)
  entry_step = step max_requests window

  -- Nothing after the span counts.
  after_span :
      (a : ℕ) (entry : Option WindowState) (from : ℕ) (ts : List ℕ)
      → a + window ≤ from
      → Ascending from ts
      → admitted_in a window (trace entry_step entry ts) ≡ 0
  unfolding trace
  after_span a entry from [] h s = refl
  after_span a entry from (t ∷ ts) h s =
      ground (arith, after_span a (some (entry_step entry t).0) t ts)

  -- A window that starts in the span is the last one to admit in it.
  started_in_span :
      (a : ℕ) (s : WindowState) (from : ℕ) (ts : List ℕ)
      → a ≤ s.window_start
      → s.count ≤ max_requests
      → a ≤ from
      → Ascending from ts
      → admitted_in a window (trace entry_step (some s) ts) + s.count ≤ max_requests
  unfolding trace roll hit
  started_in_span a s from [] h c b o = omega arith
  started_in_span a s from (t ∷ ts) h c b o = ground (
    arith,
    started_in_span a (entry_step (some s) t).0 t ts,
    after_span a (some (entry_step (some s) t).0) t ts,
  )

  in_span :
      (a : ℕ) (s : WindowState) (from : ℕ) (ts : List ℕ)
      → s.count ≤ max_requests
      → a ≤ from
      → Ascending from ts
      → admitted_in a window (trace entry_step (some s) ts) + s.count ≤ 2 * max_requests
  unfolding trace roll hit
  in_span a s from [] c b o = omega arith
  in_span a s from (t ∷ ts) c b o = ground (
    arith,
    in_span a (entry_step (some s) t).0 t ts,
    started_in_span a (entry_step (some s) t).0 t ts,
    after_span a (some (entry_step (some s) t).0) t ts,
  )

  -- One entry, from any count within the limit: at most twice the limit in any span.
  span_bound :
      (a : ℕ) (s : WindowState) (from : ℕ) (ts : List ℕ)
      → s.count ≤ max_requests
      → Ascending from ts
      → admitted_in a window (trace entry_step (some s) ts) ≤ 2 * max_requests
  unfolding trace roll hit
  span_bound a s from [] c o = omega arith
  span_bound a s from (t ∷ ts) c o =
      ground (arith, span_bound a (entry_step (some s) t).0 t ts, in_span a s t (t ∷ ts) c)

  trace-fresh :
      (t : ℕ) (ts : List ℕ)
      → trace entry_step none (t ∷ ts) ≡ trace entry_step (some (fresh t)) (t ∷ ts)
  unfolding trace
  trace-fresh t ts = refl

  pub entry_bound :
      (a : ℕ) (entry : Option WindowState) (from : ℕ) (ts : List ℕ)
      → All (λ s. s.count ≤ max_requests) (to_list entry)
      → Ascending from ts
      → admitted_in a window (trace entry_step entry ts) ≤ 2 * max_requests
  unfolding trace
  entry_bound a none from [] c o = omega arith
  entry_bound a none from (t ∷ ts) c o = span_bound a (fresh t) from (t ∷ ts) (omega arith) o
  entry_bound a (some s) from ts c o = span_bound a s from ts c.0 o

  -- The window that a first request opens admits at most the limit.
  first_window :
      (t : ℕ) (ts : List ℕ)
      → Ascending t ts
      → admitted_in t window (trace entry_step none (t ∷ ts)) ≤ max_requests
  first_window t ts o = rw (trace-fresh t ts) (
      omega (
        arith,
        started_in_span t (fresh t) t (t ∷ ts) (omega arith) (omega arith) (omega arith)
            (omega arith, o),
      ))

module _ (dash : DashMap) where
  -- A limiter's decisions are those of `visits` with the step of one entry.
  run-visits :
      (l : FixedWindow dash) (calls : List (Text × ℕ))
      → run dash l calls
        ≡ visits dash (step l.max_requests l.window) l.max_keys last_active l.windows calls
  unfolding run visits try_acquire visit
  run-visits l [] = refl
  run-visits l ((key, now) ∷ calls) = rw (run-visits (try_acquire dash l key now).0 calls)

  -- While the cap on keys is not reached, the decisions on a key are those of its own entry over
  -- its own requests: what other keys do changes nothing.
  pub run-of_key :
      (l : FixedWindow dash) (calls : List (Text × ℕ)) (k : Text)
      → dash.len l.windows + length calls ≤ l.max_keys
      → of_key k (run dash l calls)
        ≡ trace (step l.max_requests l.window) (dash.get l.windows k) (of_key k calls)
  run-of_key l calls k h =
      rw (run-visits l calls) (
        visits-of_key dash (step l.max_requests l.window) l.max_keys last_active l.windows calls k
          h)

  -- While the cap on keys is not reached, a key whose count is within the limit, with its
  -- requests in order of time, gets at most twice the limit through in any span of one window's
  -- length, wherever the span starts.
  pub run_twice_bound :
      (l : FixedWindow dash) (calls : List (Text × ℕ)) (k : Text) (a from : ℕ)
      → dash.len l.windows + length calls ≤ l.max_keys
      → All (λ s. s.count ≤ l.max_requests) (to_list (dash.get l.windows k))
      → Ascending from (of_key k calls)
      → admitted_in a l.window (of_key k (run dash l calls)) ≤ 2 * l.max_requests
  run_twice_bound l calls k a from h c o =
      rw (run-of_key l calls k h)
        (entry_bound l.max_requests l.window a (dash.get l.windows k) from (of_key k calls) c o)

  -- A key that the limiter does not know gets at most the limit through in the window that its
  -- first request opens.
  run_first_window :
      (l : FixedWindow dash) (calls : List (Text × ℕ)) (k : Text) (t : ℕ) (ts : List ℕ)
      → dash.len l.windows + length calls ≤ l.max_keys
      → dash.get l.windows k ≡ none
      → of_key k calls ≡ t ∷ ts
      → Ascending t ts
      → admitted_in t l.window (of_key k (run dash l calls)) ≤ l.max_requests
  run_first_window l calls k t ts h new e o =
      rw (run-of_key l calls k h, new, e) (first_window l.max_requests l.window t ts o)
