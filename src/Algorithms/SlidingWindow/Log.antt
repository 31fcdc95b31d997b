-- ===== src/Algorithms/SlidingWindow/Log.antt =====
-- src/algorithms/sliding_window.rs: the pruned log against the history of all admitted requests.
use armature_ratelimit.Algorithms.Keyed.{trace}
use armature_ratelimit.Algorithms.SlidingWindow.{Log, prune, admit, step}
use armature_ratelimit.Prelude.{
  ℕ, ◌+◌, ◌-◌, ◌≤◌, ◌<◌, ◌≡◌, refl, Bool, ◌&&◌, Option, none, some, List, [], ◌∷◌, arith, length,
  leb, count_if, count_if-le, count_if-append, length-append, Ascending,
}

-- Admitted in the closed span of length `w` that starts at `a`.
abbrev pub within : ℕ → ℕ → ℕ → Bool
within a w t = leb a t && leb t (a + w)

abbrev pub admitted_in : ℕ → ℕ → List (ℕ × Bool) → ℕ
admitted_in a w = count_if (λ d. d.1 && within a w d.0)

module _ (max_requests window : ℕ) where
  after_span :
      (a : ℕ) (entry : Option Log) (from : ℕ) (ts : List ℕ)
      → a + window < from
      → Ascending from ts
      → admitted_in a window (trace (step max_requests window) entry ts) ≡ 0
  unfolding trace
  after_span a entry from [] h s = refl
  after_span a entry from (t ∷ ts) h s =
      ground (arith, after_span a (some (step max_requests window entry t).0) t ts)

  -- Pruning drops nothing of a span that reaches up to the present.
  count-prune :
      (a t : ℕ) (log : Log)
      → t ≤ a + window
      → count_if (within a window) (prune (t - window) log) ≡ count_if (within a window) log
  unfolding prune
  count-prune a t [] h = refl
  count-prune a t (front ∷ log) h = ground (arith, count-prune a t log)

  length-prune-le : (c : ℕ) (log : Log) → length (prune c log) ≤ length log
  unfolding prune
  length-prune-le c [] = omega arith
  length-prune-le c (front ∷ log) = ground (arith, length-prune-le c log)

  span_bound :
      (a : ℕ) (log : Log) (from : ℕ) (ts : List ℕ)
      → length log ≤ max_requests
      → Ascending from ts
      → count_if (within a window) log
          + admitted_in a window (trace (step max_requests window) (some log) ts)
        ≤ max_requests
  unfolding trace admit
  span_bound a log from [] b o = omega (arith, count_if-le (within a window) log)
  span_bound a log from (t ∷ ts) b o =
      let log' = prune (t - window) log in
      ground (
        arith,
        count_if-le (within a window) log,
        count-prune a t log,
        length-prune-le (t - window) log,
        length-append log' (t ∷ []),
        count_if-append (within a window) log' (t ∷ []),
        after_span a (some (step max_requests window (some log) t).0) t ts,
        span_bound a (step max_requests window (some log) t).0 t ts,
      )

  -- From no log, no closed span of the window's length ever has more than `max_requests`
  -- admitted requests.
  pub sliding_bound :
      (a from : ℕ) (ts : List ℕ)
      → Ascending from ts
      → admitted_in a window (trace (step max_requests window) none ts) ≤ max_requests
  unfolding trace
  sliding_bound a from [] o = omega arith
  sliding_bound a from (t ∷ ts) o = omega (arith, span_bound a [] from (t ∷ ts) (omega arith) o)
