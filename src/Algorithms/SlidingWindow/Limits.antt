-- ===== src/Algorithms/SlidingWindow/Limits.antt =====
-- src/algorithms/sliding_window.rs: histories of calls to the limiter, its panic, and what `remaining`
-- does to the map.
use armature_ratelimit.Algorithms.Keyed.{of_key, visit, visits, visits-of_key}
use armature_ratelimit.Algorithms.SlidingWindow.Log.{admitted_in, sliding_bound}
use armature_ratelimit.Algorithms.SlidingWindow.{
  SlidingWindowLog, prune, step, new, try_acquire, clean_and_count, remaining,
}
use armature_ratelimit.DashMap.{DashMap}
use armature_ratelimit.Outcome.{Outcome, ok, panic, ◌>>=◌}
use armature_ratelimit.Prelude.{
  ℕ, suc, ◌+◌, ◌≤◌, ◌<◌, ◌≡◌, refl, none, List, [], ◌∷◌, arith, Text, length, back, Ascending, Bool,
  All,
}

module _ (dash : DashMap) where
  -- A history of calls, with the decision of each; a panic ends it.
  unfoldable pub run : SlidingWindowLog dash → List (Text × ℕ) → Outcome (List (Text × (ℕ × Bool)))
  run l [] = ok []
  run l ((key, now) ∷ calls) = try_acquire dash l key now >>= λ out.
      run out.0 calls >>= λ rest. ok ((key, (now, out.1.0)) ∷ rest)

  -- Late enough for `now - window` to be an instant.
  abbrev AllAfter : ℕ → List (Text × ℕ) → Type 0
  AllAfter window = All (λ c. window ≤ c.1)

  try_acquire-visit :
      (l : SlidingWindowLog dash) (key : Text) (now : ℕ)
      → l.window ≤ now
      → try_acquire dash l key now
        ≡ ok (
          record l {
            logs = (visit dash (step l.max_requests l.window) l.max_keys back l.logs key now).0;
          },
          (visit dash (step l.max_requests l.window) l.max_keys back l.logs key now).1,
        )
  unfolding try_acquire visit
  try_acquire-visit l key now h = ground arith

  run-visits :
      (l : SlidingWindowLog dash) (calls : List (Text × ℕ))
      → AllAfter l.window calls
      → run l calls ≡ ok (visits dash (step l.max_requests l.window) l.max_keys back l.logs calls)
  unfolding run visits
  run-visits l [] h = refl
  run-visits l ((key, now) ∷ calls) h =
      rw
        (
          try_acquire-visit l key now h.0,
          run-visits
              (record l {
                logs = (visit dash (step l.max_requests l.window) l.max_keys back l.logs key now).0;
              })
              calls h.1,
        )
        refl

  -- While the cap on keys is not reached and no call is earlier than one window after the first
  -- instant, no call panics, and a key that the limiter does not know, with its requests in
  -- order of time, never gets more than `max_requests` through in a closed span of one window's
  -- length.
  pub run_bound :
      (l : SlidingWindowLog dash) (calls : List (Text × ℕ)) (k : Text) (a from : ℕ)
      → dash.len l.logs + length calls ≤ l.max_keys
      → dash.get l.logs k ≡ none
      → AllAfter l.window calls
      → Ascending from (of_key k calls)
      → (ds : List (Text × (ℕ × Bool))) × (run l calls ≡ ok ds)
        × (admitted_in a l.window (of_key k ds) ≤ l.max_requests)
  run_bound l calls k a from h new late o = (
    visits dash (step l.max_requests l.window) l.max_keys back l.logs calls,
    run-visits l calls late,
    rw (visits-of_key dash (step l.max_requests l.window) l.max_keys back l.logs calls k h, new)
        (sliding_bound l.max_requests l.window a from (of_key k calls) o),
  )

  -- Earlier than one window after the first instant, every call panics.
  try_acquire_panic :
      (l : SlidingWindowLog dash) (key : Text) (now : ℕ)
      → now < l.window
      → (try_acquire dash l key now ≡ panic) × (remaining dash l key now ≡ panic)
  unfolding try_acquire remaining clean_and_count
  try_acquire_panic l key now h = ground arith

  -- `remaining` writes the entry that it reads: on a key that the limiter does not know it makes
  -- the map one entry longer, whatever the cap, and evicts nothing.
  len-remaining :
      (l : SlidingWindowLog dash) (key : Text) (now : ℕ)
      → l.window ≤ now
      → dash.get l.logs key ≡ none
      → (l' : SlidingWindowLog dash) × (remaining dash l key now ≡ ok (l', l.max_requests))
        × (dash.len l'.logs ≡ suc (dash.len l.logs))
  unfolding remaining clean_and_count prune
  len-remaining l key now late new = (
    record l { logs = dash.insert l.logs key [] },
    ground arith,
    ground (arith, dash.len-insert l.logs key []),
  )
