-- ===== src/Algorithms/FixedWindow/Bounds.antt =====
-- src/algorithms/fixed_window.rs: the invariant of the limiter.
use armature_ratelimit.Algorithms.Eviction.{len-insert-make_room, get-make_room}
use armature_ratelimit.Algorithms.FixedWindow.{
  WindowState, FixedWindow, last_active, roll, hit, step, new, try_acquire,
}
use armature_ratelimit.Algorithms.{make_room}
use armature_ratelimit.DashMap.{DashMap}
use armature_ratelimit.Outcome.{ok}
use armature_ratelimit.Prelude.{ℕ, ◌≤◌, ◌<◌, ◌≡◌, Option, none, some, arith, Text}

module _ (dash : DashMap) where
  -- The map keeps to the cap, and no window counts more than the limit.
  pub record IsValid (l : FixedWindow dash) : Type 0 where
    pub some_room : 0 < l.max_keys
    pub some_limit : 0 < l.max_requests
    pub some_window : 0 < l.window
    pub capped : dash.len l.windows ≤ l.max_keys
    pub counted :
        (k : Text) (s : WindowState) → dash.get l.windows k ≡ some s → s.count ≤ l.max_requests

  new-IsValid :
      (max_requests window : ℕ) {l : FixedWindow dash}
      → new dash max_requests window ≡ ok l
      → IsValid l
  unfolding new
  new-IsValid max_requests window {l} e = record {
    some_room = ground arith;
    some_limit = ground arith;
    some_window = ground arith;
    capped = ground (arith, dash.len-empty {V = WindowState});
    counted = λ k s h. ground (arith, dash.get-empty {V = WindowState} k);
  }

  step_count-le :
      (max_requests window now : ℕ) (entry : Option WindowState)
      → ((s : WindowState) → entry ≡ some s → s.count ≤ max_requests)
      → (step max_requests window entry now).0.count ≤ max_requests
  unfolding roll hit
  step_count-le max_requests window now none h = ground arith
  step_count-le max_requests window now (some s) h = ground (arith, h s)

  -- A call to a fixed window limiter whose map keeps to a positive cap and whose windows count
  -- at most the limit leaves such a limiter.
  pub try_acquire-IsValid :
      (l : FixedWindow dash) (key : Text) (now : ℕ)
      → IsValid l
      → IsValid (try_acquire dash l key now).0
  unfolding try_acquire
  try_acquire-IsValid l key now v =
      let room = make_room dash l.windows l.max_keys last_active key in
      let s' = (step l.max_requests l.window (dash.get room key) now).0 in
      record {
        some_room = v.some_room;
        some_limit = v.some_limit;
        some_window = v.some_window;
        capped =
            len-insert-make_room dash l.windows l.max_keys last_active key s' v.some_room v.capped;
        counted = λ k s h. ground (
          arith,
          dash.get-insert room key s' k,
          get-make_room dash l.windows l.max_keys last_active key k s,
          v.counted k s,
          step_count-le l.max_requests l.window now (dash.get room key) (λ t e.
              v.counted key t (get-make_room dash l.windows l.max_keys last_active key key t e)),
        );
      }
