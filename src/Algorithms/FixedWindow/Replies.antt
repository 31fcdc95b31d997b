-- ===== src/Algorithms/FixedWindow/Replies.antt =====
-- src/algorithms/fixed_window.rs: what a call replies, against what `remaining` and
-- `time_until_reset` report at the same instant.
use armature_ratelimit.Algorithms.Eviction.{get-make_room_self, get-make_room}
use armature_ratelimit.Algorithms.FixedWindow.{
  FixedWindow, last_active, roll, hit, step, try_acquire, reset, remaining, time_until_reset,
}
use armature_ratelimit.Algorithms.{make_room}
use armature_ratelimit.DashMap.{DashMap}
use armature_ratelimit.Prelude.{
  ℕ, ◌+◌, ◌-◌, ◌≤◌, ◌<◌, ◌≡◌, ◌⊎◌, inl, inr, none, arith, Text, text_eq, text_eq_iff, Option-cases,
  ltb, true, false, if◌then◌else◌, All, to_list,
}

module _ (dash : DashMap) (l : FixedWindow dash) where
  -- With a positive window, a request is admitted exactly when `remaining` is not 0 at that
  -- instant, the reply is then one less, and `remaining` afterwards reports one less.
  try_acquire-remaining :
      (key : Text) (now : ℕ)
      → 0 < l.window
      → ((try_acquire dash l key now).1 ≡ (
          if ltb 0 (remaining dash l key now)
          then (true, remaining dash l key now - 1)
          else (false, 0)))
        × (remaining dash (try_acquire dash l key now).0 key now ≡ remaining dash l key now - 1)
  unfolding try_acquire remaining roll hit
  try_acquire-remaining key now pos =
      let room = make_room dash l.windows l.max_keys last_active key in
      let s' = (step l.max_requests l.window (dash.get room key) now).0 in
      ground (
        arith,
        get-make_room_self dash l.windows l.max_keys last_active key,
        dash.get-insert room key s' key,
        text_eq_iff key key,
      )

  -- A call on one key leaves the entry of another as it was, or evicts it whole.
  try_acquire_other :
      (key k : Text) (now : ℕ)
      → text_eq key k ≡ false
      → (dash.get (try_acquire dash l key now).0.windows k ≡ dash.get l.windows k)
        ⊎ (dash.get (try_acquire dash l key now).0.windows k ≡ none)
  unfolding try_acquire
  try_acquire_other key k now other =
      let room = make_room dash l.windows l.max_keys last_active key in
      let s' = (step l.max_requests l.window (dash.get room key) now).0 in
      elim (Option-cases (dash.get room k)) [
        | inl e ↦ inr (ground (arith, dash.get-insert room key s' k))
        | inr (s, e) ↦ inl (
            ground (
              arith,
              dash.get-insert room key s' k,
              get-make_room dash l.windows l.max_keys last_active key k s e,
            ))
      ]

  -- After a reset the whole limit is free, for that key and for no other.
  remaining-reset :
      (key k : Text) (now : ℕ)
      → remaining dash (reset dash l key) k now
        ≡ (if text_eq key k then l.max_requests else remaining dash l k now)
  unfolding remaining reset
  remaining-reset key k now = ground (arith, dash.get-remove l.windows key k)

  -- If the window is positive and the key's window did not start in the future, the whole limit
  -- is free again `time_until_reset` later, and that wait is positive and at most one window.
  time_until_reset_lem :
      (key : Text) (now : ℕ)
      → 0 < l.window
      → All (λ s. s.window_start ≤ now) (to_list (dash.get l.windows key))
      → (0 < time_until_reset dash l key now)
        × (time_until_reset dash l key now ≤ l.window)
        × (remaining dash l key (now + time_until_reset dash l key now) ≡ l.max_requests)
  unfolding time_until_reset remaining
  time_until_reset_lem key now pos past = elim (Option-cases (dash.get l.windows key)) [
    | inl e ↦ rw (e, time_until_reset, remaining) (ground arith)
    | inr (s, e) ↦
        let started : s.window_start ≤ now = (rw e at past).0 in
        rw (e, time_until_reset, remaining) (ground arith)
  ]
