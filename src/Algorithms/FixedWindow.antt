-- ===== src/Algorithms/FixedWindow.antt =====
-- src/algorithms/fixed_window.rs. An `Instant` and a `Duration` are numbers of nanoseconds, and
-- `duration_since` is 0 for a later instant, as the truncated subtraction is.
pub mod Limits
pub mod Bounds
pub mod Replies
use armature_ratelimit.Algorithms.{make_room}
use armature_ratelimit.DashMap.{DashMap}
use armature_ratelimit.Outcome.{Outcome, ok, panic, ◌>>=◌, assert}
use armature_ratelimit.Prelude.{
  List, [], ◌∷◌, ℕ, ◌+◌, ◌-◌, max, Bool, true, false, Option, none, some, Text, ltb, leb,
  if◌then◌else◌, unwrap_or,
}

abbrev pub default_max_keys : ℕ
default_max_keys = 100_000

pub record WindowState : Type 0 where
  pub count : ℕ
  pub window_start : ℕ

pub record FixedWindow (dash : DashMap) : Type 0 where
  pub max_requests : ℕ
  pub window : ℕ
  pub windows : dash.Map WindowState
  pub max_keys : ℕ

abbrev pub last_active : WindowState → Option ℕ
last_active s = some s.window_start

abbrev pub fresh : ℕ → WindowState
fresh now = record { count = 0; window_start = now }

-- A window that is over gives way to one that starts now.
unfoldable pub roll : ℕ → ℕ → WindowState → WindowState
roll window now s =
    if leb window (now - s.window_start) then record { count = 0; window_start = now } else s

unfoldable pub hit : ℕ → WindowState → WindowState × (Bool × ℕ)
hit max_requests s =
    if ltb s.count max_requests
    then (record s { count = s.count + 1 }, (true, max_requests - (s.count + 1)))
    else (s, (false, 0))

-- What `try_acquire` does with the entry of its key.
abbrev pub step : ℕ → ℕ → Option WindowState → ℕ → WindowState × (Bool × ℕ)
step max_requests window entry now =
    hit max_requests (roll window now (unwrap_or entry (fresh now)))

module _ (dash : DashMap) where
  unfoldable pub new : ℕ → ℕ → Outcome (FixedWindow dash)
  new max_requests window = do
    _ ← assert (ltb 0 max_requests)
    _ ← assert (ltb 0 window)
    ok (record {
      max_requests = max_requests;
      window = window;
      windows = dash.empty;
      max_keys = default_max_keys;
    })

  abbrev pub with_max_keys : FixedWindow dash → ℕ → FixedWindow dash
  with_max_keys l max_keys = record l { max_keys = max max_keys 1 }

  unfoldable pub try_acquire : FixedWindow dash → Text → ℕ → FixedWindow dash × (Bool × ℕ)
  try_acquire l key now =
      let room = make_room dash l.windows l.max_keys last_active key in
      let (s, reply) = step l.max_requests l.window (dash.get room key) now in
      (record l { windows = dash.insert room key s }, reply)

  pub time_until_reset : FixedWindow dash → Text → ℕ → ℕ
  time_until_reset l key now = elim (dash.get l.windows key) [
    | none ↦ l.window
    | some s ↦
        if ltb (now - s.window_start) l.window then l.window - (now - s.window_start) else l.window
  ]

  abbrev pub check : FixedWindow dash → Text → ℕ → FixedWindow dash × (Bool × ℕ)
  check = try_acquire

  unfoldable pub reset : FixedWindow dash → Text → FixedWindow dash
  reset l key = record l { windows = dash.remove l.windows key }

  unfoldable pub remaining : FixedWindow dash → Text → ℕ → ℕ
  remaining l key now = elim (dash.get l.windows key) [
    | none ↦ l.max_requests
    | some s ↦
        if leb l.window (now - s.window_start) then l.max_requests else l.max_requests - s.count
  ]

  -- A history of calls, with the decision of each.
  unfoldable pub run : FixedWindow dash → List (Text × ℕ) → List (Text × (ℕ × Bool))
  run l [] = []
  run l ((key, now) ∷ calls) =
      (key, (now, (try_acquire l key now).1.0)) ∷ run (try_acquire l key now).0 calls
