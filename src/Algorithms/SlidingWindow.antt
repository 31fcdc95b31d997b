-- ===== src/Algorithms/SlidingWindow.antt =====
-- src/algorithms/sliding_window.rs. An `Instant` is the number of nanoseconds since the earliest
-- one that the platform can represent, so that `now - window` panics where it would be earlier.
pub mod Log
pub mod Limits
use armature_ratelimit.Algorithms.{make_room}
use armature_ratelimit.DashMap.{DashMap}
use armature_ratelimit.Outcome.{Outcome, ok, panic, ◌>>=◌, assert}
use armature_ratelimit.Prelude.{
  ℕ, ◌+◌, ◌-◌, max, Bool, true, false, Option, none, some, List, [], ◌∷◌, ◌++◌, Text, ltb, leb,
  if◌then◌else◌, unwrap_or, length, back,
}

abbrev pub default_max_keys : ℕ
default_max_keys = 100_000

-- Oldest request first.
abbrev pub Log : Type 0
Log = List ℕ

pub record SlidingWindowLog (dash : DashMap) : Type 0 where
  pub max_requests : ℕ
  pub window : ℕ
  pub logs : dash.Map Log
  pub max_keys : ℕ

-- `now - window` on an `Instant`.
abbrev pub cutoff_at : ℕ → ℕ → Outcome ℕ
cutoff_at now window = if ltb now window then panic else ok (now - window)

-- `while let Some(front) = log.front() { … }`
unfoldable pub prune : ℕ → Log → Log
prune cutoff [] = []
prune cutoff (front ∷ log) = if ltb front cutoff then prune cutoff log else front ∷ log

-- What `try_acquire` does with the pruned log of its key.
unfoldable pub admit : ℕ → ℕ → Log → Log × (Bool × ℕ)
admit max_requests now log =
    if ltb (length log) max_requests
    then (log ++ now ∷ [], (true, max_requests - length log - 1))
    else (log, (false, 0))

abbrev pub step : ℕ → ℕ → Option Log → ℕ → Log × (Bool × ℕ)
step max_requests window entry now =
    admit max_requests now (prune (now - window) (unwrap_or entry []))

module _ (dash : DashMap) where
  unfoldable pub new : ℕ → ℕ → Outcome (SlidingWindowLog dash)
  new max_requests window = do
    _ ← assert (ltb 0 max_requests)
    _ ← assert (ltb 0 window)
    ok (record {
      max_requests = max_requests;
      window = window;
      logs = dash.empty;
      max_keys = default_max_keys;
    })

  abbrev pub with_max_keys : SlidingWindowLog dash → ℕ → SlidingWindowLog dash
  with_max_keys l max_keys = record l { max_keys = max max_keys 1 }

  pub clean_and_count : SlidingWindowLog dash → Text → ℕ → Outcome (SlidingWindowLog dash × ℕ)
  clean_and_count l key now = do
    cutoff ← cutoff_at now l.window
    let log = prune cutoff (unwrap_or (dash.get l.logs key) [])
    ok (record l { logs = dash.insert l.logs key log }, length log)

  unfoldable pub try_acquire :
      SlidingWindowLog dash → Text → ℕ → Outcome (SlidingWindowLog dash × (Bool × ℕ))
  try_acquire l key now = do
    cutoff ← cutoff_at now l.window
    let room = make_room dash l.logs l.max_keys back key
    let out = admit l.max_requests now (prune cutoff (unwrap_or (dash.get room key) []))
    ok (record l { logs = dash.insert room key out.0 }, out.1)

  abbrev pub check : SlidingWindowLog dash → Text → ℕ → Outcome (SlidingWindowLog dash × (Bool × ℕ))
  check = try_acquire

  unfoldable pub reset : SlidingWindowLog dash → Text → SlidingWindowLog dash
  reset l key = record l { logs = dash.remove l.logs key }

  unfoldable pub remaining : SlidingWindowLog dash → Text → ℕ → Outcome (SlidingWindowLog dash × ℕ)
  remaining l key now = do (l', count) ← clean_and_count l key now; ok (l', l.max_requests - count)
