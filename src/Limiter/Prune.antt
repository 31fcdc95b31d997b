-- ===== src/Limiter/Prune.antt =====
-- src/lib.rs: the task that prunes the store of a limiter, between the checks of requests.
use armature_ratelimit.Algorithms.{Algorithm, token_bucket, sliding_window_log, fixed_window}
use armature_ratelimit.DashMap.{DashMap}
use armature_ratelimit.Float.{Float}
use armature_ratelimit.Limiter.{RateLimiter, check}
use armature_ratelimit.Prelude.{
  ℕ, ◌≡◌, refl, ap, sym, subst, ◌∙◌, Bool, true, false, some, List, [], ◌∷◌, Text, arith,
  if◌then◌else◌,
}
use armature_ratelimit.Stores.Memory.Cleanup.{AllWithin, cleanup_capped}
use armature_ratelimit.Stores.Memory.Kept.{
  cleanup-max_keys, token_bucket_check-max_keys, sliding_window_check-max_keys,
  fixed_window_check-max_keys,
}
use armature_ratelimit.Stores.Memory.{MemoryStore, cleanup}
use armature_ratelimit.Limiter.Replies.{ask, check-state}
use armature_ratelimit.Stores.MemoryStore.{memory_store}
use armature_ratelimit.Stores.{RateLimitStore, Clock}

-- What happens to the loop and to the store that it shares with the limiter: a tick of its
-- interval, the notice to shut down, and a request.
pub data Event : Type 0 where
  ticked : Clock → Event
  notified : Event
  asked : (asked answered : Clock) (key : Text) → Event

-- Before `armed` the loop has not yet consumed the tick that completes at once.
pub record PruneTask (fl : Float) (store : RateLimitStore fl) : Type 0 where
  pub limiter : RateLimiter fl store
  pub armed : Bool
  pub running : Bool

module _ (fl : Float) (store : RateLimitStore fl) where
  unfoldable pub spawn : RateLimiter fl store → PruneTask fl store
  spawn l = record { limiter = l; armed = false; running = true }

  -- An error of `cleanup` is only logged.
  unfoldable pub tick : PruneTask fl store → Clock → PruneTask fl store
  tick t now =
      if t.armed
      then record t { limiter = record t.limiter { state = (store.cleanup t.limiter.state now).0 } }
      else record t { armed = true }

  unfoldable pub on_event : PruneTask fl store → Event → PruneTask fl store
  unfolding tick
  on_event t (ticked now) = if t.running then tick t now else t
  on_event t notified = record t { running = false }
  on_event t (asked asked_at answered_at key) = record t {
    limiter = (check fl store t.limiter asked_at answered_at key).0;
  }

  unfoldable pub on_events : PruneTask fl store → List Event → PruneTask fl store
  unfolding on_event
  on_events t [] = t
  on_events t (e ∷ es) = on_events (on_event t e) es

module _ (dash : DashMap) (fl : Float) where
  ask-max_keys :
      (a : Algorithm fl) (s : MemoryStore dash fl) (now : Clock) (key : Text)
      → (ask fl (memory_store dash fl) a s now key).0.max_keys ≡ s.max_keys
  ask-max_keys (token_bucket capacity rate) s now key =
      token_bucket_check-max_keys dash fl s now.instant key capacity rate
  ask-max_keys (sliding_window_log max_requests window) s now key =
      sliding_window_check-max_keys dash fl s now.instant key max_requests window
  ask-max_keys (fixed_window max_requests window) s now key =
      fixed_window_check-max_keys dash fl s now.instant key max_requests window

  check-max_keys :
      (l : RateLimiter fl (memory_store dash fl)) (a b : Clock) (key : Text)
      → (check fl (memory_store dash fl) l a b key).0.state.max_keys ≡ l.state.max_keys
  check-max_keys l a b key =
      ap (λ s. s.max_keys) (check-state fl (memory_store dash fl) l a b key)
      ∙ ask-max_keys l.algorithm l.state a key

  on_event-max_keys :
      (t : PruneTask fl (memory_store dash fl)) (e : Event)
      → (on_event fl (memory_store dash fl) t e).limiter.state.max_keys ≡ t.limiter.state.max_keys
  unfolding on_event tick
  on_event-max_keys t (ticked now) =
      ground (arith, cleanup-max_keys dash fl t.limiter.state now.instant)
  on_event-max_keys t notified = refl
  on_event-max_keys t (asked a b key) = check-max_keys t.limiter a b key

  on_events-max_keys :
      (t : PruneTask fl (memory_store dash fl)) (es : List Event)
      → (on_events fl (memory_store dash fl) t es).limiter.state.max_keys ≡ t.limiter.state.max_keys
  unfolding on_events
  on_events-max_keys t [] = refl
  on_events-max_keys t (e ∷ es) =
      on_events-max_keys (on_event fl (memory_store dash fl) t e) es ∙ on_event-max_keys t e

  tick-state :
      (t : PruneTask fl (memory_store dash fl)) (now : Clock)
      → t.armed ≡ true
      → t.running ≡ true
      → (on_event fl (memory_store dash fl) t (ticked now)).limiter.state
        ≡ (cleanup dash fl t.limiter.state now.instant).0
  unfolding on_event tick
  tick-state t now a r = ground arith

  -- Over the in-memory store with a cap on keys, after any ticks, requests and notices since
  -- the prune task was spawned, if the task still runs and has consumed its first tick, the
  -- next tick leaves no map of the store longer than the cap.
  pub on_events-AllWithin :
      (l : RateLimiter fl (memory_store dash fl)) (es : List Event) (now : Clock) (n : ℕ)
      → l.state.max_keys ≡ some n
      → (on_events fl (memory_store dash fl) (spawn fl (memory_store dash fl) l) es).armed ≡ true
      → (on_events fl (memory_store dash fl) (spawn fl (memory_store dash fl) l) es).running ≡ true
      → AllWithin
          (on_event fl
            (memory_store dash fl)
            (on_events fl (memory_store dash fl) (spawn fl (memory_store dash fl) l) es)
            (ticked now)).limiter.state
          n
  unfolding on_event tick spawn
  on_events-AllWithin l es now n cap armed running =
      let t = on_events fl (memory_store dash fl) (spawn fl (memory_store dash fl) l) es in
      subst (λ (s : MemoryStore dash fl). AllWithin s n) (sym (tick-state t now armed running))
        (cleanup_capped dash fl t.limiter.state now.instant n
          (on_events-max_keys (spawn fl (memory_store dash fl) l) es ∙ cap))
