-- ===== src/Middleware/Limits.antt =====
-- src/middleware.rs, src/lib.rs and src/stores: how many requests of a client a middleware lets
-- in, while the prune task of its limiter cleans the store up.
use armature_ratelimit.Algorithms.{Algorithm, sliding_window_log, fixed_window}
use armature_ratelimit.Algorithms.FixedWindow.Limits as FixedLimits
use armature_ratelimit.Algorithms.Keyed.{of_key}
use armature_ratelimit.Algorithms.SlidingWindow.Log as SlidingLog
use armature_ratelimit.DashMap.{DashMap}
use armature_ratelimit.Extractor.{Host}
use armature_ratelimit.Float.{Float}
use armature_ratelimit.Middleware.{RateLimitMiddleware}
use armature_ratelimit.Middleware.Histories.{Weaker}
use armature_ratelimit.Middleware.Pruned.{
  Step, store_calls, asked_pruned, served_pruned, served_pruned-Weaker,
}
use armature_ratelimit.Outcome.{is_admitted}
use armature_ratelimit.Prelude.{
  leb, ltb, ◌+◌, ℕ, suc, ◌*◌, ◌≤◌, ◌<◌, ◌≡◌, refl, ap, Bool, true, false, ◌&&◌, none, List, [], ◌∷◌,
  map, Text, text_eq, arith, count_if, All, to_list, Ascending, subst, if◌then◌else◌,
}
use armature_ratelimit.Stores.Calls.{StoreCall, asks, cleans, checks_of, instants_of}
use armature_ratelimit.Stores.Memory.Pruned.{pruned_run, Roomy, fixed_check, fixed_pruned_bound}
use armature_ratelimit.Stores.Memory.PrunedLogs.{sliding_check, sliding_pruned_bound}
use armature_ratelimit.Stores.Memory.{MemoryStore, cleanup}
use armature_ratelimit.Stores.MemoryStore.{memory_store}
use armature_ratelimit.Stores.{Clock}

-- A list with the instants of its clocks.
abbrev pub by_instant : List (Text × (Clock × Bool)) → List (Text × (ℕ × Bool))
by_instant = map (λ d. (d.0, (d.1.0.instant, d.1.1)))

Weaker-by_instant :
    (ds es : List (Text × (Clock × Bool))) → Weaker ds es → Weaker (by_instant ds) (by_instant es)
Weaker-by_instant [] [] w = tt
Weaker-by_instant [] (e ∷ es) w = w
Weaker-by_instant (d ∷ ds) [] w = w
Weaker-by_instant (d ∷ ds) (e ∷ es) w =
    (w.0, ap (λ c. c.instant) w.1, w.2, Weaker-by_instant ds es w.3)

one_more :
    (b c : Bool) (p : Bool) (n m : ℕ)
    → (b ≡ true → c ≡ true)
    → n ≤ m
    → (if p && b then suc n else n) ≤ (if p && c then suc m else m)
one_more b c p n m imp le = ground (arith, imp)

module _ {T : Type 0} where
  -- Fewer are admitted of the same requests.
  pub Weaker-count :
      (p : Text → T → Bool) (ds es : List (Text × (T × Bool)))
      → Weaker ds es
      → count_if (λ d. p d.0 d.1.0 && d.1.1) ds ≤ count_if (λ d. p d.0 d.1.0 && d.1.1) es
  Weaker-count p [] [] w = omega arith
  Weaker-count p [] (e ∷ es) w = absurd w
  Weaker-count p (d ∷ ds) [] w = absurd w
  Weaker-count p (d ∷ ds) (e ∷ es) w =
      rw (w.0, w.1) (one_more d.1.1 e.1.1 (p e.0 e.1.0) _ _ w.2 (Weaker-count p ds es w.3))

  count_if-of_key :
      (k : Text) (p : T → Bool) (l : List (Text × (T × Bool)))
      → count_if (λ d. d.1 && p d.0) (of_key k l)
        ≡ count_if (λ d. (text_eq d.0 k && p d.1.0) && d.1.1) l
  count_if-of_key k p [] = refl
  count_if-of_key k p (d ∷ l) = ground (arith, count_if-of_key k p l)

  Weaker-count_of_key :
      (k : Text) (p : T → Bool) (ds es : List (Text × (T × Bool)))
      → Weaker ds es
      → count_if (λ d. d.1 && p d.0) (of_key k ds) ≤ count_if (λ d. d.1 && p d.0) (of_key k es)
  Weaker-count_of_key k p ds es w = omega (
    arith,
    count_if-of_key k p ds,
    count_if-of_key k p es,
    Weaker-count (λ j t. text_eq j k && p t) ds es w,
  )

module _ (dash : DashMap) (fl : Float) (max_requests window : ℕ) where
  asked_pruned-fixed :
      (s : MemoryStore dash fl) (calls : List StoreCall)
      → by_instant
          (asked_pruned fl (memory_store dash fl) (fixed_window max_requests window) s calls)
        ≡ pruned_run dash fl (fixed_check dash fl max_requests window) s calls
  unfolding asked_pruned pruned_run
  asked_pruned-fixed s [] = refl
  asked_pruned-fixed s (asks key now ∷ calls) =
      let out = fixed_check dash fl max_requests window s now.instant key in
      ap (λ l. (key, (now.instant, is_admitted out.1)) ∷ l) (asked_pruned-fixed out.0 calls)
  asked_pruned-fixed s (cleans now ∷ calls) =
      asked_pruned-fixed (cleanup dash fl s now.instant).0 calls

  asked_pruned-sliding :
      (s : MemoryStore dash fl) (calls : List StoreCall)
      → by_instant
          (asked_pruned fl (memory_store dash fl) (sliding_window_log max_requests window) s calls)
        ≡ pruned_run dash fl (sliding_check dash fl max_requests window) s calls
  unfolding asked_pruned pruned_run
  asked_pruned-sliding s [] = refl
  asked_pruned-sliding s (asks key now ∷ calls) =
      let out = sliding_check dash fl max_requests window s now.instant key in
      ap (λ l. (key, (now.instant, is_admitted out.1)) ∷ l) (asked_pruned-sliding out.0 calls)
  asked_pruned-sliding s (cleans now ∷ calls) =
      asked_pruned-sliding (cleanup dash fl s now.instant).0 calls

module _ (dash : DashMap) (fl : Float) (host : Host) where
  -- The calls of the store in a history of a middleware.
  abbrev pub calls_in : RateLimitMiddleware fl (memory_store dash fl) → List Step → List StoreCall
  calls_in m steps = store_calls fl (memory_store dash fl) host m.key_extractor m.bypass_keys steps

  Weaker-algorithm :
      (m : RateLimitMiddleware fl (memory_store dash fl)) (steps : List Step) (g : Algorithm fl)
      → m.skip_on_error ≡ false
      → m.limiter.algorithm ≡ g
      → Weaker
          (by_instant (served_pruned fl (memory_store dash fl) host m steps))
          (by_instant (asked_pruned fl (memory_store dash fl) g m.limiter.state (calls_in m steps)))
  Weaker-algorithm m steps g strict algorithm = Weaker-by_instant _ _ (
      subst
        (λ g.
          Weaker (served_pruned fl (memory_store dash fl) host m steps)
            (asked_pruned fl (memory_store dash fl) g m.limiter.state (calls_in m steps)))
        algorithm (served_pruned-Weaker fl (memory_store dash fl) host m steps strict))

  -- Over the in-memory store with a fixed window limit and `skip_on_error` off, a client outside
  -- the bypass list whose stored count is within the limit gets at most twice the limit through
  -- the middleware in any span of one window's length, wherever the span starts, whatever other
  -- clients ask for and whatever the policies for other requests, and although the prune task
  -- cleans the store up in between, if the window is no longer than the store's `idle_ttl`, the
  -- client's requests and the cleanups are in order of time, every cleanup finds the store within
  -- its cap on keys, and nothing else changes the store.
  pub fixed_served_bound :
      (m : RateLimitMiddleware fl (memory_store dash fl)) (steps : List Step) (k : Text)
      (max_requests window a from : ℕ)
      → m.skip_on_error ≡ false
      → m.limiter.algorithm ≡ fixed_window max_requests window
      → All (λ e. e.count ≤ max_requests) (to_list (dash.get m.limiter.state.fixed_windows k))
      → window ≤ m.limiter.state.idle_ttl
      → Ascending from (instants_of k (calls_in m steps))
      → Roomy dash fl (fixed_check dash fl max_requests window) m.limiter.state (calls_in m steps)
      → FixedLimits.admitted_in a window
          (of_key k (by_instant (served_pruned fl (memory_store dash fl) host m steps)))
        ≤ 2 * max_requests
  fixed_served_bound m steps k max window a from strict algorithm within long order room =
      let calls = calls_in m steps in
      let weaker = Weaker-algorithm m steps (fixed_window max window) strict algorithm in
      omega (
        arith,
        Weaker-count_of_key k (λ t. leb a t && ltb t (a + window)) _ _
            (subst (Weaker _) (asked_pruned-fixed dash fl max window m.limiter.state calls) weaker),
        fixed_pruned_bound dash fl max window m.limiter.state calls k a from within long order room,
      )

  -- Over the in-memory store with a sliding window limit and `skip_on_error` off, a client outside
  -- the bypass list that the store does not know never gets more than the limit through the
  -- middleware in a closed span of one window's length, whatever other clients ask for and
  -- whatever the policies for other requests, and although the prune task cleans the store up in
  -- between, if the window is shorter than the store's `idle_ttl`, the client's requests and the
  -- cleanups are in order of time, no limited request is earlier than one window after the first
  -- instant, every cleanup finds the store within its cap on keys, and nothing else changes the
  -- store.
  pub sliding_served_bound :
      (m : RateLimitMiddleware fl (memory_store dash fl)) (steps : List Step) (k : Text)
      (max_requests window a from : ℕ)
      → m.skip_on_error ≡ false
      → m.limiter.algorithm ≡ sliding_window_log max_requests window
      → dash.get m.limiter.state.sliding_logs k ≡ none
      → window < m.limiter.state.idle_ttl
      → All (λ c. window ≤ c.1) (checks_of (calls_in m steps))
      → Ascending from (instants_of k (calls_in m steps))
      → Roomy dash fl (sliding_check dash fl max_requests window) m.limiter.state (calls_in m steps)
      → SlidingLog.admitted_in a window
          (of_key k (by_instant (served_pruned fl (memory_store dash fl) host m steps)))
        ≤ max_requests
  sliding_served_bound m steps k max window a from strict algorithm new long late order room =
      let calls = calls_in m steps in
      let weaker = Weaker-algorithm m steps (sliding_window_log max window) strict algorithm in
      omega (
        arith,
        Weaker-count_of_key k (SlidingLog.within a window) _ _ (
            subst (Weaker _) (asked_pruned-sliding dash fl max window m.limiter.state calls)
              weaker),
        sliding_pruned_bound dash fl max window m.limiter.state calls k a from new long late order
            room,
      )
