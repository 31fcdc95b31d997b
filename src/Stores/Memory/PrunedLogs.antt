-- ===== src/Stores/Memory/PrunedLogs.antt =====
-- src/stores/memory.rs: histories of sliding window checks with cleanups in between.
use armature_ratelimit.Algorithms.Keyed.{of_key, trace}
use armature_ratelimit.Algorithms.SlidingWindow as Sliding
use armature_ratelimit.Algorithms.SlidingWindow.Log as SlidingLog
use armature_ratelimit.Algorithms.SlidingWindow.{Log, prune, admit}
use armature_ratelimit.DashMap.Keys.{keep_if}
use armature_ratelimit.DashMap.{DashMap}
use armature_ratelimit.Float.{Float}
use armature_ratelimit.Outcome.{Outcome}
use armature_ratelimit.Prelude.{
  ℕ, ◌-◌, ◌≤◌, ◌<◌, ◌≡◌, ◌⊎◌, refl, sym, subst, ap, ◌∙◌, Bool, false, not, Option, none, some, List,
  [], ◌∷◌, ◌++◌, All, arith, Text, text_eq, text_eq_iff, leb, ltb, length, back, to_list,
  map_option, unwrap_or, Ascending, Option-cases, Bool-cases, inl, inr,
}
use armature_ratelimit.Stores.Calls.{
  StoreCall, asks, cleans, checks_of, instants_of, checks_of-Ascending,
}
use armature_ratelimit.Stores.Memory.Cleanup.{cleanup_within}
use armature_ratelimit.Stores.Memory.Histories.{logged}
use armature_ratelimit.Stores.Memory.Kept.{cleanup-idle_ttl}
use armature_ratelimit.Stores.Memory.Pruned.{pruned_run, Roomy}
use armature_ratelimit.Stores.Memory.Transparency.{prune_idle}
use armature_ratelimit.Stores.Memory.{
  MemoryStore, SlidingWindowState, sliding_default, log_request, sliding_window_check, cleanup,
}

-- No request of a log is later than `time`, nor than the log's last one.
abbrev IsTimely : ℕ → Log → Type 0
IsTimely time log =
    All (λ t. t ≤ time) log × All (λ last. All (λ t. t ≤ last) log) (to_list (back log))

All_later : (a b : ℕ) (log : Log) → a ≤ b → All (λ t. t ≤ a) log → All (λ t. t ≤ b) log
All_later a b [] le h = tt
All_later a b (t ∷ log) le h = (omega (arith, h.0), All_later a b log le h.1)

prune-All_kept : (c a : ℕ) (log : Log) → All (λ t. t ≤ a) log → All (λ t. t ≤ a) (prune c log)
unfolding prune
prune-All_kept c a [] h = tt
prune-All_kept c a (t ∷ log) h = elim (Bool-cases (ltb t c)) [
  | inl old ↦ rw old (prune-All_kept c a log h.1)
  | inr new ↦ rw new h
]

prune-back : (c : ℕ) (log : Log) → (prune c log ≡ []) ⊎ (back (prune c log) ≡ back log)
unfolding prune
prune-back c [] = inl refl
prune-back c (t ∷ []) = elim (Bool-cases (ltb t c)) [
  | inl old ↦ inl (rw old refl)
  | inr new ↦ inr (rw new refl)
]
prune-back c (t ∷ u ∷ log) = elim (Bool-cases (ltb t c)) [
  | inl old ↦ rw old (prune-back c (u ∷ log))
  | inr new ↦ inr (rw new refl)
]

last_kept :
    (c : ℕ) (log : Log) (o : Option ℕ)
    → All (λ last. All (λ t. t ≤ last) log) (to_list o)
    → All (λ last. All (λ t. t ≤ last) (prune c log)) (to_list o)
last_kept c log none h = tt
last_kept c log (some last) h = (prune-All_kept c last log h.0, tt)

prune-IsTimely : (c time : ℕ) (log : Log) → IsTimely time log → IsTimely time (prune c log)
prune-IsTimely c time log (le, last) = elim (prune-back c log) [
  | inl gone ↦ rw gone (tt, tt)
  | inr same ↦ (prune-All_kept c time log le, rw same (last_kept c log (back log) last))
]

back-snoc : (t : ℕ) (log : Log) → back (log ++ t ∷ []) ≡ some t
back-snoc t [] = refl
back-snoc t (u ∷ []) = refl
back-snoc t (u ∷ v ∷ log) = back-snoc t (v ∷ log)

All-snoc : (t : ℕ) (log : Log) → All (λ u. u ≤ t) log → All (λ u. u ≤ t) (log ++ t ∷ [])
All-snoc t [] h = (omega arith, tt)
All-snoc t (u ∷ log) h = (h.0, All-snoc t log h.1)

admit-IsTimely :
    (max_requests now : ℕ) (log : Log)
    → IsTimely now log
    → IsTimely now (admit max_requests now log).0
unfolding admit
admit-IsTimely max_requests now log timely = elim (Bool-cases (ltb (length log) max_requests)) [
  | inl room ↦
      rw (room, back-snoc now log) (All-snoc now log timely.0, (All-snoc now log timely.0, tt))
  | inr full ↦ rw full timely
]

-- The log of an entry, if there is one.
abbrev log_of : Option SlidingWindowState → Log
log_of o = (unwrap_or o sliding_default).log

log_request-IsTimely :
    (max_requests window time now : ℕ) (e : SlidingWindowState)
    → time ≤ now
    → IsTimely time e.log
    → IsTimely now (log_request max_requests window now e).0.log
unfolding log_request
log_request-IsTimely max_requests window time now e le timely =
    admit-IsTimely max_requests now (prune (now - window) e.log)
      (prune-IsTimely (now - window) now e.log (All_later time now e.log le timely.0, timely.1))

-- A log that a cleanup at this time keeps.
abbrev is_recent : ℕ → ℕ → SlidingWindowState → Bool
is_recent ttl at e = elim (back e.log) [ none ↦ false | some last ↦ not (leb ttl (at - last)) ]

module _ (dash : DashMap) (fl : Float) (max_requests window : ℕ) where
  abbrev pub sliding_check :
      MemoryStore dash fl → ℕ → Text → MemoryStore dash fl × Outcome (Bool × ℕ)
  sliding_check s now key = sliding_window_check dash fl s now key max_requests window

  -- An entry with cleanups until `time`, and without: the same, or one whose requests have all
  -- left the window.
  abbrev Matching : ℕ → Option SlidingWindowState → Option SlidingWindowState → Type 0
  Matching time o o' =
      (o ≡ o') ⊎ (o ≡ none) × ((now : ℕ) → time ≤ now → prune (now - window) (log_of o') ≡ [])

  Matching-log :
      (time now : ℕ) (o o' : Option SlidingWindowState)
      → time ≤ now
      → Matching time o o'
      → log_request max_requests window now (unwrap_or o sliding_default)
        ≡ log_request max_requests window now (unwrap_or o' sliding_default)
  unfolding log_request prune
  Matching-log time now o o' le (inl same) = rw same refl
  Matching-log time now o o' le (inr (gone, over)) = rw (gone, over now le) refl

  Matching-keep_if :
      (time at ttl : ℕ) (o o' : Option SlidingWindowState)
      → time ≤ at
      → window < ttl
      → IsTimely time (log_of o')
      → Matching time o o'
      → Matching at (keep_if (is_recent ttl at) o) o'
  Matching-keep_if time at ttl o o' le long timely (inl same) =
      let live = is_recent ttl at in
      elim (Option-cases o) [
        | inl e ↦ inl (ap (keep_if live) e ∙ sym e ∙ same)
        | inr (w, e) ↦ elim (Bool-cases (live w)) [
          | inl kept ↦ inl (ap (keep_if live) e ∙ rw kept refl ∙ sym e ∙ same)
          | inr idle ↦
              let is_w = sym same ∙ e in
              inr (
                ap (keep_if live) e ∙ rw idle refl,
                λ now later.
                    rw is_w
                      (prune_idle at now window ttl w.log long later (rw is_w at timely.1) idle),
              )
        ]
      ]
  Matching-keep_if time at ttl o o' le long timely (inr (gone, over)) =
      inr (rw gone refl, λ now later. over now (omega arith))

  log_request-step :
      (now : ℕ) (o : Option SlidingWindowState)
      → let out = log_request max_requests window now (unwrap_or o sliding_default) in
        let out' = Sliding.step max_requests window (map_option logged o) now in
        (out.0.log ≡ out'.0) × (out.1 ≡ out'.1)
  unfolding log_request
  log_request-step now none = (refl, refl)
  log_request-step now (some e) = (refl, refl)

  sliding_pruned-of_key :
      (k : Text) (s : MemoryStore dash fl) (calls : List StoreCall) (o : Option SlidingWindowState)
      (time : ℕ)
      → Matching time (dash.get s.sliding_logs k) o
      → IsTimely time (log_of o)
      → window < s.idle_ttl
      → All (λ c. window ≤ c.1) (checks_of calls)
      → Ascending time (instants_of k calls)
      → Roomy dash fl sliding_check s calls
      → of_key k (pruned_run dash fl sliding_check s calls)
        ≡ trace
            (Sliding.step max_requests window)
            (map_option logged o)
            (of_key k (checks_of calls))
  unfolding pruned_run trace sliding_window_check
  sliding_pruned-of_key k s [] o time m timely long late order room = refl
  sliding_pruned-of_key k s (asks key now ∷ calls) o time m timely long late order room =
      let entry = unwrap_or o sliding_default in
      let out = log_request max_requests window now.instant entry in
      let out' =
        log_request max_requests window now.instant
          (unwrap_or (dash.get s.sliding_logs key) sliding_default) in
      let s' : MemoryStore dash fl = record s {
        sliding_logs = dash.insert s.sliding_logs key out'.0;
      } in
      let in_time : ltb now.instant window ≡ false = ground (arith, late.0) in
      let room' : Roomy dash fl sliding_check s' calls = rw in_time at room in
      let got = dash.get-insert s.sliding_logs key out'.0 k in
      elim (Bool-cases (text_eq key k)) [
        | inl same ↦
            let key_k = (text_eq_iff key k).0 same in
            let o' = rw same at order in
            let equal : out' ≡ out =
              Matching-log time now.instant (dash.get s.sliding_logs key) o o'.0
                (subst (λ j. Matching time (dash.get s.sliding_logs j) o) (sym key_k) m) in
            let rest =
              sliding_pruned-of_key k s' calls (some out.0) now.instant
                (inl (got ∙ rw (same, equal) refl))
                (log_request-IsTimely max_requests window time now.instant entry o'.0 timely) long
                late.1 o'.1 room' in
            let (logs, answers) = log_request-step now.instant o in
            rw (in_time, same) (ground (arith, rest, equal, logs, answers))
        | inr other ↦
            rw (in_time, other)
              (sliding_pruned-of_key k s' calls o time
                (subst (λ w. Matching time w o) (sym (got ∙ rw other refl)) m) timely long late.1
                (rw other at order) room')
      ]
  sliding_pruned-of_key k s (cleans now ∷ calls) o time m timely long late order room =
      sliding_pruned-of_key k (cleanup dash fl s now.instant).0 calls o now.instant
        (subst (λ w. Matching now.instant w o)
          (sym (cleanup_within dash fl s now.instant k room.0).1)
          (Matching-keep_if time now.instant s.idle_ttl (dash.get s.sliding_logs k) o order.0 long
            timely m))
        (All_later time now.instant (log_of o) order.0 timely.0, timely.1)
        (subst (λ n. window < n) (sym (cleanup-idle_ttl dash fl s now.instant)) long) late order.1
        room.1

  pub sliding_pruned_bound :
      (s : MemoryStore dash fl) (calls : List StoreCall) (k : Text) (a from : ℕ)
      → dash.get s.sliding_logs k ≡ none
      → window < s.idle_ttl
      → All (λ c. window ≤ c.1) (checks_of calls)
      → Ascending from (instants_of k calls)
      → Roomy dash fl sliding_check s calls
      → SlidingLog.admitted_in a window (of_key k (pruned_run dash fl sliding_check s calls))
        ≤ max_requests
  sliding_pruned_bound s calls k a from new long late order room =
      rw (sliding_pruned-of_key k s calls none from (inl new) (tt, tt) long late order room) (
        SlidingLog.sliding_bound max_requests window a from (of_key k (checks_of calls))
          (checks_of-Ascending k from calls order))
