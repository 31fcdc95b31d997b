-- ===== src/Stores/Memory/Pruned.antt =====
-- src/stores/memory.rs: histories of fixed window checks with cleanups in between.
use armature_ratelimit.Algorithms.FixedWindow as Fixed
use armature_ratelimit.Algorithms.FixedWindow.Limits as FixedLimits
use armature_ratelimit.Algorithms.Keyed.{of_key, trace}
use armature_ratelimit.DashMap.Keys.{keep_if}
use armature_ratelimit.DashMap.{DashMap}
use armature_ratelimit.Float.{Float}
use armature_ratelimit.Outcome.{Outcome, is_admitted}
use armature_ratelimit.Prelude.{
  ℕ, ◌-◌, ◌*◌, ◌≤◌, ◌≡◌, ◌⊎◌, refl, sym, subst, ap, ◌∙◌, Bool, not, Option, none, some, List, [],
  ◌∷◌, All, arith, Text, text_eq, text_eq_iff, leb, to_list, map_option, unwrap_or, Ascending,
  Option-cases, Bool-cases, inl, inr,
}
use armature_ratelimit.Stores.Calls.{
  StoreCall, asks, cleans, checks_of, instants_of, checks_of-Ascending,
}
use armature_ratelimit.Stores.Memory.Cleanup.{Within, cleanup_within}
use armature_ratelimit.Stores.Memory.Histories.{counted, count_request-step}
use armature_ratelimit.Stores.Memory.Kept.{cleanup-idle_ttl}
use armature_ratelimit.Stores.Memory.Transparency.{fresh_window, count_request_over}
use armature_ratelimit.Stores.Memory.{
  MemoryStore, FixedWindowState, count_request, fixed_window_check, cleanup,
}

module _ (dash : DashMap) (fl : Float)
    (check : MemoryStore dash fl → ℕ → Text → MemoryStore dash fl × Outcome (Bool × ℕ)) where
  -- The decisions of the checks.
  unfoldable pub pruned_run : MemoryStore dash fl → List StoreCall → List (Text × (ℕ × Bool))
  pruned_run s [] = []
  pruned_run s (asks key now ∷ calls) =
      let out = check s now.instant key in
      (key, (now.instant, is_admitted out.1)) ∷ pruned_run out.0 calls
  pruned_run s (cleans now ∷ calls) = pruned_run (cleanup dash fl s now.instant).0 calls

  -- Every cleanup finds the store within its cap.
  abbrev pub Roomy : MemoryStore dash fl → List StoreCall → Type 0
  Roomy s [] = Unit
  Roomy s (asks key now ∷ calls) = Roomy (check s now.instant key).0 calls
  Roomy s (cleans now ∷ calls) =
      Within dash fl s now.instant × Roomy (cleanup dash fl s now.instant).0 calls

module _ (dash : DashMap) (fl : Float) (max_requests window : ℕ) where
  abbrev pub fixed_check : MemoryStore dash fl → ℕ → Text → MemoryStore dash fl × Outcome (Bool × ℕ)
  fixed_check s now key = fixed_window_check dash fl s now key max_requests window

  -- An entry with cleanups until `time`, and without: the same, or a window that is over.
  abbrev Matching : ℕ → Option FixedWindowState → Option FixedWindowState → Type 0
  Matching time o o' =
      (o ≡ o')
      ⊎ (o ≡ none) × (e : FixedWindowState) × (o' ≡ some e) × (window ≤ time - e.window_start)

  Matching-count :
      (time now : ℕ) (o o' : Option FixedWindowState)
      → time ≤ now
      → Matching time o o'
      → count_request max_requests window now (unwrap_or o (fresh_window max_requests window now))
        ≡ count_request max_requests window now
            (unwrap_or o' (fresh_window max_requests window now))
  Matching-count time now o o' le (inl same) = rw same refl
  Matching-count time now o o' le (inr (gone, e, e', over)) =
      rw (gone, e') (sym (count_request_over max_requests window now e (omega arith)))

  Matching-keep_if :
      (time at ttl : ℕ) (o o' : Option FixedWindowState)
      → time ≤ at
      → window ≤ ttl
      → Matching time o o'
      → Matching at (keep_if (λ e. not (leb ttl (at - e.window_start))) o) o'
  Matching-keep_if time at ttl o o' le long (inl same) =
      let live = λ (e : FixedWindowState). not (leb ttl (at - e.window_start)) in
      elim (Option-cases o) [
        | inl e ↦ inl (ap (keep_if live) e ∙ sym e ∙ same)
        | inr (w, e) ↦ elim (Bool-cases (leb ttl (at - w.window_start))) [
          | inl idle ↦ inr (ap (keep_if live) e ∙ rw idle refl, w, sym same ∙ e, ground arith)
          | inr kept ↦ inl (ap (keep_if live) e ∙ rw kept refl ∙ sym e ∙ same)
        ]
      ]
  Matching-keep_if time at ttl o o' le long (inr (gone, e, e', over)) =
      inr (rw gone refl, e, e', omega arith)

  fixed_pruned-of_key :
      (k : Text) (s : MemoryStore dash fl) (calls : List StoreCall) (o : Option FixedWindowState)
      (time : ℕ)
      → Matching time (dash.get s.fixed_windows k) o
      → window ≤ s.idle_ttl
      → Ascending time (instants_of k calls)
      → Roomy dash fl fixed_check s calls
      → of_key k (pruned_run dash fl fixed_check s calls)
        ≡ trace (Fixed.step max_requests window) (map_option counted o) (of_key k (checks_of calls))
  unfolding pruned_run trace fixed_window_check
  fixed_pruned-of_key k s [] o time m long order room = refl
  fixed_pruned-of_key k s (asks key now ∷ calls) o time m long order room =
      let fresh = fresh_window max_requests window now.instant in
      let out = count_request max_requests window now.instant (unwrap_or o fresh) in
      let out' =
        count_request max_requests window now.instant
          (unwrap_or (dash.get s.fixed_windows key) fresh) in
      elim (Bool-cases (text_eq key k)) [
        | inl same ↦
            let key_k = (text_eq_iff key k).0 same in
            let o' = rw same at order in
            let equal : out' ≡ out =
              Matching-count time now.instant (dash.get s.fixed_windows key) o o'.0
                (subst (λ j. Matching time (dash.get s.fixed_windows j) o) (sym key_k) m) in
            let got = dash.get-insert s.fixed_windows key out'.0 k in
            let rest =
              fixed_pruned-of_key k (fixed_check s now.instant key).0 calls (some out.0) now.instant
                (inl (got ∙ rw (same, equal) refl)) long o'.1 room in
            let (counts, answers) = count_request-step dash fl max_requests window now.instant o in
            rw same (ground (arith, rest, equal, counts, answers))
        | inr other ↦ rw other (
            fixed_pruned-of_key k (fixed_check s now.instant key).0 calls o time
              (subst (λ w. Matching time w o)
                (sym (dash.get-insert s.fixed_windows key out'.0 k ∙ rw other refl)) m)
              long (rw other at order) room)
      ]
  fixed_pruned-of_key k s (cleans now ∷ calls) o time m long order room =
      fixed_pruned-of_key k (cleanup dash fl s now.instant).0 calls o now.instant
        (subst (λ w. Matching now.instant w o)
          (sym (cleanup_within dash fl s now.instant k room.0).2)
          (Matching-keep_if time now.instant s.idle_ttl (dash.get s.fixed_windows k) o order.0 long
            m))
        (subst (λ n. window ≤ n) (sym (cleanup-idle_ttl dash fl s now.instant)) long) order.1 room.1

  pub fixed_pruned_bound :
      (s : MemoryStore dash fl) (calls : List StoreCall) (k : Text) (a from : ℕ)
      → All (λ e. e.count ≤ max_requests) (to_list (dash.get s.fixed_windows k))
      → window ≤ s.idle_ttl
      → Ascending from (instants_of k calls)
      → Roomy dash fl fixed_check s calls
      → FixedLimits.admitted_in a window (of_key k (pruned_run dash fl fixed_check s calls))
        ≤ 2 * max_requests
  fixed_pruned_bound s calls k a from c long order room =
      rw
        (fixed_pruned-of_key k s calls (dash.get s.fixed_windows k) from (inl refl) long order room)
        (FixedLimits.entry_bound max_requests window a
          (map_option counted (dash.get s.fixed_windows k)) from (of_key k (checks_of calls))
          (elim (Option-cases (dash.get s.fixed_windows k)) [
            | inl e ↦ rw e tt
            | inr (w, e) ↦ rw e ((rw e at c).0, tt)
          ])
          (checks_of-Ascending k from calls order))
