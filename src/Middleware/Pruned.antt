-- ===== src/Middleware/Pruned.antt =====
-- src/middleware.rs and src/lib.rs: histories of requests to a middleware whose limiter's prune task
-- cleans the store up in between, against the calls of the store.
use armature_ratelimit.Algorithms.{Algorithm}
use armature_ratelimit.Extractor.{Host, KeyExtractor}
use armature_ratelimit.Float.{Float}
use armature_ratelimit.Limiter.Replies.{ask}
use armature_ratelimit.Middleware.Histories.{
  Visit, Weaker, lets_in, limited_by, cons_keyed, limited_visit, other_visit,
}
use armature_ratelimit.Middleware.{RateLimitMiddleware, check}
use armature_ratelimit.Outcome.{is_admitted}
use armature_ratelimit.Prelude.{
  ◌≡◌, refl, Bool, false, Option, none, some, List, [], ◌∷◌, Text, Option-cases, inl, inr,
}
use armature_ratelimit.Stores.Calls.{StoreCall, asks, cleans}
use armature_ratelimit.Stores.{RateLimitStore, Clock}

-- A request, or a cleanup by the prune task.
pub data Step : Type 0 where
  visited : Visit → Step
  pruned : Clock → Step

module _ (fl : Float) (store : RateLimitStore fl) where
  -- The calls of the store alone, with the decisions of the checks.
  unfoldable pub asked_pruned :
      Algorithm fl → store.State → List StoreCall → List (Text × (Clock × Bool))
  asked_pruned algorithm s [] = []
  asked_pruned algorithm s (asks key now ∷ calls) =
      let out = ask fl store algorithm s now key in
      (key, (now, is_admitted out.1)) ∷ asked_pruned algorithm out.0 calls
  asked_pruned algorithm s (cleans now ∷ calls) =
      asked_pruned algorithm (store.cleanup s now).0 calls

  -- The middleware after a cleanup of its limiter's store.
  abbrev pub after_cleanup : RateLimitMiddleware fl store → Clock → RateLimitMiddleware fl store
  after_cleanup m now = record m {
    limiter = record m.limiter { state = (store.cleanup m.limiter.state now).0 };
  }

module _ (fl : Float) (store : RateLimitStore fl) (host : Host) where
  abbrev cons_asked : Option Text → Clock → List StoreCall → List StoreCall
  cons_asked none now calls = calls
  cons_asked (some key) now calls = asks key now ∷ calls

  -- The calls of the store: the limited requests, and the cleanups.
  abbrev pub store_calls : KeyExtractor → List Text → List Step → List StoreCall
  store_calls extractor bypass [] = []
  store_calls extractor bypass (visited v ∷ steps) =
      cons_asked (limited_by fl store host extractor bypass v.info) v.asked
        (store_calls extractor bypass steps)
  store_calls extractor bypass (pruned now ∷ steps) =
      cleans now ∷ store_calls extractor bypass steps

  -- The limited requests, and whether the middleware lets them in.
  pub served_pruned : RateLimitMiddleware fl store → List Step → List (Text × (Clock × Bool))
  served_pruned m [] = []
  served_pruned m (visited v ∷ steps) =
      let out = check fl store host m v.asked v.answered v.info in
      cons_keyed fl store host (limited_by fl store host m.key_extractor m.bypass_keys v.info)
        (v.asked, lets_in out.1) (served_pruned out.0 steps)
  served_pruned m (pruned now ∷ steps) = served_pruned (after_cleanup fl store m now) steps

  -- While errors deny, a middleware lets in no limited request that its store does not admit.
  pub served_pruned-Weaker :
      (m : RateLimitMiddleware fl store) (steps : List Step)
      → m.skip_on_error ≡ false
      → Weaker (served_pruned m steps) (
          asked_pruned fl store m.limiter.algorithm m.limiter.state
            (store_calls m.key_extractor m.bypass_keys steps))
  unfolding served_pruned asked_pruned
  served_pruned-Weaker m [] strict = tt
  served_pruned-Weaker m (visited v ∷ steps) strict =
      elim (Option-cases (limited_by fl store host m.key_extractor m.bypass_keys v.info)) [
        | inl e ↦
            let (n, same) = other_visit fl store host m v e in
            rw (e, same) (served_pruned-Weaker (record m { unkeyed_allow_count = n }) steps strict)
        | inr (key, e) ↦
            let (same, admitted) = limited_visit fl store host m v key strict e in
            let s = (ask fl store m.limiter.algorithm m.limiter.state v.asked key).0 in
            rw (e, same)
              (
                refl,
                refl,
                admitted,
                served_pruned-Weaker (record m { limiter = record m.limiter { state = s } }) steps
                    strict,
              )
      ]
  served_pruned-Weaker m (pruned now ∷ steps) strict =
      served_pruned-Weaker (after_cleanup fl store m now) steps strict
