-- ===== src/Middleware/Histories.antt =====
-- src/middleware.rs and src/lib.rs: histories of requests to a middleware, against the calls of its
-- store.
use armature_ratelimit.Algorithms.{Algorithm}
use armature_ratelimit.Extractor.{Host, RequestInfo, KeyExtractor, extract}
use armature_ratelimit.Float.{Float}
use armature_ratelimit.Limiter.{RateLimitCheckResult}
use armature_ratelimit.Limiter.Replies.{ask, answer, check-eq-ok, check-answer}
use armature_ratelimit.Middleware.Decisions.{check_unkeyed}
use armature_ratelimit.Middleware.{
  RateLimitMiddleware, RateLimitCheckResponse, is_allowed, respond, failed, settle, bypasses,
  check_key, check,
}
use armature_ratelimit.Outcome.{Outcome, ok, err, panic, ◌>>=◌, is_admitted}
use armature_ratelimit.Prelude.{
  ℕ, ◌≡◌, refl, ap, sym, subst, ◌∙◌, Bool, true, false, Option, none, some, List, [], ◌∷◌, Text,
  arith, Bool-cases, Option-cases, inl, inr, if◌then◌else◌,
}
use armature_ratelimit.Stores.{RateLimitStore, Clock}

-- A request with the clocks at which the store and the limiter read them.
pub record Visit : Type 0 where
  pub asked : Clock
  pub answered : Clock
  pub info : RequestInfo

abbrev pub lets_in : Outcome RateLimitCheckResponse → Bool
lets_in (ok response) = is_allowed response
lets_in (err e) = false
lets_in panic = false

-- The same requests, each admitted only if the other list admits it.
abbrev pub Weaker : {T : Type 0} → List (Text × (T × Bool)) → List (Text × (T × Bool)) → Type 0
Weaker [] [] = Unit
Weaker [] (e ∷ es) = ⊥
Weaker (d ∷ ds) [] = ⊥
Weaker (d ∷ ds) (e ∷ es) =
    (d.0 ≡ e.0) × (d.1.0 ≡ e.1.0) × (d.1.1 ≡ true → e.1.1 ≡ true) × Weaker ds es

some_not_none : {A : Type 0} {a : A} → some a ≡ none → ⊥
some_not_none e = cc

some-inj : {A : Type 0} {a b : A} → some a ≡ some b → a ≡ b
some-inj e = cc

module _ (fl : Float) (store : RateLimitStore fl) where
  -- The calls of the store alone.
  unfoldable pub asked_run :
      Algorithm fl → store.State → List (Text × Clock) → List (Text × (Clock × Bool))
  asked_run algorithm s [] = []
  asked_run algorithm s ((key, now) ∷ calls) =
      let out = ask fl store algorithm s now key in
      (key, (now, is_admitted out.1)) ∷ asked_run algorithm out.0 calls

module _ (fl : Float) (store : RateLimitStore fl) (host : Host) where
  -- The key that a request is limited by, unless it is in the bypass list.
  abbrev pub limited_by : KeyExtractor → List Text → RequestInfo → Option Text
  limited_by extractor bypass info = elim (extract host extractor info) [
    | some key ↦ if bypasses fl store host bypass key then none else some key
    | none ↦ none
  ]

  abbrev pub cons_keyed : {A : Type 0} → Option Text → A → List (Text × A) → List (Text × A)
  cons_keyed none a l = l
  cons_keyed (some key) a l = (key, a) ∷ l

  -- The limited requests of a history, by their keys and the store's clocks.
  abbrev pub calls_of : KeyExtractor → List Text → List Visit → List (Text × Clock)
  calls_of extractor bypass [] = []
  calls_of extractor bypass (v ∷ vs) =
      cons_keyed (limited_by extractor bypass v.info) v.asked (calls_of extractor bypass vs)

  -- The limited requests, and whether the middleware lets them in.
  pub served : RateLimitMiddleware fl store → List Visit → List (Text × (Clock × Bool))
  served m [] = []
  served m (v ∷ vs) =
      let out = check fl store host m v.asked v.answered v.info in
      cons_keyed (limited_by m.key_extractor m.bypass_keys v.info) (v.asked, lets_in out.1)
        (served out.0 vs)

  limited_by-some :
      (extractor : KeyExtractor) (bypass : List Text) (info : RequestInfo) (key : Text)
      → limited_by extractor bypass info ≡ some key
      → (extract host extractor info ≡ some key) × (bypasses fl store host bypass key ≡ false)
  limited_by-some extractor bypass info key e = elim (Option-cases (extract host extractor info)) [
    | inl none_found ↦ absurd (some_not_none (sym (rw (limited_by, none_found) at e)))
    | inr (k, found) ↦ elim (Bool-cases (bypasses fl store host bypass k)) [
      | inl b ↦ absurd (some_not_none (sym (rw (limited_by, found, b) at e)))
      | inr b ↦
          let same : some k ≡ some key = rw (limited_by, found, b) at e in
          (found ∙ same, subst (λ j. bypasses fl store host bypass j ≡ false) (some-inj same) b)
    ]
  ]

  settle_strict :
      (m : RateLimitMiddleware fl store) (o : Outcome RateLimitCheckResult)
      → m.skip_on_error ≡ false
      → ((settle fl store m o).0 ≡ m)
        × (lets_in (settle fl store m o).1 ≡ true
            → (r : RateLimitCheckResult) × (o ≡ ok r) × (r.is_allowed ≡ true))
  unfolding settle is_allowed respond failed
  settle_strict m (ok r) strict = (refl, λ h. (r, refl, ground arith))
  settle_strict m (err e) strict = (ground arith, λ h. absurd (ground arith))
  settle_strict m panic strict = (refl, λ h. cc)

  -- A limited request asks the store once, and is let in only if the store admits it.
  pub limited_visit :
      (m : RateLimitMiddleware fl store) (v : Visit) (key : Text)
      → m.skip_on_error ≡ false
      → limited_by m.key_extractor m.bypass_keys v.info ≡ some key
      → let asks = ask fl store m.limiter.algorithm m.limiter.state v.asked key in
        let out = check fl store host m v.asked v.answered v.info in
        (out.0 ≡ record m { limiter = record m.limiter { state = asks.0 } })
        × (lets_in out.1 ≡ true → is_admitted asks.1 ≡ true)
  unfolding check check_key
  limited_visit m v key strict e =
      let (found, through) = limited_by-some m.key_extractor m.bypass_keys v.info key e in
      let l = m.limiter in
      let asks = ask fl store l.algorithm l.state v.asked key in
      let m' = record m { limiter = record l { state = asks.0 } } in
      let answered = asks.1 >>= answer fl store l.algorithm v.answered in
      let step = check-answer fl store l v.asked v.answered key in
      let same : check fl store host m v.asked v.answered v.info ≡ settle fl store m' answered =
        rw (check, found, check_key, through, step) refl in
      let (kept, says) = settle_strict m' answered strict in
      (
        ap (λ out. out.0) same ∙ kept,
        λ h.
            let (r, is_r, yes') = says (sym (ap (λ out. lets_in out.1) same) ∙ h) in
            let (reply, is_reply, _, agrees, _, _) =
              check-eq-ok fl store l v.asked v.answered key r (ap (λ out. out.1) step ∙ is_r) in
            ap is_admitted is_reply ∙ sym agrees ∙ yes',
      )

  -- Another request leaves the limiter as it was.
  pub other_visit :
      (m : RateLimitMiddleware fl store) (v : Visit)
      → limited_by m.key_extractor m.bypass_keys v.info ≡ none
      → (n : ℕ) × ((check fl store host m v.asked v.answered v.info).0
          ≡ record m { unkeyed_allow_count = n })
  unfolding check check_key
  other_visit m v e = elim (Option-cases (extract host m.key_extractor v.info)) [
    | inl none_found ↦ (_, (check_unkeyed fl store host m v.asked v.answered v.info none_found).3)
    | inr (key, found) ↦ elim (Bool-cases (bypasses fl store host m.bypass_keys key)) [
      | inl b ↦ (m.unkeyed_allow_count, rw (check, found, check_key, b) refl)
      | inr b ↦ absurd (some_not_none (rw (limited_by, found, b) at e))
    ]
  ]

  -- While errors deny, a middleware lets in no limited request that its store does not admit.
  pub served-Weaker :
      (m : RateLimitMiddleware fl store) (vs : List Visit)
      → m.skip_on_error ≡ false
      → Weaker (served m vs) (
          asked_run fl store m.limiter.algorithm m.limiter.state
            (calls_of m.key_extractor m.bypass_keys vs))
  unfolding served asked_run
  served-Weaker m [] strict = tt
  served-Weaker m (v ∷ vs) strict =
      elim (Option-cases (limited_by m.key_extractor m.bypass_keys v.info)) [
        | inl e ↦
            let (n, same) = other_visit m v e in
            rw (e, same) (served-Weaker (record m { unkeyed_allow_count = n }) vs strict)
        | inr (key, e) ↦
            let (same, admitted) = limited_visit m v key strict e in
            let s = (ask fl store m.limiter.algorithm m.limiter.state v.asked key).0 in
            rw (e, same)
              (
                refl,
                refl,
                admitted,
                served-Weaker (record m { limiter = record m.limiter { state = s } }) vs strict,
              )
      ]
