-- ===== src/Middleware/Decisions.antt =====
-- src/middleware.rs: what `check` decides, and what it leaves in the store and the counters.
use armature_ratelimit.Extractor.{Host, RequestInfo, extract, api_key_bucket}
use armature_ratelimit.Float.{Float}
use armature_ratelimit.Headers as Headers
use armature_ratelimit.Limiter.{RateLimiter, RateLimitCheckResult}
use armature_ratelimit.Limiter as Limiter
use armature_ratelimit.Middleware.{
  UnkeyedRequestPolicy, allow, deny, RateLimitMiddleware, RateLimitCheckResponse, allowed, limited,
  is_allowed, headers, count_one, respond, failed, settle, bypasses, check_key, check,
}
use armature_ratelimit.Outcome.{Outcome, RateLimitError, ok, err}
use armature_ratelimit.Prelude.{
  ◌≡◌, ◌⊎◌, ◌↔◌, inl, inr, refl, ap, ◌∙◌, Bool, true, false, none, some, List, [], ◌∷◌, Text,
  text_eq, text_eq_iff, arith, Bool-cases, if◌then◌else◌, is_some,
}
use armature_ratelimit.Stores.{RateLimitStore, Clock}

abbrev pub lets_through : UnkeyedRequestPolicy → Bool
lets_through allow = true
lets_through deny = false

policy-cases : (p : UnkeyedRequestPolicy) → (p ≡ allow) ⊎ (p ≡ deny)
policy-cases allow = inl refl
policy-cases deny = inr refl

module _ (fl : Float) (store : RateLimitStore fl) (host : Host) where
  -- A request without a key never reaches the limiter: it is denied, or let through and
  -- counted, as the policy says, and nothing else of the middleware changes.
  pub check_unkeyed :
      (m : RateLimitMiddleware fl store) (asked answered : Clock) (info : RequestInfo)
      → extract host m.key_extractor info ≡ none
      → (response : RateLimitCheckResponse) × ((check fl store host m asked answered info).1
          ≡ ok response)
        × (is_allowed response ≡ lets_through m.unkeyed_policy)
        × ((check fl store host m asked answered info).0 ≡ record m {
          unkeyed_allow_count =
              if lets_through m.unkeyed_policy
              then count_one m.unkeyed_allow_count
              else m.unkeyed_allow_count;
        })
  unfolding check is_allowed
  check_unkeyed m asked answered info h = elim (policy-cases m.unkeyed_policy) [
    | inl p ↦ (allowed none, ground arith, ground arith, ground arith)
    | inr p ↦ (limited none m.error_message none, ground arith, ground arith, ground arith)
  ]

  -- The keys that an entry of the bypass list lets through: itself, and the bucket that it has as
  -- an API key.
  abbrev pub Covers : Text → List Text → Type 0
  Covers key [] = ⊥
  Covers key (b ∷ bs) = ((b ≡ key) ⊎ (api_key_bucket host b ≡ key)) ⊎ Covers key bs

  text_eq-true : (s t : Text) → text_eq s t ≡ true → s ≡ t
  text_eq-true s t = (text_eq_iff s t).0

  bypasses-Covers :
      (bs : List Text) (key : Text) → (bypasses fl store host bs key ≡ true) ↔ Covers key bs
  unfolding bypasses
  bypasses-Covers [] key = (λ h. absurd (ground arith), λ c. absurd c)
  bypasses-Covers (b ∷ bs) key =
      let (to, from) = bypasses-Covers bs key in
      let (same, same_of) = text_eq_iff b key in
      let (bucket, bucket_of) = text_eq_iff (api_key_bucket host b) key in
      elim (Bool-cases (text_eq b key)) [
        | inl e ↦ (λ h. inl (inl (same e)), λ c. ground arith)
        | inr e ↦ elim (Bool-cases (text_eq (api_key_bucket host b) key)) [
          | inl d ↦ (λ h. inl (inr (bucket d)), λ c. ground arith)
          | inr d ↦ (
            λ h. inr (to (ground arith)),
            λ c. elim c [
              | inl (inl x) ↦ ground (arith, same_of x)
              | inl (inr x) ↦ ground (arith, bucket_of x)
              | inr x ↦ ground (arith, from x)
            ],
          )
        ]
      ]

  -- A keyed request whose key is in the bypass list, as itself or as the bucket of an API key,
  -- is let through without headers, and the middleware stays as it was.
  pub check_bypassed :
      (m : RateLimitMiddleware fl store) (asked answered : Clock) (info : RequestInfo) (key : Text)
      → extract host m.key_extractor info ≡ some key
      → Covers key m.bypass_keys
      → check fl store host m asked answered info ≡ (m, ok (allowed none))
  unfolding check check_key
  check_bypassed m asked answered info key h c =
      ground (arith, (bypasses-Covers m.bypass_keys key).1 c)

  abbrev asks :
      RateLimitMiddleware fl store
      → Clock
      → Clock
      → Text
      → RateLimiter fl store × Outcome RateLimitCheckResult
  asks m asked answered key = Limiter.check fl store m.limiter asked answered key

  check_limited :
      (m : RateLimitMiddleware fl store) (asked answered : Clock) (info : RequestInfo) (key : Text)
      → extract host m.key_extractor info ≡ some key
      → ¬ Covers key m.bypass_keys
      → check fl store host m asked answered info
        ≡ settle fl store
            (record m { limiter = (asks m asked answered key).0 })
            (asks m asked answered key).1
  unfolding check check_key
  check_limited m asked answered info key h n =
      elim (Bool-cases (bypasses fl store host m.bypass_keys key)) [
        | inl e ↦ absurd (n ((bypasses-Covers m.bypass_keys key).0 e))
        | inr e ↦ ground arith
      ]

  settle_ok :
      (m : RateLimitMiddleware fl store) (r : RateLimitCheckResult)
      → (settle fl store m (ok r) ≡ (m, ok (respond fl store m r)))
        × (is_allowed (respond fl store m r) ≡ r.is_allowed)
        × (is_some (headers (respond fl store m r)) ≡ m.include_headers)
  unfolding settle is_allowed headers
  settle_ok m r = (refl, ground arith, ground arith)

  settle_err :
      (m : RateLimitMiddleware fl store) (e : RateLimitError)
      → (settle fl store m (err e) ≡ ((failed fl store m).0, ok (failed fl store m).1))
        × (is_allowed (failed fl store m).1 ≡ m.skip_on_error)
        × (headers (failed fl store m).1 ≡ none)
        × ((failed fl store m).0 ≡ record m {
          skip_on_error_count =
              if m.skip_on_error then count_one m.skip_on_error_count else m.skip_on_error_count;
        })
  unfolding settle is_allowed headers
  settle_err m e = (refl, ground arith, ground arith, ground arith)

  -- A keyed request outside the bypass list that the limiter answers is allowed exactly when
  -- the answer says so, its response has headers exactly when the middleware includes them, and
  -- only the limiter's state changes.
  pub check_answered :
      (m : RateLimitMiddleware fl store) (asked answered : Clock) (info : RequestInfo) (key : Text)
      (r : RateLimitCheckResult)
      → extract host m.key_extractor info ≡ some key
      → ¬ Covers key m.bypass_keys
      → (asks m asked answered key).1 ≡ ok r
      → (response : RateLimitCheckResponse) × (check fl store host m asked answered info
          ≡ (record m { limiter = (asks m asked answered key).0 }, ok response))
        × (is_allowed response ≡ r.is_allowed)
        × (is_some (headers response) ≡ m.include_headers)
  check_answered m asked answered info key r h n c =
      let m' = record m { limiter = (asks m asked answered key).0 } in
      let (s, a, b) = settle_ok m' r in
      (
        respond fl store m' r,
        check_limited m asked answered info key h n ∙ ap (settle fl store m') c ∙ s,
        a,
        b,
      )

  -- If the limiter fails for a keyed request outside the bypass list, the request is let
  -- through and counted, or denied, as `skip_on_error` says, its response has no headers, and
  -- nothing else of the middleware changes but the limiter's state.
  pub check_failed :
      (m : RateLimitMiddleware fl store) (asked answered : Clock) (info : RequestInfo) (key : Text)
      (e : RateLimitError)
      → extract host m.key_extractor info ≡ some key
      → ¬ Covers key m.bypass_keys
      → (asks m asked answered key).1 ≡ err e
      → (response : RateLimitCheckResponse) × (check fl store host m asked answered info ≡ (
        record m {
          limiter = (asks m asked answered key).0;
          skip_on_error_count =
              if m.skip_on_error then count_one m.skip_on_error_count else m.skip_on_error_count;
        },
        ok response,
      ))
        × (is_allowed response ≡ m.skip_on_error)
        × (headers response ≡ none)
  check_failed m asked answered info key e h n c =
      let m' = record m { limiter = (asks m asked answered key).0 } in
      let (s, a, b, d) = settle_err m' e in
      (
        (failed fl store m').1,
        check_limited m asked answered info key h n
            ∙ ap (settle fl store m') c
            ∙ s
            ∙ ap (λ x. (x, ok (failed fl store m').1)) d,
        a,
        b,
      )

  -- The responses of requests that are let in.
  pub check_unkeyed_allowed :
      (m : RateLimitMiddleware fl store) (asked answered : Clock) (info : RequestInfo)
      → extract host m.key_extractor info ≡ none
      → m.unkeyed_policy ≡ allow
      → (check fl store host m asked answered info).1 ≡ ok (allowed none)
  unfolding check
  check_unkeyed_allowed m asked answered info h p = rw (check, h, p) refl

  pub check_answered_allowed :
      (m : RateLimitMiddleware fl store) (asked answered : Clock) (info : RequestInfo) (key : Text)
      (r : RateLimitCheckResult)
      → extract host m.key_extractor info ≡ some key
      → ¬ Covers key m.bypass_keys
      → (asks m asked answered key).1 ≡ ok r
      → r.is_allowed ≡ true
      → (check fl store host m asked answered info).1
        ≡ ok (
            allowed (
              if m.include_headers
              then some (Headers.allowed r.limit r.remaining r.reset_at)
              else none))
  unfolding settle respond
  check_answered_allowed m asked answered info key r h n c a =
      rw (check_limited m asked answered info key h n, c, a) refl

  pub check_failed_allowed :
      (m : RateLimitMiddleware fl store) (asked answered : Clock) (info : RequestInfo) (key : Text)
      (e : RateLimitError)
      → extract host m.key_extractor info ≡ some key
      → ¬ Covers key m.bypass_keys
      → (asks m asked answered key).1 ≡ err e
      → m.skip_on_error ≡ true
      → (check fl store host m asked answered info).1 ≡ ok (allowed none)
  unfolding settle failed
  check_failed_allowed m asked answered info key e h n c skip =
      rw (check_limited m asked answered info key h n, c, skip) refl
