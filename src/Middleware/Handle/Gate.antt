-- ===== src/Middleware/Handle/Gate.antt =====
-- src/middleware.rs: `handle` as the gate before the next handler.
use armature_ratelimit.Extractor.{Host, extract}
use armature_ratelimit.Float.{Float}
use armature_ratelimit.Headers.{RateLimitHeaders, to_string}
use armature_ratelimit.Headers as Headers
use armature_ratelimit.Limiter.{RateLimiter, RateLimitCheckResult}
use armature_ratelimit.Limiter as Limiter
use armature_ratelimit.Middleware.Decisions.{
  Covers, lets_through, check_unkeyed, check_answered, check_failed, check_bypassed,
  check_unkeyed_allowed, check_answered_allowed, check_failed_allowed,
}
use armature_ratelimit.Middleware.Handle.{
  Core, Reply, replied, refused, add_rate_headers, too_many_requests, decorate, answer, info_of,
  handle,
}
use armature_ratelimit.Middleware.{
  allow, deny, RateLimitMiddleware, RateLimitCheckResponse, allowed, limited, is_allowed, headers,
  check,
}
use armature_ratelimit.Outcome.{Outcome, RateLimitError, ok, err}
use armature_ratelimit.Prelude.{
  ℕ, ◌≡◌, ◌⊎◌, inl, inr, refl, ap, ◌∙◌, true, false, Option, none, some, Text, arith, codes,
  if◌then◌else◌,
}
use armature_ratelimit.Stores.{RateLimitStore, Clock}

-- What is documented of the responses: a new one has the status given, and a header leaves it.
pub record IsCore (core : Core) : Type 0 where
  pub status-response : (n : ℕ) (body : Text) → core.status (core.response n body) ≡ n
  pub status-insert_header :
      (r : core.HttpResponse) (name value : Text)
      → core.status (core.insert_header r name value) ≡ core.status r

module _ (core : Core) (is_core : IsCore core) where
  status-add_rate_headers :
      (r : core.HttpResponse) (remaining : Text) (h : RateLimitHeaders)
      → core.status (add_rate_headers core r remaining h) ≡ core.status r
  unfolding add_rate_headers
  status-add_rate_headers r remaining h =
      is_core.status-insert_header _ _ _
      ∙ is_core.status-insert_header _ _ _
      ∙ is_core.status-insert_header _ _ _

  status-too_many_requests :
      (hs : Option RateLimitHeaders) (message : Text) (retry : Option ℕ)
      → core.status (too_many_requests core hs message retry) ≡ 429
  unfolding too_many_requests
  status-too_many_requests none message none =
      is_core.status-insert_header _ _ _ ∙ is_core.status-response _ _
  status-too_many_requests none message (some t) =
      is_core.status-insert_header _ _ _
      ∙ is_core.status-insert_header _ _ _
      ∙ is_core.status-response _ _
  status-too_many_requests (some h) message none =
      status-add_rate_headers _ _ h
      ∙ is_core.status-insert_header _ _ _
      ∙ is_core.status-response _ _
  status-too_many_requests (some h) message (some t) =
      status-add_rate_headers _ _ h
      ∙ is_core.status-insert_header _ _ _
      ∙ is_core.status-insert_header _ _ _
      ∙ is_core.status-response _ _

  module _ {W : Type 0} (next : W → core.HttpRequest → W × Reply core) where
    -- An answer that turns the request away: status 429, and what the next handlers would have
    -- changed is as it was.
    abbrev pub TurnedAway : W → W × Outcome (Reply core) → Type 0
    TurnedAway w out =
        (out.0 ≡ w)
        × (response : core.HttpResponse) × (out.1 ≡ ok (replied response))
        × (core.status response ≡ 429)

    answer-TurnedAway :
        (w : W) (req : core.HttpRequest) (r : RateLimitCheckResponse)
        → is_allowed r ≡ false
        → TurnedAway w (answer core next w req (ok r))
    unfolding answer is_allowed
    answer-TurnedAway w req (allowed hs) h = absurd (ground arith)
    answer-TurnedAway w req (limited hs message retry) h = (
      refl,
      too_many_requests core hs message retry,
      refl,
      status-too_many_requests hs message retry,
    )

    -- The reply of the handlers passed on: with these headers on a response, and an error as it
    -- is.
    abbrev pub PassedOn : Option RateLimitHeaders → Reply core → Outcome (Reply core) → Type 0
    PassedOn hs (refused e) out = out ≡ ok (refused e)
    PassedOn none (replied x) out = out ≡ ok (replied x)
    PassedOn (some h) (replied x) out =
        out
        ≡ ok (
            replied (
              core.insert_header
                (core.insert_header
                  (core.insert_header x (codes "X-RateLimit-Limit") (to_string h.limit))
                  (codes "X-RateLimit-Remaining") (to_string h.remaining))
                (codes "X-RateLimit-Reset") (to_string h.reset)))

    decorate-PassedOn :
        (hs : Option RateLimitHeaders) (x : Reply core) → PassedOn hs x (ok (decorate core hs x))
    unfolding decorate add_rate_headers
    decorate-PassedOn none (replied x) = refl
    decorate-PassedOn none (refused e) = refl
    decorate-PassedOn (some h) (replied x) = refl
    decorate-PassedOn (some h) (refused e) = refl

    -- The handlers ran once, on the request as it came, and their reply is passed on.
    abbrev pub LetIn :
        W → core.HttpRequest → Option RateLimitHeaders → W × Outcome (Reply core) → Type 0
    LetIn w req hs out = (out.0 ≡ (next w req).0) × PassedOn hs (next w req).1 out.1

    answer-LetIn :
        (w : W) (req : core.HttpRequest) (r : RateLimitCheckResponse)
        → is_allowed r ≡ true
        → LetIn w req (headers r) (answer core next w req (ok r))
    unfolding answer is_allowed headers
    answer-LetIn w req (allowed hs) h = (refl, decorate-PassedOn hs (next w req).1)
    answer-LetIn w req (limited hs message retry) h = absurd (ground arith)

    module _ (fl : Float) (store : RateLimitStore fl) (host : Host) where
      abbrev decided :
          RateLimitMiddleware fl store
          → Clock
          → Clock
          → core.HttpRequest
          → Outcome RateLimitCheckResponse
      decided m asked answered req = (check fl store host m asked answered (info_of core m req)).1

      handle-answer :
          (m : RateLimitMiddleware fl store) (asked answered : Clock) (w : W)
          (req : core.HttpRequest)
          → (handle core next fl store host m asked answered w req).0
            ≡ answer core next w req (decided m asked answered req)
      unfolding handle
      handle-answer m asked answered w req = refl

      handle-LetIn :
          (m : RateLimitMiddleware fl store) (asked answered : Clock) (w : W)
          (req : core.HttpRequest) (r : RateLimitCheckResponse)
          → decided m asked answered req ≡ ok r
          → is_allowed r ≡ true
          → LetIn w req (headers r) (handle core next fl store host m asked answered w req).0
      handle-LetIn m asked answered w req r d h = rw (handle-answer, d) (answer-LetIn w req r h)

      handle_limited :
          (m : RateLimitMiddleware fl store) (asked answered : Clock) (w : W)
          (req : core.HttpRequest) (r : RateLimitCheckResponse)
          → decided m asked answered req ≡ ok r
          → is_allowed r ≡ false
          → TurnedAway w (handle core next fl store host m asked answered w req).0
      handle_limited m asked answered w req r d h =
          rw (handle-answer, d) (answer-TurnedAway w req r h)

      -- A request is turned away, with status 429 and with what the next handlers would have
      -- changed as it was, if it has no key under the policy `deny`, or if it has a key outside
      -- the bypass list and the limiter denies it or fails while `skip_on_error` is off.
      pub handle_denied :
          (m : RateLimitMiddleware fl store) (asked answered : Clock) (w : W)
          (req : core.HttpRequest)
          → ((extract host m.key_extractor (info_of core m req) ≡ none) × (m.unkeyed_policy ≡ deny))
            ⊎ ((key : Text) × (extract host m.key_extractor (info_of core m req) ≡ some key)
                × (¬ Covers fl store host key m.bypass_keys)
                × (((r : RateLimitCheckResult) × ((Limiter.check fl store m.limiter asked answered
                          key).1
                        ≡ ok r)
                      × (r.is_allowed ≡ false))
                    ⊎ ((e : RateLimitError) × ((Limiter.check fl store m.limiter asked answered
                            key).1
                          ≡ err e)
                        × (m.skip_on_error ≡ false))))
          → TurnedAway w (handle core next fl store host m asked answered w req).0
      handle_denied m asked answered w req (inl (k, p)) =
          let (r, c, a, _) = check_unkeyed fl store host m asked answered (info_of core m req) k in
          handle_limited m asked answered w req r c (a ∙ ap lets_through p)
      handle_denied m asked answered w req (inr (key, k, n, inl (r, c, f))) =
          let (s, e, a, _) =
            check_answered fl store host m asked answered (info_of core m req) key r k n c in
          handle_limited m asked answered w req s (ap (λ p. p.1) e) (a ∙ f)
      handle_denied m asked answered w req (inr (key, k, n, inr (x, c, f))) =
          let (s, e, a, _) =
            check_failed fl store host m asked answered (info_of core m req) key x k n c in
          handle_limited m asked answered w req s (ap (λ p. p.1) e) (a ∙ f)

      -- A request goes to the next handlers once and as it came, and their reply is passed on, if
      -- it has no key under the policy `allow`, or if it has a key that is in the bypass list or
      -- that the limiter allows, or if the limiter fails for its key while `skip_on_error` is on.
      -- An error of the handlers stays as it is, and so does their response, but for the limit,
      -- the remaining count and the reset time of the limiter's answer as headers, if there is an
      -- answer and the middleware includes headers.
      pub handle_allowed :
          (m : RateLimitMiddleware fl store) (asked answered : Clock) (w : W)
          (req : core.HttpRequest)
          → (reason : ((extract host m.key_extractor (info_of core m req) ≡ none)
                × (m.unkeyed_policy ≡ allow))
              ⊎ ((key : Text) × (extract host m.key_extractor (info_of core m req) ≡ some key)
                  × (Covers fl store host key m.bypass_keys
                      ⊎ (¬ Covers fl store host key m.bypass_keys)
                        × (((r : RateLimitCheckResult) × ((Limiter.check fl store m.limiter asked
                                  answered key).1
                                ≡ ok r)
                              × (r.is_allowed ≡ true))
                            ⊎ ((e : RateLimitError) × ((Limiter.check fl store m.limiter asked
                                    answered key).1
                                  ≡ err e)
                                × (m.skip_on_error ≡ true))))))
          → LetIn w req
              (elim reason [
                | inr (key, k, inr (n, inl (r, c, f))) ↦
                    if m.include_headers
                    then some (record {
                      limit = r.limit;
                      remaining = r.remaining;
                      reset = r.reset_at;
                      retry_after = none;
                    })
                    else none
                | _ ↦ none
              ])
              (handle core next fl store host m asked answered w req).0
      unfolding is_allowed headers Headers.allowed
      handle_allowed m asked answered w req (inl (k, p)) =
          handle-LetIn m asked answered w req (allowed none)
            (check_unkeyed_allowed fl store host m asked answered (info_of core m req) k p) refl
      handle_allowed m asked answered w req (inr (key, k, inl c)) =
          handle-LetIn m asked answered w req (allowed none)
            (ap (λ p. p.1)
              (check_bypassed fl store host m asked answered (info_of core m req) key k c))
            refl
      handle_allowed m asked answered w req (inr (key, k, inr (n, inl (r, c, a)))) =
          handle-LetIn m asked answered w req
            (allowed (
              if m.include_headers
              then some (Headers.allowed r.limit r.remaining r.reset_at)
              else none))
            (check_answered_allowed fl store host m asked answered (info_of core m req) key r k n c
              a)
            refl
      handle_allowed m asked answered w req (inr (key, k, inr (n, inr (e, c, s)))) =
          handle-LetIn m asked answered w req (allowed none)
            (check_failed_allowed fl store host m asked answered (info_of core m req) key e k n c s)
            refl
