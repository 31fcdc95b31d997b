-- ===== src/Middleware/Handle.antt =====
-- src/middleware.rs: `extract_request_info`, and `handle` of the trait `armature_core::Middleware`,
-- over what the code calls of `armature_core` and `serde_json`.
pub mod Gate
use armature_ratelimit.Extractor.{
  Host, IpAddr, RequestInfo, with_ip, with_user_id, with_header, with_api_key, required_header,
}
use armature_ratelimit.Extractor as Request
use armature_ratelimit.Float.{Float}
use armature_ratelimit.Headers.{RateLimitHeaders, to_string}
use armature_ratelimit.Middleware.{
  RateLimitMiddleware, RateLimitCheckResponse, allowed, limited, check,
}
use armature_ratelimit.Outcome.{Outcome, ok, err, panic}
use armature_ratelimit.Prelude.{
  ℕ, ◌≡◌, refl, Bool, true, false, ◌||◌, Option, none, some, List, [], ◌∷◌, Text, codes, text_eq,
  arith, if◌then◌else◌,
}
use armature_ratelimit.Stores.{RateLimitStore, Clock}

-- What the code calls of the packages `armature_core` and `serde_json`, and the lower-casing of
-- Unicode text. A body is the JSON text for an error and its message.
pub record Core : Type 1 where
  pub HttpRequest : Type 0
  pub HttpResponse : Type 0
  pub Error : Type 0
  pub client_address : HttpRequest → ℕ → Option IpAddr
  pub path_only : HttpRequest → Text
  pub method_str : HttpRequest → Text
  pub verified_subject : HttpRequest → Option Text
  pub get_header : HttpRequest → Text → Option Text
  pub response : ℕ → Text → HttpResponse
  pub insert_header : HttpResponse → Text → Text → HttpResponse
  pub status : HttpResponse → ℕ
  pub error_body : Text → Text → Text
  pub to_lowercase : Text → Text

-- `if let Some(a) = value { info = set(info, a) }`
abbrev set_some {ℓ κ} : {A : Type ℓ} {B : Type κ} → Option A → B → (B → A → B) → B
set_some none info set = info
set_some (some a) info set = set info a

module _ (core : Core) where
  add_headers : RequestInfo → List (Text × Text) → RequestInfo
  add_headers info [] = info
  add_headers info ((name, value) ∷ rest) = add_headers (with_header info name value) rest

  -- The first of the headers that commonly carry an API key.
  common_api_key : List (Text × Text) → Option Text
  common_api_key [] = none
  common_api_key ((name, value) ∷ rest) =
      let name_lower = core.to_lowercase name in
      if text_eq name_lower (codes "x-api-key") || text_eq name_lower (codes "authorization")
      then some value
      else common_api_key rest

  unfoldable extract_request_info :
      Option IpAddr → Text → Text → Option Text → List (Text × Text) → RequestInfo
  unfolding add_headers common_api_key
  extract_request_info ip path method user_id headers =
      let info = set_some ip (Request.new path method) with_ip in
      let keyed = set_some user_id info with_user_id in
      set_some (common_api_key headers) (add_headers keyed headers) with_api_key

  -- The part of a request that `handle` passes to `check`.
  unfoldable pub info_of :
      {fl : Float} {store : RateLimitStore fl}
      → RateLimitMiddleware fl store
      → core.HttpRequest
      → RequestInfo
  info_of m req =
      let info =
        set_some (core.client_address req m.trusted_proxy_depth)
          (Request.new (core.path_only req) (core.method_str req)) with_ip in
      let known = set_some (core.verified_subject req) info with_user_id in
      elim (required_header m.key_extractor) [
        | none ↦ known
        | some name ↦
            set_some (core.get_header req name) known (λ i value. with_header i name value)
      ]

  pub add_rate_headers : core.HttpResponse → Text → RateLimitHeaders → core.HttpResponse
  add_rate_headers response remaining h =
      core.insert_header
        (core.insert_header
          (core.insert_header response (codes "X-RateLimit-Limit") (to_string h.limit))
          (codes "X-RateLimit-Remaining") remaining)
        (codes "X-RateLimit-Reset") (to_string h.reset)

  pub too_many_requests : Option RateLimitHeaders → Text → Option ℕ → core.HttpResponse
  unfolding add_rate_headers
  too_many_requests headers message retry_after =
      let response =
        core.insert_header (core.response 429 (core.error_body (codes "Too Many Requests") message))
          (codes "Content-Type") (codes "application/json") in
      let told =
        set_some retry_after response
          (λ r retry. core.insert_header r (codes "Retry-After") (to_string retry)) in
      set_some headers told (λ r h. add_rate_headers r (codes "0") h)

  -- A reply of the handlers: a response or an error of theirs.
  pub data Reply : Type 0 where
    replied : core.HttpResponse → Reply
    refused : core.Error → Reply

  unfoldable pub decorate : Option RateLimitHeaders → Reply → Reply
  unfolding add_rate_headers
  decorate none r = r
  decorate (some h) (replied response) =
      replied (add_rate_headers response (to_string h.remaining) h)
  decorate (some h) (refused e) = refused e

  module _ {W : Type 0} (next : W → core.HttpRequest → W × Reply) where
    -- `W` is what the handlers behind `next` change.
    pub answer : W → core.HttpRequest → Outcome RateLimitCheckResponse → W × Outcome Reply
    unfolding decorate too_many_requests
    answer w req (ok (allowed headers)) =
        let out = next w req in (out.0, ok (decorate headers out.1))
    answer w req (ok (limited headers message retry_after)) =
        (w, ok (replied (too_many_requests headers message retry_after)))
    answer w req (err e) = (w, err e)
    answer w req panic = (w, panic)

    pub handle :
        (fl : Float) (store : RateLimitStore fl) (host : Host)
        → RateLimitMiddleware fl store
        → Clock
        → Clock
        → W
        → core.HttpRequest
        → (W × Outcome Reply) × RateLimitMiddleware fl store
    unfolding info_of answer
    handle fl store host m asked answered w req =
        let out = check fl store host m asked answered (info_of m req) in
        (answer w req out.1, out.0)
