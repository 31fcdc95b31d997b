-- ===== src/Middleware.antt =====
-- src/middleware.rs: the middleware around a limiter. A call returns the middleware with its
-- counters and its limiter's store as the call leaves them.
pub mod Handle
pub mod Decisions
pub mod Outage
pub mod Histories
pub mod Pruned
pub mod Limits
pub mod Distributed
use armature_ratelimit.Config.{RateLimitConfig}
use armature_ratelimit.Extractor.{
  Host, IpAddr, RequestInfo, KeyExtractor, ip, extract, api_key_bucket, with_ip, with_user_id,
  with_header, with_api_key,
}
use armature_ratelimit.Extractor as Request
use armature_ratelimit.Float.{Float}
use armature_ratelimit.Headers.{RateLimitHeaders, as_secs}
use armature_ratelimit.Headers as Headers
use armature_ratelimit.Limiter.{RateLimiter, RateLimitCheckResult, u64_mod}
use armature_ratelimit.Limiter as Limiter
use armature_ratelimit.Outcome.{Outcome, ok, err, panic}
use armature_ratelimit.Prelude.{
  ℕ, ◌+◌, ◌%◌, Bool, true, false, ◌||◌, Option, none, some, List, [], ◌∷◌, ◌++◌, Text, codes,
  text_eq, if◌then◌else◌, map_option, unwrap_or,
}
use armature_ratelimit.Stores.{RateLimitStore, Clock}

pub data UnkeyedRequestPolicy : Type 0 where
  allow deny : UnkeyedRequestPolicy

-- The trait's default.
unkeyed_policy_default : UnkeyedRequestPolicy
unkeyed_policy_default = deny

pub record RateLimitMiddleware (fl : Float) (store : RateLimitStore fl) : Type 0 where
  pub limiter : RateLimiter fl store
  pub key_extractor : KeyExtractor
  pub include_headers : Bool
  pub error_message : Text
  pub bypass_keys : List Text
  pub skip_on_error : Bool
  pub trusted_proxy_depth : ℕ
  pub skip_on_error_count : ℕ
  pub unkeyed_policy : UnkeyedRequestPolicy
  pub unkeyed_allow_count : ℕ

pub data RateLimitCheckResponse : Type 0 where
  allowed : (headers : Option RateLimitHeaders) → RateLimitCheckResponse
  limited :
      (headers : Option RateLimitHeaders) (message : Text) (retry_after : Option ℕ)
      → RateLimitCheckResponse

unfoldable pub is_allowed : RateLimitCheckResponse → Bool
is_allowed (allowed headers) = true
is_allowed (limited headers message retry_after) = false

abbrev is_limited : RateLimitCheckResponse → Bool
is_limited (allowed headers) = false
is_limited (limited headers message retry_after) = true

unfoldable pub headers : RateLimitCheckResponse → Option RateLimitHeaders
headers (allowed h) = h
headers (limited h message retry_after) = h

abbrev pub message : RateLimitCheckResponse → Option Text
message (allowed h) = none
message (limited h text retry_after) = some text

abbrev pub retry_after : RateLimitCheckResponse → Option ℕ
retry_after (allowed h) = none
retry_after (limited h text seconds) = seconds

-- `AtomicU64::fetch_add(1)` wraps.
abbrev pub count_one : ℕ → ℕ
count_one n = (n + 1) % u64_mod

module _ (fl : Float) (store : RateLimitStore fl) where
  unfoldable pub new : RateLimiter fl store → RateLimitMiddleware fl store
  unfolding unkeyed_policy_default
  new limiter = record {
    limiter = limiter;
    key_extractor = ip;
    include_headers = limiter.config.include_headers;
    error_message = unwrap_or limiter.config.error_message (codes "Rate limit exceeded");
    bypass_keys = limiter.config.bypass_keys;
    skip_on_error = limiter.config.skip_on_error;
    trusted_proxy_depth = limiter.config.trusted_proxy_depth;
    skip_on_error_count = 0;
    unkeyed_policy = unkeyed_policy_default;
    unkeyed_allow_count = 0;
  }

  abbrev with_unkeyed_policy :
      RateLimitMiddleware fl store → UnkeyedRequestPolicy → RateLimitMiddleware fl store
  with_unkeyed_policy m policy = record m { unkeyed_policy = policy }

  abbrev pub with_trusted_proxy_depth :
      RateLimitMiddleware fl store → ℕ → RateLimitMiddleware fl store
  with_trusted_proxy_depth m depth = record m { trusted_proxy_depth = depth }

  unfoldable pub with_extractor :
      RateLimitMiddleware fl store → KeyExtractor → RateLimitMiddleware fl store
  with_extractor m extractor = record m { key_extractor = extractor }

  abbrev with_headers : RateLimitMiddleware fl store → Bool → RateLimitMiddleware fl store
  with_headers m include = record m { include_headers = include }

  abbrev pub with_error_message : RateLimitMiddleware fl store → Text → RateLimitMiddleware fl store
  with_error_message m text = record m { error_message = text }

  abbrev pub with_bypass_keys :
      RateLimitMiddleware fl store → List Text → RateLimitMiddleware fl store
  with_bypass_keys m keys = record m { bypass_keys = m.bypass_keys ++ keys }

  -- The response to a request that the limiter has answered.
  pub respond : RateLimitMiddleware fl store → RateLimitCheckResult → RateLimitCheckResponse
  respond m result =
      if result.is_allowed
      then allowed (
          if m.include_headers
          then some (Headers.allowed result.limit result.remaining result.reset_at)
          else none)
      else limited
          (if m.include_headers
            then some (
                Headers.denied result.limit result.reset_at
                  (unwrap_or (map_option as_secs result.retry_after) 1))
            else none)
          m.error_message (map_option as_secs result.retry_after)

  unkeyed : RateLimitMiddleware fl store → RateLimitMiddleware fl store × RateLimitCheckResponse
  unkeyed m = elim m.unkeyed_policy [
    | allow ↦ (record m { unkeyed_allow_count = count_one m.unkeyed_allow_count }, allowed none)
    | deny ↦ (m, limited none m.error_message none)
  ]

  pub failed : RateLimitMiddleware fl store → RateLimitMiddleware fl store × RateLimitCheckResponse
  failed m =
      if m.skip_on_error
      then (record m { skip_on_error_count = count_one m.skip_on_error_count }, allowed none)
      else (m, limited none m.error_message none)

  pub settle :
      RateLimitMiddleware fl store
      → Outcome RateLimitCheckResult
      → RateLimitMiddleware fl store × Outcome RateLimitCheckResponse
  unfolding respond failed
  settle m (ok result) = (m, ok (respond m result))
  settle m (err e) = let out = failed m in (out.0, ok out.1)
  settle m panic = (m, panic)

  module _ (host : Host) where
    -- `bypass_keys.iter().any(|b| *b == key || api_key_bucket(b) == key)`
    unfoldable pub bypasses : List Text → Text → Bool
    bypasses [] key = false
    bypasses (b ∷ bs) key =
        (text_eq b key || text_eq (api_key_bucket host b) key) || bypasses bs key

    unfoldable pub check_key :
        RateLimitMiddleware fl store
        → Clock
        → Clock
        → Text
        → RateLimitMiddleware fl store × Outcome RateLimitCheckResponse
    unfolding bypasses settle
    check_key m asked answered key =
        if bypasses m.bypass_keys key
        then (m, ok (allowed none))
        else (let out = Limiter.check fl store m.limiter asked answered key in
            settle (record m { limiter = out.0 }) out.1)

    unfoldable pub check :
        RateLimitMiddleware fl store
        → Clock
        → Clock
        → RequestInfo
        → RateLimitMiddleware fl store × Outcome RateLimitCheckResponse
    unfolding check_key unkeyed
    check m asked answered info = elim (extract host m.key_extractor info) [
      | some key ↦ check_key m asked answered key
      | none ↦ let out = unkeyed m in (out.0, ok out.1)
    ]
