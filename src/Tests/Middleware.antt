-- ===== src/Tests/Middleware.antt =====
-- The theorems on src/middleware.rs at concrete inputs.
use armature_ratelimit.DashMap.Assoc.{assoc_map}
use armature_ratelimit.Extractor.{
  RequestInfo, IpAddr, v4, ip, extract, api_key_bucket, ip_bucket, required_header, new, with_ip,
}
use armature_ratelimit.Float.Fixed.{fixed_point}
use armature_ratelimit.Headers.{to_string}
use armature_ratelimit.Limiter as Limiter
use armature_ratelimit.Limiter.{RateLimiter, RateLimitCheckResult}
use armature_ratelimit.Middleware.Decisions.{Covers, check_answered, check_failed}
use armature_ratelimit.Middleware.Handle.Gate.{IsCore, TurnedAway, handle_allowed, handle_denied}
use armature_ratelimit.Middleware.Handle.{Core, Reply, replied, info_of, handle}
use armature_ratelimit.Middleware.{
  RateLimitMiddleware, RateLimitCheckResponse, deny, is_allowed, headers, check,
}
use armature_ratelimit.Outcome.{ok, timeout}
use armature_ratelimit.Prelude.{
  ℕ, ◌+◌, ◌≡◌, refl, true, false, Option, none, some, List, [], ◌∷◌, Text, codes, arith, is_some,
  inl, inr, text_eq,
}
use armature_ratelimit.Stores.Memory
use armature_ratelimit.Stores.MemoryStore.{memory_store}
use armature_ratelimit.Stores.{RateLimitStore}
use armature_ratelimit.Tests.World.{host, now, busy, denying, failing, failing_store}

abbrev pub guard :
    {store : RateLimitStore fixed_point}
    → RateLimiter fixed_point store
    → RateLimitMiddleware fixed_point store
guard limiter = record {
  limiter = limiter;
  key_extractor = ip;
  include_headers = true;
  error_message = codes "slow down";
  bypass_keys = (9 ∷ []) ∷ [];
  skip_on_error = false;
  trusted_proxy_depth = 0;
  skip_on_error_count = 0;
  unkeyed_policy = deny;
  unkeyed_allow_count = 0;
}

abbrev pub from : ℕ → RequestInfo
from a = with_ip (new (codes "/") (codes "GET")) (v4 a)

not_covered :
    (store : RateLimitStore fixed_point) → ¬ Covers fixed_point store host (7 ∷ []) ((9 ∷ []) ∷ [])
unfolding api_key_bucket
not_covered store (inl (inl e)) = ground arith
not_covered store (inl (inr e)) = ground arith
not_covered store (inr e) = e

check_failed_example :
    (response : RateLimitCheckResponse) × (check fixed_point failing_store host
        (guard failing)
        now
        now
        (from 7)
      ≡ (record (guard failing) { limiter = failing; skip_on_error_count = 0 }, ok response))
    × (is_allowed response ≡ false)
    × (headers response ≡ none)
unfolding extract with_ip ip_bucket Limiter.check
check_failed_example =
    check_failed fixed_point failing_store host (guard failing) now now (from 7) (7 ∷ []) timeout
      refl (not_covered failing_store) refl

abbrev after_denial : RateLimiter fixed_point (memory_store assoc_map fixed_point)
after_denial =
    (Limiter.check fixed_point (memory_store assoc_map fixed_point) denying now now (7 ∷ [])).0

check_answered_example :
    (response : RateLimitCheckResponse) × (check fixed_point
        (memory_store assoc_map fixed_point)
        host
        (guard denying)
        now
        now
        (from 7)
      ≡ (record (guard denying) { limiter = after_denial }, ok response))
    × (is_allowed response ≡ false)
    × (is_some (headers response) ≡ true)
unfolding extract with_ip ip_bucket Limiter.check Memory.fixed_window_check
    Limiter.fixed_window_result Memory.count_request text_eq Limiter.denied Limiter.reset_at_ms
check_answered_example =
    check_answered fixed_point (memory_store assoc_map fixed_point) host (guard denying) now now
      (from 7) (7 ∷ []) busy refl (not_covered (memory_store assoc_map fixed_point)) refl

-- A request is an address, a response a status.
abbrev core : Core
core = record {
  HttpRequest = Option IpAddr;
  HttpResponse = ℕ;
  Error = Unit;
  client_address = λ req depth. req;
  path_only = λ req. codes "/";
  method_str = λ req. codes "GET";
  verified_subject = λ req. none;
  get_header = λ req name. none;
  response = λ n body. n;
  insert_header = λ r name value. r;
  status = λ r. r;
  error_body = λ error message. message;
  to_lowercase = λ t. t;
}

core-IsCore : IsCore core
core-IsCore = record {
  status-response = λ n body. refl;
  status-insert_header = λ r name value. refl;
}

-- The next handler counts its calls.
abbrev next : ℕ → Option IpAddr → ℕ × Reply core
next n req = (n + 1, replied 200)

handle_denied_example :
    TurnedAway core core-IsCore next 0
      (handle core next fixed_point failing_store host (guard failing) now now 0 none).0
unfolding extract info_of required_header new
handle_denied_example =
    handle_denied core core-IsCore next fixed_point failing_store host (guard failing) now now 0
      none (inl (refl, refl))

-- A response with its headers.
abbrev headed : Core
headed = record {
  HttpRequest = Option IpAddr;
  HttpResponse = ℕ × List (Text × Text);
  Error = Unit;
  client_address = λ req depth. req;
  path_only = λ req. codes "/";
  method_str = λ req. codes "GET";
  verified_subject = λ req. none;
  get_header = λ req name. none;
  response = λ n body. (n, []);
  insert_header = λ r name value. (r.0, (name, value) ∷ r.1);
  status = λ r. r.0;
  error_body = λ error message. message;
  to_lowercase = λ t. t;
}

headed-IsCore : IsCore headed
headed-IsCore = record {
  status-response = λ n body. refl;
  status-insert_header = λ r name value. refl;
}

abbrev greet : ℕ → Option IpAddr → ℕ × Reply headed
greet n req = (n + 1, replied (200, []))

abbrev first_of_two : RateLimitCheckResult
first_of_two = record {
  is_allowed = true;
  remaining = 1;
  limit = 2;
  reset_at = 5;
  retry_after = none;
}

not_covered_8 :
    (store : RateLimitStore fixed_point) → ¬ Covers fixed_point store host (8 ∷ []) ((9 ∷ []) ∷ [])
unfolding api_key_bucket
not_covered_8 store (inl (inl e)) = ground arith
not_covered_8 store (inl (inr e)) = ground arith
not_covered_8 store (inr e) = e

handle_allowed_example :
    ((handle headed greet fixed_point
        (memory_store assoc_map fixed_point)
        host
        (guard denying)
        now
        now
        0
        (some (v4 8))).0.0
      ≡ 1)
    × ((handle headed greet fixed_point
          (memory_store assoc_map fixed_point)
          host
          (guard denying)
          now
          now
          0
          (some (v4 8))).0.1
        ≡ ok (
            replied (
              200,
              (codes "X-RateLimit-Reset", codes "5")
                  ∷ (codes "X-RateLimit-Remaining", codes "1")
                  ∷ (codes "X-RateLimit-Limit", codes "2")
                  ∷ [],
            )))
unfolding extract with_ip ip_bucket info_of required_header Limiter.check Memory.fixed_window_check
    Limiter.fixed_window_result Memory.count_request text_eq Limiter.allowed Limiter.reset_at_ms
    to_string
handle_allowed_example =
    handle_allowed headed headed-IsCore greet fixed_point (memory_store assoc_map fixed_point) host
      (guard denying) now now 0 (some (v4 8))
      (inr (
        8 ∷ [],
        refl,
        inr (not_covered_8 (memory_store assoc_map fixed_point), inl (first_of_two, refl, refl)),
      ))
