-- ===== src/Config.antt =====
-- src/config.rs: the configuration of a limiter and the validation of its algorithm.
pub mod Builder
use armature_ratelimit.Algorithms.{Algorithm, token_bucket, sliding_window_log, fixed_window}
use armature_ratelimit.Float.{Float}
use armature_ratelimit.Outcome.{Outcome, ok, err, config_error}
use armature_ratelimit.Prelude.{
  ℕ, Bool, true, false, not, ◌||◌, Option, none, List, [], ◌∷◌, Text, codes, text_eq, leb, ltb,
  ◌==◌, if◌then◌else◌,
}
use armature_ratelimit.Stores.{StoreType, memory}

module _ (fl : Float) where
  unfoldable pub validate_algorithm : Algorithm fl → Outcome (Unit {0})
  validate_algorithm (token_bucket capacity refill_rate) =
      if capacity == 0
      then err (config_error (codes "TokenBucket capacity must be > 0"))
      else if not (fl.is_finite refill_rate) || fl.le refill_rate fl.nought
      then err (config_error (codes "TokenBucket refill_rate must be finite and > 0"))
      else ok tt
  validate_algorithm (sliding_window_log max_requests window) =
      if max_requests == 0
      then err (config_error (codes "max_requests must be > 0"))
      else if window == 0
      then err (config_error (codes "window must be > 0"))
      else ok tt
  validate_algorithm (fixed_window max_requests window) =
      if max_requests == 0
      then err (config_error (codes "max_requests must be > 0"))
      else if window == 0
      then err (config_error (codes "window must be > 0"))
      else ok tt

pub record RateLimitConfig (fl : Float) : Type 0 where
  pub algorithm : Algorithm fl
  pub store_type : StoreType
  pub key_prefix : Text
  pub include_headers : Bool
  pub skip_on_error : Bool
  pub error_message : Option Text
  pub bypass_keys : List Text
  pub operation_timeout : ℕ
  pub trusted_proxy_depth : ℕ

module _ (fl : Float) where
  abbrev pub default : RateLimitConfig fl
  default = record {
    algorithm = token_bucket 100 (fl.of_u64 10);
    store_type = memory;
    key_prefix = codes "ratelimit";
    include_headers = true;
    skip_on_error = true;
    error_message = none;
    bypass_keys = [];
    operation_timeout = 3_000_000_000;
    trusted_proxy_depth = 0;
  }

  -- `bypass_keys.iter().any(|k| k == key)`
  any_equal : List Text → Text → Bool
  any_equal [] key = false
  any_equal (k ∷ ks) key = text_eq k key || any_equal ks key

  unfoldable should_bypass : RateLimitConfig fl → Text → Bool
  unfolding any_equal
  should_bypass c key = any_equal c.bypass_keys key
