-- ===== src/Config/Builder.antt =====
-- src/config.rs: `RateLimiterBuilder`. Connecting to Redis is a parameter, absent when the
-- crate's `redis` feature is off.
use armature_ratelimit.Algorithms.{Algorithm}
use armature_ratelimit.Algorithms as Algorithms
use armature_ratelimit.Config.{RateLimitConfig, validate_algorithm}
use armature_ratelimit.DashMap.{DashMap}
use armature_ratelimit.Float.{Float}
use armature_ratelimit.Limiter.{RateLimiter}
use armature_ratelimit.Outcome.{Outcome, RateLimitError, ok, err, config_error, ◌>>=◌, >>=-eq-ok}
use armature_ratelimit.Prelude.{
  ℕ, ◌≡◌, ◌⊎◌, sym, ap, ◌∙◌, refl, Bool, true, Option, none, some, List, [], ◌∷◌, ◌++◌, Text, codes,
  arith, inl, inr, Option-cases,
}
use armature_ratelimit.Stores.Memory as Memory
use armature_ratelimit.Stores.MemoryStore.{memory_store}
use armature_ratelimit.Stores.{StoreType, RateLimitStore, memory, redis}

pub record RateLimiterBuilder (fl : Float) : Type 0 where
  pub algorithm : Option (Algorithm fl)
  pub store_type : StoreType
  pub key_prefix : Text
  pub include_headers : Bool
  pub skip_on_error : Bool
  pub error_message : Option Text
  pub bypass_keys : List Text
  pub operation_timeout : ℕ
  pub trusted_proxy_depth : ℕ
  pub redis_url : Option Text

-- A store of some kind, in its first state: the `Arc<dyn RateLimitStore>`.
abbrev AnyStore : Float → Type 1
AnyStore fl = (store : RateLimitStore fl) × store.State

abbrev AnyLimiter : Float → Type 1
AnyLimiter fl = (store : RateLimitStore fl) × RateLimiter fl store

ok_inj {ℓ} : {A : Type ℓ} {a b : A} → ok a ≡ ok b → a ≡ b
ok_inj h = cc

err_not_ok {ℓ} : {A : Type ℓ} {a : A} {e : RateLimitError} → err e ≡ ok a → ⊥
err_not_ok h = cc

StoreType-cases : (t : StoreType) → (t ≡ memory) ⊎ (t ≡ redis)
StoreType-cases memory = inl refl
StoreType-cases redis = inr refl

module _ (fl : Float) where
  unfoldable pub new : RateLimiterBuilder fl
  new = record {
    algorithm = none;
    store_type = memory;
    key_prefix = codes "ratelimit";
    include_headers = true;
    skip_on_error = true;
    error_message = none;
    bypass_keys = [];
    operation_timeout = 3_000_000_000;
    trusted_proxy_depth = 0;
    redis_url = none;
  }

  abbrev with_algorithm : RateLimiterBuilder fl → Algorithm fl → RateLimiterBuilder fl
  with_algorithm b a = record b { algorithm = some a }

  abbrev pub token_bucket : RateLimiterBuilder fl → ℕ → fl.F → RateLimiterBuilder fl
  token_bucket b capacity refill_rate = record b {
    algorithm = some (Algorithms.token_bucket capacity refill_rate);
  }

  abbrev sliding_window : RateLimiterBuilder fl → ℕ → ℕ → RateLimiterBuilder fl
  sliding_window b max_requests window = record b {
    algorithm = some (Algorithms.sliding_window_log max_requests window);
  }

  abbrev pub fixed_window : RateLimiterBuilder fl → ℕ → ℕ → RateLimiterBuilder fl
  fixed_window b max_requests window = record b {
    algorithm = some (Algorithms.fixed_window max_requests window);
  }

  abbrev with_memory_store : RateLimiterBuilder fl → RateLimiterBuilder fl
  with_memory_store b = record b { store_type = memory }

  abbrev redis_store : RateLimiterBuilder fl → Text → RateLimiterBuilder fl
  redis_store b url = record b { store_type = redis; redis_url = some url }

  abbrev with_key_prefix : RateLimiterBuilder fl → Text → RateLimiterBuilder fl
  with_key_prefix b prefix = record b { key_prefix = prefix }

  abbrev with_include_headers : RateLimiterBuilder fl → Bool → RateLimiterBuilder fl
  with_include_headers b include = record b { include_headers = include }

  abbrev with_skip_on_error : RateLimiterBuilder fl → Bool → RateLimiterBuilder fl
  with_skip_on_error b skip = record b { skip_on_error = skip }

  abbrev with_operation_timeout : RateLimiterBuilder fl → ℕ → RateLimiterBuilder fl
  with_operation_timeout b timeout = record b { operation_timeout = timeout }

  abbrev pub with_trusted_proxy_depth : RateLimiterBuilder fl → ℕ → RateLimiterBuilder fl
  with_trusted_proxy_depth b depth = record b { trusted_proxy_depth = depth }

  abbrev pub with_error_message : RateLimiterBuilder fl → Text → RateLimiterBuilder fl
  with_error_message b text = record b { error_message = some text }

  abbrev bypass_key : RateLimiterBuilder fl → Text → RateLimiterBuilder fl
  bypass_key b key = record b { bypass_keys = b.bypass_keys ++ key ∷ [] }

  abbrev pub with_bypass_keys : RateLimiterBuilder fl → List Text → RateLimiterBuilder fl
  with_bypass_keys b keys = record b { bypass_keys = b.bypass_keys ++ keys }

  unfoldable pub config_of : RateLimiterBuilder fl → Algorithm fl → RateLimitConfig fl
  config_of b a = record {
    algorithm = a;
    store_type = b.store_type;
    key_prefix = b.key_prefix;
    include_headers = b.include_headers;
    skip_on_error = b.skip_on_error;
    error_message = b.error_message;
    bypass_keys = b.bypass_keys;
    operation_timeout = b.operation_timeout;
    trusted_proxy_depth = b.trusted_proxy_depth;
  }

  -- `RateLimiter::new`, less its prune task.
  unfoldable pub start : RateLimiterBuilder fl → Algorithm fl → AnyStore fl → AnyLimiter fl
  unfolding config_of
  start b a opened = (opened.0, record { state = opened.1; algorithm = a; config = config_of b a })

  -- The URL, the key prefix and the operation timeout of a connection.
  abbrev Connect : Type 1
  Connect = Option (Text → Text → ℕ → Outcome (AnyStore fl))

  module _ (dash : DashMap) (connect : Connect) where
    unfoldable pub open_store : RateLimiterBuilder fl → Outcome (AnyStore fl)
    open_store b = elim b.store_type [
      | memory ↦ ok (memory_store dash fl, Memory.new dash fl)
      | redis ↦ elim connect [
        | none ↦ err (
            config_error
              (codes "Redis feature is not enabled. Add `redis` feature to use Redis store."))
        | some dial ↦ elim b.redis_url [
          | none ↦ err (config_error (codes "Redis URL must be specified for Redis store"))
          | some url ↦ dial url b.key_prefix b.operation_timeout
        ]
      ]
    ]

    -- The store that is opened.
    opened_lem :
        (b : RateLimiterBuilder fl) (store : RateLimitStore fl) (state : store.State)
        → open_store b ≡ ok (store, state)
        → ((b.store_type ≡ memory)
            × (◌≡◌ {A = AnyStore fl} (store, state) (memory_store dash fl, Memory.new dash fl)))
          ⊎ (b.store_type ≡ redis)
            × (dial : Text → Text → ℕ → Outcome (AnyStore fl)) × (url : Text) × (connect
                ≡ some dial)
            × (b.redis_url ≡ some url)
            × (dial url b.key_prefix b.operation_timeout ≡ ok (store, state))
    unfolding open_store
    opened_lem b store state h = elim (StoreType-cases b.store_type) [
      | inl m ↦ inl (m, sym (ok_inj (rw m at h)))
      | inr r ↦ elim (Option-cases connect) [
        | inl none_given ↦ absurd (err_not_ok (rw (r, none_given) at h))
        | inr (dial, c) ↦ elim (Option-cases b.redis_url) [
          | inl no_url ↦ absurd (err_not_ok (rw (r, c, no_url) at h))
          | inr (url, u) ↦ inr (r, dial, url, c, u, rw (r, c, u) at h)
        ]
      ]
    ]

    unfoldable pub build : RateLimiterBuilder fl → Outcome (AnyLimiter fl)
    unfolding open_store start
    build b = elim b.algorithm [
      | none ↦ err (config_error (codes "Algorithm must be specified"))
      | some a ↦
          validate_algorithm fl a >>= (λ _. open_store b) >>= (λ opened. ok (start b a opened))
    ]

    -- A limiter is built only for an algorithm that was set and passes the validation. It
    -- carries that algorithm and each of the builder's settings, and its store is a new in-memory
    -- store, or the one that connecting to Redis yields for the builder's URL, key prefix and
    -- operation timeout.
    pub build-eq-ok :
        (b : RateLimiterBuilder fl) (store : RateLimitStore fl) (l : RateLimiter fl store)
        → build b ≡ ok (store, l)
        → (a : Algorithm fl) × (b.algorithm ≡ some a)
          × (validate_algorithm fl a ≡ ok tt)
          × (l.algorithm ≡ a)
          × (l.config ≡ record {
            algorithm = a;
            store_type = b.store_type;
            key_prefix = b.key_prefix;
            include_headers = b.include_headers;
            skip_on_error = b.skip_on_error;
            error_message = b.error_message;
            bypass_keys = b.bypass_keys;
            operation_timeout = b.operation_timeout;
            trusted_proxy_depth = b.trusted_proxy_depth;
          })
          × (((b.store_type ≡ memory)
                × (◌≡◌ {A = AnyStore fl}
                    (store, l.state)
                    (memory_store dash fl, Memory.new dash fl)))
              ⊎ (b.store_type ≡ redis)
                × (dial : Text → Text → ℕ → Outcome (AnyStore fl)) × (url : Text) × (connect
                    ≡ some dial)
                × (b.redis_url ≡ some url)
                × (dial url b.key_prefix b.operation_timeout ≡ ok (store, l.state)))
    unfolding build config_of
    build-eq-ok b store l h = elim (Option-cases b.algorithm) [
      | inl e ↦ absurd (ground arith)
      | inr (a, e) ↦
          let (opened, first, last) =
            >>=-eq-ok (validate_algorithm fl a >>= (λ _. open_store b))
              (λ opened. ok (start b a opened)) (ground arith) in
          let (valid, v, o) = >>=-eq-ok (validate_algorithm fl a) (λ _. open_store b) first in
          (
            a,
            e,
            v,
            ok_inj (sym (ap (λ out. out >>= (λ p. ok p.1.algorithm)) last)),
            ok_inj (sym (ap (λ out. out >>= (λ p. ok p.1.config)) last)),
            opened_lem b store l.state (o ∙ ap (λ out. out >>= (λ p. ok (p.0, p.1.state))) last),
          )
    ]
