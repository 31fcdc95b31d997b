-- ===== src/Stores/RedisStore/Histories.antt =====
-- src/stores/redis.rs: histories of fixed window checks by the clients of one server.
use armature_ratelimit.Extractor.{Host, key_digest}
use armature_ratelimit.Float.{Float}
use armature_ratelimit.Outcome.{Outcome, is_admitted}
use armature_ratelimit.Prelude.{
  ℕ, ◌≡◌, Bool, true, ◌&&◌, List, [], ◌∷◌, Text, text_eq, text_eq_iff, arith, ◌==◌,
}
use armature_ratelimit.Redis.{Redis, Lua}
use armature_ratelimit.Stores.RedisStore.{RedisStore, fixed_window_check, window_id_at}
use armature_ratelimit.Stores.{Clock}

module _ (host : Host) (window : ℕ) where
  -- A request of a client with this digest, in this window.
  abbrev pub in_window : Text → ℕ → Clock × Text → Bool
  in_window digest id call =
      text_eq (key_digest host call.1) digest && (window_id_at call.0 window == id)

  abbrev pub admitted_in : Text → ℕ → (Clock × Text) × Outcome (Bool × ℕ) → Bool
  admitted_in digest id entry = in_window digest id entry.0 && is_admitted entry.1

  pub in_window_lem :
      (digest : Text) (id : ℕ) (call : Clock × Text)
      → in_window digest id call ≡ true
      → (key_digest host call.1 ≡ digest) × (window_id_at call.0 window ≡ id)
  in_window_lem digest id call e =
      (ground (arith, text_eq_iff (key_digest host call.1) digest), ground arith)

module _ (fl : Float) (r : Redis fl) (lua : Lua fl) (host : Host) where
  module _ (max_requests window : ℕ) where
    -- Requests of any clients, by their clocks, and their outcomes.
    unfoldable pub checks :
        RedisStore fl r
        → List (Clock × Text)
        → RedisStore fl r × List ((Clock × Text) × Outcome (Bool × ℕ))
    checks store [] = (store, [])
    checks store ((now, name) ∷ calls) =
        let out = fixed_window_check fl r lua host now name max_requests window store in
        let rest = checks out.0 calls in (rest.0, ((now, name), out.1) ∷ rest.1)
