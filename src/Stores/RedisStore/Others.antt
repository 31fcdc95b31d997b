-- ===== src/Stores/RedisStore/Others.antt =====
-- src/stores/redis.rs: `reset` leaves the keys of other clients alone.
use armature_ratelimit.DashMap.Keys.{mem}
use armature_ratelimit.Extractor.Keys.{IsHost, length-hex}
use armature_ratelimit.Extractor.{Host, key_digest}
use armature_ratelimit.Float.{Float}
use armature_ratelimit.Outcome.{Outcome}
use armature_ratelimit.Prelude.{
  ℕ, ◌≡◌, refl, false, some, [], ◌∷◌, ◌++◌, Text, codes, text_eq, arith, ◌∙◌, length,
}
use armature_ratelimit.Redis.{Redis, still}
use armature_ratelimit.Redis.Laws.{IsRedis, IsLiteral, starts_with}
use armature_ratelimit.Stores.RedisStore.Kept.{Kept-unlink, Kept-sweep_after}
use armature_ratelimit.Stores.RedisStore.Kinds.{
  Kind, tb, sw, swmax, swseq, fwmax, fwcur, fw, suffix_of, suffix_of_other, key_of,
}
use armature_ratelimit.Stores.RedisStore.Names.{text_eq-key, pattern_literal}
use armature_ratelimit.Stores.RedisStore.Sweep.{unlink, reset, fixed_keys, pattern_of}
use armature_ratelimit.Stores.RedisStore.{IsQuiet, RedisStore, key}

starts_with-cancel : (p s t : Text) → starts_with (p ++ s) (p ++ t) ≡ starts_with s t
unfolding starts_with
starts_with-cancel [] s t = refl
starts_with-cancel (c ∷ p) s t = ground (arith, starts_with-cancel p s t)

starts_with_other :
    (d e s t : Text)
    → length d ≡ length e
    → text_eq d e ≡ false
    → starts_with (d ++ s) (e ++ t) ≡ false
unfolding starts_with text_eq
starts_with_other [] [] s t l n = cc
starts_with_other [] (y ∷ e) s t l n = absurd (omega arith)
starts_with_other (x ∷ d) [] s t l n = absurd (omega arith)
starts_with_other (x ∷ d) (y ∷ e) s t l n = ground (arith, starts_with_other d e s t)

-- A counter's name starts with the pattern of its own digest only.
sweeps_other :
    (d e : Text) (j : Kind)
    → length d ≡ length e
    → text_eq d e ≡ false
    → starts_with (codes "fw:" ++ (d ++ codes ":")) (suffix_of e j) ≡ false
unfolding starts_with
sweeps_other d e (fw id) l n = starts_with_other d e (codes ":") (codes ":" ++ id) l n
sweeps_other d e j l n = refl

module _ (host : Host) (is_host : IsHost host) where
  pub length-key_digest : (a b : Text) → length (key_digest host a) ≡ length (key_digest host b)
  unfolding key_digest
  length-key_digest a b = omega (
    arith,
    length-hex (host.sha256 a),
    length-hex (host.sha256 b),
    is_host.length-sha256 a,
    is_host.length-sha256 b,
  )

module _ (fl : Float) (r : Redis fl) (store : RedisStore fl r) where
  pub apart :
      (d e : Text) (k j : Kind)
      → length d ≡ length e
      → text_eq d e ≡ false
      → text_eq (key_of fl r store d k) (key_of fl r store e j) ≡ false
  apart d e k j l n =
      text_eq-key fl r store (suffix_of d k) (suffix_of e j) ∙ suffix_of_other d e k j l n

  unlisted :
      (d e : Text) (kind : Kind)
      → length d ≡ length e
      → text_eq d e ≡ false
      → mem (key_of fl r store e kind) (fixed_keys fl r store d) ≡ false
  unlisted d e kind l n =
      rw
        (
          apart d e tb kind l n,
          apart d e sw kind l n,
          apart d e swmax kind l n,
          apart d e swseq kind l n,
          apart d e fwmax kind l n,
          apart d e fwcur kind l n,
        )
        refl

  unswept :
      (is_redis : IsRedis fl r) (host : Host) (name e : Text) (kind : Kind)
      → IsLiteral store.prefix
      → length (key_digest host name) ≡ length e
      → text_eq (key_digest host name) e ≡ false
      → r.matches (pattern_of fl r store (key_digest host name)) (key_of fl r store e kind) ≡ false
  unfolding key starts_with
  unswept is_redis host name e kind literal l n =
      pattern_literal fl r is_redis store host name (key_of fl r store e kind) literal
      ∙ starts_with-cancel store.prefix (codes ":fw:" ++ (key_digest host name ++ codes ":"))
          (codes ":" ++ suffix_of e kind)
      ∙ sweeps_other (key_digest host name) e kind l n

module _ (fl : Float) (r : Redis fl) (is_redis : IsRedis fl r) (host : Host)
    (is_host : IsHost host) where
  -- With a key prefix free of glob characters and no other client in between, a `reset` that ends
  -- leaves every key of a client with another digest as it was but for its expiry, whatever
  -- becomes of its requests.
  pub reset-key_of_other :
      (store : RedisStore fl r) (fuel : ℕ) (name other : Text) (kind : Kind)
      (end : RedisStore fl r × Outcome (Unit {0}))
      → IsLiteral store.prefix
      → IsQuiet fl r store.conn.turns
      → text_eq (key_digest host name) (key_digest host other) ≡ false
      → reset fl r host fuel name store ≡ some end
      → r.held end.0.conn.server end.0.conn.time (key_of fl r store (key_digest host other) kind)
        ≡ still end.0.conn.time (
            r.held store.conn.server store.conn.time
              (key_of fl r store (key_digest host other) kind))
  unfolding reset
  reset-key_of_other store fuel name other kind end literal quiet differ e =
      let d = key_digest host name in
      let j = key_of fl r store (key_digest host other) kind in
      let same_length = length-key_digest host is_host name other in
      (Kept-sweep_after fl r is_redis j (pattern_of fl r store d)
        (unswept fl r store is_redis host name (key_digest host other) kind literal same_length
          differ)
        fuel store (unlink fl r (fixed_keys fl r store d) store) end
        (Kept-unlink fl r is_redis j (fixed_keys fl r store d) store
          (unlisted fl r store d (key_digest host other) kind same_length differ) quiet)
        e).1
