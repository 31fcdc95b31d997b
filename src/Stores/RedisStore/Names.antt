-- ===== src/Stores/RedisStore/Names.antt =====
-- src/stores/redis.rs: the names of the keys, which keep clients and kinds of state apart.
use armature_ratelimit.Extractor.{Host, key_digest, hex, hex_digit}
use armature_ratelimit.Float.{Float}
use armature_ratelimit.Prelude.{
  ℕ, ◌/◌, ◌%◌, ◌≡◌, refl, true, false, List, [], ◌∷◌, ◌++◌, Text, codes, text_eq, arith, ap, ◌∙◌,
  sym,
}
use armature_ratelimit.Redis.{Redis}
use armature_ratelimit.Redis.Laws.{IsRedis, IsLiteral, is_special, starts_with}
use armature_ratelimit.Stores.RedisStore.Sweep.{pattern_of}
use armature_ratelimit.Stores.RedisStore.{RedisStore, key, fw_key, fwmax_key, fwcur_key}
use mathlib.Core.List.{append_assoc}

text_eq-append : (p s t : Text) → text_eq (p ++ s) (p ++ t) ≡ text_eq s t
unfolding text_eq
text_eq-append [] s t = refl
text_eq-append (c ∷ p) s t = ground (arith, text_eq-append p s t)

module _ (fl : Float) (r : Redis fl) (store : RedisStore fl r) where
  pub text_eq-key : (s t : Text) → text_eq (key fl r store s) (key fl r store t) ≡ text_eq s t
  unfolding key text_eq
  text_eq-key s t = text_eq-append store.prefix (codes ":" ++ s) (codes ":" ++ t)

  -- The companions of a fixed window are no counters.
  pub fwmax-fw :
      (digest digest' id : Text)
      → text_eq (fwmax_key fl r store digest) (fw_key fl r store digest' id) ≡ false
  unfolding text_eq
  fwmax-fw digest digest' id =
      text_eq-key (codes "fwmax:" ++ digest) (codes "fw:" ++ (digest' ++ (codes ":" ++ id)))

  pub fwcur-fw :
      (digest digest' id : Text)
      → text_eq (fwcur_key fl r store digest) (fw_key fl r store digest' id) ≡ false
  unfolding text_eq
  fwcur-fw digest digest' id =
      text_eq-key (codes "fwcur:" ++ digest) (codes "fw:" ++ (digest' ++ (codes ":" ++ id)))

regroup :
    (prefix digest t : Text)
    → prefix ++ (codes ":fw:" ++ (digest ++ (codes ":" ++ t)))
      ≡ (prefix ++ (codes ":fw:" ++ (digest ++ codes ":"))) ++ t
regroup prefix digest t =
    ap (λ u. prefix ++ (codes ":fw:" ++ u)) (sym (append_assoc digest (codes ":") t))
    ∙ sym (append_assoc prefix (codes ":fw:" ++ (digest ++ codes ":")) t)

starts_with-append : (p t : Text) → starts_with p (p ++ t) ≡ true
unfolding starts_with
starts_with-append [] t = refl
starts_with-append (c ∷ p) t = ground (arith, starts_with-append p t)

IsLiteral-append : (s t : Text) → IsLiteral s → IsLiteral t → IsLiteral (s ++ t)
IsLiteral-append [] t a b = b
IsLiteral-append (c ∷ s) t a b = (a.0, IsLiteral-append s t a.1 b)

hex_digit_literal : (n : ℕ) → is_special (hex_digit n) ≡ false
hex_digit_literal n = ground arith

hex-IsLiteral : (bytes : List ℕ) → IsLiteral (hex bytes)
unfolding hex
hex-IsLiteral [] = tt
hex-IsLiteral (b ∷ bytes) =
    (hex_digit_literal (b / 16), (hex_digit_literal (b % 16), hex-IsLiteral bytes))

module _ (fl : Float) (r : Redis fl) (is_redis : IsRedis fl r) (store : RedisStore fl r) where
  -- The sweep's pattern matches the texts that start with its literal part.
  pub pattern_literal :
      (host : Host) (name k : Text)
      → IsLiteral store.prefix
      → r.matches (pattern_of fl r store (key_digest host name)) k
        ≡ starts_with (store.prefix ++ (codes ":fw:" ++ (key_digest host name ++ codes ":"))) k
  unfolding key key_digest
  pattern_literal host name k literal =
      let digest = hex (host.sha256 name) in
      let tail_literal =
        IsLiteral-append digest (codes ":") (hex-IsLiteral (host.sha256 name)) (refl, tt) in
      let head_literal =
        IsLiteral-append store.prefix (codes ":fw:" ++ (digest ++ codes ":")) literal
          (refl, (refl, (refl, (refl, tail_literal)))) in
      let head = store.prefix ++ (codes ":fw:" ++ (digest ++ codes ":")) in
      ap (λ p. r.matches p k) (regroup store.prefix digest (codes "*"))
      ∙ is_redis.matches_star head k head_literal

  -- It matches the counters of every window of its digest.
  pub pattern_of-fw :
      (host : Host) (name id : Text)
      → IsLiteral store.prefix
      → r.matches
          (pattern_of fl r store (key_digest host name))
          (fw_key fl r store (key_digest host name) id)
        ≡ true
  unfolding key
  pattern_of-fw host name id literal =
      let digest = key_digest host name in
      let head = store.prefix ++ (codes ":fw:" ++ (digest ++ codes ":")) in
      pattern_literal host name (fw_key fl r store digest id) literal
      ∙ ap (λ k. starts_with head k) (regroup store.prefix digest id)
      ∙ starts_with-append head id
