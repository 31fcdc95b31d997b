-- ===== src/Redis/Keyspace.antt =====
-- The facts of Redis/Laws.antt can be met, by the server of Redis/Space.antt.
use armature_ratelimit.DashMap.Assoc.{lookup-absent}
use armature_ratelimit.DashMap.Keys.{mem, keys}
use armature_ratelimit.Float.{Float}
use armature_ratelimit.Headers.{to_string}
use armature_ratelimit.Prelude.{
  ℕ, ◌≡◌, ◌≢◌, ◌⊎◌, refl, ap, inl, inr, true, false, Option, none, some, List, [], ◌∷◌, ◌++◌, Text,
  text_eq_iff, ◌==◌, arith,
}
use armature_ratelimit.Redis.{set_ex, hash, zset, Answer, done, string, Held, still, expire}
use armature_ratelimit.Redis.Laws.{text_of, IsRedis, IsLiteral, starts_with}
use armature_ratelimit.Redis.Space.{
  text_or_none, text_at, field_at, glob, matching, Space, held_at, effect, bump, keyspace,
}
use armature_ratelimit.Redis.Hashes.{put_hmset}
use armature_ratelimit.Redis.Writes.{
  held_at-later, held_at-stored_other, held_at-drop_keys, put_incr_new, put_incr_next, put_expire,
}
use armature_ratelimit.Redis.Zsets.{put_zrem, put_zadd, size_lem, zadd_reply}

glob_star : (p k : Text) → IsLiteral p → glob (p ++ 42 ∷ []) k ≡ starts_with p k
unfolding starts_with
glob_star [] [] l = refl
glob_star [] (d ∷ k) l = refl
glob_star (c ∷ p) [] l = ground arith
glob_star (c ∷ p) (d ∷ k) l = ground (arith, glob_star p k l.1)

matching_all :
    (p j : Text) (ks : List Text)
    → glob p j ≡ true
    → (mem j ks ≡ false) ⊎ (mem j (matching p ks) ≡ true)
matching_all p j [] g = inl refl
matching_all p j (k ∷ ks) g = ground (arith, matching_all p j ks, text_eq_iff k j)

matching-matches : (p j : Text) (ks : List Text) → mem j (matching p ks) ≡ true → glob p j ≡ true
matching-matches p j [] e = cc
matching-matches p j (k ∷ ks) e = ground (arith, matching-matches p j ks, text_eq_iff k j)

done-inj : {a b : ℕ × List Text} → done a ≡ done b → a ≡ b
done-inj e = cc

module _ (fl : Float) where
  matched :
      (s : Space fl) (t : ℕ) (p : Text) (next : ℕ) (ks : List Text) (j : Text)
      → ◌≡◌ {A = Answer (ℕ × List Text)} (done (0, matching p (keys s.0))) (done (next, ks))
      → glob p j ≡ true
      → (held_at fl s t j ≡ none) ⊎ (mem j ks ≡ true) ⊎ (next ≢ 0) × (true ≡ true)
  matched s t p next ks j e g =
      let same = done-inj e in
      elim (matching_all p j (keys s.0) g) [
        | inl absent ↦ inl (ap (still t) (lookup-absent s.0 j absent))
        | inr found ↦ inr (inl (rw (← ap (λ q. q.1) same) found))
      ]

  last_round :
      (p : Text) (s : Space fl) (next : ℕ) (ks : List Text)
      → ◌≡◌ {A = Answer (ℕ × List Text)} (done (0, matching p (keys s.0))) (done (next, ks))
      → (next == 0) ≡ false
      → ⊥
  last_round p s next ks e n = ground (arith, ap (λ q. q.0) (done-inj e))

  expire_reply :
      (ttl : Text) (t : ℕ) (o : Option (Held fl)) → (effect fl (expire ttl) t o).1 ≡ done tt
  expire_reply ttl t none = refl
  expire_reply ttl t (some h) = refl

  set_ex_reply :
      (v ttl : Text) (t : ℕ) (o : Option (Held fl)) → (effect fl (set_ex v ttl) t o).1 ≡ done tt
  set_ex_reply v ttl t none = refl
  set_ex_reply v ttl t (some h) = refl

  text_lem : (o : Option (Held fl)) → text_or_none fl (text_at fl o) ≡ text_of o
  text_lem none = refl
  text_lem (some h) =
      elim h.value
        as (λ v.
          text_or_none fl (text_at fl (some (record h { value = v })))
          ≡ text_of (some (record h { value = v }))) [
            | string v ↦ refl
            | hash l ↦ refl
            | zset l ↦ refl
          ]

  texts :
      (s : Space fl) (t : ℕ) (a b c : Text)
      → (keyspace fl).mget s t a b c
        ≡ done
            (text_of (held_at fl s t a), (text_of (held_at fl s t b), text_of (held_at fl s t c)))
  texts s t a b c =
      rw (text_lem (held_at fl s t a), text_lem (held_at fl s t b), text_lem (held_at fl s t c))
        refl

  pub keyspace-IsRedis : IsRedis fl (keyspace fl)
  keyspace-IsRedis = record {
    held-later = held_at-later fl;
    held-write =
        λ s t k j w e. held_at-stored_other fl s t k j (effect fl w t (held_at fl s t k)) e;
    held-incr = λ s t k j e. held_at-stored_other fl s t k j (bump fl (held_at fl s t k)) e;
    held-unlink = held_at-drop_keys fl;
    unlink_answers = λ s t ks. refl;
    incr_new = put_incr_new fl;
    incr_next = put_incr_next fl;
    expire_lem = put_expire fl;
    expire_answers = λ s t k n pos le. expire_reply (to_string n) t (held_at fl s t k);
    set_ex_answers = λ s t k v n pos le. set_ex_reply v (to_string n) t (held_at fl s t k);
    zremrangebyscore_lem = put_zrem fl;
    zcard_lem = λ s t k z. size_lem fl (held_at fl s t k) z;
    zadd_answers = λ s t k x m z. zadd_reply fl x m t (held_at fl s t k) z;
    zadd_lem = put_zadd fl;
    hget_absent = λ s t k f e. ap (field_at fl f) e;
    hmget_absent = λ s t k f g e. rw e refl;
    hmget_hash = λ s t k f g l d e. rw e refl;
    hmset_lem = put_hmset fl;
    get_string = λ s t k v d e. ap (text_at fl) e;
    mget_lem = λ s t a b c. texts s t a b c;
    matches_star = glob_star;
    scan_answers = λ s t cursor p. ((0, matching p (keys s.0)), refl);
    scan_start = λ s j. refl;
    scan_step = λ s t cursor p next ks j e g a. matched s t p next ks j e g;
    scan_matches = λ s t cursor p next ks j e m.
        matching-matches p j (keys s.0) (rw (ap (λ q. q.1) (done-inj e)) m);
    ahead-unlink = λ s t cursor ks j a. refl;
    rounds-scan = λ s t cursor p next ks e n. absurd (last_round p s next ks e n);
    rounds-unlink = λ s t cursor ks. omega arith;
  }
