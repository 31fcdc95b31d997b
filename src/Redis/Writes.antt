-- ===== src/Redis/Writes.antt =====
-- Writes to the server of Redis/Space.antt.
use armature_ratelimit.DashMap.Keys.{mem, lookup}
use armature_ratelimit.Float.{Float, exact_bound}
use armature_ratelimit.Headers.Digits.{to_string_lem}
use armature_ratelimit.Headers.{to_string}
use armature_ratelimit.Prelude.{
  ℕ, suc, ◌+◌, ◌*◌, ◌≤◌, ◌<◌, ◌≡◌, refl, ap, ◌∙◌, Bool-cases, inl, inr, false, Option, none, some,
  List, [], ◌∷◌, Text, text_eq, text_eq_refl, if◌then◌else◌, arith,
}
use armature_ratelimit.Redis.{expired, Answer, done, string, Held, expired, still, expire}
use armature_ratelimit.Redis.Laws.{ttl_bound}
use armature_ratelimit.Redis.Expiry.{still-still, still-eq-some}
use armature_ratelimit.Redis.Space.{
  Space, set_held_lem, held_at, effect, bump, stored, put_write, put_incr, drop_keys,
}

before : (t n : ℕ) → 0 < n → expired (some (t + n * 1000)) t ≡ false
before t n h = ground arith

module _ (fl : Float) where
  pub held_at-later :
      (s : Space fl) (t t' : ℕ) (j : Text)
      → t ≤ t'
      → held_at fl s t' j ≡ still t' (held_at fl s t j)
  held_at-later s t t' j h = still-still (lookup j s.0) t t' h

  held_at-stored :
      {A : Type 0} (s : Space fl) (t : ℕ) (k j : Text) (out : Option (Held fl) × Answer A)
      → held_at fl (stored fl s k out).0 t j ≡ still t (if text_eq k j then out.0 else lookup j s.0)
  held_at-stored s t k j out = ap (still t) (set_held_lem fl s k out.0 j)

  pub held_at-stored_self :
      {A : Type 0} (s : Space fl) (t : ℕ) (k : Text) (out : Option (Held fl) × Answer A)
      → held_at fl (stored fl s k out).0 t k ≡ still t out.0
  held_at-stored_self s t k out = rw (set_held_lem fl s k out.0 k, text_eq_refl k)

  pub held_at-stored_other :
      {A : Type 0} (s : Space fl) (t : ℕ) (k j : Text) (out : Option (Held fl) × Answer A)
      → text_eq k j ≡ false
      → held_at fl (stored fl s k out).0 t j ≡ held_at fl s t j
  held_at-stored_other s t k j out e = rw (set_held_lem fl s k out.0 j, e)

  drop_keys_lem :
      (s : Space fl) (ks : List Text) (j : Text)
      → lookup j (drop_keys fl s ks).0 ≡ (if mem j ks then none else lookup j s.0)
  drop_keys_lem s [] j = refl
  drop_keys_lem s (k ∷ ks) j =
      ground (arith, set_held_lem fl (drop_keys fl s ks) k none j, drop_keys_lem s ks j)

  pub held_at-drop_keys :
      (s : Space fl) (t : ℕ) (ks : List Text) (j : Text)
      → held_at fl (drop_keys fl s ks) t j ≡ (if mem j ks then none else held_at fl s t j)
  held_at-drop_keys s t ks j = elim (Bool-cases (mem j ks)) [
    | inl e ↦ rw (drop_keys_lem s ks j, e)
    | inr e ↦ rw (drop_keys_lem s ks j, e)
  ]

  pub put_incr_new :
      (s : Space fl) (t : ℕ) (k : Text)
      → held_at fl s t k ≡ none
      → ((put_incr fl s t k).1 ≡ done 1)
        × (held_at fl (put_incr fl s t k).0 t k
            ≡ some (record { value = string (to_string 1); deadline = none }))
  put_incr_new s t k e = (
    ap (λ o. (bump fl o).1) e,
    held_at-stored_self s t k (bump fl (held_at fl s t k)) ∙ ap (λ o. still t (bump fl o).0) e,
  )

  pub put_incr_next :
      (s : Space fl) (t : ℕ) (k : Text) (n : ℕ) (d : Option ℕ)
      → held_at fl s t k ≡ some (record { value = string (to_string n); deadline = d })
      → n < exact_bound
      → ((put_incr fl s t k).1 ≡ done (suc n))
        × (held_at fl (put_incr fl s t k).0 t k
            ≡ some (record { value = string (to_string (suc n)); deadline = d }))
  put_incr_next s t k n d e h =
      let n' = (to_string_lem n (omega arith)).0 in
      let live = still-eq-some (lookup k s.0) t _ e in
      (
        ap (λ o. (bump fl o).1) e ∙ rw n',
        held_at-stored_self s t k (bump fl (held_at fl s t k))
            ∙ ap (λ o. still t (bump fl o).0) e
            ∙ rw (live, n'),
      )

  pub put_expire :
      (s : Space fl) (t : ℕ) (k : Text) (h : Held fl) (n : ℕ)
      → held_at fl s t k ≡ some h
      → 0 < n
      → n ≤ ttl_bound
      → held_at fl (put_write fl s t k (expire (to_string n))).0 t k
        ≡ some (record h { deadline = some (t + n * 1000) })
  put_expire s t k h n e pos le =
      held_at-stored_self s t k (effect fl (expire (to_string n)) t (held_at fl s t k))
      ∙ ap (λ o. still t (effect fl (expire (to_string n)) t o).0) e
      ∙ rw ((to_string_lem n (omega arith)).0, before t n pos)
