-- ===== src/Redis/Zsets.antt =====
-- Sorted sets on the server of Redis/Space.antt.
use armature_ratelimit.DashMap.Assoc.{put}
use armature_ratelimit.DashMap.Keys.{lookup}
use armature_ratelimit.Float.{Float}
use armature_ratelimit.Prelude.{
  Bool, Bool-cases, suc, if◌then◌else◌, inl, inr, count_if, text_eq, arith, length, sym, subst, ℕ,
  ◌≡◌, refl, ap, ◌∙◌, false, Option, none, some, List, [], ◌∷◌, Text,
}
use armature_ratelimit.Redis.{
  Value, zremrangebyscore, zadd, expired, hash, zset, done, string, Held, expired, still,
}
use armature_ratelimit.Redis.Laws.{Unmoved, Alike, IsZset, entries, outside}
use armature_ratelimit.Redis.Expiry.{still-eq-some}
use armature_ratelimit.Redis.Space.{scored, revalue, size_at, Space, held_at, effect, put_write}
use armature_ratelimit.Redis.Writes.{held_at-stored_self}

suc_ne_zero : {n : ℕ} → suc n ≡ 0 → ⊥
suc_ne_zero h = omega arith

swap_counts :
    (a b : Bool) (n : ℕ)
    → (if a then suc (if b then suc n else n) else (if b then suc n else n))
      ≡ (if b then suc (if a then suc n else n) else (if a then suc n else n))
swap_counts a b n = ground arith

module _ (fl : Float) where
  scored_lem :
      (l : List (Text × fl.F)) (d : Option ℕ) (t : ℕ)
      → expired d t ≡ false
      → IsZset (still t (scored fl l d)) × (entries (still t (scored fl l d)) ≡ l)
  scored_lem [] d t e = (tt, refl)
  scored_lem (x ∷ l) d t e = rw e (tt, refl)

  zrem_value :
      (low high : fl.F) (t : ℕ) (v : Value fl) (d : Option ℕ)
      → expired d t ≡ false
      → IsZset (some (record { value = v; deadline = d }))
      → ((revalue fl (zremrangebyscore low high) t v d).1 ≡ done tt)
        × IsZset (still t (revalue fl (zremrangebyscore low high) t v d).0)
        × (entries (still t (revalue fl (zremrangebyscore low high) t v d).0)
            ≡ outside fl low high (entries (some (record { value = v; deadline = d }))))
  zrem_value low high t (zset l) d e z =
      let (a, b) = scored_lem (outside fl low high l) d t e in (refl, a, b)
  zrem_value low high t (string v) d e z = absurd z
  zrem_value low high t (hash l) d e z = absurd z

  scored-Unmoved :
      (v : Value fl) (l : List (Text × fl.F)) (d : Option ℕ) (t : ℕ)
      → expired d t ≡ false
      → Unmoved (some (record { value = v; deadline = d })) (still t (scored fl l d))
  scored-Unmoved v [] d t e = inl refl
  scored-Unmoved v (x ∷ l) d t e = inr (
    record { value = v; deadline = d },
    record { value = zset (x ∷ l); deadline = d },
    refl,
    rw e refl,
    refl,
  )

  zrem-Unmoved :
      (low high : fl.F) (t : ℕ) (v : Value fl) (d : Option ℕ)
      → expired d t ≡ false
      → IsZset (some (record { value = v; deadline = d }))
      → Unmoved
          (some (record { value = v; deadline = d }))
          (still t (revalue fl (zremrangebyscore low high) t v d).0)
  zrem-Unmoved low high t (zset l) d e z = scored-Unmoved (zset l) (outside fl low high l) d t e
  zrem-Unmoved low high t (string v) d e z = absurd z
  zrem-Unmoved low high t (hash l) d e z = absurd z

  zrem_effect :
      (low high : fl.F) (t : ℕ) (o : Option (Held fl))
      → ((h : Held fl) → o ≡ some h → expired h.deadline t ≡ false)
      → IsZset o
      → ((effect fl (zremrangebyscore low high) t o).1 ≡ done tt)
        × IsZset (still t (effect fl (zremrangebyscore low high) t o).0)
        × (entries (still t (effect fl (zremrangebyscore low high) t o).0)
            ≡ outside fl low high (entries o))
        × Unmoved o (still t (effect fl (zremrangebyscore low high) t o).0)
  zrem_effect low high t none live z = (refl, tt, refl, inl refl)
  zrem_effect low high t (some h) live z =
      let (a, b, c) = zrem_value low high t h.value h.deadline (live h refl) z in
      (a, b, c, zrem-Unmoved low high t h.value h.deadline (live h refl) z)

  pub put_zrem :
      (s : Space fl) (t : ℕ) (k : Text) (low high : fl.F)
      → IsZset (held_at fl s t k)
      → ((put_write fl s t k (zremrangebyscore low high)).1 ≡ done tt)
        × IsZset (held_at fl (put_write fl s t k (zremrangebyscore low high)).0 t k)
        × (entries (held_at fl (put_write fl s t k (zremrangebyscore low high)).0 t k)
            ≡ outside fl low high (entries (held_at fl s t k)))
        × Unmoved
            (held_at fl s t k)
            (held_at fl (put_write fl s t k (zremrangebyscore low high)).0 t k)
  put_zrem s t k low high z =
      let (a, b, c, u) =
        zrem_effect low high t (held_at fl s t k) (λ h e. still-eq-some (lookup k s.0) t h e) z in
      let self =
        held_at-stored_self fl s t k (effect fl (zremrangebyscore low high) t (held_at fl s t k)) in
      (
        a,
        subst IsZset (sym self) b,
        ap entries self ∙ c,
        subst (Unmoved (held_at fl s t k)) (sym self) u,
      )

  size_value :
      (v : Value fl) (d : Option ℕ)
      → IsZset (some (record { value = v; deadline = d }))
      → size_at fl (some (record { value = v; deadline = d }))
        ≡ done (length (entries (some (record { value = v; deadline = d }))))
  size_value (zset l) d z = refl
  size_value (string v) d z = absurd z
  size_value (hash l) d z = absurd z

  zadd_value :
      (x : fl.F) (m : Text) (t : ℕ) (v : Value fl) (d : Option ℕ)
      → IsZset (some (record { value = v; deadline = d }))
      → (revalue fl (zadd x m) t v d).1 ≡ done tt
  zadd_value x m t (zset l) d z = refl
  zadd_value x m t (string v) d z = absurd z
  zadd_value x m t (hash l) d z = absurd z

  pub size_lem : (o : Option (Held fl)) → IsZset o → size_at fl o ≡ done (length (entries o))
  size_lem none z = refl
  size_lem (some h) z = size_value h.value h.deadline z

  pub zadd_reply :
      (x : fl.F) (m : Text) (t : ℕ) (o : Option (Held fl))
      → IsZset o
      → (effect fl (zadd x m) t o).1 ≡ done tt
  zadd_reply x m t none z = refl
  zadd_reply x m t (some h) z = zadd_value x m t h.value h.deadline z

  put-Alike :
      (l : List (Text × fl.F)) (m : Text) (x : fl.F)
      → count_if (λ e. text_eq e.0 m) l ≡ 0
      → Alike (put l m x) ((m, x) ∷ l)
  put-Alike [] m x h p = refl
  put-Alike ((k, y) ∷ l) m x h p = elim (Bool-cases (text_eq k m)) [
    | inl e ↦ absurd (suc_ne_zero (rw e at h))
    | inr e ↦
        rw (e, put-Alike l m x (rw e at h) p) (swap_counts (p (k, y)) (p (m, x)) (count_if p l))
  ]

  zadd_held :
      (x : fl.F) (m : Text) (t : ℕ) (v : Value fl) (d : Option ℕ)
      → expired d t ≡ false
      → IsZset (some (record { value = v; deadline = d }))
      → count_if (λ e. text_eq e.0 m) (entries (some (record { value = v; deadline = d }))) ≡ 0
      → (h : Held fl) × (still t (revalue fl (zadd x m) t v d).0 ≡ some h)
        × IsZset (some h)
        × Alike (entries (some h)) ((m, x) ∷ entries (some (record { value = v; deadline = d })))
  zadd_held x m t (zset l) d e z new =
      (record { value = zset (put l m x); deadline = d }, rw e refl, tt, put-Alike l m x new)
  zadd_held x m t (string v) d e z new = absurd z
  zadd_held x m t (hash l) d e z new = absurd z

  zadd_effect :
      (x : fl.F) (m : Text) (t : ℕ) (o : Option (Held fl))
      → ((h : Held fl) → o ≡ some h → expired h.deadline t ≡ false)
      → IsZset o
      → count_if (λ e. text_eq e.0 m) (entries o) ≡ 0
      → (h : Held fl) × (still t (effect fl (zadd x m) t o).0 ≡ some h)
        × IsZset (some h)
        × Alike (entries (some h)) ((m, x) ∷ entries o)
  zadd_effect x m t none live z new =
      (record { value = zset ((m, x) ∷ []); deadline = none }, refl, tt, λ p. refl)
  zadd_effect x m t (some h) live z new = zadd_held x m t h.value h.deadline (live h refl) z new

  pub put_zadd :
      (s : Space fl) (t : ℕ) (k : Text) (x : fl.F) (m : Text)
      → IsZset (held_at fl s t k)
      → count_if (λ e. text_eq e.0 m) (entries (held_at fl s t k)) ≡ 0
      → (h : Held fl) × (held_at fl (put_write fl s t k (zadd x m)).0 t k ≡ some h)
        × IsZset (some h)
        × Alike (entries (some h)) ((m, x) ∷ entries (held_at fl s t k))
  put_zadd s t k x m z new =
      let (h, e, z', alike) =
        zadd_effect x m t (held_at fl s t k) (λ h e. still-eq-some (lookup k s.0) t h e) z new in
      (h, held_at-stored_self fl s t k (effect fl (zadd x m) t (held_at fl s t k)) ∙ e, z', alike)
