-- ===== src/Redis/Hashes.antt =====
-- Hashes on the server of Redis/Space.antt.
use armature_ratelimit.DashMap.Assoc.{put, lookup-put}
use armature_ratelimit.DashMap.Keys.{lookup}
use armature_ratelimit.Float.{Float}
use armature_ratelimit.Prelude.{
  ℕ, ◌≡◌, refl, ◌∙◌, false, Option, none, some, List, [], Text, text_eq, text_eq_iff, text_eq_refl,
  arith,
}
use armature_ratelimit.Redis.{Value, hmset, expired, hash, zset, done, string, Held, still}
use armature_ratelimit.Redis.Laws.{IsHash}
use armature_ratelimit.Redis.Expiry.{still-eq-some}
use armature_ratelimit.Redis.Space.{revalue, Space, held_at, effect, put_write}
use armature_ratelimit.Redis.Writes.{held_at-stored_self}

put_both :
    (l : List (Text × Text)) (f v g w : Text)
    → text_eq f g ≡ false
    → (lookup f (put (put l f v) g w) ≡ some v) × (lookup g (put (put l f v) g w) ≡ some w)
put_both l f v g w apart = (
  ground (
    arith,
    text_eq_iff g f,
    text_eq_iff f g,
    text_eq_refl f,
    lookup-put (put l f v) g w f,
    lookup-put l f v f,
  ),
  lookup-put (put l f v) g w g ∙ rw (text_eq_refl g) refl,
)

module _ (fl : Float) where
  -- What a key holds afterwards: a hash with these two fields.
  abbrev Fields : Text → Text → Text → Text → Option (Held fl) → Type 0
  Fields f v g w o =
      (l : List (Text × Text)) × (d : Option ℕ) × (o
        ≡ some (record { value = hash l; deadline = d }))
      × (lookup f l ≡ some v)
      × (lookup g l ≡ some w)

  hmset_value :
      (f v g w : Text) (t : ℕ) (old : Value fl) (d : Option ℕ)
      → expired d t ≡ false
      → IsHash (some (record { value = old; deadline = d }))
      → text_eq f g ≡ false
      → ((revalue fl (hmset f v g w) t old d).1 ≡ done tt)
        × Fields f v g w (still t (revalue fl (hmset f v g w) t old d).0)
  hmset_value f v g w t (hash l) d e z apart =
      let (a, b) = put_both l f v g w apart in (refl, (put (put l f v) g w, d, rw e refl, a, b))
  hmset_value f v g w t (string s) d e z apart = absurd z
  hmset_value f v g w t (zset l) d e z apart = absurd z

  hmset_effect :
      (f v g w : Text) (t : ℕ) (o : Option (Held fl))
      → ((h : Held fl) → o ≡ some h → expired h.deadline t ≡ false)
      → IsHash o
      → text_eq f g ≡ false
      → ((effect fl (hmset f v g w) t o).1 ≡ done tt)
        × Fields f v g w (still t (effect fl (hmset f v g w) t o).0)
  hmset_effect f v g w t none live z apart =
      let (a, b) = put_both [] f v g w apart in (refl, (put (put [] f v) g w, none, refl, a, b))
  hmset_effect f v g w t (some h) live z apart =
      hmset_value f v g w t h.value h.deadline (live h refl) z apart

  pub put_hmset :
      (s : Space fl) (t : ℕ) (k f v g w : Text)
      → IsHash (held_at fl s t k)
      → text_eq f g ≡ false
      → ((put_write fl s t k (hmset f v g w)).1 ≡ done tt)
        × Fields f v g w (held_at fl (put_write fl s t k (hmset f v g w)).0 t k)
  put_hmset s t k f v g w z apart =
      let (a, (l, d, e, b, c)) =
        hmset_effect f v g w t (held_at fl s t k) (λ h e. still-eq-some (lookup k s.0) t h e) z
          apart in
      (
        a,
        (
          l,
          d,
          held_at-stored_self fl s t k (effect fl (hmset f v g w) t (held_at fl s t k)) ∙ e,
          b,
          c,
        ),
      )
