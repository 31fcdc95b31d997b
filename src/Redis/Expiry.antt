-- ===== src/Redis/Expiry.antt =====
-- Deadlines: what is expired stays so.
use armature_ratelimit.Prelude.{
  ℕ, ◌≤◌, ◌≡◌, refl, true, false, Option, none, some, arith, Bool-cases, inl, inr,
}
use armature_ratelimit.Redis.{Held, expired, still}
use armature_ratelimit.Float.{Float}

expired_mono : (d : Option ℕ) (t t' : ℕ) → t ≤ t' → expired d t ≡ true → expired d t' ≡ true
expired_mono none t t' le e = e
expired_mono (some d) t t' le e = ground arith

module _ {fl : Float} where
  pub still-still : (o : Option (Held fl)) (t t' : ℕ) → t ≤ t' → still t' o ≡ still t' (still t o)
  still-still none t t' h = refl
  still-still (some h) t t' le = elim (Bool-cases (expired h.deadline t)) [
    | inl e ↦ rw (e, expired_mono h.deadline t t' le e)
    | inr e ↦ rw e
  ]

  pub still-eq-some :
      (o : Option (Held fl)) (t : ℕ) (h : Held fl)
      → still t o ≡ some h
      → expired h.deadline t ≡ false
  still-eq-some none t h e = cc
  still-eq-some (some g) t h e = ground arith
