-- ===== src/Stores/RedisScripts/Logging.antt =====
-- src/stores/redis.rs: what the sliding window script does to the log of a client.
use armature_ratelimit.Float.{Float, IsIeee, exact_bound}
use armature_ratelimit.Headers.{to_string}
use armature_ratelimit.Prelude.{
  ℕ, ◌≤◌, ◌≡◌, ◌⊎◌, refl, ap, sym, subst, ◌∙◌, Option, none, some, [], ◌∷◌, Text, arith, Bool-cases,
  inl, inr, leb, count_if, if◌then◌else◌,
}
use armature_ratelimit.Redis.{Redis, Held, string, still}
use armature_ratelimit.Redis.Laws.{IsRedis, entries, IsZset, outside, Alike, Unmoved}
use armature_ratelimit.Stores.RedisScripts.Members.{
  Log, member, newer, UpTo, image, Alike-cons, Alike-outside, outside-image,
}

module _ (fl : Float) where
  -- A sorted set that shows a log, until a deadline.
  pub record Shows (o : Option (Held fl)) (log : Log) (d : ℕ) : Type 0 where
    pub sorted : IsZset o
    pub alike : Alike (entries o) (image fl log)
    pub until : (h : Held fl) → o ≡ some h → h.deadline ≡ some d

  Unmoved-until :
      (o o' : Option (Held fl)) (d : ℕ)
      → Unmoved o o'
      → ((h : Held fl) → o ≡ some h → h.deadline ≡ some d)
      → (h : Held fl) → o' ≡ some h
      → h.deadline ≡ some d
  Unmoved-until o o' d (inl gone) until h e = cc
  Unmoved-until o o' d (inr (g, g', eo, eo', same)) until h e = cc (until g eo)

  pub Shows-newer :
      (ieee : IsIeee fl) (o o' : Option (Held fl)) (log : Log) (d n cutoff : ℕ)
      → cutoff ≤ exact_bound
      → UpTo n log
      → IsZset o'
      → entries o' ≡ outside fl (fl.of_u64 0) (fl.of_u64 cutoff) (entries o)
      → Unmoved o o'
      → Shows o log d
      → Shows o' (newer cutoff log) d
  Shows-newer ieee o o' log d n cutoff small upto z left unmoved shows = record {
    sorted = z;
    alike = λ p.
        ap (count_if p) left
        ∙ Alike-outside fl (fl.of_u64 0) (fl.of_u64 cutoff) (entries o) (image fl log) shows.alike p
        ∙ ap (count_if p) (outside-image fl ieee cutoff n log small upto);
    until = Unmoved-until o o' d unmoved shows.until;
  }

  pub Shows-cons :
      (o : Option (Held fl)) (log : Log) (d d' now n : ℕ) (h : Held fl)
      → Shows o log d
      → IsZset (some h)
      → Alike (entries (some h)) ((member now n, fl.of_u64 now) ∷ entries o)
      → Shows (some (record h { deadline = some d' })) ((now, n) ∷ log) d'
  Shows-cons o log d d' now n h shows z alike = record {
    sorted = z;
    alike = λ p.
        alike p ∙ Alike-cons (member now n, fl.of_u64 now) (entries o) (image fl log) shows.alike p;
    until = λ g e. cc;
  }

  still_until :
      (o : Option (Held fl)) (d t : ℕ)
      → ((h : Held fl) → o ≡ some h → h.deadline ≡ some d)
      → still t o ≡ (if leb d t then none else o)
  still_until none d t until = ground arith
  still_until (some h) d t until = rw (until h refl) refl

module _ (fl : Float) (r : Redis fl) (is_redis : IsRedis fl r) (key seqkey : Text) where
  abbrev IsIdle : r.Server → ℕ → Log → Type 0
  IsIdle s t log = (r.held s t key ≡ none) × (r.held s t seqkey ≡ none) × (log ≡ [])

  abbrev pub IsLive : r.Server → ℕ → Log → ℕ → ℕ → Type 0
  IsLive s t log m d =
      (r.held s t seqkey ≡ some (record { value = string (to_string m); deadline = some d }))
      × Shows fl (r.held s t key) log d
      × UpTo m log

  -- The client's keys show a log with numbers up to `m`, until a deadline, or there are none.
  abbrev pub IsLogged : r.Server → ℕ → Log → ℕ → ℕ → Type 0
  IsLogged s t log m d = IsIdle s t log ⊎ IsLive s t log m d

  pub IsLogged-held :
      (s s' : r.Server) (t : ℕ) (log : Log) (m d : ℕ)
      → r.held s' t key ≡ r.held s t key
      → r.held s' t seqkey ≡ r.held s t seqkey
      → IsLogged s t log m d
      → IsLogged s' t log m d
  IsLogged-held s s' t log m d e f (inl (a, b, c)) = inl (e ∙ a, f ∙ b, c)
  IsLogged-held s s' t log m d e f (inr (a, b, c)) =
      inr (f ∙ a, subst (λ o. Shows fl o log d) (sym e) b, c)

  -- Both keys live on together, or are gone together.
  pub IsLogged-later :
      (s : r.Server) (t t' : ℕ) (log : Log) (m d : ℕ)
      → t ≤ t'
      → IsLogged s t log m d
      → IsLogged s t' log m d ⊎ (d ≤ t') × IsLogged s t' [] m d
  IsLogged-later s t t' log m d le (inl (a, b, c)) = inl (
      inl (
        is_redis.held-later s t t' key le ∙ ap (still t') a,
        is_redis.held-later s t t' seqkey le ∙ ap (still t') b,
        c,
      ))
  IsLogged-later s t t' log m d le (inr (a, b, c)) =
      let k = is_redis.held-later s t t' key le ∙ still_until fl (r.held s t key) d t' b.until in
      let q = is_redis.held-later s t t' seqkey le ∙ ap (still t') a in
      elim (Bool-cases (leb d t')) [
        | inl past ↦ inr (ground arith, inl (rw past at k, rw past at q, refl))
        | inr live ↦
            let same : r.held s t' key ≡ r.held s t key = rw live at k in
            inl (inr (rw live at q, subst (λ o. Shows fl o log d) (sym same) b, c))
      ]
