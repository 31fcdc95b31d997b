-- ===== src/Stores/RedisScripts/Counter.antt =====
-- src/stores/redis.rs: what the fixed window script does to a counter.
use armature_ratelimit.Float.{Float}
use armature_ratelimit.Headers.{to_string}
use armature_ratelimit.Prelude.{
  ℕ, zero, suc, ◌≤◌, ◌<◌, ◌≡◌, refl, ap, ◌∙◌, false, Option, none, some, Text, text_eq, arith,
  Bool-cases, inl, inr,
}
use armature_ratelimit.Redis.{
  Redis, Lua, Answer, done, failed, Write, string, still, expire, set_ex, expired,
}
use armature_ratelimit.Redis.Laws.{IsRedis}
use armature_ratelimit.Stores.RedisScripts.{
  Run, after, call, given, give, incr, equals, start_window, after_incr, fixed_window_script,
}
use armature_ratelimit.Stores.RedisScripts as Scripts

pub unexpired : (d t : ℕ) → t < d → expired (some d) t ≡ false
unexpired d t h = ground arith

module _ (fl : Float) (r : Redis fl) (is_redis : IsRedis fl r) (counter : Text) where
  -- A script that leaves a key as it is.
  abbrev pub Keeps : {A : Type 0} → Run fl r A → Type 0
  Keeps request = (s : r.Server) (t : ℕ) → r.held (request s t).0 t counter ≡ r.held s t counter

  pub Keeps-after :
      {A B : Type 0} (next : A → Run fl r B) (t : ℕ) (out : r.Server × Answer A)
      → ((a : A) → Keeps (next a))
      → r.held (after fl r next t out).0 t counter ≡ r.held out.0 t counter
  Keeps-after next t (s, done a) keep = keep a s t
  Keeps-after next t (s, failed e) keep = refl

  pub Keeps-bind :
      {A B : Type 0} (request : Run fl r A) (next : A → Run fl r B)
      → Keeps request
      → ((a : A) → Keeps (next a))
      → Keeps (Scripts.◌>>=◌ fl r request next)
  Keeps-bind request next first rest s t = Keeps-after next t (request s t) rest ∙ first s t

  pub Keeps-given : (lua : Lua fl) (o : Option fl.F) → Keeps (given fl r lua o)
  Keeps-given lua none s t = refl
  Keeps-given lua (some x) s t = refl

  pub Keeps-call : (k : Text) (w : Write fl) → text_eq k counter ≡ false → Keeps (call fl r k w)
  Keeps-call k w other s t = is_redis.held-write s t k counter w other

  pub Keeps-companions :
      (fwmax fwcur max id ttl : Text)
      → text_eq fwmax counter ≡ false
      → text_eq fwcur counter ≡ false
      → Keeps
          (Scripts.◌>>◌ fl r (call fl r fwmax (set_ex max ttl)) (call fl r fwcur (set_ex id ttl)))
  Keeps-companions fwmax fwcur max id ttl m c =
      Keeps-bind (call fl r fwmax (set_ex max ttl)) (λ _. call fl r fwcur (set_ex id ttl))
        (Keeps-call fwmax (set_ex max ttl) m) (λ _. Keeps-call fwcur (set_ex id ttl) c)

  Keeps-start_window :
      (lua : Lua fl) (key fwmax fwcur max id : Text) (ttl : Option fl.F)
      → text_eq key counter ≡ false
      → text_eq fwmax counter ≡ false
      → text_eq fwcur counter ≡ false
      → Keeps (start_window fl r lua key fwmax fwcur max id ttl)
  unfolding start_window
  Keeps-start_window lua key fwmax fwcur max id none k m c s t = refl
  Keeps-start_window lua key fwmax fwcur max id (some x) k m c s t =
      let ttl = lua.arg_text x in
      Keeps-bind (call fl r key (expire ttl))
        (λ _.
          Scripts.◌>>◌ fl r (call fl r fwmax (set_ex max ttl)) (call fl r fwcur (set_ex id ttl)))
        (Keeps-call key (expire ttl) k) (λ _. Keeps-companions fwmax fwcur max id ttl m c) s t

  Keeps-after_incr :
      (lua : Lua fl) (key fwmax fwcur max id ttl : Text) (reply : ℕ)
      → text_eq key counter ≡ false
      → text_eq fwmax counter ≡ false
      → text_eq fwcur counter ≡ false
      → Keeps (after_incr fl r lua key fwmax fwcur max id ttl reply)
  unfolding after_incr
  Keeps-after_incr lua key fwmax fwcur max id ttl reply k m c s t =
      elim (Bool-cases (equals fl (lua.of_reply reply) (fl.of_u64 1))) [
        | inl e ↦ rw e (
            Keeps-bind (start_window fl r lua key fwmax fwcur max id (lua.tonumber ttl))
              (λ _. give fl r (lua.to_reply (lua.of_reply reply)))
              (Keeps-start_window lua key fwmax fwcur max id (lua.tonumber ttl) k m c)
              (λ _ s t. refl) s t)
        | inr e ↦ rw e refl
      ]

  pub Keeps-fixed_window_script :
      (lua : Lua fl) (key fwmax fwcur max id ttl : Text)
      → text_eq key counter ≡ false
      → text_eq fwmax counter ≡ false
      → text_eq fwcur counter ≡ false
      → Keeps (fixed_window_script fl r lua key fwmax fwcur max id ttl)
  unfolding fixed_window_script
  Keeps-fixed_window_script lua key fwmax fwcur max id ttl k m c =
      Keeps-bind (incr fl r key) (after_incr fl r lua key fwmax fwcur max id ttl)
        (λ s t. is_redis.held-incr s t key counter k)
        (λ reply. Keeps-after_incr lua key fwmax fwcur max id ttl reply k m c)

  -- The key holds a counter of so many requests, until some deadline not before `over`.
  abbrev pub IsCounter : ℕ → r.Server → ℕ → ℕ → Type 0
  IsCounter over s t zero = r.held s t counter ≡ none
  IsCounter over s t (suc n) =
      (d : ℕ) × (over ≤ d)
      × (r.held s t counter
          ≡ some (record { value = string (to_string (suc n)); deadline = some d }))

  pub IsCounter-held :
      (over : ℕ) (s s' : r.Server) (t t' n : ℕ)
      → r.held s' t' counter ≡ r.held s t counter
      → IsCounter over s t n
      → IsCounter over s' t' n
  IsCounter-held over s s' t t' zero e h = e ∙ h
  IsCounter-held over s s' t t' (suc n) e (d, le, h) = (d, le, e ∙ h)

  pub IsCounter-later :
      (over : ℕ) (s : r.Server) (t t' n : ℕ)
      → t ≤ t'
      → t' < over
      → IsCounter over s t n
      → IsCounter over s t' n
  IsCounter-later over s t t' zero le lt h = is_redis.held-later s t t' counter le ∙ ap (still t') h
  IsCounter-later over s t t' (suc n) le lt (d, ge, h) = (
    d,
    ge,
    is_redis.held-later s t t' counter le ∙ ap (still t') h ∙ rw (unexpired d t' (omega arith)),
  )

  -- A reply that is this number, if it is no error.
  abbrev pub Says : ℕ → Answer ℕ → Type 0
  Says n (done c) = c ≡ n
  Says n (failed e) = Unit

  -- What the script leaves.
  abbrev pub Counted : ℕ → ℕ → ℕ → r.Server × Answer ℕ → Type 0
  Counted over t n out = IsCounter over out.0 t n × Says n out.1
