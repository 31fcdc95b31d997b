-- ===== src/Stores/RedisStore/SlidingHistories.antt =====
-- src/stores/redis.rs: histories of sliding window checks by the clients of one server.
use armature_ratelimit.Extractor.{Host, key_digest}
use armature_ratelimit.Float.{Float}
use armature_ratelimit.Outcome.{Outcome, is_admitted}
use armature_ratelimit.Prelude.{
  ℕ, suc, ◌+◌, ◌-◌, ◌≤◌, ◌<◌, ◌≡◌, ◌⊎◌, refl, Bool, false, ◌&&◌, List, [], ◌∷◌, Text, text_eq,
  arith, ltb, leb, count_if, All, Ascending, if◌then◌else◌, Bool-cases, inl, inr,
}
use armature_ratelimit.Redis.{Redis, Lua}
use armature_ratelimit.Stores.RedisScripts.Members.{Log, printed, newer}
use armature_ratelimit.Stores.RedisStore.SlidingChecks.{ms, request_of, check_lem}
use armature_ratelimit.Stores.RedisStore.{Turn, RedisStore, with_op_timeout, sliding_window_check}
use armature_ratelimit.Stores.{Clock}

-- Later than `a`, and at most `w` later.
abbrev pub span : ℕ → ℕ → ℕ → Bool
span a w k = ltb a k && leb k (a + w)

rest_only : (b c : Bool) (n : ℕ) → n ≡ 0 → (if (b && false) && c then suc n else n) ≡ 0
rest_only b c n h = ground arith

module _ (host : Host) (window : ℕ) where
  -- A request of a client with this digest, at a clock in the span of one window after `a`.
  abbrev pub in_span : Text → ℕ → Clock × Text → Bool
  in_span digest a call =
      text_eq (key_digest host call.1) digest && span a (ms window) (ms call.0.since_epoch)

  abbrev pub admitted_in_span : Text → ℕ → (Clock × Text) × Outcome (Bool × ℕ) → Bool
  admitted_in_span digest a entry = in_span digest a entry.0 && is_admitted entry.1

  -- The clocks of a client's requests.
  abbrev pub clocks_of : Text → List (Clock × Text) → List ℕ
  clocks_of digest [] = []
  clocks_of digest (call ∷ calls) =
      let rest = clocks_of digest calls in
      if text_eq (key_digest host call.1) digest then ms call.0.since_epoch ∷ rest else rest

  -- At least one window after the epoch, and in the next thousand years.
  abbrev pub IsDated : Clock × Text → Type 0
  IsDated call = (window ≤ call.0.since_epoch) × (ms call.0.since_epoch < printed)

-- How far a clock may be from the server's, in milliseconds.
abbrev pub skew : ℕ
skew = 4_500

module _ (fl : Float) (r : Redis fl) where
  -- Each request's clock agrees with the server's at the request up to `skew`.
  abbrev pub Synced : ℕ → (ℕ → Turn fl r) → List (Clock × Text) → Type 0
  Synced time turns [] = Unit
  Synced time turns (call ∷ calls) =
      (ms call.0.since_epoch ≤ time + (turns 0).delay + skew)
      × (time + (turns 0).delay ≤ ms call.0.since_epoch + skew)
      × Synced (time + (turns 0).delay) (λ n. turns (suc n)) calls

  module _ (lua : Lua fl) (host : Host) (max window : ℕ) where
    -- Requests of any clients, by their clocks, and their outcomes.
    unfoldable pub sliding_checks :
        RedisStore fl r
        → List (Clock × Text)
        → RedisStore fl r × List ((Clock × Text) × Outcome (Bool × ℕ))
    sliding_checks store [] = (store, [])
    sliding_checks store ((now, name) ∷ calls) =
        let out = sliding_window_check fl r lua host now name max window store in
        let rest = sliding_checks out.0 calls in (rest.0, ((now, name), out.1) ∷ rest.1)

    abbrev pub admitted : Text → ℕ → RedisStore fl r → List (Clock × Text) → ℕ
    admitted digest a store calls =
        count_if (admitted_in_span host window digest a) (sliding_checks store calls).1

    -- A client's requests after the span are not counted.
    pub admitted_later :
        (digest : Text) (a from : ℕ) (calls : List (Clock × Text)) (store : RedisStore fl r)
        → a + ms window < from
        → Ascending from (clocks_of host window digest calls)
        → admitted digest a store calls ≡ 0
    unfolding sliding_checks
    admitted_later digest a from [] store late o = refl
    admitted_later digest a from ((now, name) ∷ calls) store late o =
        let next = (sliding_window_check fl r lua host now name max window store).0 in
        elim (Bool-cases (text_eq (key_digest host name) digest)) [
          | inl mine ↦
              let (ge, o') = rw mine at o in
              let out : span a (ms window) (ms now.since_epoch) ≡ false = ground arith in
              rw (mine, out)
                (admitted_later digest a (ms now.since_epoch) calls next (omega arith) o')
          | inr other ↦ rw other (admitted_later digest a from calls next late (rw other at o))
        ]

    -- Nor are requests once the server's clock is past the span by more than the skew.
    pub admitted_over :
        (digest : Text) (a : ℕ) (calls : List (Clock × Text)) (store : RedisStore fl r)
        → a + ms window + skew < store.conn.time + (store.conn.turns 0).delay
        → Synced store.conn.time store.conn.turns calls
        → All (IsDated host window) calls
        → admitted digest a store calls ≡ 0
    unfolding sliding_checks with_op_timeout
    admitted_over digest a [] store over synced dated = refl
    admitted_over digest a ((now, name) ∷ calls) store over synced dated =
        let out : span a (ms window) (ms now.since_epoch) ≡ false = ground arith in
        let next =
          (with_op_timeout fl r (request_of fl r lua host max window store now name) store).0 in
        rw
          (
            check_lem fl r lua host max window store now name dated.0.0 (omega (arith, dated.0.1)),
            out,
          )
          (rest_only (text_eq (key_digest host name) digest) _ _
            (admitted_over digest a calls next (omega arith) synced.2 dated.1))

-- The entries of a log in a span.
abbrev pub in_log : ℕ → ℕ → Log → ℕ
in_log a w = count_if (λ e. span a w e.0)

pub in_log-newer :
    (a w now : ℕ) (log : Log) → now ≤ a + w → in_log a w (newer (now - w) log) ≡ in_log a w log
in_log-newer a w now [] h = refl
in_log-newer a w now (e ∷ log) h = ground (arith, in_log-newer a w now log)

-- The entries of a log that expires at `d` are more than a window older.
abbrev pub Fits : ℕ → ℕ → Log → Type 0
Fits w d = All (λ e. e.0 + w + 9_001 ≤ d + skew)

pub Fits-mono : (w d d' : ℕ) (log : Log) → d ≤ d' → Fits w d log → Fits w d' log
Fits-mono w d d' [] le h = tt
Fits-mono w d d' (e ∷ log) le h = (omega (arith, h.0), Fits-mono w d d' log le h.1)

pub Fits-newer : (w d c : ℕ) (log : Log) → Fits w d log → Fits w d (newer c log)
Fits-newer w d c [] h = tt
Fits-newer w d c (e ∷ log) h = elim (Bool-cases (ltb c e.0)) [
  | inl lt ↦ rw lt (h.0, Fits-newer w d c log h.1)
  | inr ge ↦ rw ge (Fits-newer w d c log h.1)
]

-- A log that has expired had no entry in the span, or the span is over.
pub expired_cases :
    (a w d t : ℕ) (log : Log) → Fits w d log → d ≤ t → (in_log a w log ≡ 0) ⊎ (a + w + skew < t)
expired_cases a w d t [] h le = inl refl
expired_cases a w d t (e ∷ log) h le = elim (Bool-cases (ltb a e.0)) [
  | inl lt ↦ inr (ground (arith, h.0))
  | inr ge ↦ elim (expired_cases a w d t log h.1 le) [
    | inl zero ↦ inl (rw ge zero)
    | inr over ↦ inr over
  ]
]
