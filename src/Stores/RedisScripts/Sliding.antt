-- ===== src/Stores/RedisScripts/Sliding.antt =====
-- src/stores/redis.rs: what the sliding window script answers.
use armature_ratelimit.Float.{Float, IsIeee, exact_bound}
use armature_ratelimit.Headers.{to_string}
use armature_ratelimit.Prelude.{
  ℕ, suc, ◌+◌, ◌-◌, ◌≤◌, ◌<◌, ◌≡◌, ◌⊎◌, refl, sym, subst, ap, Bool, true, ◌∙◌, false, Option, none,
  some, Text, text_eq, arith, Bool-cases, inl, inr, ltb, length, codes, ◌++◌, if◌then◌else◌,
}
use armature_ratelimit.Redis.{
  Redis, Lua, Held, Answer, done, string, expire, set_ex, zremrangebyscore, zadd,
}
use armature_ratelimit.Redis.Laws.{IsRedis, IsLua, ttl_bound, entries, IsZset, outside}
use armature_ratelimit.Stores.RedisScripts.{
  Run, after, call, given, give, incr, admit_member, sliding_window_script,
}
use armature_ratelimit.Stores.RedisScripts as Scripts

decided :
    {S A : Type 0} (b : Bool) (x y : S × Answer A) (a a' : A)
    → x.1 ≡ done a
    → y.1 ≡ done a'
    → (if b then x else y).1 ≡ done (if b then a else a')
decided true x y a a' e e' = e
decided false x y a a' e e' = e'

-- A sequence counter: a number that can be counted on, or none yet.
abbrev pub IsSequence : {fl : Float} → Option (Held fl) → Type 0
IsSequence {fl} o =
    (o ≡ none)
    ⊎ (n : ℕ) × (d : Option ℕ) × (o ≡ some (record { value = string (to_string n); deadline = d }))
      × (n < exact_bound)

module _ (fl : Float) (r : Redis fl) (is_redis : IsRedis fl r) (lua : Lua fl)
    (is_lua : IsLua fl lua) (ieee : IsIeee fl) where
  incr_sequence :
      (k : Text) (s : r.Server) (t : ℕ)
      → IsSequence (r.held s t k)
      → (m : ℕ) × ((r.incr s t k).1 ≡ done m)
  incr_sequence k s t (inl absent) = (1, (is_redis.incr_new s t k absent).0)
  incr_sequence k s t (inr (n, d, held, small)) =
      (suc n, (is_redis.incr_next s t k n d held small).0)

  module _ (key seqkey : Text) (apart : text_eq seqkey key ≡ false) (ttl now left : ℕ)
      (pos : 0 < ttl) (short : ttl ≤ ttl_bound) where
    -- The server after a request is admitted with this number in the sequence.
    abbrev pub admitted_server : r.Server → ℕ → ℕ → r.Server
    admitted_server s t n =
        let s1 = (r.incr s t seqkey).0 in
        let s2 = (r.write s1 t seqkey (expire (to_string ttl))).0 in
        let m = lua.concat_text (fl.of_u64 now) ++ codes "-" ++ lua.concat_text (lua.of_reply n) in
        let s3 = (r.write s2 t key (zadd (fl.of_u64 now) m)).0 in
        (r.write s3 t key (expire (to_string ttl))).0

    -- An admitted request is answered with what is left, if the sequence counter counts on.
    admit_member_lem :
        (s : r.Server) (t n : ℕ)
        → IsZset (r.held s t key)
        → (r.incr s t seqkey).1 ≡ done n
        → admit_member fl r lua key seqkey (to_string ttl) (some (fl.of_u64 now)) left s t
          ≡ (admitted_server s t n, done (1, left))
    unfolding admit_member
    admit_member_lem s t n z counted =
        let s1 = (r.incr s t seqkey).0 in
        let s2 = (r.write s1 t seqkey (expire (to_string ttl))).0 in
        let m = lua.concat_text (fl.of_u64 now) ++ codes "-" ++ lua.concat_text (lua.of_reply n) in
        let s3 = (r.write s2 t key (zadd (fl.of_u64 now) m)).0 in
        let same =
          is_redis.held-write s1 t seqkey key (expire (to_string ttl)) apart
          ∙ is_redis.held-incr s t seqkey key apart in
        rw
          (
            counted,
            is_redis.expire_answers s1 t seqkey ttl pos short,
            is_redis.zadd_answers s2 t key (fl.of_u64 now) m (subst IsZset (sym same) z),
            is_redis.expire_answers s3 t key ttl pos short,
            Scripts.◌>>=◌,
            after,
            call,
            incr,
          )
          refl

  module _ (key maxkey seqkey : Text) (max_apart : text_eq maxkey key ≡ false)
      (seq_apart : text_eq seqkey key ≡ false) (max_seq : text_eq maxkey seqkey ≡ false)
      (key_seq : text_eq key seqkey ≡ false) (max now cutoff secs : ℕ)
      (small_max : max ≤ exact_bound) (small_now : now ≤ exact_bound)
      (small_cutoff : cutoff ≤ exact_bound) (short : secs + 10 ≤ ttl_bound) where
    -- The entries that the script counts.
    abbrev pub counted_at : r.Server → ℕ → ℕ
    counted_at s t = length (outside fl (fl.of_u64 0) (fl.of_u64 cutoff) (entries (r.held s t key)))

    -- What the script leaves and answers on a count.
    abbrev pub decision : r.Server → ℕ → ℕ → ℕ → r.Server × Answer (ℕ × ℕ)
    decision s t n m =
        if ltb n max
        then (
          admitted_server key seqkey seq_apart (secs + 10) now 0 (omega arith) short s t m,
          done (1, max - n - 1),
        )
        else (s, done (0, 0))

    decision_lem :
        (s : r.Server) (t n m : ℕ)
        → IsZset (r.held s t key)
        → (r.incr s t seqkey).1 ≡ done m
        → n ≤ exact_bound
        → (if ltb n max
              then admit_member fl r lua key seqkey
                  (to_string (secs + 10))
                  (some (fl.of_u64 now))
                  (lua.to_reply (fl.sub (fl.sub (fl.of_u64 max) (fl.of_u64 n)) (fl.of_u64 1)))
              else give fl r (0, 0))
            s t
          ≡ decision s t n m
    decision_lem s t n m z counted few = elim (Bool-cases (ltb n max)) [
      | inl room ↦
          let below : n < max = ground arith in
          rw
            (
              room,
              ieee.sub_integer max n (omega arith) small_max,
              ieee.sub_integer (max - n) 1 (omega arith) (omega arith),
              is_lua.to_reply_integer (max - n - 1) (omega arith),
            )
            (admit_member_lem key seqkey seq_apart (secs + 10) now (max - n - 1) (omega arith) short
              s t m z counted)
      | inr full ↦ rw full refl
    ]

    -- The server after the writes that every request makes.
    abbrev pub pruned_server : r.Server → ℕ → r.Server
    pruned_server s t =
        let s1 = (r.write s t maxkey (set_ex (to_string max) (to_string (secs + 10)))).0 in
        (r.write s1 t key (zremrangebyscore (fl.of_u64 0) (fl.of_u64 cutoff))).0

    pub sliding_window_lem :
        (s : r.Server) (t m : ℕ)
        → IsZset (r.held s t key)
        → counted_at s t ≤ exact_bound
        → (r.incr (pruned_server s t) t seqkey).1 ≡ done m
        → sliding_window_script fl r lua key maxkey seqkey
            (to_string max)
            (to_string now)
            (to_string cutoff)
            (to_string secs)
            s
            t
          ≡ decision (pruned_server s t) t (counted_at s t) m
    unfolding sliding_window_script
    sliding_window_lem s t m z few counted =
        let ttl = secs + 10 in
        let s1 = (r.write s t maxkey (set_ex (to_string max) (to_string ttl))).0 in
        let same =
          is_redis.held-write s t maxkey key (set_ex (to_string max) (to_string ttl)) max_apart in
        let z1 = subst IsZset (sym same) z in
        let (pruned, z2, left, _) =
          is_redis.zremrangebyscore_lem s1 t key (fl.of_u64 0) (fl.of_u64 cutoff) z1 in
        let s2 = pruned_server s t in
        simp
          (
            is_lua.tonumber_integer secs (omega arith),
            ieee.add_integer secs 10 (omega arith),
            is_lua.arg_text_integer ttl (omega arith),
            is_lua.tonumber_integer max small_max,
            is_lua.arg_text_integer max small_max,
            is_lua.tonumber_integer cutoff small_cutoff,
            is_lua.tonumber_integer now small_now,
          )
          (rw
            (
              is_redis.set_ex_answers s t maxkey (to_string max) ttl (omega arith) short,
              pruned,
              is_redis.zcard_lem s2 t key z2,
              left,
              same,
              is_lua.of_reply_integer (counted_at s t) few,
              ieee.lt_integer (counted_at s t) max few small_max,
              after,
              call,
            )
            (decision_lem s2 t (counted_at s t) m z2 counted few))

    pub sliding_window_answers :
        (s : r.Server) (t : ℕ)
        → IsZset (r.held s t key)
        → counted_at s t ≤ exact_bound
        → IsSequence (r.held s t seqkey)
        → (sliding_window_script fl r lua key maxkey seqkey
            (to_string max)
            (to_string now)
            (to_string cutoff)
            (to_string secs)
            s
            t).1
          ≡ done (if ltb (counted_at s t) max then (1, max - counted_at s t - 1) else (0, 0))
    sliding_window_answers s t z few sequence =
        let ttl = secs + 10 in
        let s1 = (r.write s t maxkey (set_ex (to_string max) (to_string ttl))).0 in
        let gone =
          is_redis.held-write s1 t key seqkey (zremrangebyscore (fl.of_u64 0) (fl.of_u64 cutoff))
            key_seq
          ∙ is_redis.held-write s t maxkey seqkey (set_ex (to_string max) (to_string ttl))
              max_seq in
        let (m, counted) =
          incr_sequence seqkey (pruned_server s t) t (subst IsSequence (sym gone) sequence) in
        ap (λ out. out.1) (sliding_window_lem s t m z few counted)
        ∙ decided (ltb (counted_at s t) max) _ _ (1, max - counted_at s t - 1) (0, 0) refl refl
