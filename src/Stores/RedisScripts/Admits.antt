-- ===== src/Stores/RedisScripts/Admits.antt =====
-- src/stores/redis.rs: what the log of a client is once the sliding window script has admitted a
-- request.
use armature_ratelimit.Float.{Float, IsIeee}
use armature_ratelimit.Headers.{to_string}
use armature_ratelimit.Prelude.{
  ℕ, suc, ◌+◌, ◌*◌, ◌≤◌, ◌<◌, ◌≡◌, refl, ap, sym, subst, ◌∙◌, false, Option, none, some, ◌∷◌, ◌++◌,
  Text, codes, text_eq, arith, inl, inr, count_if,
}
use armature_ratelimit.Redis.{Redis, Lua, done, string, expire, zadd}
use armature_ratelimit.Redis.Laws.{IsRedis, IsLua, ttl_bound, entries, IsZset, Alike}
use armature_ratelimit.Stores.RedisScripts.Members.{
  Log, member, printed, UpTo, image, image-absent, UpTo-mono,
}
use armature_ratelimit.Stores.RedisScripts.Logging.{Shows, Shows-cons, IsLive, IsLogged}
use armature_ratelimit.Stores.RedisScripts.Sliding.{admitted_server}

module _ (fl : Float) (r : Redis fl) (is_redis : IsRedis fl r) (lua : Lua fl)
    (is_lua : IsLua fl lua) (ieee : IsIeee fl) where
  module _ (key seqkey : Text) (apart : text_eq seqkey key ≡ false)
      (key_seq : text_eq key seqkey ≡ false) (ttl now left : ℕ) (pos : 0 < ttl)
      (short : ttl ≤ ttl_bound) (small : now < printed) where
    pub admitted-IsLive :
        (s : r.Server) (t n d : ℕ) (e : Option ℕ) (log : Log)
        → Shows fl (r.held s t key) log d
        → UpTo n log
        → suc n < printed
        → r.held (r.incr s t seqkey).0 t seqkey
          ≡ some (record { value = string (to_string (suc n)); deadline = e })
        → IsLive fl r is_redis key seqkey
            (admitted_server fl r is_redis lua is_lua ieee key seqkey apart ttl now left pos short s
              t
              (suc n))
            t
            ((now, suc n) ∷ log)
            (suc n)
            (t + ttl * 1000)
    admitted-IsLive s t n d e log shows upto few seq =
        let ex = expire (to_string ttl) in
        let s1 = (r.incr s t seqkey).0 in
        let s2 = (r.write s1 t seqkey ex).0 in
        let m =
          lua.concat_text (fl.of_u64 now) ++ codes "-" ++ lua.concat_text (lua.of_reply (suc n)) in
        let same_text : m ≡ member now (suc n) =
          rw
            (
              is_lua.of_reply_integer (suc n) (omega arith),
              is_lua.concat_text_integer now small,
              is_lua.concat_text_integer (suc n) few,
            )
            refl in
        let add = zadd (fl.of_u64 now) m in
        let s3 = (r.write s2 t key add).0 in
        let same =
          is_redis.held-write s1 t seqkey key ex apart ∙ is_redis.held-incr s t seqkey key apart in
        let shows2 : Shows fl (r.held s2 t key) log d =
          subst (λ o. Shows fl o log d) (sym same) shows in
        let new =
          shows2.alike (λ e. text_eq e.0 m)
          ∙ ap (λ w. count_if (λ e. text_eq e.0 w) (image fl log)) same_text
          ∙ image-absent fl now n log small few upto in
        let (h, held, z, alike) = is_redis.zadd_lem s2 t key (fl.of_u64 now) m shows2.sorted new in
        let alike' =
          subst (λ w. Alike (entries (some h)) ((w, fl.of_u64 now) ∷ entries (r.held s2 t key)))
            same_text alike in
        (
          is_redis.held-write s3 t key seqkey ex key_seq
              ∙ is_redis.held-write s2 t key seqkey add key_seq
              ∙ is_redis.expire_lem s1 t seqkey
                  (record { value = string (to_string (suc n)); deadline = e }) ttl seq pos short,
          subst (λ o. Shows fl o ((now, suc n) ∷ log) (t + ttl * 1000))
              (sym (is_redis.expire_lem s3 t key h ttl held pos short))
              (Shows-cons fl (r.held s2 t key) log d (t + ttl * 1000) now (suc n) h shows2 z
                alike'),
          ((omega arith, small), UpTo-mono n (suc n) log (omega arith) upto),
        )

  -- What `INCR` makes of a sequence counter whose numbers go up to `m`.
  pub numbered :
      (key seqkey : Text) (s : r.Server) (t m d : ℕ) (log : Log)
      → IsLogged fl r is_redis key seqkey s t log m d
      → suc m < printed
      → (n : ℕ) × (e : Option ℕ) × (n ≤ m)
        × UpTo n log
        × Shows fl (r.held s t key) log d
        × ((r.incr s t seqkey).1 ≡ done (suc n))
        × (r.held (r.incr s t seqkey).0 t seqkey
            ≡ some (record { value = string (to_string (suc n)); deadline = e }))
  numbered key seqkey s t m d log (inl (absent, no_seq, empty)) few =
      let (answers, held) = is_redis.incr_new s t seqkey no_seq in
      (
        0,
        none,
        omega arith,
        subst (UpTo 0) (sym empty) tt,
        record {
          sorted = subst IsZset (sym absent) tt;
          alike = λ p. rw (absent, empty) refl;
          until = λ h e. cc;
        },
        answers,
        held,
      )
  numbered key seqkey s t m d log (inr (seq, shows, upto)) few =
      let (answers, held) = is_redis.incr_next s t seqkey m (some d) seq (omega arith) in
      (m, some d, omega arith, upto, shows, answers, held)
