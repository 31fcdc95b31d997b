-- ===== src/Stores/RedisScripts/LogSteps.antt =====
-- src/stores/redis.rs: one run of the sliding window script on the log of a client.
use armature_ratelimit.Float.{Float, IsIeee, exact_bound}
use armature_ratelimit.Headers.{to_string}
use armature_ratelimit.Prelude.{
  ℕ, suc, ◌+◌, ◌-◌, ◌*◌, ◌≤◌, ◌<◌, ◌≡◌, ◌⊎◌, refl, ap, sym, subst, ◌∙◌, true, false, Option, none,
  some, ◌∷◌, Text, text_eq, arith, Bool-cases, inl, inr, ltb, length,
}
use armature_ratelimit.Redis.{Redis, Lua, Held, Answer, done, string, set_ex, zremrangebyscore}
use armature_ratelimit.Redis.Laws.{IsRedis, IsLua, ttl_bound, entries, IsZset, Unmoved}
use armature_ratelimit.Stores.RedisScripts.Members.{
  Log, printed, newer, UpTo, image, Alike-length, Alike-outside, length-image, outside-image,
  UpTo-newer, length-newer-le,
}
use armature_ratelimit.Stores.RedisScripts.{sliding_window_script}
use armature_ratelimit.Stores.RedisScripts.Admits.{admitted-IsLive, numbered}
use armature_ratelimit.Stores.RedisScripts.Logging.{Shows, Shows-newer, IsLogged}
use armature_ratelimit.Stores.RedisScripts.Sliding.{
  counted_at, pruned_server, decision, sliding_window_lem,
}

gone : {fl : Float} (o o' : Option (Held fl)) → o ≡ none → Unmoved o o' → o' ≡ none
gone o o' absent (inl e) = e
gone o o' absent (inr (h, h', e, e', same)) = cc

module _ (fl : Float) (r : Redis fl) (is_redis : IsRedis fl r) (lua : Lua fl)
    (is_lua : IsLua fl lua) (ieee : IsIeee fl) where
  module _ (key maxkey seqkey : Text) (max_apart : text_eq maxkey key ≡ false)
      (seq_apart : text_eq seqkey key ≡ false) (max_seq : text_eq maxkey seqkey ≡ false)
      (key_seq : text_eq key seqkey ≡ false) (max now cutoff secs : ℕ)
      (small_max : max ≤ exact_bound) (small_now : now < printed)
      (small_cutoff : cutoff ≤ exact_bound) (short : secs + 10 ≤ ttl_bound) where
    -- The log after a run, and the reply: the request is added and admitted if fewer than `max`
    -- entries are newer than the cutoff, and denied otherwise.
    abbrev Steps : ℕ → Log → ℕ → ℕ → r.Server × Answer (ℕ × ℕ) → Type 0
    Steps t log m d out =
        let kept = newer cutoff log in
        (log' : Log) × (m' : ℕ) × (d' : ℕ) × IsLogged fl r is_redis key seqkey out.0 t log' m' d'
        × (m' ≤ suc m)
        × ((ltb (length kept) max ≡ true)
              × (log' ≡ (now, m') ∷ kept)
              × (d' ≡ t + (secs + 10) * 1000)
              × (out.1 ≡ done (1, max - length kept - 1))
            ⊎ (ltb (length kept) max ≡ false) × (log' ≡ kept) × (d' ≡ d) × (out.1 ≡ done (0, 0)))

    counted : r.Server → ℕ → ℕ
    counted =
        counted_at fl r is_redis lua is_lua ieee key maxkey seqkey max_apart seq_apart max_seq
          key_seq max now cutoff secs small_max (omega arith) small_cutoff short

    pruned : r.Server → ℕ → r.Server
    pruned =
        pruned_server fl r is_redis lua is_lua ieee key maxkey seqkey max_apart seq_apart max_seq
          key_seq max now cutoff secs small_max (omega arith) small_cutoff short

    counted_lem :
        (s : r.Server) (t n d : ℕ) (log : Log)
        → Shows fl (r.held s t key) log d
        → UpTo n log
        → counted s t ≡ length (newer cutoff log)
    unfolding counted
    counted_lem s t n d log shows upto =
        Alike-length _ _ (
          Alike-outside fl (fl.of_u64 0) (fl.of_u64 cutoff) (entries (r.held s t key))
            (image fl log) shows.alike)
        ∙ ap length (outside-image fl ieee cutoff n log small_cutoff upto)
        ∙ length-image fl (newer cutoff log)

    -- Pruning keeps what is newer than the cutoff.
    pruned-IsLogged :
        (s : r.Server) (t m d : ℕ) (log : Log)
        → IsLogged fl r is_redis key seqkey s t log m d
        → IsLogged fl r is_redis key seqkey (pruned s t) t (newer cutoff log) m d
    unfolding pruned
    pruned-IsLogged s t m d log h =
        let w = set_ex (to_string max) (to_string (secs + 10)) in
        let z = zremrangebyscore (fl.of_u64 0) (fl.of_u64 cutoff) in
        let s1 = (r.write s t maxkey w).0 in
        let seq =
          is_redis.held-write s1 t key seqkey z key_seq
          ∙ is_redis.held-write s t maxkey seqkey w max_seq in
        let same = is_redis.held-write s t maxkey key w max_apart in
        elim h [
          | inl (absent, no_seq, empty) ↦
              let (a, b, c, unmoved) =
                is_redis.zremrangebyscore_lem s1 t key (fl.of_u64 0) (fl.of_u64 cutoff)
                  (subst IsZset (sym (same ∙ absent)) tt) in
              inl (gone _ _ (same ∙ absent) unmoved, seq ∙ no_seq, ap (newer cutoff) empty)
          | inr (held, shows, upto) ↦
              let shows1 : Shows fl (r.held s1 t key) log d =
                subst (λ o. Shows fl o log d) (sym same) shows in
              let (a, b, c, unmoved) =
                is_redis.zremrangebyscore_lem s1 t key (fl.of_u64 0) (fl.of_u64 cutoff)
                  shows1.sorted in
              inr (
                seq ∙ held,
                Shows-newer fl ieee _ _ log d m cutoff small_cutoff upto b c unmoved shows1,
                UpTo-newer m cutoff log upto,
              )
        ]

    -- A run on the decision that it takes.
    decided-Steps :
        (s : r.Server) (t m d n : ℕ) (e : Option ℕ) (log : Log)
        → IsLogged fl r is_redis key seqkey (pruned s t) t (newer cutoff log) m d
        → n ≤ m
        → UpTo n (newer cutoff log)
        → Shows fl (r.held (pruned s t) t key) (newer cutoff log) d
        → suc n < printed
        → r.held (r.incr (pruned s t) t seqkey).0 t seqkey
          ≡ some (record { value = string (to_string (suc n)); deadline = e })
        → Steps t log m d (
            decision fl r is_redis lua is_lua ieee key maxkey seqkey max_apart seq_apart max_seq
              key_seq max now cutoff secs small_max
              (omega arith)
              small_cutoff
              short
              (pruned s t)
              t
              (length (newer cutoff log))
              (suc n))
    decided-Steps s t m d n e log h le upto shows few held =
        let kept = newer cutoff log in
        elim (Bool-cases (ltb (length kept) max)) [
          | inl room ↦ rw room (
            (now, suc n) ∷ kept,
            suc n,
            t + (secs + 10) * 1000,
            inr (
                admitted-IsLive fl r is_redis lua is_lua ieee key seqkey seq_apart key_seq
                  (secs + 10) now 0 (omega arith) short small_now (pruned s t) t n d e kept shows
                  upto few held),
            omega arith,
            inl (refl, refl, refl, refl),
          )
          | inr full ↦ rw full (kept, m, d, h, omega arith, inr (refl, refl, refl, refl))
        ]

    pub sliding_window-Steps :
        (s : r.Server) (t m d : ℕ) (log : Log)
        → IsLogged fl r is_redis key seqkey s t log m d
        → length log ≤ exact_bound
        → suc m < printed
        → Steps t log m d (
            sliding_window_script fl r lua key maxkey seqkey
              (to_string max)
              (to_string now)
              (to_string cutoff)
              (to_string secs)
              s
              t)
    unfolding pruned counted
    sliding_window-Steps s t m d log h small few =
        let (n, e, le, upto, shows, answers, held) =
          numbered fl r is_redis lua is_lua ieee key seqkey (pruned s t) t m d (newer cutoff log)
            (pruned-IsLogged s t m d log h) few in
        let (n0, e0, le0, upto0, shows0, answers0, held0) =
          numbered fl r is_redis lua is_lua ieee key seqkey s t m d log h few in
        let count = counted_lem s t n0 d log shows0 upto0 in
        subst (Steps t log m d)
          (sym (
            sliding_window_lem fl r is_redis lua is_lua ieee key maxkey seqkey max_apart seq_apart
              max_seq key_seq max now cutoff secs small_max (omega arith) small_cutoff short s t
              (suc n) shows0.sorted
              (subst (λ c. c ≤ exact_bound) (sym count) (omega (arith, length-newer-le cutoff log)))
              answers))
          (subst
            (λ c. Steps t log m d (
              decision fl r is_redis lua is_lua ieee key maxkey seqkey max_apart seq_apart max_seq
                key_seq max now cutoff secs small_max (omega arith) small_cutoff short (pruned s t)
                t c (suc n)))
            (sym count)
            (decided-Steps s t m d n e log (pruned-IsLogged s t m d log h) le upto shows
              (omega arith) held))
