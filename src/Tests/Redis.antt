-- ===== src/Tests/Redis.antt =====
-- The theorems on src/stores/redis.rs at concrete inputs.
use armature_ratelimit.Stores.RedisStore.Remaining.{redis_store}
use armature_ratelimit.Extractor.{Host, key_digest, hex}
use armature_ratelimit.Extractor.Keys.{IsHost}
use armature_ratelimit.Float.Fixed.{fixed_point, fixed_point-IsIeee}
use armature_ratelimit.Headers.{to_string}
use armature_ratelimit.Outcome.{Outcome, ok}
use armature_ratelimit.Prelude.{
  ℕ, zero, suc, length, ◌≤◌, ◌≡◌, refl, true, some, List, [], ◌∷◌, Text, codes, arith, All,
  count_if, text_eq,
}
use armature_ratelimit.Redis.{Redis, Held, string, still}
use armature_ratelimit.Redis.Decimal.{decimal, decimal-IsLua}
use armature_ratelimit.Redis.Keyspace.{keyspace-IsRedis}
use armature_ratelimit.Redis.Space.{keyspace}
use armature_ratelimit.Stores.RedisStore.Histories as Histories
use armature_ratelimit.Stores.RedisStore.Cleared as Cleared
use armature_ratelimit.Stores.RedisStore.Ends as Ends
use armature_ratelimit.Stores.RedisStore.Onward as Onward
use armature_ratelimit.Stores.RedisStore.Others as Others
use armature_ratelimit.Stores.RedisStore.Rollover as Rollover
use armature_ratelimit.Stores.RedisStore.Kinds.{Kind, fw, fwmax, fwcur, key_of}
use armature_ratelimit.Stores.RedisStore.FixedBound as FixedBound
use armature_ratelimit.Stores.RedisStore.Remaining as Remaining
use armature_ratelimit.Stores.RedisStore.Sweep as Sweep
use armature_ratelimit.Stores.RedisScripts as Scripts
use armature_ratelimit.Stores.RedisStore as Store
use armature_ratelimit.Stores.RedisStore.{Fate, replied, silent, Turn, RedisStore}
use armature_ratelimit.Stores.{Clock}
use armature_ratelimit.Tests.World.{host, now}

abbrev pub space : Redis fixed_point
space = keyspace fixed_point

-- A server without keys, in a connection of this fate.
abbrev fresh : Fate → RedisStore fixed_point space
fresh fate = record {
  conn = record {
    server = ([], tt);
    time = 1000;
    turns = λ n. record { meanwhile = λ s. s; delay = 1; fate = fate };
  };
  prefix = codes "app";
  operation_timeout = 3_000_000_000;
}

abbrev pub quick : RedisStore fixed_point space
quick = fresh (replied 5)

abbrev pub mute : RedisStore fixed_point space
mute = fresh (silent true)

abbrev calls : List (Clock × Text)
calls = (now, 7 ∷ []) ∷ (now, 9 ∷ []) ∷ (now, 7 ∷ []) ∷ []

checks_fixed_bound_example :
    count_if
      (Histories.admitted_in host 500_000_000 (key_digest host (7 ∷ [])) 10)
      (Histories.checks fixed_point space decimal host 2 500_000_000 quick calls).1
    ≤ 2
unfolding Histories.checks Store.fixed_window_check Store.with_op_timeout
    Scripts.fixed_window_script Scripts.after_incr Scripts.start_window to_string key_digest hex
    Store.key text_eq
checks_fixed_bound_example =
    FixedBound.checks_fixed_bound fixed_point space decimal host (keyspace-IsRedis fixed_point)
      decimal-IsLua fixed_point-IsIeee quick calls 2 500_000_000 (7 ∷ []) 10 (omega arith)
      (omega arith) (λ n s. refl) refl (omega arith)

reset_clears_example :
    (after : RedisStore fixed_point space) × (Sweep.reset fixed_point space host 1 (7 ∷ []) quick
      ≡ some (after, ok tt))
    × All (Onward.IsGone fixed_point space after) (
        Store.tb_key fixed_point space quick (key_digest host (7 ∷ []))
        ∷ Store.sw_key fixed_point space quick (key_digest host (7 ∷ []))
        ∷ Store.swmax_key fixed_point space quick (key_digest host (7 ∷ []))
        ∷ Store.swseq_key fixed_point space quick (key_digest host (7 ∷ []))
        ∷ Store.fwmax_key fixed_point space quick (key_digest host (7 ∷ []))
        ∷ Store.fwcur_key fixed_point space quick (key_digest host (7 ∷ []))
        ∷ [])
    × ((id : Text)
        → Onward.IsGone fixed_point space after
            (Store.fw_key fixed_point space quick (key_digest host (7 ∷ [])) id))
reset_clears_example =
    Cleared.reset_clears fixed_point space (keyspace-IsRedis fixed_point) host quick 1 (7 ∷ [])
      (refl, (refl, (refl, tt))) (record { quiet = λ n s. refl; prompt = λ n. omega arith })
      (omega arith)

abbrev pad : ℕ → Text → List ℕ
pad zero key = []
pad (suc n) [] = 0 ∷ pad n []
pad (suc n) (c ∷ key) = c ∷ pad n key

length-pad : (n : ℕ) (key : Text) → length (pad n key) ≡ n
length-pad zero key = refl
length-pad (suc n) [] = omega (arith, length-pad n [])
length-pad (suc n) (c ∷ key) = omega (arith, length-pad n key)

-- A digest by which keys differ.
abbrev pub telling : Host
telling = record { sha256 = pad 32; show_v4 = λ a. a ∷ []; show_v6 = λ a. a ∷ [] }

pub telling-IsHost : IsHost telling
telling-IsHost = record {
  show_v4_inj = λ a b h k e. ground arith;
  show_v6_inj = λ a b h k e. ground arith;
  length-sha256 = length-pad 32;
}

-- Two clients, each with the counter of a window; the second one has used it up.
abbrev pub entry : Kind → Text → Text → Text × Held fixed_point
entry kind name v = (
  key_of fixed_point space quick (key_digest telling name) kind,
  record { value = string v; deadline = some 12_000 },
)

abbrev shared : space.Server
unfolding Store.key key_digest hex text_eq
shared = (
  entry (fw (to_string 9)) (7 ∷ []) (to_string 1)
      ∷ entry (fw (to_string 9)) (9 ∷ []) (to_string 2)
      ∷ entry fwmax (9 ∷ []) (to_string 2)
      ∷ entry fwcur (9 ∷ []) (to_string 9)
      ∷ [],
  (refl, (refl, (refl, (refl, tt)))),
)

abbrev busy : RedisStore fixed_point space
unfolding Store.key key_digest hex text_eq
busy = record quick { conn = record quick.conn { server = shared } }

reset_ends_example :
    (end : RedisStore fixed_point space × Outcome (Unit {0})) × (Sweep.reset fixed_point space
        telling 1
        (7 ∷ [])
        busy
      ≡ some end)
unfolding Store.key key_digest hex text_eq
reset_ends_example =
    Ends.reset_ends fixed_point space (keyspace-IsRedis fixed_point) telling busy 1 (7 ∷ [])
      (λ n s. refl) (omega arith)

-- The store after the first client's state is reset.
abbrev cleared :
    (after : RedisStore fixed_point space) × (Sweep.reset fixed_point space telling 1 (7 ∷ []) busy
      ≡ some (after, ok tt))
unfolding Store.key key_digest hex text_eq
cleared =
    let (after, swept, _, _) =
      Cleared.reset_clears fixed_point space (keyspace-IsRedis fixed_point) telling busy 1 (7 ∷ [])
        (refl, (refl, (refl, tt))) (record { quiet = λ n s. refl; prompt = λ n. omega arith })
        (omega arith) in
    (after, swept)

reset-key_of_other_example :
    space.held cleared.0.conn.server cleared.0.conn.time
      (key_of fixed_point space busy (key_digest telling (9 ∷ [])) fwcur)
    ≡ still cleared.0.conn.time (
        space.held busy.conn.server busy.conn.time
          (key_of fixed_point space busy (key_digest telling (9 ∷ [])) fwcur))
unfolding Store.key key_digest hex text_eq
reset-key_of_other_example =
    Others.reset-key_of_other fixed_point space (keyspace-IsRedis fixed_point) telling
      telling-IsHost busy 1 (7 ∷ []) (9 ∷ []) fwcur (cleared.0, ok tt) (refl, (refl, (refl, tt)))
      (λ n s. refl) refl cleared.1

remaining_stale_example :
    ((Remaining.remaining fixed_point space decimal telling (9 ∷ []) busy).1 ≡ ok 0)
    × ((Store.fixed_window_check fixed_point space decimal telling now
          (9 ∷ [])
          2
          500_000_000
          busy).1
        ≡ ok (true, 1))
unfolding Store.key key_digest hex text_eq to_string
remaining_stale_example =
    Rollover.remaining_stale fixed_point space (keyspace-IsRedis fixed_point) decimal decimal-IsLua
      telling fixed_point-IsIeee busy now (9 ∷ []) 9 2 500_000_000
      (record { quiet = λ n s. refl; prompt = λ n. omega arith }) (omega arith) (omega arith)
      (omega arith) (omega arith) refl refl (12_000, omega arith, refl) (12_000, omega arith, refl)
      (12_000, omega arith, refl) refl
