-- ===== src/Tests/Sliding.antt =====
-- The theorems on sliding windows of src/stores/redis.rs at concrete inputs.
use armature_ratelimit.Extractor.{key_digest, hex}
use armature_ratelimit.Float.Fixed.{fixed_point, fixed_point-IsIeee}
use armature_ratelimit.Headers.{to_string}
use armature_ratelimit.Outcome.{ok}
use armature_ratelimit.Prelude.{
  ℕ, ◌≤◌, ◌≡◌, ◌*◌, refl, true, some, List, [], ◌∷◌, Text, codes, arith, inr, count_if, text_eq,
}
use armature_ratelimit.Redis.{zset}
use armature_ratelimit.Redis.Decimal.{decimal, decimal-IsLua}
use armature_ratelimit.Redis.Keyspace.{keyspace-IsRedis}
use armature_ratelimit.Stores.RedisStore.Logged as Logged
use armature_ratelimit.Stores.RedisStore.Kinds.{sw, swseq, key_of}
use armature_ratelimit.Stores.RedisStore as Store
use armature_ratelimit.Stores.RedisStore.{Fate, replied, silent, Turn, RedisStore}
use armature_ratelimit.Stores.{Clock}
use armature_ratelimit.Tests.World.{now}
use armature_ratelimit.Tests.Redis.{space, quick, entry, telling, telling-IsHost}
use armature_ratelimit.Stores.RedisStore.SlidingBound.{sliding_checks_bound}
use armature_ratelimit.Stores.RedisStore.SlidingHistories.{admitted_in_span, sliding_checks}

-- The server's clock at five seconds.
abbrev pub started : RedisStore fixed_point space
started = record quick { conn = record quick.conn { time = 5_000 } }

abbrev pub at : ℕ → Clock
at t = record { instant = 20; since_epoch = t * 1_000_000 }

abbrev burst : List (Clock × Text)
burst = (at 5_000, 7 ∷ []) ∷ (at 5_000, 9 ∷ []) ∷ (at 5_000, 7 ∷ []) ∷ (at 5_400, 7 ∷ []) ∷ []

sliding_checks_bound_example :
    count_if
      (admitted_in_span telling 500_000_000 (key_digest telling (7 ∷ [])) 4_999)
      (sliding_checks fixed_point space decimal telling 2 500_000_000 started burst).1
    ≤ 2
unfolding key_digest hex text_eq Store.key
sliding_checks_bound_example =
    sliding_checks_bound fixed_point space decimal telling telling-IsHost
      (keyspace-IsRedis fixed_point) decimal-IsLua fixed_point-IsIeee started burst 2 500_000_000
      (7 ∷ []) 4_999 (omega arith) (omega arith) (λ n s. refl)
      (
        omega arith,
        omega arith,
        (omega arith, omega arith, (omega arith, omega arith, (omega arith, omega arith, tt))),
      )
      (
        (omega arith, omega arith),
        (
          (omega arith, omega arith),
          ((omega arith, omega arith), ((omega arith, omega arith), tt)),
        ),
      )
      (omega arith, (omega arith, (omega arith, tt))) refl refl

-- A client with a log of one request that is too old and one that is not, counted to two.
abbrev chatty : RedisStore fixed_point space
unfolding Store.key key_digest hex text_eq
chatty = record quick {
  conn = record quick.conn {
    server = (
      (
        key_of fixed_point space quick (key_digest telling (7 ∷ [])) sw,
        record {
          value = zset (
              (codes "4000-1", fixed_point.of_u64 4_000)
              ∷ (codes "4800-2", fixed_point.of_u64 4_800)
              ∷ []);
          deadline = some 12_000;
        },
      )
          ∷ entry swseq (7 ∷ []) (to_string 2)
          ∷ [],
      (refl, (refl, tt)),
    );
  };
}

sliding_window_check_lem_example :
    (Store.sliding_window_check fixed_point space decimal telling now
      (7 ∷ [])
      3
      500_000_000
      chatty).1
    ≡ ok (true, 1)
unfolding Store.key key_digest hex text_eq to_string
sliding_window_check_lem_example =
    Logged.sliding_window_check_lem fixed_point space (keyspace-IsRedis fixed_point) decimal
      decimal-IsLua telling fixed_point-IsIeee chatty now (7 ∷ []) 3 500_000_000 (omega arith) tt
      (inr (2, some 12_000, refl, omega arith)) (omega arith) (omega arith) (omega arith)
      (omega arith)
