-- ===== src/Tests/Buckets.antt =====
-- The theorem on the token buckets of src/stores/redis.rs at a concrete input.
use armature_ratelimit.Algorithms.TokenBucket.{BucketState, consume, refill}
use armature_ratelimit.Extractor.{key_digest, hex}
use armature_ratelimit.Float.Fixed.{fixed_point, fixed_point-IsIeee}
use armature_ratelimit.Headers.{to_string}
use armature_ratelimit.Outcome.{ok}
use armature_ratelimit.Prelude.{ℕ, ◌≡◌, refl, true, some, List, [], ◌∷◌, codes, arith, inr, text_eq}
use armature_ratelimit.Redis.{hash}
use armature_ratelimit.Redis.Decimal.{decimal, decimal-IsLua}
use armature_ratelimit.Redis.Keyspace.{keyspace-IsRedis}
use armature_ratelimit.Stores.{Clock}
use armature_ratelimit.Stores.RedisStore.BucketHistories.{
  bucket_checks, bucket_answers, bucket_checks_lem,
}
use armature_ratelimit.Stores.RedisStore as Store
use armature_ratelimit.Stores.RedisStore.{RedisStore}
use armature_ratelimit.Tests.Redis.{space, quick, telling}
use armature_ratelimit.Tests.World.{now}

-- A client that had one token at the third second, and the same bucket in memory.
abbrev saving : RedisStore fixed_point space
unfolding Store.key key_digest hex text_eq
saving = record quick {
  conn = record quick.conn {
    server = (
      (
        Store.tb_key fixed_point space quick (key_digest telling (7 ∷ [])),
        record {
          value = hash ((codes "tokens", codes "1") ∷ (codes "last_refill", codes "3") ∷ []);
          deadline = some 12_000;
        },
      )
          ∷ [],
      (refl, tt),
    );
  };
}

abbrev twin : BucketState fixed_point
twin = record { tokens = fixed_point.of_u64 1; last_refill = 1_000_000_000 }

-- Requests at the fifth second and the sixth.
abbrev spending : List (Clock × ℕ)
spending =
    (now, 3_000_000_000)
    ∷ (record { instant = 20; since_epoch = 6_000_000_000 }, 4_000_000_000)
    ∷ (record { instant = 20; since_epoch = 6_000_000_000 }, 4_000_000_000)
    ∷ []

bucket_checks_lem_example :
    bucket_checks fixed_point space decimal telling 5
      (fixed_point.of_u64 2)
      (7 ∷ [])
      saving
      spending
    ≡ ok (true, 4) ∷ ok (true, 4) ∷ ok (true, 3) ∷ []
unfolding Store.key key_digest hex text_eq to_string consume refill bucket_answers
bucket_checks_lem_example =
    bucket_checks_lem fixed_point space decimal telling (keyspace-IsRedis fixed_point) decimal-IsLua
      fixed_point-IsIeee 5 (fixed_point.of_u64 2) (omega arith) (omega arith) 13 (omega arith)
      (omega arith) refl refl (7 ∷ []) saving twin spending
      (record { quiet = λ n s. refl; prompt = λ n. omega arith }) (λ n. omega arith)
      (inr (
        (codes "tokens", codes "1") ∷ (codes "last_refill", codes "3") ∷ [],
        some 12_000,
        codes "1",
        codes "3",
        fixed_point.of_u64 3,
        refl,
        refl,
        refl,
        refl,
        refl,
        refl,
      ))
      (
        refl,
        refl,
        refl,
        refl,
        refl,
        (refl, refl, refl, refl, refl, (refl, refl, refl, refl, tt, tt)),
      )
