-- ===== src/Redis/Space.antt =====
-- A server that holds an association list of keys and answers a `SCAN` at once.
use armature_ratelimit.DashMap.Assoc.{
  Entries, put, drop_key, put-Distinct, drop_key-Distinct, lookup-put, lookup-drop_key,
}
use armature_ratelimit.DashMap.Keys.{keys, lookup}
use armature_ratelimit.Float.{Float}
use armature_ratelimit.Headers.Digits.{read_from}
use armature_ratelimit.Headers.{to_string}
use armature_ratelimit.Prelude.{
  ℕ, suc, ◌+◌, ◌*◌, ◌≡◌, Bool, true, false, ◌&&◌, Option, none, some, List, [], ◌∷◌, Text, text_eq,
  ◌==◌, if◌then◌else◌, length, codes,
}
use armature_ratelimit.Redis.{
  Answer, done, failed, Value, string, hash, zset, Held, still, Write, hmset, expire, set_ex,
  zremrangebyscore, zadd, Redis,
}
use armature_ratelimit.Redis.Laws.{outside}

abbrev pub later : ℕ → Text → Option ℕ
later t ttl = some (t + read_from 0 ttl * 1000)

-- A pattern, where `*` is read as the end of a pattern.
abbrev pub glob : Text → Text → Bool
glob [] [] = true
glob [] (d ∷ k) = false
glob (c ∷ p) [] = c == 42
glob (c ∷ p) (d ∷ k) = if c == 42 then true else c == d && glob p k

abbrev pub matching : Text → List Text → List Text
matching p [] = []
matching p (k ∷ ks) = if glob p k then k ∷ matching p ks else matching p ks

module _ (fl : Float) where
  abbrev pub Space : Type 0
  Space = Entries (Held fl)

  abbrev set_held : Space → Text → Option (Held fl) → Space
  set_held s k none = (drop_key s.0 k, drop_key-Distinct s.0 k s.1)
  set_held s k (some h) = (put s.0 k h, put-Distinct s.0 k h s.1)

  pub set_held_lem :
      (s : Space) (k : Text) (o : Option (Held fl)) (j : Text)
      → lookup j (set_held s k o).0 ≡ (if text_eq k j then o else lookup j s.0)
  set_held_lem s k none j = lookup-drop_key s.0 k j s.1
  set_held_lem s k (some h) j = lookup-put s.0 k h j

  abbrev pub held_at : Space → ℕ → Text → Option (Held fl)
  held_at s t k = still t (lookup k s.0)

  abbrev pub scored : List (Text × fl.F) → Option ℕ → Option (Held fl)
  scored [] d = none
  scored (e ∷ l) d = some (record { value = zset (e ∷ l); deadline = d })

  -- A write to a value, where `none` is a missing one.
  abbrev pub revalue : Write fl → ℕ → Value fl → Option ℕ → Option (Held fl) × Answer (Unit {0})
  revalue (hmset f v g w) t (hash fields) d =
      (some (record { value = hash (put (put fields f v) g w); deadline = d }), done tt)
  revalue (expire ttl) t v d = (some (record { value = v; deadline = later t ttl }), done tt)
  revalue (set_ex v ttl) t old d =
      (some (record { value = string v; deadline = later t ttl }), done tt)
  revalue (zremrangebyscore low high) t (zset l) d = (scored (outside fl low high l) d, done tt)
  revalue (zadd x m) t (zset l) d =
      (some (record { value = zset (put l m x); deadline = d }), done tt)
  revalue w t v d = (some (record { value = v; deadline = d }), failed (codes "WRONGTYPE"))

  abbrev pub effect : Write fl → ℕ → Option (Held fl) → Option (Held fl) × Answer (Unit {0})
  effect w t (some h) = revalue w t h.value h.deadline
  effect (hmset f v g w) t none =
      (some (record { value = hash (put (put [] f v) g w); deadline = none }), done tt)
  effect (set_ex v ttl) t none =
      (some (record { value = string v; deadline = later t ttl }), done tt)
  effect (zadd x m) t none =
      (some (record { value = zset ((m, x) ∷ []); deadline = none }), done tt)
  effect (expire ttl) t none = (none, done tt)
  effect (zremrangebyscore low high) t none = (none, done tt)

  abbrev pub bump : Option (Held fl) → Option (Held fl) × Answer ℕ
  bump none = (some (record { value = string (to_string 1); deadline = none }), done 1)
  bump (some h) = elim h.value [
    | string v ↦
        let n = suc (read_from 0 v) in (some (record h { value = string (to_string n) }), done n)
    | _ ↦ (some h, failed (codes "WRONGTYPE"))
  ]

  -- What a command leaves under its key, and its reply.
  abbrev pub stored : {A : Type 0} → Space → Text → Option (Held fl) × Answer A → Space × Answer A
  stored s k out = (set_held s k out.0, out.1)

  abbrev pub put_write : Space → ℕ → Text → Write fl → Space × Answer (Unit {0})
  put_write s t k w = stored s k (effect w t (held_at s t k))

  abbrev pub put_incr : Space → ℕ → Text → Space × Answer ℕ
  put_incr s t k = stored s k (bump (held_at s t k))

  abbrev pub drop_keys : Space → List Text → Space
  drop_keys s [] = s
  drop_keys s (k ∷ ks) = set_held (drop_keys s ks) k none

  abbrev pub text_at : Option (Held fl) → Answer (Option Text)
  text_at none = done none
  text_at (some h) = elim h.value [ string v ↦ done (some v) | _ ↦ failed (codes "WRONGTYPE") ]

  abbrev pub field_at : Text → Option (Held fl) → Answer (Option Text)
  field_at f none = done none
  field_at f (some h) = elim h.value [ hash l ↦ done (lookup f l) | _ ↦ failed (codes "WRONGTYPE") ]

  abbrev pub size_at : Option (Held fl) → Answer ℕ
  size_at none = done 0
  size_at (some h) = elim h.value [ zset l ↦ done (length l) | _ ↦ failed (codes "WRONGTYPE") ]

  -- `MGET` takes another kind of value for a missing one.
  abbrev pub text_or_none : Answer (Option Text) → Option Text
  text_or_none (done v) = v
  text_or_none (failed e) = none

  abbrev both : Answer (Option Text) → Answer (Option Text) → Answer (Option Text × Option Text)
  both (done a) (done b) = done (a, b)
  both (done a) (failed e) = failed e
  both (failed e) other = failed e

  abbrev pub keyspace : Redis fl
  keyspace = record {
    Server = Space;
    held = held_at;
    write = put_write;
    incr = put_incr;
    unlink = λ s t ks. (drop_keys s ks, done tt);
    get = λ s t k. text_at (held_at s t k);
    mget = λ s t a b c. done (
      text_or_none (text_at (held_at s t a)),
      (text_or_none (text_at (held_at s t b)), text_or_none (text_at (held_at s t c))),
    );
    hget = λ s t k f. field_at f (held_at s t k);
    hmget = λ s t k f g. both (field_at f (held_at s t k)) (field_at g (held_at s t k));
    zcard = λ s t k. size_at (held_at s t k);
    scan = λ s t cursor pattern. done (0, matching pattern (keys s.0));
    matches = glob;
    ahead = λ s cursor k. true;
    rounds = λ s cursor. 0;
  }
