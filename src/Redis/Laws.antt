-- ===== src/Redis/Laws.antt =====
-- What is documented of the server, the Lua in it and the conversions, in Redis.antt.
use armature_ratelimit.DashMap.Keys.{mem, lookup}
use armature_ratelimit.Float.{Float, exact_bound, max_u64}
use armature_ratelimit.Headers.{to_string}
use armature_ratelimit.Prelude.{
  count_if, length, ℕ, suc, ◌+◌, ◌*◌, ◌^◌, ◌≤◌, ◌<◌, ◌≡◌, ◌≢◌, ◌⊎◌, Bool, true, false, ◌&&◌, ◌||◌,
  Option, none, some, List, [], ◌∷◌, ◌++◌, Text, text_eq, ◌==◌, if◌then◌else◌, All,
}
use armature_ratelimit.Redis.{
  Held, Lua, Redis, Value, Write, done, expire, hash, hmset, set_ex, still, string, zadd,
  zremrangebyscore, zset,
}

-- The characters that a glob pattern reads specially: `*`, `?`, `[`, `]`, `\` and `^`.
abbrev pub is_special : ℕ → Bool
is_special c = c == 42 || c == 63 || c == 91 || c == 93 || c == 92 || c == 94

abbrev pub IsLiteral : Text → Type 0
IsLiteral = All (λ c. is_special c ≡ false)

unfoldable pub starts_with : Text → Text → Bool
starts_with [] t = true
starts_with (c ∷ s) [] = false
starts_with (c ∷ s) (d ∷ t) = c == d && starts_with s t

-- The largest time to live that a theorem relies on, in seconds.
abbrev pub ttl_bound : ℕ
ttl_bound = 2 ^ 50

abbrev pub text_of : {fl : Float} → Option (Held fl) → Option Text
text_of none = none
text_of (some h) = elim h.value [ string v ↦ some v | _ ↦ none ]

-- The members of a sorted set with their scores, where a missing key is an empty set.
abbrev pub entries : {fl : Float} → Option (Held fl) → List (Text × fl.F)
entries none = []
entries (some h) = elim h.value [ zset l ↦ l | _ ↦ [] ]

abbrev IsZsetValue : {fl : Float} → Value fl → Type 0
IsZsetValue (zset l) = Unit
IsZsetValue (string v) = ⊥
IsZsetValue (hash l) = ⊥

abbrev pub IsZset : {fl : Float} → Option (Held fl) → Type 0
IsZset none = Unit
IsZset (some h) = IsZsetValue h.value

abbrev IsHashValue : {fl : Float} → Value fl → Type 0
IsHashValue (hash l) = Unit
IsHashValue (string v) = ⊥
IsHashValue (zset l) = ⊥

abbrev pub IsHash : {fl : Float} → Option (Held fl) → Type 0
IsHash none = Unit
IsHash (some h) = IsHashValue h.value

-- The entries whose scores are not between two bounds.
abbrev pub outside : (fl : Float) → fl.F → fl.F → List (Text × fl.F) → List (Text × fl.F)
outside fl low high [] = []
outside fl low high ((m, x) ∷ l) =
    let rest = outside fl low high l in if fl.le low x && fl.le x high then rest else (m, x) ∷ rest

-- Lists with the same elements, as often.
abbrev pub Alike : {A : Type 0} → List A → List A → Type 0
Alike {A} xs ys = (p : A → Bool) → count_if p xs ≡ count_if p ys

-- A key that is gone, or that lives as long as before.
abbrev pub Unmoved : {fl : Float} → Option (Held fl) → Option (Held fl) → Type 0
Unmoved {fl} o o' =
    (o' ≡ none)
    ⊎ (h : Held fl) × (h' : Held fl) × (o ≡ some h) × (o' ≡ some h') × (h'.deadline ≡ h.deadline)

pub record IsRedis (fl : Float) (r : Redis fl) : Type 0 where
  -- A key stays as it is until it expires.
  pub held-later :
      (s : r.Server) (t t' : ℕ) (j : Text) → t ≤ t' → r.held s t' j ≡ still t' (r.held s t j)
  -- A command changes its own keys only.
  pub held-write :
      (s : r.Server) (t : ℕ) (k j : Text) (w : Write fl)
      → text_eq k j ≡ false
      → r.held (r.write s t k w).0 t j ≡ r.held s t j
  pub held-incr :
      (s : r.Server) (t : ℕ) (k j : Text)
      → text_eq k j ≡ false
      → r.held (r.incr s t k).0 t j ≡ r.held s t j
  pub held-unlink :
      (s : r.Server) (t : ℕ) (ks : List Text) (j : Text)
      → r.held (r.unlink s t ks).0 t j ≡ (if mem j ks then none else r.held s t j)
  pub unlink_answers : (s : r.Server) (t : ℕ) (ks : List Text) → (r.unlink s t ks).1 ≡ done tt
  -- `INCR` starts a missing key at 1, with no deadline, and keeps the deadline of another.
  pub incr_new :
      (s : r.Server) (t : ℕ) (k : Text)
      → r.held s t k ≡ none
      → ((r.incr s t k).1 ≡ done 1)
        × (r.held (r.incr s t k).0 t k
            ≡ some (record { value = string (to_string 1); deadline = none }))
  pub incr_next :
      (s : r.Server) (t : ℕ) (k : Text) (n : ℕ) (d : Option ℕ)
      → r.held s t k ≡ some (record { value = string (to_string n); deadline = d })
      → n < exact_bound
      → ((r.incr s t k).1 ≡ done (suc n))
        × (r.held (r.incr s t k).0 t k
            ≡ some (record { value = string (to_string (suc n)); deadline = d }))
  pub expire_lem :
      (s : r.Server) (t : ℕ) (k : Text) (h : Held fl) (n : ℕ)
      → r.held s t k ≡ some h
      → 0 < n
      → n ≤ ttl_bound
      → r.held (r.write s t k (expire (to_string n))).0 t k
        ≡ some (record h { deadline = some (t + n * 1000) })
  pub expire_answers :
      (s : r.Server) (t : ℕ) (k : Text) (n : ℕ)
      → 0 < n
      → n ≤ ttl_bound
      → (r.write s t k (expire (to_string n))).1 ≡ done tt
  pub set_ex_answers :
      (s : r.Server) (t : ℕ) (k v : Text) (n : ℕ)
      → 0 < n
      → n ≤ ttl_bound
      → (r.write s t k (set_ex v (to_string n))).1 ≡ done tt
  pub zremrangebyscore_lem :
      (s : r.Server) (t : ℕ) (k : Text) (low high : fl.F)
      → IsZset (r.held s t k)
      → ((r.write s t k (zremrangebyscore low high)).1 ≡ done tt)
        × IsZset (r.held (r.write s t k (zremrangebyscore low high)).0 t k)
        × (entries (r.held (r.write s t k (zremrangebyscore low high)).0 t k)
            ≡ outside fl low high (entries (r.held s t k)))
        × Unmoved (r.held s t k) (r.held (r.write s t k (zremrangebyscore low high)).0 t k)
  pub zcard_lem :
      (s : r.Server) (t : ℕ) (k : Text)
      → IsZset (r.held s t k)
      → r.zcard s t k ≡ done (length (entries (r.held s t k)))
  pub zadd_answers :
      (s : r.Server) (t : ℕ) (k : Text) (x : fl.F) (m : Text)
      → IsZset (r.held s t k)
      → (r.write s t k (zadd x m)).1 ≡ done tt
  -- A member that was not there is one more.
  pub zadd_lem :
      (s : r.Server) (t : ℕ) (k : Text) (x : fl.F) (m : Text)
      → IsZset (r.held s t k)
      → count_if (λ e. text_eq e.0 m) (entries (r.held s t k)) ≡ 0
      → (h : Held fl) × (r.held (r.write s t k (zadd x m)).0 t k ≡ some h)
        × IsZset (some h)
        × Alike (entries (some h)) ((m, x) ∷ entries (r.held s t k))
  pub hget_absent :
      (s : r.Server) (t : ℕ) (k f : Text) → r.held s t k ≡ none → r.hget s t k f ≡ done none
  pub hmget_absent :
      (s : r.Server) (t : ℕ) (k f g : Text)
      → r.held s t k ≡ none
      → r.hmget s t k f g ≡ done (none, none)
  pub hmget_hash :
      (s : r.Server) (t : ℕ) (k f g : Text) (l : List (Text × Text)) (d : Option ℕ)
      → r.held s t k ≡ some (record { value = hash l; deadline = d })
      → r.hmget s t k f g ≡ done (lookup f l, lookup g l)
  pub hmset_lem :
      (s : r.Server) (t : ℕ) (k f v g w : Text)
      → IsHash (r.held s t k)
      → text_eq f g ≡ false
      → ((r.write s t k (hmset f v g w)).1 ≡ done tt)
        × ((l : List (Text × Text)) × (d : Option ℕ) × (r.held (r.write s t k (hmset f v g w)).0 t k
              ≡ some (record { value = hash l; deadline = d }))
            × (lookup f l ≡ some v)
            × (lookup g l ≡ some w))
  pub get_string :
      (s : r.Server) (t : ℕ) (k v : Text) (d : Option ℕ)
      → r.held s t k ≡ some (record { value = string v; deadline = d })
      → r.get s t k ≡ done (some v)
  -- `MGET` takes another kind of value for a missing one.
  pub mget_lem :
      (s : r.Server) (t : ℕ) (a b c : Text)
      → r.mget s t a b c
        ≡ done (text_of (r.held s t a), (text_of (r.held s t b), text_of (r.held s t c)))
  -- A pattern of a literal text and a star matches the texts that start with it.
  pub matches_star : (p k : Text) → IsLiteral p → r.matches (p ++ 42 ∷ []) k ≡ starts_with p k
  -- A full iteration returns every key that is there throughout, and nothing that does not match.
  pub scan_answers :
      (s : r.Server) (t cursor : ℕ) (pattern : Text)
      → (reply : ℕ × List Text) × (r.scan s t cursor pattern ≡ done reply)
  pub scan_start : (s : r.Server) (j : Text) → r.ahead s 0 j ≡ true
  pub scan_step :
      (s : r.Server) (t cursor : ℕ) (pattern : Text) (next : ℕ) (ks : List Text) (j : Text)
      → r.scan s t cursor pattern ≡ done (next, ks)
      → r.matches pattern j ≡ true
      → r.ahead s cursor j ≡ true
      → (r.held s t j ≡ none) ⊎ (mem j ks ≡ true) ⊎ (next ≢ 0) × (r.ahead s next j ≡ true)
  pub scan_matches :
      (s : r.Server) (t cursor : ℕ) (pattern : Text) (next : ℕ) (ks : List Text) (j : Text)
      → r.scan s t cursor pattern ≡ done (next, ks)
      → mem j ks ≡ true
      → r.matches pattern j ≡ true
  -- Deleting keys in the course of an iteration does not disturb it.
  pub ahead-unlink :
      (s : r.Server) (t cursor : ℕ) (ks : List Text) (j : Text)
      → r.ahead s cursor j ≡ true
      → r.ahead (r.unlink s t ks).0 cursor j ≡ true
  pub rounds-scan :
      (s : r.Server) (t cursor : ℕ) (pattern : Text) (next : ℕ) (ks : List Text)
      → r.scan s t cursor pattern ≡ done (next, ks)
      → (next == 0) ≡ false
      → r.rounds s next < r.rounds s cursor
  pub rounds-unlink :
      (s : r.Server) (t cursor : ℕ) (ks : List Text)
      → r.rounds (r.unlink s t ks).0 cursor ≤ r.rounds s cursor

-- Integers up to 2^53 are exact.
pub record IsLua (fl : Float) (lua : Lua fl) : Type 0 where
  pub tonumber_integer : (n : ℕ) → n ≤ exact_bound → lua.tonumber (to_string n) ≡ some (fl.of_u64 n)
  pub arg_text_integer : (n : ℕ) → n ≤ exact_bound → lua.arg_text (fl.of_u64 n) ≡ to_string n
  -- `..` prints a number with 14 digits.
  pub concat_text_integer : (n : ℕ) → n < 10 ^ 14 → lua.concat_text (fl.of_u64 n) ≡ to_string n
  pub of_reply_integer : (n : ℕ) → n ≤ exact_bound → lua.of_reply n ≡ fl.of_u64 n
  pub read_u64_integer : (n : ℕ) → n ≤ max_u64 → lua.read_u64 (to_string n) ≡ some n
  pub to_reply-floor :
      (x : fl.F)
      → fl.le fl.nought x ≡ true
      → fl.le x (fl.of_u64 exact_bound) ≡ true
      → lua.to_reply (lua.floor x) ≡ fl.to_u64 x
  pub to_reply_integer : (n : ℕ) → n ≤ exact_bound → lua.to_reply (fl.of_u64 n) ≡ n
