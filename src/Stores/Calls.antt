-- ===== src/Stores/Calls.antt =====
-- src/stores/mod.rs: histories of a limiter's checks with the cleanups that its prune task makes
-- in between.
use armature_ratelimit.Algorithms.Keyed.{of_key}
use armature_ratelimit.Prelude.{
  ℕ, ◌≤◌, List, [], ◌∷◌, Text, text_eq, arith, Ascending, if◌then◌else◌, Bool-cases, inl, inr,
}
use armature_ratelimit.Stores.{Clock}

pub data StoreCall : Type 0 where
  asks : (key : Text) (now : Clock) → StoreCall
  cleans : (now : Clock) → StoreCall

-- The checks, by key and instant.
abbrev pub checks_of : List StoreCall → List (Text × ℕ)
checks_of [] = []
checks_of (asks key now ∷ calls) = (key, now.instant) ∷ checks_of calls
checks_of (cleans now ∷ calls) = checks_of calls

-- The instants of a key's checks and of the cleanups.
abbrev pub instants_of : Text → List StoreCall → List ℕ
instants_of k [] = []
instants_of k (asks key now ∷ calls) =
    let rest = instants_of k calls in if text_eq key k then now.instant ∷ rest else rest
instants_of k (cleans now ∷ calls) = now.instant ∷ instants_of k calls

Ascending-earlier : (a b : ℕ) (ts : List ℕ) → a ≤ b → Ascending b ts → Ascending a ts
Ascending-earlier a b [] le o = tt
Ascending-earlier a b (t ∷ ts) le o = (omega (arith, o.0), o.1)

-- With the cleanups in order, so are a key's checks alone.
pub checks_of-Ascending :
    (k : Text) (from : ℕ) (calls : List StoreCall)
    → Ascending from (instants_of k calls)
    → Ascending from (of_key k (checks_of calls))
checks_of-Ascending k from [] o = tt
checks_of-Ascending k from (asks key now ∷ calls) o = elim (Bool-cases (text_eq key k)) [
  | inl same ↦ let o' = rw same at o in rw same (o'.0, checks_of-Ascending k now.instant calls o'.1)
  | inr other ↦ rw other (checks_of-Ascending k from calls (rw other at o))
]
checks_of-Ascending k from (cleans now ∷ calls) o =
    Ascending-earlier from now.instant (of_key k (checks_of calls)) o.0
      (checks_of-Ascending k now.instant calls o.1)
