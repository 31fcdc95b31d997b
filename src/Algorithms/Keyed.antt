-- ===== src/Algorithms/Keyed.antt =====
-- Histories of requests to a keyed limiter: one key's decisions are those of its own entry.
use armature_ratelimit.Algorithms.Eviction.{make_room_id}
use armature_ratelimit.Algorithms.{make_room}
use armature_ratelimit.DashMap.{DashMap}
use armature_ratelimit.Prelude.{
  ℕ, ◌+◌, ◌≤◌, ◌<◌, ◌≡◌, refl, Bool, Option, some, List, [], ◌∷◌, arith, Text, text_eq, text_eq_iff,
  length, if◌then◌else◌,
}

-- The items of one key, in order.
abbrev pub of_key {ℓ} : {A : Type ℓ} → Text → List (Text × A) → List A
of_key k [] = []
of_key k ((j, a) ∷ l) = if text_eq j k then a ∷ of_key k l else of_key k l

module _ {V T : Type 0} (step : Option V → T → V × (Bool × ℕ)) where
  -- The decisions of one entry over its requests.
  unfoldable pub trace : Option V → List T → List (T × Bool)
  trace entry [] = []
  trace entry (t ∷ ts) = (t, (step entry t).1.0) ∷ trace (some (step entry t).0) ts

module _ (dash : DashMap) {V T : Type 0} where
  module _ (step : Option V → T → V × (Bool × ℕ)) (max_keys : ℕ) (age : V → Option ℕ) where
    unfoldable pub visit : dash.Map V → Text → T → dash.Map V × (Bool × ℕ)
    visit m key t =
        let room = make_room dash m max_keys age key in
        let (s, reply) = step (dash.get room key) t in (dash.insert room key s, reply)

    unfoldable pub visits : dash.Map V → List (Text × T) → List (Text × (T × Bool))
    visits m [] = []
    visits m ((key, t) ∷ calls) = (key, (t, (visit m key t).1.0)) ∷ visits (visit m key t).0 calls

    visit-get :
        (m : dash.Map V) (key k : Text) (t : T)
        → dash.len m < max_keys
        → dash.get (visit m key t).0 k
          ≡ (if text_eq key k then some (step (dash.get m key) t).0 else dash.get m k)
    unfolding visit
    visit-get m key k t h = ground (
      arith,
      make_room_id dash m max_keys age key,
      dash.get-insert m key (step (dash.get m key) t).0 k,
    )

    visit-reply :
        (m : dash.Map V) (key : Text) (t : T)
        → dash.len m < max_keys
        → (visit m key t).1 ≡ (step (dash.get m key) t).1
    unfolding visit
    visit-reply m key t h = ground (arith, make_room_id dash m max_keys age key)

    visit-len :
        (m : dash.Map V) (key : Text) (t : T)
        → dash.len m < max_keys
        → dash.len (visit m key t).0 ≤ dash.len m + 1
    unfolding visit
    visit-len m key t h = ground (
      arith,
      make_room_id dash m max_keys age key,
      dash.len-insert m key (step (dash.get m key) t).0,
    )

    pub visits-of_key :
        (m : dash.Map V) (calls : List (Text × T)) (k : Text)
        → dash.len m + length calls ≤ max_keys
        → of_key k (visits m calls) ≡ trace step (dash.get m k) (of_key k calls)
    unfolding visits trace
    visits-of_key m [] k h = refl
    visits-of_key m ((key, t) ∷ calls) k h = ground (
      arith,
      text_eq_iff key k,
      visit-get m key k t,
      visit-reply m key t,
      visit-len m key t,
      visits-of_key (visit m key t).0 calls k,
    )
