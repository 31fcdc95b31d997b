-- ===== src/Extractor/Path.antt =====
-- src/extractor.rs: `normalize_path`, over the bytes of the path.
pub mod Laws
pub mod Same
use armature_ratelimit.Prelude.{
  ℕ, Bool, true, false, ◌||◌, List, [], ◌∷◌, ◌++◌, Text, codes, text_eq, ◌==◌, if◌then◌else◌,
}
use mathlib.Core.List.{reverse}

-- `path.split(['?', '#']).next()`
pub before_query : Text → Text
before_query [] = []
before_query (c ∷ s) = if c == b'?' || c == b'#' then [] else c ∷ before_query s

abbrev pub cons_head : ℕ → List Text → List Text
cons_head c [] = (c ∷ []) ∷ []
cons_head c (x ∷ xs) = (c ∷ x) ∷ xs

-- `path.split('/')`
pub split_slash : Text → List Text
split_slash [] = [] ∷ []
split_slash (c ∷ s) = if c == b'/' then [] ∷ split_slash s else cons_head c (split_slash s)

abbrev pub pop : List Text → List Text
pop [] = []
pop (x ∷ xs) = xs

-- One turn of the loop. The vector `segments` is kept with its last element first.
pub visit_segment : List Text → Text → List Text
visit_segment segments segment =
    if text_eq segment [] || text_eq segment (codes ".")
    then segments
    else if text_eq segment (codes "..")
    then pop segments
    else segment ∷ segments

pub resolve : List Text → List Text → List Text
resolve segments [] = segments
resolve segments (segment ∷ rest) = resolve (visit_segment segments segment) rest

-- `segments.join("/")`
pub join : List Text → Text
join [] = []
join (x ∷ []) = x
join (x ∷ y ∷ xs) = x ++ (b'/' ∷ join (y ∷ xs))

pub normalize_path : Text → Text
normalize_path path = b'/' ∷ join (reverse (resolve [] (split_slash (before_query path))))
