-- ===== src/Tests/Keys.antt =====
-- The theorems on src/extractor.rs at concrete inputs.
use armature_ratelimit.Extractor.Path.Laws.{normalize_path-Clean, normalize_path_idem, IsClean}
use armature_ratelimit.Extractor.Path.Same.{normalize_path_dots}
use armature_ratelimit.Extractor.Path.{normalize_path, join}
use armature_ratelimit.Extractor.{RequestInfo, new, with_header}
use armature_ratelimit.Prelude.{◌≡◌, refl, List, ◌∷◌, All, Text, codes, arith, text_eq}

normalize_path-Clean_example :
    (segs : List Text) × (normalize_path (codes "/a/../b//") ≡ b'/' ∷ join segs) × All IsClean segs
normalize_path-Clean_example = normalize_path-Clean (codes "/a/../b//")

normalize_path_idem_example :
    normalize_path (normalize_path (codes "/a/../b//")) ≡ normalize_path (codes "/a/../b//")
normalize_path_idem_example = normalize_path_idem (codes "/a/../b//")

c-IsClean : IsClean (codes "c")
unfolding text_eq
c-IsClean = record {
  plain = ((omega arith, omega arith, omega arith), tt);
  not_empty = refl;
  not_dot = refl;
  not_dots = refl;
}

normalize_path_dots_example :
    (normalize_path (codes "/a//b") ≡ normalize_path (codes "/a/b"))
    × (normalize_path (codes "/a/./b") ≡ normalize_path (codes "/a/b"))
    × (normalize_path (codes "/a/c/../b") ≡ normalize_path (codes "/a/b"))
    × (normalize_path (codes "/a/") ≡ normalize_path (codes "/a"))
normalize_path_dots_example =
    normalize_path_dots (codes "/a") (codes "c") (codes "b")
      ((omega arith, omega arith), ((omega arith, omega arith), tt)) c-IsClean

abbrev api : RequestInfo
api = with_header (new (codes "/") (codes "GET")) (codes "X-Api-Key") (codes "k")
