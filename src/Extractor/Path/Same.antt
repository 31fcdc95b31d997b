-- ===== src/Extractor/Path/Same.antt =====
-- src/extractor.rs: the paths that `normalize_path` takes for the same.
use armature_ratelimit.Extractor.Path.{
  before_query, split_slash, pop, visit_segment, resolve, join, normalize_path,
}
use armature_ratelimit.Extractor.Path.Laws.{
  IsPlain, IsClean, NoQuery, before_query-plain, before_query_idle, before_query-cut,
  split_slash-append, visit_segment-clean, Plain-NoQuery,
}
use armature_ratelimit.Prelude.{
  Bool-cases, inl, inr, ◌≡◌, refl, ap, ◌∙◌, List, [], ◌∷◌, ◌++◌, All, arith, Text, codes, text_eq,
  ◌==◌,
}
use mathlib.Core.List.{reverse}

-- A query and a fragment do not change the normal form of a path.
normalize_path_query :
    (path rest : Text)
    → (normalize_path (path ++ (b'?' ∷ rest)) ≡ normalize_path path)
      × (normalize_path (path ++ (b'#' ∷ rest)) ≡ normalize_path path)
unfolding normalize_path
normalize_path_query path rest = (
  ap (λ p. b'/' ∷ join (reverse (resolve [] (split_slash p))))
      (before_query-cut b'?' path rest refl),
  ap (λ p. b'/' ∷ join (reverse (resolve [] (split_slash p))))
      (before_query-cut b'#' path rest refl),
)

split_slash-is_cons : (p : Text) → (x : Text) × (xs : List Text) × (split_slash p ≡ x ∷ xs)
unfolding split_slash
split_slash-is_cons [] = ([], [], refl)
split_slash-is_cons (c ∷ p) = elim (Bool-cases (c == b'/')) [
  | inl e ↦ ([], split_slash p, rw e)
  | inr e ↦ let (x, xs, h) = split_slash-is_cons p in (c ∷ x, xs, rw (e, h))
]

split_slash-slash : (a b : Text) → split_slash (a ++ (b'/' ∷ b)) ≡ split_slash a ++ split_slash b
unfolding split_slash
split_slash-slash [] b = refl
split_slash-slash (c ∷ a) b =
    let (x, xs, h) = split_slash-is_cons a in
    elim (Bool-cases (c == b'/')) [
      | inl e ↦ rw (e, split_slash-slash a b)
      | inr e ↦ rw (e, split_slash-slash a b, h)
    ]

resolve-append : (st xs ys : List Text) → resolve st (xs ++ ys) ≡ resolve (resolve st xs) ys
unfolding resolve
resolve-append st [] ys = refl
resolve-append st (x ∷ xs) ys = resolve-append (visit_segment st x) xs ys

resolve-slash :
    (a b : Text)
    → resolve [] (split_slash (a ++ (b'/' ∷ b)))
      ≡ resolve (resolve [] (split_slash a)) (split_slash b)
resolve-slash a b =
    ap (resolve []) (split_slash-slash a b) ∙ resolve-append [] (split_slash a) (split_slash b)

-- One segment in front of a slash is one turn of the loop.
resolve-segment :
    (st : List Text) (s b : Text)
    → All IsPlain s
    → resolve st (split_slash (s ++ (b'/' ∷ b))) ≡ resolve (visit_segment st s) (split_slash b)
unfolding resolve
resolve-segment st s b h = rw (split_slash-append s b h)

visit_segment_idle :
    (st : List Text)
    → (visit_segment st [] ≡ st)
      × (visit_segment st (codes ".") ≡ st)
      × (visit_segment st (codes "..") ≡ pop st)
unfolding visit_segment text_eq
visit_segment_idle st = (refl, refl, refl)

render : List Text → Text
render st = b'/' ∷ join (reverse st)

normalize_path-render :
    (a b : Text)
    → All NoQuery a
    → normalize_path (a ++ (b'/' ∷ b))
      ≡ render (resolve (resolve [] (split_slash a)) (split_slash (before_query b)))
unfolding normalize_path render before_query
normalize_path-render a b h =
    rw (before_query-plain a (b'/' ∷ b) h, resolve-slash a (before_query b))

normalize_path-trailing :
    (a : Text)
    → All NoQuery a
    → render (resolve (resolve [] (split_slash a)) (split_slash (before_query [])))
      ≡ normalize_path a
unfolding normalize_path render before_query split_slash resolve
normalize_path-trailing a h =
    rw (before_query_idle a h, (visit_segment_idle (resolve [] (split_slash a))).0)

-- After a part without query or fragment, an empty segment, a `.` segment, a segment followed
-- by `..` and a slash at the end leave no trace in the normal form of a path.
pub normalize_path_dots :
    (a s b : Text)
    → All NoQuery a
    → IsClean s
    → (normalize_path (a ++ (b'/' ∷ b'/' ∷ b)) ≡ normalize_path (a ++ (b'/' ∷ b)))
      × (normalize_path (a ++ (b'/' ∷ b'.' ∷ b'/' ∷ b)) ≡ normalize_path (a ++ (b'/' ∷ b)))
      × (normalize_path (a ++ (b'/' ∷ (s ++ (b'/' ∷ b'.' ∷ b'.' ∷ b'/' ∷ b))))
          ≡ normalize_path (a ++ (b'/' ∷ b)))
      × (normalize_path (a ++ (b'/' ∷ [])) ≡ normalize_path a)
unfolding before_query
normalize_path_dots a s b h c =
    let st = resolve [] (split_slash a) in
    let (none, dot, dots) = visit_segment_idle st in
    (
      rw (normalize_path-render a (b'/' ∷ b) h, normalize_path-render a b h)
          (ap render (
            resolve-segment st [] (before_query b) tt
            ∙ ap (λ t. resolve t (split_slash (before_query b))) none)),
      rw (normalize_path-render a (b'.' ∷ b'/' ∷ b) h, normalize_path-render a b h)
          (ap render (
            resolve-segment st (codes ".") (before_query b) (omega arith, tt)
            ∙ ap (λ t. resolve t (split_slash (before_query b))) dot)),
      rw
          (
            normalize_path-render a (s ++ (b'/' ∷ b'.' ∷ b'.' ∷ b'/' ∷ b)) h,
            normalize_path-render a b h,
            before_query-plain s (b'/' ∷ b'.' ∷ b'.' ∷ b'/' ∷ b) (Plain-NoQuery s c.plain),
          )
          (ap render (
            resolve-segment st s (b'.' ∷ b'.' ∷ b'/' ∷ before_query b) c.plain
            ∙ ap (λ t. resolve t (split_slash (b'.' ∷ b'.' ∷ b'/' ∷ before_query b)))
                (visit_segment-clean st s c)
            ∙ resolve-segment (s ∷ st) (codes "..") (before_query b)
                (omega arith, (omega arith, tt))
            ∙ ap (λ t. resolve t (split_slash (before_query b))) (visit_segment_idle (s ∷ st)).2)),
      rw (normalize_path-render a [] h) (normalize_path-trailing a h),
    )
