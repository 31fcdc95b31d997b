-- ===== src/Extractor/Path/Laws.antt =====
-- src/extractor.rs: the paths that `normalize_path` yields.
use armature_ratelimit.Extractor.Path.{
  before_query, cons_head, split_slash, visit_segment, resolve, join, normalize_path,
}
use armature_ratelimit.Prelude.{
  ℕ, ◌≡◌, ◌≢◌, refl, ap, sym, ◌∙◌, true, false, ◌||◌, List, [], ◌∷◌, ◌++◌, All, arith, Text, codes,
  text_eq, ◌==◌,
}
use mathlib.Core.List.{reverse, reverse-cons, reverse-reverse, append_assoc, append-nil}

-- A segment as the output holds it.
abbrev pub IsPlain : ℕ → Type 0
IsPlain c = (c ≢ b'/') × (c ≢ b'?') × (c ≢ b'#')

pub record IsClean (s : Text) : Type 0 where
  pub plain : All IsPlain s
  pub not_empty : text_eq s [] ≡ false
  pub not_dot : text_eq s (codes ".") ≡ false
  pub not_dots : text_eq s (codes "..") ≡ false

abbrev pub NoQuery : ℕ → Type 0
NoQuery c = (c ≢ b'?') × (c ≢ b'#')

before_query-NoQuery : (p : Text) → All NoQuery (before_query p)
unfolding before_query
before_query-NoQuery [] = tt
before_query-NoQuery (c ∷ p) = ground (arith, before_query-NoQuery p)

cons_head-Plain :
    (c : ℕ) (l : List Text) → IsPlain c → All (All IsPlain) l → All (All IsPlain) (cons_head c l)
cons_head-Plain c [] h a = ((h, tt), tt)
cons_head-Plain c (x ∷ l) h a = ((h, a.0), a.1)

split_slash-Plain : (p : Text) → All NoQuery p → All (All IsPlain) (split_slash p)
unfolding split_slash
split_slash-Plain [] a = (tt, tt)
split_slash-Plain (c ∷ p) a =
    ground (arith, split_slash-Plain p a.1, cons_head-Plain c (split_slash p))

visit_segment-Clean :
    (st : List Text) (s : Text) → All IsPlain s → All IsClean st → All IsClean (visit_segment st s)
unfolding visit_segment
visit_segment-Clean [] s p a = ground arith
visit_segment-Clean (x ∷ st) s p a = ground arith

resolve-Clean :
    (st segs : List Text) → All (All IsPlain) segs → All IsClean st → All IsClean (resolve st segs)
unfolding resolve
resolve-Clean st [] p a = a
resolve-Clean st (s ∷ segs) p a =
    resolve-Clean (visit_segment st s) segs p.1 (visit_segment-Clean st s p.0 a)

All-append {ℓ} :
    {A : Type ℓ} (P : A → Type 0) (xs ys : List A) → All P xs → All P ys → All P (xs ++ ys)
All-append P [] ys a b = b
All-append P (x ∷ xs) ys a b = (a.0, All-append P xs ys a.1 b)

All-reverse {ℓ} : {A : Type ℓ} (P : A → Type 0) (xs : List A) → All P xs → All P (reverse xs)
All-reverse P [] a = tt
All-reverse P (x ∷ xs) a =
    rw (reverse-cons x xs) (All-append P (reverse xs) (x ∷ []) (All-reverse P xs a.1) (a.0, tt))

-- The segments of the normal form of a path.
pub segments : Text → List Text
segments path = reverse (resolve [] (split_slash (before_query path)))

normal : (path : Text) → normalize_path path ≡ b'/' ∷ join (segments path)
unfolding normalize_path segments
normal path = refl

segments-Clean : (path : Text) → All IsClean (segments path)
unfolding segments
segments-Clean path = All-reverse IsClean (resolve [] (split_slash (before_query path))) (
    resolve-Clean [] (split_slash (before_query path))
      (split_slash-Plain (before_query path) (before_query-NoQuery path)) tt)

-- Reading the output back.
pub before_query-plain :
    (x rest : Text) → All NoQuery x → before_query (x ++ rest) ≡ x ++ before_query rest
unfolding before_query
before_query-plain [] rest a = refl
before_query-plain (c ∷ x) rest a = ground (arith, before_query-plain x rest a.1)

pub before_query_idle : (x : Text) → All NoQuery x → before_query x ≡ x
unfolding before_query
before_query_idle [] a = refl
before_query_idle (c ∷ x) a = ground (arith, before_query_idle x a.1)

pub before_query-cut :
    (c : ℕ) (x rest : Text)
    → (c == b'?' || c == b'#') ≡ true
    → before_query (x ++ (c ∷ rest)) ≡ before_query x
unfolding before_query
before_query-cut c [] rest h = ground arith
before_query-cut c (d ∷ x) rest h = ground (arith, before_query-cut c x rest h)

split_slash-plain : (x : Text) → All IsPlain x → split_slash x ≡ x ∷ []
unfolding split_slash
split_slash-plain [] a = refl
split_slash-plain (c ∷ x) a = ground (arith, split_slash-plain x a.1)

pub split_slash-append :
    (x rest : Text) → All IsPlain x → split_slash (x ++ (b'/' ∷ rest)) ≡ x ∷ split_slash rest
unfolding split_slash
split_slash-append [] rest a = refl
split_slash-append (c ∷ x) rest a = ground (arith, split_slash-append x rest a.1)

pub visit_segment-clean : (st : List Text) (s : Text) → IsClean s → visit_segment st s ≡ s ∷ st
unfolding visit_segment
visit_segment-clean st s c = ground arith

resolve-clean : (st segs : List Text) → All IsClean segs → resolve st segs ≡ reverse segs ++ st
unfolding resolve
resolve-clean st [] a = refl
resolve-clean st (s ∷ segs) a =
    rw (visit_segment-clean st s a.0, resolve-clean (s ∷ st) segs a.1, reverse-cons s segs)
      (sym (append_assoc (reverse segs) (s ∷ []) st))

pub Plain-NoQuery : (x : Text) → All IsPlain x → All NoQuery x
Plain-NoQuery [] a = tt
Plain-NoQuery (c ∷ x) a = ((a.0.1, a.0.2), Plain-NoQuery x a.1)

before_query-join : (segs : List Text) → All IsClean segs → before_query (join segs) ≡ join segs
unfolding join before_query
before_query-join [] a = refl
before_query-join (x ∷ []) a = before_query_idle x (Plain-NoQuery x a.0.plain)
before_query-join (x ∷ y ∷ segs) a =
    before_query-plain x (b'/' ∷ join (y ∷ segs)) (Plain-NoQuery x a.0.plain)
    ∙ ap (λ r. x ++ (b'/' ∷ r)) (before_query-join (y ∷ segs) a.1)

split_slash-join :
    (x : Text) (segs : List Text)
    → All IsClean (x ∷ segs)
    → split_slash (join (x ∷ segs)) ≡ x ∷ segs
unfolding join
split_slash-join x [] a = split_slash-plain x a.0.plain
split_slash-join x (y ∷ segs) a =
    split_slash-append x (join (y ∷ segs)) a.0.plain ∙ ap (◌∷◌ x) (split_slash-join y segs a.1)

-- Whatever segments the loop starts from, reading a printed list of clean segments back adds
-- them to it.
read_back :
    (segs : List Text)
    → All IsClean segs
    → resolve [] (split_slash (b'/' ∷ join segs)) ≡ reverse segs
unfolding split_slash resolve visit_segment join text_eq
read_back [] a = refl
read_back (x ∷ segs) a =
    rw (split_slash-join x segs a) (resolve-clean [] (x ∷ segs) a ∙ append-nil (reverse (x ∷ segs)))

-- The normal form of a path is a slash and then segments joined by slashes, each of them not
-- empty, not `.`, not `..`, and without a slash, a question mark or a number sign.
pub normalize_path-Clean :
    (path : Text) → (segs : List Text) × (normalize_path path ≡ b'/' ∷ join segs) × All IsClean segs
unfolding normalize_path
normalize_path-Clean path = (segments path, normal path, segments-Clean path)

normalize_path_fixed :
    (segs : List Text) → All IsClean segs → normalize_path (b'/' ∷ join segs) ≡ b'/' ∷ join segs
unfolding normalize_path before_query
normalize_path_fixed segs a = rw (before_query-join segs a, read_back segs a, reverse-reverse segs)

-- Normalizing a path that is already normalized changes nothing.
pub normalize_path_idem : (path : Text) → normalize_path (normalize_path path) ≡ normalize_path path
unfolding normalize_path segments
normalize_path_idem path = normalize_path_fixed (segments path) (segments-Clean path)
