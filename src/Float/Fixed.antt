-- ===== src/Float/Fixed.antt =====
-- The facts of Float.antt can be met: fixed point numbers with thirty decimal places.
use armature_ratelimit.Float.{Float, IsIeee, max_u64}
use armature_ratelimit.Prelude.{
  ℕ, ◌+◌, ◌-◌, ◌*◌, ◌/◌, ◌^◌, refl, min, max, true, none, some, arith, leb, ltb, if◌then◌else◌,
}

abbrev unit : ℕ
unit = 10 ^ 30

abbrev pub fixed_point : Float
fixed_point = record {
  F = ℕ;
  nought = 0;
  one = unit;
  add = λ x y. x + y;
  sub = λ x y. x - y;
  mul = λ x y. x * y / unit;
  div = λ x y. x * unit / y;
  fmin = λ x y. min x y;
  fmax = λ x y. max x y;
  clamp = λ x lo hi. min (max x lo) hi;
  le = leb;
  lt = ltb;
  is_finite = λ x. true;
  of_u64 = λ n. n * unit;
  to_u64 = λ x. x / unit;
  as_secs = λ d. d * 10 ^ 21;
  from_secs = λ x. if leb (max_u64 * unit) x then none else some (x / 10 ^ 21);
}

pub fixed_point-IsIeee : IsIeee fixed_point
fixed_point-IsIeee = record {
  to_u64-of_u64 = λ n h. omega arith;
  of_u64_mono = λ n m h. ground arith;
  sub_one = λ n h. omega arith;
  lt_integer = λ n m h k. ground arith;
  sub_integer = λ n m h k. omega arith;
  add_integer = λ n m h. omega arith;
  one-le = λ n. ground arith;
  one-le-zero = refl;
  le_trans = λ x y z h k. ground arith;
  sub_one-le = λ x h. ground arith;
  to_u64_mono = λ x y h. ground arith;
  fmin-le = λ x n. ground arith;
  fmin_integer = λ m n h. ground arith;
  sub_one-nought = λ x h. ground arith;
  one_integer = refl;
  fmin_lt = λ x n p h. ground arith;
  no_time = λ n r h. omega arith;
  from_secs_overflow = λ x h. ground arith;
  clamp_high = λ x h. ground arith;
}
