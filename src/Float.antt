-- ===== src/Float.antt =====
-- What the code does with `f64`, and the facts of IEEE 754 and of Rust's casts that its correctness
-- rests on. NaN is the value that is not `<=` itself.
pub mod Fixed
use armature_ratelimit.Prelude.{
  ℕ, suc, ◌+◌, ◌*◌, ◌^◌, ◌-◌, ◌≤◌, ◌<◌, ◌≡◌, Bool, true, false, Option, none, ltb, if◌then◌else◌,
}

pub record Float : Type 1 where
  pub F : Type 0
  pub nought : F
  pub one : F
  pub add : F → F → F
  pub sub : F → F → F
  pub mul : F → F → F
  pub div : F → F → F
  -- `f64::min` and `f64::max`, which ignore a NaN.
  pub fmin : F → F → F
  pub fmax : F → F → F
  pub clamp : F → F → F → F
  pub le : F → F → Bool
  pub lt : F → F → Bool
  pub is_finite : F → Bool
  -- `n as f64` and the saturating `x as u64`.
  pub of_u64 : ℕ → F
  pub to_u64 : F → ℕ
  -- `Duration::as_secs_f64`, of nanoseconds, and `Duration::from_secs_f64`, where `none` is its
  -- panic.
  pub as_secs : ℕ → F
  pub from_secs : F → Option ℕ

abbrev pub exact_bound : ℕ
exact_bound = 2 ^ 53

abbrev pub max_u64 : ℕ
max_u64 = 2 ^ 64 - 1

pub record IsIeee (fl : Float) : Type 0 where
  -- Integers up to 2^53 are represented, compared, added and subtracted exactly.
  pub to_u64-of_u64 : (n : ℕ) → n ≤ exact_bound → fl.to_u64 (fl.of_u64 n) ≡ n
  pub of_u64_mono : (n m : ℕ) → n ≤ m → fl.le (fl.of_u64 n) (fl.of_u64 m) ≡ true
  pub sub_one : (n : ℕ) → suc n ≤ exact_bound → fl.sub (fl.of_u64 (suc n)) fl.one ≡ fl.of_u64 n
  pub lt_integer :
      (n m : ℕ) → n ≤ exact_bound → m ≤ exact_bound → fl.lt (fl.of_u64 n) (fl.of_u64 m) ≡ ltb n m
  pub sub_integer :
      (n m : ℕ) → m ≤ n → n ≤ exact_bound → fl.sub (fl.of_u64 n) (fl.of_u64 m) ≡ fl.of_u64 (n - m)
  pub add_integer :
      (n m : ℕ) → n + m ≤ exact_bound → fl.add (fl.of_u64 n) (fl.of_u64 m) ≡ fl.of_u64 (n + m)
  pub one-le : (n : ℕ) → fl.le fl.one (fl.of_u64 (suc n)) ≡ true
  pub one-le-zero : fl.le fl.one (fl.of_u64 0) ≡ false
  pub le_trans : (x y z : fl.F) → fl.le x y ≡ true → fl.le y z ≡ true → fl.le x z ≡ true
  -- Taking 1.0 from a number that is at least 1.0 does not make it larger.
  pub sub_one-le : (x : fl.F) → fl.le fl.one x ≡ true → fl.le (fl.sub x fl.one) x ≡ true
  pub to_u64_mono : (x y : fl.F) → fl.le x y ≡ true → fl.to_u64 x ≤ fl.to_u64 y
  -- `min` with an ordinary number is at most that number, also for a NaN on the left.
  pub fmin-le : (x : fl.F) (n : ℕ) → fl.le (fl.fmin x (fl.of_u64 n)) (fl.of_u64 n) ≡ true
  pub fmin_integer :
      (m n : ℕ)
      → fl.le (fl.of_u64 m) (fl.of_u64 n) ≡ true
      → fl.fmin (fl.of_u64 m) (fl.of_u64 n) ≡ fl.of_u64 m
  pub sub_one-nought : (x : fl.F) → fl.le fl.one x ≡ true → fl.le fl.nought (fl.sub x fl.one) ≡ true
  pub one_integer : fl.of_u64 1 ≡ fl.one
  -- `min` of a positive number and another that is not NaN is the smaller one.
  pub fmin_lt :
      (x : fl.F) (n : ℕ)
      → 0 < n
      → fl.le x x ≡ true
      → fl.fmin x (fl.of_u64 n) ≡ (if fl.lt x (fl.of_u64 n) then x else fl.of_u64 n)
  -- No time adds no tokens.
  pub no_time :
      (n : ℕ) (r : fl.F)
      → fl.is_finite r ≡ true
      → fl.add (fl.of_u64 n) (fl.mul (fl.as_secs 0) r) ≡ fl.of_u64 n
  -- `u64::MAX as f64` is 2^64, and `from_secs_f64` panics from there on.
  pub from_secs_overflow : (x : fl.F) → fl.le (fl.of_u64 max_u64) x ≡ true → fl.from_secs x ≡ none
  pub clamp_high :
      (x : fl.F)
      → fl.le (fl.of_u64 max_u64) x ≡ true
      → fl.clamp x fl.nought (fl.of_u64 max_u64) ≡ fl.of_u64 max_u64
