-- ===== src/Progress/Arithmetic.antt =====
-- Python's `float`, which the source computes with and does not implement: the non-negative part
-- that the progress code uses, with what it relies on. `Float` holds no NaN.
use rhombus_ai.Base.{ℕ, ◌*◌, ◌/◌, ◌≤◌, ◌<◌, ◌≡◌, min, max, arith}

pub record Floats : Type 1 where
  pub Float : Type 0
  pub Le : Float → Float → Type 0
  pub zero : Float
  pub one : Float
  pub fmin : Float → Float → Float
  pub fmax : Float → Float → Float
  -- `n * x`, `a / b` of two integers, and `int(x)`
  pub times : ℕ → Float → Float
  pub divide : ℕ → ℕ → Float
  pub to_int : Float → ℕ

-- Comparison, rounded multiplication and truncation are monotone, and small integers are exact.
pub record IsLawful (F : Floats) : Type 0 where
  pub fmin-le-right : (a b : F.Float) → F.Le (F.fmin a b) b
  pub to_int-times-mono :
      (n : ℕ) (a b : F.Float) → F.Le a b → F.to_int (F.times n a) ≤ F.to_int (F.times n b)
  pub to_int-times-one : (n : ℕ) → n ≤ 100 → F.to_int (F.times n F.one) ≡ n
  pub divide-le-one : (a b : ℕ) → 0 < b → a ≤ b → F.Le (F.divide a b) F.one
  pub zero-le-one : F.Le F.zero F.one

-- Hundredths, to run the code on.
abbrev pub hundredths : Floats
hundredths = record {
  Float = ℕ;
  Le = ◌≤◌;
  zero = 0;
  one = 100;
  fmin = min;
  fmax = max;
  times = λ n x. n * x;
  divide = λ a b. a * 100 / b;
  to_int = λ x. x / 100;
}

times-one : (n : ℕ) → n * 100 / 100 ≡ n
times-one n = omega arith

times_mono : (n a b : ℕ) → a ≤ b → n * a / 100 ≤ n * b / 100
times_mono n a b h = grind arith

share-le-one : (a b : ℕ) → 0 < b → a ≤ b → a * 100 / b ≤ 100
share-le-one a b h k = grind arith

pub hundredths-IsLawful : IsLawful hundredths
hundredths-IsLawful = record {
  fmin-le-right = λ a b. omega arith;
  to_int-times-mono = times_mono;
  to_int-times-one = λ n h. times-one n;
  divide-le-one = share-le-one;
  zero-le-one = omega arith;
}
