-- ===== src/Base/Arith.antt =====
-- Floating-point arithmetic as an interface. `float` and `double` values are elements of one type;
-- `single` is the rounding of a double that is stored in a `float`. The hardware and the C library
-- implement the operations, so they are a parameter of the model.
use Prim.Native.Nat.{ℕ, ◌+◌, ◌-◌, ◌*◌, ◌/◌, ◌^◌, ◌<◌, ◌≤◌}
use mathlib.Core.Path.{◌≡◌, refl}
use mathlib.Core.Logic.{◌⊎◌}
use mathlib.Core.Bool.{Bool, true, not}
use native.Mathlib.Omega.{arith}
use mathlib.Core.Option.{Option, none, some}
use mathlib.Core.List.{List}
use fanpico.Base.Tests.{ltb, leb, ◌==◌}
use fanpico.Base.Int.{ℤ, pos, negsuc}
use fanpico.Base.Text.{strtol}

pub record Arith (R : Type 0) : Type 0 where
  pub of_ℕ : ℕ → R
  pub neg : R → R
  pub add : R → R → R
  pub sub : R → R → R
  pub mul : R → R → R
  pub div : R → R → R
  pub lt : R → R → Bool
  pub le : R → R → Bool
  pub eq : R → R → Bool
  pub single : R → R
  pub fabs : R → R
  pub round : R → R
  pub log : R → R
  -- the conversion to an unsigned integer, which drops the fraction
  pub to_uint : R → ℕ
  -- `strtof`, with `none` where it converts nothing
  pub strtof : List ℕ → Option R

-- A signed integer as a double.
abbrev pub of_ℤ : {R : Type 0} ⦃a : Arith R⦄ → ℤ → R
of_ℤ ⦃a⦄ (pos n) = a.of_ℕ n
of_ℤ ⦃a⦄ (negsuc n) = a.neg (a.of_ℕ (n + 1))

infix 4 ◌≼◌ ◌≺◌
abbrev pub ◌≼◌ : {R : Type 0} ⦃a : Arith R⦄ → R → R → Type 0
◌≼◌ ⦃a⦄ x y = a.le x y ≡ true

abbrev pub ◌≺◌ : {R : Type 0} ⦃a : Arith R⦄ → R → R → Type 0
◌≺◌ ⦃a⦄ x y = a.lt x y ≡ true

-- The comparisons of IEEE numbers that are not NaN: a total order.
pub record IsOrdered (R : Type 0) ⦃a : Arith R⦄ : Type 0 where
  pub le_refl : (x : R) → x ≼ x
  pub le_trans : (x y z : R) → x ≼ y → y ≼ z → x ≼ z
  pub lt-eq-not-le : (x y : R) → a.lt x y ≡ not (a.le y x)
  pub le_total : (x y : R) → (x ≼ y) ⊎ (y ≼ x)
  pub eq_refl : (x : R) → a.eq x x ≡ true
  pub of_ℕ_mono : (m n : ℕ) → m ≤ n → a.of_ℕ m ≼ a.of_ℕ n

-- Sums and differences without rounding, as of integers.
pub record IsExact (R : Type 0) ⦃a : Arith R⦄ : Type 0 where
  pub add_comm : (x y : R) → a.add x y ≡ a.add y x
  pub add_assoc : (x y z : R) → a.add (a.add x y) z ≡ a.add x (a.add y z)
  pub sub-add : (x y : R) → a.sub (a.add x y) y ≡ x

-- The whole number that a text begins with, 0 for a negative one.
abbrev nat_of_text : List ℕ → Option ℕ
nat_of_text s = elim (strtol s) [ none ↦ none | some (pos n) ↦ some n | some (negsuc n) ↦ some 0 ]

-- Whole numbers, as the instance on which the tests run. Negative results stop at 0.
instance abbrev pub ℕ_arith : Arith ℕ
ℕ_arith = record {
  of_ℕ = λ n. n;
  neg = λ n. 0;
  add = λ m n. m + n;
  sub = λ m n. m - n;
  mul = λ m n. m * n;
  div = λ m n. m / n;
  lt = ltb;
  le = leb;
  eq = ◌==◌;
  single = λ n. n;
  fabs = λ n. n;
  round = λ n. n;
  log = λ n. n;
  to_uint = λ n. n;
  strtof = nat_of_text;
}

pub ℕ-IsOrdered : IsOrdered ℕ
ℕ-IsOrdered = ground arith

pub ℕ-IsExact : IsExact ℕ
ℕ-IsExact = omega arith

-- Rounding and scaling keep the order, and small integers are exact in single precision.
pub record IsScaling (R : Type 0) ⦃a : Arith R⦄ : Type 0 where
  pub mul_mono : (x y : R) (n : ℕ) → x ≼ y → a.mul x (a.of_ℕ n) ≼ a.mul y (a.of_ℕ n)
  pub div_mono : (x y : R) (n : ℕ) → 0 < n → x ≼ y → a.div x (a.of_ℕ n) ≼ a.div y (a.of_ℕ n)
  pub single_mono : (x y : R) → x ≼ y → a.single x ≼ a.single y
  pub to_uint_mono : (x y : R) → x ≼ y → a.to_uint x ≤ a.to_uint y
  pub mul-of_ℕ : (m n : ℕ) → m * n < 2 ^ 53 → a.mul (a.of_ℕ m) (a.of_ℕ n) ≡ a.of_ℕ (m * n)
  pub div-of_ℕ : (m n : ℕ) → 0 < n → n * m < 2 ^ 53 → a.div (a.of_ℕ (n * m)) (a.of_ℕ n) ≡ a.of_ℕ m
  pub single-of_ℕ : (n : ℕ) → n < 2 ^ 24 → a.single (a.of_ℕ n) ≡ a.of_ℕ n
  pub to_uint-of_ℕ : (n : ℕ) → n < 2 ^ 32 → a.to_uint (a.of_ℕ n) ≡ n

mul_ordered : (x y n : ℕ) → x ≤ y → x * n ≤ y * n
mul_ordered x y n h = grind arith

div_ordered : (x y n : ℕ) → x ≤ y → x / n ≤ y / n
div_ordered x y n h = grind arith

mul-div : (m n : ℕ) → 0 < n → n * m / n ≡ m
mul-div m n h = grind arith

pub ℕ-IsScaling : IsScaling ℕ
ℕ-IsScaling = record {
  mul_mono = λ x y n h. ground (arith, mul_ordered x y n);
  div_mono = λ x y n p h. ground (arith, div_ordered x y n);
  single_mono = λ x y h. h;
  to_uint_mono = λ x y h. ground arith;
  mul-of_ℕ = λ m n h. refl;
  div-of_ℕ = λ m n p h. mul-div m n p;
  single-of_ℕ = λ n h. refl;
  to_uint-of_ℕ = λ n h. refl;
}
