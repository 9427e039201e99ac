-- ===== src/Curve/Range.antt =====
-- src/pwm.c: a rising map keeps its output between its first and its last value.
use fanpico.Base.{
  ℕ, ◌+◌, ◌-◌, ◌*◌, ◌/◌, ◌≤◌, ◌<◌, ◌≡◌, refl, false, inl, inr, arith, ltb, Bool-cases,
}
use fanpico.Base.Arith.{Arith, ◌≼◌, ◌≺◌, IsOrdered, ℕ_arith}
use fanpico.Types.{PwmMap}
use fanpico.Curve.{find_point, interpolate, difference, pwm_map}
use fanpico.Curve.Search.{Found, find_point-Found}

-- Arithmetic without rounding on the values between two points, as of real numbers.
pub record IsLinear (R : Type 0) ⦃a : Arith R⦄ : Type 0 where
  pub add-of_ℕ : (m n : ℕ) → a.add (a.of_ℕ m) (a.of_ℕ n) ≡ a.of_ℕ (m + n)
  pub add_mono : (x y z : R) → y ≼ z → a.add x y ≼ a.add x z
  pub sub_nonneg : (x y : R) → x ≼ y → a.of_ℕ 0 ≼ a.sub y x
  pub sub-le : (m n : ℕ) (x : R) → m ≤ n → x ≼ a.of_ℕ n → a.sub x (a.of_ℕ m) ≼ a.of_ℕ (n - m)
  pub scale_nonneg :
      (m n : ℕ) (x : R) → a.of_ℕ 0 ≼ x → a.of_ℕ 0 ≼ a.mul (a.div (a.of_ℕ m) (a.of_ℕ n)) x
  pub scale-le :
      (m n : ℕ) (x : R) → 0 < n → x ≼ a.of_ℕ n → a.mul (a.div (a.of_ℕ m) (a.of_ℕ n)) x ≼ a.of_ℕ m

div-mul-le : (m n x : ℕ) → 0 < n → x ≤ n → m / n * x ≤ m
div-mul-le m n x h k = grind arith

pub ℕ-IsLinear : IsLinear ℕ
ℕ-IsLinear = record {
  add-of_ℕ = λ m n. refl;
  add_mono = λ x y z h. ground arith;
  sub_nonneg = λ x y h. ground arith;
  sub-le = λ m n x h k. ground arith;
  scale_nonneg = λ m n x h. ground arith;
  scale-le = λ m n x h k. ground (arith, div-mul-le m n x);
}

-- The rows in use rise strictly in x, and do not fall in y.
pub record IsRising (m : PwmMap) : Type 0 where
  pub two : 2 ≤ m.points
  pub rows_x : (i j : ℕ) → i < j → j < m.points → (m.pwm i).0 < (m.pwm j).0
  pub rows_y : (i j : ℕ) → i ≤ j → j < m.points → (m.pwm i).1 ≤ (m.pwm j).1

module _ {R : Type 0} ⦃a : Arith R⦄ (ord : IsOrdered R) (lin : IsLinear R) where
  open ord use {le_refl, le_trans, lt-eq-not-le, le_total, of_ℕ_mono}
  open lin use {add-of_ℕ, add_mono, sub_nonneg, sub-le, scale_nonneg, scale-le}

  le_of_not : (u v : R) → a.le u v ≡ false → v ≼ u
  le_of_not u v h = ground (arith, le_total u v)

  -- The line from (x0, y0) to (x1, y1), y0 ≤ y1, stays between y0 and y1.
  line_in_range :
      (x0 x1 y0 y1 : ℕ) (val : R)
      → x0 < x1
      → y0 ≤ y1
      → a.of_ℕ x0 ≼ val
      → val ≼ a.of_ℕ x1
      → let step = a.mul (a.div (a.of_ℕ (y1 - y0)) (a.of_ℕ (x1 - x0))) (a.sub val (a.of_ℕ x0)) in
        (a.of_ℕ y0 ≼ a.add (a.of_ℕ y0) step) × (a.add (a.of_ℕ y0) step ≼ a.of_ℕ y1)
  line_in_range x0 x1 y0 y1 val hx hy lo hi =
      let t = a.sub val (a.of_ℕ x0) in
      let step = a.mul (a.div (a.of_ℕ (y1 - y0)) (a.of_ℕ (x1 - x0))) t in
      let up =
        add_mono (a.of_ℕ y0) (a.of_ℕ 0) step
          (scale_nonneg (y1 - y0) (x1 - x0) t (sub_nonneg (a.of_ℕ x0) val lo)) in
      let down =
        add_mono (a.of_ℕ y0) step (a.of_ℕ (y1 - y0))
          (scale-le (y1 - y0) (x1 - x0) t (omega arith) (sub-le x0 x1 val (omega arith) hi)) in
      let e : y0 + 0 ≡ y0 = omega arith in
      let d : y0 + (y1 - y0) ≡ y1 = omega arith in
      (rw (add-of_ℕ y0 0, e) at up, rw (add-of_ℕ y0 (y1 - y0), d) at down)

  difference_of_le :
      (z : ℕ → ℕ) (i : ℕ) → z (i - 1) ≤ z i → difference z i ≡ a.of_ℕ (z i - z (i - 1))
  difference_of_le z i h = ground arith

  module _ (m : PwmMap) (r : IsRising m) (val : R) where
    abbrev x_of : ℕ → R
    x_of i = a.of_ℕ (m.pwm i).0

    abbrev stop : ℕ
    stop = find_point m.points x_of val

    found : Found m.points x_of val 1 stop
    found = find_point-Found m.points x_of val r.two

    -- The point before the one where the search stops is at most the value.
    point_before : a.le val (x_of 0) ≡ false → x_of (stop - 1) ≼ val
    point_before h = elim (Bool-cases (ltb 1 stop)) [
      | inl later ↦
          let b : x_of (stop - 1) ≺ val = found.before (stop - 1) (ground arith) (ground arith) in
          ground (arith, lt-eq-not-le (x_of (stop - 1)) val, le_total (x_of (stop - 1)) val)
      | inr first ↦
          let e : stop - 1 ≡ 0 = ground (arith, found.from_start) in rw e (le_of_not val (x_of 0) h)
    ]

    abbrev y_of : ℕ → R
    y_of i = a.of_ℕ (m.pwm i).1

    abbrev InRange : R → Type 0
    InRange v = (y_of 0 ≼ v) × (v ≼ y_of (m.points - 1))

    point_bounds : (i : ℕ) → i < m.points → InRange (y_of i)
    point_bounds i h = (
      of_ℕ_mono _ _ (r.rows_y 0 i (omega arith) h),
      of_ℕ_mono _ _ (r.rows_y i (m.points - 1) (omega arith) (omega (arith, r.two))),
    )

    between_bounds :
        a.le val (x_of 0) ≡ false
        → a.le (x_of stop) val ≡ false
        → InRange (
            a.add (y_of (stop - 1)) (
              a.mul
                (a.div (difference (λ i. (m.pwm i).1) stop) (difference (λ i. (m.pwm i).0) stop))
                (a.sub val (x_of (stop - 1)))))
    between_bounds low high =
        let x = λ (i : ℕ). (m.pwm i).0 in
        let y = λ (i : ℕ). (m.pwm i).1 in
        let before : stop - 1 < stop = omega (arith, found.from_start) in
        let inside = found.in_range in
        let ex : x (stop - 1) < x stop = r.rows_x (stop - 1) stop before inside in
        let ey : y (stop - 1) ≤ y stop = r.rows_y (stop - 1) stop (omega arith) inside in
        let line =
          line_in_range (x (stop - 1)) (x stop) (y (stop - 1)) (y stop) val ex ey (point_before low)
            (le_of_not (x_of stop) val high) in
        let left = point_bounds (stop - 1) (omega arith) in
        let right = point_bounds stop inside in
        rw (difference_of_le y stop ey, difference_of_le x stop (omega arith))
          (le_trans _ _ _ left.0 line.0, le_trans _ _ _ line.1 right.1)

    interpolate_bounds : InRange (
        interpolate m.points x_of y_of
          (difference (λ i. (m.pwm i).1))
          (difference (λ i. (m.pwm i).0))
          val)
    unfolding interpolate
    interpolate_bounds = elim (Bool-cases (a.le val (x_of 0))) [
      | inl low ↦ rw low (point_bounds 0 (omega (arith, r.two)))
      | inr not_low ↦ elim (Bool-cases (a.le (x_of stop) val)) [
        | inl high ↦ rw (not_low, high) (point_bounds stop found.in_range)
        | inr not_high ↦ rw (not_low, not_high) (between_bounds not_low not_high)
      ]
    ]

    -- The output of a rising map with two points or more lies between its first and last value, if
    -- the arithmetic on the values between two points does not round.
    -- The comparisons are a total order (no value is NaN).
    pub pwm_map_range :
        (a.of_ℕ (m.pwm 0).1 ≼ pwm_map m val) × (pwm_map m val ≼ a.of_ℕ (m.pwm (m.points - 1)).1)
    unfolding pwm_map
    pwm_map_range = interpolate_bounds
