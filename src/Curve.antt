-- ===== src/Curve.antt =====
-- The three maps of src/pwm.c, src/tacho.c and src/sensors.c from an input to an output value:
-- linear interpolation between points, constant outside them. C writes the function out three
-- times; here `interpolate` stands for the common text, over the rows converted to double and the
-- differences `rise` and `run` of rows i and i - 1.
pub mod Search
pub mod Range
mod Tests
use fanpico.Base.{ℕ, zero, suc, ◌+◌, ◌-◌, ◌&&◌, ltb, if◌then◌else◌}
use fanpico.Base.Int.{pos, ◌-ℤ◌}
use fanpico.Base.Arith.{Arith, of_ℤ}
use fanpico.Types.{PwmMap, TachoMap, TempMap}

module _ {R : Type 0} ⦃a : Arith R⦄ where
  -- `while (i < points - 1 && x[i] < val) i++;`, with a number of rounds allowed.
  find_from : ℕ → ℕ → (ℕ → R) → R → ℕ → ℕ
  find_from zero points x val i = i
  find_from (suc rounds) points x val i =
      let rest = find_from rounds points x val (i + 1) in
      if ltb (i + 1) points && a.lt (x i) val then rest else i

  -- `points` rounds are enough: the loop leaves `i` below `points`.
  pub find_point : ℕ → (ℕ → R) → R → ℕ
  find_point points x val = find_from points points x val 1

  pub interpolate : ℕ → (x y rise run : ℕ → R) → R → R
  interpolate points x y rise run val =
      let i = find_point points x val in
      let slope = a.div (rise i) (run i) in
      let between = a.add (y (i - 1)) (a.mul slope (a.sub val (x (i - 1)))) in
      if a.le val (x 0) then y 0 else (if a.le (x i) val then y i else between)

  -- A row's difference to the row before, of integers: exact.
  abbrev pub difference : (ℕ → ℕ) → ℕ → R
  difference z i = of_ℤ (pos (z i) -ℤ pos (z (i - 1)))

  -- The same of floats: rounded to single precision.
  abbrev pub single_difference : (ℕ → R) → ℕ → R
  single_difference z i = a.single (a.sub (z i) (z (i - 1)))

  unfoldable pub pwm_map : PwmMap → R → R
  unfolding interpolate find_point find_from
  pwm_map m =
      let x = λ (i : ℕ). (m.pwm i).0 in
      let y = λ (i : ℕ). (m.pwm i).1 in
      interpolate m.points (λ i. a.of_ℕ (x i)) (λ i. a.of_ℕ (y i)) (difference y) (difference x)

  unfoldable pub tacho_map : TachoMap → R → R
  unfolding interpolate find_point find_from
  tacho_map m =
      let x = λ (i : ℕ). (m.tacho i).0 in
      let y = λ (i : ℕ). (m.tacho i).1 in
      interpolate m.points (λ i. a.of_ℕ (x i)) (λ i. a.of_ℕ (y i)) (difference y) (difference x)

  unfoldable pub sensor_get_duty : TempMap R → R → R
  unfolding interpolate find_point find_from
  sensor_get_duty m =
      let x = λ (i : ℕ). (m.temp i).0 in
      let y = λ (i : ℕ). (m.temp i).1 in
      interpolate m.points x y (single_difference y) (single_difference x)
