-- ===== src/Curve/Tests.antt =====
-- src/pwm.c, src/tacho.c, src/sensors.c: tests of the maps, and the theorems at inputs.
use fanpico.Base.{ℕ, ◌+◌, ◌*◌, ◌≡◌, ◌<◌, refl, arith}
use fanpico.Base.Arith.{ℕ_arith, ℕ-IsOrdered, ◌≼◌}
use fanpico.Types.{PwmMap, TachoMap, TempMap}
use fanpico.Curve.{find_point, pwm_map, tacho_map, sensor_get_duty}
use fanpico.Curve.Search.{Interpolates, maps-Interpolates, find_point_in_array}
use fanpico.Curve.Range.{ℕ-IsLinear, IsRising, pwm_map_range}

-- Rows (10 i, 20 i).
abbrev steps : PwmMap
steps = record { points = 3; pwm = λ i. (i * 10, i * 20) }

abbrev speeds : TachoMap
speeds = record { points = 3; tacho = λ i. (i * 100, i * 200) }

abbrev temps : TempMap ℕ
temps = record { points = 2; temp = λ i. (i * 10 + 20, i * 50) }

on_the_line : pwm_map {R = ℕ} steps 15 ≡ 30
unfolding pwm_map
on_the_line = refl

beyond : (pwm_map {R = ℕ} steps 99 ≡ 40) × (sensor_get_duty {R = ℕ} temps 5 ≡ 0)
unfolding pwm_map sensor_get_duty
beyond = (refl, refl)

steps-Increasing : (i j : ℕ) → i < j → j < 3 → (i * 10 < j * 10)
steps-Increasing i j h k = omega arith

maps-Interpolates_example :
    Interpolates {R = ℕ} 3 (λ i. i * 10) (λ i. i * 20) (pwm_map steps)
    × Interpolates {R = ℕ} 3 (λ i. i * 100) (λ i. i * 200) (tacho_map speeds)
    × Interpolates {R = ℕ} 2 (λ i. i * 10 + 20) (λ i. i * 50) (sensor_get_duty temps)
maps-Interpolates_example =
    maps-Interpolates {R = ℕ} ℕ-IsOrdered steps speeds temps (omega arith, omega arith, omega arith)
      (λ i j h k. ground arith) (λ i j h k. ground arith) (λ i j h k. ground arith)

row_in_array : find_point {R = ℕ} 3 (λ i. i * 10) 15 < 32
row_in_array = find_point_in_array 3 (λ i. i * 10) 15 (omega arith)

steps-IsRising : IsRising steps
steps-IsRising = record {
  two = omega arith;
  rows_x = λ i j h k. omega arith;
  rows_y = λ i j h k. omega arith;
}

pwm_map_range_example : (◌≼◌ {R = ℕ} 0 (pwm_map steps 15)) × (◌≼◌ {R = ℕ} (pwm_map steps 15) 40)
pwm_map_range_example = pwm_map_range ℕ-IsOrdered ℕ-IsLinear steps steps-IsRising 15
