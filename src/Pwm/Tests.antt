-- ===== src/Pwm/Tests.antt =====
-- src/pwm.c: tests, and the theorems at inputs.
use fanpico.Base.{ℕ, List, [], ◌∷◌, ◌*◌, ◌≤◌, ◌≡◌, refl, true, false, ◌⊎◌, inr, arith}
use fanpico.Base.Arith.{ℕ_arith, ℕ-IsOrdered, ℕ-IsScaling, ◌≼◌}
use fanpico.Samples.{config, start, cells}
use fanpico.Curve.{pwm_map}
use fanpico.Filters.{apply_filter}
use fanpico.Pwm.{
  calculate_pwm_duty, pwm_level, source_value, limited, get_pwm_duty_cycles, PwmInputs,
}
use fanpico.Pwm.Limits.{calculate_pwm_duty_bounds, pwm_level_bounds}
use fanpico.Pwm.Measure.{
  IsConsistent, polls, Measured, get_pwm_duty_cycles_measures, get_pwm_duty_cycles-IsConsistent,
}

-- The fixed source 95 passes the filter and the map, and is cut at the limit 90.
cut : (calculate_pwm_duty {R = ℕ} start config 0 5 cells).0 ≡ 90
unfolding calculate_pwm_duty source_value apply_filter pwm_map limited
    fanpico.Filters.Sma.sma_filter
cut = refl

-- A top of 2499 is 25 kHz at 125 MHz.
levels : (pwm_level {R = ℕ} 2499 50 ≡ 1250) × (pwm_level {R = ℕ} 2499 100 ≡ 2500)
unfolding pwm_level
levels = (refl, refl)

calculate_pwm_duty_bounds_example :
    (◌≼◌ {R = ℕ} 20 (calculate_pwm_duty start config 0 5 cells).0)
    × (◌≼◌ {R = ℕ} (calculate_pwm_duty start config 0 5 cells).0 90)
calculate_pwm_duty_bounds_example =
    calculate_pwm_duty_bounds ℕ-IsOrdered start config 0 5 cells (omega arith)

pwm_level_bounds_example :
    (pwm_level {R = ℕ} 2499 50 ≤ 2500)
    × (((◌≼◌ {R = ℕ} 100 50) × (pwm_level {R = ℕ} 2499 50 ≡ 2500))
        ⊎ ((ℕ_arith.le 100 50 ≡ false)
            × ((ℕ_arith.lt 0 50 ≡ true) ⊎ (pwm_level {R = ℕ} 2499 50 ≡ 0))))
pwm_level_bounds_example = pwm_level_bounds ℕ-IsOrdered ℕ-IsScaling 2499 50 (omega arith)

abbrev running : PwmInputs ℕ
running = record { state = 1; t_start = 1000; counting = true; mbfan_pwm_duty = λ i. 0 }

-- At 1000 ticks a second a second has 1000 of them.
abbrev counts : ℕ → ℕ
counts i = i * 100

abbrev idle : PwmInputs ℕ
idle = record { state = 0; t_start = 0; counting = false; mbfan_pwm_duty = λ i. 0 }

abbrev early_calls : List (ℕ × (ℕ → ℕ))
early_calls = (1200, λ i. 1) ∷ (9000, λ i. 2) ∷ []

get_pwm_duty_cycles_measures_example :
    let running =
      polls {R = ℕ} config 4 1000 early_calls
        (get_pwm_duty_cycles {R = ℕ} 4 1000 config counts 1000 1000 (idle, cells)) in
    (running ≡ (record idle { state = 1; t_start = 1000; counting = true }, cells))
    × Measured {R = ℕ} config counts 4 1000
        (λ i. 0)
        cells
        (get_pwm_duty_cycles {R = ℕ} 4 1000 config counts 1_001_000 1_001_000 running)
get_pwm_duty_cycles_measures_example =
    get_pwm_duty_cycles_measures {R = ℕ} config 4 1000 1000 1_001_000 1_001_000 counts counts
      early_calls idle cells (omega arith) refl (omega arith, omega arith) (omega arith) refl
      (λ i h. refl)

get_pwm_duty_cycles-IsConsistent_example :
    IsConsistent
      (get_pwm_duty_cycles {R = ℕ} 4 1000 config counts 1_001_000 1_001_000 (running, cells)).0
get_pwm_duty_cycles-IsConsistent_example =
    get_pwm_duty_cycles-IsConsistent {R = ℕ} config counts 4 1000 1_001_000 1_001_000 running cells
      (inr (refl, refl))
