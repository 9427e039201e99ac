-- ===== src/Outputs/Tests.antt =====
-- src/fanpico.c, `update_outputs`: tests, and the theorems at inputs.
use fanpico.Base.{ℕ, ◌≡◌, refl, false, arith}
use fanpico.Base.Arith.{ℕ_arith, ℕ-IsOrdered, ℕ-IsScaling}
use fanpico.Samples.{config, start, cells}
use fanpico.Outputs.{Signals, OutputSetup, update_outputs, square_wave_period}
use fanpico.Outputs.Limits.{Driven, update_outputs-Driven}

abbrev setup : OutputSetup
setup = record { fan_count = 4; mbfan_count = 2; sys_clock = 125_000_000; pwm_out_top = 4999 }

abbrev silent : Signals
silent = record { gpio_level = λ i. 0; period = λ i. 0; lra = λ i. false }

period_of_100_hertz : square_wave_period {R = ℕ} 125_000_000 100 ≡ 624_995
unfolding square_wave_period
period_of_100_hertz = refl

update_outputs-Driven_example :
    Driven {R = ℕ} setup config config 7
      (start, cells, silent)
      (update_outputs setup config config 7 (start, cells, silent))
      3
update_outputs-Driven_example =
    update_outputs-Driven setup config config 7 ℕ-IsOrdered ℕ-IsScaling (start, cells, silent) 3
      (λ k h. (omega arith, omega arith)) (omega arith)
