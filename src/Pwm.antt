-- ===== src/Pwm.antt =====
-- src/pwm.c: the duty cycle of the fan outputs, and the measurement of the motherboard's signals.
-- Counters, clocks and pins are hardware: what the code reads from them is an argument.
pub mod Limits
pub mod Measure
mod Tests
use fanpico.Base.{
  ℕ, suc, ◌+◌, ◌-◌, ◌*◌, ◌==◌, ltb, Bool, true, false, Option, none, some, if◌then◌else◌, update,
}
use fanpico.Base.Arith.{Arith}
use fanpico.Base.Loops.{for_range}
use fanpico.Types.{
  FanpicoConfig, FanpicoState, FanOutput, MbInput, PwmSource, pwm_fixed, pwm_mb, pwm_sensor,
  pwm_fan, pwm_vsensor,
}
use fanpico.Filters.{Heap, apply_filter}
use fanpico.Curve.{pwm_map, sensor_get_duty}

abbrev pub pwm_in_sample_interval : ℕ
pwm_in_sample_interval = 10

-- The statics of `get_pwm_duty_cycles` and the array `mbfan_pwm_duty`. `counting` says that the
-- PWM slices run; they are started with their counters at 0.
pub record PwmInputs (R : Type 0) : Type 0 where
  pub state : ℕ
  pub t_start : ℕ
  pub counting : Bool
  pub mbfan_pwm_duty : ℕ → R

module _ {R : Type 0} ⦃a : Arith R⦄ where
  -- The level that `set_pwm_duty_cycle` writes for a duty cycle (a float), with `pwm_out_top` = top.
  unfoldable pub pwm_level : ℕ → R → ℕ
  pwm_level top duty =
      let scaled = a.single (a.mul duty (a.of_ℕ (top + 1))) in
      let level = a.to_uint (a.single (a.div scaled (a.of_ℕ 100))) in
      if a.le (a.of_ℕ 100) duty then top + 1 else (if a.lt (a.of_ℕ 0) duty then level else 0)

  -- The source value of an output.
  unfoldable pub source_value : FanpicoState R → FanpicoConfig R → PwmSource → ℕ → R
  source_value st config pwm_fixed s_id = a.of_ℕ s_id
  source_value st config pwm_mb s_id = st.mbfan_duty s_id
  source_value st config pwm_sensor s_id =
      sensor_get_duty (config.sensors s_id).curve (st.temp s_id)
  source_value st config pwm_vsensor s_id =
      sensor_get_duty (config.vsensors s_id).curve (st.vtemp s_id)
  source_value st config pwm_fan s_id = st.fan_duty s_id

  -- The last step, which enforces the limits of the output.
  unfoldable pub limited : R → R → R → R
  limited low high val =
      let raised = if a.lt val low then low else val in if a.lt high raised then high else raised

  unfoldable pub calculate_pwm_duty : FanpicoState R → FanpicoConfig R → ℕ → ℕ → Heap R → R × Heap R
  calculate_pwm_duty st config i now heap =
      let fan = config.fans i in
      let source = source_value st config fan.s_type fan.s_id in
      let (val, heap') = apply_filter fan.filter fan.filter_ctx source (a.single source) now heap in
      let mapped = a.mul (pwm_map fan.curve val) fan.pwm_coefficient in
      (limited (a.of_ℕ fan.min_pwm) (a.of_ℕ fan.max_pwm) mapped, heap')

  -- One round of the loop over the counters.
  unfoldable pub read_counter :
      FanpicoConfig R → (ℕ → ℕ) → R → ℕ → ℕ → (ℕ → R) × Heap R → (ℕ → R) × Heap R
  read_counter config counters max_count now i (duties, heap) =
      let mbfan = config.mbfans i in
      let duty = a.single (a.div (a.of_ℕ (counters i * 100)) max_count) in
      let (val, heap') = apply_filter mbfan.filter mbfan.filter_ctx duty duty now heap in
      (update duties i val, heap')

  -- `float max_count`, the number of clock ticks in the sampled time.
  abbrev pub max_count_of : R → ℕ → R
  max_count_of rate elapsed = a.single (a.mul rate (a.div (a.of_ℕ elapsed) (a.of_ℕ 1_000_000)))

  -- Times are of a clock that does not run backwards. `now` is read on entry, `stopped` when the
  -- slices have been stopped; `rate` is `pwm_in_count_rate`.
  unfoldable pub get_pwm_duty_cycles :
      ℕ → R → FanpicoConfig R → (ℕ → ℕ) → ℕ → ℕ → PwmInputs R × Heap R → PwmInputs R × Heap R
  get_pwm_duty_cycles mbfan_count rate config counters now stopped (p, heap) =
      let started = record p { state = 1; t_start = now; counting = true } in
      let max_count = max_count_of rate (stopped - p.t_start) in
      let (duties, heap') =
        for_range mbfan_count (read_counter config counters max_count stopped)
          (p.mbfan_pwm_duty, heap) in
      let measured = record p { state = 0; counting = false; mbfan_pwm_duty = duties } in
      if mbfan_count == 0
      then (p, heap)
      else (if p.state == 0
          then (started, heap)
          else (if p.state == 1
              then (if ltb (now - p.t_start) (pwm_in_sample_interval * 1000)
                  then (p, heap)
                  else (if a.le (a.of_ℕ 65535) max_count
                      then (record p { state = 0; counting = false }, heap)
                      else (measured, heap')))
              else (p, heap)))
