-- ===== src/Outputs.antt =====
-- src/fanpico.c, `update_outputs`, and src/square_wave_gen.c: the signals for fans and motherboard.
-- The hardware is what was last written to it.
pub mod Limits
mod Tests
use fanpico.Base.{ℕ, ◌+◌, ◌-◌, Bool, true, false, not, ltb, if◌then◌else◌, update}
use fanpico.Base.Arith.{Arith}
use fanpico.Base.Loops.{for_range}
use fanpico.Types.{FanpicoConfig, FanpicoState, MbInput, RpmMode, rmode_tacho, rmode_lra}
use fanpico.Timing.{check_for_change}
use fanpico.Filters.{Heap}
use fanpico.Pwm.{pwm_level, calculate_pwm_duty}
use fanpico.Tacho.{calculate_tacho_freq}

-- The levels of the PWM slices, the periods of the square wave generators and the levels of the
-- locked rotor alarms.
pub record Signals : Type 0 where
  pub gpio_level : ℕ → ℕ
  pub period : ℕ → ℕ
  pub lra : ℕ → Bool

-- What the outputs depend on beside the state: the board, the clock and `pwm_out_top`.
pub record OutputSetup : Type 0 where
  pub fan_count : ℕ
  pub mbfan_count : ℕ
  pub sys_clock : ℕ
  pub pwm_out_top : ℕ

-- The state, the contexts of the filters and the hardware.
abbrev pub World : Type 0 → Type 0
World R = FanpicoState R × Heap R × Signals

module _ {R : Type 0} ⦃a : Arith R⦄ where
  unfoldable pub square_wave_period : ℕ → R → ℕ
  square_wave_period sys_clock freq =
      let period = a.to_uint (a.div (a.of_ℕ sys_clock) (a.mul freq (a.of_ℕ 2))) in
      if a.lt (a.of_ℕ 0) freq then (if ltb 5 period then period - 5 else period) else 0

  -- The level of the alarm for a frequency, which is not negative.
  unfoldable pub lra_level : MbInput R → R → Bool
  lra_level mbfan freq =
      let scaled = a.single (a.mul freq (a.of_ℕ 60)) in
      let rpm = a.to_uint (a.single (a.div scaled (a.of_ℕ mbfan.rpm_factor))) in
      let lra = ltb rpm mbfan.lra_treshold in if mbfan.lra_invert then not lra else lra

  unfoldable pub write_tacho : ℕ → MbInput R → ℕ → R → RpmMode → Signals → Signals
  unfolding square_wave_period lra_level
  write_tacho sys_clock mbfan i freq rmode_tacho hw = record hw {
    period = update hw.period i (square_wave_period sys_clock freq);
  }
  write_tacho sys_clock mbfan i freq rmode_lra hw = record hw {
    lra = update hw.lra i (lra_level mbfan freq);
  }

  -- A round of the loop over the fans. `cfg` is the configuration of the other core, where the
  -- hysteresis is read; `config` is the own copy.
  unfoldable pub update_fan :
      OutputSetup → FanpicoConfig R → FanpicoConfig R → ℕ → ℕ → World R → World R
  update_fan setup cfg config now i (st, heap, hw) =
      let (val, heap') = calculate_pwm_duty st config i now heap in
      let duty = a.single val in
      let st' = record st { fan_duty = update st.fan_duty i duty } in
      if check_for_change (st.fan_duty_prev i) duty (cfg.fans i).pwm_hyst
      then (
        record st' { fan_duty_prev = update st.fan_duty_prev i duty },
        heap',
        record hw { gpio_level = update hw.gpio_level i (pwm_level setup.pwm_out_top duty) },
      )
      else (st', heap', hw)

  -- A round of the loop over the connectors of the motherboard.
  unfoldable pub update_mbfan :
      OutputSetup → FanpicoConfig R → FanpicoConfig R → ℕ → World R → World R
  update_mbfan setup cfg config i (st, heap, hw) =
      let freq = a.single (calculate_tacho_freq setup.fan_count st config i) in
      let st' = record st { mbfan_freq = update st.mbfan_freq i freq } in
      let mbfan = cfg.mbfans i in
      if check_for_change (st.mbfan_freq_prev i) freq (a.of_ℕ 1)
      then (
        record st' { mbfan_freq_prev = update st.mbfan_freq_prev i freq },
        heap,
        write_tacho setup.sys_clock mbfan i freq mbfan.rpm_mode hw,
      )
      else (st', heap, hw)

  unfoldable pub update_outputs :
      OutputSetup → FanpicoConfig R → FanpicoConfig R → ℕ → World R → World R
  update_outputs setup cfg config now w =
      for_range setup.mbfan_count (update_mbfan setup cfg config)
        (for_range setup.fan_count (update_fan setup cfg config now) w)
