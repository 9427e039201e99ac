-- ===== src/Core.antt =====
-- src/fanpico.c, `core1_main`: the loop of the second core, which reads all inputs and sets all
-- outputs, on a board with a tachometer multiplexer. One pass of the loop is a function of what
-- the pass sees: the pins, the clock, the bus and the two mutexes.
pub mod Passes
mod Tests
use fanpico.Base.{ℕ, ◌+◌, Bool, true, false, ◌&&◌, Option, List, [], ◌∷◌, if◌then◌else◌, update}
use fanpico.Base.Int.{ℤ, pos, pos_part, ltb_ℤ}
use fanpico.Base.Arith.{Arith}
use fanpico.Base.Loops.{for_range}
use fanpico.Types.{FanpicoConfig, FanpicoState, vsensor_max_count}
use fanpico.Timing.{time_passed, check_for_change}
use fanpico.Filters.{Heap}
use fanpico.Pulse.{edges}
use fanpico.Pwm.{PwmInputs, get_pwm_duty_cycles}
use fanpico.Sensors.{literal, get_temperature, get_vsensor}
use fanpico.Tacho.{Reader, read_tacho_multiplexed, update_tacho_input_freq}
use fanpico.OneWire.{OneWire, onewire_address, onewire_read_temps}
use fanpico.Outputs.{Signals, OutputSetup, World, update_outputs}

-- The board: `ports` gives the port of the multiplexer for a fan, `rate` is `pwm_in_count_rate`.
pub record CoreSetup (R : Type 0) : Type 0 where
  pub outputs : OutputSetup
  pub sensor_count : ℕ
  pub ports : ℕ → ℕ
  pub rate : R

-- What a pass sees. The clock is read once in each part of the pass, and once more when the PWM
-- slices have been stopped. `cfg` is the configuration that the two cores share.
pub record Seen (R : Type 0) : Type 0 where
  pub pulses : List (ℕ × ℕ)
  pub lra_pin : Bool
  pub counters : ℕ → ℕ
  pub adc : ℕ → ℕ → ℕ
  pub converts : Bool
  pub reading : ℕ → Option R
  pub cfg : FanpicoConfig R
  pub config_mutex : Bool
  pub state_mutex : Bool
  pub tacho_at : ℕ
  pub pwm_at : ℕ
  pub stopped_at : ℕ
  pub temp_at : ℕ
  pub onewire_at : ℕ
  pub outputs_at : ℕ
  pub config_at : ℕ
  pub state_at : ℕ

-- The locals of `core1_main`, the statics of the components, and `transfer_state`.
pub record Core1 (R : Type 0) : Type 0 where
  pub config : FanpicoConfig R
  pub state : FanpicoState R
  pub heap : Heap R
  pub hw : Signals
  pub reader : Reader R
  pub pwm_in : PwmInputs R
  pub bus : OneWire
  pub onewire_delay : ℤ
  pub t_temp : ℕ
  pub t_onewire_temp : ℕ
  pub t_tacho : ℕ
  pub t_poll_pwm : ℕ
  pub t_set_outputs : ℕ
  pub t_config : ℕ
  pub t_state : ℕ
  pub transfer_state : FanpicoState R

module _ {R : Type 0} ⦃a : Arith R⦄ (setup : CoreSetup R) (seen : Seen R) where
  -- The interrupts since the last pass come first. src/tacho.c reads the shared configuration.
  unfoldable pub tacho_part : Core1 R → Core1 R
  tacho_part c =
      let before = record c.reader { pulse = edges seen.pulses c.reader.pulse } in
      let reader = read_tacho_multiplexed setup.ports seen.cfg seen.lra_pin seen.tacho_at before in
      let (passed, t) = time_passed c.t_tacho 1000 seen.tacho_at in
      let updated =
        update_tacho_input_freq setup.outputs.fan_count seen.cfg reader.fan_tacho_freq c.state in
      record c { reader = reader; t_tacho = t; state = if passed then updated else c.state }

  unfoldable pub poll_mbfan : (ℕ → R) → ℕ → FanpicoState R → FanpicoState R
  poll_mbfan mbfan_pwm_duty i st =
      let duty = a.round (mbfan_pwm_duty i) in
      let st' = record st { mbfan_duty = update st.mbfan_duty i duty } in
      if check_for_change (st.mbfan_duty_prev i) duty (literal 3 2)
      then record st' { mbfan_duty_prev = update st.mbfan_duty_prev i duty }
      else st'

  unfoldable pub pwm_part : Core1 R → Core1 R
  pwm_part c =
      let n = setup.outputs.mbfan_count in
      let (pwm_in, heap) =
        get_pwm_duty_cycles n setup.rate c.config seen.counters seen.pwm_at seen.stopped_at
          (c.pwm_in, c.heap) in
      let (passed, t) = time_passed c.t_poll_pwm 200 seen.pwm_at in
      let polled = for_range n (poll_mbfan pwm_in.mbfan_pwm_duty) c.state in
      record c {
        pwm_in = pwm_in;
        heap = heap;
        t_poll_pwm = t;
        state = if passed then polled else c.state;
      }

  unfoldable pub read_temp : FanpicoConfig R → ℕ → FanpicoState R × Heap R → FanpicoState R × Heap R
  read_temp config i (st, heap) =
      let (val, heap') =
        get_temperature setup.sensor_count (seen.adc i) i config seen.temp_at heap in
      let t = a.single val in
      let st' = record st { temp = update st.temp i t } in
      if check_for_change (st.temp_prev i) t (literal 1 2)
      then (record st' { temp_prev = update st.temp_prev i t }, heap')
      else (st', heap')

  unfoldable pub read_vtemp :
      FanpicoConfig R → OneWire → ℕ → FanpicoState R × Heap R → FanpicoState R × Heap R
  read_vtemp config bus i (st, heap) =
      let (val, st1, heap') = get_vsensor (onewire_address bus) i config seen.temp_at (st, heap) in
      let t = a.single val in
      let st' = record st1 { vtemp = update st1.vtemp i t } in
      if check_for_change (st1.vtemp_prev i) t (literal 1 2)
      then (record st' { vtemp_prev = update st1.vtemp_prev i t }, heap')
      else (st', heap')

  unfoldable pub temp_part : Core1 R → Core1 R
  temp_part c =
      let (passed, t) = time_passed c.t_temp 2000 seen.temp_at in
      let (st, heap) =
        for_range vsensor_max_count (read_vtemp c.config c.bus)
          (for_range setup.sensor_count (read_temp c.config) (c.state, c.heap)) in
      if passed then record c { t_temp = t; state = st; heap = heap } else record c { t_temp = t }

  unfoldable pub onewire_part : Core1 R → Core1 R
  onewire_part c =
      let (passed, t) = time_passed c.t_onewire_temp (pos_part c.onewire_delay) seen.onewire_at in
      let (delay, bus, st) =
        onewire_read_temps seen.converts seen.reading seen.onewire_at (c.bus, c.state) in
      if c.config.onewire_active && ltb_ℤ (pos 0) c.onewire_delay
      then (if passed
          then record c { t_onewire_temp = t; onewire_delay = delay; bus = bus; state = st }
          else record c { t_onewire_temp = t })
      else c

  unfoldable pub outputs_part : Core1 R → Core1 R
  outputs_part c =
      let (passed, t) = time_passed c.t_set_outputs 500 seen.outputs_at in
      let (st, heap, hw) =
        update_outputs setup.outputs seen.cfg c.config seen.outputs_at (c.state, c.heap, c.hw) in
      if passed
      then record c { t_set_outputs = t; state = st; heap = heap; hw = hw }
      else record c { t_set_outputs = t }

  -- The two copies between the cores, each under its mutex if that is free in time.
  unfoldable pub handover_part : Core1 R → Core1 R
  handover_part c =
      let (config_passed, t) = time_passed c.t_config 1000 seen.config_at in
      let (state_passed, u) = time_passed c.t_state 500 seen.state_at in
      record c {
        t_config = t;
        t_state = u;
        config = if config_passed && seen.config_mutex then seen.cfg else c.config;
        transfer_state = if state_passed && seen.state_mutex then c.state else c.transfer_state;
      }

  unfoldable pub core1_pass : Core1 R → Core1 R
  core1_pass c = handover_part (outputs_part (onewire_part (temp_part (pwm_part (tacho_part c)))))

module _ {R : Type 0} ⦃a : Arith R⦄ (setup : CoreSetup R) where
  -- The passes of the loop, the latest first.
  unfoldable pub core1_run : List (Seen R) → Core1 R → Core1 R
  core1_run [] c = c
  core1_run (seen ∷ earlier) c = core1_pass setup seen (core1_run earlier c)
