-- ===== src/Core/Passes.antt =====
-- src/fanpico.c, `core1_main`: what holds after any number of passes.
use fanpico.Base.{
  ℕ, ◌≤◌, Bool, ◌&&◌, inl, inr, arith, Option, Bool-cases, Option-cases, List, [], ◌∷◌,
}
use fanpico.Base.Int.{pos, pos_part, ltb_ℤ}
use fanpico.Base.Arith.{Arith}
use fanpico.Types.{FanpicoState, onewire_max_count}
use fanpico.Timing.{time_passed}
use fanpico.Pwm.Measure.{IsConsistent, get_pwm_duty_cycles-IsConsistent}
use fanpico.Tacho.Multiplexed.{IsValid, read_tacho_multiplexed-IsValid}
use fanpico.OneWire.{OneWire, onewire_read_temps, read_sensor}
use fanpico.Core.{
  CoreSetup, Seen, Core1, tacho_part, pwm_part, temp_part, onewire_part, outputs_part,
  handover_part, core1_pass, core1_run,
}

-- The state machines of the components are in order: the tachometer reader, the measurement of
-- the PWM inputs, and the 1-Wire bus: its step is one of three, it stands at a device or behind
-- the last one, and the devices fit the arrays of the state.
pub record InOrder {R : Type 0} (c : Core1 R) : Type 0 where
  pub reader : IsValid c.reader
  pub pwm_in : IsConsistent c.pwm_in
  pub devices : c.bus.devices ≤ onewire_max_count
  pub step : c.bus.step ≤ 2
  pub sensor : c.bus.sensor ≤ c.bus.devices

module _ {R : Type 0} ⦃a : Arith R⦄ (setup : CoreSetup R) (seen : Seen R) where
  tacho_part-InOrder : (c : Core1 R) → InOrder c → InOrder (tacho_part setup seen c)
  unfolding tacho_part
  tacho_part-InOrder c h = record {
    reader =
        read_tacho_multiplexed-IsValid setup.ports seen.cfg seen.lra_pin seen.tacho_at seen.pulses
          c.reader h.reader;
    pwm_in = h.pwm_in;
    devices = h.devices;
    step = h.step;
    sensor = h.sensor;
  }

  pwm_part-InOrder : (c : Core1 R) → InOrder c → InOrder (pwm_part setup seen c)
  unfolding pwm_part
  pwm_part-InOrder c h = record {
    reader = h.reader;
    pwm_in =
        get_pwm_duty_cycles-IsConsistent c.config seen.counters setup.outputs.mbfan_count setup.rate
          seen.pwm_at seen.stopped_at c.pwm_in c.heap h.pwm_in;
    devices = h.devices;
    step = h.step;
    sensor = h.sensor;
  }

  temp_part-InOrder : (c : Core1 R) → InOrder c → InOrder (temp_part setup seen c)
  unfolding temp_part
  temp_part-InOrder c h = elim (Bool-cases (time_passed c.t_temp 2000 seen.temp_at).0) [
    | inl e ↦ rw e record {
      reader = h.reader;
      pwm_in = h.pwm_in;
      devices = h.devices;
      step = h.step;
      sensor = h.sensor;
    }
    | inr e ↦ rw e record {
      reader = h.reader;
      pwm_in = h.pwm_in;
      devices = h.devices;
      step = h.step;
      sensor = h.sensor;
    }
  ]

  outputs_part-InOrder : (c : Core1 R) → InOrder c → InOrder (outputs_part setup seen c)
  unfolding outputs_part
  outputs_part-InOrder c h = elim (Bool-cases (time_passed c.t_set_outputs 500 seen.outputs_at).0) [
    | inl e ↦ rw e record {
      reader = h.reader;
      pwm_in = h.pwm_in;
      devices = h.devices;
      step = h.step;
      sensor = h.sensor;
    }
    | inr e ↦ rw e record {
      reader = h.reader;
      pwm_in = h.pwm_in;
      devices = h.devices;
      step = h.step;
      sensor = h.sensor;
    }
  ]

  onewire_read_temps_in_order :
      (converts : Bool) (reading : ℕ → Option R) (now : ℕ) (bus : OneWire) (st : FanpicoState R)
      → bus.devices ≤ onewire_max_count
      → bus.sensor ≤ bus.devices
      → let b = (onewire_read_temps converts reading now (bus, st)).1 in
        (b.devices ≤ onewire_max_count) × (b.sensor ≤ b.devices) × (bus.step ≤ 2 → b.step ≤ 2)
  unfolding onewire_read_temps read_sensor
  onewire_read_temps_in_order converts reading now bus st h k =
      elim (Option-cases (reading (bus.addr bus.sensor))) [
        | inl n ↦ rw n (ground arith)
        | inr (t, n) ↦ rw n (ground arith)
      ]

  onewire_part-InOrder : (c : Core1 R) → InOrder c → InOrder (onewire_part setup seen c)
  unfolding onewire_part
  onewire_part-InOrder c h =
      let passed = (time_passed c.t_onewire_temp (pos_part c.onewire_delay) seen.onewire_at).0 in
      elim (Bool-cases (c.config.onewire_active && ltb_ℤ (pos 0) c.onewire_delay)) [
        | inl on ↦ elim (Bool-cases passed) [
          | inl e ↦
              rw (on, e)
                (let next =
                    onewire_read_temps_in_order seen.converts seen.reading seen.onewire_at c.bus
                      c.state h.devices h.sensor in
                  record {
                    reader = h.reader;
                    pwm_in = h.pwm_in;
                    devices = next.0;
                    step = next.2 h.step;
                    sensor = next.1;
                  })
          | inr e ↦
              rw (on, e)
                record {
                  reader = h.reader;
                  pwm_in = h.pwm_in;
                  devices = h.devices;
                  step = h.step;
                  sensor = h.sensor;
                }
        ]
        | inr off ↦ rw off h
      ]

  core1_pass-InOrder : (c : Core1 R) → InOrder c → InOrder (core1_pass setup seen c)
  unfolding core1_pass handover_part
  core1_pass-InOrder c h =
      let h1 = tacho_part-InOrder c h in
      let h2 = pwm_part-InOrder _ h1 in
      let h3 = temp_part-InOrder _ h2 in
      let h4 = onewire_part-InOrder _ h3 in
      let h5 = outputs_part-InOrder _ h4 in
      record {
        reader = h5.reader;
        pwm_in = h5.pwm_in;
        devices = h5.devices;
        step = h5.step;
        sensor = h5.sensor;
      }

module _ {R : Type 0} ⦃a : Arith R⦄ (setup : CoreSetup R) where
  -- Whatever the passes see: if the state machines of the second core are in order at the start,
  -- they are after every number of passes.
  pub core1_run-InOrder :
      (passes : List (Seen R)) (c : Core1 R) → InOrder c → InOrder (core1_run setup passes c)
  unfolding core1_run
  core1_run-InOrder [] c h = h
  core1_run-InOrder (seen ∷ earlier) c h =
      core1_pass-InOrder setup seen (core1_run setup earlier c) (core1_run-InOrder earlier c h)
