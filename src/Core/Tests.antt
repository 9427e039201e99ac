-- ===== src/Core/Tests.antt =====
-- src/fanpico.c, `core1_main`: the theorems at inputs.
use fanpico.Base.{ℕ, ◌*◌, refl, false, true, none, inl, [], ◌∷◌, arith}
use fanpico.Base.Int.{pos}
use fanpico.Base.Arith.{ℕ_arith}
use fanpico.Samples.{config, start, cells}
use fanpico.Pulse.{PulseState}
use fanpico.Core.{CoreSetup, Seen, Core1, core1_run}
use fanpico.Core.Passes.{InOrder, core1_run-InOrder}

abbrev setup : CoreSetup ℕ
setup = record {
  outputs = record { fan_count = 8; mbfan_count = 4; sys_clock = 125_000_000; pwm_out_top = 4999 };
  sensor_count = 2;
  ports = λ i. i;
  rate = 1000;
}

abbrev seen : Seen ℕ
seen = record {
  pulses = (3, 2_000_100) ∷ [];
  lra_pin = false;
  counters = λ i. i * 100;
  adc = λ i k. 1000;
  converts = true;
  reading = λ addr. none;
  cfg = config;
  config_mutex = true;
  state_mutex = false;
  tacho_at = 3_000_000;
  pwm_at = 3_000_010;
  stopped_at = 3_000_020;
  temp_at = 3_000_030;
  onewire_at = 3_000_040;
  outputs_at = 3_000_050;
  config_at = 3_000_060;
  state_at = 3_000_070;
}

abbrev idle : PulseState
idle = record {
  pulse_pin = 3;
  pulse_events = 8;
  pulse_counter = 2;
  measure_complete = false;
  pulse_start = 0;
  pulse_end = 0;
  enabled = true;
}

abbrev first : Core1 ℕ
first = record {
  config = config;
  state = start;
  heap = cells;
  hw = record { gpio_level = λ i. 0; period = λ i. 0; lra = λ i. false };
  reader = record {
    state = 0;
    q = 0;
    start_t = 0;
    fan = none;
    queues = record { queue = λ i. 0; queue_pos = λ q. 0 };
    mux = (false, false, false);
    pulse = idle;
    fan_tacho_freq = λ i. 0;
  };
  pwm_in = record { state = 0; t_start = 0; counting = false; mbfan_pwm_duty = λ i. 0 };
  bus = record { ready = true; devices = 2; addr = λ i. i; step = 0; sensor = 0 };
  onewire_delay = pos 5000;
  t_temp = 0;
  t_onewire_temp = 0;
  t_tacho = 0;
  t_poll_pwm = 0;
  t_set_outputs = 0;
  t_config = 0;
  t_state = 0;
  transfer_state = start;
}

core1_run-InOrder_example : InOrder (core1_run setup (seen ∷ seen ∷ []) first)
core1_run-InOrder_example = core1_run-InOrder setup (seen ∷ seen ∷ []) first record {
  reader = record { state_in = omega arith; q_in = omega arith; selected = refl };
  pwm_in = inl (refl, refl);
  devices = omega arith;
  step = omega arith;
  sensor = omega arith;
}
