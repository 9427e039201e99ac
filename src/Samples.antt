-- ===== src/Samples.antt =====
-- A configuration and a state in whole numbers, on which the tests of the components run.
use fanpico.Base.{ℕ, ◌+◌, ◌*◌, false, some, none, [], ltb, if◌then◌else◌}
use fanpico.Base.Int.{pos}
use fanpico.Base.Arith.{ℕ_arith}
use fanpico.Types.{
  PwmMap, TempMap, FanOutput, MbInput, SensorInput, VsensorInput, FanpicoConfig, FanpicoState,
  pwm_fixed, tacho_fan, temp_internal, vsmode_max, rmode_tacho, filter_none, filter_sma,
}
use fanpico.Filters.{Heap, sma}
use fanpico.Filters.Sma.{fresh}

abbrev pub identity : PwmMap
identity = record { points = 2; pwm = λ i. (i * 100, i * 100) }

abbrev pub fixed_fan : FanOutput ℕ
fixed_fan = record {
  name = [];
  tacho_hyst = 1;
  pwm_hyst = 1;
  min_pwm = 20;
  max_pwm = 90;
  pwm_coefficient = 1;
  s_type = pwm_fixed;
  s_id = 95;
  curve = identity;
  filter = filter_sma;
  filter_ctx = some 0;
  rpm_mode = rmode_tacho;
  rpm_factor = 2;
  lra_low = 0;
  lra_high = 0;
}

abbrev pub mb : MbInput ℕ
mb = record {
  name = [];
  rpm_mode = rmode_tacho;
  min_rpm = 0;
  max_rpm = 5000;
  rpm_coefficient = 1;
  rpm_factor = 2;
  lra_treshold = 0;
  lra_invert = false;
  s_type = tacho_fan;
  s_id = 0;
  sources = λ i. 0;
  curve = record { points = 2; tacho = λ i. (i * 5000, i * 5000) };
  filter = filter_none;
  filter_ctx = none;
}

abbrev pub temps : TempMap ℕ
temps = record { points = 2; temp = λ i. (i * 40 + 20, i * 100) }

abbrev pub sensor : SensorInput ℕ
sensor = record {
  type = temp_internal;
  name = [];
  thermistor_nominal = 10000;
  temp_nominal = 25;
  beta_coefficient = 3950;
  temp_offset = 0;
  temp_coefficient = 1;
  curve = temps;
  filter = filter_none;
  filter_ctx = none;
}

abbrev pub vsensor : VsensorInput ℕ
vsensor = record {
  name = [];
  mode = vsmode_max;
  default_temp = 0;
  timeout = pos 30;
  sensors = λ i. if ltb i 2 then i + 1 else 0;
  onewire_addr = 0;
  i2c_type = 0;
  i2c_addr = 0;
  curve = temps;
  filter = filter_none;
  filter_ctx = none;
}

abbrev pub config : FanpicoConfig ℕ
config = record {
  sensors = λ i. sensor;
  vsensors = λ i. vsensor;
  fans = λ i. fixed_fan;
  mbfans = λ i. mb;
  onewire_active = false;
  adc_vref = 3;
  vtemp = λ i. 0;
  vhumidity = λ i. 0;
  vpressure = λ i. 0;
  vtemp_updated = λ i. 0;
}

abbrev pub start : FanpicoState ℕ
start = record {
  mbfan_duty = λ i. 0;
  mbfan_duty_prev = λ i. 0;
  fan_freq = λ i. 0;
  fan_freq_prev = λ i. 0;
  temp = λ i. i + 30;
  temp_prev = λ i. 0;
  vtemp = λ i. 0;
  vhumidity = λ i. 0;
  vpressure = λ i. 0;
  vtemp_updated = λ i. 0;
  vtemp_prev = λ i. 0;
  onewire_temp = λ i. 0;
  onewire_temp_updated = λ i. 0;
  prev_onewire_temp = λ i. 0;
  fan_duty = λ i. 0;
  fan_duty_prev = λ i. 0;
  mbfan_freq = λ i. 0;
  mbfan_freq_prev = λ i. 0;
}

abbrev pub cells : Heap ℕ
cells p = sma (fresh 2)
