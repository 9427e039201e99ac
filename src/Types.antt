-- ===== src/Types.antt =====
-- src/fanpico.h: the enumerations and the structures that the control core works on.
-- A C array is a function of its index. `R` is the type of floating-point values. A `void *`
-- filter context is `none` for NULL or the index of a cell of the heap of Filters.antt, so that
-- two configurations that copy the pointer share the cell.
pub mod Board
mod Limits
pub use Limits.*
use fanpico.Base.{ℕ, Bool, Option, List}
use fanpico.Base.Int.{ℤ}

pub data PwmSource : Type 0 where
  pwm_fixed pwm_mb pwm_sensor pwm_fan pwm_vsensor : PwmSource

pub data FilterType : Type 0 where
  filter_none filter_lossypeak filter_sma : FilterType

pub data TachoSource : Type 0 where
  tacho_fixed tacho_fan tacho_min tacho_max tacho_avg : TachoSource

pub data TempSensorType : Type 0 where
  temp_internal temp_external : TempSensorType

pub data VsensorMode : Type 0 where
  vsmode_manual vsmode_max vsmode_min vsmode_avg vsmode_delta vsmode_onewire vsmode_i2c :
      VsensorMode

pub data RpmMode : Type 0 where
  rmode_tacho rmode_lra : RpmMode

-- `struct pwm_map`, `struct tacho_map` and `struct temp_map`: rows (x, y) with `points` in use.
pub record PwmMap : Type 0 where
  pub points : ℕ
  pub pwm : ℕ → ℕ × ℕ

pub record TachoMap : Type 0 where
  pub points : ℕ
  pub tacho : ℕ → ℕ × ℕ

pub record TempMap (R : Type 0) : Type 0 where
  pub points : ℕ
  pub temp : ℕ → R × R

pub record FanOutput (R : Type 0) : Type 0 where
  pub name : List ℕ
  pub tacho_hyst : R
  pub pwm_hyst : R
  pub min_pwm : ℕ
  pub max_pwm : ℕ
  pub pwm_coefficient : R
  pub s_type : PwmSource
  pub s_id : ℕ
  pub curve : PwmMap
  pub filter : FilterType
  pub filter_ctx : Option ℕ
  pub rpm_mode : RpmMode
  pub rpm_factor : ℕ
  pub lra_low : ℕ
  pub lra_high : ℕ

pub record MbInput (R : Type 0) : Type 0 where
  pub name : List ℕ
  pub rpm_mode : RpmMode
  pub min_rpm : ℕ
  pub max_rpm : ℕ
  pub rpm_coefficient : R
  pub rpm_factor : ℕ
  pub lra_treshold : ℕ
  pub lra_invert : Bool
  pub s_type : TachoSource
  pub s_id : ℕ
  pub sources : ℕ → ℕ
  pub curve : TachoMap
  pub filter : FilterType
  pub filter_ctx : Option ℕ

pub record SensorInput (R : Type 0) : Type 0 where
  pub type : TempSensorType
  pub name : List ℕ
  pub thermistor_nominal : R
  pub temp_nominal : R
  pub beta_coefficient : R
  pub temp_offset : R
  pub temp_coefficient : R
  pub curve : TempMap R
  pub filter : FilterType
  pub filter_ctx : Option ℕ

pub record VsensorInput (R : Type 0) : Type 0 where
  pub name : List ℕ
  pub mode : VsensorMode
  pub default_temp : R
  pub timeout : ℤ
  pub sensors : ℕ → ℕ
  pub onewire_addr : ℕ
  pub i2c_type : ℕ
  pub i2c_addr : ℕ
  pub curve : TempMap R
  pub filter : FilterType
  pub filter_ctx : Option ℕ

-- The part of `struct fanpico_config` that the control loop reads.
pub record FanpicoConfig (R : Type 0) : Type 0 where
  pub sensors : ℕ → SensorInput R
  pub vsensors : ℕ → VsensorInput R
  pub fans : ℕ → FanOutput R
  pub mbfans : ℕ → MbInput R
  pub onewire_active : Bool
  pub adc_vref : R
  pub vtemp : ℕ → R
  pub vhumidity : ℕ → R
  pub vpressure : ℕ → R
  pub vtemp_updated : ℕ → ℕ

-- `struct fanpico_state`; a time is a number of microseconds since boot.
pub record FanpicoState (R : Type 0) : Type 0 where
  pub mbfan_duty : ℕ → R
  pub mbfan_duty_prev : ℕ → R
  pub fan_freq : ℕ → R
  pub fan_freq_prev : ℕ → R
  pub temp : ℕ → R
  pub temp_prev : ℕ → R
  pub vtemp : ℕ → R
  pub vhumidity : ℕ → R
  pub vpressure : ℕ → R
  pub vtemp_updated : ℕ → ℕ
  pub vtemp_prev : ℕ → R
  pub onewire_temp : ℕ → R
  pub onewire_temp_updated : ℕ → ℕ
  pub prev_onewire_temp : ℕ → R
  pub fan_duty : ℕ → R
  pub fan_duty_prev : ℕ → R
  pub mbfan_freq : ℕ → R
  pub mbfan_freq_prev : ℕ → R
