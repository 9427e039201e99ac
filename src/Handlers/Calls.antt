-- ===== src/Handlers/Calls.antt =====
-- src/command.c: the calls of the handlers that are modelled, among all handlers.
use fanpico.Base.{if◌then◌else◌}
use fanpico.Base.Int.{pos}
use fanpico.Base.Arith.{Arith}
use fanpico.Types.Board.{Board}
use fanpico.Commands.Func.{
  cmd_fan_name, cmd_fan_min_pwm, cmd_fan_max_pwm, cmd_fan_pwm_coef, cmd_fan_pwm_map, cmd_fan_filter,
  cmd_fan_rpm_factor, cmd_fan_rpm_mode, cmd_fan_source, cmd_fan_tacho_hys, cmd_fan_pwm_hys,
  cmd_mbfan_name, cmd_mbfan_min_rpm, cmd_mbfan_max_rpm, cmd_mbfan_rpm_coef, cmd_mbfan_rpm_map,
  cmd_mbfan_filter, cmd_mbfan_rpm_factor, cmd_mbfan_rpm_mode, cmd_mbfan_source, cmd_sensor_name,
  cmd_sensor_temp_offset, cmd_sensor_temp_coef, cmd_sensor_temp_nominal, cmd_sensor_ther_nominal,
  cmd_sensor_beta_coef, cmd_sensor_temp_map, cmd_sensor_filter, cmd_adc_vref, cmd_vsensor_name,
  cmd_vsensor_source, cmd_vsensor_temp_map, cmd_vsensor_filter, cmd_vsensor_write, cmd_fan_rpm,
  cmd_fan_tacho, cmd_fan_pwm, cmd_fan_read, cmd_mbfan_rpm, cmd_mbfan_tacho, cmd_mbfan_pwm,
  cmd_mbfan_read, cmd_sensor_temp, cmd_vsensor_temp, cmd_vsensor_humidity, cmd_vsensor_pressure,
}
use fanpico.Commands.Run.{Exec}
use fanpico.Handlers.{Env, Session}
use fanpico.Handlers.Fan.{
  fan_name, fan_min_pwm, fan_max_pwm, fan_pwm_coef, fan_pwm_map, fan_filter, fan_rpm_factor,
  fan_rpm_mode, fan_source, fan_tacho_hys, fan_pwm_hys,
}
use fanpico.Handlers.Mbfan.{
  mbfan_name, mbfan_min_rpm, mbfan_max_rpm, mbfan_rpm_coef, mbfan_rpm_map, mbfan_filter,
  mbfan_rpm_factor, mbfan_rpm_mode, mbfan_source,
}
use fanpico.Handlers.Sensor.{
  sensor_name, sensor_temp_offset, sensor_temp_coef, sensor_temp_nominal, sensor_ther_nominal,
  sensor_beta_coef, sensor_temp_map, sensor_filter, adc_vref,
}
use fanpico.Handlers.Vsensor.{
  vsensor_name, vsensor_source, vsensor_temp_map, vsensor_filter, vsensor_write,
}
use fanpico.Handlers.Readings.{
  fan_rpm, fan_tacho, fan_pwm, fan_read, mbfan_rpm, mbfan_tacho, mbfan_pwm, mbfan_read, sensor_temp,
  vsensor_temp, vsensor_humidity, vsensor_pressure,
}

-- `other` is what the rest of the handlers do.
module _ {R : Type 0} ⦃a : Arith R⦄ (e : Env R) (b : Board) (other : Exec (Session R)) where
  unfoldable pub handle : Exec (Session R)
  handle cmd_fan_name = fan_name e b
  handle cmd_fan_min_pwm = fan_min_pwm e b
  handle cmd_fan_max_pwm = fan_max_pwm e b
  handle cmd_fan_pwm_coef = fan_pwm_coef e b
  handle cmd_fan_pwm_map = fan_pwm_map e b
  handle cmd_fan_filter = fan_filter e b
  handle cmd_fan_rpm_factor = fan_rpm_factor e b
  handle cmd_fan_rpm_mode = fan_rpm_mode e b
  handle cmd_fan_source = fan_source e b
  handle cmd_fan_tacho_hys = fan_tacho_hys e b
  handle cmd_fan_pwm_hys = fan_pwm_hys e b
  handle cmd_mbfan_name = mbfan_name e b
  handle cmd_mbfan_min_rpm = mbfan_min_rpm e b
  handle cmd_mbfan_max_rpm = mbfan_max_rpm e b
  handle cmd_mbfan_rpm_coef = mbfan_rpm_coef e b
  handle cmd_mbfan_rpm_map = mbfan_rpm_map e b
  handle cmd_mbfan_filter = mbfan_filter e b
  handle cmd_mbfan_rpm_factor = mbfan_rpm_factor e b
  handle cmd_mbfan_rpm_mode = mbfan_rpm_mode e b
  handle cmd_mbfan_source = mbfan_source e b
  handle cmd_sensor_name = sensor_name e b
  handle cmd_sensor_temp_offset = sensor_temp_offset e b
  handle cmd_sensor_temp_coef = sensor_temp_coef e b
  handle cmd_sensor_temp_nominal = sensor_temp_nominal e b
  handle cmd_sensor_ther_nominal = sensor_ther_nominal e b
  handle cmd_sensor_beta_coef = sensor_beta_coef e b
  handle cmd_sensor_temp_map = sensor_temp_map e b
  handle cmd_sensor_filter = sensor_filter e b
  handle cmd_adc_vref = adc_vref e b
  handle cmd_vsensor_name = vsensor_name e b
  handle cmd_vsensor_source = vsensor_source e b
  handle cmd_vsensor_temp_map = vsensor_temp_map e b
  handle cmd_vsensor_filter = vsensor_filter e b
  handle cmd_vsensor_write = vsensor_write e b
  handle cmd_fan_rpm = fan_rpm e b
  handle cmd_fan_tacho = fan_tacho e b
  handle cmd_fan_pwm = fan_pwm e b
  handle cmd_fan_read = fan_read e b
  handle cmd_mbfan_rpm = mbfan_rpm e b
  handle cmd_mbfan_tacho = mbfan_tacho e b
  handle cmd_mbfan_pwm = mbfan_pwm e b
  handle cmd_mbfan_read = mbfan_read e b
  handle cmd_sensor_temp = sensor_temp e b
  handle cmd_vsensor_temp = vsensor_temp e b
  handle cmd_vsensor_humidity = vsensor_humidity e b
  handle cmd_vsensor_pressure = vsensor_pressure e b
  handle f = other f

  -- Nothing is said of what a handler does once an array was overrun.
  unfoldable pub exec : Exec (Session R)
  unfolding handle
  exec f s args q prev st = if st.broken then (pos 0, st) else handle f s args q prev st
